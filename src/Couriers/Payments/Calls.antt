-- ===== src/Couriers/Payments/Calls.antt =====
-- The calls of couriers/payments.py, and what none of them can do to the rows.
use alpha_pos_local.Base.{
  ℕ, zero, suc, ◌≡◌, refl, not, Option, none, some, inl, find, if◌then◌else◌, err,
}
use alpha_pos_local.Base.Text.{Text, is_blank, strip}
use alpha_pos_local.Base.Number.{lower}
use alpha_pos_local.Couriers.Payments.Rows.{
  unsupported_status, Order, Payment, Store, Refusal, Answer, pending, failed, order_is, payment_is,
  is_settled,
}
use alpha_pos_local.Couriers.Payments.Evidence.{check_capacity}
use alpha_pos_local.Couriers.Payments.Create.{Host, Ask, header, create_payment}
use alpha_pos_local.Couriers.Payments.Refund.{refund_locked, on_payment, refund_payment}
use alpha_pos_local.Couriers.Payments.Gateway.{
  Hook, in_branch, confirm, fail, create_for, on_paid, on_refund, on_fail, apply_webhook, resolve,
  is_word, paid_words, refund_words, fail_words,
}
use alpha_pos_local.Couriers.Payments.Steps.{Progress, Steps}
use alpha_pos_local.Couriers.Payments.Grows.{
  Grows, Grows-refl, save-Grows, with_evidence-Grows, outcome-Grows, option-Grows, if-Grows,
  status-Grows, Extends, StaysPaid,
}
use alpha_pos_local.Couriers.Payments.Terminal.{
  Stored, Loaded, IsKeyed, header-Grows, loaded, order-Loaded, payment-Stored, create_payment-Grows,
  ask_ledger-Grows, settle_pending-Grows, repeat-Grows,
}

on_payment-Grows :
    (order payment : ℕ) (s : Store) (next : Payment → Order → Answer)
    → ((p : Payment) (o : Order) → Loaded s o → Stored s p → Grows s (next p o).1)
    → Grows s (on_payment order payment s next).1
unfolding on_payment
on_payment-Grows order payment s next f =
    option-Grows s (find (order_is order) s.orders) _ _ (Grows-refl s) (λ o found.
      option-Grows s (find (payment_is payment) s.payments) _ _ (Grows-refl s)
        (λ p at. f p o (order-Loaded order s o found) (payment-Stored payment s p at)))

refund_locked-Grows :
    (host : Host) (p : Payment) (o : Order) (now : ℕ) (s : Store)
    → Loaded s o
    → Grows s (refund_locked host p o now s).1
unfolding refund_locked
refund_locked-Grows host p o now s l =
    if-Grows s (not (is_settled p.status)) _ _ (header-Grows host o none now s s (Grows-refl s) l) (
      if-Grows s (is_blank o.branch_id) _ _ (Grows-refl s) (
        with_evidence-Grows host p o s s _ (Grows-refl s) (λ s' e g.
          status-Grows s p.status _ _ _ _ (λ h. ask_ledger-Grows host p o s s' g)
            (ask_ledger-Grows host p o s s' g) g (ask_ledger-Grows host p o s s' g))))

refund_payment-Grows :
    (host : Host) (order payment now : ℕ) (s : Store)
    → Grows s (refund_payment host order payment now s).1
unfolding refund_payment
refund_payment-Grows host order payment now s =
    on_payment-Grows order payment s _ (λ p o l at. refund_locked-Grows host p o now s l)

in_branch-Grows :
    (o : Order) (s : Store) (next : Answer) → Grows s next.1 → Grows s (in_branch o s next).1
in_branch-Grows o s next g = if-Grows s (is_blank o.branch_id) _ next (Grows-refl s) g

confirm-Grows :
    (host : Host) (h : Hook) (p : Payment) (o : Order) (s : Store)
    → Loaded s o
    → Stored s p
    → Grows s (confirm host h p o s).1
unfolding confirm
confirm-Grows host h p o s l at =
    status-Grows s p.status _ _ _ _
      (λ w.
        outcome-Grows s (check_capacity host.is_concrete o p.amount s) _ _ (λ e. Grows-refl s)
          (λ u e.
            in_branch-Grows o s _
              (settle_pending-Grows host p o p.amount _ h.now s s (Grows-refl s) l at w)))
      (in_branch-Grows o s _ (repeat-Grows host p o none h.now s s (Grows-refl s) l))
      (in_branch-Grows o s _ (
        with_evidence-Grows host p o s s _ (Grows-refl s)
          (λ s' e g. header-Grows host o none h.now s s' g (loaded s s' o e l))))
      (header-Grows host o none h.now s s (Grows-refl s) l)

failed_row-Progress : (p : Payment) → p.status ≡ pending → Progress p (record p { status = failed })
failed_row-Progress p w = record {
  same_order = refl;
  same_courier = refl;
  same_provider = refl;
  same_amount = refl;
  outcome = inl w;
}

fail-Grows :
    (host : Host) (h : Hook) (p : Payment) (o : Order) (s : Store)
    → Loaded s o
    → Stored s p
    → Grows s (fail host h p o s).1
unfolding fail
fail-Grows host h p o s l at =
    let plain : Grows s (header host o none h.now s) =
      header-Grows host o none h.now s s (Grows-refl s) l in
    status-Grows s p.status _ _ _ _
      (λ w.
        header-Grows host o none h.now s _
          (save-Grows p (record p { status = failed }) s refl at (failed_row-Progress p w)) l)
      plain plain plain

create_for-Grows :
    (host : Host) (h : Hook) (order : ℕ) (s : Store)
    → IsKeyed s
    → Grows s (create_for host h order s).1
unfolding create_for
create_for-Grows host h order s keyed =
    option-Grows s (find (order_is order) s.orders) _ _ (Grows-refl s)
      (λ o found. create_payment-Grows host _ s keyed)

on_paid-Grows :
    (host : Host) (h : Hook) (p : Option Payment) (s : Store)
    → IsKeyed s
    → Grows s (on_paid host h p s).1
unfolding on_paid
on_paid-Grows host h none s keyed = for_order h.order_id
  where
    for_order :
        (order : Option ℕ)
        → Grows s
            (elim order as (λ x. Answer) [
              | none ↦ (err Refusal.unknown_payment, s)
              | some zero ↦ (err Refusal.unknown_payment, s)
              | some (suc n) ↦ create_for host h (suc n) s
            ]).1
    for_order none = Grows-refl s
    for_order (some zero) = Grows-refl s
    for_order (some (suc n)) = create_for-Grows host h (suc n) s keyed
on_paid-Grows host h (some p) s keyed =
    on_payment-Grows p.order_id p.pk s _ (λ q o l at. confirm-Grows host h q o s l at)

on_refund-Grows :
    (host : Host) (h : Hook) (p : Option Payment) (s : Store) → Grows s (on_refund host h p s).1
unfolding on_refund
on_refund-Grows host h none s = Grows-refl s
on_refund-Grows host h (some p) s = refund_payment-Grows host p.order_id p.pk h.now s

on_fail-Grows :
    (host : Host) (h : Hook) (p : Option Payment) (s : Store) → Grows s (on_fail host h p s).1
unfolding on_fail
on_fail-Grows host h none s = Grows-refl s
on_fail-Grows host h (some p) s =
    on_payment-Grows p.order_id p.pk s _ (λ q o l at. fail-Grows host h q o s l at)

apply_webhook-Grows :
    (host : Host) (h : Hook) (s : Store) → IsKeyed s → Grows s (apply_webhook host h s).1
unfolding apply_webhook
apply_webhook-Grows host h s keyed =
    let word : Text = lower (strip h.status) in
    let p : Option Payment = resolve h s.payments in
    let last : Answer =
      if is_word fail_words word then on_fail host h p s else (err unsupported_status, s) in
    let rest : Answer = if is_word refund_words word then on_refund host h p s else last in
    if-Grows s (is_word paid_words word) (on_paid host h p s) rest (on_paid-Grows host h p s keyed)
      (if-Grows s (is_word refund_words word) (on_refund host h p s) last
        (on_refund-Grows host h p s)
        (if-Grows s (is_word fail_words word) (on_fail host h p s) (err unsupported_status, s)
          (on_fail-Grows host h p s) (Grows-refl s)))

pub data Call : Type 0 where
  creating : Ask → Call
  refunding : (order payment now : ℕ) → Call
  notified : Hook → Call

abbrev pub run : Host → Call → Store → Store
run host (Call.creating ask) s = (create_payment host ask s).1
run host (Call.refunding order payment now) s = (refund_payment host order payment now s).1
run host (Call.notified h) s = (apply_webhook host h s).1

run-Grows : (host : Host) (c : Call) (s : Store) → IsKeyed s → Grows s (run host c s)
run-Grows host (Call.creating ask) s keyed = create_payment-Grows host ask s keyed
run-Grows host (Call.refunding order payment now) s keyed =
    refund_payment-Grows host order payment now s
run-Grows host (Call.notified h) s keyed = apply_webhook-Grows host h s keyed

-- In a table with one row for each key, no call of the payment service or its gateway, whether it goes
-- through or is refused, removes a collection, changes its order, courier, provider or amount, or
-- changes the status or the time of one that is no longer pending.
pub run-Steps :
    (host : Host) (c : Call) (s : Store) → IsKeyed s → Steps s.payments (run host c s).payments
run-Steps host c s keyed = (run-Grows host c s keyed).payments

-- In such a table, no call makes a paid order unpaid, changes its total or the time of its accounting,
-- or clears the method or the time of its payment: both stay as they are, or both are written anew.
pub run-StaysPaid :
    (host : Host) (c : Call) (s : Store) → IsKeyed s → StaysPaid s.orders (run host c s).orders
run-StaysPaid host c s keyed = (run-Grows host c s keyed).headers

-- In such a table, no call changes or removes a row of evidence or of the till: evidence is only
-- added, behind the rows that are there.
pub run-Extends :
    (host : Host) (c : Call) (s : Store)
    → IsKeyed s
    → Extends s.evidence (run host c s).evidence × ((run host c s).till ≡ s.till)
run-Extends host c s keyed =
    let g : Grows s (run host c s) = run-Grows host c s keyed in (g.evidence, g.same_till)
