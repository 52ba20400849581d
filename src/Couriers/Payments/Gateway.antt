-- ===== src/Couriers/Payments/Gateway.antt =====
-- `apply_webhook` of couriers/payments.py: a gateway confirms, reverses or fails a payment.
use alpha_pos_local.Base.{
  ℕ, zero, suc, Bool, Option, none, some, List, [], ◌∷◌, any, find, take, if◌then◌else◌, ok, err,
}
use alpha_pos_local.Base.Text.{Text, codes, text_eq, is_blank, strip}
use alpha_pos_local.Base.Number.{lower}
use alpha_pos_local.Couriers.Payments.Rows.{
  Order, pending, paid, refunded, failed, Payment, Store, payment_paid, no_branch, unknown_order,
  unknown_payment, unsupported_status, Answer, order_is, payment_is, has_external_id, save_payment,
}
use alpha_pos_local.Couriers.Payments.Evidence.{check_capacity}
use alpha_pos_local.Couriers.Payments.Create.{
  Host, Asked, with_evidence, header, repeat, settle_pending, create_payment,
}
use alpha_pos_local.Couriers.Payments.Refund.{on_payment, refund_payment}

-- A call of `apply_webhook`.
pub record Hook : Type 0 where
  pub external_id : Text
  pub payment_id : Option ℕ
  pub status : Text
  pub order_id : Option ℕ
  pub provider : Text
  pub amount : Asked
  pub now : ℕ
  pub fresh_pk : ℕ

abbrev pub is_word : List Text → Text → Bool
is_word words t = any (λ w. text_eq w t) words

abbrev pub paid_words : List Text
paid_words =
    codes "paid" ∷ codes "success" ∷ codes "succeeded" ∷ codes "completed" ∷ codes "confirmed" ∷ []

abbrev pub refund_words : List Text
refund_words = codes "refund" ∷ codes "refunded" ∷ codes "reversed" ∷ codes "chargeback" ∷ []

abbrev pub fail_words : List Text
fail_words =
    codes "fail" ∷ codes "failed" ∷ codes "canceled" ∷ codes "cancelled" ∷ codes "declined" ∷ []

abbrev pub by_external_id : Text → List Payment → Option Payment
by_external_id key payments = if is_blank key then none else find (has_external_id key) payments

-- By its key if one is given, by the external key otherwise.
unfoldable pub resolve : Hook → List Payment → Option Payment
resolve h payments = elim (h.payment_id) [
  | none ↦ by_external_id (take 128 (strip h.external_id)) payments
  | some zero ↦ by_external_id (take 128 (strip h.external_id)) payments
  | some (suc n) ↦ find (payment_is (suc n)) payments
]

-- The branch of an order is known, or nothing is done.
abbrev pub in_branch : Order → Store → Answer → Answer
in_branch o s next = if is_blank o.branch_id then (err no_branch, s) else next

-- A confirmation. The first terminal outcome wins: a late one is acknowledged and changes nothing.
unfoldable pub confirm : Host → Hook → Payment → Order → Store → Answer
confirm host h p o s = elim (p.status) [
  | paid ↦ in_branch o s (repeat host p o none h.now s s)
  | refunded ↦
      in_branch o s (with_evidence host p o s s (λ s'. (ok (some p), header host o none h.now s')))
  | failed ↦ (ok (some p), header host o none h.now s)
  | pending ↦ elim (check_capacity host.is_concrete o p.amount s) [
    | err e ↦ (err e, s)
    | ok u ↦
        in_branch o s (settle_pending host p o p.amount (payment_paid p.pk o.pk ∷ []) h.now s s)
  ]
]

-- A failure only ends a pending row.
unfoldable pub fail : Host → Hook → Payment → Order → Store → Answer
fail host h p o s = elim (p.status) [
  | pending ↦ (
    ok (some (record p { status = failed })),
    header host o none h.now
        (record s { payments = save_payment (record p { status = failed }) s.payments }),
  )
  | _ ↦ (ok (some p), header host o none h.now s)
]

-- A confirmation of a payment that has no row yet creates it for the courier of the order.
unfoldable pub create_for : Host → Hook → ℕ → Store → Answer
create_for host h order s = elim (find (order_is order) s.orders) [
  | none ↦ (err unknown_order, s)
  | some o ↦
      create_payment host
        (record {
          courier = o.courier_id;
          order_id = o.pk;
          seen_total = o.total_amount;
          provider = h.provider;
          amount = h.amount;
          external_id = take 128 (strip h.external_id);
          now = h.now;
          fresh_pk = h.fresh_pk;
        })
        s
]

unfoldable pub on_paid : Host → Hook → Option Payment → Store → Answer
on_paid host h none s = elim (h.order_id) [
  | none ↦ (err unknown_payment, s)
  | some zero ↦ (err unknown_payment, s)
  | some (suc n) ↦ create_for host h (suc n) s
]
on_paid host h (some p) s = on_payment p.order_id p.pk s (λ q o. confirm host h q o s)

unfoldable pub on_refund : Host → Hook → Option Payment → Store → Answer
on_refund host h none s = (err unknown_payment, s)
on_refund host h (some p) s = refund_payment host p.order_id p.pk h.now s

unfoldable pub on_fail : Host → Hook → Option Payment → Store → Answer
on_fail host h none s = (ok none, s)
on_fail host h (some p) s = on_payment p.order_id p.pk s (λ q o. fail host h q o s)

unfoldable pub apply_webhook : Host → Hook → Store → Answer
apply_webhook host h s =
    let status = lower (strip h.status) in
    let payment = resolve h s.payments in
    if is_word paid_words status
    then on_paid host h payment s
    else if is_word refund_words status
    then on_refund host h payment s
    else if is_word fail_words status
    then on_fail host h payment s
    else (err unsupported_status, s)
