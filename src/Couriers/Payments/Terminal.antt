-- ===== src/Couriers/Payments/Terminal.antt =====
-- Every service call of couriers/payments.py keeps to `Grows`.
use alpha_pos_local.Base.{
  ℕ, ◌≡◌, refl, ap, ◌∙◌, Bool, true, false, Option, none, some, List, [], ◌∷◌, ◌==◌, inl, inr, find,
  find_sound, take, if◌then◌else◌, arith, All, All-find,
}
use alpha_pos_local.Base.Int.{ℤ, pos}
use alpha_pos_local.Base.Text.{Text, is_blank, strip}
use alpha_pos_local.Base.Number.{upper}
use alpha_pos_local.Base.Sorting.{All-keep, All-sort_by, All-head}
use alpha_pos_local.Couriers.Payments.Rows.{
  Order, Payment, Store, Effect, Refund, pending, order_is, payment_is, has_external_id,
  save_payment, payment_refunded,
}
use alpha_pos_local.Couriers.Payments.Evidence.{check_capacity}
use alpha_pos_local.Couriers.Payments.Create.{
  Host, Ask, coerce_amount, check_order, blank_event, older, header, emit, collect, repeat,
  settle_row, settle_pending, repeated, new_payment, insert, by_key, create_locked, create_payment,
  manual_external_id, paid_effects,
}
use alpha_pos_local.Couriers.Payments.Refund.{ask_ledger}
use alpha_pos_local.Couriers.Payments.Steps.{Progress, find-save_same}
use alpha_pos_local.Couriers.Payments.Grows.{
  Grows, Grows-refl, Grows-trans, save-Grows, append-Grows, emit-Grows, recompute-Grows,
  with_evidence-Grows, outcome-Grows, option-Grows, if-Grows, status-Grows, refunds-Grows,
}

-- A row that can be found under its key.
abbrev pub Stored : Store → Payment → Type 0
Stored s p = find (payment_is p.pk) s.payments ≡ some p

abbrev pub Loaded : Store → Order → Type 0
Loaded s o = find (order_is o.pk) s.orders ≡ some o

-- Recomputing the header at the end of a step.
pub header-Grows :
    (host : Host) (o : Order) (at : Option ℕ) (now : ℕ) (start s : Store)
    → Grows start s
    → Loaded s o
    → Grows start (header host o at now s)
header-Grows host o at now start s g l =
    Grows-trans start s _ g (recompute-Grows host.is_concrete o at now s l)

pub loaded : (s s' : Store) (o : Order) → s'.orders ≡ s.orders → Loaded s o → Loaded s' o
loaded s s' o e l = ap (find (order_is o.pk)) e ∙ l

collect-Grows :
    (host : Host) (p : Payment) (o : Order) (effects : List Effect) (now : ℕ) (start s : Store)
    → Grows start s
    → Loaded s o
    → Grows start (collect host p o effects now start s).1
unfolding collect
collect-Grows host p o effects now start s g l = with_evidence-Grows host p o start s _ g (λ s' e h.
    emit-Grows effects start _ (header-Grows host o (some now) now start s' h (loaded s s' o e l)))

pub repeat-Grows :
    (host : Host) (p : Payment) (o : Order) (at : Option ℕ) (now : ℕ) (start s : Store)
    → Grows start s
    → Loaded s o
    → Grows start (repeat host p o at now start s).1
unfolding repeat
repeat-Grows host p o at now start s g l =
    with_evidence-Grows host p o start s _ g
      (λ s' e h. header-Grows host o at now start s' h (loaded s s' o e l))

settle_row-Progress : (p : Payment) (now : ℕ) → p.status ≡ pending → Progress p (settle_row p now)
settle_row-Progress p now h = record {
  same_order = refl;
  same_courier = refl;
  same_provider = refl;
  same_amount = refl;
  outcome = inl h;
}

pub settle_pending-Grows :
    (host : Host) (p : Payment) (o : Order) (amount : ℤ) (effects : List Effect) (now : ℕ)
    (start s : Store)
    → Grows start s
    → Loaded s o
    → Stored s p
    → p.status ≡ pending
    → Grows start (settle_pending host p o amount effects now start s).1
unfolding settle_pending
settle_pending-Grows host p o amount effects now start s g l at h =
    outcome-Grows start (check_capacity host.is_concrete o amount s) _ _ (λ e. g)
      (λ u e.
        collect-Grows host (settle_row p now) o effects now start _
          (Grows-trans start s _ g
            (save-Grows p (settle_row p now) s refl at (settle_row-Progress p now h)))
          l)

repeated-Grows :
    (host : Host) (ask : Ask) (p : Payment) (o : Order) (provider : Text) (amount : ℕ)
    (start s : Store)
    → Grows start s
    → Loaded s o
    → Stored s p
    → Grows start (repeated host ask p o provider amount start s).1
unfolding repeated
repeated-Grows host ask p o provider amount start s g l at = if-Grows start _ _ _ g (
    status-Grows start p.status _ _ _ _
      (λ h.
        settle_pending-Grows host p o (pos amount) (paid_effects ask.courier p o) ask.now start s g
          l at h)
      (repeat-Grows host p o (some ask.now) ask.now start s g l)
      (with_evidence-Grows host p o start s _ g
        (λ s' e h. header-Grows host o (some ask.now) ask.now start s' h (loaded s s' o e l)))
      (header-Grows host o (some ask.now) ask.now start s g l))

-- The key of each row finds the row: it is a primary key.
abbrev pub IsKeyed : Store → Type 0
IsKeyed s = All (Stored s) s.payments

pub order-Loaded :
    (k : ℕ) (s : Store) (o : Order) → find (order_is k) s.orders ≡ some o → Loaded s o
order-Loaded k s o e =
    let t : (o.pk == k) ≡ true = find_sound (order_is k) s.orders o e in
    let same : o.pk ≡ k = ground arith in ap (λ n. find (order_is n) s.orders) same ∙ e

pub payment-Stored :
    (k : ℕ) (s : Store) (p : Payment) → find (payment_is k) s.payments ≡ some p → Stored s p
payment-Stored k s p e =
    let t : (p.pk == k) ≡ true = find_sound (payment_is k) s.payments p e in
    let same : p.pk ≡ k = ground arith in ap (λ n. find (payment_is n) s.payments) same ∙ e

insert-Grows :
    (host : Host) (ask : Ask) (o : Order) (key provider : Text) (amount : ℕ) (s : Store)
    → Loaded s o
    → Grows s (insert host ask o key provider amount s).1
unfolding insert
insert-Grows host ask o key provider amount s l =
    outcome-Grows s (check_capacity host.is_concrete o (pos amount) s) _ _ (λ e. Grows-refl s)
      (λ u e.
        collect-Grows host (new_payment ask o key provider amount) o _ ask.now s _
          (append-Grows (new_payment ask o key provider amount ∷ []) s) l)

-- A blank key is filled in.
keyed-Grows :
    (p : Payment) (key : Text) (s : Store)
    → Stored s p
    → Grows s (record s { payments = save_payment (record p { external_id = key }) s.payments })
keyed-Grows p key s at =
    save-Grows p (record p { external_id = key }) s refl at
      (record {
        same_order = refl;
        same_courier = refl;
        same_provider = refl;
        same_amount = refl;
        outcome = inr (refl, refl);
      })

blank_event-Stored :
    (o : Order) (courier : Option ℕ) (provider : Text) (amount : ℕ) (s : Store) (p : Payment)
    → IsKeyed s
    → blank_event o courier provider amount s.payments ≡ some p
    → Stored s p
unfolding blank_event
blank_event-Stored o courier provider amount s p keyed e =
    All-head (Stored s) _ p
      (All-sort_by (Stored s) older _ (All-keep (Stored s) _ s.payments keyed)) e

-- A row is looked for only where the caller gave no key.
only_blank :
    (supplied : Bool) (found : Option Payment) (p : Payment)
    → (if supplied then found else none) ≡ some p
    → found ≡ some p
only_blank true found p e = e
only_blank false found p e = absurd (ground arith)

by_key-Grows :
    (host : Host) (ask : Ask) (o : Order) (supplied provider : Text) (amount : ℕ) (s : Store)
    → Loaded s o
    → IsKeyed s
    → Grows s (by_key host ask o supplied provider amount s).1
unfolding by_key
by_key-Grows host ask o supplied provider amount s l keyed =
    let key : Text =
      if is_blank supplied
      then manual_external_id host.sha256 o ask.courier provider amount
      else supplied in
    let blank : Option Payment = blank_event o ask.courier provider amount s.payments in
    option-Grows s (find (has_external_id key) s.payments) _ _
      (option-Grows s (if is_blank supplied then blank else none) _ _
        (insert-Grows host ask o key provider amount s l)
        (λ p e.
          let at : Stored s p =
            blank_event-Stored o ask.courier provider amount s p keyed
              (only_blank (is_blank supplied) blank p e) in
          repeated-Grows host ask (record p { external_id = key }) o provider amount s _
            (keyed-Grows p key s at) l
            (find-save_same p (record p { external_id = key }) p.pk s.payments refl at)))
      (λ p e.
        repeated-Grows host ask p o provider amount s s (Grows-refl s) l
          (All-find (Stored s) (has_external_id key) s.payments p keyed e))

create_locked-Grows :
    (host : Host) (ask : Ask) (provider : Text) (amount : ℕ) (s : Store)
    → IsKeyed s
    → Grows s (create_locked host ask provider amount s).1
unfolding create_locked
create_locked-Grows host ask provider amount s keyed =
    option-Grows s (find (order_is ask.order_id) s.orders) _ _ (Grows-refl s) (λ o found.
      outcome-Grows s (check_order ask o amount) _ _ (λ e. Grows-refl s)
        (λ booked e.
          by_key-Grows host ask o (take 128 (strip ask.external_id)) provider booked s
            (order-Loaded ask.order_id s o found) keyed))

pub create_payment-Grows :
    (host : Host) (ask : Ask) (s : Store) → IsKeyed s → Grows s (create_payment host ask s).1
unfolding create_payment
create_payment-Grows host ask s keyed = if-Grows s _ _ _ (Grows-refl s) (
    outcome-Grows s (coerce_amount ask.amount ask.seen_total) _ _ (λ e. Grows-refl s)
      (λ amount e. create_locked-Grows host ask (upper (strip ask.provider)) amount s keyed))

pub ask_ledger-Grows :
    (host : Host) (p : Payment) (o : Order) (start s : Store)
    → Grows start s
    → Grows start (ask_ledger host p o s).1
unfolding ask_ledger
ask_ledger-Grows host p o start s g =
    outcome-Grows start (host.record_refund o p s) _ _ (λ e. g) (λ r e. booked r)
  where
    booked :
        (r : Refund × List Refund × Bool)
        → Grows start (
            if r.2
            then emit (payment_refunded p.pk o.pk ∷ []) (record s { refunds = r.1 })
            else record s { refunds = r.1 })
    booked (r, refunds, true) = emit-Grows _ start _ (refunds-Grows refunds start s g)
    booked (r, refunds, false) = refunds-Grows refunds start s g
