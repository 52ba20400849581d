-- ===== src/Couriers/Payments/Create.antt =====
-- `create_payment` of couriers/payments.py, with `_coerce_amount`,
-- `_identity_error`, `_manual_external_id` and `_existing_refund`. (A key that another transaction
-- inserts between the lookup and the insertion of a row is not modelled.)
use alpha_pos_local.Base.{
  ℕ, ◌/◌, ◌%◌, Bool, true, false, not, ◌&&◌, ◌||◌, Option, none, some, List, [], ◌∷◌, ◌++◌, ◌==◌,
  ltb, leb, opt_eq, is_some, find, keep, take, if◌then◌else◌, Outcome, ok, err, ◌>>◌, raise_if,
}
use alpha_pos_local.Base.Int.{ℤ, pos, negsuc}
use alpha_pos_local.Base.Text.{Text, codes, text_eq, is_blank, strip}
use alpha_pos_local.Base.Digits.{show}
use alpha_pos_local.Base.Number.{Number, not_finite, decimal, power_of_ten, upper}
use alpha_pos_local.Base.Sorting.{head, sort_by}
use alpha_pos_local.Couriers.Payments.Rows.{
  Order, pending, paid, refunded, failed, Payment, Refund, Effect, payment_paid, notify, Store,
  Refusal, bad_provider, bad_amount, no_order, not_delivery, not_assigned, no_branch,
  other_identity, failed_payment, Answer, method_of, int_eq, order_is, has_external_id,
  save_payment,
}
use alpha_pos_local.Couriers.Payments.Evidence.{ensure_evidence, check_capacity}
use alpha_pos_local.Couriers.Payments.Header.{recompute}

-- What other code supplies: the concrete methods of `Order.PaymentMethod`, SHA-256, and
-- `record_external_provider_refund`, with the refund, the refunds that are stored afterwards and
-- whether it is new.
pub record Host : Type 0 where
  pub is_concrete : Text → Bool
  pub sha256 : Text → Text
  pub record_refund : Order → Payment → Store → Outcome Refusal (Refund × List Refund × Bool)

-- An amount of a request: none or empty, or a value.
pub data Asked : Type 0 where
  absent : Asked
  given : Number → Asked

-- A call of `create_payment`; `seen_total` is the total of the order that the caller holds.
pub record Ask : Type 0 where
  pub courier : Option ℕ
  pub order_id : ℕ
  pub seen_total : ℤ
  pub provider : Text
  pub amount : Asked
  pub external_id : Text
  pub now : ℕ
  pub fresh_pk : ℕ

-- Whole so'm, more than none.
abbrev pub whole : (n scale : ℕ) → Outcome Refusal ℕ
whole n scale = if n % scale == 0 && not (n / scale == 0) then ok (n / scale) else err bad_amount

-- `_coerce_amount`
unfoldable pub coerce_amount : Asked → ℤ → Outcome Refusal ℕ
unfolding power_of_ten
coerce_amount absent (pos n) = whole n 100
coerce_amount absent (negsuc n) = err bad_amount
coerce_amount (given not_finite) total = err bad_amount
coerce_amount (given (decimal (pos n) places)) total = whole n (power_of_ten places)
coerce_amount (given (decimal (negsuc n) places)) total = err bad_amount

abbrev pub is_absent : Asked → Bool
is_absent absent = true
is_absent (given n) = false

-- `CourierPayment.Provider.values`
abbrev pub is_provider : Text → Bool
is_provider p = is_some (method_of p)

abbrev pub show_key : Option ℕ → Text
show_key none = []
show_key (some n) = show n

-- `_manual_external_id`
unfoldable pub manual_external_id : (Text → Text) → Order → Option ℕ → Text → ℕ → Text
manual_external_id sha256 o courier provider amount =
    codes "manual:"
    ++ sha256 (o.uuid ++ (b'|' ∷ show_key courier ++ (b'|' ∷ provider ++ (b'|' ∷ show amount))))

-- The checks on the locked order, and the amount that is booked.
unfoldable pub check_order : Ask → Order → ℕ → Outcome Refusal ℕ
check_order ask o amount = do
  raise_if (not o.is_delivery) not_delivery
  raise_if (is_some ask.courier && not (opt_eq o.courier_id ask.courier)) not_assigned
  raise_if (is_blank o.branch_id) no_branch
  (if is_absent ask.amount then coerce_amount absent o.total_amount else ok amount)

-- What identifies a collection: `_identity_error` has no objection.
unfoldable pub same_identity : Payment → Order → Option ℕ → Text → ℕ → Bool
same_identity p o courier provider amount =
    p.order_id == o.pk
    && text_eq p.provider provider
    && int_eq p.amount (pos amount)
    && opt_eq p.courier_id courier

abbrev pub older : Payment → Payment → Bool
older a b = ltb a.created_at b.created_at || (a.created_at == b.created_at && leb a.pk b.pk)

-- A row from before keys were filled in.
unfoldable pub blank_event : Order → Option ℕ → Text → ℕ → List Payment → Option Payment
unfolding same_identity
blank_event o courier provider amount payments = head (
    sort_by older
      (keep (λ p. is_blank p.external_id && same_identity p o courier provider amount) payments))

-- `_existing_refund`, by `courier_payment_event_key`.
unfoldable pub event_key : Payment → Text
event_key p = if is_blank p.external_id then codes "legacy-payment:" ++ show p.pk else p.external_id

unfoldable pub existing_refund : Payment → Store → Option Refund
unfolding event_key
existing_refund p s = find (λ r. text_eq r.source_id (event_key p) && not r.is_deleted) s.refunds

-- `_present_refunded`: what is answered; the row stays as it is.
abbrev pub present : Payment → Option Refund → Payment
present p none = p
present p (some r) = record p { status = refunded; refunded_at = some r.refunded_at }

-- The evidence is ensured, or everything since `start` is rolled back.
unfoldable pub with_evidence : Host → Payment → Order → Store → Store → (Store → Answer) → Answer
with_evidence host p o start s next = elim (ensure_evidence host.is_concrete p o s) [
  | err e ↦ (err e, start)
  | ok s' ↦ next s'
]

abbrev pub header : Host → Order → Option ℕ → ℕ → Store → Store
header host o at now s = recompute host.is_concrete o at now s

abbrev pub emit : List Effect → Store → Store
emit effects s = record s { outbox = s.outbox ++ effects }

-- The collection of a row that is PAID by now.
unfoldable pub collect : Host → Payment → Order → List Effect → (now : ℕ) → Store → Store → Answer
collect host p o effects now start s =
    with_evidence host p o start s
      (λ s'. (ok (some p), emit effects (header host o (some now) now s')))

-- The exact repeat of a row that was settled before.
unfoldable pub repeat : Host → Payment → Order → Option ℕ → (now : ℕ) → Store → Store → Answer
repeat host p o at now start s =
    with_evidence host p o start s
      (λ s'. (ok (some (present p (existing_refund p s'))), header host o at now s'))

abbrev pub settle_row : Payment → ℕ → Payment
settle_row p now = record p { status = paid; paid_at = some now }

abbrev pub paid_effects : Option ℕ → Payment → Order → List Effect
paid_effects courier p o = payment_paid p.pk o.pk ∷ notify courier o.pk ∷ []

-- A pending row is paid now, if the order has room for it.
unfoldable pub settle_pending :
    Host → Payment → Order → ℤ → List Effect → (now : ℕ) → Store → Store → Answer
settle_pending host p o amount effects now start s =
    elim (check_capacity host.is_concrete o amount s) [
      | err e ↦ (err e, s)
      | ok u ↦
          collect host (settle_row p now) o effects now start
            (record s { payments = save_payment (settle_row p now) s.payments })
    ]

-- A row with the key is there.
unfoldable pub repeated : Host → Ask → Payment → Order → Text → ℕ → Store → Store → Answer
repeated host ask p o provider amount start s =
    if not (same_identity p o ask.courier provider amount)
    then (err other_identity, s)
    else elim (p.status) [
      | paid ↦ repeat host p o (some ask.now) ask.now start s
      | refunded ↦
          with_evidence host p o start s
            (λ s'. (ok (some p), header host o (some ask.now) ask.now s'))
      | failed ↦ (err failed_payment, header host o (some ask.now) ask.now s)
      | pending ↦
          settle_pending host p o (pos amount) (paid_effects ask.courier p o) ask.now start s
    ]

unfoldable pub new_payment : Ask → Order → Text → Text → ℕ → Payment
new_payment ask o key provider amount = record {
  pk = ask.fresh_pk;
  order_id = o.pk;
  courier_id = ask.courier;
  provider = provider;
  amount = pos amount;
  status = paid;
  external_id = key;
  branch_id = o.branch_id;
  created_at = ask.now;
  paid_at = some ask.now;
  refunded_at = none;
}

-- No row has the key: a new one, if the order has room for it.
unfoldable pub insert : Host → Ask → Order → Text → Text → ℕ → Store → Answer
insert host ask o key provider amount s =
    let p = new_payment ask o key provider amount in
    elim (check_capacity host.is_concrete o (pos amount) s) [
      | err e ↦ (err e, s)
      | ok u ↦
          collect host p o (paid_effects ask.courier p o) ask.now s
            (record s { payments = s.payments ++ p ∷ [] })
    ]

-- The row of the key, or one with a blank key that is upgraded in place.
unfoldable pub by_key : Host → Ask → Order → Text → Text → ℕ → Store → Answer
by_key host ask o supplied provider amount s =
    let key =
      if is_blank supplied
      then manual_external_id host.sha256 o ask.courier provider amount
      else supplied in
    elim (find (has_external_id key) s.payments) [
      | some p ↦ repeated host ask p o provider amount s s
      | none ↦
          elim (if is_blank supplied
            then blank_event o ask.courier provider amount s.payments
            else none) [
              | none ↦ insert host ask o key provider amount s
              | some p ↦
                  repeated host ask (record p { external_id = key }) o provider amount s
                    (record s {
                      payments = save_payment (record p { external_id = key }) s.payments;
                    })
            ]
    ]

-- `create_payment` from the lock of the order on.
unfoldable pub create_locked : Host → Ask → Text → ℕ → Store → Answer
create_locked host ask provider amount s = elim (find (order_is ask.order_id) s.orders) [
  | none ↦ (err no_order, s)
  | some o ↦ elim (check_order ask o amount) [
    | err e ↦ (err e, s)
    | ok booked ↦ by_key host ask o (take 128 (strip ask.external_id)) provider booked s
  ]
]

unfoldable pub create_payment : Host → Ask → Store → Answer
create_payment host ask s =
    let provider = upper (strip ask.provider) in
    if not (is_provider provider)
    then (err bad_provider, s)
    else elim (coerce_amount ask.amount ask.seen_total) [
      | err e ↦ (err e, s)
      | ok amount ↦ create_locked host ask provider amount s
    ]
