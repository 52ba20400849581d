-- ===== src/Couriers/Payments/Refund.antt =====
-- `refund_payment` of couriers/payments.py.
use alpha_pos_local.Base.{
  ℕ, not, Option, none, some, [], ◌∷◌, find, if◌then◌else◌, Outcome, ok, err,
}
use alpha_pos_local.Base.Text.{is_blank}
use alpha_pos_local.Couriers.Payments.Rows.{
  Order, refunded, Payment, Refund, payment_refunded, Store, Refusal, no_order, no_branch, not_paid,
  no_refund_event, Answer, is_settled, order_is, payment_is,
}
use alpha_pos_local.Couriers.Payments.Create.{
  Host, existing_refund, present, with_evidence, header, emit,
}

-- The refund ledger is asked; the positive event stays as it is.
unfoldable pub ask_ledger : Host → Payment → Order → Store → Answer
ask_ledger host p o s = elim (host.record_refund o p s) [
  | err e ↦ (err e, s)
  | ok (r, refunds, is_new) ↦ (
    ok (some (present p (some r))),
    (if is_new
        then emit (payment_refunded p.pk o.pk ∷ []) (record s { refunds = refunds })
        else record s { refunds = refunds }),
  )
]

abbrev pub refund_event : Payment → Option Refund → Outcome Refusal (Option Payment)
refund_event p none = err no_refund_event
refund_event p (some r) = ok (some (present p (some r)))

unfoldable pub refund_locked : Host → Payment → Order → (now : ℕ) → Store → Answer
refund_locked host p o now s =
    if not (is_settled p.status)
    then (err not_paid, header host o none now s)
    else if is_blank o.branch_id
    then (err no_branch, s)
    else with_evidence host p o s s (λ s'. elim (p.status) [
      | refunded ↦ (refund_event p (existing_refund p s'), s')
      | _ ↦ ask_ledger host p o s'
    ])

-- The locked order and row that a call works on.
unfoldable pub on_payment : (order payment : ℕ) → Store → (Payment → Order → Answer) → Answer
on_payment order payment s next = elim (find (order_is order) s.orders) [
  | none ↦ (err no_order, s)
  | some o ↦ elim (find (payment_is payment) s.payments) [
    | none ↦ (err no_order, s)
    | some p ↦ next p o
  ]
]

unfoldable pub refund_payment : Host → (order payment : ℕ) → (now : ℕ) → Store → Answer
refund_payment host order payment now s =
    on_payment order payment s (λ p o. refund_locked host p o now s)
