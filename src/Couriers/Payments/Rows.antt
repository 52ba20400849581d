-- ===== src/Couriers/Payments/Rows.antt =====
-- The rows that courier payments read and write. Totals, till rows and evidence are in hundredths, the
-- couriers' own rows in whole so'm.
use alpha_pos_local.Base.{
  ℕ, zero, suc, ◌+◌, ◌*◌, Bool, true, false, ◌||◌, Option, none, some, List, [], ◌∷◌, ◌==◌,
  if◌then◌else◌, Outcome,
}
use alpha_pos_local.Base.Int.{ℤ, pos, negsuc}
use alpha_pos_local.Base.Text.{Text, codes, text_eq}

-- The columns of `base.Order`, with the courier of its assignment.
pub record Order : Type 0 where
  pub pk : ℕ
  pub uuid : Text
  pub branch_id : Text
  pub is_delivery : Bool
  pub courier_id : Option ℕ
  pub total_amount : ℤ
  pub is_paid : Bool
  pub payment_method : Option Text
  pub paid_at : Option ℕ
  pub accounting_recorded_at : Option ℕ

-- `base.OrderPayment`: cash is what was tendered, with its change.
pub record TillRow : Type 0 where
  pub order_id : ℕ
  pub branch_id : Text
  pub method : Text
  pub amount : ℤ
  pub created_at : ℕ
  pub is_deleted : Bool

-- `base.ExternalOrderPayment` of the source COURIER.
pub record Evidence : Type 0 where
  pub order_id : ℕ
  pub branch_id : Text
  pub source_id : Text
  pub method : Text
  pub amount : ℤ
  pub occurred_at : ℕ
  pub is_deleted : Bool

-- `CourierPayment.Status`
pub data Status : Type 0 where
  pending paid refunded failed : Status

-- `CourierPayment`
pub record Payment : Type 0 where
  pub pk : ℕ
  pub order_id : ℕ
  pub courier_id : Option ℕ
  pub provider : Text
  pub amount : ℤ
  pub status : Status
  pub external_id : Text
  pub branch_id : Text
  pub created_at : ℕ
  pub paid_at : Option ℕ
  pub refunded_at : Option ℕ

-- `base.OrderRefund` of the source COURIER_PAYMENT.
pub record Refund : Type 0 where
  pub source_id : Text
  pub refunded_at : ℕ
  pub is_deleted : Bool

-- What follows a commit: `_emit`, with the notification of the courier.
pub data Effect : Type 0 where
  payment_paid payment_refunded : (payment order : ℕ) → Effect
  notify : (courier : Option ℕ) (order : ℕ) → Effect

pub record Store : Type 0 where
  pub orders : List Order
  pub till : List TillRow
  pub evidence : List Evidence
  pub payments : List Payment
  pub refunds : List Refund
  pub outbox : List Effect

pub data Refusal : Type 0 where
  bad_provider bad_amount no_order not_delivery not_assigned no_branch : Refusal
  other_identity failed_payment evidence_conflict till_defect evidence_defect : Refusal
  overpaid nothing_due already_paid over_capacity not_paid no_refund_event ledger_refused : Refusal
  unknown_order unknown_payment unsupported_status : Refusal

-- The answer of a service call, and the rows that it commits: a returned error commits what was
-- written before it, unless the code asks for a rollback.
abbrev pub Answer : Type 0
Answer = Outcome Refusal (Option Payment) × Store

abbrev pub is_status : Status → Status → Bool
is_status pending pending = true
is_status paid paid = true
is_status refunded refunded = true
is_status failed failed = true
is_status _ _ = false

-- `{PAID, REFUNDED}`
abbrev pub is_settled : Status → Bool
is_settled s = is_status s paid || is_status s refunded

-- `CourierPayment.PROVIDER_TO_METHOD.get(provider)`
unfoldable pub method_of : Text → Option Text
method_of provider =
    if text_eq provider (codes "CASH")
    then some (codes "CASH")
    else if text_eq provider (codes "CARD")
    then some (codes "UZCARD")
    else if text_eq provider (codes "QR")
    then some (codes "PAYME")
    else none

-- A positive amount.
abbrev pub positive : ℤ → Option ℕ
positive (pos zero) = none
positive (pos (suc n)) = some (suc n)
positive (negsuc n) = none

-- Whole so'm in hundredths.
abbrev pub hundredfold : ℤ → ℤ
hundredfold (pos n) = pos (n * 100)
hundredfold (negsuc n) = negsuc (n * 100 + 99)

unfoldable pub int_eq : ℤ → ℤ → Bool
int_eq (pos a) (pos b) = a == b
int_eq (negsuc a) (negsuc b) = a == b
int_eq (pos a) (negsuc b) = false
int_eq (negsuc a) (pos b) = false

abbrev pub order_is : ℕ → Order → Bool
order_is pk o = o.pk == pk

abbrev pub payment_is : ℕ → Payment → Bool
payment_is pk p = p.pk == pk

abbrev pub has_external_id : Text → Payment → Bool
has_external_id key p = text_eq p.external_id key

unfoldable pub save_order : Order → List Order → List Order
save_order o [] = []
save_order o (r ∷ orders) = if r.pk == o.pk then o ∷ orders else r ∷ save_order o orders

unfoldable pub save_payment : Payment → List Payment → List Payment
save_payment p [] = []
save_payment p (r ∷ payments) = if r.pk == p.pk then p ∷ payments else r ∷ save_payment p payments

abbrev pub or_created : Option ℕ → ℕ → ℕ
or_created none created = created
or_created (some t) created = t
