-- ===== src/Couriers/Ledger/Rows.antt =====
-- The rows that a courier's reconciliation reads. A refund is in hundredths, a courier's own rows in
-- whole so'm. The reversal rows are those of `base.OrderRefund`.
use alpha_pos_local.Base.{
  ℕ, ◌*◌, ◌/◌, suc, Bool, true, false, ◌&&◌, Option, none, some, List, ◌++◌, ltb, leb, opt_eq,
  if◌then◌else◌,
}
use alpha_pos_local.Base.Int.{ℤ, pos, negsuc, ◌-ℤ◌}
use alpha_pos_local.Base.Text.{Text, codes, text_eq, is_blank}
use alpha_pos_local.Base.Digits.{show}
use alpha_pos_local.Couriers.Dispatch.Store.{Assignment}
use alpha_pos_local.Couriers.Payments.Rows.{Payment, is_settled}

-- `OrderRefund.Source`
pub data Source : Type 0 where
  courier_payment order_cancel other_source : Source

-- The columns of `base.OrderRefund` that are read. The code compares the accounting time and has no test for
-- one that is null.
pub record Refund : Type 0 where
  pub pk : ℕ
  pub source : Source
  pub source_id : Text
  pub order_id : ℕ
  pub amount : ℤ
  pub cash_amount : ℤ
  pub drawer_cash_amount : ℤ
  pub card_amount : ℤ
  pub payme_amount : ℤ
  pub refunded_at : ℕ
  pub accounting_recorded_at : ℕ
  pub is_deleted : Bool

-- `CourierSettlement`, without the code that is made of the courier's key.
pub record Settlement : Type 0 where
  pub courier_id : ℕ
  pub period_start : ℕ
  pub period_end : ℕ
  pub deliveries : ℕ
  pub cash_collected : ℤ
  pub qr_collected : ℤ
  pub delivery_fees : ℤ
  pub bonuses : ℤ
  pub tips : ℤ
  pub net_payout : ℤ
  pub note : Text

pub record Store : Type 0 where
  pub payments : List Payment
  pub assignments : List Assignment
  pub refunds : List Refund
  pub settlements : List Settlement

abbrev pub is_courier_payment : Source → Bool
is_courier_payment courier_payment = true
is_courier_payment _ = false

abbrev pub is_order_cancel : Source → Bool
is_order_cancel order_cancel = true
is_order_cancel _ = false

-- `courier_payment_event_key`
unfoldable pub event_key : Payment → Text
event_key p = if is_blank p.external_id then codes "legacy-payment:" ++ show p.pk else p.external_id

-- A whole amount in hundredths.
unfoldable pub hundredths : ℤ → ℤ
hundredths (pos n) = pos (100 * n)
hundredths (negsuc n) = pos 0 -ℤ pos (100 * suc n)

-- `int(amount)` of an amount in hundredths.
unfoldable pub whole : ℤ → ℤ
whole (pos n) = pos (n / 100)
whole (negsuc n) = pos 0 -ℤ pos (suc n / 100)

-- A half-open window of time.
abbrev pub within : (start end : ℕ) → ℕ → Bool
within start end t = leb start t && ltb t end

abbrev pub within? : (start end : ℕ) → Option ℕ → Bool
within? start end none = false
within? start end (some t) = within start end t

-- A payment of the courier that was paid, whether or not it was refunded.
abbrev pub is_paid_of : ℕ → Payment → Bool
is_paid_of courier p =
    opt_eq p.courier_id (some courier)
    && is_settled p.status
    && elim (p.paid_at) [ none ↦ false | some t ↦ true ]

abbrev pub is_cash : Payment → Bool
is_cash p = text_eq p.provider (codes "CASH")
