-- ===== src/Customers/Checkout/Sound.antt =====
-- What a normalized request guarantees: `_normalize_checkout_contract` of
-- customers/services/order_service.py.
use alpha_pos_local.Base.{◌≤◌, ◌≡◌, Bool, true, Option, none, some, All, length, ◌>>=◌, ◌>>◌}
use alpha_pos_local.Base.Text.{Text}
use alpha_pos_local.Base.Number.{Number}
use alpha_pos_local.Customers.Checkout.Request.{
  Request, Tender, Kind, legacy, dual_empty, structured, max_order_payment, dominant_payment_method,
}

-- A tender that may be stored.
abbrev pub IsTender : (Text → Bool) → Tender → Type 0
IsTender valid t = (valid t.0 ≡ true) × (1 ≤ t.1) × (t.1 ≤ max_order_payment)

abbrev pub IsKind : (Text → Bool) → Kind → Type 0
IsKind valid (legacy m) = valid m ≡ true
IsKind valid (dual_empty m) = valid m ≡ true
IsKind valid (structured lines) = All (IsTender valid) lines × (1 ≤ length lines)

-- A hint beside structured lines is their dominant method.
abbrev pub Agrees : Option Text → Kind → Type 0
Agrees none kind = Unit {0}
Agrees (some m) (legacy n) = m ≡ n
Agrees (some m) (dual_empty n) = m ≡ n
Agrees (some m) (structured lines) = dominant_payment_method lines ≡ some m
