-- ===== src/Waiters/Orders/Rows.antt =====
-- The rows that the waiters' operations read and write, over those of Customers/Orders, and the
-- ownership test (waiters/services/order_service.py).
use alpha_pos_local.Base.{
  ℕ, ◌==◌, Bool, false, not, Option, none, some, List, Outcome, ok, ◌>>=◌, ◌>>◌, or_raise, raise_if,
}
use alpha_pos_local.Base.Text.{Text}
use alpha_pos_local.Customers.Orders.Rows.{
  Order, Store, Host, OrderError, order_not_found, forbidden,
}

-- `Table.Status`
pub data TableStatus : Type 0 where
  available occupied : TableStatus
  other_table_status : Text → TableStatus

-- `base.Table`
pub record Table : Type 0 where
  pub pk : ℕ
  pub place_id : Option ℕ
  pub status : TableStatus

-- An order whose `payment_requested_at` is set.
pub record PaymentRequest : Type 0 where
  pub order_id : ℕ
  pub requested_at : ℕ

pub record Floor : Type 0 where
  pub core : Store
  pub requests : List PaymentRequest
  pub tables : List Table

-- The core's repositories, as the waiters call them.
pub record WaiterHost : Type 0 where
  pub core : Host
  -- `UserRepository.exists(id, role="WAITER")`
  pub is_waiter : ℕ → Bool
  -- `get_by_id` and `update_status` of `TableRepository`; the latter may find no table
  pub get_table : ℕ → List Table → Option Table
  pub update_status : ℕ → TableStatus → List Table → Option (List Table)
  -- The choices of `Table.Status`
  pub read_table_status : Text → Option TableStatus

-- `_check_waiter_ownership`
abbrev pub is_cashier_of : ℕ → Order → Bool
is_cashier_of w o = elim (o.cashier_id) [ none ↦ false | some c ↦ c == w ]

-- `get_owned_order`, which the other operations begin with
unfoldable pub owned_order : WaiterHost → (order_id waiter : ℕ) → Store → Outcome OrderError Order
owned_order host order_id w s = do
  o ← or_raise (host.core.get_order order_id s.orders) order_not_found
  raise_if (not (is_cashier_of w o)) forbidden
  ok o

-- The call of `TableRepository.update_status` for the table of an order, if it has one.
unfoldable pub set_table : WaiterHost → Option ℕ → TableStatus → Floor → Floor
set_table host none status f = f
set_table host (some t) status f = elim (host.update_status t status f.tables) [
  | none ↦ f
  | some tables ↦ record f { tables = tables }
]

abbrev pub with_core : Store → Floor → Floor
with_core s f = record f { core = s }
