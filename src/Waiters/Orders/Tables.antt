-- ===== src/Waiters/Orders/Tables.antt =====
-- `update_table_status` of waiters/services/order_service.py.
use alpha_pos_local.Base.{
  ℕ, Bool, false, not, ◌&&◌, ◌||◌, Option, none, some, Outcome, ok, ◌>>=◌, ◌>>◌, or_raise, raise_if,
  any, opt_eq,
}
use alpha_pos_local.Base.Text.{Text, codes, text_eq, is_blank}
use alpha_pos_local.Customers.Orders.Rows.{
  Order, OrderError, table_not_found, invalid_table_status, not_serving, is_preparing, is_ready,
}
use alpha_pos_local.Waiters.Orders.Rows.{Floor, WaiterHost}

-- An order that the actor is serving at the table.
abbrev pub serves_table : (table : ℕ) → (actor : Option ℕ) → Order → Bool
serves_table table actor o =
    not o.is_deleted
    && (opt_eq o.table (some table)
        && (opt_eq o.cashier_id actor && (is_preparing o.status || is_ready o.status)))

-- An actor with a role that is not the administrator's.
abbrev pub is_bound : Option Text → Bool
is_bound none = false
is_bound (some role) = not (is_blank role) && not (text_eq role (codes "ADMIN"))

unfoldable pub update_table_status :
    WaiterHost
    → (table : ℕ) → (status : Text) → (actor : Option ℕ) → (role : Option Text) → Floor
    → Outcome OrderError Floor
update_table_status host table status actor role f = do
  status ← or_raise (host.read_table_status status) invalid_table_status
  raise_if (is_bound role && not (any (serves_table table actor) f.core.orders)) not_serving
  tables ← or_raise (host.update_status table status f.tables) table_not_found
  ok (record f { tables = tables })
