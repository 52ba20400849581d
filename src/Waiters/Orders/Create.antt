-- ===== src/Waiters/Orders/Create.antt =====
-- `create_order` of waiters/services/order_service.py. The numbers that the kitchen and the receipt
-- show, and the branch of a row, are left out.
use alpha_pos_local.Base.{
  ℕ, true, false, not, Option, none, some, List, [], ◌∷◌, ◌++◌, Outcome, ok, err, ◌>>=◌, ◌>>◌,
  or_raise, raise_if, if◌then◌else◌, opt_eq,
}
use alpha_pos_local.Base.Int.{pos}
use alpha_pos_local.Base.Text.{Text}
use alpha_pos_local.Couriers.Dispatch.Store.{preparing, OrderType}
use alpha_pos_local.Customers.Orders.Rows.{
  Order, Store, Host, OrderError, user_not_found, no_items, invalid_order_type, place_not_found,
  table_not_found, product_not_found, invalid_quantity, new_order, save_order, notify, invalid_key,
  table_elsewhere,
}
use alpha_pos_local.Customers.Orders.Parts.{apply_order_stock_transition, stamp_ready}
use alpha_pos_local.Customers.Orders.Create.{
  Entry, Line, Fresh, quantity_of, total_of, read_type, new_items, any_kitchen_item, stock_items,
}
use alpha_pos_local.Waiters.Orders.Rows.{occupied, Table, Floor, WaiterHost, set_table, with_core}

-- An optional key of the request: missing or empty, an integer, or another value.
pub data Key : Type 0 where
  no_key : Key
  key : ℕ → Key
  malformed : Key

pub record Request : Type 0 where
  pub waiter : ℕ
  pub items : List Entry
  pub place_id : Key
  pub table_id : Key
  pub order_type : Text
  pub phone_number : Option Text
  pub description : Option Text

-- An entry that is well formed.
pub record Clean : Type 0 where
  pub product_id : ℕ
  pub quantity : ℕ
  pub detail : Option Text

-- The loop that cleans the entries before the database is asked.
unfoldable pub clean : List Entry → Outcome OrderError (List Clean)
clean [] = ok []
clean (e ∷ es) = do
  product ← or_raise e.product_id invalid_key
  quantity ← or_raise (quantity_of e.quantity) invalid_quantity
  rest ← clean es
  ok (record { product_id = product; quantity = quantity; detail = e.detail } ∷ rest)

unfoldable pub lines_of : Host → List Clean → Outcome OrderError (List Line)
lines_of host [] = ok []
lines_of host (c ∷ cs) = do
  product ← or_raise (host.listed_product c.product_id) product_not_found
  rest ← lines_of host cs
  ok (
      record { product = product; detail = c.detail; quantity = c.quantity; price = product.price }
      ∷ rest)

unfoldable pub find_place : WaiterHost → Key → Outcome OrderError (Option ℕ)
find_place host no_key = ok none
find_place host malformed = err invalid_key
find_place host (key k) = if host.core.is_place k then ok (some k) else err place_not_found

unfoldable pub find_table : WaiterHost → Key → List Table → Outcome OrderError (Option Table)
find_table host no_key tables = ok none
find_table host malformed tables = err invalid_key
find_table host (key k) tables =
    or_raise (host.get_table k tables) table_not_found >>= λ t. ok (some t)

-- The table is one of the place, and gives the place where the request names none.
unfoldable pub seat : Option ℕ → Option Table → Outcome OrderError (Option ℕ)
seat place none = ok place
seat none (some t) = ok t.place_id
seat (some p) (some t) = if opt_eq t.place_id (some p) then ok (some p) else err table_elsewhere

abbrev pub table_key : Option Table → Option ℕ
table_key none = none
table_key (some t) = some t.pk

unfoldable pub new_order_row :
    Fresh → Request → OrderType → (place table : Option ℕ) → List Line → Order
new_order_row fresh r type place table lines = record {
  pk = fresh.order_key;
  user_id = some r.waiter;
  cashier_id = some r.waiter;
  order_type = type;
  status = preparing;
  is_paid = false;
  is_deleted = false;
  created_at = fresh.created;
  ready_at = none;
  subtotal = total_of lines (pos 0);
  discount_amount = pos 0;
  total_amount = total_of lines (pos 0);
  phone_number = r.phone_number;
  delivery_address = [];
  description = r.description;
  delivery_person = none;
  place = place;
  table = table;
  customer_id = none;
}

-- The rows of a new order. One of instant items only is ready at once.
unfoldable pub placed : Fresh → Order → List Line → Store → Store
placed fresh o lines s =
    let s1 = record s { orders = s.orders ++ o ∷ []; items = s.items ++ new_items fresh 0 lines } in
    if any_kitchen_item lines then s1 else save_order fresh.order_key (stamp_ready fresh.now) s1

-- The checks of a request, in their order: the type, the place, the table and the lines.
unfoldable pub check_request :
    WaiterHost
    → Request
    → Floor
    → Outcome OrderError (OrderType × Option ℕ × Option Table × List Line)
check_request host r f = do
  raise_if (not (host.is_waiter r.waiter)) user_not_found
  raise_if (elim (r.items) [ [] ↦ true | e ∷ es ↦ false ]) no_items
  type ← or_raise (read_type r.order_type) invalid_order_type
  entries ← clean r.items
  named ← find_place host r.place_id
  table ← find_table host r.table_id f.tables
  place ← seat named table
  lines ← lines_of host.core entries
  ok (type, place, table, lines)

unfoldable pub create_order : WaiterHost → Fresh → Request → Floor → Outcome OrderError Floor
create_order host fresh r f = do
  c ← check_request host r f
  s ←
      apply_order_stock_transition host.core fresh.order_key none preparing
        (stock_items (new_items fresh 0 (c.3))) (some r.waiter)
        (placed fresh (new_order_row fresh r (c.0) (c.1) (table_key (c.2)) (c.3)) (c.3) f.core)
  ok (
      set_table host (table_key (c.2)) occupied
        (with_core (notify (new_order fresh.order_key) s) f))
