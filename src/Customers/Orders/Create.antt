-- ===== src/Customers/Orders/Create.antt =====
-- `create_order` of customers/services/order_service.py. The numbers that the kitchen and the
-- receipt show, and the branch of a row, are left out.
use alpha_pos_local.Base.{
  ℕ, zero, suc, ◌*◌, Bool, true, false, not, ◌||◌, Option, none, some, List, [], ◌∷◌, ◌++◌, Outcome,
  ok, ◌>>=◌, ◌>>◌, or_raise, raise_if, if◌then◌else◌,
}
use alpha_pos_local.Base.Int.{ℤ, pos, negsuc, ◌+ℤ◌, ◌-ℤ◌}
use alpha_pos_local.Base.Text.{Text, codes, text_eq}
use alpha_pos_local.Couriers.Dispatch.Store.{preparing, OrderType, hall, delivery, pickup}
use alpha_pos_local.Customers.Orders.Rows.{
  Order, Item, Product, StockItem, Store, Host, OrderError, user_not_found, invalid_cashier,
  no_items, invalid_order_type, delivery_person_not_found, place_not_found, table_not_found,
  product_not_found, invalid_quantity, no_active_shift, new_order, save_order, notify, or_key,
}
use alpha_pos_local.Customers.Orders.Parts.{apply_order_stock_transition, stamp_ready}

-- An entry of `items` in the request.
pub record Entry : Type 0 where
  pub product_id : Option ℕ
  pub quantity : Option ℤ
  pub detail : Option Text

-- An entry with its product.
pub record Line : Type 0 where
  pub product : Product
  pub detail : Option Text
  pub quantity : ℕ
  pub price : ℤ

pub record Request : Type 0 where
  pub user_id : ℕ
  pub items : List Entry
  pub order_type : Text
  pub phone_number : Option Text
  pub description : Option Text
  pub delivery_address : Option Text
  pub cashier_id : Option ℕ
  pub delivery_person_id : Option ℕ
  pub place_id : Option ℕ
  pub table_id : Option ℕ
  pub customer_id : Option ℕ

-- The keys of the rows that are created, and the readings of the clock.
pub record Fresh : Type 0 where
  pub order_key : ℕ
  pub item_key : ℕ → ℕ
  pub created : ℕ
  pub now : ℕ

-- A quantity above zero; a missing one is 1.
unfoldable pub quantity_of : Option ℤ → Option ℕ
quantity_of none = some 1
quantity_of (some (pos zero)) = none
quantity_of (some (pos (suc n))) = some (suc n)
quantity_of (some (negsuc n)) = none

abbrev listed : Host → Option ℕ → Option Product
listed host none = none
listed host (some pk) = host.listed_product pk

unfoldable pub times : ℕ → ℤ → ℤ
times n (pos m) = pos (n * m)
times n (negsuc m) = pos 0 -ℤ pos (n * suc m)

unfoldable pub read_line : Host → Entry → Outcome OrderError Line
read_line host e = do
  quantity ← or_raise (quantity_of e.quantity) invalid_quantity
  product ← or_raise (listed host e.product_id) product_not_found
  ok record { product = product; detail = e.detail; quantity = quantity; price = product.price }

-- The loop over the entries: the first bad one is reported.
unfoldable pub read_lines : Host → List Entry → Outcome OrderError (List Line)
read_lines host [] = ok []
read_lines host (e ∷ es) = do line ← read_line host e; lines ← read_lines host es; ok (line ∷ lines)

unfoldable pub total_of : List Line → ℤ → ℤ
total_of [] total = total
total_of (l ∷ ls) total = total_of ls (total +ℤ times l.quantity l.price)

unfoldable pub read_type : Text → Option OrderType
unfolding text_eq
read_type t =
    if text_eq t (codes "HALL")
    then some hall
    else if text_eq t (codes "DELIVERY")
    then some delivery
    else if text_eq t (codes "PICKUP")
    then some pickup
    else none

-- A truthy key that a repository does not know.
abbrev unknown : (ℕ → Bool) → Option ℕ → Bool
unknown is_known none = false
unknown is_known (some zero) = false
unknown is_known (some (suc k)) = not (is_known (suc k))

abbrev pub or_blank : Option Text → Text
or_blank none = []
or_blank (some t) = t

abbrev pub or_none : Text → Option Text
or_none [] = none
or_none (c ∷ t) = some (c ∷ t)

unfoldable pub new_order_row : Host → Fresh → Request → OrderType → List Line → Order
new_order_row host fresh r type lines = record {
  pk = fresh.order_key;
  user_id = some r.user_id;
  cashier_id = r.cashier_id;
  order_type = type;
  status = preparing;
  is_paid = false;
  is_deleted = false;
  created_at = fresh.created;
  ready_at = none;
  subtotal = total_of lines (pos 0);
  discount_amount = pos 0;
  total_amount = total_of lines (pos 0);
  phone_number = or_none (host.normalize_uz_phone r.phone_number);
  delivery_address = or_blank r.delivery_address;
  description = r.description;
  delivery_person = or_key r.delivery_person_id none;
  place = or_key r.place_id none;
  table = or_key r.table_id none;
  customer_id = r.customer_id;
}

-- The item of the n-th line. Instant items are born ready.
unfoldable pub new_item : Fresh → ℕ → Line → Item
new_item fresh n l = record {
  pk = fresh.item_key n;
  order_id = fresh.order_key;
  product_id = l.product.pk;
  detail = l.detail;
  quantity = l.quantity;
  price = l.price;
  ready_at = if l.product.is_instant then some fresh.now else none;
  is_deleted = false;
}

unfoldable pub new_items : Fresh → ℕ → List Line → List Item
new_items fresh n [] = []
new_items fresh n (l ∷ ls) = new_item fresh n l ∷ new_items fresh (suc n) ls

unfoldable pub any_kitchen_item : List Line → Bool
any_kitchen_item [] = false
any_kitchen_item (l ∷ ls) = not l.product.is_instant || any_kitchen_item ls

abbrev stock_item : Item → StockItem
stock_item i = record { product_id = i.product_id; quantity = i.quantity; order_item_id = i.pk }

unfoldable pub stock_items : List Item → List StockItem
stock_items [] = []
stock_items (i ∷ is) = stock_item i ∷ stock_items is

unfoldable pub placed : Host → Fresh → Request → OrderType → List Line → Store → Store
placed host fresh r type lines s =
    let s1 = record s {
      orders = s.orders ++ new_order_row host fresh r type lines ∷ [];
      items = s.items ++ new_items fresh 0 lines;
    } in
    if any_kitchen_item lines then s1 else save_order fresh.order_key (stamp_ready fresh.now) s1

-- The checks of a request, in their order.
unfoldable pub check_request : Host → Request → Outcome OrderError (OrderType × List Line)
check_request host r = do
  raise_if (not (host.is_user r.user_id)) user_not_found
  raise_if (unknown host.is_cashier r.cashier_id) invalid_cashier
  raise_if (elim (r.items) [ [] ↦ true | e ∷ es ↦ false ]) no_items
  type ← or_raise (read_type r.order_type) invalid_order_type
  raise_if (unknown host.is_delivery_person r.delivery_person_id) delivery_person_not_found
  raise_if (unknown host.is_place r.place_id) place_not_found
  raise_if (unknown host.is_table r.table_id) table_not_found
  lines ← read_lines host r.items
  raise_if (unknown host.has_active_shift r.cashier_id) no_active_shift
  ok (type, lines)

unfoldable pub place_order :
    Host → Fresh → Request → OrderType → List Line → Store → Outcome OrderError Store
place_order host fresh r type lines s = do
  s2 ←
      apply_order_stock_transition host fresh.order_key none preparing
        (stock_items (new_items fresh 0 lines)) (some r.user_id) (placed host fresh r type lines s)
  ok (notify (new_order fresh.order_key) s2)

unfoldable pub create_order : Host → Fresh → Request → Store → Outcome OrderError Store
create_order host fresh r s = do c ← check_request host r; place_order host fresh r (c.0) (c.1) s
