-- ===== src/Customers/Orders/Edit.antt =====
-- `add_item_to_order`, `update_order_item` and `remove_item_from_order` of
-- customers/services/order_service.py.
use alpha_pos_local.Base.{
  ℕ, zero, suc, ◌+◌, true, false, not, ◌&&◌, Option, none, some, [], ◌∷◌, ◌++◌, Outcome, ok, ◌>>=◌,
  ◌>>◌, or_raise, raise_if, any, if◌then◌else◌, is_some,
}
use alpha_pos_local.Base.Int.{ℤ, pos, negsuc, ◌-ℤ◌}
use alpha_pos_local.Couriers.Dispatch.Store.{preparing}
use alpha_pos_local.Customers.Checkout.Orders.{Actor}
use alpha_pos_local.Customers.Orders.Rows.{
  Order, Item, Product, Store, Host, OrderError, order_not_found, forbidden, already_paid,
  not_preparing, product_not_found, item_not_found, invalid_quantity, is_preparing, item_is,
  is_live_of, may_modify, save_order, save_items, or_key,
}
use alpha_pos_local.Customers.Orders.Parts.{
  recalculate_total, adjust_order_stock, check_and_update_ready,
}

-- The order that an edit may change.
unfoldable pub editable : Host → ℕ → Actor → Store → Outcome OrderError Order
editable host order_id a s = do
  o ← or_raise (host.get_order order_id s.orders) order_not_found
  raise_if (not (may_modify o a)) forbidden
  raise_if o.is_paid already_paid
  raise_if (not (is_preparing o.status)) not_preparing
  ok o

-- `quantity` of `add_item_to_order`: an integer, or another value.
pub data Quantity : Type 0 where
  integer : ℤ → Quantity
  other_value : Quantity

unfoldable pub above_zero : ℤ → Option ℕ
above_zero (pos zero) = none
above_zero (pos (suc n)) = some (suc n)
above_zero (negsuc n) = none

abbrev pub positive : Quantity → Option ℕ
positive (integer q) = above_zero q
positive other_value = none

-- The line that the product is added to, and the rows.
unfoldable pub put_item : Host → (key now : ℕ) → ℕ → Product → (quantity : ℕ) → Store → ℕ × Store
put_item host key now order_id p quantity s =
    elim (if p.is_instant then none else host.get_existing_unready order_id p.pk s.items) [
      | some i ↦
          (i.pk, save_items (item_is i.pk) (λ r. record r { quantity = i.quantity + quantity }) s)
      | none ↦ (
        key,
        record s {
          items =
              s.items
              ++ record {
                pk = key;
                order_id = order_id;
                product_id = p.pk;
                detail = none;
                quantity = quantity;
                price = p.price;
                ready_at = if p.is_instant then some now else none;
                is_deleted = false;
              }
                ∷ [];
        },
      )
    ]

abbrev pub reopen : Order → Order
reopen o = record o { ready_at = none; status = preparing }

-- Only an item for the kitchen reopens an order that is ready.
unfoldable pub reopen_order : Product → Order → Store → Store
reopen_order p o s = if not p.is_instant && is_some o.ready_at then save_order o.pk reopen s else s

-- `add_item_to_order`, with the key of the item that it may create.
unfoldable pub add_item_to_order :
    Host
    → (key now : ℕ) → (order_id product_id : ℕ) → Quantity
    → Actor
    → Store
    → Outcome OrderError Store
add_item_to_order host key now order_id product_id quantity a s = do
  o ← editable host order_id a s
  p ← or_raise (host.product product_id) product_not_found
  q ← or_raise (positive quantity) invalid_quantity
  adjust_order_stock host order_id product_id (pos q) (or_key a.cashier_id a.user_id)
      ((put_item host key now order_id p q s).0)
      (recalculate_total host order_id
        (reopen_order p o ((put_item host key now order_id p q s).1)))

-- `update_order_item`
unfoldable pub update_order_item :
    Host → (order_id item_id : ℕ) → (quantity : ℤ) → Actor → Store → Outcome OrderError Store
update_order_item host order_id item_id quantity a s = do
  o ← editable host order_id a s
  q ← or_raise (above_zero quantity) invalid_quantity
  i ← or_raise (host.first_item item_id order_id s.items) item_not_found
  adjust_order_stock host order_id i.product_id (pos q -ℤ pos i.quantity)
      (or_key a.cashier_id a.user_id) i.pk
      (recalculate_total host order_id
        (save_items (item_is i.pk) (λ r. record r { quantity = q }) s))

abbrev pub bury_item : Item → Item
bury_item i = record i { is_deleted = true }

abbrev pub bury_order : Order → Order
bury_order o = record o { is_deleted = true }

-- What follows the removal of a line.
unfoldable pub after_removal : Host → (now : ℕ) → Order → Store → Store
after_removal host now o s =
    if not (any (is_live_of o.pk) s.items)
    then save_order o.pk bury_order s
    else recalculate_total host o.pk ((check_and_update_ready now o s).2)

-- `remove_item_from_order`
unfoldable pub remove_item_from_order :
    Host → (now : ℕ) → (order_id item_id : ℕ) → Actor → Store → Outcome OrderError Store
remove_item_from_order host now order_id item_id a s = do
  o ← editable host order_id a s
  i ← or_raise (host.first_item item_id order_id s.items) item_not_found
  s1 ←
      adjust_order_stock host order_id i.product_id (pos 0 -ℤ pos i.quantity)
        (or_key a.cashier_id a.user_id) i.pk s
  ok (after_removal host now o (save_items (item_is i.pk) bury_item s1))
