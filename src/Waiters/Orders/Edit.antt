-- ===== src/Waiters/Orders/Edit.antt =====
-- `add_item`, `update_item` and `remove_item` of waiters/services/order_service.py.
use alpha_pos_local.Base.{
  ℕ, not, some, Outcome, ok, ◌>>=◌, ◌>>◌, or_raise, raise_if, any, if◌then◌else◌,
}
use alpha_pos_local.Base.Int.{ℤ, pos, ◌-ℤ◌}
use alpha_pos_local.Customers.Orders.Rows.{
  Order, Store, OrderError, already_paid, not_preparing, product_not_found, item_not_found,
  invalid_quantity, is_preparing, item_is, is_live_of, save_order, save_items,
}
use alpha_pos_local.Customers.Orders.Parts.{recalculate_total, adjust_order_stock}
use alpha_pos_local.Customers.Orders.Edit.{
  above_zero, put_item, reopen_order, bury_item, bury_order,
}
use alpha_pos_local.Waiters.Orders.Rows.{
  available, Floor, WaiterHost, owned_order, set_table, with_core,
}

-- The order of the waiter that an edit may change.
unfoldable pub editable : WaiterHost → (order_id waiter : ℕ) → Store → Outcome OrderError Order
editable host order_id w s = do
  o ← owned_order host order_id w s
  raise_if o.is_paid already_paid
  raise_if (not (is_preparing o.status)) not_preparing
  ok o

-- `add_item`, with the key of the item that it may create
unfoldable pub add_item :
    WaiterHost
    → (key now : ℕ) → (order_id product_id : ℕ) → (quantity : ℤ) → (waiter : ℕ) → Floor
    → Outcome OrderError Floor
add_item host key now order_id product_id quantity w f = do
  o ← editable host order_id w f.core
  p ← or_raise (host.core.product product_id) product_not_found
  q ← or_raise (above_zero quantity) invalid_quantity
  s ←
      adjust_order_stock host.core order_id product_id (pos q) (some w)
        ((put_item host.core key now order_id p q f.core).0)
        (recalculate_total host.core order_id
          (reopen_order p o ((put_item host.core key now order_id p q f.core).1)))
  ok (with_core s f)

-- `update_item`
unfoldable pub update_item :
    WaiterHost
    → (order_id item_id : ℕ) → (quantity : ℤ) → (waiter : ℕ) → Floor
    → Outcome OrderError Floor
update_item host order_id item_id quantity w f = do
  o ← editable host order_id w f.core
  q ← or_raise (above_zero quantity) invalid_quantity
  i ← or_raise (host.core.first_item item_id order_id f.core.items) item_not_found
  s ← adjust_order_stock host.core order_id i.product_id (pos q -ℤ pos i.quantity) (some w) i.pk (
      recalculate_total host.core order_id
        (save_items (item_is i.pk) (λ r. record r { quantity = q }) f.core))
  ok (with_core s f)

-- What follows the removal of a line: an order without lines is deleted, and its table is free.
unfoldable pub after_removal : WaiterHost → Order → Floor → Floor
after_removal host o f =
    if not (any (is_live_of o.pk) f.core.items)
    then set_table host o.table available (with_core (save_order o.pk bury_order f.core) f)
    else with_core (recalculate_total host.core o.pk f.core) f

-- `remove_item`
unfoldable pub remove_item :
    WaiterHost → (order_id item_id : ℕ) → (waiter : ℕ) → Floor → Outcome OrderError Floor
remove_item host order_id item_id w f = do
  o ← editable host order_id w f.core
  i ← or_raise (host.core.first_item item_id order_id f.core.items) item_not_found
  s ←
      adjust_order_stock host.core order_id i.product_id (pos 0 -ℤ pos i.quantity) (some w) i.pk
        f.core
  ok (after_removal host o (with_core (save_items (item_is i.pk) bury_item s) f))
