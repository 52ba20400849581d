-- ===== src/Customers/Orders/Kitchen.antt =====
-- `mark_item_ready`, `unmark_item_ready` and `mark_order_ready` of
-- customers/services/order_service.py.
use alpha_pos_local.Base.{
  ℕ, Bool, ◌&&◌, none, some, Outcome, ok, ◌>>=◌, ◌>>◌, or_raise, raise_if, ◌==◌, if◌then◌else◌,
  is_some,
}
use alpha_pos_local.Base.Tables.{row_where}
use alpha_pos_local.Customers.Checkout.Orders.{Actor}
use alpha_pos_local.Customers.Orders.Rows.{
  Item, Store, Host, OrderError, canceled_order, already_ready, item_not_found, item_already_ready,
  item_not_ready, ready_order, is_ready, is_canceled, is_unready_of, is_live_of, item_is,
  save_order, save_items, notify,
}
use alpha_pos_local.Customers.Orders.Parts.{check_and_update_ready, stamp_ready, stamp_item}
use alpha_pos_local.Customers.Orders.Edit.{reopen}
use alpha_pos_local.Customers.Orders.Status.{owned}

-- The notice of an order that became ready.
unfoldable pub notify_ready : ℕ → Bool × Bool × Store → Store
notify_ready order (all_ready, became_ready, s) =
    if became_ready then notify (ready_order order) s else s

-- `mark_item_ready`; `later` is the clock of `_check_and_update_ready`. The order is read without a
-- lock: the call decides on the row that it has seen, and other calls may have written since.
unfoldable pub mark_item_ready :
    Host
    → (now later : ℕ) → (order_id item_id : ℕ) → Actor
    → (seen : Store) → Store
    → Outcome OrderError Store
mark_item_ready host now later order_id item_id a seen s = do
  o ← owned host order_id a seen
  raise_if (is_canceled o.status) canceled_order
  raise_if (is_ready o.status) already_ready
  i ← or_raise (row_where (λ i. i.pk) item_id (is_live_of o.pk) s.items) item_not_found
  raise_if (is_some i.ready_at) item_already_ready
  ok (
      notify_ready o.pk
        (check_and_update_ready later o (save_items (item_is i.pk) (stamp_item (some now)) s)))

-- A line of an order that is ready, a deleted one too.
abbrev pub is_ready_of : ℕ → Item → Bool
is_ready_of order i = i.order_id == order && is_some i.ready_at

-- `unmark_item_ready`, which locks the item, and reads the order without a lock too.
unfoldable pub unmark_item_ready :
    Host → (order_id item_id : ℕ) → Actor → (seen : Store) → Store → Outcome OrderError Store
unmark_item_ready host order_id item_id a seen s = do
  o ← owned host order_id a seen
  raise_if (is_canceled o.status) canceled_order
  i ← or_raise (row_where (λ i. i.pk) item_id (is_ready_of o.pk) s.items) item_not_ready
  ok (
      if is_ready o.status
      then save_order o.pk reopen (save_items (item_is i.pk) (stamp_item none) s)
      else save_items (item_is i.pk) (stamp_item none) s)

-- `mark_order_ready`; of a ready order it changes nothing.
unfoldable pub mark_order_ready :
    Host → (now : ℕ) → (order_id : ℕ) → Actor → Store → Outcome OrderError Store
mark_order_ready host now order_id a s = do
  o ← owned host order_id a s
  raise_if (is_canceled o.status) canceled_order
  ok (
      if is_ready o.status
      then s
      else notify (ready_order o.pk) (
          save_items (is_unready_of o.pk) (stamp_item (some now))
            (save_order o.pk (stamp_ready now) s)))
