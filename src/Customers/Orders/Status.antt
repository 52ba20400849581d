-- ===== src/Customers/Orders/Status.antt =====
-- `update_order_status` and `update_order_type` of customers/services/order_service.py.
use alpha_pos_local.Base.{
  ℕ, not, Option, some, ◌∷◌, Outcome, ok, err, ◌>>=◌, ◌>>◌, or_raise, raise_if, keep, if◌then◌else◌,
}
use alpha_pos_local.Base.Text.{Text}
use alpha_pos_local.Couriers.Dispatch.Store.{OrderStatus, order_ready, canceled}
use alpha_pos_local.Customers.Checkout.Orders.{Actor}
use alpha_pos_local.Customers.Orders.Rows.{
  Order, Refund, Store, Host, OrderError, order_not_found, forbidden, invalid_status,
  illegal_transition, invalid_order_type, refund_rejected, ready_order, cancelled_order,
  is_canceled, is_live_of, is_unready_of, may_modify, save_order, save_items, notify, or_key,
}
use alpha_pos_local.Customers.Orders.Parts.{apply_order_stock_transition, stamp_ready, stamp_item}
use alpha_pos_local.Customers.Orders.Create.{stock_items, read_type, or_blank}
use alpha_pos_local.Customers.Orders.Spelling.{from_api_status, allowed_status}

-- The order that a call names and may change.
unfoldable pub owned : Host → ℕ → Actor → Store → Outcome OrderError Order
owned host order_id a s = do
  o ← or_raise (host.get_order order_id s.orders) order_not_found
  raise_if (not (may_modify o a)) forbidden
  ok o

-- A paid order that is cancelled is refunded by whoever cancels it.
unfoldable pub refund_paid : Host → Order → Actor → Text → Store → Outcome OrderError Store
refund_paid host o a reason s =
    let r : Refund = record {
      order_id = o.pk;
      cashier = or_key a.cashier_id a.user_id;
      reason = reason;
    } in
    if not o.is_paid
    then ok s
    else if host.refund_accepted s.refunds r
    then ok (record s { refunds = r ∷ s.refunds })
    else err refund_rejected

abbrev pub set_status : OrderStatus → Order → Order
set_status status o = record o { status = status }

-- The rows with a new status. A ready order has its live items stamped with it.
unfoldable pub write_status : (now : ℕ) → Order → OrderStatus → Store → Store
write_status now o order_ready s =
    save_order o.pk (stamp_ready now) (save_items (is_unready_of o.pk) (stamp_item (some now)) s)
write_status now o status s = save_order o.pk (set_status status) s

abbrev pub refund_for : Host → Order → OrderStatus → Actor → Text → Store → Outcome OrderError Store
refund_for host o canceled a reason s = refund_paid host o a reason s
refund_for host o _ a reason s = ok s

abbrev pub notify_status : ℕ → OrderStatus → Store → Store
notify_status order order_ready s = notify (ready_order order) s
notify_status order canceled s = notify (cancelled_order order) s
notify_status order _ s = s

unfoldable pub change_status :
    Host → (now : ℕ) → Order → OrderStatus → Actor → Text → Store → Outcome OrderError Store
change_status host now o status a reason s = do
  s1 ← refund_for host o status a reason s
  s2 ←
      apply_order_stock_transition host o.pk (some o.status) status
        (stock_items (keep (is_live_of o.pk) ((write_status now o status s1).items))) o.user_id
        (write_status now o status s1)
  ok (notify_status o.pk status s2)

-- A cancelled order can only be cancelled again, which changes nothing.
unfoldable pub move_status :
    Host → (now : ℕ) → Order → OrderStatus → Actor → Text → Store → Outcome OrderError Store
move_status host now o status a reason s =
    if is_canceled o.status
    then (if is_canceled status then ok s else err illegal_transition)
    else change_status host now o status a reason s

-- `update_order_status`. The answer to a repeated cancellation, which `get_order_by_id` gives, may be
-- a refusal; the rows are the same.
unfoldable pub update_order_status :
    Host
    → (now : ℕ) → (order_id : ℕ) → (status : Option Text) → Actor
    → (reason : Text) → Store
    → Outcome OrderError Store
update_order_status host now order_id status a reason s = do
  o ← owned host order_id a s
  status ← or_raise (allowed_status (from_api_status (or_blank status))) invalid_status
  move_status host now o status a reason s

-- `update_order_type`
unfoldable pub update_order_type :
    Host → (order_id : ℕ) → (order_type : Text) → Actor → Store → Outcome OrderError Store
update_order_type host order_id order_type a s = do
  o ← owned host order_id a s
  type ← or_raise (read_type order_type) invalid_order_type
  raise_if (is_canceled o.status) illegal_transition
  ok (save_order o.pk (λ r. record r { order_type = type }) s)
