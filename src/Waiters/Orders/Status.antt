-- ===== src/Waiters/Orders/Status.antt =====
-- `mark_ready`, `request_payment` and `cancel_order` of waiters/services/order_service.py.
use alpha_pos_local.Base.{
  ℕ, ◌==◌, Bool, some, ◌∷◌, Outcome, ok, err, ◌>>=◌, ◌>>◌, raise_if, any, keep, not, if◌then◌else◌,
}
use alpha_pos_local.Base.Text.{codes}
use alpha_pos_local.Couriers.Dispatch.Store.{canceled}
use alpha_pos_local.Customers.Orders.Rows.{
  Order, Refund, Store, Host, OrderError, canceled_order, already_paid, refund_rejected,
  ready_order, cancelled_order, is_canceled, is_ready, is_live_of, is_unready_of, save_order,
  save_items, notify,
}
use alpha_pos_local.Customers.Orders.Parts.{apply_order_stock_transition, stamp_ready, stamp_item}
use alpha_pos_local.Customers.Orders.Create.{stock_items}
use alpha_pos_local.Customers.Orders.Status.{set_status}
use alpha_pos_local.Waiters.Orders.Rows.{
  available, PaymentRequest, Floor, WaiterHost, owned_order, set_table, with_core,
}

-- The rows of an order that becomes ready.
unfoldable pub readied : (now : ℕ) → Order → Store → Store
readied now o s =
    if is_ready o.status
    then s
    else notify (ready_order o.pk) (
        save_items (is_unready_of o.pk) (stamp_item (some now))
          (save_order o.pk (stamp_ready now) s))

-- `mark_ready`
unfoldable pub mark_ready :
    WaiterHost → (now order_id waiter : ℕ) → Floor → Outcome OrderError Floor
mark_ready host now order_id w f = do
  o ← owned_order host order_id w f.core
  raise_if (is_canceled o.status) canceled_order
  ok (with_core (readied now o f.core) f)

abbrev pub requests_order : ℕ → PaymentRequest → Bool
requests_order k r = r.order_id == k

-- `request_payment`: the first request keeps its time.
unfoldable pub request_payment :
    WaiterHost → (now order_id waiter : ℕ) → Floor → Outcome OrderError Floor
request_payment host now order_id w f = do
  o ← owned_order host order_id w f.core
  raise_if o.is_paid already_paid
  raise_if (is_canceled o.status) canceled_order
  ok (
      if any (requests_order o.pk) f.requests
      then f
      else record f { requests = record { order_id = o.pk; requested_at = now } ∷ f.requests })

unfoldable pub refund_paid : Host → Order → (waiter : ℕ) → Store → Outcome OrderError Store
refund_paid host o w s =
    let r : Refund = record {
      order_id = o.pk;
      cashier = some w;
      reason = codes "Cancelled from waiter app";
    } in
    if not o.is_paid
    then ok s
    else if host.refund_accepted s.refunds r
    then ok (record s { refunds = r ∷ s.refunds })
    else err refund_rejected

-- `cancel_order`
unfoldable pub cancel_order : WaiterHost → (order_id waiter : ℕ) → Floor → Outcome OrderError Floor
cancel_order host order_id w f = do
  o ← owned_order host order_id w f.core
  raise_if (is_canceled o.status) canceled_order
  s1 ← refund_paid host.core o w f.core
  s2 ←
      apply_order_stock_transition host.core o.pk (some o.status) canceled
        (stock_items (keep (is_live_of o.pk) s1.items)) o.user_id
        (save_order o.pk (set_status canceled) s1)
  ok (set_table host o.table available (with_core (notify (cancelled_order o.pk) s2) f))
