-- ===== src/Customers/Orders/Parts.antt =====
-- What the operations on an order share: `_recalculate_total`, `_adjust_order_stock`,
-- `_apply_order_stock_transition` and `_check_and_update_ready` of
-- customers/services/order_service.py.
use alpha_pos_local.Base.{
  ℕ, zero, suc, Bool, true, false, not, ◌&&◌, ◌||◌, Option, none, some, List, [], ◌∷◌, Outcome, ok,
  err, ◌==◌, ltb, leb, keep, length, update_where, is_some, if◌then◌else◌,
}
use alpha_pos_local.Base.Int.{ℤ, pos, negsuc, ◌+ℤ◌, ◌-ℤ◌, leb_ℤ}
use alpha_pos_local.Base.Sorting.{sort_by}
use alpha_pos_local.Couriers.Dispatch.Store.{
  OrderStatus, preparing, order_ready, canceled, completed, other_status,
}
use alpha_pos_local.Base.Text.{text_eq}
use alpha_pos_local.Customers.Orders.Rows.{
  Order, Item, Discount, StockItem, StockCall, adjust_for_item_change, on_status_change,
  StockAnswer, responds, raises, StockSettings, Store, Host, OrderError, stock_failed,
  stock_rejected, no_stock_location, is_ready, is_live_of, save_order,
}

abbrev pub min_ℤ : ℤ → ℤ → ℤ
min_ℤ a b = if leb_ℤ a b then a else b

abbrev pub max_ℤ : ℤ → ℤ → ℤ
max_ℤ a b = if leb_ℤ b a then a else b

abbrev discount_before : Discount → Discount → Bool
discount_before a b =
    ltb a.created_at b.created_at || (a.created_at == b.created_at && ltb a.pk b.pk)

-- Every discount row in its turn, with what is applied before it: the rows to save and the sum.
unfoldable pub recompute :
    Host → List Item → List Discount → (applied : ℤ) → (rows : List Discount) → List Discount × ℤ
recompute host items [] applied rows = (rows, applied)
recompute host items (d ∷ ds) applied rows =
    let amount = host.calculate_discount d.rule items applied in
    recompute host items ds (applied +ℤ amount)
      (update_where (λ r. r.pk == d.pk) (λ r. record r { discount_amount = amount }) rows)

unfoldable pub totals : (subtotal discount : ℤ) → Order → Order
totals subtotal discount o = record o {
  subtotal = subtotal;
  discount_amount = discount;
  total_amount = max_ℤ (pos 0) (subtotal -ℤ discount);
}

-- The discount rows of an order, oldest first.
unfoldable pub discounts_of : ℕ → List Discount → List Discount
discounts_of order ds = sort_by discount_before (keep (λ d. d.order_id == order) ds)

unfoldable pub recomputed : Host → ℕ → Store → List Discount × ℤ
recomputed host order s =
    recompute host (keep (is_live_of order) s.items) (discounts_of order s.discounts) (pos 0)
      s.discounts

-- `_recalculate_total`
unfoldable pub recalculate_total : Host → ℕ → Store → Store
recalculate_total host order s =
    let subtotal = host.calculate_order_total order s.items in
    let discounts = recomputed host order s in
    save_order order (totals subtotal (min_ℤ (discounts.1) subtotal))
      (record s { discounts = discounts.0 })

-- The stock services answered, or raised, to a call; a refused call leaves no trace.
unfoldable pub answered : StockAnswer → StockCall → Store → Outcome OrderError Store
answered raises c s = err stock_failed
answered (responds status) c s =
    if leb 400 status then err (stock_rejected status) else ok (record s { stock = c ∷ s.stock })

abbrev pub is_zero : ℤ → Bool
is_zero (pos zero) = true
is_zero (pos (suc n)) = false
is_zero (negsuc n) = false

-- `_adjust_order_stock`
unfoldable pub adjust_order_stock :
    Host
    → (order product : ℕ) → (delta : ℤ) → (by : Option ℕ) → (item : ℕ) → Store
    → Outcome OrderError Store
adjust_order_stock host order product delta by item s =
    let c = adjust_for_item_change order product delta host.stock_location by item in
    if is_zero delta then ok s else answered (host.stock_answer s.stock c) c s

abbrev same_status : OrderStatus → OrderStatus → Bool
same_status preparing preparing = true
same_status order_ready order_ready = true
same_status canceled canceled = true
same_status completed completed = true
same_status (other_status a) (other_status b) = text_eq a b
same_status _ _ = false

-- A truthy key of a location.
abbrev pub has_location : Option ℕ → Bool
has_location none = false
has_location (some zero) = false
has_location (some (suc n)) = true

abbrev pub needs_location : StockSettings → Option OrderStatus → OrderStatus → Bool
needs_location settings before after =
    settings.reserve_on_order_create && not (is_some before)
    || same_status after settings.deduct_on_order_status

unfoldable pub transition :
    Host
    → StockSettings
    → ℕ
    → Option OrderStatus
    → OrderStatus
    → List StockItem
    → Option ℕ
    → Store
    → Outcome OrderError Store
transition host settings order before after items by s =
    let c = on_status_change order before after items host.stock_location by in
    if not settings.stock_enabled || not settings.auto_deduct_on_sale
    then ok s
    else if needs_location settings before after && not (has_location host.stock_location)
    then err no_stock_location
    else answered (host.stock_answer s.stock c) c s

-- `_apply_order_stock_transition`
unfoldable pub apply_order_stock_transition :
    Host
    → ℕ
    → Option OrderStatus
    → OrderStatus
    → List StockItem
    → Option ℕ
    → Store
    → Outcome OrderError Store
apply_order_stock_transition host order before after items by s = elim (host.stock_settings) [
  | none ↦ err stock_failed
  | some settings ↦ transition host settings order before after items by s
]

unfoldable pub stamp_ready : (now : ℕ) → Order → Order
stamp_ready now o = record o { status = order_ready; ready_at = some now }

-- The live items of an order, and the ready ones among them.
unfoldable pub all_ready : ℕ → List Item → Bool
all_ready order items =
    let total = length (keep (is_live_of order) items) in
    let ready = length (keep (λ i. is_live_of order i && is_some i.ready_at) items) in
    ltb 0 total && total == ready

-- `_check_and_update_ready`, of an order in memory: its two flags, and the rows.
unfoldable pub check_and_update_ready : (now : ℕ) → Order → Store → Bool × Bool × Store
check_and_update_ready now o s =
    let ready = all_ready o.pk s.items in
    if ready && not (is_ready o.status)
    then (true, true, save_order o.pk (stamp_ready now) s)
    else (ready, false, s)

unfoldable pub stamp_item : Option ℕ → Item → Item
stamp_item at i = record i { ready_at = at }
