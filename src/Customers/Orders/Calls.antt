-- ===== src/Customers/Orders/Calls.antt =====
-- Every operation on orders of `CustomerOrderService` as a call, and sequences of calls. The
-- settlement is in Customers/Checkout.
use alpha_pos_local.Base.{ℕ, ◌≡◌, Bool, true, Option, none, some, List, [], ◌∷◌, Outcome, ok, err}
use alpha_pos_local.Base.Int.{ℤ}
use alpha_pos_local.Base.Text.{Text}
use alpha_pos_local.Customers.Checkout.Orders.{Actor}
use alpha_pos_local.Customers.Orders.Rows.{
  Order, Item, Store, Host, OrderError, order_row, item_row,
}
use alpha_pos_local.Customers.Orders.Create.{Fresh, Request, create_order}
use alpha_pos_local.Customers.Orders.Edit.{
  Quantity, add_item_to_order, update_order_item, remove_item_from_order,
}
use alpha_pos_local.Customers.Orders.Status.{update_order_status, update_order_type}
use alpha_pos_local.Customers.Orders.Kitchen.{mark_item_ready, unmark_item_ready, mark_order_ready}
use alpha_pos_local.Customers.Orders.Details.{Edit, assign_courier, update_order_details}

pub data Call : Type 0 where
  create : Fresh → Request → Call
  add_item : (key now order product : ℕ) → Quantity → Actor → Call
  update_item : (order item : ℕ) → ℤ → Actor → Call
  remove_item : (now order item : ℕ) → Actor → Call
  set_status : (now order : ℕ) → Option Text → Actor → Text → Call
  set_type : (order : ℕ) → Text → Actor → Call
  item_ready : (now later order item : ℕ) → Actor → Call
  item_unready : (order item : ℕ) → Actor → Call
  ready_order : (now order : ℕ) → Actor → Call
  assign : (order : ℕ) → Option ℕ → Actor → Call
  edit : (order : ℕ) → Edit → Actor → Call

-- A call that nothing comes between: `mark_item_ready` and `unmark_item_ready` see the order as it is.
abbrev pub serve : Host → Call → Store → Outcome OrderError Store
serve host (create fresh r) s = create_order host fresh r s
serve host (add_item key now order product q a) s =
    add_item_to_order host key now order product q a s
serve host (update_item order item q a) s = update_order_item host order item q a s
serve host (remove_item now order item a) s = remove_item_from_order host now order item a s
serve host (set_status now order status a reason) s =
    update_order_status host now order status a reason s
serve host (set_type order type a) s = update_order_type host order type a s
serve host (item_ready now later order item a) s = mark_item_ready host now later order item a s s
serve host (item_unready order item a) s = unmark_item_ready host order item a s s
serve host (ready_order now order a) s = mark_order_ready host now order a s
serve host (assign order person a) s = assign_courier host order person a s
serve host (edit order e a) s = update_order_details host order e a s

-- A refused call is rolled back.
abbrev pub after : Outcome OrderError Store → Store → Store
after (ok s') s = s'
after (err e) s = s

-- The rows after some calls, one after the other.
unfoldable pub serve_all : Host → List Call → Store → Store
serve_all host [] s = s
serve_all host (c ∷ cs) s = serve_all host cs (after (serve host c s) s)

-- The order that a call is about.
abbrev pub target : Call → ℕ
target (create fresh r) = fresh.order_key
target (add_item key now order product q a) = order
target (update_item order item q a) = order
target (remove_item now order item a) = order
target (set_status now order status a reason) = order
target (set_type order type a) = order
target (item_ready now later order item a) = order
target (item_unready order item a) = order
target (ready_order now order a) = order
target (assign order person a) = order
target (edit order e a) = order

-- A new order gets a key that no order has.
abbrev pub IsFresh : Call → Store → Type 0
IsFresh (create fresh r) s = order_row fresh.order_key s.orders ≡ none
IsFresh c s = Unit {0}

-- The repositories return rows of the tables they are given: the row of the key, of the order.
pub record IsSound (host : Host) : Type 0 where
  pub gets :
      (k : ℕ) (orders : List Order) (o : Order)
      → host.get_order k orders ≡ some o
      → order_row k orders ≡ some o
  pub gets_first :
      (item order : ℕ) (items : List Item) (i : Item)
      → host.first_item item order items ≡ some i
      → (item_row i.pk items ≡ some i) × (i.order_id ≡ order)
  pub gets_existing :
      (order product : ℕ) (items : List Item) (i : Item)
      → host.get_existing_unready order product items ≡ some i
      → (item_row i.pk items ≡ some i) × (i.order_id ≡ order)

-- The states that calls lead to. The operations lock the order before they read it, and so follow one
-- another, but for the two on one item: where `late` says so of an order, those may have seen it in any
-- state; their writes follow one another. Each call has the outside as it finds it.
pub data Reaches (late : ℕ → Bool) : Store → Store → Type 0 where
  stay : {s : Store} → Reaches late s s
  serves :
      {s t : Store} (host : Host) (c : Call)
      → IsSound host
      → IsFresh c s
      → Reaches late (after (serve host c s) s) t
      → Reaches late s t
  late_ready :
      {s t : Store} (host : Host) (now later order item : ℕ) (a : Actor) (seen : Store)
      → IsSound host
      → late order ≡ true
      → Reaches late (after (mark_item_ready host now later order item a seen s) s) t
      → Reaches late s t
  late_unready :
      {s t : Store} (host : Host) (order item : ℕ) (a : Actor) (seen : Store)
      → IsSound host
      → late order ≡ true
      → Reaches late (after (unmark_item_ready host order item a seen s) s) t
      → Reaches late s t
