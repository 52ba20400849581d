-- ===== src/Customers/Orders/Rows.antt =====
-- The rows that the operations on an open order read and write, and the code outside the repository
-- that they call (customers/services/order_service.py). A call that is refused writes nothing.
use alpha_pos_local.Base.{
  ℕ, zero, suc, Bool, true, false, not, ◌&&◌, Option, none, some, List, ◌∷◌, ◌==◌, any,
  update_where, is_some, if◌then◌else◌,
}
use alpha_pos_local.Base.Int.{ℤ}
use alpha_pos_local.Base.Text.{Text}
use alpha_pos_local.Base.Tables.{row}
use alpha_pos_local.Couriers.Dispatch.Store.{
  OrderStatus, preparing, order_ready, canceled, OrderType, Assignment, is_declined,
}
use alpha_pos_local.Customers.Checkout.Orders.{Actor, owns}

-- The columns of `base.Order` that the operations read and write. Amounts are in hundredths.
pub record Order : Type 0 where
  pub pk : ℕ
  pub user_id : Option ℕ
  pub cashier_id : Option ℕ
  pub order_type : OrderType
  pub status : OrderStatus
  pub is_paid : Bool
  pub is_deleted : Bool
  pub created_at : ℕ
  pub ready_at : Option ℕ
  pub subtotal : ℤ
  pub discount_amount : ℤ
  pub total_amount : ℤ
  pub phone_number : Option Text
  pub delivery_address : Text
  pub description : Option Text
  pub delivery_person : Option ℕ
  pub place : Option ℕ
  pub table : Option ℕ
  pub customer_id : Option ℕ

-- `base.OrderItem`
pub record Item : Type 0 where
  pub pk : ℕ
  pub order_id : ℕ
  pub product_id : ℕ
  pub detail : Option Text
  pub quantity : ℕ
  pub price : ℤ
  pub ready_at : Option ℕ
  pub is_deleted : Bool

-- `OrderDiscount`, with the key of its rule.
pub record Discount : Type 0 where
  pub pk : ℕ
  pub order_id : ℕ
  pub rule : ℕ
  pub created_at : ℕ
  pub discount_amount : ℤ

pub record Product : Type 0 where
  pub pk : ℕ
  pub price : ℤ
  pub is_instant : Bool

-- A line as the stock services get it.
pub record StockItem : Type 0 where
  pub product_id : ℕ
  pub quantity : ℕ
  pub order_item_id : ℕ

-- What the stock services are asked, with the location and who performs it.
pub data StockCall : Type 0 where
  adjust_for_item_change :
      (order product : ℕ) (delta : ℤ) (location by : Option ℕ) (item : ℕ) → StockCall
  on_status_change :
      (order : ℕ) (before : Option OrderStatus) (after : OrderStatus) (items : List StockItem)
      (location by : Option ℕ)
      → StockCall

-- What they answer: a response with its HTTP status, or an exception.
pub data StockAnswer : Type 0 where
  responds : (status : ℕ) → StockAnswer
  raises : StockAnswer

pub record StockSettings : Type 0 where
  pub stock_enabled : Bool
  pub auto_deduct_on_sale : Bool
  pub reserve_on_order_create : Bool
  pub deduct_on_order_status : OrderStatus

-- A recorded refund of a paid order that is cancelled.
pub record Refund : Type 0 where
  pub order_id : ℕ
  pub cashier : Option ℕ
  pub reason : Text

pub data Notice : Type 0 where
  new_order ready_order cancelled_order : (order : ℕ) → Notice

-- The stock and the refund ledger are in the database: the calls that committed are their history.
pub record Store : Type 0 where
  pub orders : List Order
  -- In the order of their keys.
  pub items : List Item
  pub discounts : List Discount
  pub assignments : List Assignment
  pub stock : List StockCall
  pub refunds : List Refund
  -- What follows the commits, the latest first.
  pub outbox : List Notice

-- The core's repositories and services, as the operations call them.
pub record Host : Type 0 where
  -- `get_for_update`, `get_by_id` and `get_by_id_with_relations` of `OrderRepository`
  pub get_order : ℕ → List Order → Option Order
  -- `OrderItemRepository`
  pub first_item : (item order : ℕ) → List Item → Option Item
  pub get_existing_unready : (order product : ℕ) → List Item → Option Item
  pub calculate_order_total : ℕ → List Item → ℤ
  -- `DiscountService.calculate_discount` of a rule, with what is applied already
  pub calculate_discount : ℕ → List Item → ℤ → ℤ
  -- `get_by_id` and `filter` of `ProductRepository`, and the keys that the other repositories know
  pub product : ℕ → Option Product
  pub listed_product : ℕ → Option Product
  pub is_user : ℕ → Bool
  pub is_cashier : ℕ → Bool
  pub is_delivery_person : ℕ → Bool
  pub is_place : ℕ → Bool
  pub is_table : ℕ → Bool
  -- `lock_active_cashier_shift` does not raise
  pub has_active_shift : ℕ → Bool
  -- `StockSettingsService.load`, which may raise, and `get_default_location_id`
  pub stock_settings : Option StockSettings
  pub stock_location : Option ℕ
  pub stock_answer : List StockCall → StockCall → StockAnswer
  -- `record_paid_order_refund` does not raise
  pub refund_accepted : List Refund → Refund → Bool
  pub normalize_uz_phone : Option Text → Text

pub data OrderError : Type 0 where
  order_not_found user_not_found invalid_cashier no_items invalid_order_type : OrderError
  delivery_person_not_found place_not_found table_not_found product_not_found : OrderError
  item_not_found invalid_quantity no_active_shift forbidden already_paid not_preparing : OrderError
  invalid_status illegal_transition canceled_order already_ready item_already_ready : OrderError
  item_not_ready refund_rejected no_stock_location stock_failed dispatch_conflict : OrderError
  stock_rejected : (status : ℕ) → OrderError
  -- Of the waiters' calls only.
  invalid_key table_elsewhere invalid_table_status not_serving : OrderError

abbrev pub is_preparing : OrderStatus → Bool
is_preparing preparing = true
is_preparing _ = false

abbrev pub is_ready : OrderStatus → Bool
is_ready order_ready = true
is_ready _ = false

abbrev pub is_canceled : OrderStatus → Bool
is_canceled canceled = true
is_canceled _ = false

abbrev pub order_is : ℕ → Order → Bool
order_is pk o = o.pk == pk

abbrev pub item_is : ℕ → Item → Bool
item_is pk i = i.pk == pk

-- The rows of a key.
abbrev pub order_row : ℕ → List Order → Option Order
order_row k orders = row (λ o. o.pk) k orders

abbrev pub item_row : ℕ → List Item → Option Item
item_row k items = row (λ i. i.pk) k items

-- A live line of an order.
abbrev pub is_live_of : ℕ → Item → Bool
is_live_of order i = i.order_id == order && not i.is_deleted

abbrev pub is_unready_of : ℕ → Item → Bool
is_unready_of order i = is_live_of order i && not (is_some i.ready_at)

abbrev pub may_modify : Order → Actor → Bool
may_modify o a = owns o.user_id o.cashier_id a

-- `_has_active_delivery_assignment`
unfoldable pub has_active_assignment : ℕ → Store → Bool
has_active_assignment order s =
    any (λ a. a.order_id == order && not (is_declined a.step)) s.assignments

-- The receiver `_clear_conflicting_legacy_courier` of couriers/signals.py on a saved order: a live
-- delivery clears its legacy courier. The other receiver, `_order_ready_bridge`, is in Couriers/Dispatch:
-- it makes an assigned delivery of a ready order ready, which the operations here do not tell apart.
abbrev pub received : Store → Order → Order
received s o = record o {
  delivery_person = if has_active_assignment o.pk s then none else o.delivery_person;
}

-- `order.save(update_fields=...)`, with what the receiver does to the order
unfoldable pub save_order : ℕ → (Order → Order) → Store → Store
save_order pk write s = record s {
  orders = update_where (order_is pk) (λ o. received s (write o)) s.orders;
}

-- `item.save(update_fields=...)`, of the items that a test names.
unfoldable pub save_items : (Item → Bool) → (Item → Item) → Store → Store
save_items test write s = record s { items = update_where test write s.items }

unfoldable pub notify : Notice → Store → Store
notify n s = record s { outbox = n ∷ s.outbox }

-- `a or b`, of two keys.
abbrev pub or_key : Option ℕ → Option ℕ → Option ℕ
or_key none b = b
or_key (some zero) b = b
or_key (some (suc a)) b = some (suc a)
