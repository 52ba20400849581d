-- ===== src/Customers/Orders/Details.antt =====
-- `assign_courier` and `update_order_details` of customers/services/order_service.py.
use alpha_pos_local.Base.{
  ℕ, zero, suc, Bool, false, not, ◌&&◌, Option, none, some, Outcome, ok, ◌>>=◌, ◌>>◌, or_raise,
  raise_if,
}
use alpha_pos_local.Base.Text.{Text}
use alpha_pos_local.Base.Tables.{row_where}
use alpha_pos_local.Customers.Checkout.Orders.{Actor, truthy}
use alpha_pos_local.Customers.Orders.Rows.{
  Order, Store, Host, OrderError, order_not_found, canceled_order, forbidden, dispatch_conflict,
  delivery_person_not_found, is_canceled, may_modify, has_active_assignment, save_order, or_key,
}
use alpha_pos_local.Customers.Orders.Create.{or_blank, or_none}

abbrev pub without_cashier : Actor → Actor
without_cashier a = record a { cashier_id = none }

-- The order that a change of delivery data may touch.
unfoldable pub open_order : ℕ → Actor → Store → Outcome OrderError Order
open_order order_id a s = do
  o ← or_raise (row_where (λ o. o.pk) order_id (λ o. not o.is_deleted) s.orders) order_not_found
  raise_if (is_canceled o.status) canceled_order
  raise_if (not (may_modify o (without_cashier a))) forbidden
  ok o

abbrev pub unknown_person : Host → Option ℕ → Bool
unknown_person host none = false
unknown_person host (some zero) = false
unknown_person host (some (suc k)) = not (host.is_delivery_person (suc k))

unfoldable pub set_person : Option ℕ → Order → Order
set_person person o = record o { delivery_person = or_key person none }

-- `assign_courier`
unfoldable pub assign_courier :
    Host → (order_id : ℕ) → (person : Option ℕ) → Actor → Store → Outcome OrderError Store
assign_courier host order_id person a s = do
  o ← open_order order_id a s
  raise_if (truthy person && has_active_assignment o.pk s) dispatch_conflict
  raise_if (unknown_person host person) delivery_person_not_found
  ok (save_order o.pk (set_person person) s)

-- What an edit supplies: `none` of a field that may be cleared is `_UNSET`.
pub record Edit : Type 0 where
  pub phone_number : Option Text
  pub description : Option Text
  pub delivery_address : Option (Option Text)
  pub delivery_person : Option (Option ℕ)

abbrev pub given : Option (Option ℕ) → Option ℕ
given none = none
given (some k) = k

abbrev pub set_phone : Host → Option Text → Order → Order
set_phone host none o = o
set_phone host (some t) o = record o { phone_number = or_none (host.normalize_uz_phone (some t)) }

abbrev pub set_address : Option (Option Text) → Order → Order
set_address none o = o
set_address (some t) o = record o { delivery_address = or_blank t }

abbrev pub set_description : Option Text → Order → Order
set_description none o = o
set_description (some t) o = record o { description = some t }

abbrev pub set_courier : Option (Option ℕ) → Order → Order
set_courier none o = o
set_courier (some k) o = set_person k o

unfoldable pub edited : Host → Edit → Order → Order
edited host e o = set_courier e.delivery_person (
    set_description e.description
      (set_address e.delivery_address (set_phone host e.phone_number o)))

-- `update_order_details`
unfoldable pub update_order_details :
    Host → (order_id : ℕ) → Edit → Actor → Store → Outcome OrderError Store
update_order_details host order_id e a s = do
  o ← open_order order_id a s
  raise_if (truthy (given e.delivery_person) && has_active_assignment o.pk s) dispatch_conflict
  raise_if (unknown_person host (given e.delivery_person)) delivery_person_not_found
  ok (save_order o.pk (edited host e) s)
