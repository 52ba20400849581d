-- ===== src/Customers/Orders/Guards.antt =====
-- What an accepted call has checked, and the rows it leaves.
use alpha_pos_local.Base.{
  ℕ, ◌≡◌, refl, true, false, not, ◌&&◌, ◌||◌, Option, none, some, List, arith, err, leb,
}
use alpha_pos_local.Base.Int.{ℤ}
use alpha_pos_local.Base.Yields.{Yields, if_Yields, raise-Yields, or_raise-Yields}
use alpha_pos_local.Couriers.Dispatch.Store.{OrderStatus}
use alpha_pos_local.Customers.Checkout.Orders.{Actor}
use alpha_pos_local.Customers.Orders.Rows.{
  StockCall, StockAnswer, responds, raises, StockItem, StockSettings, Store, Host, OrderError,
  is_preparing, order_row, may_modify,
}
use alpha_pos_local.Customers.Orders.Parts.{
  answered, is_zero, needs_location, has_location, adjust_order_stock, transition,
  apply_order_stock_transition,
}
use alpha_pos_local.Customers.Orders.Edit.{editable}
use alpha_pos_local.Customers.Orders.Status.{owned}
use alpha_pos_local.Customers.Orders.Calls.{IsSound}
use alpha_pos_local.Customers.Orders.Frame.{SameRows}

answered_same : (a : StockAnswer) (c : StockCall) (s : Store) → Yields (SameRows s) (answered a c s)
unfolding answered
answered_same raises c s = tt
answered_same (responds status) c s =
    if_Yields (SameRows s) (leb 400 status) _ _ (λ _. tt) (λ _. (refl, refl))

pub adjust_same :
    (host : Host) (order product : ℕ) (delta : ℤ) (by : Option ℕ) (item : ℕ) (s : Store)
    → Yields (SameRows s) (adjust_order_stock host order product delta by item s)
unfolding adjust_order_stock
adjust_same host order product delta by item s =
    if_Yields (SameRows s) (is_zero delta) _ _ (λ _. (refl, refl)) (λ _. answered_same _ _ s)

transition_same :
    (host : Host) (settings : StockSettings) (order : ℕ) (before : Option OrderStatus)
    (after : OrderStatus) (items : List StockItem) (by : Option ℕ) (s : Store)
    → Yields (SameRows s) (transition host settings order before after items by s)
unfolding transition
transition_same host settings order before after items by s =
    if_Yields (SameRows s) (not settings.stock_enabled || not settings.auto_deduct_on_sale) _ _
      (λ _. (refl, refl))
      (λ _.
        if_Yields (SameRows s)
          (needs_location settings before after && not (has_location host.stock_location)) _ _
          (λ _. tt) (λ _. answered_same _ _ s))

pub stock_same :
    (host : Host) (order : ℕ) (before : Option OrderStatus) (after : OrderStatus)
    (items : List StockItem) (by : Option ℕ) (s : Store)
    → Yields (SameRows s) (apply_order_stock_transition host order before after items by s)
unfolding apply_order_stock_transition
stock_same host order before after items by s =
    elim (host.stock_settings)
      as (λ settings. Yields (SameRows s) (elim settings [
        | none ↦ err OrderError.stock_failed
        | some x ↦ transition host x order before after items by s
      ])) [ none ↦ tt | some x ↦ transition_same host x order before after items by s ]

module _ (host : Host) (sound : IsSound host) where
  -- What an edit has checked.
  pub editable_facts :
      (k : ℕ) (a : Actor) (s : Store)
      → Yields
          (λ o.
            (order_row k s.orders ≡ some o) × (o.is_paid ≡ false) × (is_preparing o.status ≡ true))
          (editable host k a s)
  unfolding editable
  editable_facts k a s = or_raise-Yields _ (host.get_order k s.orders) _ _ (λ o e1.
      raise-Yields _ (not (may_modify o a)) _ _ (λ e2. raise-Yields _ o.is_paid _ _ (λ e3.
        raise-Yields _ (not (is_preparing o.status)) _ _
          (λ e4. (sound.gets k s.orders o e1, e3, ground arith)))))

  pub owned_facts :
      (k : ℕ) (a : Actor) (s : Store)
      → Yields (λ o. order_row k s.orders ≡ some o) (owned host k a s)
  unfolding owned
  owned_facts k a s =
      or_raise-Yields _ (host.get_order k s.orders) _ _
        (λ o e1. raise-Yields _ (not (may_modify o a)) _ _ (λ e2. sound.gets k s.orders o e1))
