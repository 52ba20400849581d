-- ===== src/Customers/Orders/Changes.antt =====
-- The rules of the other operations: a new order, its type, the kitchen and the delivery data.
use alpha_pos_local.Base.{
  ℕ, ◌≡◌, true, false, not, ◌&&◌, Option, none, some, List, if◌then◌else◌, is_some,
}
use alpha_pos_local.Base.Text.{Text}
use alpha_pos_local.Base.Yields.{Yields, bind-Yields, raise-Yields, or_raise-Yields, bind_known}
use alpha_pos_local.Base.Tables.{row, row_where, row_where-found}
use alpha_pos_local.Couriers.Dispatch.Store.{preparing, OrderType}
use alpha_pos_local.Customers.Checkout.Orders.{Actor, truthy}
use alpha_pos_local.Customers.Orders.Rows.{
  Order, Item, Store, Host, is_ready, is_canceled, order_row, item_row, is_live_of, may_modify,
  save_order, save_items, item_is, notify, new_order, ready_order, is_unready_of,
  has_active_assignment,
}
use alpha_pos_local.Customers.Orders.Parts.{
  apply_order_stock_transition, check_and_update_ready, stamp_item, stamp_ready,
}
use alpha_pos_local.Customers.Orders.Edit.{reopen}
use alpha_pos_local.Customers.Orders.Create.{
  stock_items, Fresh, Request, Line, placed, new_items, check_request, place_order, create_order,
  read_type,
}
use alpha_pos_local.Customers.Orders.Status.{owned, update_order_type}
use alpha_pos_local.Customers.Orders.Kitchen.{
  notify_ready, mark_item_ready, is_ready_of, unmark_item_ready, mark_order_ready,
}
use alpha_pos_local.Customers.Orders.Details.{
  without_cashier, unknown_person, given, open_order, set_person, assign_courier, Edit, edited,
  update_order_details,
}
use alpha_pos_local.Customers.Orders.Calls.{IsSound}
use alpha_pos_local.Customers.Orders.Frame.{SameRows, notify-SameRows, same_trans}
use alpha_pos_local.Customers.Orders.Guards.{stock_same, owned_facts}

module _ (host : Host) (sound : IsSound host) (P : Store → Type 0) where
  pub create-Yields :
      (fresh : Fresh) (r : Request) (s : Store)
      → ((type : OrderType) (lines : List Line) (s' : Store)
          → SameRows (placed host fresh r type lines s) s'
          → P s')
      → Yields P (create_order host fresh r s)
  unfolding create_order place_order
  create-Yields fresh r s f = bind-Yields P (check_request host r) _ (λ c e.
      let t = placed host fresh r (c.0) (c.1) s in
      let lines = stock_items (new_items fresh 0 (c.1)) in
      bind_known P (SameRows t)
        (apply_order_stock_transition host fresh.order_key none preparing lines (some r.user_id) t)
        _ (stock_same host fresh.order_key none preparing lines (some r.user_id) t)
        (λ s2 kept. f (c.0) (c.1) (notify (new_order fresh.order_key) s2) (
          same_trans t s2 (notify (new_order fresh.order_key) s2) kept
            (notify-SameRows (new_order fresh.order_key) s2))))

  pub set_type-Yields :
      (k : ℕ) (text : Text) (a : Actor) (s : Store)
      → ((o : Order) (type : OrderType)
          → order_row k s.orders ≡ some o
          → is_canceled o.status ≡ false
          → P (save_order o.pk (λ r. record r { order_type = type }) s))
      → Yields P (update_order_type host k text a s)
  unfolding update_order_type
  set_type-Yields k text a s f =
      bind_known P _ (owned host k a s) _ (owned_facts host sound k a s) (λ o found.
        or_raise-Yields P (read_type text) _ _
          (λ type e2. raise-Yields P (is_canceled o.status) _ _ (λ live. f o type found live)))

  pub item_ready-Yields :
      (now later k item : ℕ) (a : Actor) (seen s : Store)
      → ((o : Order) (i : Item)
          → order_row k seen.orders ≡ some o
          → is_canceled o.status ≡ false
          → is_ready o.status ≡ false
          → item_row item s.items ≡ some i
          → is_live_of o.pk i ≡ true
          → P (
              notify_ready o.pk (
                check_and_update_ready later o
                  (save_items (item_is i.pk) (stamp_item (some now)) s))))
      → Yields P (mark_item_ready host now later k item a seen s)
  unfolding mark_item_ready
  item_ready-Yields now later k item a seen s f =
      bind_known P _ (owned host k a seen) _ (owned_facts host sound k a seen) (λ o found.
        raise-Yields P (is_canceled o.status) _ _ (λ live.
          raise-Yields P (is_ready o.status) _ _ (λ cooking.
            or_raise-Yields P (row_where (λ i. i.pk) item (is_live_of o.pk) s.items) _ _ (λ i e.
              let (row, own) = row_where-found (λ i. i.pk) item (is_live_of o.pk) s.items i e in
              raise-Yields P (is_some i.ready_at) _ _ (λ _. f o i found live cooking row own)))))

  pub item_unready-Yields :
      (k item : ℕ) (a : Actor) (seen s : Store)
      → ((o : Order) (i : Item)
          → order_row k seen.orders ≡ some o
          → is_canceled o.status ≡ false
          → item_row item s.items ≡ some i
          → is_ready_of o.pk i ≡ true
          → P (
              if is_ready o.status
              then save_order o.pk reopen (save_items (item_is i.pk) (stamp_item none) s)
              else save_items (item_is i.pk) (stamp_item none) s))
      → Yields P (unmark_item_ready host k item a seen s)
  unfolding unmark_item_ready
  item_unready-Yields k item a seen s f =
      bind_known P _ (owned host k a seen) _ (owned_facts host sound k a seen) (λ o found.
        raise-Yields P (is_canceled o.status) _ _ (λ live.
          or_raise-Yields P (row_where (λ i. i.pk) item (is_ready_of o.pk) s.items) _ _ (λ i e.
            let (row, own) = row_where-found (λ i. i.pk) item (is_ready_of o.pk) s.items i e in
            f o i found live row own)))

  pub ready_order-Yields :
      (now k : ℕ) (a : Actor) (s : Store)
      → ((o : Order)
          → order_row k s.orders ≡ some o
          → is_canceled o.status ≡ false
          → P (
              if is_ready o.status
              then s
              else notify (ready_order o.pk) (
                  save_items
                    (is_unready_of o.pk)
                    (stamp_item (some now))
                    (save_order o.pk (stamp_ready now) s))))
      → Yields P (mark_order_ready host now k a s)
  unfolding mark_order_ready
  ready_order-Yields now k a s f =
      bind_known P _ (owned host k a s) _ (owned_facts host sound k a s)
        (λ o found. raise-Yields P (is_canceled o.status) _ _ (λ live. f o found live))

  open_facts :
      (k : ℕ) (a : Actor) (s : Store)
      → Yields
          (λ o. (order_row k s.orders ≡ some o) × (is_canceled o.status ≡ false))
          (open_order k a s)
  unfolding open_order
  open_facts k a s =
      or_raise-Yields _ (row_where (λ o. o.pk) k (λ o. not o.is_deleted) s.orders) _ _ (λ o e1.
        let (row, kept) = row_where-found (λ o. o.pk) k (λ o. not o.is_deleted) s.orders o e1 in
        raise-Yields _ (is_canceled o.status) _ _
          (λ live. raise-Yields _ (not (may_modify o (without_cashier a))) _ _ (λ _. (row, live))))

  pub assign-Yields :
      (k : ℕ) (person : Option ℕ) (a : Actor) (s : Store)
      → ((o : Order)
          → order_row k s.orders ≡ some o
          → is_canceled o.status ≡ false
          → P (save_order o.pk (set_person person) s))
      → Yields P (assign_courier host k person a s)
  unfolding assign_courier
  assign-Yields k person a s f = bind_known P _ (open_order k a s) _ (open_facts k a s) (λ o h.
      raise-Yields P (truthy person && has_active_assignment o.pk s) _ _
        (λ _. raise-Yields P (unknown_person host person) _ _ (λ _. f o h.0 h.1)))

  pub edit-Yields :
      (k : ℕ) (e : Edit) (a : Actor) (s : Store)
      → ((o : Order)
          → order_row k s.orders ≡ some o
          → is_canceled o.status ≡ false
          → P (save_order o.pk (edited host e) s))
      → Yields P (update_order_details host k e a s)
  unfolding update_order_details
  edit-Yields k e a s f = bind_known P _ (open_order k a s) _ (open_facts k a s) (λ o h.
      raise-Yields P (truthy (given e.delivery_person) && has_active_assignment o.pk s) _ _ (λ _.
        raise-Yields P (unknown_person host (given e.delivery_person)) _ _ (λ _. f o h.0 h.1)))
