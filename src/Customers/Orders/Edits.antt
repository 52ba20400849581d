-- ===== src/Customers/Orders/Edits.antt =====
-- A rule for each operation on an order: what holds of the rows that an accepted call leaves.
use alpha_pos_local.Base.{ℕ, ◌≡◌, refl, true, false, not, Option, some, keep}
use alpha_pos_local.Base.Int.{ℤ, pos, ◌-ℤ◌}
use alpha_pos_local.Base.Text.{Text}
use alpha_pos_local.Base.Yields.{
  Yields, if_Yields, bind-Yields, or_raise-Yields, yields_ok, Yields-of, bind_known,
}
use alpha_pos_local.Base.Tables.{row}
use alpha_pos_local.Couriers.Dispatch.Store.{
  OrderStatus, preparing, order_ready, canceled, completed, other_status,
}
use alpha_pos_local.Customers.Checkout.Orders.{Actor}
use alpha_pos_local.Customers.Orders.Rows.{
  Order, Item, Product, Store, Host, is_preparing, is_canceled, order_row, item_row, is_live_of,
  save_items, item_is, notify, or_key,
}
use alpha_pos_local.Customers.Orders.Parts.{
  adjust_order_stock, apply_order_stock_transition, recalculate_total,
}
use alpha_pos_local.Customers.Orders.Edit.{
  editable, Quantity, positive, above_zero, put_item, reopen_order, add_item_to_order,
  update_order_item, remove_item_from_order, after_removal, bury_item,
}
use alpha_pos_local.Customers.Orders.Spelling.{allowed_status, from_api_status}
use alpha_pos_local.Customers.Orders.Create.{or_blank, stock_items}
use alpha_pos_local.Customers.Orders.Status.{
  owned, refund_paid, refund_for, write_status, change_status, move_status, update_order_status,
  notify_status,
}
use alpha_pos_local.Customers.Orders.Calls.{IsSound}
use alpha_pos_local.Customers.Orders.Frame.{SameRows, same_trans}
use alpha_pos_local.Customers.Orders.Guards.{adjust_same, stock_same, editable_facts, owned_facts}

module _ (host : Host) (sound : IsSound host) (P : Store → Type 0) where
  pub add_item-Yields :
      (key now k product : ℕ) (q : Quantity) (a : Actor) (s : Store)
      → ((o : Order) (p : Product) (n : ℕ) (s' : Store)
          → order_row k s.orders ≡ some o
          → o.is_paid ≡ false
          → is_preparing o.status ≡ true
          → SameRows
              (recalculate_total host k (reopen_order p o ((put_item host key now k p n s).1)))
              s'
          → P s')
      → Yields P (add_item_to_order host key now k product q a s)
  unfolding add_item_to_order
  add_item-Yields key now k product q a s f = bind-Yields P (editable host k a s) _ (λ o e.
      let (found, unpaid, cooking) =
        yields_ok _ (editable host k a s) o (editable_facts host sound k a s) e in
      or_raise-Yields P (host.product product) _ _ (λ p e2.
        or_raise-Yields P (positive q) _ _ (λ n e3. Yields-of P _ (λ s' e4.
          f o p n s' found unpaid cooking (yields_ok _ _ s' (adjust_same host _ _ _ _ _ _) e4)))))

  pub update_item-Yields :
      (k item : ℕ) (q : ℤ) (a : Actor) (s : Store)
      → ((o : Order) (i : Item) (n : ℕ) (s' : Store)
          → order_row k s.orders ≡ some o
          → o.is_paid ≡ false
          → is_preparing o.status ≡ true
          → item_row i.pk s.items ≡ some i
          → i.order_id ≡ k
          → SameRows
              (recalculate_total host k
                (save_items (item_is i.pk) (λ r. record r { quantity = n }) s))
              s'
          → P s')
      → Yields P (update_order_item host k item q a s)
  unfolding update_order_item
  update_item-Yields k item q a s f = bind-Yields P (editable host k a s) _ (λ o e.
      let (found, unpaid, cooking) =
        yields_ok _ (editable host k a s) o (editable_facts host sound k a s) e in
      or_raise-Yields P (above_zero q) _ _ (λ n e2.
        or_raise-Yields P (host.first_item item k s.items) _ _ (λ i e3.
          let (row, own) = sound.gets_first item k s.items i e3 in
          Yields-of P _ (λ s' e4.
            f o i n s' found unpaid cooking row own
              (yields_ok _ _ s' (adjust_same host _ _ _ _ _ _) e4)))))

  pub remove_item-Yields :
      (now k item : ℕ) (a : Actor) (s : Store)
      → ((o : Order) (i : Item) (s1 : Store)
          → order_row k s.orders ≡ some o
          → o.is_paid ≡ false
          → is_preparing o.status ≡ true
          → item_row i.pk s.items ≡ some i
          → i.order_id ≡ k
          → SameRows s s1
          → P (after_removal host now o (save_items (item_is i.pk) bury_item s1)))
      → Yields P (remove_item_from_order host now k item a s)
  unfolding remove_item_from_order
  remove_item-Yields now k item a s f = bind-Yields P (editable host k a s) _ (λ o e.
      let (found, unpaid, cooking) =
        yields_ok _ (editable host k a s) o (editable_facts host sound k a s) e in
      or_raise-Yields P (host.first_item item k s.items) _ _ (λ i e2.
        let (row, own) = sound.gets_first item k s.items i e2 in
        bind_known P (SameRows s)
          (adjust_order_stock host k i.product_id (pos 0 -ℤ pos i.quantity)
            (or_key a.cashier_id a.user_id) i.pk s)
          _
          (adjust_same host k i.product_id (pos 0 -ℤ pos i.quantity) (or_key a.cashier_id a.user_id)
            i.pk s)
          (λ s1 kept. f o i s1 found unpaid cooking row own kept)))

  refund_same :
      (o : Order) (status : OrderStatus) (a : Actor) (reason : Text) (s : Store)
      → Yields (SameRows s) (refund_for host o status a reason s)
  unfolding refund_paid
  refund_same o canceled a reason s =
      if_Yields (SameRows s) (not o.is_paid) _ _ (λ _. (refl, refl))
        (λ _.
          if_Yields (SameRows s) (host.refund_accepted s.refunds _) _ _ (λ _. (refl, refl))
            (λ _. tt))
  refund_same o preparing a reason s = (refl, refl)
  refund_same o order_ready a reason s = (refl, refl)
  refund_same o completed a reason s = (refl, refl)
  refund_same o (other_status t) a reason s = (refl, refl)

  notify_status_same :
      (k : ℕ) (status : OrderStatus) (s : Store) → SameRows s (notify_status k status s)
  unfolding notify
  notify_status_same k preparing s = (refl, refl)
  notify_status_same k order_ready s = (refl, refl)
  notify_status_same k canceled s = (refl, refl)
  notify_status_same k completed s = (refl, refl)
  notify_status_same k (other_status t) s = (refl, refl)

  -- A cancelled order stays as it is; of another one the status is written.
  pub set_status-Yields :
      (now k : ℕ) (text : Option Text) (a : Actor) (reason : Text) (s : Store)
      → ((o : Order) → order_row k s.orders ≡ some o → is_canceled o.status ≡ true → P s)
      → ((o : Order) (status : OrderStatus) (s1 s' : Store)
          → order_row k s.orders ≡ some o
          → is_canceled o.status ≡ false
          → SameRows s s1
          → SameRows (write_status now o status s1) s'
          → P s')
      → Yields P (update_order_status host now k text a reason s)
  unfolding update_order_status move_status change_status
  set_status-Yields now k text a reason s same f = bind-Yields P (owned host k a s) _ (λ o e.
      let found = yields_ok _ (owned host k a s) o (owned_facts host sound k a s) e in
      or_raise-Yields P (allowed_status (from_api_status (or_blank text))) _ _ (λ status e2.
        if_Yields P (is_canceled o.status) _ _
          (λ c. if_Yields P (is_canceled status) _ _ (λ _. same o found c) (λ _. tt))
          (λ c.
            bind_known P (SameRows s) (refund_for host o status a reason s) _
              (refund_same o status a reason s)
              (λ s1 kept.
                let t = write_status now o status s1 in
                let lines = stock_items (keep (is_live_of o.pk) t.items) in
                bind_known P (SameRows t)
                  (apply_order_stock_transition host o.pk (some o.status) status lines o.user_id t)
                  _ (stock_same host o.pk (some o.status) status lines o.user_id t)
                  (λ s2 same2. f o status s1 (notify_status o.pk status s2) found c kept (
                    same_trans t s2 (notify_status o.pk status s2) same2
                      (notify_status_same o.pk status s2)))))))
