-- ===== src/Waiters/Orders/Alone.antt =====
-- A waiter's calls and the orders of the other cashiers (waiters/services/order_service.py).
use alpha_pos_local.Base.{
  ℕ, ◌≡◌, ◌≢◌, refl, sym, subst, ◌∙◌, Bool, true, false, not, ◌&&◌, Option, none, some, List, [],
  ◌∷◌, ◌++◌, inl, inr, arith, ok, any, keep, if◌then◌else◌, Option-cases,
}
use alpha_pos_local.Base.Text.{Text}
use alpha_pos_local.Base.Tables.{row-append_new, row-append_old}
use alpha_pos_local.Base.Yields.{
  Yields, if_Yields, bind-Yields, raise-Yields, or_raise-Yields, bind_known,
}
use alpha_pos_local.Couriers.Dispatch.Store.{canceled, preparing}
use alpha_pos_local.Customers.Orders.Rows.{
  Order, Store, not_serving, table_not_found, ready_order, cancelled_order, new_order, order_row,
  is_live_of, is_unready_of, is_canceled, is_ready, save_order, save_items, notify,
}
use alpha_pos_local.Customers.Orders.Parts.{apply_order_stock_transition, stamp_ready, stamp_item}
use alpha_pos_local.Customers.Orders.Create.{Fresh, Line, new_items, any_kitchen_item, stock_items}
use alpha_pos_local.Customers.Orders.Status.{set_status}
use alpha_pos_local.Customers.Orders.Calls.{IsSound}
use alpha_pos_local.Customers.Orders.Frame.{
  Frame, SameRows, SameRows-Frame, Frame-trans, save_order-Frame, notify-SameRows, append-ItemFrame,
}
use alpha_pos_local.Customers.Orders.Guards.{stock_same}
use alpha_pos_local.Customers.Orders.Touches.{
  Frame-refl, unready-Frame, stamp-Frame, if-Frame, new_items-Belongs,
}
use alpha_pos_local.Waiters.Orders.Rows.{
  available, occupied, Floor, WaiterHost, owned_order, set_table, with_core,
}
use alpha_pos_local.Waiters.Orders.Create.{
  Request, new_order_row, placed, create_order, check_request, table_key,
}
use alpha_pos_local.Waiters.Orders.Status.{
  requests_order, readied, mark_ready, request_payment, refund_paid, cancel_order,
}
use alpha_pos_local.Waiters.Orders.Tables.{serves_table, is_bound, update_table_status}
use alpha_pos_local.Waiters.Orders.Owned.{Within, set_table-core, last-Yields, owned_facts, at_key}

either_core : (c : Bool) (f g : Floor) → g.core ≡ f.core → (if c then f else g).core ≡ f.core
either_core true f g e = refl
either_core false f g e = e

module _ (host : WaiterHost) (sound : IsSound host.core) where
  readied-Frame : (now : ℕ) (o : Order) (s : Store) → Frame o.pk s (readied now o s)
  unfolding readied
  readied-Frame now o s =
      let t = save_order o.pk (stamp_ready now) s in
      let u = save_items (is_unready_of o.pk) (stamp_item (some now)) t in
      if-Frame o.pk (is_ready o.status) s s _ (Frame-refl o.pk s) (
        Frame-trans o.pk s t (notify (ready_order o.pk) u) (stamp-Frame now o.pk s) (
          Frame-trans o.pk t u (notify (ready_order o.pk) u) (unready-Frame o.pk (some now) t) (
            SameRows-Frame o.pk u (notify (ready_order o.pk) u)
              (notify-SameRows (ready_order o.pk) u))))

  pub ready-Within : (now k w : ℕ) (f : Floor) → Yields (Within k w f) (mark_ready host now k w f)
  unfolding mark_ready
  ready-Within now k w f =
      bind_known _ _ (owned_order host k w f.core) _ (owned_facts host sound k w f.core)
        (λ o (found, own). raise-Yields _ (is_canceled o.status) _ _ (λ e. (
          (o, found, own),
          at_key host sound k o f.core f.core (readied now o f.core) found
              (readied-Frame now o f.core),
        )))

  pub request-Within :
      (now k w : ℕ) (f : Floor) → Yields (Within k w f) (request_payment host now k w f)
  unfolding request_payment
  request-Within now k w f =
      bind_known _ _ (owned_order host k w f.core) _ (owned_facts host sound k w f.core)
        (λ o (found, own). raise-Yields _ o.is_paid _ _ (λ e.
          raise-Yields _ (is_canceled o.status) _ _ (λ d. (
            (o, found, own),
            subst (λ (s : Store). Frame k f.core s)
                (sym (
                  either_core (any (requests_order o.pk) f.requests) f
                    (record f {
                      requests = record { order_id = o.pk; requested_at = now } ∷ f.requests;
                    })
                    refl))
                (Frame-refl k f.core),
          ))))

  refund_same : (o : Order) (w : ℕ) (s : Store) → Yields (SameRows s) (refund_paid host.core o w s)
  unfolding refund_paid
  refund_same o w s =
      if_Yields (SameRows s) (not o.is_paid) _ _ (λ _. (refl, refl))
        (λ _.
          if_Yields (SameRows s) (host.core.refund_accepted s.refunds _) _ _ (λ _. (refl, refl))
            (λ _. tt))

  pub cancel-Within : (k w : ℕ) (f : Floor) → Yields (Within k w f) (cancel_order host k w f)
  unfolding cancel_order
  cancel-Within k w f =
      bind_known _ _ (owned_order host k w f.core) _ (owned_facts host sound k w f.core)
        (λ o (found, own). raise-Yields _ (is_canceled o.status) _ _ (λ e.
          bind_known (Within k w f) (SameRows f.core) (refund_paid host.core o w f.core) _
            (refund_same o w f.core)
            (λ s1 same.
              let v = save_order o.pk (set_status canceled) s1 in
              last-Yields (Within k w f) v
                (apply_order_stock_transition host.core o.pk (some o.status) canceled
                  (stock_items (keep (is_live_of o.pk) s1.items)) o.user_id v)
                (λ s2.
                  set_table host o.table available (with_core (notify (cancelled_order o.pk) s2) f))
                (stock_same host.core o.pk (some o.status) canceled
                  (stock_items (keep (is_live_of o.pk) s1.items)) o.user_id v)
                (λ s2 kept.
                  let t = notify (cancelled_order o.pk) s2 in
                  (
                    (o, found, own),
                    rw (set_table-core host o.table available (with_core t f)) (
                        at_key host sound k o f.core f.core t found (
                          Frame-trans o.pk f.core s1 t (SameRows-Frame o.pk f.core s1 same) (
                            Frame-trans o.pk s1 v t
                              (save_order-Frame o.pk (set_status canceled) s1 (λ r. refl))
                              (Frame-trans o.pk v s2 t (SameRows-Frame o.pk v s2 kept) (
                                SameRows-Frame o.pk s2 t
                                  (notify-SameRows (cancelled_order o.pk) s2)))))),
                  )))))

  placed-Frame :
      (fresh : Fresh) (r : Order) (lines : List Line) (s : Store)
      → r.pk ≡ fresh.order_key
      → Frame fresh.order_key s (placed fresh r lines s)
  unfolding placed
  placed-Frame fresh r lines s key =
      if-Frame pk (any_kitchen_item lines) s t u first
        (Frame-trans pk s t u first (stamp-Frame fresh.now pk t))
    where
      pk : ℕ
      pk = fresh.order_key

      t : Store
      t = record s { orders = s.orders ++ r ∷ []; items = s.items ++ new_items fresh 0 lines }

      u : Store
      u = save_order pk (stamp_ready fresh.now) t

      other : (k : ℕ) → k ≢ pk → order_row k t.orders ≡ order_row k s.orders
      other k d = elim (Option-cases (order_row k s.orders)) [
        | inr (o, e) ↦ row-append_old (λ o. o.pk) k s.orders _ o e ∙ sym e
        | inl n ↦
            let new : order_row k (r ∷ []) ≡ none = ground arith in
            row-append_new (λ o. o.pk) k s.orders _ n ∙ new ∙ sym n
      ]

      first : Frame pk s t
      first = (other, append-ItemFrame pk s.items _ (new_items-Belongs fresh 0 lines))

  pub create-Frame :
      (fresh : Fresh) (r : Request) (f : Floor)
      → Yields (λ g. Frame fresh.order_key f.core g.core) (create_order host fresh r f)
  unfolding create_order new_order_row
  create-Frame fresh r f =
      bind-Yields _ (check_request host r f) _ (λ (type, place, table, lines) e.
        let row = new_order_row fresh r type place (table_key table) lines in
        let t = placed fresh row lines f.core in
        last-Yields (λ g. Frame fresh.order_key f.core g.core) t
          (apply_order_stock_transition host.core fresh.order_key none preparing
            (stock_items (new_items fresh 0 lines)) (some r.waiter) t)
          (λ s.
            set_table host (table_key table) occupied
              (with_core (notify (new_order fresh.order_key) s) f))
          (stock_same host.core fresh.order_key none preparing
            (stock_items (new_items fresh 0 lines)) (some r.waiter) t)
          (λ s same.
            let u = notify (new_order fresh.order_key) s in
            rw (set_table-core host (table_key table) occupied (with_core u f)) (
              Frame-trans fresh.order_key f.core t u (placed-Frame fresh row lines f.core refl) (
                Frame-trans fresh.order_key t s u (SameRows-Frame fresh.order_key t s same) (
                  SameRows-Frame fresh.order_key s u
                    (notify-SameRows (new_order fresh.order_key) s))))))

  pub table-Same :
      (t : ℕ) (status : Text) (actor : Option ℕ) (role : Option Text) (f : Floor)
      → Yields (λ g. g.core ≡ f.core) (update_table_status host t status actor role f)
  unfolding update_table_status
  table-Same t status actor role f = or_raise-Yields _ (host.read_table_status status) _ _ (λ v e.
      raise-Yields (λ g. g.core ≡ f.core)
        (is_bound role && not (any (serves_table t actor) f.core.orders)) not_serving _
        (λ d.
          or_raise-Yields (λ g. g.core ≡ f.core) (host.update_status t v f.tables) table_not_found
            (λ tables. ok (record f { tables = tables })) (λ ts c. refl)))
