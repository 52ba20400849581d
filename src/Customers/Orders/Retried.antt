-- ===== src/Customers/Orders/Retried.antt =====
-- A retry of `mark_order_ready`.
use alpha_pos_local.Base.{
  ℕ, ◌≡◌, refl, sym, subst, true, false, not, some, inl, inr, arith, Bool-cases, ok,
}
use alpha_pos_local.Base.Tables.{row-key}
use alpha_pos_local.Base.Yields.{Yields, bind-Yields, raise-Yields, or_raise-Yields, yields_ok}
use alpha_pos_local.Couriers.Dispatch.Store.{
  OrderStatus, preparing, order_ready, canceled, completed, other_status,
}
use alpha_pos_local.Customers.Checkout.Orders.{Actor}
use alpha_pos_local.Customers.Orders.Rows.{
  received, Order, Store, Host, order_row, is_ready, is_canceled, is_unready_of, may_modify,
  save_order, notify,
}
use alpha_pos_local.Customers.Orders.Parts.{stamp_ready, stamp_item}
use alpha_pos_local.Customers.Orders.Status.{owned}
use alpha_pos_local.Customers.Orders.Kitchen.{mark_order_ready}
use alpha_pos_local.Customers.Orders.Calls.{IsSound}
use alpha_pos_local.Customers.Orders.Frame.{save_order-row}
use alpha_pos_local.Customers.Orders.Guards.{owned_facts}
use alpha_pos_local.Customers.Orders.Served.{items_only}

-- Whoever may modify an order reaches the end of the checks of a call.
owned_ok :
    (host : Host) (k : ℕ) (a : Actor) (s : Store) (o : Order)
    → host.get_order k s.orders ≡ some o
    → may_modify o a ≡ true
    → owned host k a s ≡ ok o
unfolding owned
owned_ok host k a s o e m = rw (e, m) refl

owned_may :
    (host : Host) (k : ℕ) (a : Actor) (s : Store)
    → Yields (λ o. may_modify o a ≡ true) (owned host k a s)
unfolding owned
owned_may host k a s =
    or_raise-Yields _ (host.get_order k s.orders) _ _
      (λ o e1. raise-Yields _ (not (may_modify o a)) _ _ (λ e2. ground arith))

-- A ready order is answered with the rows as they are.
ready_again :
    (host : Host) (now k : ℕ) (a : Actor) (s : Store) (o : Order)
    → host.get_order k s.orders ≡ some o
    → may_modify o a ≡ true
    → is_ready o.status ≡ true
    → is_canceled o.status ≡ false
    → mark_order_ready host now k a s ≡ ok s
unfolding mark_order_ready
ready_again host now k a s o e m r c = rw (owned_ok host k a s o e m, r, c) refl

ready_live : (t : OrderStatus) → is_ready t ≡ true → is_canceled t ≡ false
ready_live preparing r = refl
ready_live order_ready r = refl
ready_live canceled r = absurd (ground arith)
ready_live completed r = refl
ready_live (other_status t) r = refl

-- What an accepted call leaves: an order that is ready, and that the caller may modify.
ready_left :
    (host : Host) (sound : IsSound host) (now k : ℕ) (a : Actor) (s : Store)
    → Yields
        (λ t.
          (o : Order) × (order_row k t.orders ≡ some o)
          × (is_ready o.status ≡ true)
          × (may_modify o a ≡ true))
        (mark_order_ready host now k a s)
unfolding mark_order_ready stamp_ready notify
ready_left host sound now k a s = bind-Yields _ (owned host k a s) _ (λ o e.
    let found = yields_ok _ (owned host k a s) o (owned_facts host sound k a s) e in
    let may = yields_ok _ (owned host k a s) o (owned_may host k a s) e in
    raise-Yields _ (is_canceled o.status) _ _ (λ live. elim (Bool-cases (is_ready o.status)) [
      | inl t ↦ rw t (o, found, t, may)
      | inr f ↦
          let key : o.pk ≡ k = row-key (λ o. o.pk) k s.orders o found in
          let own : order_row o.pk s.orders ≡ some o =
            subst (λ (j : ℕ). order_row j s.orders ≡ some o) (sym key) found in
          let t1 = save_order o.pk (stamp_ready now) s in
          let left : order_row o.pk t1.orders ≡ some (received s (stamp_ready now o)) =
            save_order-row o.pk (stamp_ready now) s o (λ r. refl) own in
          rw f (
            received s (stamp_ready now o),
            items_only (is_unready_of o.pk) (stamp_item (some now)) k t1
                (received s (stamp_ready now o))
                (subst (λ (j : ℕ). order_row j t1.orders ≡ some (received s (stamp_ready now o)))
                  key left),
            refl,
            may,
          )
    ]))

-- A second `mark_order_ready` of the same caller, whenever it finds the order, is accepted and changes
-- nothing: no time is stamped again and no notice is sent again.
pub mark_order_ready-again :
    (host : Host) (sound : IsSound host) (now later k : ℕ) (a : Actor) (s t : Store) (p : Order)
    → mark_order_ready host now k a s ≡ ok t
    → host.get_order k t.orders ≡ some p
    → mark_order_ready host later k a t ≡ ok t
mark_order_ready-again host sound now later k a s t p e finds =
    let (o, row, ready, may) =
      yields_ok _ (mark_order_ready host now k a s) t (ready_left host sound now k a s) e in
    let same : o ≡ p = let d = sound.gets k t.orders p finds in ground arith in
    let ready' = subst (λ (x : Order). is_ready x.status ≡ true) same ready in
    ready_again host later k a t p finds (subst (λ (x : Order). may_modify x a ≡ true) same may)
      ready' (ready_live p.status ready')
