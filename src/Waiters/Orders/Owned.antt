-- ===== src/Waiters/Orders/Owned.antt =====
-- A waiter's calls leave the orders of the others alone (waiters/services/order_service.py).
use alpha_pos_local.Base.{
  ℕ, ◌≡◌, refl, subst, Bool, true, false, not, Option, none, some, arith, Outcome, ok, err, ◌>>=◌,
  any, if◌then◌else◌,
}
use alpha_pos_local.Base.Int.{ℤ, pos, ◌-ℤ◌}
use alpha_pos_local.Base.Tables.{row-key}
use alpha_pos_local.Base.Yields.{Yields, raise-Yields, or_raise-Yields, bind_known}
use alpha_pos_local.Customers.Orders.Rows.{
  Order, Store, OrderError, order_row, item_row, item_is, is_live_of, is_preparing, save_order,
  save_items,
}
use alpha_pos_local.Customers.Orders.Parts.{recalculate_total, adjust_order_stock}
use alpha_pos_local.Customers.Orders.Edit.{
  put_item, reopen_order, bury_item, bury_order, above_zero,
}
use alpha_pos_local.Customers.Orders.Calls.{IsSound}
use alpha_pos_local.Customers.Orders.Frame.{
  Frame, SameRows, SameRows-Frame, Frame-trans, save_order-Frame,
}
use alpha_pos_local.Customers.Orders.Guards.{adjust_same}
use alpha_pos_local.Customers.Orders.Touches.{
  item-Frame, recalculate-Frame, put_item-Frame, reopen_order-Frame,
}
use alpha_pos_local.Waiters.Orders.Rows.{
  TableStatus, available, Floor, WaiterHost, is_cashier_of, owned_order, set_table, with_core,
}
use alpha_pos_local.Waiters.Orders.Edit.{
  editable, add_item, update_item, after_removal, remove_item,
}

-- The order of the key has the waiter as its cashier.
abbrev pub IsOwn : ℕ → ℕ → Store → Type 0
IsOwn k w s = (o : Order) × (order_row k s.orders ≡ some o) × (is_cashier_of w o ≡ true)

-- A call to the order of the key by the waiter leaves the other orders and their items.
abbrev pub Within : ℕ → ℕ → Floor → Floor → Type 0
Within k w f g = IsOwn k w f.core × Frame k f.core g.core

pub set_table-core :
    (host : WaiterHost) (t : Option ℕ) (status : TableStatus) (f : Floor)
    → (set_table host t status f).core ≡ f.core
unfolding set_table
set_table-core host none status f = refl
set_table-core host (some t) status f = ground arith

-- The stock services are asked last, and change no order or item.
pub last-Yields :
    (P : Floor → Type 0) (v : Store) (m : Outcome OrderError Store) (g : Store → Floor)
    → Yields (SameRows v) m
    → ((s : Store) → SameRows v s → P (g s))
    → Yields P (m >>= λ s. ok (g s))
last-Yields P v (ok s) g q h = h s q
last-Yields P v (err e) g q h = tt

module _ (host : WaiterHost) (sound : IsSound host.core) where
  pub owned_facts :
      (k w : ℕ) (s : Store)
      → Yields
          (λ o. (order_row k s.orders ≡ some o) × (is_cashier_of w o ≡ true))
          (owned_order host k w s)
  unfolding owned_order
  owned_facts k w s = or_raise-Yields _ (host.core.get_order k s.orders) _ _ (λ o e.
      raise-Yields _ (not (is_cashier_of w o)) _ _ (λ d. (sound.gets k s.orders o e, ground arith)))

  editable_facts :
      (k w : ℕ) (s : Store)
      → Yields
          (λ o. (order_row k s.orders ≡ some o) × (is_cashier_of w o ≡ true))
          (editable host k w s)
  unfolding editable
  editable_facts k w s = bind_known _ _ (owned_order host k w s) _ (owned_facts k w s) (λ o q.
      raise-Yields _ o.is_paid _ _ (λ e. raise-Yields _ (not (is_preparing o.status)) _ _ (λ d. q)))

  -- A frame of the order found at a key is one of the key.
  pub at_key :
      (k : ℕ) (o : Order) (s t u : Store)
      → order_row k s.orders ≡ some o
      → Frame o.pk t u
      → Frame k t u
  at_key k o s t u found f =
      subst (λ (j : ℕ). Frame j t u) (row-key (λ o. o.pk) k s.orders o found) f

  pub add_item-Within :
      (key now k product : ℕ) (q : ℤ) (w : ℕ) (f : Floor)
      → Yields (Within k w f) (add_item host key now k product q w f)
  unfolding add_item
  add_item-Within key now k product q w f =
      bind_known _ _ (editable host k w f.core) _ (editable_facts k w f.core) (λ o (found, own).
        or_raise-Yields _ (host.core.product product) _ _ (λ p e.
          or_raise-Yields _ (above_zero q) _ _ (λ n d.
            let t = (put_item host.core key now k p n f.core).1 in
            let u = reopen_order p o t in
            let v = recalculate_total host.core k u in
            last-Yields (Within k w f) v
              (adjust_order_stock host.core k product (pos n) (some w)
                ((put_item host.core key now k p n f.core).0) v)
              (λ s. with_core s f)
              (adjust_same host.core k product (pos n) (some w)
                ((put_item host.core key now k p n f.core).0) v)
              (λ s' same. (
                (o, found, own),
                Frame-trans k f.core t s' (put_item-Frame host.core sound key now k p n f.core) (
                    Frame-trans k t u s' (at_key k o f.core t u found (reopen_order-Frame p o t)) (
                      Frame-trans k u v s' (recalculate-Frame host.core k u)
                        (SameRows-Frame k v s' same))),
              )))))

  pub update_item-Within :
      (k item : ℕ) (q : ℤ) (w : ℕ) (f : Floor)
      → Yields (Within k w f) (update_item host k item q w f)
  unfolding update_item
  update_item-Within k item q w f =
      bind_known _ _ (editable host k w f.core) _ (editable_facts k w f.core) (λ o (found, own).
        or_raise-Yields _ (above_zero q) _ _ (λ n d.
          or_raise-Yields _ (host.core.first_item item k f.core.items) _ _ (λ i e.
            let (row, mine) = sound.gets_first item k f.core.items i e in
            let t = save_items (item_is i.pk) (λ r. record r { quantity = n }) f.core in
            let v = recalculate_total host.core k t in
            last-Yields (Within k w f) v
              (adjust_order_stock host.core k i.product_id (pos n -ℤ pos i.quantity) (some w) i.pk
                v)
              (λ s. with_core s f)
              (adjust_same host.core k i.product_id (pos n -ℤ pos i.quantity) (some w) i.pk v)
              (λ s' same. (
                (o, found, own),
                Frame-trans k f.core t s'
                    (item-Frame k i.pk i (λ r. record r { quantity = n }) f.core (λ r. refl)
                      (λ r. refl) row mine)
                    (Frame-trans k t v s' (recalculate-Frame host.core k t)
                      (SameRows-Frame k v s' same)),
              )))))

  removal-Frame : (o : Order) (f : Floor) → Frame o.pk f.core (after_removal host o f).core
  unfolding after_removal
  removal-Frame o f = from (not (any (is_live_of o.pk) f.core.items))
    where
      from :
          (c : Bool)
          → Frame o.pk f.core
              (if◌then◌else◌ {A = Floor} c
                (set_table host o.table available (with_core (save_order o.pk bury_order f.core) f))
                (with_core (recalculate_total host.core o.pk f.core) f)).core
      from true =
          rw
            (set_table-core host o.table available
              (with_core (save_order o.pk bury_order f.core) f))
            (save_order-Frame o.pk bury_order f.core (λ r. refl))
      from false = recalculate-Frame host.core o.pk f.core

  pub remove_item-Within :
      (k item w : ℕ) (f : Floor) → Yields (Within k w f) (remove_item host k item w f)
  unfolding remove_item
  remove_item-Within k item w f =
      bind_known _ _ (editable host k w f.core) _ (editable_facts k w f.core) (λ o (found, own).
        or_raise-Yields _ (host.core.first_item item k f.core.items) _ _ (λ i e.
          let (row, mine) = sound.gets_first item k f.core.items i e in
          last-Yields (Within k w f) f.core
            (adjust_order_stock host.core k i.product_id (pos 0 -ℤ pos i.quantity) (some w) i.pk
              f.core)
            (λ s. after_removal host o (with_core (save_items (item_is i.pk) bury_item s) f))
            (adjust_same host.core k i.product_id (pos 0 -ℤ pos i.quantity) (some w) i.pk f.core)
            (λ s1 same.
              let t = save_items (item_is i.pk) bury_item s1 in
              let g = with_core t f in
              let row1 : item_row i.pk s1.items ≡ some i = rw (same.1) row in
              (
                (o, found, own),
                Frame-trans k f.core s1 (after_removal host o g).core
                    (SameRows-Frame k f.core s1 same)
                    (Frame-trans k s1 t (after_removal host o g).core
                      (item-Frame k i.pk i bury_item s1 (λ r. refl) (λ r. refl) row1 mine)
                      (at_key k o f.core t (after_removal host o g).core found
                        (removal-Frame o g))),
              ))))
