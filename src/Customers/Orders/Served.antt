-- ===== src/Customers/Orders/Served.antt =====
-- What the writes of an operation leave of the readiness of its order.
use alpha_pos_local.Base.{
  ℕ, suc, ◌++◌, [], ◌∷◌, any, ◌≡◌, refl, sym, subst, Bool, true, false, none, some, List, inl, inr,
  arith, ◌==◌, Bool-cases, if◌then◌else◌, is_some, not, ◌&&◌, ◌||◌, ◌+◌,
}
use alpha_pos_local.Base.Tables.{row-key}
use alpha_pos_local.Couriers.Dispatch.Store.{
  OrderStatus, preparing, order_ready, canceled, completed, other_status,
}
use alpha_pos_local.Customers.Orders.Rows.{
  received, Order, Item, Product, Store, Host, order_row, item_row, is_live_of, is_preparing,
  is_canceled, item_is, is_ready, is_unready_of, save_order, save_items,
}
use alpha_pos_local.Customers.Orders.Parts.{check_and_update_ready, stamp_item}
use alpha_pos_local.Customers.Orders.Create.{Fresh, Line, new_item, new_items, any_kitchen_item}
use alpha_pos_local.Customers.Orders.Edit.{
  reopen, reopen_order, put_item, after_removal, bury_order,
}
use alpha_pos_local.Customers.Orders.Status.{write_status, set_status}
use alpha_pos_local.Customers.Orders.Frame.{save_order-row}
use alpha_pos_local.Customers.Orders.Cooked.{
  CookedAt, unready_CookedAt, recalculate_CookedAt, stamped_AllReady, order_stamped, check_CookedAt,
}

pub preparing_unready : (t : OrderStatus) → is_preparing t ≡ true → is_ready t ≡ false
preparing_unready preparing p = refl
preparing_unready order_ready p = absurd (ground arith)
preparing_unready canceled p = refl
preparing_unready completed p = refl
preparing_unready (other_status t) p = refl

pub canceled_unready : (t : OrderStatus) → is_canceled t ≡ true → is_ready t ≡ false
canceled_unready preparing p = refl
canceled_unready order_ready p = absurd (ground arith)
canceled_unready canceled p = refl
canceled_unready completed p = refl
canceled_unready (other_status t) p = refl

pub at_own :
    (k : ℕ) (o : Order) (s t : Store)
    → order_row k s.orders ≡ some o
    → (order_row o.pk s.orders ≡ some o → CookedAt o.pk t)
    → CookedAt k t
at_own k o s t found f =
    let e : o.pk ≡ k = row-key (λ o. o.pk) k s.orders o found in
    subst (λ (j : ℕ). CookedAt j t) e
      (f (subst (λ (j : ℕ). order_row j s.orders ≡ some o) (sym e) found))

pub put_item-orders :
    (host : Host) (key now k : ℕ) (p : Product) (n : ℕ) (s : Store)
    → (put_item host key now k p n s).1.orders ≡ s.orders
unfolding put_item save_items
put_item-orders host key now k p n s =
    elim (if p.is_instant then none else host.get_existing_unready k p.pk s.items)
      as (λ x.
        (elim x as (λ y. ℕ × Store) [
          | some i ↦
              (i.pk, save_items (item_is i.pk) (λ r. record r { quantity = i.quantity + n }) s)
          | none ↦ (
            key,
            record s {
              items =
                  s.items
                  ++ record {
                    pk = key;
                    order_id = k;
                    product_id = p.pk;
                    detail = none;
                    quantity = n;
                    price = p.price;
                    ready_at = if p.is_instant then some now else none;
                    is_deleted = false;
                  }
                    ∷ [];
            },
          )
        ]).1.orders
        ≡ s.orders) [ none ↦ refl | some i ↦ refl ]

pub reopen_CookedAt :
    (p : Product) (o : Order) (s : Store)
    → order_row o.pk s.orders ≡ some o
    → is_ready o.status ≡ false
    → CookedAt o.pk (reopen_order p o s)
unfolding reopen_order
reopen_CookedAt p o s found f = elim (Bool-cases (not p.is_instant && is_some o.ready_at)) [
  | inl t ↦ rw t (
      unready_CookedAt o.pk (save_order o.pk reopen s) (received s (reopen o))
        (save_order-row o.pk reopen s o (λ r. refl) found) refl)
  | inr u ↦ rw u (unready_CookedAt o.pk s o found f)
]

pub after_removal-CookedAt :
    (host : Host) (now : ℕ) (o : Order) (s : Store)
    → order_row o.pk s.orders ≡ some o
    → is_ready o.status ≡ false
    → CookedAt o.pk (after_removal host now o s)
unfolding after_removal
after_removal-CookedAt host now o s found f =
    elim (Bool-cases (not (any (is_live_of o.pk) s.items))) [
      | inl t ↦ rw t (
          unready_CookedAt o.pk (save_order o.pk bury_order s) (received s (bury_order o))
            (save_order-row o.pk bury_order s o (λ r. refl) found) f)
      | inr u ↦ rw u (
          recalculate_CookedAt host o.pk ((check_and_update_ready now o s).2)
            (check_CookedAt now o s found f))
    ]

pub status_CookedAt :
    (o : Order) (status : OrderStatus) (s : Store)
    → order_row o.pk s.orders ≡ some o
    → is_ready status ≡ false
    → CookedAt o.pk (save_order o.pk (set_status status) s)
status_CookedAt o status s found f =
    unready_CookedAt o.pk (save_order o.pk (set_status status) s) (received s (set_status status o))
      (save_order-row o.pk (set_status status) s o (λ r. refl) found) f

pub items_only :
    (test : Item → Bool) (write : Item → Item) (k : ℕ) (s : Store) (o : Order)
    → order_row k s.orders ≡ some o
    → order_row k (save_items test write s).orders ≡ some o
unfolding save_items
items_only test write k s o found = found

pub write_status-CookedAt :
    (now : ℕ) (o : Order) (status : OrderStatus) (s : Store)
    → order_row o.pk s.orders ≡ some o
    → CookedAt o.pk (write_status now o status s)
unfolding write_status
write_status-CookedAt now o order_ready s found =
    order_stamped now o.pk (save_items (is_unready_of o.pk) (stamp_item (some now)) s) o
      (items_only (is_unready_of o.pk) (stamp_item (some now)) o.pk s o found)
      (stamped_AllReady o.pk now s)
write_status-CookedAt now o preparing s found = status_CookedAt o preparing s found refl
write_status-CookedAt now o canceled s found = status_CookedAt o canceled s found refl
write_status-CookedAt now o completed s found = status_CookedAt o completed s found refl
write_status-CookedAt now o (other_status t) s found =
    status_CookedAt o (other_status t) s found refl

pub instant_AllReady :
    (fresh : Fresh) (n : ℕ) (lines : List Line) (j : ℕ) (i : Item)
    → any_kitchen_item lines ≡ false
    → item_row j (new_items fresh n lines) ≡ some i
    → is_some i.ready_at ≡ true
unfolding new_items new_item any_kitchen_item
instant_AllReady fresh n [] j i h e = absurd (ground arith)
instant_AllReady fresh n (l ∷ lines) j i h e = elim (Bool-cases (fresh.item_key n == j)) [
  | inl t ↦
      let q : new_item fresh n l ≡ i = ground arith in
      subst (λ (x : Item). is_some x.ready_at ≡ true) q (instant h)
  | inr u ↦ instant_AllReady fresh (suc n) lines j i (ground arith) (rw u at e)
]
  where
    instant :
        (not l.product.is_instant || any_kitchen_item lines) ≡ false
        → is_some (if l.product.is_instant then some fresh.now else none) ≡ true
    instant h = ground arith
