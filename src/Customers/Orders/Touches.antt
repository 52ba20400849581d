-- ===== src/Customers/Orders/Touches.antt =====
-- What each part of an operation writes is of its order.
use alpha_pos_local.Base.{
  ℕ, suc, ◌+◌, ◌≡◌, ◌≢◌, refl, sym, ◌∙◌, subst, Bool, true, false, not, ◌&&◌, Option, none, some,
  List, [], ◌∷◌, ◌++◌, inl, inr, arith, ◌==◌, Bool-cases, Option-cases, if◌then◌else◌, any, is_some,
}
use alpha_pos_local.Base.Int.{ℤ}
use alpha_pos_local.Base.Tables.{row-key, row-append_new, row-append_old}
use alpha_pos_local.Couriers.Dispatch.Store.{
  OrderStatus, OrderType, preparing, order_ready, canceled, completed, other_status,
}
use alpha_pos_local.Customers.Orders.Rows.{
  Order, Item, Product, Store, Host, order_row, item_row, item_is, is_live_of, is_unready_of,
  is_ready, save_order, save_items, notify,
}
use alpha_pos_local.Customers.Orders.Parts.{
  totals, recomputed, recalculate_total, check_and_update_ready, all_ready, stamp_ready, stamp_item,
}
use alpha_pos_local.Customers.Orders.Create.{
  Fresh, Request, Line, new_order_row, new_item, new_items, any_kitchen_item, placed,
}
use alpha_pos_local.Customers.Orders.Edit.{
  put_item, reopen, reopen_order, after_removal, bury_order,
}
use alpha_pos_local.Customers.Orders.Status.{write_status, set_status}
use alpha_pos_local.Customers.Orders.Kitchen.{notify_ready}
use alpha_pos_local.Customers.Orders.Calls.{IsSound}
use alpha_pos_local.Customers.Orders.Frame.{
  Frame, SameRows-Frame, Frame-trans, save_order-Frame, save_items-Frame, append-ItemFrame, Belongs,
}

pub Frame-refl : (pk : ℕ) (s : Store) → Frame pk s s
Frame-refl pk s = SameRows-Frame pk s s (refl, refl)

-- A write to the row of one item, which is of the order.
pub item-Frame :
    (pk k : ℕ) (i : Item) (write : Item → Item) (s : Store)
    → ((i : Item) → (write i).pk ≡ i.pk)
    → ((i : Item) → (write i).order_id ≡ i.order_id)
    → item_row k s.items ≡ some i
    → i.order_id ≡ pk
    → Frame pk s (save_items (item_is i.pk) write s)
item-Frame pk k i write s same same_order found own =
    save_items-Frame pk (item_is i.pk) write s same same_order (λ j r e t.
      let p : i.pk ≡ k = row-key (λ i. i.pk) k s.items i found in
      let q : r.pk ≡ j = row-key (λ i. i.pk) j s.items r e in
      let d : j ≡ k = ground arith in
      let f : item_row k s.items ≡ some r = subst (λ (x : ℕ). item_row x s.items ≡ some r) d e in
      let g : i ≡ r = ground arith in subst (λ (x : Item). x.order_id ≡ pk) g own)

pub unready-Frame :
    (pk : ℕ) (at : Option ℕ) (s : Store)
    → Frame pk s (save_items (is_unready_of pk) (stamp_item at) s)
unfolding stamp_item
unready-Frame pk at s =
    save_items-Frame pk (is_unready_of pk) (stamp_item at) s (λ i. refl) (λ i. refl)
      (λ k i e t. ground arith)

pub totals_pk : (x y : ℤ) (o : Order) → (totals x y o).pk ≡ o.pk
unfolding totals
totals_pk x y o = refl

pub recalculate-Frame :
    (host : Host) (pk : ℕ) (s : Store) → Frame pk s (recalculate_total host pk s)
unfolding recalculate_total
recalculate-Frame host pk s =
    let t : Store = record s { discounts = (recomputed host pk s).0 } in
    Frame-trans pk s t (recalculate_total host pk s) (SameRows-Frame pk s t (refl, refl))
      (save_order-Frame pk (totals _ _) t (totals_pk _ _))

pub stamp-Frame : (now pk : ℕ) (s : Store) → Frame pk s (save_order pk (stamp_ready now) s)
unfolding stamp_ready
stamp-Frame now pk s = save_order-Frame pk (stamp_ready now) s (λ o. refl)

pub if-Frame :
    (pk : ℕ) (test : Bool) (s t u : Store)
    → Frame pk s t
    → Frame pk s u
    → Frame pk s (if test then t else u)
if-Frame pk true s t u f g = f
if-Frame pk false s t u f g = g

pub check-Frame :
    (now : ℕ) (o : Order) (s : Store) → Frame o.pk s (check_and_update_ready now o s).2
unfolding check_and_update_ready
check-Frame now o s = from (all_ready o.pk s.items && not (is_ready o.status))
  where
    from :
        (test : Bool)
        → Frame o.pk s
            (if◌then◌else◌ {A = Bool × Bool × Store} test
              (true, true, save_order o.pk (stamp_ready now) s)
              (all_ready o.pk s.items, false, s)).2
    from true = stamp-Frame now o.pk s
    from false = Frame-refl o.pk s

pub put_item-Frame :
    (host : Host)
    → IsSound host
    → (key now pk : ℕ) (p : Product) (n : ℕ) (s : Store)
    → Frame pk s (put_item host key now pk p n s).1
unfolding put_item
put_item-Frame host sound key now pk p n s = from p.is_instant
  where
    added : Bool → Store
    added ready = record s {
      items =
          s.items
          ++ record {
            pk = key;
            order_id = pk;
            product_id = p.pk;
            detail = none;
            quantity = n;
            price = p.price;
            ready_at = if ready then some now else none;
            is_deleted = false;
          }
            ∷ [];
    }

    own : (i : Item) → i.order_id ≡ pk → (k : ℕ) → Belongs pk (item_row k (i ∷ []))
    own i e k = elim (Bool-cases (i.pk == k)) [ inl t ↦ rw t e | inr f ↦ rw f tt ]

    from :
        (instant : Bool)
        → Frame pk s
            (elim (if instant then none else host.get_existing_unready pk p.pk s.items)
              as (λ x. ℕ × Store) [
                | some i ↦ (
                  i.pk,
                  save_items (item_is i.pk) (λ r. record r { quantity = i.quantity + n }) s,
                )
                | none ↦ (key, added instant)
              ]).1
    from true = (λ k d. refl, append-ItemFrame pk s.items _ (own _ refl))
    from false =
        found (host.get_existing_unready pk p.pk s.items) (sound.gets_existing pk p.pk s.items)
      where
        found :
            (o : Option Item)
            → ((i : Item) → o ≡ some i → (item_row i.pk s.items ≡ some i) × (i.order_id ≡ pk))
            → Frame pk s
                (elim o as (λ x. ℕ × Store) [
                  | some i ↦ (
                    i.pk,
                    save_items (item_is i.pk) (λ r. record r { quantity = i.quantity + n }) s,
                  )
                  | none ↦ (key, added false)
                ]).1
        found none h = (λ k d. refl, append-ItemFrame pk s.items _ (own _ refl))
        found (some i) h =
            item-Frame pk i.pk i (λ r. record r { quantity = i.quantity + n }) s (λ r. refl)
              (λ r. refl) ((h i refl).0) ((h i refl).1)

pub reopen_order-Frame : (p : Product) (o : Order) (s : Store) → Frame o.pk s (reopen_order p o s)
unfolding reopen_order
reopen_order-Frame p o s =
    if-Frame o.pk (not p.is_instant && is_some o.ready_at) s _ s
      (save_order-Frame o.pk reopen s (λ o. refl)) (Frame-refl o.pk s)

pub after_removal-Frame :
    (host : Host) (now : ℕ) (o : Order) (s : Store) → Frame o.pk s (after_removal host now o s)
unfolding after_removal
after_removal-Frame host now o s =
    let t : Store = (check_and_update_ready now o s).2 in
    if-Frame o.pk (not (any (is_live_of o.pk) s.items)) s _ _
      (save_order-Frame o.pk bury_order s (λ o. refl))
      (Frame-trans o.pk s t (recalculate_total host o.pk t) (check-Frame now o s)
        (recalculate-Frame host o.pk t))

pub write_status-Frame :
    (now : ℕ) (o : Order) (status : OrderStatus) (s : Store)
    → Frame o.pk s (write_status now o status s)
unfolding write_status
write_status-Frame now o order_ready s =
    let t = save_items (is_unready_of o.pk) (stamp_item (some now)) s in
    Frame-trans o.pk s t (save_order o.pk (stamp_ready now) t) (unready-Frame o.pk (some now) s)
      (stamp-Frame now o.pk t)
write_status-Frame now o preparing s = save_order-Frame o.pk (set_status preparing) s (λ o. refl)
write_status-Frame now o canceled s = save_order-Frame o.pk (set_status canceled) s (λ o. refl)
write_status-Frame now o completed s = save_order-Frame o.pk (set_status completed) s (λ o. refl)
write_status-Frame now o (other_status t) s =
    save_order-Frame o.pk (set_status (other_status t)) s (λ o. refl)

pub notify_ready-Frame : (pk : ℕ) (r : Bool × Bool × Store) → Frame pk r.2 (notify_ready pk r)
unfolding notify_ready notify
notify_ready-Frame pk (a, true, s) = Frame-refl pk s
notify_ready-Frame pk (a, false, s) = Frame-refl pk s

pub new_items-Belongs :
    (fresh : Fresh) (n : ℕ) (lines : List Line) (k : ℕ)
    → Belongs fresh.order_key (item_row k (new_items fresh n lines))
unfolding new_items new_item
new_items-Belongs fresh n [] k = tt
new_items-Belongs fresh n (l ∷ lines) k = elim (Bool-cases (fresh.item_key n == k)) [
  | inl t ↦ rw t refl
  | inr f ↦ rw f (new_items-Belongs fresh (suc n) lines k)
]

new_row-other :
    (host : Host) (fresh : Fresh) (r : Request) (type : OrderType) (lines : List Line) (k : ℕ)
    → k ≢ fresh.order_key
    → order_row k (new_order_row host fresh r type lines ∷ []) ≡ none
unfolding new_order_row
new_row-other host fresh r type lines k d = ground arith

pub placed-Frame :
    (host : Host) (fresh : Fresh) (r : Request) (type : OrderType) (lines : List Line) (s : Store)
    → Frame fresh.order_key s (placed host fresh r type lines s)
unfolding placed
placed-Frame host fresh r type lines s =
    if-Frame pk (any_kitchen_item lines) s t u first
      (Frame-trans pk s t u first (stamp-Frame fresh.now pk t))
  where
    pk : ℕ
    pk = fresh.order_key

    t : Store
    t = record s {
      orders = s.orders ++ new_order_row host fresh r type lines ∷ [];
      items = s.items ++ new_items fresh 0 lines;
    }

    u : Store
    u = save_order pk (stamp_ready fresh.now) t

    other : (k : ℕ) → k ≢ pk → order_row k t.orders ≡ order_row k s.orders
    other k d = elim (Option-cases (order_row k s.orders)) [
      | inr (o, e) ↦ row-append_old (λ o. o.pk) k s.orders _ o e ∙ sym e
      | inl n ↦
          row-append_new (λ o. o.pk) k s.orders _ n
          ∙ new_row-other host fresh r type lines k d
          ∙ sym n
    ]

    first : Frame pk s t
    first = (other, append-ItemFrame pk s.items _ (new_items-Belongs fresh 0 lines))
