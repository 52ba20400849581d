-- ===== src/Customers/Orders/Balanced.antt =====
-- The amounts of an order after an edit of its lines.
use alpha_pos_local.Base.{
  ℕ, ◌≡◌, ◌⊎◌, refl, sym, ap, subst, Bool, true, false, not, ◌&&◌, ◌==◌, some, inl, inr, arith, any,
  Bool-cases, is_some,
}
use alpha_pos_local.Base.Int.{ℤ, pos, ◌+ℤ◌, ◌-ℤ◌, ◌≤ℤ◌, +ℤ_parts, -ℤ_parts, eq_of_parts}
use alpha_pos_local.Base.Tables.{row-key}
use alpha_pos_local.Base.Yields.{Yields}
use alpha_pos_local.Customers.Orders.Rows.{
  received, Order, Item, Product, Store, Host, order_row, item_is, is_live_of, save_order,
  save_items, is_ready,
}
use alpha_pos_local.Customers.Orders.Parts.{
  min_ℤ, max_ℤ, totals, recomputed, recalculate_total, check_and_update_ready, all_ready,
  stamp_ready,
}
use alpha_pos_local.Customers.Orders.Edit.{
  reopen, put_item, reopen_order, after_removal, bury_item, bury_order,
}
use alpha_pos_local.Customers.Orders.Calls.{Call, serve, target, IsSound}
use alpha_pos_local.Customers.Orders.Frame.{SameRows, save_order-row}
use alpha_pos_local.Customers.Orders.Touches.{totals_pk}
use alpha_pos_local.Customers.Orders.Served.{put_item-orders, items_only}
use alpha_pos_local.Customers.Orders.Edits.{add_item-Yields, update_item-Yields, remove_item-Yields}

-- The amounts of an order: the subtotal is what its lines come to, the total and the discount add up to
-- it, the total is not below zero, and so the discount not above the subtotal.
abbrev pub IsBalanced : Host → Store → Order → Type 0
IsBalanced host s o =
    (o.subtotal ≡ host.calculate_order_total o.pk s.items)
    × (o.total_amount +ℤ o.discount_amount ≡ o.subtotal)
    × (pos 0 ≤ℤ o.total_amount)
    × (o.discount_amount ≤ℤ o.subtotal)

-- No line of the order is left.
abbrev pub IsEmptied : ℕ → Store → Type 0
IsEmptied k s = any (λ i. i.order_id == k && not i.is_deleted) s.items ≡ false

-- The order of a key is balanced, or it is deleted and no line of it is left.
abbrev pub EditedAt : Host → ℕ → Store → Type 0
EditedAt host k s =
    (o : Order) × (order_row k s.orders ≡ some o)
    × ((o.is_deleted ≡ true) × IsEmptied k s ⊎ IsBalanced host s o)

min_le : (a b : ℤ) → min_ℤ a b ≤ℤ b
min_le a b = ground arith

-- A discount that is no more than the subtotal is taken off in full.
balance : (x d : ℤ) → d ≤ℤ x → (max_ℤ (pos 0) (x -ℤ d) +ℤ d ≡ x) × (pos 0 ≤ℤ max_ℤ (pos 0) (x -ℤ d))
balance x d h =
    let p = -ℤ_parts x d in
    let q = +ℤ_parts (max_ℤ (pos 0) (x -ℤ d)) d in (eq_of_parts _ _ (ground arith), ground arith)

totals-IsBalanced :
    (host : Host) (x y : ℤ) (o : Order) (s : Store)
    → x ≡ host.calculate_order_total o.pk s.items
    → y ≤ℤ x
    → IsBalanced host s (totals x y o)
unfolding totals
totals-IsBalanced host x y o s e h = let b = balance x y h in (e, b.0, b.1, h)

recalculate_EditedAt :
    (host : Host) (k : ℕ) (s : Store) (o : Order)
    → order_row k s.orders ≡ some o
    → EditedAt host k (recalculate_total host k s)
unfolding recalculate_total save_order
recalculate_EditedAt host k s o found =
    let x = host.calculate_order_total k s.items in
    let y = min_ℤ ((recomputed host k s).1) x in
    let t : Store = record s { discounts = (recomputed host k s).0 } in
    let key : o.pk ≡ k = row-key (λ o. o.pk) k s.orders o found in
    (
      received t (totals x y o),
      save_order-row k (totals x y) t o (totals_pk x y) found,
      inr (
          totals-IsBalanced host x y o s
            (ap (λ (j : ℕ). host.calculate_order_total j s.items) (sym key))
            (min_le ((recomputed host k s).1) x)),
    )

rows_EditedAt :
    (host : Host) (k : ℕ) (s t : Store) → SameRows s t → EditedAt host k s → EditedAt host k t
rows_EditedAt host k s t (a, b) (o, e, inl (d, l)) = (o, rw a e, inl (d, rw b l))
rows_EditedAt host k s t (a, b) (o, e, inr (x, y, z, w)) = (o, rw a e, inr (rw b x, y, z, w))

reopen_row :
    (p : Product) (o : Order) (s : Store)
    → order_row o.pk s.orders ≡ some o
    → (q : Order) × (order_row o.pk (reopen_order p o s).orders ≡ some q)
unfolding reopen_order
reopen_row p o s found = elim (Bool-cases (not p.is_instant && is_some o.ready_at)) [
  | inl t ↦ rw t (received s (reopen o), save_order-row o.pk reopen s o (λ r. refl) found)
  | inr u ↦ rw u (o, found)
]

check_row :
    (now : ℕ) (o : Order) (s : Store)
    → order_row o.pk s.orders ≡ some o
    → (q : Order) × (order_row o.pk (check_and_update_ready now o s).2.orders ≡ some q)
unfolding check_and_update_ready stamp_ready
check_row now o s found = elim (Bool-cases (all_ready o.pk s.items && not (is_ready o.status))) [
  | inl t ↦
      rw t (
        received s (stamp_ready now o),
        save_order-row o.pk (stamp_ready now) s o (λ r. refl) found,
      )
  | inr u ↦ rw u (o, found)
]

after_removal-EditedAt :
    (host : Host) (now : ℕ) (o : Order) (s : Store)
    → order_row o.pk s.orders ≡ some o
    → EditedAt host o.pk (after_removal host now o s)
unfolding after_removal save_order
after_removal-EditedAt host now o s found =
    elim (Bool-cases (not (any (is_live_of o.pk) s.items))) [
      | inl t ↦ rw t (
        received s (bury_order o),
        save_order-row o.pk bury_order s o (λ r. refl) found,
        inl (refl, emptied t),
      )
      | inr u ↦
          let (q, e) = check_row now o s found in
          rw u (recalculate_EditedAt host o.pk ((check_and_update_ready now o s).2) q e)
    ]
  where
    emptied :
        not (any (is_live_of o.pk) s.items) ≡ true → IsEmptied o.pk (save_order o.pk bury_order s)
    emptied t = ground arith

-- The calls that edit the lines of an order.
abbrev pub is_edit : Call → Bool
is_edit (Call.add_item key now order product q a) = true
is_edit (Call.update_item order item q a) = true
is_edit (Call.remove_item now order item a) = true
is_edit _ = false

-- What an accepted edit leaves.
pub edit-EditedAt :
    (host : Host) (sound : IsSound host) (c : Call) (s : Store)
    → is_edit c ≡ true
    → Yields (EditedAt host (target c)) (serve host c s)
edit-EditedAt host sound (Call.add_item key now k product q a) s e =
    add_item-Yields host sound _ key now k product q a s (λ o p n t found u c same.
      let t1 = (put_item host key now k p n s).1 in
      let t2 = reopen_order p o t1 in
      let same_key : o.pk ≡ k = row-key (λ o. o.pk) k s.orders o found in
      let own : order_row o.pk t1.orders ≡ some o =
        rw (put_item-orders host key now k p n s)
          (subst (λ (j : ℕ). order_row j s.orders ≡ some o) (sym same_key) found) in
      let (r, e2) = reopen_row p o t1 own in
      rows_EditedAt host k (recalculate_total host k t2) t same (
        recalculate_EditedAt host k t2 r
          (subst (λ (j : ℕ). order_row j t2.orders ≡ some r) same_key e2)))
edit-EditedAt host sound (Call.update_item k item q a) s e =
    update_item-Yields host sound _ k item q a s (λ o i n t found u c row own same.
      let write : Item → Item = λ r. record r { quantity = n } in
      let t1 = save_items (item_is i.pk) write s in
      rows_EditedAt host k (recalculate_total host k t1) t same
        (recalculate_EditedAt host k t1 o (items_only (item_is i.pk) write k s o found)))
edit-EditedAt host sound (Call.remove_item now k item a) s e =
    remove_item-Yields host sound _ now k item a s (λ o i s1 found u c row own same.
      let t1 = save_items (item_is i.pk) bury_item s1 in
      let key : o.pk ≡ k = row-key (λ o. o.pk) k s.orders o found in
      let own1 : order_row o.pk s1.orders ≡ some o =
        rw (same.0) (subst (λ (j : ℕ). order_row j s.orders ≡ some o) (sym key) found) in
      subst (λ (j : ℕ). EditedAt host j (after_removal host now o t1)) key
        (after_removal-EditedAt host now o t1 (items_only (item_is i.pk) bury_item o.pk s1 o own1)))
edit-EditedAt host sound (Call.create fresh r) s e = absurd (ground arith)
edit-EditedAt host sound (Call.set_status now k text a reason) s e = absurd (ground arith)
edit-EditedAt host sound (Call.set_type k text a) s e = absurd (ground arith)
edit-EditedAt host sound (Call.item_ready now later k item a) s e = absurd (ground arith)
edit-EditedAt host sound (Call.item_unready k item a) s e = absurd (ground arith)
edit-EditedAt host sound (Call.ready_order now k a) s e = absurd (ground arith)
edit-EditedAt host sound (Call.assign k person a) s e = absurd (ground arith)
edit-EditedAt host sound (Call.edit k x a) s e = absurd (ground arith)
