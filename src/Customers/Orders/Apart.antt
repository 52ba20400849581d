-- ===== src/Customers/Orders/Apart.antt =====
-- An operation on an order leaves the rows of the other orders alone.
use alpha_pos_local.Base.{ℕ, ◌≡◌, refl, subst, none, some, arith, if◌then◌else◌}
use alpha_pos_local.Base.Tables.{row-key}
use alpha_pos_local.Base.Yields.{Yields}
use alpha_pos_local.Customers.Orders.Rows.{
  Order, Store, Host, order_row, item_row, item_is, is_unready_of, is_ready, save_order, save_items,
  notify, Notice,
}
use alpha_pos_local.Customers.Orders.Parts.{
  recalculate_total, check_and_update_ready, stamp_ready, stamp_item,
}
use alpha_pos_local.Customers.Orders.Create.{placed}
use alpha_pos_local.Customers.Orders.Edit.{put_item, reopen, reopen_order, after_removal, bury_item}
use alpha_pos_local.Customers.Orders.Status.{write_status}
use alpha_pos_local.Customers.Orders.Kitchen.{notify_ready, mark_item_ready, unmark_item_ready}
use alpha_pos_local.Customers.Orders.Details.{set_person, edited}
use alpha_pos_local.Customers.Checkout.Orders.{Actor}
use alpha_pos_local.Customers.Orders.Calls.{Call, serve, target, IsSound}
use alpha_pos_local.Customers.Orders.Frame.{
  Frame, SameRows-Frame, Frame-trans, save_order-Frame, notify-SameRows,
}
use alpha_pos_local.Customers.Orders.Edits.{
  add_item-Yields, update_item-Yields, remove_item-Yields, set_status-Yields,
}
use alpha_pos_local.Customers.Orders.Changes.{
  create-Yields, set_type-Yields, item_ready-Yields, item_unready-Yields, ready_order-Yields,
  assign-Yields, edit-Yields,
}
use alpha_pos_local.Customers.Orders.Plain.{edited-Plain}
use alpha_pos_local.Customers.Orders.Touches.{
  Frame-refl, item-Frame, unready-Frame, recalculate-Frame, stamp-Frame, if-Frame, put_item-Frame,
  check-Frame, reopen_order-Frame, after_removal-Frame, write_status-Frame, notify_ready-Frame,
  placed-Frame,
}

-- A frame of the order found at a key is one of the key.
at_key :
    (k : ℕ) (o : Order) (s t : Store) → order_row k s.orders ≡ some o → Frame o.pk s t → Frame k s t
at_key k o s t found f = subst (λ (j : ℕ). Frame j s t) (row-key (λ o. o.pk) k s.orders o found) f

-- The two calls of one item stay within the order that they have seen.
module _ (host : Host) (sound : IsSound host) where
  pub late_ready-Frame :
      (now later k item : ℕ) (a : Actor) (seen s : Store)
      → Yields (Frame k s) (mark_item_ready host now later k item a seen s)
  unfolding stamp_item
  late_ready-Frame now later k item a seen s =
      item_ready-Yields host sound _ now later k item a seen s (λ o i found live cooking row own.
        let t = save_items (item_is i.pk) (stamp_item (some now)) s in
        let r = check_and_update_ready later o t in
        subst (λ (j : ℕ). Frame j s (notify_ready o.pk r))
          (row-key (λ o. o.pk) k seen.orders o found)
          (Frame-trans o.pk s t (notify_ready o.pk r)
            (item-Frame o.pk item i (stamp_item (some now)) s (λ r. refl) (λ r. refl) row
              (ground arith))
            (Frame-trans o.pk t (r.2) (notify_ready o.pk r) (check-Frame later o t)
              (notify_ready-Frame o.pk r))))

  pub late_unready-Frame :
      (k item : ℕ) (a : Actor) (seen s : Store)
      → Yields (Frame k s) (unmark_item_ready host k item a seen s)
  unfolding stamp_item
  late_unready-Frame k item a seen s =
      item_unready-Yields host sound _ k item a seen s (λ o i found live row own.
        let t = save_items (item_is i.pk) (stamp_item none) s in
        let first : Frame o.pk s t =
          item-Frame o.pk item i (stamp_item none) s (λ r. refl) (λ r. refl) row (ground arith) in
        subst (λ (j : ℕ). Frame j s (if is_ready o.status then save_order o.pk reopen t else t))
          (row-key (λ o. o.pk) k seen.orders o found)
          (if-Frame o.pk (is_ready o.status) s (save_order o.pk reopen t) t
            (Frame-trans o.pk s t (save_order o.pk reopen t) first
              (save_order-Frame o.pk reopen t (λ r. refl)))
            first))

module _ (host : Host) (sound : IsSound host) (s : Store) where
  -- The frame of every operation.
  pub serve-Frame : (c : Call) → Yields (Frame (target c) s) (serve host c s)
  unfolding stamp_item set_person
  serve-Frame (Call.create fresh r) = create-Yields host sound _ fresh r s (λ type lines s' same.
      let t = placed host fresh r type lines s in
      Frame-trans fresh.order_key s t s' (placed-Frame host fresh r type lines s)
        (SameRows-Frame fresh.order_key t s' same))
  serve-Frame (Call.add_item key now k product q a) =
      add_item-Yields host sound _ key now k product q a s (λ o p n s' found unpaid cooking same.
        let t = (put_item host key now k p n s).1 in
        let u = reopen_order p o t in
        let v = recalculate_total host k u in
        let e = row-key (λ o. o.pk) k s.orders o found in
        Frame-trans k s t s' (put_item-Frame host sound key now k p n s) (
          Frame-trans k t u s' (subst (λ (j : ℕ). Frame j t u) e (reopen_order-Frame p o t))
            (Frame-trans k u v s' (recalculate-Frame host k u) (SameRows-Frame k v s' same))))
  serve-Frame (Call.update_item k item q a) =
      update_item-Yields host sound _ k item q a s (λ o i n s' found unpaid cooking row own same.
        let t = save_items (item_is i.pk) (λ r. record r { quantity = n }) s in
        let v = recalculate_total host k t in
        Frame-trans k s t s'
          (item-Frame k i.pk i (λ r. record r { quantity = n }) s (λ r. refl) (λ r. refl) row own)
          (Frame-trans k t v s' (recalculate-Frame host k t) (SameRows-Frame k v s' same)))
  serve-Frame (Call.remove_item now k item a) =
      remove_item-Yields host sound _ now k item a s (λ o i s1 found unpaid cooking row own same.
        let t = save_items (item_is i.pk) bury_item s1 in
        let v = after_removal host now o t in
        let e = row-key (λ o. o.pk) k s.orders o found in
        let row1 : item_row i.pk s1.items ≡ some i = rw (same.1) row in
        Frame-trans k s s1 v (SameRows-Frame k s s1 same) (
          Frame-trans k s1 t v (item-Frame k i.pk i bury_item s1 (λ r. refl) (λ r. refl) row1 own)
            (subst (λ (j : ℕ). Frame j t v) e (after_removal-Frame host now o t))))
  serve-Frame (Call.set_status now k text a reason) =
      set_status-Yields host sound _ now k text a reason s (λ o found c. Frame-refl k s)
        (λ o status s1 s' found live same same'.
          let v = write_status now o status s1 in
          let e = row-key (λ o. o.pk) k s.orders o found in
          Frame-trans k s s1 s' (SameRows-Frame k s s1 same) (
            Frame-trans k s1 v s'
              (subst (λ (j : ℕ). Frame j s1 v) e (write_status-Frame now o status s1))
              (SameRows-Frame k v s' same')))
  serve-Frame (Call.set_type k text a) =
      set_type-Yields host sound _ k text a s (λ o type found live.
        at_key k o s (save_order o.pk (λ r. record r { order_type = type }) s) found
          (save_order-Frame o.pk (λ r. record r { order_type = type }) s (λ r. refl)))
  serve-Frame (Call.item_ready now later k item a) =
      late_ready-Frame host sound now later k item a s s
  serve-Frame (Call.item_unready k item a) = late_unready-Frame host sound k item a s s
  serve-Frame (Call.ready_order now k a) =
      ready_order-Yields host sound _ now k a s (λ o found live.
        let t = save_order o.pk (stamp_ready now) s in
        let u = save_items (is_unready_of o.pk) (stamp_item (some now)) t in
        let v = notify (Notice.ready_order o.pk) u in
        at_key k o s (if is_ready o.status then s else v) found (
          if-Frame o.pk (is_ready o.status) s s v (Frame-refl o.pk s) (
            Frame-trans o.pk s t v (stamp-Frame now o.pk s) (
              Frame-trans o.pk t u v (unready-Frame o.pk (some now) t)
                (SameRows-Frame o.pk u v (notify-SameRows (Notice.ready_order o.pk) u))))))
  serve-Frame (Call.assign k person a) = assign-Yields host sound _ k person a s (λ o found live.
      at_key k o s (save_order o.pk (set_person person) s) found
        (save_order-Frame o.pk (set_person person) s (λ r. refl)))
  serve-Frame (Call.edit k e a) = edit-Yields host sound _ k e a s (λ o found live.
      at_key k o s (save_order o.pk (edited host e) s) found
        (save_order-Frame o.pk (edited host e) s (λ r. (edited-Plain host e r).0)))
