-- ===== src/Customers/Orders/Ready.antt =====
-- What an accepted call leaves of the readiness of its order.
use alpha_pos_local.Base.{
  ℕ, ◌++◌, [], ◌∷◌, ◌≡◌, refl, sym, ◌∙◌, subst, ap, Bool, true, false, Option, none, some, List,
  inl, inr, arith, Bool-cases, Option-cases, if◌then◌else◌, is_some,
}
use alpha_pos_local.Base.Tables.{row-key, row-append_new, row-append_old}
use alpha_pos_local.Base.Yields.{Yields}
use alpha_pos_local.Couriers.Dispatch.Store.{OrderType}
use alpha_pos_local.Customers.Orders.Rows.{
  received, Order, Item, Store, Host, order_row, item_row, item_is, is_ready, is_unready_of,
  save_order, save_items, notify, Notice,
}
use alpha_pos_local.Customers.Orders.Parts.{
  recalculate_total, check_and_update_ready, stamp_ready, stamp_item,
}
use alpha_pos_local.Customers.Orders.Create.{
  Fresh, Request, Line, new_order_row, new_items, any_kitchen_item, placed,
}
use alpha_pos_local.Customers.Orders.Edit.{reopen, reopen_order, put_item, after_removal, bury_item}
use alpha_pos_local.Customers.Orders.Status.{write_status}
use alpha_pos_local.Customers.Orders.Kitchen.{notify_ready}
use alpha_pos_local.Customers.Orders.Details.{edited, set_person}
use alpha_pos_local.Customers.Orders.Calls.{Call, serve, target, IsFresh, IsSound}
use alpha_pos_local.Customers.Orders.Frame.{SameRows, save_order-row, notify-SameRows}
use alpha_pos_local.Customers.Orders.Edits.{
  add_item-Yields, update_item-Yields, remove_item-Yields, set_status-Yields,
}
use alpha_pos_local.Customers.Orders.Changes.{
  create-Yields, set_type-Yields, item_ready-Yields, item_unready-Yields, ready_order-Yields,
  assign-Yields, edit-Yields,
}
use alpha_pos_local.Customers.Orders.Cooked.{
  AllReady, Cooked, Linked, CookedAt, rows_CookedAt, unready_CookedAt, recalculate_CookedAt,
  stamped_AllReady, order_stamped, check_CookedAt,
}
use alpha_pos_local.Customers.Orders.Served.{
  preparing_unready, canceled_unready, at_own, put_item-orders, reopen_CookedAt,
  after_removal-CookedAt, write_status-CookedAt, items_only, instant_AllReady,
}
use alpha_pos_local.Customers.Orders.Plain.{Plain, edited-Plain, person-Plain}

module _ (late : ℕ → Bool) (k : ℕ) (s : Store) (cooked : Cooked late s) where
  -- A write that leaves the state of the order.
  Plain-CookedAt :
      (o : Order) (write : Order → Order)
      → ((o : Order) → Plain o (write o))
      → late o.pk ≡ false
      → order_row o.pk s.orders ≡ some o
      → CookedAt o.pk (save_order o.pk write s)
  unfolding save_order
  Plain-CookedAt o write plain prompt found = (
    received s (write o),
    save_order-row o.pk write s o (λ r. (plain r).0) found,
    λ t.
        let w = plain o in
        let h = cooked o.pk o prompt found (ap (λ x. is_ready x) (sym (w.1)) ∙ t) in
        (
          ap (λ (x : Option ℕ). is_some x) (w.2) ∙ h.0,
          λ j i e own live. h.1 j i e (own ∙ w.0) live,
        ),
  )

-- The items of a new order are those that were created with it.
new_AllReady :
    (late : ℕ → Bool) (fresh : Fresh) (lines : List Line) (s : Store)
    → late fresh.order_key ≡ false
    → Linked late s
    → order_row fresh.order_key s.orders ≡ none
    → any_kitchen_item lines ≡ false
    → AllReady fresh.order_key (s.items ++ new_items fresh 0 lines)
new_AllReady late fresh lines s prompt linked new h j i e own live =
    elim (Option-cases (item_row j s.items)) [
      | inl n ↦
          instant_AllReady fresh 0 lines j i h (sym (row-append_new (λ i. i.pk) j s.items _ n) ∙ e)
      | inr (r, f) ↦
          let q : some i ≡ some r = sym e ∙ row-append_old (λ i. i.pk) j s.items _ r f in
          let own' : r.order_id ≡ fresh.order_key = ground arith in
          let l : is_some (order_row r.order_id s.orders) ≡ true =
            linked j r (subst (λ (x : ℕ). late x ≡ false) (sym own') prompt) f in
          let m : order_row r.order_id s.orders ≡ none =
            subst (λ (x : ℕ). order_row x s.orders ≡ none) (sym own') new in
          absurd (ground arith)
    ]

new_row-own :
    (host : Host) (fresh : Fresh) (r : Request) (type : OrderType) (lines : List Line)
    → order_row fresh.order_key (new_order_row host fresh r type lines ∷ [])
      ≡ some (new_order_row host fresh r type lines)
unfolding new_order_row
new_row-own host fresh r type lines = ground arith

new_row-unready :
    (host : Host) (fresh : Fresh) (r : Request) (type : OrderType) (lines : List Line)
    → (is_ready (new_order_row host fresh r type lines).status ≡ false)
      × ((new_order_row host fresh r type lines).pk ≡ fresh.order_key)
unfolding new_order_row
new_row-unready host fresh r type lines = (refl, refl)

placed-CookedAt :
    (late : ℕ → Bool) (host : Host) (fresh : Fresh) (r : Request) (type : OrderType)
    (lines : List Line) (s : Store)
    → late fresh.order_key ≡ false
    → Linked late s
    → order_row fresh.order_key s.orders ≡ none
    → CookedAt fresh.order_key (placed host fresh r type lines s)
unfolding placed
placed-CookedAt late host fresh r type lines s prompt linked new =
    elim (Bool-cases (any_kitchen_item lines)) [
      | inl t ↦ rw t (unready_CookedAt pk t1 o found ((new_row-unready host fresh r type lines).0))
      | inr f ↦ rw f (
          order_stamped fresh.now pk t1 o found (
            subst (λ (x : ℕ). AllReady x (s.items ++ new_items fresh 0 lines))
              (sym ((new_row-unready host fresh r type lines).1))
              (new_AllReady late fresh lines s prompt linked new f)))
    ]
  where
    pk : ℕ
    pk = fresh.order_key

    o : Order
    o = new_order_row host fresh r type lines

    t1 : Store
    t1 = record s {
      orders = s.orders ++ new_order_row host fresh r type lines ∷ [];
      items = s.items ++ new_items fresh 0 lines;
    }

    found : order_row pk t1.orders ≡ some o
    found = row-append_new (λ o. o.pk) pk s.orders _ new ∙ new_row-own host fresh r type lines

notify_ready_same : (k : ℕ) (r : Bool × Bool × Store) → SameRows r.2 (notify_ready k r)
unfolding notify_ready notify
notify_ready_same k (a, true, s) = (refl, refl)
notify_ready_same k (a, false, s) = (refl, refl)

unmarked_CookedAt :
    (o : Order) (s : Store)
    → order_row o.pk s.orders ≡ some o
    → CookedAt o.pk (if is_ready o.status then save_order o.pk reopen s else s)
unmarked_CookedAt o s found = elim (Bool-cases (is_ready o.status)) [
  | inl t ↦ rw t (
      unready_CookedAt o.pk (save_order o.pk reopen s) (received s (reopen o))
        (save_order-row o.pk reopen s o (λ r. refl) found) refl)
  | inr f ↦ rw f (unready_CookedAt o.pk s o found f)
]

-- The rows after `mark_order_ready`.
abbrev marked : ℕ → Order → Store → Store
marked now o s =
    if is_ready o.status
    then s
    else notify (Notice.ready_order o.pk) (
        save_items (is_unready_of o.pk) (stamp_item (some now))
          (save_order o.pk (stamp_ready now) s))

stamped_both :
    (now : ℕ) (o : Order) (s : Store)
    → order_row o.pk s.orders ≡ some o
    → CookedAt o.pk (
        save_items
          (is_unready_of o.pk)
          (stamp_item (some now))
          (save_order o.pk (stamp_ready now) s))
unfolding stamp_ready
stamped_both now o s found =
    let t = save_order o.pk (stamp_ready now) s in
    (
      received s (stamp_ready now o),
      items_only (is_unready_of o.pk) (stamp_item (some now)) o.pk t
          (received s (stamp_ready now o))
          (save_order-row o.pk (stamp_ready now) s o (λ r. refl) found),
      λ _. (refl, stamped_AllReady o.pk now t),
    )

marked-CookedAt :
    (late : ℕ → Bool) (now : ℕ) (o : Order) (s : Store)
    → Cooked late s
    → late o.pk ≡ false
    → order_row o.pk s.orders ≡ some o
    → CookedAt o.pk (marked now o s)
marked-CookedAt late now o s cooked prompt found = elim (Bool-cases (is_ready o.status)) [
  | inl t ↦ rw t (o, found, cooked o.pk o prompt found)
  | inr f ↦
      let u =
        save_items (is_unready_of o.pk) (stamp_item (some now))
          (save_order o.pk (stamp_ready now) s) in
      rw f (
        rows_CookedAt o.pk u (notify (Notice.ready_order o.pk) u)
          (notify-SameRows (Notice.ready_order o.pk) u) (stamped_both now o s found))
]

prompt_at :
    (late : ℕ → Bool) (k : ℕ) (o : Order) (s : Store)
    → late k ≡ false
    → order_row k s.orders ≡ some o
    → late o.pk ≡ false
prompt_at late k o s prompt found =
    subst (λ (x : ℕ). late x ≡ false) (sym (row-key (λ o. o.pk) k s.orders o found)) prompt

-- What an accepted call leaves of its order.
module _ (late : ℕ → Bool) (host : Host) (sound : IsSound host) (s : Store) (cooked : Cooked late s)
    (linked : Linked late s) where
  pub serve-CookedAt :
      (c : Call)
      → late (target c) ≡ false
      → IsFresh c s
      → Yields (CookedAt (target c)) (serve host c s)
  unfolding set_person
  serve-CookedAt (Call.create fresh r) prompt new =
      create-Yields host sound _ fresh r s (λ type lines t same.
        rows_CookedAt fresh.order_key (placed host fresh r type lines s) t same
          (placed-CookedAt late host fresh r type lines s prompt linked new))
  serve-CookedAt (Call.add_item key now k product q a) prompt new =
      add_item-Yields host sound _ key now k product q a s (λ o p n t found u c same.
        let t1 = (put_item host key now k p n s).1 in
        let t2 = reopen_order p o t1 in
        at_own k o s t found (λ own.
          let own1 : order_row o.pk t1.orders ≡ some o =
            rw (put_item-orders host key now k p n s) own in
          let e = row-key (λ o. o.pk) k s.orders o found in
          subst (λ (j : ℕ). CookedAt j t) (sym e)
            (rows_CookedAt k (recalculate_total host k t2) t same (
              recalculate_CookedAt host k t2 (
                subst (λ (j : ℕ). CookedAt j t2) e
                  (reopen_CookedAt p o t1 own1 (preparing_unready o.status c)))))))
  serve-CookedAt (Call.update_item k item q a) prompt new =
      update_item-Yields host sound _ k item q a s (λ o i n t found u c row own same.
        let write : Item → Item = λ r. record r { quantity = n } in
        let t1 = save_items (item_is i.pk) write s in
        rows_CookedAt k (recalculate_total host k t1) t same (
          recalculate_CookedAt host k t1 (
            unready_CookedAt k t1 o (items_only (item_is i.pk) write k s o found)
              (preparing_unready o.status c))))
  serve-CookedAt (Call.remove_item now k item a) prompt new =
      remove_item-Yields host sound _ now k item a s (λ o i s1 found u c row own same.
        let t1 = save_items (item_is i.pk) bury_item s1 in
        at_own k o s (after_removal host now o t1) found (λ own.
          let own1 : order_row o.pk s1.orders ≡ some o = rw (same.0) own in
          after_removal-CookedAt host now o t1 (items_only (item_is i.pk) bury_item o.pk s1 o own1)
            (preparing_unready o.status c)))
  serve-CookedAt (Call.set_status now k text a reason) prompt new =
      set_status-Yields host sound _ now k text a reason s
        (λ o found c. unready_CookedAt k s o found (canceled_unready o.status c))
        (λ o status s1 t found live x y. at_own k o s t found (λ own.
          let own1 : order_row o.pk s1.orders ≡ some o = rw (x.0) own in
          rows_CookedAt o.pk (write_status now o status s1) t y
            (write_status-CookedAt now o status s1 own1)))
  serve-CookedAt (Call.set_type k text a) prompt new =
      set_type-Yields host sound _ k text a s (λ o type found live.
        at_own k o s (save_order o.pk (λ r. record r { order_type = type }) s) found (
          Plain-CookedAt late k s cooked o (λ r. record r { order_type = type })
            (λ r. (refl, refl, refl, refl, (refl, refl, refl, refl)))
            (prompt_at late k o s prompt found)))
  serve-CookedAt (Call.item_ready now later k item a) prompt new =
      item_ready-Yields host sound _ now later k item a s s (λ o i found live cooking row own.
        let t1 = save_items (item_is i.pk) (stamp_item (some now)) s in
        let r = check_and_update_ready later o t1 in
        at_own k o s (notify_ready o.pk r) found (λ own.
          rows_CookedAt o.pk (r.2) (notify_ready o.pk r) (notify_ready_same o.pk r) (
            check_CookedAt later o t1
              (items_only (item_is i.pk) (stamp_item (some now)) o.pk s o own) cooking)))
  serve-CookedAt (Call.item_unready k item a) prompt new =
      item_unready-Yields host sound _ k item a s s (λ o i found live row own.
        let t1 = save_items (item_is i.pk) (stamp_item none) s in
        at_own k o s (if is_ready o.status then save_order o.pk reopen t1 else t1) found (λ own.
          unmarked_CookedAt o t1 (items_only (item_is i.pk) (stamp_item none) o.pk s o own)))
  serve-CookedAt (Call.ready_order now k a) prompt new =
      ready_order-Yields host sound _ now k a s (λ o found live.
        at_own k o s (marked now o s) found
          (λ own. marked-CookedAt late now o s cooked (prompt_at late k o s prompt found) own))
  serve-CookedAt (Call.assign k person a) prompt new =
      assign-Yields host sound _ k person a s (λ o found live.
        at_own k o s (save_order o.pk (set_person person) s) found (
          Plain-CookedAt late k s cooked o (set_person person) (person-Plain person)
            (prompt_at late k o s prompt found)))
  serve-CookedAt (Call.edit k e a) prompt new = edit-Yields host sound _ k e a s (λ o found live.
      at_own k o s (save_order o.pk (edited host e) s) found (
        Plain-CookedAt late k s cooked o (edited host e) (edited-Plain host e)
          (prompt_at late k o s prompt found)))
