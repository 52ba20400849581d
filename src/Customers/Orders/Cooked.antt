-- ===== src/Customers/Orders/Cooked.antt =====
-- A ready order has a time and no item that is not ready: what the parts of an operation leave of it.
use alpha_pos_local.Base.{
  ℕ, ◌≡◌, refl, sym, ◌∙◌, subst, Bool, true, false, not, ◌&&◌, Option, none, some, List, inl, inr,
  arith, ◌==◌, ltb, Bool-cases, Option-cases, is_some, length, keep,
}
use alpha_pos_local.Base.Int.{ℤ}
use alpha_pos_local.Base.Counting.{keep-all}
use alpha_pos_local.Base.Tables.{row-update_where}
use alpha_pos_local.Customers.Orders.Rows.{
  received, Order, Item, Store, Host, order_row, item_row, is_ready, is_live_of, is_unready_of,
  save_order, save_items,
}
use alpha_pos_local.Customers.Orders.Parts.{
  totals, min_ℤ, recomputed, recalculate_total, check_and_update_ready, all_ready, stamp_ready,
  stamp_item,
}
use alpha_pos_local.Customers.Orders.Frame.{SameRows, save_order-row}
use alpha_pos_local.Customers.Orders.Touches.{totals_pk}

-- The live items of an order are ready.
abbrev pub AllReady : ℕ → List Item → Type 0
AllReady k items =
    (j : ℕ) (i : Item)
    → item_row j items ≡ some i
    → i.order_id ≡ k
    → i.is_deleted ≡ false
    → is_some i.ready_at ≡ true

abbrev pub IsCooked : Order → List Item → Type 0
IsCooked o items = is_ready o.status ≡ true → (is_some o.ready_at ≡ true) × AllReady o.pk items

-- A ready order has the time at which it became ready, and its live items are ready; so it is of the
-- orders that no late call is about.
abbrev pub Cooked : (ℕ → Bool) → Store → Type 0
Cooked late s =
    (k : ℕ) (o : Order) → late k ≡ false → order_row k s.orders ≡ some o → IsCooked o s.items

-- Every item is of an order, of those.
abbrev pub Linked : (ℕ → Bool) → Store → Type 0
Linked late s =
    (j : ℕ) (i : Item)
    → late i.order_id ≡ false
    → item_row j s.items ≡ some i
    → is_some (order_row i.order_id s.orders) ≡ true

-- The same of one order.
abbrev pub CookedAt : ℕ → Store → Type 0
CookedAt k s = (o : Order) × (order_row k s.orders ≡ some o) × IsCooked o s.items

pub rows_CookedAt : (k : ℕ) (s t : Store) → SameRows s t → CookedAt k s → CookedAt k t
rows_CookedAt k s t (a, b) (o, e, c) =
    (o, rw a e, subst (λ (x : List Item). IsCooked o x) (sym b) c)

pub unready_CookedAt :
    (k : ℕ) (s : Store) (o : Order)
    → order_row k s.orders ≡ some o
    → is_ready o.status ≡ false
    → CookedAt k s
unready_CookedAt k s o e f = (o, e, λ t. absurd (ground arith))

totals_same :
    (x y : ℤ) (o : Order) (items : List Item) → IsCooked o items → IsCooked (totals x y o) items
unfolding totals
totals_same x y o items c = c

pub recalculate_CookedAt :
    (host : Host) (k : ℕ) (s : Store) → CookedAt k s → CookedAt k (recalculate_total host k s)
unfolding recalculate_total save_order
recalculate_CookedAt host k s (o, e, c) =
    let x = host.calculate_order_total k s.items in
    let y = min_ℤ ((recomputed host k s).1) x in
    let t : Store = record s { discounts = (recomputed host k s).0 } in
    (
      received t (totals x y o),
      save_order-row k (totals x y) t o (totals_pk x y) e,
      totals_same x y o s.items c,
    )

-- Whoever stamps the items that are not ready leaves none.
pub stamped_AllReady :
    (k now : ℕ) (s : Store)
    → AllReady k (save_items (is_unready_of k) (stamp_item (some now)) s).items
unfolding save_items stamp_item
stamped_AllReady k now s j i e own live = elim (Option-cases (item_row j s.items)) [
  | inl n ↦ absurd (
      let u =
        row-update_where (λ i. i.pk) (is_unready_of k) (stamp_item (some now)) (λ i. refl) j
          s.items in
      let v : ◌≡◌ {A = Option Item} (some i) none = sym e ∙ u ∙ rw n refl in ground arith)
  | inr (r, f) ↦
      let u =
        row-update_where (λ i. i.pk) (is_unready_of k) (stamp_item (some now)) (λ i. refl) j
          s.items in
      elim (Bool-cases (is_unready_of k r)) [
        | inl t ↦
            let v : some i ≡ some (stamp_item (some now) r) = sym e ∙ u ∙ rw f (rw t refl) in
            let q : stamp_item (some now) r ≡ i = ground arith in
            subst (λ (x : Item). is_some x.ready_at ≡ true) q refl
        | inr t ↦
            let v : some i ≡ some r = sym e ∙ u ∙ rw f (rw t refl) in
            let q : i ≡ r = ground arith in
            let t' = subst (λ (x : Item). is_unready_of k x ≡ false) (sym q) t in
            ready_of i own live t'
      ]
]
  where
    ready_of :
        (i : Item)
        → i.order_id ≡ k
        → i.is_deleted ≡ false
        → is_unready_of k i ≡ false
        → is_some i.ready_at ≡ true
    ready_of i own live t = ground arith

pub order_stamped :
    (now k : ℕ) (s : Store) (o : Order)
    → order_row k s.orders ≡ some o
    → AllReady o.pk s.items
    → CookedAt k (save_order k (stamp_ready now) s)
unfolding save_order stamp_ready
order_stamped now k s o e all = (
  received s (stamp_ready now o),
  save_order-row k (stamp_ready now) s o (λ r. refl) e,
  λ t. (refl, all),
)

counted_AllReady : (k : ℕ) (items : List Item) → all_ready k items ≡ true → AllReady k items
unfolding all_ready
counted_AllReady k items h j i e own live =
    keep-all (is_live_of k) (λ i. is_some i.ready_at) items (equal (is_live_of k) h)
      (λ i. i.pk == j) i e (ground arith)
  where
    equal :
        (test : Item → Bool)
        → (ltb 0 (length (keep test items))
            && length (keep test items) == length (keep (λ i. test i && is_some i.ready_at) items))
          ≡ true
        → length (keep test items) ≡ length (keep (λ i. test i && is_some i.ready_at) items)
    equal test h = ground arith

pub check_CookedAt :
    (now : ℕ) (o : Order) (s : Store)
    → order_row o.pk s.orders ≡ some o
    → is_ready o.status ≡ false
    → CookedAt o.pk (check_and_update_ready now o s).2
unfolding check_and_update_ready
check_CookedAt now o s found cooking =
    elim (Bool-cases (all_ready o.pk s.items && not (is_ready o.status))) [
      | inl t ↦
          rw t (order_stamped now o.pk s o found (counted_AllReady o.pk s.items (ground arith)))
      | inr f ↦ rw f (unready_CookedAt o.pk s o found cooking)
    ]
