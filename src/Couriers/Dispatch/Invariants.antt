-- ===== src/Couriers/Dispatch/Invariants.antt =====
-- What holds of the table of assignments after any calls.
use alpha_pos_local.Base.{
  ℕ, true, false, ◌≡◌, ◌≢◌, subst, ◌⊎◌, inl, inr, none, some, List, [], ◌∷◌, arith, ◌==◌, ==_iff,
  find, find_sound, All-find, ap, Bool-cases,
}
use alpha_pos_local.Couriers.Dispatch.Store.{
  Step, delivered, Assignment, is_protected, is_awaiting, can_advance_to, for_order, Store,
}
use alpha_pos_local.Couriers.Dispatch.Exclusive.{
  live_courier, clash, IsExclusive, save-IsExclusive, Continues, no_conflict_of_free,
  no_conflict_of_Continues,
}
use alpha_pos_local.Couriers.Dispatch.Lifecycle.{
  Follows, accepted, withdrawn, cooked, advanced, Evolves, Change, kept, evolved, placed, is_free,
  find-save,
}
use alpha_pos_local.Couriers.Dispatch.Calls.{Call, run, run_all, run-Change}

Follows-live :
    (a a' : Assignment)
    → a'.courier_id ≡ a.courier_id
    → Follows a.step a'.step
    → (live_courier a' ≡ none) ⊎ (live_courier a' ≡ live_courier a)
unfolding live_courier can_advance_to
Follows-live a a' c (accepted w e) = ground arith
Follows-live a a' c (withdrawn w e) = ground arith
Follows-live a a' c (cooked w e) = ground arith
Follows-live a a' c (advanced w e) = ground arith

Evolves-Continues : (a a' : Assignment) → Evolves a a' → Continues a a'
Evolves-Continues a a' v = record {
  same_order = v.same_order;
  stays_live = Follows-live a a' v.same_courier v.follows;
}

placed_live :
    (c : ℕ) (a : Assignment)
    → a.courier_id ≡ some c
    → is_awaiting a.step ≡ true
    → live_courier a ≡ some c
unfolding live_courier
placed_live c a e w = ground arith

Change-IsExclusive :
    (rows rows' : List Assignment) → Change rows rows' → IsExclusive rows → IsExclusive rows'
Change-IsExclusive rows rows' (kept e) x = rw e x
Change-IsExclusive rows rows' (evolved o a a' f v e) x = rw e (
    save-IsExclusive a' rows x
      (no_conflict_of_Continues o a a' rows x f (Evolves-Continues a a' v)))
Change-IsExclusive rows rows' (placed c a' k w r free e) x =
    rw e (save-IsExclusive a' rows x (no_conflict_of_free c a' rows (placed_live c a' k w) free))

run_all-IsExclusive :
    (calls : List Call) (s : Store)
    → IsExclusive s.assignments
    → IsExclusive (run_all calls s).assignments
unfolding run_all
run_all-IsExclusive [] s x = x
run_all-IsExclusive (c ∷ calls) s x =
    run_all-IsExclusive calls (run c s) (Change-IsExclusive _ _ (run-Change c s) x)

distinct_live :
    (o p c : ℕ) (a b : Assignment) (rows : List Assignment)
    → o ≢ p
    → IsExclusive rows
    → find (for_order o) rows ≡ some a
    → find (for_order p) rows ≡ some b
    → live_courier a ≡ some c
    → live_courier b ≢ some c
distinct_live o p c a b [] ne x f g l = absurd (ground arith)
distinct_live o p c a b (r ∷ rows) ne x f g l = elim (Bool-cases (r.order_id == o)) [
  | inl here ↦
      let r_is_a : r ≡ a = ground arith in
      let g' : find (for_order p) rows ≡ some b = ground arith in
      let apart : clash r b ≡ false =
        All-find (λ y. clash r y ≡ false) (for_order p) rows b x.0 g' in
      ground (arith, ap live_courier r_is_a)
  | inr there ↦
      let f' : find (for_order o) rows ≡ some a = ground arith in
      let apart : clash r a ≡ false =
        All-find (λ y. clash r y ≡ false) (for_order o) rows a x.0 f' in
      elim (Bool-cases (r.order_id == p)) [
        | inl here ↦ let r_is_b : r ≡ b = ground arith in ground (arith, ap live_courier r_is_b)
        | inr further ↦
            let g' : find (for_order p) rows ≡ some b = ground arith in
            distinct_live o p c a b rows ne x.1 f' g' l
      ]
]

-- Whatever calls have been made, in any order, from a table in which no two live deliveries share a
-- courier and no two rows an order: a courier with a live delivery (ASSIGNED, READY, PICKED_UP or
-- ON_WAY) has no live delivery for another order.
pub run_all-one_delivery :
    (calls : List Call) (s : Store)
    → IsExclusive s.assignments
    → (o p c : ℕ) (a b : Assignment) → o ≢ p
    → find (for_order o) (run_all calls s).assignments ≡ some a
    → find (for_order p) (run_all calls s).assignments ≡ some b
    → live_courier a ≡ some c
    → live_courier b ≢ some c
run_all-one_delivery calls s x o p c a b ne f g l =
    distinct_live o p c a b (run_all calls s).assignments ne (run_all-IsExclusive calls s x) f g l

-- How a row that the courier has picked up may look later.
pub record Onward (a a' : Assignment) : Type 0 where
  pub same_courier : a'.courier_id ≡ a.courier_id
  pub still_protected : is_protected a'.step ≡ true
  pub forward : (a'.step ≡ a.step) ⊎ (can_advance_to a.step a'.step ≡ true)

-- The row that evolved is the row of the order.
evolved_row :
    (o o' : ℕ) (a b b' : Assignment) (rows : List Assignment)
    → find (for_order o') rows ≡ some b
    → Evolves b b'
    → (b'.order_id == o) ≡ true
    → find (for_order o) rows ≡ some a
    → b ≡ a
evolved_row o o' a b b' rows g v here f =
    let at : b.order_id ≡ o' = (==_iff _ _).0 (find_sound (for_order o') rows b g) in
    let same : o' ≡ o = ground arith in cc (ap (λ k. find (for_order k) rows) same)

not_after_delivered : (t : Step) → ¬ Follows delivered t
unfolding can_advance_to
not_after_delivered t (accepted w e) = ground arith
not_after_delivered t (withdrawn w e) = ground arith
not_after_delivered t (cooked w e) = ground arith
not_after_delivered t (advanced w e) = ground arith

Change-delivered :
    (o : ℕ) (a : Assignment) (rows rows' : List Assignment)
    → Change rows rows'
    → find (for_order o) rows ≡ some a
    → a.step ≡ delivered
    → find (for_order o) rows' ≡ some a
Change-delivered o a rows rows' (kept e) f d = rw e f
Change-delivered o a rows rows' (evolved o' b b' g v e) f d = elim (Bool-cases (b'.order_id == o)) [
  | inl here ↦
      let b_is_a : b ≡ a = evolved_row o o' a b b' rows g v here f in
      let done : b.step ≡ delivered = rw b_is_a d in
      absurd (not_after_delivered b'.step (rw done at v.follows))
  | inr there ↦ rw (e, find-save o b' rows, there) f
]
Change-delivered o a rows rows' (placed c b' k w r free e) f d =
    elim (Bool-cases (b'.order_id == o)) [
      | inl here ↦
          let same : b'.order_id ≡ o = ground arith in
          let r' : is_free (find (for_order o) rows) ≡ true =
            subst (λ n. is_free (find (for_order n) rows) ≡ true) same r in
          absurd (ground arith)
      | inr there ↦ rw (e, find-save o b' rows, there) f
    ]

-- Whatever calls are made, in any order: the row of a delivered order is never written again.
pub run_all-delivered :
    (calls : List Call) (s : Store) (o : ℕ) (a : Assignment)
    → find (for_order o) s.assignments ≡ some a
    → a.step ≡ delivered
    → find (for_order o) (run_all calls s).assignments ≡ some a
unfolding run_all
run_all-delivered [] s o a f d = f
run_all-delivered (c ∷ calls) s o a f d =
    run_all-delivered calls (run c s) o a (Change-delivered o a _ _ (run-Change c s) f d) d
