-- ===== src/Couriers/Ledger/Settled.antt =====
-- Settlements follow one another without a gap or an overlap.
use alpha_pos_local.Base.{
  ℕ, ◌≤◌, ◌≡◌, refl, ◌∙◌, ap, true, Option, some, List, [], ◌∷◌, ◌++◌, inl, inr, arith, ◌==◌, keep,
  Bool-cases, All,
}
use alpha_pos_local.Base.Int.{ℤ}
use alpha_pos_local.Base.Text.{Text}
use alpha_pos_local.Base.Sorting.{sort_by, insert_by, head}
use alpha_pos_local.Couriers.Ledger.Rows.{Settlement, Store}
use alpha_pos_local.Couriers.Ledger.Snapshot.{
  snapshot, later_end, last_settlement, first_event, start_after, unsettled_start, settlement,
  settle,
}

-- No settlement of a courier ends later than a time.
abbrev pub EndsBy : ℕ → ℕ → List Settlement → Type 0
EndsBy courier t ss = All (λ x. x.courier_id ≡ courier → x.period_end ≤ t) ss

-- The latest end of the settlements of a courier.
insert-head :
    (t : ℕ) (x : Settlement) (xs : List Settlement)
    → x.period_end ≤ t
    → (y : Settlement) × (head xs ≡ some y) × (y.period_end ≡ t)
    → (y : Settlement) × (head (insert_by later_end x xs) ≡ some y) × (y.period_end ≡ t)
unfolding insert_by
insert-head t x [] h (y, e, d) = absurd (ground arith)
insert-head t x (z ∷ zs) h (y, e, d) = elim (Bool-cases (later_end x z)) [
  | inl l ↦
      let same : z ≡ y = ground arith in
      let q : z.period_end ≡ t = ap (λ (w : Settlement). w.period_end) same ∙ d in
      absurd (ground arith)
  | inr f ↦
      let same : z ≡ y = ground arith in
      rw f (z, refl, ap (λ (w : Settlement). w.period_end) same ∙ d)
]

latest_last :
    (courier t : ℕ) (ss : List Settlement) (row : Settlement)
    → row.courier_id ≡ courier
    → row.period_end ≡ t
    → EndsBy courier t ss
    → (y : Settlement) × (head
          (sort_by later_end (keep (λ x. x.courier_id == courier) (ss ++ row ∷ [])))
        ≡ some y)
      × (y.period_end ≡ t)
unfolding sort_by insert_by
latest_last courier t [] row own e h =
    let k : (row.courier_id == courier) ≡ true = ground arith in rw k (row, refl, e)
latest_last courier t (x ∷ ss) row own e h = elim (Bool-cases (x.courier_id == courier)) [
  | inl k ↦
      let rest = latest_last courier t ss row own e (h.1) in
      rw k (
        insert-head t x (sort_by later_end (keep (λ x. x.courier_id == courier) (ss ++ row ∷ [])))
          (h.0 (ground arith)) rest)
  | inr k ↦ rw k (latest_last courier t ss row own e (h.1))
]

start_at :
    (courier midnight : ℕ) (s : Store) (y : Settlement)
    → last_settlement courier s.settlements ≡ some y
    → unsettled_start courier midnight s ≡ y.period_end
unfolding unsettled_start
start_at courier midnight s y e =
    ap (λ (o : Option Settlement). start_after o (first_event courier s) midnight) e

added_last :
    (courier : ℕ) (row : Settlement) (s : Store)
    → row.courier_id ≡ courier
    → EndsBy courier row.period_end s.settlements
    → (y : Settlement) × (last_settlement courier (s.settlements ++ row ∷ []) ≡ some y)
      × (y.period_end ≡ row.period_end)
unfolding last_settlement
added_last courier row s own h = latest_last courier row.period_end s.settlements row own refl h

-- A settlement covers the time from the unsettled start to now, and once it is made the unsettled start
-- is now, if no settlement of the courier ends later than now.
pub settle-start :
    (courier midnight later now : ℕ) (bonuses tips : ℤ) (note : Text) (s : Store)
    → EndsBy courier now s.settlements
    → ((settle courier midnight now bonuses tips note s).0.period_start
        ≡ unsettled_start courier midnight s)
      × ((settle courier midnight now bonuses tips note s).0.period_end ≡ now)
      × (unsettled_start courier later ((settle courier midnight now bonuses tips note s).1) ≡ now)
unfolding settle settlement snapshot
settle-start courier midnight later now bonuses tips note s h =
    let t = settle courier midnight now bonuses tips note s in
    let (y, e, d) = added_last courier (t.0) s refl h in
    (refl, refl, start_at courier later (t.1) y e ∙ d)
