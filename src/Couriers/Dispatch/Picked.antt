-- ===== src/Couriers/Dispatch/Picked.antt =====
-- The automatic choice of a courier ends, and chooses one that is free.
use alpha_pos_local.Base.{
  ℕ, zero, suc, ◌+◌, ◌≤◌, ◌<◌, ◌≡◌, refl, ◌∙◌, ap, subst, Bool, true, false, not, ◌&&◌, Option,
  none, some, List, [], ◌∷◌, inl, inr, arith, ◌==◌, any, keep, opt_eq, All, All-map, All-any,
  Bool-cases, Option-cases, if◌then◌else◌,
}
use alpha_pos_local.Base.Text.{Text, text_eq, strip}
use alpha_pos_local.Base.Sorting.{sort_by, All-keep, All-keep_test, All-sort_by, All-head, All-both}
use alpha_pos_local.Couriers.Dispatch.Store.{Courier, Assignment, is_busy}
use alpha_pos_local.Couriers.Dispatch.Pick.{
  busy_in, is_candidate, by_pk, Round, is_open, next_candidate, pick,
}

-- How many keys below `n` are not checked yet.
unchecked : ℕ → List ℕ → ℕ
unchecked zero checked = 0
unchecked (suc n) checked = (if any (λ k. k == n) checked then 0 else 1) + unchecked n checked

unchecked_same :
    (n k : ℕ) (checked : List ℕ) → n ≤ k → unchecked n (k ∷ checked) ≡ unchecked n checked
unfolding unchecked
unchecked_same zero k checked h = refl
unchecked_same (suc n) k checked h =
    let rest = unchecked_same n k checked (omega arith) in
    let other : (k == n) ≡ false = ground arith in rw (other, rest) refl

unchecked_less :
    (n k : ℕ) (checked : List ℕ)
    → k < n
    → any (λ j. j == k) checked ≡ false
    → suc (unchecked n (k ∷ checked)) ≡ unchecked n checked
unfolding unchecked
unchecked_less zero k checked h new = absurd (omega arith)
unchecked_less (suc n) k checked h new = elim (Bool-cases (k == n)) [
  | inl t ↦
      let same : k ≡ n = ground arith in
      let rest = unchecked_same n k checked (omega arith) in
      let fresh : any (λ j. j == n) checked ≡ false =
        subst (λ (x : ℕ). any (λ j. j == x) checked ≡ false) same new in
      rw (t, fresh, rest) (omega arith)
  | inr f ↦
      let rest = unchecked_less n k checked (ground arith) new in
      rw f
        (counted (any (λ j. j == n) checked) (unchecked n (k ∷ checked)) (unchecked n checked) rest)
]
  where
    counted :
        (seen : Bool) (x y : ℕ)
        → suc x ≡ y
        → suc ((if seen then 0 else 1) + x) ≡ (if seen then 0 else 1) + y
    counted true x y e = omega arith
    counted false x y e = omega arith

unchecked_bound : (n : ℕ) (checked : List ℕ) → unchecked n checked ≤ n
unfolding unchecked
unchecked_bound zero checked = omega arith
unchecked_bound (suc n) checked = let h = unchecked_bound n checked in ground arith

-- The courier of a round passes its tests, and is one of its couriers.
next_open :
    (branch : Option Text) (r : Round) (checked : List ℕ) (n : ℕ) (c : Courier)
    → All (λ d. d.pk < n) r.couriers
    → next_candidate branch r checked ≡ some c
    → ((c.pk < n) × (any (λ d. d.pk == c.pk) r.couriers ≡ true))
      × (is_open branch r checked c ≡ true)
unfolding next_candidate
next_open branch r checked n c below e =
    All-head (λ d. IsRow d × (is_open branch r checked d ≡ true))
      (sort_by by_pk (keep (is_open branch r checked) r.couriers)) c
      (All-sort_by (λ d. IsRow d × (is_open branch r checked d ≡ true)) by_pk
        (keep (is_open branch r checked) r.couriers)
        (All-both IsRow (λ d. is_open branch r checked d ≡ true)
          (keep (is_open branch r checked) r.couriers)
          (All-keep IsRow (is_open branch r checked) r.couriers rows)
          (All-keep_test (λ d. is_open branch r checked d ≡ true) (is_open branch r checked)
            r.couriers (λ d t. t))))
      e
  where
    IsRow : Courier → Type 0
    IsRow d = (d.pk < n) × (any (λ x. x.pk == d.pk) r.couriers ≡ true)

    rows : All IsRow r.couriers
    rows =
        All-both (λ d. d.pk < n) (λ d. any (λ x. x.pk == d.pk) r.couriers ≡ true) r.couriers below
          (All-map (λ d. (test : Courier → Bool) → test d ≡ true → any test r.couriers ≡ true)
            (λ d. any (λ x. x.pk == d.pk) r.couriers ≡ true) r.couriers
            (λ d found. found (λ x. x.pk == d.pk) (ground arith)) (All-any r.couriers))

-- No live delivery of the courier is among the rows.
abbrev pub IsIdle : ℕ → List Assignment → Type 0
IsIdle k rows = any (λ a. opt_eq a.courier_id (some k) && is_busy a.step) rows ≡ false

-- The branch that was asked for.
abbrev pub InBranch : Option Text → Courier → Type 0
InBranch none c = Unit {0}
InBranch (some b) c = text_eq c.branch_id (strip b) ≡ true

-- A courier that is there in some round, online, active, not deleted, of the branch, idle and unlocked,
-- and that has no live delivery either once its row is locked.
abbrev pub IsFree : Option Text → (ℕ → Round) → Option Courier → Type 0
IsFree branch rounds none = Unit {0}
IsFree branch rounds (some c) =
    (i : ℕ) × (any (λ d. d.pk == c.pk) (rounds i).couriers ≡ true)
    × (c.online ≡ true)
    × (c.user_active ≡ true)
    × (c.user_deleted ≡ false)
    × InBranch branch c
    × IsIdle c.pk (rounds i).rows
    × ((rounds i).locked c ≡ false)
    × IsIdle c.pk (rounds i).rechecked

candidate-parts :
    (branch : Option Text) (rows : List Assignment) (c : Courier)
    → is_candidate branch rows c ≡ true
    → (c.online ≡ true)
      × (c.user_active ≡ true)
      × (c.user_deleted ≡ false)
      × InBranch branch c
      × IsIdle c.pk rows
unfolding is_candidate busy_in
candidate-parts none rows c h = (ground arith, ground arith, ground arith, tt, ground arith)
candidate-parts (some b) rows c h =
    (ground arith, ground arith, ground arith, ground arith, ground arith)

busy-IsIdle : (rows : List Assignment) (k : ℕ) → busy_in rows k ≡ false → IsIdle k rows
unfolding busy_in
busy-IsIdle rows k h = h

IsFree-later :
    (branch : Option Text) (rounds : ℕ → Round) (o : Option Courier)
    → IsFree branch (λ n. rounds (suc n)) o
    → IsFree branch rounds o
IsFree-later branch rounds none h = tt
IsFree-later branch rounds (some c) (i, r, a, b, d, e, f, g, h) = (suc i, r, a, b, d, e, f, g, h)

-- One round, by the courier that it finds.
pick_round :
    (fuel : ℕ) (branch : Option Text) (rounds : ℕ → Round) (checked : List ℕ) (o : Option Courier)
    → next_candidate branch (rounds 0) checked ≡ o
    → pick (suc fuel) branch rounds checked ≡ (elim o as (λ x. Option (Option Courier)) [
      | none ↦ some none
      | some c ↦
          if not (busy_in (rounds 0).rechecked c.pk)
          then some (some c)
          else pick fuel branch (λ n. rounds (suc n)) (c.pk ∷ checked)
    ])
unfolding pick
pick_round fuel branch rounds checked o e =
    ap
      (λ (o : Option Courier). elim o as (λ x. Option (Option Courier)) [
        | none ↦ some none
        | some c ↦
            if not (busy_in (rounds 0).rechecked c.pk)
            then some (some c)
            else pick fuel branch (λ n. rounds (suc n)) (c.pk ∷ checked)
      ])
      e

open_parts :
    (free locked seen : Bool)
    → (free && not locked && not seen) ≡ true
    → (free ≡ true) × (locked ≡ false) × (seen ≡ false)
open_parts free locked seen h = (ground arith, ground arith, ground arith)

pick_steps :
    (fuel n : ℕ) (branch : Option Text) (rounds : ℕ → Round) (checked : List ℕ)
    → ((i : ℕ) → All (λ c. c.pk < n) (rounds i).couriers)
    → unchecked n checked < fuel
    → (o : Option Courier) × (pick fuel branch rounds checked ≡ some o) × IsFree branch rounds o
unfolding pick
pick_steps zero n branch rounds checked below h = absurd (omega arith)
pick_steps (suc fuel) n branch rounds checked below h =
    elim (Option-cases (next_candidate branch (rounds 0) checked)) [
      | inl e ↦ (none, pick_round fuel branch rounds checked none e, tt)
      | inr (c, e) ↦
          let (small, is_ok) = next_open branch (rounds 0) checked n c (below 0) e in
          let parts =
            open_parts (is_candidate branch (rounds 0).rows c) ((rounds 0).locked c)
              (any (λ k. k == c.pk) checked) is_ok in
          let was = candidate-parts branch (rounds 0).rows c (parts.0) in
          elim (Bool-cases (busy_in (rounds 0).rechecked c.pk)) [
            | inr f ↦ (
              some c,
              pick_round fuel branch rounds checked (some c) e ∙ rw f refl,
              (
                0,
                small.1,
                was.0,
                was.1,
                was.2,
                was.3,
                was.4,
                parts.1,
                busy-IsIdle (rounds 0).rechecked c.pk f,
              ),
            )
            | inl t ↦
                let new = unchecked_less n c.pk checked (small.0) (parts.2) in
                let (o, found, free) =
                  pick_steps fuel n branch (λ i. rounds (suc i)) (c.pk ∷ checked)
                    (λ i. below (suc i)) (omega arith) in
                (
                  o,
                  pick_round fuel branch rounds checked (some c) e ∙ rw t found,
                  IsFree-later branch rounds o free,
                )
          ]
    ]

-- With as much fuel as there are keys of couriers, and one, the loop ends whatever other transactions
-- do between its queries. A courier that it returns was in one round among the couriers, online, active,
-- not deleted, of the branch if one is asked for, without a live delivery and not locked by others; and
-- it had no live delivery when its row was locked.
pub pick_ends :
    (n : ℕ) (branch : Option Text) (rounds : ℕ → Round)
    → ((i : ℕ) → All (λ c. c.pk < n) (rounds i).couriers)
    → (o : Option Courier) × (pick (suc n) branch rounds [] ≡ some o) × IsFree branch rounds o
pick_ends n branch rounds below =
    pick_steps (suc n) n branch rounds [] below (let h = unchecked_bound n [] in omega arith)
