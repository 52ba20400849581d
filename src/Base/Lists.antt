-- ===== src/Base/Lists.antt =====
-- Lists of rows: queries, updates, and predicates over every row.
use Prim.Native.Nat.{ℕ, zero, suc}
use mathlib.Core.Path.{◌≡◌, subst}
use mathlib.Core.Logic.{inl, inr}
use mathlib.Core.Bool.{Bool, true, false, ◌||◌}
use mathlib.Core.Option.{Option, none, some}
use mathlib.Core.List.{List, [], ◌∷◌}
use native.Mathlib.Omega.{arith}
use alpha_pos_local.Base.Tests.{if◌then◌else◌, Bool-cases}

module _ {ℓ} {A : Type ℓ} where
  abbrev pub length : List A → ℕ
  length [] = 0
  length (x ∷ xs) = suc (length xs)

  abbrev pub take : ℕ → List A → List A
  take zero xs = []
  take (suc n) [] = []
  take (suc n) (x ∷ xs) = x ∷ take n xs

  -- `queryset.filter(test).first()`, over rows in the order that the query names.
  abbrev pub find : (A → Bool) → List A → Option A
  find test [] = none
  find test (x ∷ xs) = if test x then some x else find test xs

  -- `queryset.filter(test).exists()`
  abbrev pub any : (A → Bool) → List A → Bool
  any test [] = false
  any test (x ∷ xs) = test x || any test xs

  abbrev pub keep : (A → Bool) → List A → List A
  keep test [] = []
  keep test (x ∷ xs) = let rest = keep test xs in if test x then x ∷ rest else rest

  -- `queryset.filter(test).update(...)`
  abbrev pub update_where : (A → Bool) → (A → A) → List A → List A
  update_where test f [] = []
  update_where test f (x ∷ xs) = (if test x then f x else x) ∷ update_where test f xs

  -- Every row satisfies a predicate.
  abbrev pub All {κ} : (A → Type κ) → List A → Type κ
  All P [] = Unit
  All P (x ∷ xs) = P x × All P xs

module _ {ℓ} {A : Type ℓ} where
  pub find_sound : (test : A → Bool) (xs : List A) (a : A) → find test xs ≡ some a → test a ≡ true
  find_sound test [] a e = ground arith
  find_sound test (x ∷ xs) a e = ground (arith, find_sound test xs a)

  pub any-find :
      (test : A → Bool) (xs : List A) (a : A) → find test xs ≡ some a → any test xs ≡ true
  any-find test [] a e = ground arith
  any-find test (x ∷ xs) a e = ground (arith, any-find test xs a)

  -- A row that a query finds has what every row has.
  pub All-find {κ} :
      (P : A → Type κ) (test : A → Bool) (xs : List A) (a : A)
      → All P xs
      → find test xs ≡ some a
      → P a
  All-find P test [] a h e = absurd (ground arith)
  All-find P test (x ∷ xs) a h e = elim (Bool-cases (test x)) [
    | inl t ↦ subst P (found t) h.0
    | inr f ↦ All-find P test xs a h.1 (rw f at e)
  ]
    where
      found : test x ≡ true → x ≡ a
      found t = ground arith

  pub All-map {κ μ} :
      (P : A → Type κ) (Q : A → Type μ) (xs : List A) → ((a : A) → P a → Q a) → All P xs → All Q xs
  All-map P Q [] f h = tt
  All-map P Q (x ∷ xs) f h = (f x h.0, All-map P Q xs f h.1)

  -- A row of a list is found by every test that it passes.
  pub All-any : (xs : List A) → All (λ x. (test : A → Bool) → test x ≡ true → any test xs ≡ true) xs
  All-any [] = tt
  All-any (x ∷ xs) = (
    (λ test h. ground arith),
    All-map (λ y. (test : A → Bool) → test y ≡ true → any test xs ≡ true)
        (λ y. (test : A → Bool) → test y ≡ true → any test (x ∷ xs) ≡ true) xs
        (λ y f test h. let e = f test h in ground arith) (All-any xs),
  )
