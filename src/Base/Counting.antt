-- ===== src/Base/Counting.antt =====
-- Two counts of rows that agree: every row of the one is a row of the other.
use Prim.Native.Nat.{◌≤◌}
use mathlib.Core.Path.{◌≡◌, subst, sym}
use mathlib.Core.Logic.{inl, inr}
use mathlib.Core.Bool.{Bool, true, ◌&&◌}
use mathlib.Core.Option.{some}
use mathlib.Core.List.{List, [], ◌∷◌}
use native.Mathlib.Omega.{arith}
use alpha_pos_local.Base.Tests.{Bool-cases}
use alpha_pos_local.Base.Lists.{length, keep, find}

module _ {ℓ} {A : Type ℓ} (p q : A → Bool) where
  abbrev both : A → Bool
  both x = p x && q x

  keep-le : (xs : List A) → length (keep both xs) ≤ length (keep p xs)
  keep-le [] = omega arith
  keep-le (x ∷ xs) = ground (arith, keep-le xs)

  pub keep-all :
      (xs : List A)
      → length (keep p xs) ≡ length (keep (λ x. p x && q x) xs)
      → (test : A → Bool) (a : A) → find test xs ≡ some a
      → p a ≡ true
      → q a ≡ true
  keep-all [] e test a f h = absurd (ground arith)
  keep-all (x ∷ xs) e test a f h = elim (Bool-cases (test x)) [
    | inl t ↦
        let same : x ≡ a = ground arith in
        subst (λ (y : A). q y ≡ true) same (head_has (subst (λ (y : A). p y ≡ true) (sym same) h))
    | inr u ↦ keep-all xs tail test a (rw u at f) h
  ]
    where
      head_has : p x ≡ true → q x ≡ true
      head_has px = ground (arith, keep-le xs)

      tail : length (keep p xs) ≡ length (keep (λ x. p x && q x) xs)
      tail = ground (arith, keep-le xs)
