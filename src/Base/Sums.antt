-- ===== src/Base/Sums.antt =====
-- Sums of integers over rows: in any order, and over a set of rows that two tests split.
use Prim.Native.Nat.{◌+◌}
use mathlib.Core.Path.{◌≡◌, refl, sym, ◌∙◌, ap}
use mathlib.Core.Logic.{inl, inr}
use mathlib.Core.Bool.{Bool, false, ◌&&◌, ◌||◌}
use mathlib.Core.List.{List, [], ◌∷◌}
use native.Mathlib.Omega.{arith}
use alpha_pos_local.Base.Tests.{Bool-cases}
use alpha_pos_local.Base.Lists.{keep, length}
use alpha_pos_local.Base.Sorting.{insert_by, sort_by}
use alpha_pos_local.Base.Int.{ℤ, pos, ◌+ℤ◌, ◌-ℤ◌, +ℤ_parts, -ℤ_parts, eq_of_parts}

unfoldable pub sum_of {ℓ} : {A : Type ℓ} → (A → ℤ) → List A → ℤ
sum_of f [] = pos 0
sum_of f (x ∷ xs) = f x +ℤ sum_of f xs

pub +ℤ_assoc : (a b c : ℤ) → a +ℤ b +ℤ c ≡ a +ℤ (b +ℤ c)
+ℤ_assoc a b c = eq_of_parts _ _ (
    let h1 = +ℤ_parts a b in
    let h2 = +ℤ_parts (a +ℤ b) c in
    let h3 = +ℤ_parts b c in let h4 = +ℤ_parts a (b +ℤ c) in omega arith)

pub +ℤ_swap : (a b c : ℤ) → a +ℤ (b +ℤ c) ≡ b +ℤ (a +ℤ c)
+ℤ_swap a b c = eq_of_parts _ _ (
    let h1 = +ℤ_parts a c in
    let h2 = +ℤ_parts b (a +ℤ c) in
    let h3 = +ℤ_parts b c in let h4 = +ℤ_parts a (b +ℤ c) in omega arith)

-- The difference of two sums, by parts.
pub +ℤ-diff : (a b c d : ℤ) → (a +ℤ b) -ℤ (c +ℤ d) ≡ (a -ℤ c) +ℤ (b -ℤ d)
+ℤ-diff a b c d = eq_of_parts _ _ (
    let h1 = +ℤ_parts a b in
    let h2 = +ℤ_parts c d in
    let h3 = -ℤ_parts (a +ℤ b) (c +ℤ d) in
    let h4 = -ℤ_parts a c in
    let h5 = -ℤ_parts b d in let h6 = +ℤ_parts (a -ℤ c) (b -ℤ d) in omega arith)

module _ {ℓ} {A : Type ℓ} (f : A → ℤ) where
  sum-insert_by :
      (before : A → A → Bool) (x : A) (xs : List A)
      → sum_of f (insert_by before x xs) ≡ f x +ℤ sum_of f xs
  unfolding sum_of insert_by
  sum-insert_by before x [] = refl
  sum-insert_by before x (y ∷ ys) = elim (Bool-cases (before x y)) [
    | inl t ↦ rw t refl
    | inr u ↦ rw (u, sum-insert_by before x ys) (+ℤ_swap (f y) (f x) (sum_of f ys))
  ]

  pub sum-sort_by :
      (before : A → A → Bool) (xs : List A) → sum_of f (sort_by before xs) ≡ sum_of f xs
  unfolding sum_of sort_by
  sum-sort_by before [] = refl
  sum-sort_by before (x ∷ xs) =
      sum-insert_by before x (sort_by before xs) ∙ ap (λ (z : ℤ). f x +ℤ z) (sum-sort_by before xs)

-- Every row of the whole passes one of two tests, and no row passes both.
abbrev pub Splits {ℓ} : {A : Type ℓ} → (whole left right : A → Bool) → Type ℓ
Splits {A = A} whole left right =
    (x : A) → (whole x ≡ (left x || right x)) × ((left x && right x) ≡ false)

module _ {ℓ} {A : Type ℓ} (whole left right : A → Bool) (splits : Splits whole left right) where
  pub sum-Splits :
      (f : A → ℤ) (xs : List A)
      → sum_of f (keep whole xs) ≡ sum_of f (keep left xs) +ℤ sum_of f (keep right xs)
  unfolding sum_of ◌+ℤ◌
  sum-Splits f [] = refl
  sum-Splits f (x ∷ xs) =
      let (w, n) = splits x in
      elim (Bool-cases (left x)) [
        | inl l ↦ elim (Bool-cases (right x)) [
          | inl r ↦ absurd (ground arith)
          | inr r ↦
              rw (w, l, r)
                (ap (λ (z : ℤ). f x +ℤ z) (sum-Splits f xs)
                  ∙ sym (+ℤ_assoc (f x) (sum_of f (keep left xs)) (sum_of f (keep right xs))))
        ]
        | inr l ↦ elim (Bool-cases (right x)) [
          | inl r ↦
              rw (w, l, r)
                (ap (λ (z : ℤ). f x +ℤ z) (sum-Splits f xs)
                  ∙ +ℤ_swap (f x) (sum_of f (keep left xs)) (sum_of f (keep right xs)))
          | inr r ↦ rw (w, l, r) (sum-Splits f xs)
        ]
      ]

  pub length-Splits :
      (xs : List A) → length (keep whole xs) ≡ length (keep left xs) + length (keep right xs)
  length-Splits [] = refl
  length-Splits (x ∷ xs) = let (w, n) = splits x in ground (arith, length-Splits xs)
