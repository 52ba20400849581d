-- ===== src/Base/Tables.antt =====
-- Tables of rows with keys: the row of a key, before and after a write.
use Prim.Native.Nat.{ℕ}
use mathlib.Core.Path.{◌≡◌, refl}
use mathlib.Core.Logic.{inl, inr}
use mathlib.Core.Bool.{Bool, true, false}
use mathlib.Core.Option.{Option, none, some}
use mathlib.Core.List.{List, [], ◌∷◌, ◌++◌}
use native.Mathlib.Omega.{arith}
use alpha_pos_local.Base.Tests.{◌==◌, if◌then◌else◌, Bool-cases, Option-cases}
use alpha_pos_local.Base.Lists.{find, update_where, find_sound}

module _ {A : Type 0} (key : A → ℕ) where
  -- The row of a key.
  abbrev pub row : ℕ → List A → Option A
  row k xs = find (λ x. key x == k) xs

  -- `queryset.filter(pk=k, ...).first()`: a key names one row.
  abbrev pub row_where : ℕ → (A → Bool) → List A → Option A
  row_where k test xs = elim (row k xs) [ none ↦ none | some a ↦ if test a then some a else none ]

  -- A row after `queryset.filter(test).update(...)`.
  abbrev pub updated : (A → Bool) → (A → A) → Option A → Option A
  updated test f none = none
  updated test f (some a) = some (if test a then f a else a)

  updated_key :
      (test : A → Bool) (f : A → A)
      → ((a : A) → key (f a) ≡ key a)
      → (a : A) → key (if test a then f a else a) ≡ key a
  updated_key test f same a = elim (Bool-cases (test a)) [
    | inl t ↦ rw t (same a)
    | inr u ↦ rw u refl
  ]

  -- An update that keeps the keys changes the row of a key in its place.
  pub row-update_where :
      (test : A → Bool) (f : A → A)
      → ((a : A) → key (f a) ≡ key a)
      → (k : ℕ) (xs : List A) → row k (update_where test f xs) ≡ updated test f (row k xs)
  row-update_where test f same k [] = refl
  row-update_where test f same k (x ∷ xs) = elim (Bool-cases (key x == k)) [
    | inl t ↦ rw (updated_key test f same x, t) refl
    | inr u ↦ rw (updated_key test f same x, u) (row-update_where test f same k xs)
  ]

  -- A row that is appended is found under its own key only, and only if no other row has it.
  pub row-append_new : (k : ℕ) (xs ys : List A) → row k xs ≡ none → row k (xs ++ ys) ≡ row k ys
  row-append_new k [] ys h = refl
  row-append_new k (x ∷ xs) ys h = elim (Bool-cases (key x == k)) [
    | inl t ↦ absurd (ground arith)
    | inr u ↦ rw u (row-append_new k xs ys (rw u at h))
  ]

  pub row-append_old :
      (k : ℕ) (xs ys : List A) (a : A) → row k xs ≡ some a → row k (xs ++ ys) ≡ some a
  row-append_old k [] ys a h = absurd (ground arith)
  row-append_old k (x ∷ xs) ys a h = ground (arith, row-append_old k xs ys a)

  -- What holds between a row and the row that an update puts in its place.
  pub row-Related {ℓ} :
      (R : A → A → Type ℓ) (test : A → Bool) (f : A → A)
      → ((a : A) → key (f a) ≡ key a)
      → (k : ℕ) (xs : List A) (a : A) → row k xs ≡ some a
      → (test a ≡ true → R a (f a))
      → (test a ≡ false → R a a)
      → (b : A) × (row k (update_where test f xs) ≡ some b) × R a b
  row-Related R test f same k xs a found hit miss = elim (Bool-cases (test a)) [
    | inl t ↦ (f a, rw (row-update_where test f same k xs, found) (rw t refl), hit t)
    | inr u ↦ (a, rw (row-update_where test f same k xs, found) (rw u refl), miss u)
  ]

  pub row-key : (k : ℕ) (xs : List A) (a : A) → row k xs ≡ some a → key a ≡ k
  row-key k xs a found = ground (arith, find_sound (λ x. key x == k) xs a)

  -- An update of no row with the key.
  pub row-update_other :
      (test : A → Bool) (f : A → A)
      → ((a : A) → key (f a) ≡ key a)
      → (k : ℕ) (xs : List A) → ((a : A) → row k xs ≡ some a → test a ≡ false)
      → row k (update_where test f xs) ≡ row k xs
  row-update_other test f same k xs miss = elim (Option-cases (row k xs)) [
    | inl n ↦ rw (row-update_where test f same k xs, n) refl
    | inr (a, e) ↦ rw (row-update_where test f same k xs, e) (rw (miss a e) refl)
  ]

  pub row_where-found :
      (k : ℕ) (test : A → Bool) (xs : List A) (a : A)
      → row_where k test xs ≡ some a
      → (row k xs ≡ some a) × (test a ≡ true)
  row_where-found k test xs a found = elim (Option-cases (row k xs)) [
    | inl n ↦ absurd (ground arith)
    | inr (b, e) ↦ elim (Bool-cases (test b)) [
      | inl t ↦ (ground arith, ground arith)
      | inr u ↦ absurd (ground arith)
    ]
  ]
