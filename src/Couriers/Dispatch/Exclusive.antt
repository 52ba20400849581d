-- ===== src/Couriers/Dispatch/Exclusive.antt =====
-- No two live deliveries share a courier, and no two rows share an order.
use alpha_pos_local.Base.{
  ℕ, Bool, false, not, ◌&&◌, ◌||◌, ◌≡◌, refl, subst, ◌⊎◌, inl, inr, Option, none, some, List, [],
  ◌∷◌, arith, ◌==◌, opt_eq, find, any, All, All-find, Bool-cases, if◌then◌else◌,
}
use alpha_pos_local.Couriers.Dispatch.Store.{
  Assignment, is_busy, for_order, busy_elsewhere, save_assignment,
}

-- The courier whom a live delivery keeps busy.
unfoldable pub live_courier : Assignment → Option ℕ
live_courier a = if is_busy a.step then a.courier_id else none

abbrev pub meets : Option ℕ → Option ℕ → Bool
meets none c = false
meets (some b) none = false
meets (some b) (some c) = b == c

abbrev pub clash : Assignment → Assignment → Bool
clash a b = a.order_id == b.order_id || meets (live_courier a) (live_courier b)

abbrev pub IsExclusive : List Assignment → Type 0
IsExclusive [] = Unit
IsExclusive (a ∷ rows) = All (λ b. clash a b ≡ false) rows × IsExclusive rows

-- A row of another order that is a live delivery of the same courier.
abbrev pub conflict : Assignment → Assignment → Bool
conflict a b = not (b.order_id == a.order_id) && meets (live_courier a) (live_courier b)

replaced_head :
    (a r : Assignment) (rows : List Assignment)
    → r.order_id ≡ a.order_id
    → All (λ b. clash r b ≡ false) rows
    → any (conflict a) rows ≡ false
    → All (λ b. clash a b ≡ false) rows
replaced_head a r [] e h n = tt
replaced_head a r (b ∷ rows) e h n = (ground arith, replaced_head a r rows e h.1 (ground arith))

All-save :
    (a r : Assignment) (rows : List Assignment)
    → (r.order_id == a.order_id) ≡ false
    → conflict a r ≡ false
    → All (λ b. clash r b ≡ false) rows
    → All (λ b. clash r b ≡ false) (save_assignment a rows)
unfolding save_assignment
All-save a r [] e n h = (ground arith, tt)
All-save a r (b ∷ rows) e n h = elim (Bool-cases (b.order_id == a.order_id)) [
  | inl same ↦ rw same (ground arith, h.1)
  | inr other ↦ rw other (h.0, All-save a r rows e n h.1)
]

pub save-IsExclusive :
    (a : Assignment) (rows : List Assignment)
    → IsExclusive rows
    → any (conflict a) rows ≡ false
    → IsExclusive (save_assignment a rows)
unfolding save_assignment
save-IsExclusive a [] h n = (tt, tt)
save-IsExclusive a (r ∷ rows) h n = elim (Bool-cases (r.order_id == a.order_id)) [
  | inl same ↦ rw same (replaced_head a r rows (ground arith) h.0 (ground arith), h.1)
  | inr other ↦
      rw other
        (All-save a r rows other (ground arith) h.0, save-IsExclusive a rows h.1 (ground arith))
]

free_row :
    (c : ℕ) (b : Assignment)
    → (opt_eq b.courier_id (some c) && is_busy b.step) ≡ meets (some c) (live_courier b)
unfolding live_courier
free_row c b = ground arith

-- The test of `assign` rules every conflict of the new row out.
pub no_conflict_of_free :
    (c : ℕ) (a : Assignment) (rows : List Assignment)
    → (live_courier a ≡ some c)
    → busy_elsewhere c a.order_id rows ≡ false
    → any (conflict a) rows ≡ false
no_conflict_of_free c a [] e h = refl
no_conflict_of_free c a (b ∷ rows) e h =
    ground (arith, free_row c b, no_conflict_of_free c a rows e)

-- `a'` is `a` with its order, and keeps a courier busy only if `a` did.
pub record Continues (a a' : Assignment) : Type 0 where
  pub same_order : a'.order_id ≡ a.order_id
  pub stays_live : (live_courier a' ≡ none) ⊎ (live_courier a' ≡ live_courier a)

no_conflict_behind :
    (a a' : Assignment) (rows : List Assignment)
    → Continues a a'
    → All (λ b. clash a b ≡ false) rows
    → any (conflict a') rows ≡ false
no_conflict_behind a a' [] k h = refl
no_conflict_behind a a' (b ∷ rows) k h = ground (arith, no_conflict_behind a a' rows k h.1)

no_conflict_ahead :
    (a a' r : Assignment) → Continues a a' → clash r a ≡ false → conflict a' r ≡ false
no_conflict_ahead a a' r k h = ground arith

pub no_conflict_of_Continues :
    (o : ℕ) (a a' : Assignment) (rows : List Assignment)
    → IsExclusive rows
    → find (for_order o) rows ≡ some a
    → Continues a a'
    → any (conflict a') rows ≡ false
no_conflict_of_Continues o a a' [] h e k = refl
no_conflict_of_Continues o a a' (r ∷ rows) h e k = elim (Bool-cases (r.order_id == o)) [
  | inl same ↦
      let e' : r ≡ a = ground arith in
      let behind : any (conflict a') rows ≡ false =
        no_conflict_behind a a' rows k (subst (λ x. All (λ b. clash x b ≡ false) rows) e' h.0) in
      let here : conflict a' r ≡ false = rw e' (ground arith) in rw (here, behind)
  | inr other ↦
      let e' : find (for_order o) rows ≡ some a = rw other at e in
      let ahead : conflict a' r ≡ false =
        no_conflict_ahead a a' r k
          (All-find (λ b. clash r b ≡ false) (for_order o) rows a h.0 e') in
      rw (ahead, no_conflict_of_Continues o a a' rows h.1 e' k)
]
