-- ===== src/Couriers/Dispatch/Lifecycle.antt =====
-- The life of an assignment as a specification: which steps follow one another, and how one
-- call may change the table. Every operation of dispatch refines it.
use alpha_pos_local.Base.{
  ℕ, Bool, true, false, not, ◌≡◌, refl, inl, inr, Option, none, some, List, [], ◌∷◌, arith, ◌==◌,
  find, Bool-cases, if◌then◌else◌,
}
use alpha_pos_local.Couriers.Dispatch.Store.{
  Step, ready, declined, Assignment, is_settable, is_assigned, is_awaiting, is_protected,
  can_advance_to, for_order, busy_elsewhere, save_assignment,
}

-- One step after another.
pub data Follows (s t : Step) : Type 0 where
  accepted : is_awaiting s ≡ true → t ≡ s → Follows s t
  withdrawn : is_awaiting s ≡ true → t ≡ declined → Follows s t
  cooked : is_assigned s ≡ true → t ≡ ready → Follows s t
  advanced : is_settable t ≡ true → can_advance_to s t ≡ true → Follows s t

-- A row that goes on with its order and courier.
pub record Evolves (a a' : Assignment) : Type 0 where
  pub same_order : a'.order_id ≡ a.order_id
  pub same_courier : a'.courier_id ≡ a.courier_id
  pub follows : Follows a.step a'.step

-- What the order's present row must be for a courier to be given the order.
abbrev pub is_free : Option Assignment → Bool
is_free none = true
is_free (some a) = not (is_protected a.step)

-- How one call may change the table of assignments.
pub data Change (rows rows' : List Assignment) : Type 0 where
  kept : rows' ≡ rows → Change rows rows'
  evolved :
      (o : ℕ) (a a' : Assignment)
      → find (for_order o) rows ≡ some a
      → Evolves a a'
      → rows' ≡ save_assignment a' rows
      → Change rows rows'
  placed :
      (c : ℕ) (a' : Assignment)
      → a'.courier_id ≡ some c
      → is_awaiting a'.step ≡ true
      → is_free (find (for_order a'.order_id) rows) ≡ true
      → busy_elsewhere c a'.order_id rows ≡ false
      → rows' ≡ save_assignment a' rows
      → Change rows rows'

-- A save is seen at its order and nowhere else.
pub find-save :
    (o : ℕ) (a : Assignment) (rows : List Assignment)
    → find (for_order o) (save_assignment a rows)
      ≡ (if a.order_id == o then some a else find (for_order o) rows)
unfolding save_assignment
find-save o a [] = refl
find-save o a (r ∷ rows) = elim (Bool-cases (r.order_id == a.order_id)) [
  | inl same ↦ rw same (ground arith)
  | inr other ↦ rw other (ground (arith, find-save o a rows))
]
