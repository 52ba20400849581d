-- ===== src/Couriers/Dispatch/Pick.antt =====
-- `pick_available_courier` of couriers/services.py. Other transactions write between its queries, so
-- each query has the rows that it sees.
use alpha_pos_local.Base.{
  ℕ, zero, suc, Bool, true, not, ◌&&◌, Option, none, some, List, ◌∷◌, ◌==◌, leb, any, keep, opt_eq,
  if◌then◌else◌,
}
use alpha_pos_local.Base.Text.{Text, text_eq, strip}
use alpha_pos_local.Base.Sorting.{sort_by, head}
use alpha_pos_local.Couriers.Dispatch.Store.{Courier, Assignment, is_busy}

-- A courier with a live delivery.
unfoldable pub busy_in : List Assignment → ℕ → Bool
busy_in rows courier = any (λ a. opt_eq a.courier_id (some courier) && is_busy a.step) rows

-- Who may be picked: online, active, and of the branch if one is asked for.
unfoldable pub is_candidate : Option Text → List Assignment → Courier → Bool
is_candidate branch rows c =
    c.online
    && c.user_active
    && not c.user_deleted
    && not (busy_in rows c.pk)
    && elim branch [ none ↦ true | some b ↦ text_eq c.branch_id (strip b) ]

abbrev pub by_pk : Courier → Courier → Bool
by_pk a b = leb a.pk b.pk

-- What one round of the loop sees: the couriers, their assignments, whose rows are locked by others,
-- and the assignments once it holds the lock of the courier.
pub record Round : Type 0 where
  pub couriers : List Courier
  pub rows : List Assignment
  pub locked : Courier → Bool
  pub rechecked : List Assignment

abbrev pub is_open : Option Text → Round → List ℕ → Courier → Bool
is_open branch r checked c =
    is_candidate branch r.rows c && not (r.locked c) && not (any (λ k. k == c.pk) checked)

-- The first free courier of a round.
unfoldable pub next_candidate : Option Text → Round → List ℕ → Option Courier
next_candidate branch r checked = head (sort_by by_pk (keep (is_open branch r checked) r.couriers))

-- The loop on fuel; the outer `none` is a fuel that ran out.
unfoldable pub pick : (fuel : ℕ) → Option Text → (ℕ → Round) → List ℕ → Option (Option Courier)
pick zero branch rounds checked = none
pick (suc fuel) branch rounds checked = elim (next_candidate branch (rounds 0) checked) [
  | none ↦ some none
  | some c ↦
      if not (busy_in (rounds 0).rechecked c.pk)
      then some (some c)
      else pick fuel branch (λ n. rounds (suc n)) (c.pk ∷ checked)
]
