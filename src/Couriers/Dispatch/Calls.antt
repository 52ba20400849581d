-- ===== src/Couriers/Dispatch/Calls.antt =====
-- The calls that reach dispatch, one after another. Each runs in a transaction under the locks of
-- its order, row and courier, so an interleaving is a sequence of whole calls.
use alpha_pos_local.Base.{◌≡◌, refl, ℕ, Option, List, [], ◌∷◌, Outcome, ok, err}
use alpha_pos_local.Base.Text.{Text}
use alpha_pos_local.Couriers.Dispatch.Store.{Step, Order, Courier, Assignment, Refusal, Store}
use alpha_pos_local.Couriers.Dispatch.Assign.{Scope, Terms, assign, unassign}
use alpha_pos_local.Couriers.Dispatch.Progress.{Handle, accept, decline, mark_ready, advance_status}
use alpha_pos_local.Couriers.Dispatch.Lifecycle.{Change, kept}
use alpha_pos_local.Couriers.Dispatch.Refines.{
  accept-Change, decline-Change, advance_status-Change, mark_ready-Change, unassign-Change,
  assign-Change,
}

pub data Call : Type 0 where
  assigning : (order courier : ℕ) → Terms → Scope → (now : ℕ) → Call
  unassigning : (order : ℕ) → (reason : Text) → Scope → Call
  accepting : Handle → (now later : ℕ) → Call
  declining : Handle → (reason : Text) → Call
  kitchen_ready : (order now : ℕ) → Call
  advancing : Handle → Step → (now : ℕ) → Call
  -- Other parts of the program write orders and couriers, as they like.
  elsewhere : List Order → List Courier → Call

-- A refused call is rolled back.
abbrev pub settled : Outcome Refusal Store → Store → Store
settled (ok s') s = s'
settled (err e) s = s

abbrev pub settled_row : Outcome Refusal (Option Assignment × Store) → Store → Store
settled_row (ok (_, s')) s = s'
settled_row (err e) s = s

unfoldable pub run : Call → Store → Store
run (Call.assigning o c terms scope now) s = settled_row (assign o c terms scope now s) s
run (Call.unassigning o reason scope) s = settled_row (unassign o reason scope s) s
run (Call.accepting h now later) s = settled (accept h now later s) s
run (Call.declining h reason) s = settled (decline h reason s) s
run (Call.kitchen_ready o now) s = mark_ready o now s
run (Call.advancing h target now) s = settled (advance_status h target now s) s
run (Call.elsewhere orders couriers) s = record s { orders = orders; couriers = couriers }

unfoldable pub run_all : List Call → Store → Store
run_all [] s = s
run_all (c ∷ calls) s = run_all calls (run c s)

settled-Change :
    (r : Outcome Refusal Store) (s : Store)
    → ((s' : Store) → r ≡ ok s' → Change s.assignments s'.assignments)
    → Change s.assignments (settled r s).assignments
settled-Change (ok s') s f = f s' refl
settled-Change (err e) s f = kept refl

settled_row-Change :
    (r : Outcome Refusal (Option Assignment × Store)) (s : Store)
    → ((a : Option Assignment) (s' : Store) → r ≡ ok (a, s') → Change s.assignments s'.assignments)
    → Change s.assignments (settled_row r s).assignments
settled_row-Change (ok (a, s')) s f = f a s' refl
settled_row-Change (err e) s f = kept refl

-- Whatever is called, the table of assignments changes as the life of an assignment allows.
pub run-Change : (c : Call) (s : Store) → Change s.assignments (run c s).assignments
unfolding run
run-Change (Call.assigning o c terms scope now) s =
    settled_row-Change (assign o c terms scope now s) s
      (λ a s' e. assign-Change o c terms scope now s s' a e)
run-Change (Call.unassigning o reason scope) s =
    settled_row-Change (unassign o reason scope s) s
      (λ a s' e. unassign-Change o reason scope s s' a e)
run-Change (Call.accepting h now later) s =
    settled-Change (accept h now later s) s (λ s' e. accept-Change h now later s s' e)
run-Change (Call.declining h reason) s =
    settled-Change (decline h reason s) s (λ s' e. decline-Change h reason s s' e)
run-Change (Call.kitchen_ready o now) s = mark_ready-Change o now s
run-Change (Call.advancing h target now) s =
    settled-Change (advance_status h target now s) s
      (λ s' e. advance_status-Change h target now s s' e)
run-Change (Call.elsewhere orders couriers) s = kept refl
