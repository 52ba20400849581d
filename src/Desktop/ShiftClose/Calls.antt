-- ===== src/Desktop/ShiftClose/Calls.antt =====
-- The calls that reach the tracker of desktop/shift_close_sync.py: a close that commits, the first
-- discovery of `ensure_started`, `prepare_for_push` and `after_push`.
use alpha_pos_local.Base.{ℕ, true, false, none, some, List, [], ◌∷◌}
use alpha_pos_local.Desktop.ShiftClose.Entries.{Bundle, Entry}
use alpha_pos_local.Desktop.ShiftClose.Verdict.{Remote}
use alpha_pos_local.Desktop.ShiftClose.Refresh.{refresh, track_committed}

-- With the time, and the bundles of the closed shifts as the call finds them; what the cloud answers
-- to each is an argument of the call that asks it.
pub data Call : Type 0 where
  shift_saved : (now : ℕ) (bundle : Bundle) → Call
  ensure_started : (now : ℕ) (bundles : List Bundle) → Call
  prepare_for_push : (now : ℕ) (bundles : List Bundle) → Call
  after_push : (now : ℕ) (answer : Bundle → Remote) (bundles : List Bundle) → Call

unfoldable pub serve : Call → List Entry → List Entry
serve (shift_saved now b) stored = track_committed now b stored
serve (ensure_started now bs) stored = (refresh now none false bs stored).stored
serve (prepare_for_push now bs) stored = (refresh now none true bs stored).stored
serve (after_push now answer bs) stored = (refresh now (some answer) true bs stored).stored

-- The state file after some calls.
unfoldable pub serve_all : List Call → List Entry → List Entry
serve_all [] stored = stored
serve_all (c ∷ cs) stored = serve_all cs (serve c stored)
