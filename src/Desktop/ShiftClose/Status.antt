-- ===== src/Desktop/ShiftClose/Status.antt =====
-- What the tracker shows: `get_status` of desktop/shift_close_sync.py.
use alpha_pos_local.Base.{
  ℕ, max, Bool, true, false, not, ◌&&◌, ◌||◌, Option, none, some, List, [], ◌∷◌, ◌++◌, ltb, leb,
  ◌==◌, keep, take, length, if◌then◌else◌,
}
use alpha_pos_local.Base.Text.{Text, codes}
use alpha_pos_local.Base.Sorting.{sort_by}
use alpha_pos_local.Desktop.ShiftClose.Entries.{Entry, is_acknowledged, is_pending, is_conflict}
use alpha_pos_local.Desktop.ShiftClose.Verdict.{or_text}

-- The record that `get_status` answers with; the digest algorithm, a constant, is left out.
pub record Status : Type 0 where
  pub state : Text
  pub clear : Bool
  pub pending_count : ℕ
  pub conflict_count : ℕ
  pub acknowledged_count : ℕ
  pub message : Text
  pub unresolved : List Entry
  pub last_acknowledged_at : Option ℕ

-- The order of strings, of which a prefix comes first.
unfoldable pub text_leb : Text → Text → Bool
text_leb [] b = true
text_leb (x ∷ xs) [] = false
text_leb (x ∷ xs) (y ∷ ys) = ltb x y || (x == y && text_leb xs ys)

abbrev end_text : Option Text → Text
end_text none = []
end_text (some t) = t

-- The sort key: conflicts first, then by end and by number.
unfoldable pub unresolved_before : Entry → Entry → Bool
unresolved_before a b =
    if is_conflict a.state && not (is_conflict b.state)
    then true
    else if not (is_conflict a.state) && is_conflict b.state
    then false
    else if text_leb (end_text a.end_time) (end_text b.end_time)
    then (if text_leb (end_text b.end_time) (end_text a.end_time)
        then leb a.shift_id b.shift_id
        else true)
    else false

-- The latest acknowledgement, of those that have a time.
unfoldable pub latest : List Entry → Option ℕ
latest [] = none
latest (e ∷ es) =
    let rest = latest es in
    elim (e.acknowledged_at) [
      | none ↦ rest
      | some t ↦ elim rest [ none ↦ some t | some s ↦ some (max t s) ]
    ]

abbrev status_state : (conflicts pending acknowledged : List Entry) → Text
status_state (e ∷ es) ps acks = codes "CONFLICT"
status_state [] (p ∷ ps) acks = codes "PENDING"
status_state [] [] (a ∷ acks) = codes "ACKNOWLEDGED"
status_state [] [] [] = codes "IDLE"

abbrev status_message : (conflicts pending acknowledged : List Entry) → Text
status_message (e ∷ es) ps acks = or_text e.message (codes "A shift close has a cloud conflict.")
status_message [] (p ∷ ps) acks =
    or_text p.message (codes "A shift close is awaiting cloud acknowledgement.")
status_message [] [] (a ∷ acks) = codes "All tracked shift closes were acknowledged by the cloud."
status_message [] [] [] = codes "No shift close is awaiting cloud acknowledgement."

abbrev none_of : List Entry → Bool
none_of [] = true
none_of (e ∷ es) = false

-- `get_status`
unfoldable pub get_status : List Entry → Status
get_status es =
    let pending = keep (λ e. is_pending e.state) es in
    let conflicts = keep (λ e. is_conflict e.state) es in
    let acked = keep (λ e. is_acknowledged e.state) es in
    record {
      state = status_state conflicts pending acked;
      clear = none_of pending && none_of conflicts;
      pending_count = length pending;
      conflict_count = length conflicts;
      acknowledged_count = length acked;
      message = take 500 (status_message conflicts pending acked);
      unresolved = take 25 (sort_by unresolved_before (conflicts ++ pending));
      last_acknowledged_at = latest acked;
    }
