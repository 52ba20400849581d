-- ===== src/Desktop/ShiftClose/Tests.antt =====
-- Runs of the tracker of closed shifts, and the theorem at such a run.
use alpha_pos_local.Base.{◌≡◌, refl, Bool, true, false, some, List, [], ◌∷◌, any}
use alpha_pos_local.Base.Text.{Text, codes, text_eq}
use alpha_pos_local.Base.Number.{upper}
use alpha_pos_local.Base.Sorting.{insert_by, sort_by}
use alpha_pos_local.Desktop.ShiftClose.Entries.{
  acknowledged, Bundle, Entry, uuid_is, to_compact, compact, prune, set_entry, entry_for,
}
use alpha_pos_local.Desktop.ShiftClose.Verdict.{
  Remote, digest_algorithm, identity_matches, matched, verdict,
}
use alpha_pos_local.Desktop.ShiftClose.Refresh.{
  persist, discovered, discover_all, missing, mark_missing, ensure_discovered, queue, after_verdict,
  judge, hold, probe_all, retain_all, refresh, tracked, track_committed,
}
use alpha_pos_local.Desktop.ShiftClose.Calls.{
  Call, shift_saved, prepare_for_push, after_push, serve, serve_all,
}
use alpha_pos_local.Desktop.ShiftClose.Status.{text_leb, unresolved_before, latest, get_status}
use alpha_pos_local.Desktop.ShiftClose.Acked.{names, echoed, proves, acknowledged_echoed}

-- What a test has to compute with.
shift_runs : Unit {0}
unfolding text_eq insert_by sort_by upper to_compact compact prune set_entry entry_for
    identity_matches matched verdict persist discovered discover_all missing mark_missing
    ensure_discovered queue after_verdict judge hold probe_all retain_all refresh tracked
    track_committed serve serve_all text_leb unresolved_before latest get_status names echoed proves
shift_runs = tt

abbrev closed : Bundle
closed = record {
  shift_uuid = codes "s1";
  shift_id = 4;
  shift_status = codes "ENDED";
  end_time = some (codes "2026-03-01");
  manifest_version = some 1;
  manifest_digest = some (codes "d1");
  tender_methods = [];
  local_error = [];
}

-- An answer that says of every bundle what it says of the shift "s1" with the digest "d1".
abbrev answer_of : (state : Text) → (flag : Bool) → Bundle → Remote
answer_of state flag b = record {
  success = true;
  state = state;
  reason_code = [];
  reason = [];
  shift_uuid = codes "s1";
  manifest_version = some 1;
  manifest_digest = codes "d1";
  digest_algorithm = digest_algorithm;
  acknowledged = flag;
}

abbrev entry_after : Entry
entry_after = record {
  shift_uuid = codes "s1";
  shift_id = 4;
  shift_status = codes "ENDED";
  end_time = some (codes "2026-03-01");
  manifest_version = some 1;
  manifest_digest = some (codes "d1");
  tender_methods = [];
  first_seen_at = 1;
  updated_at = 3;
  last_probe_at = some 3;
  acknowledged_at = some 3;
  probe_count = 1;
  state = acknowledged;
  reason_code = codes "CLOUD_ACKNOWLEDGED";
  message = codes "The cloud verified the complete shift close bundle.";
}

abbrev day : List Call
day =
    shift_saved 1 closed
    ∷ prepare_for_push 2 (closed ∷ [])
    ∷ after_push 3 (answer_of (codes "Acknowledged") true) (closed ∷ [])
    ∷ prepare_for_push 4 (closed ∷ [])
    ∷ []

day_runs : serve_all day [] ≡ entry_after ∷ []
unfolding shift_runs
day_runs = refl

-- An acknowledgement of another digest is a conflict.
abbrev changed : Bundle
changed = record closed { manifest_digest = some (codes "d2") }

changed_runs :
    (get_status (
      serve_all
        (after_push 3 (answer_of (codes "ACKNOWLEDGED") true) (changed ∷ []) ∷ [])
        [])).state
    ≡ codes "CONFLICT"
unfolding shift_runs
changed_runs = refl

-- A cloud that cannot be reached leaves the shift pending.
unavailable_runs :
    (get_status (
      serve_all (after_push 3 (answer_of (codes "UNAVAILABLE") false) (closed ∷ []) ∷ []) [])).state
    ≡ codes "PENDING"
unfolding shift_runs
unavailable_runs = refl

acknowledged_echoed_example : any (proves (codes "s1") (some (codes "d1"))) day ≡ true
unfolding shift_runs
acknowledged_echoed_example = acknowledged_echoed day (uuid_is (codes "s1")) entry_after refl refl
