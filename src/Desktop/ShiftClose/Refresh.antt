-- ===== src/Desktop/ShiftClose/Refresh.antt =====
-- The rounds of the tracker: `_ensure_discovered_entries`, `_refresh` and `_track_committed_shift` of
-- desktop/shift_close_sync.py. The sync queue is not modelled: what is asked of it is a list.
use alpha_pos_local.Base.{
  ℕ, suc, Bool, true, false, not, ◌&&◌, ◌||◌, Option, none, some, List, [], ◌∷◌, ltb, leb, ◌==◌,
  any, find, if◌then◌else◌, is_some,
}
use alpha_pos_local.Base.Text.{Text, codes, text_eq, is_blank}
use alpha_pos_local.Base.Sorting.{sort_by}
use alpha_pos_local.Desktop.ShiftClose.Entries.{
  State, pending, conflict, acknowledged, is_acknowledged, is_pending, is_conflict, Bundle, Entry,
  uuid_is, prune, set_entry, entry_for,
}
use alpha_pos_local.Desktop.ShiftClose.Verdict.{Remote, Verdict, or_text, is_state, verdict}

pub data Effect : Type 0 where
  retain : (shift : Text) → (reset_dead_letters : Bool) → Effect
  park : (shift message : Text) → Effect
  clear_parked : (shift : Text) → Effect

-- The entries of the state file, those that a round has in memory, and what it asked of the queue,
-- the latest first.
pub record Run : Type 0 where
  pub stored : List Entry
  pub entries : List Entry
  pub outbox : List Effect

-- `_persist_entry`, with `entries[shift_uuid] = entry`
unfoldable pub persist : Entry → Run → Run
persist e run = record run {
  stored = prune (set_entry e run.stored);
  entries = set_entry e run.entries;
}

abbrev pub same_digest : Option Text → Option Text → Bool
same_digest none none = true
same_digest (some a) (some b) = text_eq a b
same_digest _ _ = false

abbrev pub truthy_digest : Option Text → Bool
truthy_digest none = false
truthy_digest (some d) = not (is_blank d)

abbrev pub invalid_bundle : (now : ℕ) → Bundle → Option Entry → Entry
invalid_bundle now b previous =
    entry_for now b previous conflict (codes "LOCAL_BUNDLE_INVALID") b.local_error false

abbrev pub awaiting : (now : ℕ) → Bundle → Option Entry → Entry
awaiting now b previous =
    entry_for now b previous pending (codes "AWAITING_CLOUD_ACK")
      (codes
        "The shift is closed locally, but the cloud has not yet verified its manifest and settlement rows.")
      false

abbrev pub still_conflict : (now : ℕ) → Bundle → Entry → Entry
still_conflict now b p =
    entry_for now b (some p) conflict (or_text p.reason_code (codes "CLOUD_CONFLICT"))
      (or_text p.message (codes "Cloud close conflict requires repair.")) false

-- What a discovered bundle does to its entry; `none` leaves it.
unfoldable pub discovered : (now : ℕ) → Bundle → Option Entry → Option Entry
discovered now b none =
    if not (is_blank b.local_error)
    then some (invalid_bundle now b none)
    else some (awaiting now b none)
discovered now b (some p) =
    if not (is_blank b.local_error)
    then some (invalid_bundle now b (some p))
    else if truthy_digest p.manifest_digest && not (same_digest p.manifest_digest b.manifest_digest)
    then some (
        entry_for now b (some p) conflict (codes "LOCAL_MANIFEST_CHANGED")
          (codes
            "The frozen close manifest changed after it was first tracked; cloud acknowledgement is blocked for manual investigation.")
          false)
    else if is_acknowledged p.state && same_digest p.manifest_digest b.manifest_digest
    then none
    else if is_conflict p.state
    then some (still_conflict now b p)
    else some (awaiting now b (some p))

abbrev pub or_kept : Option Entry → Run → Run
or_kept none run = run
or_kept (some e) run = persist e run

unfoldable pub discover_all : (now : ℕ) → List Bundle → Run → Run
discover_all now [] run = run
discover_all now (b ∷ bs) run =
    discover_all now bs (or_kept (discovered now b (find (uuid_is b.shift_uuid) run.entries)) run)

unfoldable pub missing : (now : ℕ) → Entry → Entry
missing now e = record e {
  state = conflict;
  reason_code = codes "LOCAL_SHIFT_MISSING";
  message = codes "The local shift disappeared before cloud acknowledgement.";
  updated_at = now;
}

-- The entries whose shift is gone before it was acknowledged.
unfoldable pub mark_missing : (now : ℕ) → List Bundle → List Entry → Run → Run
mark_missing now bs [] run = run
mark_missing now bs (e ∷ es) run = mark_missing now bs es (
    if is_acknowledged e.state || any (λ b. text_eq b.shift_uuid e.shift_uuid) bs
    then run
    else persist (missing now e) run)

-- `_ensure_discovered_entries`
unfoldable pub ensure_discovered : (now : ℕ) → List Bundle → Run → Run
ensure_discovered now bs run =
    let found = discover_all now bs run in mark_missing now bs found.entries found

abbrev pub state_of : Option Entry → Option State
state_of none = none
state_of (some e) = some e.state

abbrev pub has_state : (State → Bool) → Option Entry → Bool
has_state test none = false
has_state test (some e) = test e.state

abbrev pub message_of : Option Entry → Text
message_of none = []
message_of (some e) = e.message

unfoldable pub queue : Effect → Run → Run
queue f run = record run { outbox = f ∷ run.outbox }

-- The rank of a bundle: those that were never asked about, then pending ones, then the newest.
abbrev pub never_asked : Option Entry → Bool
never_asked none = true
never_asked (some e) = not (is_some e.last_probe_at)

abbrev pub rank : List Entry → Bundle → ℕ
rank entries b =
    let e = find (uuid_is b.shift_uuid) entries in
    if never_asked e
    then (if has_state is_pending e then 0 else 1)
    else if has_state is_pending e
    then 2
    else 3

abbrev pub bundle_before : List Entry → Bundle → Bundle → Bool
bundle_before entries a b =
    ltb (rank entries a) (rank entries b)
    || (rank entries a == rank entries b && leb b.shift_id a.shift_id)

-- What follows a verdict.
unfoldable pub after_verdict : Bundle → Remote → Verdict → Run → Run
after_verdict b r v run = elim (v.state) [
  | pending ↦ queue (retain b.shift_uuid (is_state r (codes "PENDING"))) run
  | conflict ↦ queue (park b.shift_uuid v.message) run
  | acknowledged ↦ queue (clear_parked b.shift_uuid) run
]

unfoldable pub judge : (now : ℕ) → Bundle → Option Entry → Remote → Run → Run
judge now b e r run =
    let v = verdict b r in
    after_verdict b r v (persist (entry_for now b e v.state v.reason_code v.message true) run)

-- A bundle that is not asked about in this round.
unfoldable pub hold : Bundle → Option Entry → Run → Run
hold b e run =
    if has_state is_conflict e
    then queue (park b.shift_uuid (message_of e)) run
    else queue (retain b.shift_uuid false) run

-- `_MAX_PROBES_PER_RUN`
abbrev pub max_probes : ℕ
max_probes = 25

-- The loop over the bundles. Once the cloud was unavailable its answer stands for the others.
unfoldable pub probe_all :
    (now : ℕ) → (ask : Bundle → Remote) → (probes : ℕ) → Option Remote → List Bundle → Run → Run
probe_all now ask probes down [] run = run
probe_all now ask probes down (b ∷ bs) run =
    let e = find (uuid_is b.shift_uuid) run.entries in
    elim (has_state is_acknowledged e || not (is_blank b.local_error)) [
      | true ↦ probe_all now ask probes down bs run
      | false ↦ elim (leb max_probes probes) [
        | true ↦ probe_all now ask probes down bs (hold b e run)
        | false ↦ elim down [
          | some r ↦ probe_all now ask probes (some r) bs (judge now b e r run)
          | none ↦
              probe_all now ask (suc probes)
                (if is_state (ask b) (codes "UNAVAILABLE") then some (ask b) else none) bs
                (judge now b e (ask b) run)
        ]
      ]
    ]

-- The loop of a round that does not ask the cloud.
unfoldable pub retain_all : (retains : Bool) → List Bundle → Run → Run
retain_all retains [] run = run
retain_all retains (b ∷ bs) run =
    let e = find (uuid_is b.shift_uuid) run.entries in
    retain_all retains bs (
      if not retains || has_state is_acknowledged e || not (is_blank b.local_error)
      then run
      else if has_state is_pending e
      then queue (retain b.shift_uuid false) run
      else if has_state is_conflict e
      then queue (park b.shift_uuid (message_of e)) run
      else run)

-- `_refresh`: with the bundles of the closed shifts, and with the answers of the cloud if it is asked.
unfoldable pub refresh :
    (now : ℕ) → Option (Bundle → Remote) → (retains : Bool) → List Bundle → List Entry → Run
refresh now asks retains bs stored =
    let run =
      ensure_discovered now bs (record { stored = stored; entries = stored; outbox = [] }) in
    let ordered = sort_by (bundle_before run.entries) bs in
    elim asks [
      | none ↦ retain_all retains ordered run
      | some ask ↦ probe_all now ask 0 none ordered run
    ]

-- The entry that a committed close leaves; `none` leaves the tracker as it is.
unfoldable pub tracked : (now : ℕ) → Bundle → Option Entry → Option Entry
tracked now b none = discovered now b none
tracked now b (some p) =
    if not (is_blank b.local_error)
    then some (invalid_bundle now b (some p))
    else if is_some p.manifest_digest && not (same_digest p.manifest_digest b.manifest_digest)
    then some (
        entry_for now b (some p) conflict (codes "LOCAL_MANIFEST_CHANGED")
          (codes "The frozen close manifest changed after it was first tracked.") false)
    else if is_acknowledged p.state && same_digest p.manifest_digest b.manifest_digest
    then none
    else if is_conflict p.state
    then some (still_conflict now b p)
    else some (awaiting now b (some p))

-- `_track_committed_shift`, of the bundle of a closed shift
unfoldable pub track_committed : (now : ℕ) → Bundle → List Entry → List Entry
track_committed now b stored =
    (or_kept (tracked now b (find (uuid_is b.shift_uuid) stored))
      (record { stored = stored; entries = stored; outbox = [] })).stored
