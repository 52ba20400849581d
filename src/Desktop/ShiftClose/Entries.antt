-- ===== src/Desktop/ShiftClose/Entries.antt =====
-- The tracker of closed shifts: `_prune_entries`, `_persist_entry`, `_base_entry` and `_entry_for` of
-- desktop/shift_close_sync.py. What the server says of its own rows is left out of an entry.
use alpha_pos_local.Base.{
  ℕ, zero, suc, Bool, true, false, Option, none, some, List, [], ◌∷◌, map, leb, any, keep, take,
  if◌then◌else◌,
}
use alpha_pos_local.Base.Text.{Text, text_eq}
use alpha_pos_local.Base.Sorting.{sort_by}

pub data State : Type 0 where
  pending conflict acknowledged : State

abbrev pub is_acknowledged : State → Bool
is_acknowledged acknowledged = true
is_acknowledged _ = false

abbrev pub is_pending : State → Bool
is_pending pending = true
is_pending _ = false

abbrev pub is_conflict : State → Bool
is_conflict conflict = true
is_conflict _ = false

-- A closed shift with its manifest, as `_local_bundle` builds and checks it.
pub record Bundle : Type 0 where
  pub shift_uuid : Text
  pub shift_id : ℕ
  pub shift_status : Text
  pub end_time : Option Text
  pub manifest_version : Option ℕ
  pub manifest_digest : Option Text
  pub tender_methods : List Text
  pub local_error : Text

pub record Entry : Type 0 where
  pub shift_uuid : Text
  pub shift_id : ℕ
  pub shift_status : Text
  pub end_time : Option Text
  pub manifest_version : Option ℕ
  pub manifest_digest : Option Text
  pub tender_methods : List Text
  pub first_seen_at : ℕ
  pub updated_at : ℕ
  pub last_probe_at : Option ℕ
  pub acknowledged_at : Option ℕ
  pub probe_count : ℕ
  pub state : State
  pub reason_code : Text
  pub message : Text

abbrev pub uuid_is : Text → Entry → Bool
uuid_is uuid e = text_eq e.shift_uuid uuid

-- `_ACK_HISTORY_LIMIT`
abbrev pub history_limit : ℕ
history_limit = 200

abbrev pub drop {ℓ} : {A : Type ℓ} → ℕ → List A → List A
drop zero xs = xs
drop (suc n) [] = []
drop (suc n) (x ∷ xs) = drop n xs

abbrev pub acked_time : Entry → ℕ
acked_time e = elim (e.acknowledged_at) [ none ↦ e.updated_at | some t ↦ t ]

abbrev pub newer : Entry → Entry → Bool
newer a b = leb (acked_time b) (acked_time a)

-- The acknowledged entries beyond the newest ones.
unfoldable pub to_compact : List Entry → List Entry
to_compact es = drop history_limit (sort_by newer (keep (λ e. is_acknowledged e.state) es))

-- The tombstone of an acknowledged entry.
unfoldable pub compact : Entry → Entry
compact e = record e {
  shift_status = [];
  end_time = none;
  tender_methods = [];
  last_probe_at = none;
  probe_count = 0;
  reason_code = [];
  message = [];
}

-- `_prune_entries`
unfoldable pub prune : List Entry → List Entry
prune es =
    let old = to_compact es in map (λ e. if any (uuid_is e.shift_uuid) old then compact e else e) es

-- `shifts[shift_uuid] = entry`
unfoldable pub set_entry : Entry → List Entry → List Entry
set_entry e [] = e ∷ []
set_entry e (x ∷ xs) = if uuid_is e.shift_uuid x then e ∷ xs else x ∷ set_entry e xs

abbrev pub or_now : Option Entry → (now : ℕ) → ℕ
or_now none now = now
or_now (some e) now = e.first_seen_at

abbrev pub probed_at : Option Entry → Option ℕ
probed_at none = none
probed_at (some e) = e.last_probe_at

abbrev pub acked_at : Option Entry → Option ℕ
acked_at none = none
acked_at (some e) = e.acknowledged_at

abbrev pub probes_of : Option Entry → ℕ
probes_of none = 0
probes_of (some e) = e.probe_count

abbrev pub was_acknowledged : Option Entry → Bool
was_acknowledged none = false
was_acknowledged (some e) = is_acknowledged e.state

-- The stamp of an acknowledgement: the first one stays, and a state that falls back loses it.
abbrev pub stamp : (now : ℕ) → Option Entry → State → Option ℕ
stamp now previous acknowledged = elim (acked_at previous) [ some t ↦ some t | none ↦ some now ]
stamp now previous _ = if was_acknowledged previous then none else acked_at previous

-- `_entry_for`, over `_base_entry`, of a bundle that the cloud was asked about or not
unfoldable pub entry_for :
    (now : ℕ) → Bundle → Option Entry → State → (reason message : Text) → (asked : Bool) → Entry
entry_for now b previous state reason message asked = record {
  shift_uuid = b.shift_uuid;
  shift_id = b.shift_id;
  shift_status = b.shift_status;
  end_time = b.end_time;
  manifest_version = b.manifest_version;
  manifest_digest = b.manifest_digest;
  tender_methods = b.tender_methods;
  first_seen_at = or_now previous now;
  updated_at = now;
  last_probe_at = if asked then some now else probed_at previous;
  acknowledged_at = stamp now previous state;
  probe_count = if asked then suc (probes_of previous) else probes_of previous;
  state = state;
  reason_code = reason;
  message = take 500 message;
}
