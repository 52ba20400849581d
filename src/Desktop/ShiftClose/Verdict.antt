-- ===== src/Desktop/ShiftClose/Verdict.antt =====
-- The verdict on an answer of the cloud: `_validated_remote_result` of desktop/shift_close_sync.py.
use alpha_pos_local.Base.{
  ℕ, Bool, false, not, ◌&&◌, ◌||◌, Option, none, some, opt_eq, if◌then◌else◌, take,
}
use alpha_pos_local.Base.Text.{Text, codes, text_eq, is_blank}
use alpha_pos_local.Base.Number.{upper}
use alpha_pos_local.Desktop.ShiftClose.Entries.{State, pending, conflict, acknowledged, Bundle}

-- The fields of an answer that are read; `success` and `acknowledged` say whether the field is `True`.
pub record Remote : Type 0 where
  pub success : Bool
  pub state : Text
  pub reason_code : Text
  pub reason : Text
  pub shift_uuid : Text
  pub manifest_version : Option ℕ
  pub manifest_digest : Text
  pub digest_algorithm : Text
  pub acknowledged : Bool

-- A state with its reason code and its message.
pub record Verdict : Type 0 where
  pub state : State
  pub reason_code : Text
  pub message : Text

abbrev pub or_text : Text → Text → Text
or_text a b = if is_blank a then b else a

abbrev pub digest_is : Text → Option Text → Bool
digest_is d none = false
digest_is d (some e) = text_eq d e

-- `DIGEST_ALGORITHM`
abbrev pub digest_algorithm : Text
digest_algorithm = codes "sha256-canonical-json-v1"

abbrev pub is_state : Remote → Text → Bool
is_state r name = text_eq (upper r.state) name

-- The answer names the shift, the version and the digest that it was asked about.
unfoldable pub identity_matches : Bundle → Remote → Bool
identity_matches b r =
    r.success
    && text_eq r.shift_uuid b.shift_uuid
    && opt_eq r.manifest_version b.manifest_version
    && digest_is r.manifest_digest b.manifest_digest
    && text_eq r.digest_algorithm digest_algorithm
    && (is_state r (codes "PENDING")
        || is_state r (codes "CONFLICT")
        || is_state r (codes "ACKNOWLEDGED"))

abbrev pub mismatch : Text → Verdict
mismatch message = record {
  state = conflict;
  reason_code = codes "ACK_CONTRACT_MISMATCH";
  message = message;
}

-- A matching answer, by its state and its flag.
unfoldable pub matched : Remote → Verdict
matched r =
    if is_state r (codes "ACKNOWLEDGED") && not r.acknowledged
    then mismatch (codes "Cloud returned ACKNOWLEDGED without acknowledged=true.")
    else if not (is_state r (codes "ACKNOWLEDGED")) && r.acknowledged
    then mismatch (codes "Cloud returned acknowledged=true for a non-acknowledged state.")
    else if is_state r (codes "ACKNOWLEDGED")
    then record {
      state = acknowledged;
      reason_code = or_text r.reason_code (codes "CLOUD_ACKNOWLEDGED");
      message =
          or_text (take 500 r.reason) (codes "The cloud verified the complete shift close bundle.");
    }
    else if is_state r (codes "CONFLICT")
    then record {
      state = conflict;
      reason_code = or_text r.reason_code (codes "CLOUD_CONFLICT");
      message =
          or_text (take 500 r.reason)
            (codes "The cloud found a conflict in the shift close bundle.");
    }
    else record {
      state = pending;
      reason_code = or_text r.reason_code (codes "CLOUD_PENDING");
      message =
          or_text (take 500 r.reason)
            (codes "The cloud is still waiting for shift close evidence.");
    }

-- `_validated_remote_result`
unfoldable pub verdict : Bundle → Remote → Verdict
verdict b r =
    if is_state r (codes "UNAVAILABLE")
    then record {
      state = pending;
      reason_code = or_text r.reason_code (codes "ACK_UNAVAILABLE");
      message = take 500 r.reason;
    }
    else if not (identity_matches b r)
    then mismatch
        (codes "Cloud acknowledgement did not echo the exact shift, manifest, and digest contract.")
    else matched r
