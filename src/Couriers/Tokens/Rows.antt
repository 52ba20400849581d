-- ===== src/Couriers/Tokens/Rows.antt =====
-- The rows behind the credentials of couriers/tokens.py, and what is drawn for a new one. Only the
-- digests of tokens are stored. Times are microseconds.
use alpha_pos_local.Base.{
  ℕ, ◌*◌, max, Bool, true, false, ◌&&◌, Option, none, some, List, [], ◌∷◌, ◌==◌,
}
use alpha_pos_local.Base.Int.{ℤ, pos_part}
use alpha_pos_local.Base.Text.{Text}

-- `Courier`: `is_active` says that its user is an active COURIER that is not deleted.
pub record Courier : Type 0 where
  pub pk : ℕ
  pub user_id : ℕ
  pub is_active : Bool

-- `CourierLoginClaim`
pub record Claim : Type 0 where
  pub pk : ℕ
  pub courier_id : ℕ
  pub token_digest : Text
  pub expires_at : ℕ
  pub consumed_at : Option ℕ
  pub revoked_at : Option ℕ

-- `CourierRefreshToken`
pub record RefreshToken : Type 0 where
  pub pk : ℕ
  pub courier_id : ℕ
  pub access_session : Option ℕ
  pub token_digest : Text
  pub family_id : ℕ
  pub expires_at : ℕ
  pub used_at : Option ℕ
  pub revoked_at : Option ℕ
  pub replaced_by : Option ℕ

-- `base.Session`
pub record Session : Type 0 where
  pub pk : ℕ
  pub user_id : ℕ
  pub payload : Text
  pub expires_at : ℕ

pub record Store : Type 0 where
  pub couriers : List Courier
  pub claims : List Claim
  pub tokens : List RefreshToken
  pub sessions : List Session

-- `hashlib.sha256(...).hexdigest()`, `SessionRepository.hash_token`, and the settings in seconds, where
-- they are numbers.
pub record Host : Type 0 where
  pub sha256 : Text → Text
  pub hash_token : Text → Text
  pub claim_ttl : Option ℤ
  pub access_ttl : Option ℤ
  pub refresh_ttl : Option ℤ

-- What `secrets`, `uuid4` and the tables' keys give to a new credential, and the clock as
-- `_issue_session` reads it in a rotation.
pub record Draw : Type 0 where
  pub access_token : Text
  pub refresh_token : Text
  pub family : ℕ
  pub session_pk : ℕ
  pub token_pk : ℕ
  pub issued_at : ℕ

abbrev pub second : ℕ
second = 1_000_000

-- `_ttl`
unfoldable pub ttl : Option ℤ → ℕ → ℕ
ttl none default = default
ttl (some seconds) default = max 1 (pos_part seconds) * second

abbrev pub day : ℕ
day = 86_400 * second

abbrev pub courier_is : ℕ → Courier → Bool
courier_is pk c = c.pk == pk

-- `raw.startswith(prefix)`
unfoldable pub starts_with : Text → Text → Bool
starts_with [] raw = true
starts_with (c ∷ prefix) [] = false
starts_with (c ∷ prefix) (d ∷ raw) = c == d && starts_with prefix raw
