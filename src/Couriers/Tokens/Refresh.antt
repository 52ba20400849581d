-- ===== src/Couriers/Tokens/Refresh.antt =====
-- Rotating refresh tokens: `_issue_session`, `issue_session`, `_revoke_family`, `rotate_refresh_token`
-- and `revoke_refresh_token` of couriers/tokens.py.
use alpha_pos_local.Base.{
  ℕ, ◌+◌, ◌*◌, min, Bool, not, ◌||◌, Option, none, some, [], ◌∷◌, ◌++◌, ◌==◌, leb, opt_eq, find,
  any, keep, update_where, is_some, if◌then◌else◌,
}
use alpha_pos_local.Base.Text.{Text, codes, text_eq}
use alpha_pos_local.Couriers.Tokens.Rows.{
  Courier, RefreshToken, Session, Store, Host, Draw, day, ttl, courier_is, starts_with,
}

abbrev pub refresh_prefix : Text
refresh_prefix = codes "cr1."

-- `IssuedSession`
pub record IssuedSession : Type 0 where
  pub access_token : Text
  pub access_expires_at : ℕ
  pub refresh_token : Text
  pub refresh_expires_at : ℕ

unfoldable pub access_expiry : Host → (now refresh_expires_at : ℕ) → ℕ
access_expiry host now refresh_expires_at =
    min (now + ttl host.access_ttl (7 * day)) refresh_expires_at

-- `_issue_session`, in a family with its end.
unfoldable pub issue_in_family :
    Host → Draw → Courier → (family ends now : ℕ) → Store → IssuedSession × Store
issue_in_family host d courier family ends now s = (
  record {
    access_token = d.access_token;
    access_expires_at = access_expiry host now ends;
    refresh_token = d.refresh_token;
    refresh_expires_at = ends;
  },
  record s {
    sessions =
        s.sessions
        ++ record {
          pk = d.session_pk;
          user_id = courier.user_id;
          payload = host.hash_token d.access_token;
          expires_at = access_expiry host now ends;
        }
          ∷ [];
    tokens =
        s.tokens
        ++ record {
          pk = d.token_pk;
          courier_id = courier.pk;
          access_session = some d.session_pk;
          token_digest = host.sha256 d.refresh_token;
          family_id = family;
          expires_at = ends;
          used_at = none;
          revoked_at = none;
          replaced_by = none;
        }
          ∷ [];
  },
)

-- `issue_session` opens a family; `none` where it raises.
unfoldable pub issue_session :
    Host → Draw → (courier now : ℕ) → Store → Option (IssuedSession × Store)
issue_session host d courier now s = elim (find (courier_is courier) s.couriers) [
  | none ↦ none
  | some c ↦
      if c.is_active
      then some (issue_in_family host d c d.family (now + ttl host.refresh_ttl (30 * day)) now s)
      else none
]

abbrev pub in_family : ℕ → RefreshToken → Bool
in_family family t = t.family_id == family

abbrev pub or_at : Option ℕ → ℕ → Option ℕ
or_at none at = some at
or_at (some t) at = some t

abbrev pub is_session_of : Session → RefreshToken → Bool
is_session_of x t = opt_eq t.access_session (some x.pk)

-- Deleting a session empties the reference to it.
unfoldable pub revoked : ℕ → RefreshToken → RefreshToken
revoked at t = record t { revoked_at = or_at t.revoked_at at; access_session = none }

-- `_revoke_family`
unfoldable pub revoke_family : (family at : ℕ) → Store → Store
revoke_family family at s = record s {
  sessions = keep (λ x. not (any (is_session_of x) (keep (in_family family) s.tokens))) s.sessions;
  tokens = update_where (in_family family) (revoked at) s.tokens;
}

abbrev pub has_digest : Text → RefreshToken → Bool
has_digest d t = text_eq t.token_digest d

abbrev pub token_is : ℕ → RefreshToken → Bool
token_is pk t = t.pk == pk

abbrev pub session_is : Option ℕ → Session → Bool
session_is key x = opt_eq key (some x.pk)

-- The old token is used up, and its session is deleted.
unfoldable pub use_up : RefreshToken → (replacement now : ℕ) → Store → Store
use_up t replacement now s = record s {
  sessions = keep (λ x. not (session_is t.access_session x)) s.sessions;
  tokens =
      update_where (token_is t.pk)
        (λ r. record r {
          used_at = some now;
          access_session = none;
          replaced_by = some replacement;
        })
        s.tokens;
}

abbrev pub answered : IssuedSession × Store → Option IssuedSession × Store
answered x = (some x.0, x.1)

-- `rotate_refresh_token` on the locked row. (Under that lock the update that claims the row finds it.)
unfoldable pub rotate :
    Host → Draw → RefreshToken → Courier → (now : ℕ) → Store → Option IssuedSession × Store
rotate host d t courier now s =
    if is_some t.used_at
    then (none, revoke_family t.family_id now s)
    else if is_some t.revoked_at || leb t.expires_at now
    then (none, s)
    else if not courier.is_active
    then (none, revoke_family t.family_id now s)
    else answered (
        issue_in_family host d courier t.family_id t.expires_at d.issued_at
          (use_up t d.token_pk now s))

unfoldable pub rotate_refresh_token :
    Host → Draw → (raw : Text) (now : ℕ) → Store → Option IssuedSession × Store
rotate_refresh_token host d raw now s =
    if not (starts_with refresh_prefix raw)
    then (none, s)
    else elim (find (has_digest (host.sha256 raw)) s.tokens) [
      | none ↦ (none, s)
      | some t ↦ elim (find (courier_is t.courier_id) s.couriers) [
        | none ↦ (none, s)
        | some courier ↦ rotate host d t courier now s
      ]
    ]

-- `revoke_refresh_token`
unfoldable pub revoke_refresh_token : Host → (raw : Text) (now : ℕ) → Store → Store
revoke_refresh_token host raw now s =
    if not (starts_with refresh_prefix raw)
    then s
    else elim (find (has_digest (host.sha256 raw)) s.tokens) [
      | none ↦ s
      | some t ↦ revoke_family t.family_id now s
    ]
