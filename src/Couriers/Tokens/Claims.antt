-- ===== src/Couriers/Tokens/Claims.antt =====
-- One-time QR claims: `issue_login_claim` and `consume_login_claim` of couriers/tokens.py.
use alpha_pos_local.Base.{
  ℕ, ◌+◌, ◌*◌, Bool, not, ◌&&◌, Option, none, some, List, [], ◌∷◌, ◌++◌, ◌==◌, ltb, find,
  update_where, is_some, if◌then◌else◌,
}
use alpha_pos_local.Base.Text.{Text, codes, text_eq}
use alpha_pos_local.Couriers.Tokens.Rows.{
  Courier, Claim, Store, Host, second, ttl, courier_is, starts_with,
}

abbrev pub claim_prefix : Text
claim_prefix = codes "cq1."

abbrev pub is_outstanding : Claim → Bool
is_outstanding c = not (is_some c.consumed_at) && not (is_some c.revoked_at)

abbrev pub has_digest : Text → Claim → Bool
has_digest d c = text_eq c.token_digest d

unfoldable pub revoke_claims : ℕ → ℕ → List Claim → List Claim
revoke_claims courier now claims =
    update_where (λ c. c.courier_id == courier && is_outstanding c)
      (λ c. record c { revoked_at = some now }) claims

unfoldable pub new_claim : Host → ℕ → Text → (pk now : ℕ) → Claim
new_claim host courier raw pk now = record {
  pk = pk;
  courier_id = courier;
  token_digest = host.sha256 raw;
  expires_at = now + ttl host.claim_ttl (600 * second);
  consumed_at = none;
  revoked_at = none;
}

-- `issue_login_claim`, of the token `raw` that was drawn; `none` where it raises.
unfoldable pub issue_login_claim :
    Host → (courier : ℕ) (raw : Text) (pk now : ℕ) → Store → Option Store
issue_login_claim host courier raw pk now s = elim (find (courier_is courier) s.couriers) [
  | none ↦ none
  | some c ↦
      if c.is_active
      then some (record s {
        claims = revoke_claims courier now s.claims ++ new_claim host courier raw pk now ∷ [];
      })
      else none
]

-- The condition of the update that consumes a claim.
unfoldable pub is_consumable : Claim → ℕ → Claim → Bool
is_consumable candidate now c =
    c.pk == candidate.pk
    && c.courier_id == candidate.courier_id
    && is_outstanding c
    && ltb now c.expires_at

unfoldable pub consume : Claim → ℕ → Store → Option Courier × Store
consume candidate now s = elim (find (courier_is candidate.courier_id) s.couriers) [
  | none ↦ (none, s)
  | some courier ↦
      if courier.is_active && is_consumable candidate now candidate
      then (
        some courier,
        record s {
          claims =
              update_where (is_consumable candidate now) (λ c. record c { consumed_at = some now })
                s.claims;
        },
      )
      else (none, s)
]

-- `consume_login_claim`. A key names one row, so the update finds the candidate or nothing.
unfoldable pub consume_login_claim : Host → (raw : Text) (now : ℕ) → Store → Option Courier × Store
consume_login_claim host raw now s =
    if not (starts_with claim_prefix raw)
    then (none, s)
    else elim (find (has_digest (host.sha256 raw)) s.claims) [
      | none ↦ (none, s)
      | some candidate ↦ consume candidate now s
    ]
