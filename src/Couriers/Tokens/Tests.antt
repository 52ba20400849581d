-- ===== src/Couriers/Tokens/Tests.antt =====
-- Runs of the token service, and the theorems at those runs. The digests here are the texts.
use alpha_pos_local.Base.{
  ℕ, ◌+◌, ◌*◌, ◌≤◌, ◌≡◌, ◌||◌, refl, true, false, none, some, Option, List, [], ◌∷◌, find, is_some,
  leb,
}
use alpha_pos_local.Base.Text.{codes, text_eq, Text}
use alpha_pos_local.Couriers.Tokens.Rows.{
  Courier, RefreshToken, Store, Host, Draw, second, day, ttl, starts_with,
}
use alpha_pos_local.Couriers.Tokens.Refresh.{
  IssuedSession, access_expiry, issue_in_family, issue_session, revoked, revoke_family, has_digest,
  use_up, rotate, rotate_refresh_token, revoke_refresh_token,
}
use alpha_pos_local.Couriers.Tokens.Claims.{
  revoke_claims, new_claim, issue_login_claim, is_consumable, consume, consume_login_claim,
}
use alpha_pos_local.Couriers.Tokens.Login.{consume_login_claim-once}
use alpha_pos_local.Couriers.Tokens.Spent
use alpha_pos_local.Couriers.Tokens.Single.{Call, run, run_all}
use alpha_pos_local.Couriers.Tokens.Once.{
  IsRevokedFamily, rotate_refresh_token-once, rotate_refresh_token-lifetime,
  rotate_refresh_token-replay,
}

-- What a test has to compute with.
token_runs : Unit {0}
unfolding text_eq ttl starts_with access_expiry issue_in_family issue_session revoked revoke_family
    use_up rotate rotate_refresh_token revoke_refresh_token run run_all revoke_claims new_claim
    issue_login_claim is_consumable consume consume_login_claim Spent.run Spent.run_all
token_runs = tt

abbrev host : Host
host = record {
  sha256 = λ t. t;
  hash_token = λ t. t;
  claim_ttl = none;
  access_ttl = none;
  refresh_ttl = none;
}

abbrev draw : (refresh : Text) (family session_pk token_pk : ℕ) → Draw
draw refresh family session_pk token_pk = record {
  access_token = codes "a";
  refresh_token = refresh;
  family = family;
  session_pk = session_pk;
  token_pk = token_pk;
  issued_at = day;
}

abbrev rider : Courier
rider = record { pk = 2; user_id = 8; is_active = true }

abbrev empty : Store
empty = record { couriers = rider ∷ []; claims = []; tokens = []; sessions = [] }

-- A login, whose token is rotated a day later.
abbrev logged_in : Store
logged_in = run host (Call.opening (draw (codes "cr1.x") 70 1 1) 2 0) empty

abbrev next : Draw
next = draw (codes "cr1.y") 71 2 2

abbrev rotated : Option IssuedSession × Store
rotated = rotate_refresh_token host next (codes "cr1.x") day logged_in

abbrev fresh_pair : IssuedSession
fresh_pair = record {
  access_token = codes "a";
  access_expires_at = 691_200 * second;
  refresh_token = codes "cr1.y";
  refresh_expires_at = 2_592_000 * second;
}

went_through : rotated ≡ (some fresh_pair, rotated.1)
unfolding token_runs
went_through = refl

-- The new token is rotated too, and the courier logs in again.
abbrev later : List Call
later =
    Call.rotating (draw (codes "cr1.z") 72 3 3) (codes "cr1.y") (day + 1)
    ∷ Call.opening (draw (codes "cr1.w") 73 4 4) 2 (day + 2)
    ∷ []

rotate_refresh_token-once_example :
    (rotate_refresh_token host next (codes "cr1.x") (day + 3) (run_all host later (rotated.1))).0
    ≡ none
rotate_refresh_token-once_example =
    rotate_refresh_token-once host next next (codes "cr1.x") day (day + 3) logged_in (rotated.1)
      fresh_pair later went_through

rotate_refresh_token-lifetime_example :
    (t : RefreshToken) × (find (has_digest (codes "cr1.x")) logged_in.tokens ≡ some t)
    × (is_some t.used_at ≡ false)
    × ((is_some t.revoked_at || leb t.expires_at day) ≡ false)
    × (fresh_pair.refresh_expires_at ≡ t.expires_at)
    × (fresh_pair.access_expires_at ≤ t.expires_at)
rotate_refresh_token-lifetime_example =
    rotate_refresh_token-lifetime host next (codes "cr1.x") day logged_in (rotated.1) fresh_pair
      went_through

abbrev old_token : RefreshToken
old_token = record {
  pk = 1;
  courier_id = 2;
  access_session = none;
  token_digest = codes "cr1.x";
  family_id = 70;
  expires_at = 2_592_000 * second;
  used_at = some day;
  revoked_at = none;
  replaced_by = some 2;
}

rotate_refresh_token-replay_example :
    IsRevokedFamily 70
      (rotated.1)
      (rotate_refresh_token host next (codes "cr1.x") (day + 3) (rotated.1)).1
unfolding token_runs
rotate_refresh_token-replay_example =
    rotate_refresh_token-replay host next (codes "cr1.x") (day + 3) (rotated.1) old_token rider refl
      refl refl refl

-- A claim is issued and consumed a minute later; then another one is issued.
abbrev claimed : Store
claimed = Spent.run host (Spent.Call.issuing 2 (codes "cq1.q") 1 0) empty

abbrev used : Store
used = (consume_login_claim host (codes "cq1.q") (60 * second) claimed).1

consumed : consume_login_claim host (codes "cq1.q") (60 * second) claimed ≡ (some rider, used)
unfolding token_runs
consumed = refl

abbrev claim_calls : List Spent.Call
claim_calls =
    Spent.Call.issuing 2 (codes "cq1.r") 2 (70 * second)
    ∷ Spent.Call.consuming (codes "cq1.r") (80 * second)
    ∷ []

consume_login_claim-once_example :
    (consume_login_claim host (codes "cq1.q") (90 * second) (Spent.run_all host claim_calls used)).0
    ≡ none
consume_login_claim-once_example =
    consume_login_claim-once host (codes "cq1.q") (60 * second) (90 * second) claimed used rider
      claim_calls consumed
