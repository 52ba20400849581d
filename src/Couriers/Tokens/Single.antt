-- ===== src/Couriers/Tokens/Single.antt =====
-- What rotation guarantees over sequences of calls. Each call locks the courier's row first, so an
-- interleaving of requests is a sequence of whole calls.
use alpha_pos_local.Base.{
  ℕ, ◌+◌, ◌*◌, ◌≡◌, refl, Bool, true, false, not, ◌||◌, Option, none, some, List, [], ◌∷◌, leb,
  find, is_some, if◌then◌else◌, inl, inr, arith, Bool-cases, if_cases,
}
use alpha_pos_local.Base.Text.{Text}
use alpha_pos_local.Couriers.Tokens.Rows.{
  ttl, day, Courier, RefreshToken, Store, Host, Draw, courier_is, starts_with,
}
use alpha_pos_local.Couriers.Tokens.Refresh.{
  answered, refresh_prefix, IssuedSession, issue_in_family, issue_session, revoke_family,
  has_digest, use_up, rotate, rotate_refresh_token, revoke_refresh_token,
}
use alpha_pos_local.Couriers.Tokens.Rotation.{
  IsUsed, issue_in_family-IsUsed, revoke_family-IsUsed, rotate-IsUsed,
}

pub data Call : Type 0 where
  rotating : Draw → (raw : Text) (now : ℕ) → Call
  opening : Draw → (courier now : ℕ) → Call
  revoking : (raw : Text) (now : ℕ) → Call

abbrev pub opened : Option (IssuedSession × Store) → Store → Store
opened none s = s
opened (some (issued, s')) s = s'

unfoldable pub run : Host → Call → Store → Store
run host (Call.rotating d raw now) s = (rotate_refresh_token host d raw now s).1
run host (Call.opening d courier now) s = opened (issue_session host d courier now s) s
run host (Call.revoking raw now) s = revoke_refresh_token host raw now s

unfoldable pub run_all : Host → List Call → Store → Store
run_all host [] s = s
run_all host (c ∷ calls) s = run_all host calls (run host c s)

module _ (host : Host) (d : Text) where
  rotating-IsUsed :
      (dr : Draw) (raw : Text) (now : ℕ) (s : Store)
      → IsUsed d s.tokens
      → IsUsed d (rotate_refresh_token host dr raw now s).1.tokens
  unfolding rotate_refresh_token
  rotating-IsUsed dr raw now s u = elim (Bool-cases (not (starts_with refresh_prefix raw))) [
    | inl y ↦ rw y u
    | inr n ↦ rw n (on_token (find (has_digest (host.sha256 raw)) s.tokens))
  ]
    where
      on_courier :
          (t : RefreshToken) (c : Option Courier)
          → IsUsed d
              (elim c as (λ x. Option IssuedSession × Store) [
                | none ↦ (none, s)
                | some courier ↦ rotate host dr t courier now s
              ]).1.tokens
      on_courier t none = u
      on_courier t (some c) = rotate-IsUsed host dr t c now d s u

      on_token :
          (m : Option RefreshToken)
          → IsUsed d
              (elim m as (λ x. Option IssuedSession × Store) [
                | none ↦ (none, s)
                | some t ↦ elim (find (courier_is t.courier_id) s.couriers) [
                  | none ↦ (none, s)
                  | some courier ↦ rotate host dr t courier now s
                ]
              ]).1.tokens
      on_token none = u
      on_token (some t) = on_courier t (find (courier_is t.courier_id) s.couriers)

  opening-IsUsed :
      (dr : Draw) (courier now : ℕ) (s : Store)
      → IsUsed d s.tokens
      → IsUsed d (opened (issue_session host dr courier now s) s).tokens
  unfolding issue_session
  opening-IsUsed dr courier now s u = on_courier (find (courier_is courier) s.couriers)
    where
      on_active :
          (c : Courier) (b : Bool)
          → IsUsed d
              (opened
                (if b
                  then some (
                      issue_in_family host dr c dr.family
                        (now + ttl host.refresh_ttl (30 * day))
                        now
                        s)
                  else none)
                s).tokens
      on_active c true =
          issue_in_family-IsUsed host dr c dr.family (now + ttl host.refresh_ttl (30 * day)) now d s
            u
      on_active c false = u

      on_courier :
          (m : Option Courier)
          → IsUsed d
              (opened
                (elim m as (λ x. Option (IssuedSession × Store)) [
                  | none ↦ none
                  | some c ↦
                      if c.is_active
                      then some (
                          issue_in_family host dr c dr.family
                            (now + ttl host.refresh_ttl (30 * day))
                            now
                            s)
                      else none
                ])
                s).tokens
      on_courier none = u
      on_courier (some c) = on_active c c.is_active

  revoking-IsUsed :
      (raw : Text) (now : ℕ) (s : Store)
      → IsUsed d s.tokens
      → IsUsed d (revoke_refresh_token host raw now s).tokens
  unfolding revoke_refresh_token
  revoking-IsUsed raw now s u = elim (Bool-cases (not (starts_with refresh_prefix raw))) [
    | inl y ↦ rw y u
    | inr n ↦ rw n (on_token (find (has_digest (host.sha256 raw)) s.tokens))
  ]
    where
      on_token :
          (m : Option RefreshToken)
          → IsUsed d
              (elim m as (λ x. Store) [
                | none ↦ s
                | some t ↦ revoke_family t.family_id now s
              ]).tokens
      on_token none = u
      on_token (some t) = revoke_family-IsUsed t.family_id now d s u

  pub run_all-IsUsed :
      (calls : List Call) (s : Store) → IsUsed d s.tokens → IsUsed d (run_all host calls s).tokens
  unfolding run_all run
  run_all-IsUsed [] s u = u
  run_all-IsUsed (Call.rotating dr raw now ∷ calls) s u =
      run_all-IsUsed calls _ (rotating-IsUsed dr raw now s u)
  run_all-IsUsed (Call.opening dr courier now ∷ calls) s u =
      run_all-IsUsed calls _ (opening-IsUsed dr courier now s u)
  run_all-IsUsed (Call.revoking raw now ∷ calls) s u =
      run_all-IsUsed calls _ (revoking-IsUsed raw now s u)

-- A rotation that went through.
module _ (host : Host) (dr : Draw) (raw : Text) (now : ℕ) (s : Store) where
  pub record Rotated (issued : IssuedSession) (s' : Store) : Type 0 where
    pub token : RefreshToken
    pub courier : Courier
    pub found : find (has_digest (host.sha256 raw)) s.tokens ≡ some token
    pub answer : rotate host dr token courier now s ≡ (some issued, s')

  pub Rotated-ok :
      (issued : IssuedSession) (s' : Store)
      → rotate_refresh_token host dr raw now s ≡ (some issued, s')
      → Rotated issued s'
  unfolding rotate_refresh_token
  Rotated-ok issued s' e = elim (if_cases (not (starts_with refresh_prefix raw)) _ _ e) [
    | inl (y, e1) ↦ absurd (ground arith)
    | inr (n, e1) ↦ on_token (find (has_digest (host.sha256 raw)) s.tokens) refl e1
  ]
    where
      on_courier :
          (t : RefreshToken) (c : Option Courier)
          → find (has_digest (host.sha256 raw)) s.tokens ≡ some t
          → (elim c as (λ x. Option IssuedSession × Store) [
            | none ↦ (none, s)
            | some courier ↦ rotate host dr t courier now s
          ])
            ≡ (some issued, s')
          → Rotated issued s'
      on_courier t none f q = absurd (ground arith)
      on_courier t (some c) f q = record { token = t; courier = c; found = f; answer = q }

      on_token :
          (m : Option RefreshToken)
          → find (has_digest (host.sha256 raw)) s.tokens ≡ m
          → (elim m as (λ x. Option IssuedSession × Store) [
            | none ↦ (none, s)
            | some t ↦ elim (find (courier_is t.courier_id) s.couriers) [
              | none ↦ (none, s)
              | some courier ↦ rotate host dr t courier now s
            ]
          ])
            ≡ (some issued, s')
          → Rotated issued s'
      on_token none f q = absurd (ground arith)
      on_token (some t) f q = on_courier t (find (courier_is t.courier_id) s.couriers) f q

-- A rotation that went through wrote the new session behind the token that it used up.
pub rotate_ok :
    (host : Host) (dr : Draw) (t : RefreshToken) (c : Courier) (now : ℕ) (s s' : Store)
    (issued : IssuedSession)
    → rotate host dr t c now s ≡ (some issued, s')
    → (is_some t.used_at ≡ false)
      × ((is_some t.revoked_at || leb t.expires_at now) ≡ false)
      × (issue_in_family host dr c t.family_id t.expires_at dr.issued_at
            (use_up t dr.token_pk now s)
          ≡ (issued, s'))
unfolding rotate
rotate_ok host dr t c now s s' issued e =
    let made : IssuedSession × Store =
      issue_in_family host dr c t.family_id t.expires_at dr.issued_at
        (use_up t dr.token_pk now s) in
    elim (if_cases (is_some t.used_at) _ _ e) [
      | inl (y, e1) ↦ absurd (ground arith)
      | inr (n, e1) ↦ elim (if_cases (is_some t.revoked_at || leb t.expires_at now) _ _ e1) [
        | inl (y, e2) ↦ absurd (ground arith)
        | inr (m, e2) ↦ elim (if_cases (not c.is_active) _ _ e2) [
          | inl (y, e3) ↦ absurd (ground arith)
          | inr (a, e3) ↦ (n, m, answered_same made e3)
        ]
      ]
    ]
  where
    answered_same : (x : IssuedSession × Store) → answered x ≡ (some issued, s') → x ≡ (issued, s')
    answered_same (i, u) q = ground arith
