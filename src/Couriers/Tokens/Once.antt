-- ===== src/Couriers/Tokens/Once.antt =====
-- The theorems on `rotate_refresh_token` of couriers/tokens.py: single use, replay, and lifetimes.
use alpha_pos_local.Base.{
  ℕ, ◌≤◌, ◌≡◌, refl, sym, ap, subst, ◌∙◌, true, false, not, ◌||◌, Option, none, some, List, [], ◌∷◌,
  leb, find, any, keep, All, update_where, is_some, if◌then◌else◌, arith, if_true,
}
use alpha_pos_local.Base.Text.{Text}
use alpha_pos_local.Base.Sorting.{All-keep_test}
use alpha_pos_local.Couriers.Tokens.Rows.{
  Courier, RefreshToken, Store, Host, Draw, courier_is, starts_with,
}
use alpha_pos_local.Couriers.Tokens.Refresh.{
  refresh_prefix, IssuedSession, access_expiry, issue_in_family, in_family, revoked, is_session_of,
  revoke_family, has_digest, token_is, use_up, rotate, rotate_refresh_token,
}
use alpha_pos_local.Couriers.Tokens.Rotation.{IsUsed, find-update_where, issue_in_family-IsUsed}
use alpha_pos_local.Couriers.Tokens.Single.{Call, run_all, run_all-IsUsed, Rotated-ok, rotate_ok}

use_up-IsUsed :
    (d : Text) (t : RefreshToken) (replacement now : ℕ) (s : Store)
    → find (has_digest d) s.tokens ≡ some t
    → IsUsed d (use_up t replacement now s).tokens
unfolding use_up
use_up-IsUsed d t replacement now s e =
    let own : token_is t.pk t ≡ true = ground arith in
    let f : RefreshToken → RefreshToken =
      λ r. record r { used_at = some now; access_session = none; replaced_by = some replacement } in
    (
      f t,
      find-update_where d (token_is t.pk) f s.tokens t (λ x. refl) e
          ∙ ap some (if_true (token_is t.pk t) (f t) t own),
      refl,
    )

rotated-IsUsed :
    (host : Host) (dr : Draw) (raw : Text) (now : ℕ) (s s' : Store) (issued : IssuedSession)
    → rotate_refresh_token host dr raw now s ≡ (some issued, s')
    → IsUsed (host.sha256 raw) s'.tokens
rotated-IsUsed host dr raw now s s' issued e =
    let r = Rotated-ok host dr raw now s issued s' e in
    let t : RefreshToken = r.token in
    let (fresh, valid, made) = rotate_ok host dr t r.courier now s s' issued r.answer in
    subst (λ x. IsUsed (host.sha256 raw) x.1.tokens) made
      (issue_in_family-IsUsed host dr r.courier t.family_id t.expires_at dr.issued_at
        (host.sha256 raw) _ (use_up-IsUsed (host.sha256 raw) t dr.token_pk now s r.found))

-- A token that was used is refused.
used_refused :
    (host : Host) (dr : Draw) (raw : Text) (now : ℕ) (s : Store)
    → IsUsed (host.sha256 raw) s.tokens
    → (rotate_refresh_token host dr raw now s).0 ≡ none
used_refused host dr raw now s (t, at, u) = answer (rotate_refresh_token host dr raw now s) refl
  where
    answer :
        (x : Option IssuedSession × Store) → rotate_refresh_token host dr raw now s ≡ x → x.0 ≡ none
    answer (none, s') e = refl
    answer (some issued, s') e =
        let r = Rotated-ok host dr raw now s issued s' e in
        let (fresh, valid, made) = rotate_ok host dr r.token r.courier now s s' issued r.answer in
        let one : some t ≡ some r.token = sym at ∙ r.found in
        let same : t ≡ r.token = ground arith in
        let used : is_some r.token.used_at ≡ true = subst (λ x. is_some x.used_at ≡ true) same u in
        absurd (ground arith)

-- A refresh token is exchanged at most once: after a rotation that went through, whatever rotations,
-- logins and revocations follow, the same token is refused.
pub rotate_refresh_token-once :
    (host : Host) (dr dr' : Draw) (raw : Text) (now now' : ℕ) (s s' : Store)
    (issued : IssuedSession) (calls : List Call)
    → rotate_refresh_token host dr raw now s ≡ (some issued, s')
    → (rotate_refresh_token host dr' raw now' (run_all host calls s')).0 ≡ none
rotate_refresh_token-once host dr dr' raw now now' s s' issued calls e =
    used_refused host dr' raw now' (run_all host calls s') (
      run_all-IsUsed host (host.sha256 raw) calls s' (rotated-IsUsed host dr raw now s s' issued e))

issued_times :
    (host : Host) (dr : Draw) (c : Courier) (family ends now : ℕ) (s s' : Store)
    (issued : IssuedSession)
    → issue_in_family host dr c family ends now s ≡ (issued, s')
    → (issued.refresh_expires_at ≡ ends) × (issued.access_expires_at ≤ ends)
unfolding issue_in_family access_expiry
issued_times host dr c family ends now s s' issued e =
    subst (λ x. (x.0.refresh_expires_at ≡ ends) × (x.0.access_expires_at ≤ ends)) e
      (refl, ground arith)

-- A rotation needs a token that is not used, not revoked and not past its end; the new refresh token
-- ends when the old one did, and the new access token not after that.
pub rotate_refresh_token-lifetime :
    (host : Host) (dr : Draw) (raw : Text) (now : ℕ) (s s' : Store) (issued : IssuedSession)
    → rotate_refresh_token host dr raw now s ≡ (some issued, s')
    → (t : RefreshToken) × (find (has_digest (host.sha256 raw)) s.tokens ≡ some t)
      × (is_some t.used_at ≡ false)
      × ((is_some t.revoked_at || leb t.expires_at now) ≡ false)
      × (issued.refresh_expires_at ≡ t.expires_at)
      × (issued.access_expires_at ≤ t.expires_at)
rotate_refresh_token-lifetime host dr raw now s s' issued e =
    let r = Rotated-ok host dr raw now s issued s' e in
    let t : RefreshToken = r.token in
    let (fresh, valid, made) = rotate_ok host dr t r.courier now s s' issued r.answer in
    let (ends, access) =
      issued_times host dr r.courier t.family_id t.expires_at dr.issued_at _ s' issued made in
    (t, r.found, fresh, valid, ends, access)

-- Nothing of a family is left that could be used.
abbrev pub IsRevokedFamily : ℕ → Store → Store → Type 0
IsRevokedFamily family s s' =
    All (λ x. in_family family x ≡ true → is_some x.revoked_at ≡ true) s'.tokens
    × All (λ x. not (any (is_session_of x) (keep (in_family family) s.tokens)) ≡ true) s'.sessions

update-revoked :
    (family at : ℕ) (tokens : List RefreshToken)
    → All
        (λ x. in_family family x ≡ true → is_some x.revoked_at ≡ true)
        (update_where (in_family family) (revoked at) tokens)
unfolding revoked
update-revoked family at [] = tt
update-revoked family at (t ∷ tokens) = (one, update-revoked family at tokens)
  where
    one :
        in_family family (if in_family family t then revoked at t else t) ≡ true
        → is_some (if in_family family t then revoked at t else t).revoked_at ≡ true
    one h = ground arith

revoke_family-IsRevokedFamily :
    (family at : ℕ) (s : Store) → IsRevokedFamily family s (revoke_family family at s)
unfolding revoke_family
revoke_family-IsRevokedFamily family at s =
    (update-revoked family at s.tokens, All-keep_test _ _ s.sessions (λ x h. h))

-- The replay of a token that was used, of a courier that is there, revokes every token of its family
-- and deletes the family's sessions.
pub rotate_refresh_token-replay :
    (host : Host) (dr : Draw) (raw : Text) (now : ℕ) (s : Store) (t : RefreshToken) (c : Courier)
    → starts_with refresh_prefix raw ≡ true
    → find (has_digest (host.sha256 raw)) s.tokens ≡ some t
    → find (courier_is t.courier_id) s.couriers ≡ some c
    → is_some t.used_at ≡ true
    → IsRevokedFamily t.family_id s (rotate_refresh_token host dr raw now s).1
unfolding rotate_refresh_token rotate
rotate_refresh_token-replay host dr raw now s t c p f g u =
    rw (p, f)
      (rw g (
        subst (λ (x : Option IssuedSession × Store). IsRevokedFamily t.family_id s x.1)
          (sym (if_true (is_some t.used_at) (none, revoke_family t.family_id now s) _ u))
          (revoke_family-IsRevokedFamily t.family_id now s)))
