-- ===== src/Couriers/Tokens/Rotation.antt =====
-- Refresh tokens are used once, and a family ends when it was to end: `rotate_refresh_token` of
-- couriers/tokens.py.
use alpha_pos_local.Base.{
  ℕ, ◌≡◌, refl, ap, ◌∙◌, Bool, true, false, not, ◌||◌, some, List, [], ◌∷◌, ◌++◌, leb, find,
  update_where, is_some, if◌then◌else◌, inl, inr, arith, Bool-cases, if_true, if_false,
}
use alpha_pos_local.Base.Text.{Text, text_eq}
use alpha_pos_local.Base.Sorting.{find-append}
use alpha_pos_local.Couriers.Tokens.Rows.{Courier, RefreshToken, Store, Host, Draw}
use alpha_pos_local.Couriers.Tokens.Refresh.{
  issue_in_family, in_family, revoked, revoke_family, has_digest, token_is, use_up, rotate,
}

-- The first token of a digest has been used.
abbrev pub IsUsed : Text → List RefreshToken → Type 0
IsUsed d tokens =
    (t : RefreshToken) × (find (has_digest d) tokens ≡ some t) × (is_some t.used_at ≡ true)

abbrev pub Updated : Bool → (RefreshToken → RefreshToken) → RefreshToken → RefreshToken
Updated test f t = if test then f t else t

pub find-update_where :
    (d : Text) (test : RefreshToken → Bool) (f : RefreshToken → RefreshToken)
    (tokens : List RefreshToken) (t : RefreshToken)
    → ((x : RefreshToken) → (f x).token_digest ≡ x.token_digest)
    → find (has_digest d) tokens ≡ some t
    → find (has_digest d) (update_where test f tokens) ≡ some (Updated (test t) f t)
find-update_where d test f [] t same e = absurd (ground arith)
find-update_where d test f (x ∷ tokens) t same e = elim (Bool-cases (has_digest d x)) [
  | inl y ↦
      let row : x ≡ t = ground arith in
      let kept : has_digest d (Updated (test x) f x) ≡ true = updated_digest (test x) ∙ y in
      if_true (has_digest d (Updated (test x) f x)) _ _ kept
      ∙ ap (λ r. some (Updated (test r) f r)) row
  | inr n ↦
      let later : find (has_digest d) tokens ≡ some t = ground arith in
      let kept : has_digest d (Updated (test x) f x) ≡ false = updated_digest (test x) ∙ n in
      if_false (has_digest d (Updated (test x) f x)) _ _ kept
      ∙ find-update_where d test f tokens t same later
]
  where
    updated_digest : (b : Bool) → has_digest d (Updated b f x) ≡ has_digest d x
    updated_digest true = ap (λ z. text_eq z d) (same x)
    updated_digest false = refl

-- A write that keeps digests and uses keeps what was used.
update-IsUsed :
    (d : Text) (test : RefreshToken → Bool) (f : RefreshToken → RefreshToken)
    (tokens : List RefreshToken)
    → ((x : RefreshToken) → (f x).token_digest ≡ x.token_digest)
    → ((x : RefreshToken) → is_some x.used_at ≡ true → is_some (f x).used_at ≡ true)
    → IsUsed d tokens
    → IsUsed d (update_where test f tokens)
update-IsUsed d test f tokens same keeps (t, at, u) =
    (Updated (test t) f t, find-update_where d test f tokens t same at, updated_use (test t))
  where
    updated_use : (b : Bool) → is_some (Updated b f t).used_at ≡ true
    updated_use true = keeps t u
    updated_use false = u

pub append-IsUsed :
    (d : Text) (tokens new : List RefreshToken) → IsUsed d tokens → IsUsed d (tokens ++ new)
append-IsUsed d tokens new (t, at, u) = (t, find-append (has_digest d) tokens new t at, u)

pub issue_in_family-IsUsed :
    (host : Host) (dr : Draw) (c : Courier) (family ends now : ℕ) (d : Text) (s : Store)
    → IsUsed d s.tokens
    → IsUsed d (issue_in_family host dr c family ends now s).1.tokens
unfolding issue_in_family
issue_in_family-IsUsed host dr c family ends now d s u = append-IsUsed d s.tokens _ u

pub revoke_family-IsUsed :
    (family at : ℕ) (d : Text) (s : Store)
    → IsUsed d s.tokens
    → IsUsed d (revoke_family family at s).tokens
unfolding revoke_family revoked
revoke_family-IsUsed family at d s u =
    update-IsUsed d (in_family family) (revoked at) s.tokens (λ x. refl) (λ x h. h) u

pub use_up-IsUsed :
    (t : RefreshToken) (replacement now : ℕ) (d : Text) (s : Store)
    → IsUsed d s.tokens
    → IsUsed d (use_up t replacement now s).tokens
unfolding use_up
use_up-IsUsed t replacement now d s u =
    update-IsUsed d (token_is t.pk) _ s.tokens (λ x. refl) (λ x h. refl) u

pub rotate-IsUsed :
    (host : Host) (dr : Draw) (t : RefreshToken) (c : Courier) (now : ℕ) (d : Text) (s : Store)
    → IsUsed d s.tokens
    → IsUsed d (rotate host dr t c now s).1.tokens
unfolding rotate
rotate-IsUsed host dr t c now d s u = elim (Bool-cases (is_some t.used_at)) [
  | inl y ↦ rw y (revoke_family-IsUsed t.family_id now d s u)
  | inr n ↦ rw n (elim (Bool-cases (is_some t.revoked_at || leb t.expires_at now)) [
    | inl y ↦ rw y u
    | inr m ↦ rw m (elim (Bool-cases (not c.is_active)) [
      | inl y ↦ rw y (revoke_family-IsUsed t.family_id now d s u)
      | inr a ↦ rw a (
          issue_in_family-IsUsed host dr c t.family_id t.expires_at dr.issued_at d _
            (use_up-IsUsed t dr.token_pk now d s u))
    ])
  ])
]
