-- ===== src/Couriers/Tokens/Spent.antt =====
-- A claim that was consumed or revoked stays so: `issue_login_claim` and `consume_login_claim` of
-- couriers/tokens.py. Each call locks the courier's row first, so an interleaving of requests is a
-- sequence of whole calls.
use alpha_pos_local.Base.{
  ℕ, ◌≡◌, refl, ap, ◌∙◌, Bool, true, false, not, ◌&&◌, Option, none, some, List, [], ◌∷◌, ◌++◌,
  ◌==◌, find, update_where, if◌then◌else◌, inl, inr, arith, Bool-cases, if_true, if_false,
}
use alpha_pos_local.Base.Text.{Text, text_eq}
use alpha_pos_local.Base.Sorting.{find-append}
use alpha_pos_local.Couriers.Tokens.Rows.{Courier, Claim, Store, Host, courier_is, starts_with}
use alpha_pos_local.Couriers.Tokens.Claims.{
  claim_prefix, is_outstanding, has_digest, revoke_claims, new_claim, issue_login_claim,
  is_consumable, consume, consume_login_claim,
}

-- The first claim of a digest can no longer be consumed.
abbrev pub IsSpent : Text → List Claim → Type 0
IsSpent d claims = (c : Claim) × (find (has_digest d) claims ≡ some c) × (is_outstanding c ≡ false)

pub find-update_claims :
    (d : Text) (test : Claim → Bool) (f : Claim → Claim) (claims : List Claim) (c : Claim)
    → ((x : Claim) → (f x).token_digest ≡ x.token_digest)
    → find (has_digest d) claims ≡ some c
    → find (has_digest d) (update_where test f claims) ≡ some (if test c then f c else c)
find-update_claims d test f [] c same e = absurd (ground arith)
find-update_claims d test f (x ∷ claims) c same e = elim (Bool-cases (has_digest d x)) [
  | inl y ↦
      let row : x ≡ c = ground arith in
      if_true (has_digest d (if test x then f x else x)) _ _ (updated_digest (test x) ∙ y)
      ∙ ap (λ r. some (if test r then f r else r)) row
  | inr n ↦
      let later : find (has_digest d) claims ≡ some c = ground arith in
      if_false (has_digest d (if test x then f x else x)) _ _ (updated_digest (test x) ∙ n)
      ∙ find-update_claims d test f claims c same later
]
  where
    updated_digest : (b : Bool) → has_digest d (if b then f x else x) ≡ has_digest d x
    updated_digest true = ap (λ z. text_eq z d) (same x)
    updated_digest false = refl

update-IsSpent :
    (d : Text) (test : Claim → Bool) (f : Claim → Claim) (claims : List Claim)
    → ((x : Claim) → (f x).token_digest ≡ x.token_digest)
    → ((x : Claim) → is_outstanding x ≡ false → is_outstanding (f x) ≡ false)
    → IsSpent d claims
    → IsSpent d (update_where test f claims)
update-IsSpent d test f claims same keeps (c, at, h) =
    (if test c then f c else c, find-update_claims d test f claims c same at, spent (test c))
  where
    spent : (b : Bool) → is_outstanding (if b then f c else c) ≡ false
    spent true = keeps c h
    spent false = h

pub data Call : Type 0 where
  issuing : (courier : ℕ) → (raw : Text) → (pk now : ℕ) → Call
  consuming : (raw : Text) (now : ℕ) → Call

abbrev pub issued : Option Store → Store → Store
issued none s = s
issued (some s') s = s'

unfoldable pub run : Host → Call → Store → Store
run host (Call.issuing courier raw pk now) s =
    issued (issue_login_claim host courier raw pk now s) s
run host (Call.consuming raw now) s = (consume_login_claim host raw now s).1

unfoldable pub run_all : Host → List Call → Store → Store
run_all host [] s = s
run_all host (c ∷ calls) s = run_all host calls (run host c s)

module _ (host : Host) (d : Text) where
  issuing-IsSpent :
      (courier : ℕ) (raw : Text) (pk now : ℕ) (s : Store)
      → IsSpent d s.claims
      → IsSpent d (issued (issue_login_claim host courier raw pk now s) s).claims
  unfolding issue_login_claim revoke_claims
  issuing-IsSpent courier raw pk now s h = on_courier (find (courier_is courier) s.couriers)
    where
      added :
          IsSpent d (revoke_claims courier now s.claims ++ new_claim host courier raw pk now ∷ [])
      added =
          let (c, at, k) =
            update-IsSpent d (λ c. c.courier_id == courier && is_outstanding c)
              (λ c. record c { revoked_at = some now }) s.claims (λ x. refl)
              (λ x q. revoked_spent x) h in
          (c, find-append (has_digest d) _ _ c at, k)
        where
          revoked_spent : (x : Claim) → is_outstanding (record x { revoked_at = some now }) ≡ false
          revoked_spent x = ground arith

      on_active :
          (b : Bool)
          → IsSpent d
              (issued
                (if b
                  then some (record s {
                    claims =
                        revoke_claims courier now s.claims
                        ++ new_claim host courier raw pk now ∷ [];
                  })
                  else none)
                s).claims
      on_active true = added
      on_active false = h

      on_courier :
          (m : Option Courier)
          → IsSpent d
              (issued
                (elim m as (λ x. Option Store) [
                  | none ↦ none
                  | some c ↦
                      if c.is_active
                      then some (record s {
                        claims =
                            revoke_claims courier now s.claims
                            ++ new_claim host courier raw pk now ∷ [];
                      })
                      else none
                ])
                s).claims
      on_courier none = h
      on_courier (some c) = on_active c.is_active

  consume-IsSpent :
      (candidate : Claim) (now : ℕ) (s : Store)
      → IsSpent d s.claims
      → IsSpent d (consume candidate now s).1.claims
  unfolding consume
  consume-IsSpent candidate now s h = on_courier (find (courier_is candidate.courier_id) s.couriers)
    where
      used : Store
      used = record s {
        claims =
            update_where (is_consumable candidate now) (λ c. record c { consumed_at = some now })
              s.claims;
      }

      consumed_spent : (x : Claim) → is_outstanding (record x { consumed_at = some now }) ≡ false
      consumed_spent x = refl

      choice : Courier → Bool → Option Courier × Store
      choice c b = if b then (some c, used) else (none, s)

      on_test : (c : Courier) (b : Bool) → IsSpent d (choice c b).1.claims
      on_test c true =
          update-IsSpent d (is_consumable candidate now) (λ x. record x { consumed_at = some now })
            s.claims (λ x. refl) (λ x q. consumed_spent x) h
      on_test c false = h

      on_courier :
          (m : Option Courier)
          → IsSpent d
              (elim m as (λ x. Option Courier × Store) [
                | none ↦ (none, s)
                | some courier ↦
                    if courier.is_active && is_consumable candidate now candidate
                    then (some courier, used)
                    else (none, s)
              ]).1.claims
      on_courier none = h
      on_courier (some c) = on_test c (c.is_active && is_consumable candidate now candidate)

  consuming-IsSpent :
      (raw : Text) (now : ℕ) (s : Store)
      → IsSpent d s.claims
      → IsSpent d (consume_login_claim host raw now s).1.claims
  unfolding consume_login_claim
  consuming-IsSpent raw now s h = elim (Bool-cases (not (starts_with claim_prefix raw))) [
    | inl y ↦ rw y h
    | inr n ↦ rw n (on_claim (find (has_digest (host.sha256 raw)) s.claims))
  ]
    where
      on_claim :
          (m : Option Claim)
          → IsSpent d
              (elim m as (λ x. Option Courier × Store) [
                | none ↦ (none, s)
                | some candidate ↦ consume candidate now s
              ]).1.claims
      on_claim none = h
      on_claim (some c) = consume-IsSpent c now s h

  pub run_all-IsSpent :
      (calls : List Call) (s : Store) → IsSpent d s.claims → IsSpent d (run_all host calls s).claims
  unfolding run_all run
  run_all-IsSpent [] s h = h
  run_all-IsSpent (Call.issuing courier raw pk now ∷ calls) s h =
      run_all-IsSpent calls _ (issuing-IsSpent courier raw pk now s h)
  run_all-IsSpent (Call.consuming raw now ∷ calls) s h =
      run_all-IsSpent calls _ (consuming-IsSpent raw now s h)
