-- ===== src/Couriers/Tokens/Login.antt =====
-- A QR claim logs in once: `consume_login_claim` of couriers/tokens.py.
use alpha_pos_local.Base.{
  ℕ, ◌≡◌, refl, sym, ap, subst, ◌∙◌, true, false, not, ◌&&◌, Option, none, some, List, find,
  update_where, if◌then◌else◌, inl, inr, arith, if_true, if_cases,
}
use alpha_pos_local.Base.Text.{Text}
use alpha_pos_local.Couriers.Tokens.Rows.{Courier, Claim, Store, Host, courier_is, starts_with}
use alpha_pos_local.Couriers.Tokens.Claims.{
  claim_prefix, is_outstanding, has_digest, is_consumable, consume, consume_login_claim,
}
use alpha_pos_local.Couriers.Tokens.Spent.{
  IsSpent, find-update_claims, Call, run_all, run_all-IsSpent,
}

-- A consumption that went through.
consume_ok :
    (candidate : Claim) (now : ℕ) (s s' : Store) (c : Courier)
    → consume candidate now s ≡ (some c, s')
    → (is_consumable candidate now candidate ≡ true)
      × (s'.claims
          ≡ update_where
              (is_consumable candidate now)
              (λ x. record x { consumed_at = some now })
              s.claims)
unfolding consume
consume_ok candidate now s s' c e = on_courier (find (courier_is candidate.courier_id) s.couriers) e
  where
    used : Store
    used = record s {
      claims =
          update_where (is_consumable candidate now) (λ x. record x { consumed_at = some now })
            s.claims;
    }

    on_courier :
        (m : Option Courier)
        → (elim m as (λ x. Option Courier × Store) [
          | none ↦ (none, s)
          | some courier ↦
              if courier.is_active && is_consumable candidate now candidate
              then (some courier, used)
              else (none, s)
        ])
          ≡ (some c, s')
        → (is_consumable candidate now candidate ≡ true) × (s'.claims ≡ used.claims)
    on_courier none q = absurd (ground arith)
    on_courier (some k) q =
        elim (if_cases (k.is_active && is_consumable candidate now candidate) (some k, used)
          (none, s) q) [
            | inl (t, q1) ↦
                (ground arith, sym (ap {A = Option Courier × Store} (λ x. x.1.claims) q1))
            | inr (f, q1) ↦ absurd (ground arith)
          ]

consume_login_ok :
    (host : Host) (raw : Text) (now : ℕ) (s s' : Store) (c : Courier)
    → consume_login_claim host raw now s ≡ (some c, s')
    → (candidate : Claim) × (find (has_digest (host.sha256 raw)) s.claims ≡ some candidate)
      × (consume candidate now s ≡ (some c, s'))
unfolding consume_login_claim
consume_login_ok host raw now s s' c e =
    elim (if_cases (not (starts_with claim_prefix raw)) _ _ e) [
      | inl (y, e1) ↦ absurd (ground arith)
      | inr (n, e1) ↦ on_claim (find (has_digest (host.sha256 raw)) s.claims) refl e1
    ]
  where
    on_claim :
        (m : Option Claim)
        → find (has_digest (host.sha256 raw)) s.claims ≡ m
        → (elim m as (λ x. Option Courier × Store) [
          | none ↦ (none, s)
          | some candidate ↦ consume candidate now s
        ])
          ≡ (some c, s')
        → (candidate : Claim) × (find (has_digest (host.sha256 raw)) s.claims ≡ some candidate)
          × (consume candidate now s ≡ (some c, s'))
    on_claim none f q = absurd (ground arith)
    on_claim (some x) f q = (x, f, q)

consumed-IsSpent :
    (host : Host) (raw : Text) (now : ℕ) (s s' : Store) (c : Courier)
    → consume_login_claim host raw now s ≡ (some c, s')
    → IsSpent (host.sha256 raw) s'.claims
consumed-IsSpent host raw now s s' c e =
    let (x, found, e1) = consume_login_ok host raw now s s' c e in
    let (t, rows) = consume_ok x now s s' c e1 in
    let f : Claim → Claim = λ y. record y { consumed_at = some now } in
    (
      f x,
      ap (find (has_digest (host.sha256 raw))) rows
          ∙ find-update_claims (host.sha256 raw) (is_consumable x now) f s.claims x (λ y. refl)
              found
          ∙ ap some (if_true (is_consumable x now x) (f x) x t),
      refl,
    )

spent_refused :
    (host : Host) (raw : Text) (now : ℕ) (s : Store)
    → IsSpent (host.sha256 raw) s.claims
    → (consume_login_claim host raw now s).0 ≡ none
unfolding is_consumable
spent_refused host raw now s (k, at, h) = answer (consume_login_claim host raw now s) refl
  where
    answer : (x : Option Courier × Store) → consume_login_claim host raw now s ≡ x → x.0 ≡ none
    answer (none, s') e = refl
    answer (some c, s') e =
        let (x, found, e1) = consume_login_ok host raw now s s' c e in
        let (t, rows) = consume_ok x now s s' c e1 in
        let one : some k ≡ some x = sym at ∙ found in
        let same : k ≡ x = ground arith in
        let spent : is_outstanding x ≡ false = subst (λ y. is_outstanding y ≡ false) same h in
        absurd (ground arith)

-- After a QR claim was consumed, whatever claims are issued and consumed, the same claim
-- is refused.
pub consume_login_claim-once :
    (host : Host) (raw : Text) (now now' : ℕ) (s s' : Store) (c : Courier) (calls : List Call)
    → consume_login_claim host raw now s ≡ (some c, s')
    → (consume_login_claim host raw now' (run_all host calls s')).0 ≡ none
consume_login_claim-once host raw now now' s s' c calls e =
    spent_refused host raw now' (run_all host calls s')
      (run_all-IsSpent host (host.sha256 raw) calls s' (consumed-IsSpent host raw now s s' c e))
