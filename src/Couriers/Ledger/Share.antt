-- ===== src/Couriers/Ledger/Share.antt =====
-- What a cancellation takes from a courier.
use alpha_pos_local.Base.{
  ℕ, ◌≡◌, refl, ◌∙◌, subst, Bool, false, Option, none, some, List, [], ◌∷◌, inl, inr, arith, leb,
  keep, opt_eq, is_some, ◌&&◌, ◌==◌, Bool-cases, Option-cases, if◌then◌else◌, if_cases, All,
  All-map,
}
use alpha_pos_local.Base.Int.{ℤ, pos, ◌+ℤ◌, ◌-ℤ◌, ◌≤ℤ◌, +ℤ_parts, -ℤ_parts, leb_ℤ}
use alpha_pos_local.Base.Text.{Text, codes, text_eq}
use alpha_pos_local.Base.Sums.{sum_of}
use alpha_pos_local.Couriers.Payments.Rows.{Payment, is_settled}
use alpha_pos_local.Couriers.Ledger.Rows.{Refund, Store, hundredths, is_courier_payment}
use alpha_pos_local.Couriers.Ledger.Refunds.{
  min_ℤ, max_ℤ, last_of, attributed, provider_refund, remaining, outstanding, by_provider, Entry,
  cancel_entry, entry_of,
}

-- Payments and refunds are of amounts that are not below zero.
abbrev pub IsSigned : Store → Type 0
IsSigned s =
    All (λ p. pos 0 ≤ℤ hundredths p.amount) s.payments × All (λ r. pos 0 ≤ℤ r.amount) s.refunds

-- A payment that was made to the courier for the order in the tender: one that is paid, or was before
-- it was refunded.
abbrev pub is_collection : (courier order : ℕ) → (provider : Text) → Payment → Bool
is_collection courier order provider p =
    opt_eq p.courier_id (some courier)
    && (p.order_id == order
        && (text_eq p.provider provider && (is_settled p.status && is_some p.paid_at)))

-- What the courier collected for an order in a tender, in hundredths.
unfoldable pub collected : ℕ → Store → ℕ → Text → ℤ
collected courier s order provider =
    sum_of (λ p. hundredths p.amount) (keep (is_collection courier order provider) s.payments)

All-last_of :
    {A : Type 0} (P : A → Type 0) (test : A → Bool) (xs : List A) (a : A)
    → All P xs
    → last_of test xs ≡ some a
    → P a
unfolding last_of
All-last_of P test [] a h e = absurd (ground arith)
All-last_of P test (x ∷ xs) a h e = elim (Option-cases (last_of test xs)) [
  | inr (y, f) ↦ let same : some y ≡ some a = rw f at e in All-last_of P test xs a (h.1) (f ∙ same)
  | inl n ↦ elim (if_cases (test x) (some x) none (rw n at e)) [
    | inl (t, d) ↦ let same : x ≡ a = ground arith in subst P same (h.0)
    | inr (t, d) ↦ absurd (ground arith)
  ]
]

less : (x y : ℤ) → pos 0 ≤ℤ x → pos 0 ≤ℤ y → max_ℤ (x -ℤ y) (pos 0) ≤ℤ x
less x y h k = let p = -ℤ_parts x y in ground arith

-- The lesser of a frozen amount and an outstanding one.
lesser : (x o c : ℤ) → o ≤ℤ c → (min_ℤ x o ≤ℤ c) × (min_ℤ x o ≤ℤ x)
lesser x o c h = (ground arith, ground arith)

≤ℤ-refl : (x : ℤ) → x ≤ℤ x
≤ℤ-refl x = omega arith

-- What is left of a payment is at most the payment.
remaining-le :
    (s : Store) (r : Refund) (p : Payment)
    → IsSigned s
    → pos 0 ≤ℤ hundredths p.amount
    → remaining s r p ≤ℤ hundredths p.amount
unfolding remaining provider_refund
remaining-le s r p signed h =
    from (provider_refund s p)
      (λ prior e. All-last_of (λ r. pos 0 ≤ℤ r.amount) _ s.refunds prior (signed.1) e)
  where
    from :
        (o : Option Refund)
        → ((prior : Refund) → o ≡ some prior → pos 0 ≤ℤ prior.amount)
        → (elim o as (λ x. ℤ) [
          | none ↦ hundredths p.amount
          | some prior ↦
              if leb prior.accounting_recorded_at r.accounting_recorded_at
              then max_ℤ (hundredths p.amount -ℤ prior.amount) (pos 0)
              else hundredths p.amount
        ])
          ≤ℤ hundredths p.amount
    from none f = ≤ℤ-refl (hundredths p.amount)
    from (some prior) f =
        elim (Bool-cases (leb prior.accounting_recorded_at r.accounting_recorded_at)) [
          | inl t ↦ rw t (less (hundredths p.amount) prior.amount h (f prior refl))
          | inr u ↦ rw u (≤ℤ-refl (hundredths p.amount))
        ]

sum-mono :
    (f g : Payment → ℤ) (test own : Payment → Bool) (xs : List Payment)
    → ((p : Payment) → test p ≡ own p)
    → All (λ p. f p ≤ℤ g p) xs
    → sum_of f (keep test xs) ≤ℤ sum_of g (keep own xs)
unfolding sum_of
sum-mono f g test own [] same h = omega arith
sum-mono f g test own (x ∷ xs) same h = elim (Bool-cases (own x)) [
  | inr u ↦ rw (same x, u) (sum-mono f g test own xs same (h.1))
  | inl t ↦
      let rest = sum-mono f g test own xs same (h.1) in
      let here = h.0 in
      let a = +ℤ_parts (f x) (sum_of f (keep test xs)) in
      let b = +ℤ_parts (g x) (sum_of g (keep own xs)) in rw (same x, t) (omega arith)
]

by_provider-is_collection :
    (courier order : ℕ) (provider : Text) (p : Payment)
    → by_provider courier order provider p ≡ is_collection courier order provider p
by_provider-is_collection courier order provider p = ground arith

outstanding-le :
    (courier : ℕ) (s : Store) (r : Refund) (provider : Text)
    → IsSigned s
    → outstanding courier s r provider ≤ℤ collected courier s r.order_id provider
unfolding outstanding collected
outstanding-le courier s r provider signed =
    sum-mono (remaining s r) (λ p. hundredths p.amount) (by_provider courier r.order_id provider)
      (is_collection courier r.order_id provider) s.payments
      (by_provider-is_collection courier r.order_id provider)
      (All-map (λ p. pos 0 ≤ℤ hundredths p.amount) (λ p. remaining s r p ≤ℤ hundredths p.amount)
        s.payments (λ p. remaining-le s r p signed) (signed.0))

cancel_entry_bounds :
    (courier : ℕ) (s : Store) (r : Refund)
    → IsSigned s
    → ((cancel_entry courier s r).cash ≤ℤ collected courier s r.order_id (codes "CASH"))
      × ((cancel_entry courier s r).card ≤ℤ collected courier s r.order_id (codes "CARD"))
      × ((cancel_entry courier s r).payme ≤ℤ collected courier s r.order_id (codes "QR"))
      × ((cancel_entry courier s r).cash ≤ℤ max_ℤ (r.cash_amount -ℤ r.drawer_cash_amount) (pos 0))
      × ((cancel_entry courier s r).card ≤ℤ r.card_amount)
      × ((cancel_entry courier s r).payme ≤ℤ r.payme_amount)
unfolding cancel_entry
cancel_entry_bounds courier s r signed =
    let till = max_ℤ (r.cash_amount -ℤ r.drawer_cash_amount) (pos 0) in
    let cash = bounds till (codes "CASH") in
    let card = bounds r.card_amount (codes "CARD") in
    let payme = bounds r.payme_amount (codes "QR") in
    (cash.0, card.0, payme.0, cash.1, card.1, payme.1)
  where
    bounds :
        (x : ℤ) (t : Text)
        → (min_ℤ x (outstanding courier s r t) ≤ℤ collected courier s r.order_id t)
          × (min_ℤ x (outstanding courier s r t) ≤ℤ x)
    bounds x t =
        lesser x (outstanding courier s r t) (collected courier s r.order_id t)
          (outstanding-le courier s r t signed)

attributed_same : (e d : Entry) → attributed e ≡ some d → e ≡ d
attributed_same e d h =
    elim (if_cases (leb_ℤ (e.cash +ℤ e.card +ℤ e.payme) (pos 0)) none (some e) h) [
      | inl (t, f) ↦ absurd (ground arith)
      | inr (t, f) ↦ ground arith
    ]

-- A cancellation takes from a courier, of each tender, at most what the courier collected for the order
-- in that tender, and at most what the cancellation froze of it: of the cash, what did not come
-- through the till. This holds where payments and refunds are of amounts that are not below zero.
pub cancel_bounds :
    (courier : ℕ) (s : Store) (r : Refund) (e : Entry)
    → IsSigned s
    → is_courier_payment r.source ≡ false
    → entry_of courier s r ≡ some e
    → (e.cash ≤ℤ collected courier s r.order_id (codes "CASH"))
      × (e.card ≤ℤ collected courier s r.order_id (codes "CARD"))
      × (e.payme ≤ℤ collected courier s r.order_id (codes "QR"))
      × (e.cash ≤ℤ max_ℤ (r.cash_amount -ℤ r.drawer_cash_amount) (pos 0))
      × (e.card ≤ℤ r.card_amount)
      × (e.payme ≤ℤ r.payme_amount)
unfolding entry_of
cancel_bounds courier s r e signed other found =
    let same = attributed_same (cancel_entry courier s r) e (rw other at found) in
    subst
      (λ (x : Entry).
        (x.cash ≤ℤ collected courier s r.order_id (codes "CASH"))
        × (x.card ≤ℤ collected courier s r.order_id (codes "CARD"))
        × (x.payme ≤ℤ collected courier s r.order_id (codes "QR"))
        × (x.cash ≤ℤ max_ℤ (r.cash_amount -ℤ r.drawer_cash_amount) (pos 0))
        × (x.card ≤ℤ r.card_amount)
        × (x.payme ≤ℤ r.payme_amount))
      same (cancel_entry_bounds courier s r signed)
