-- ===== src/Couriers/Ledger/Refunds.antt =====
-- What of a refund is a courier's: `courier_refund_events` and `courier_refund_entries` of
-- couriers/services.py.
use alpha_pos_local.Base.{
  ℕ, Bool, not, ◌&&◌, ◌||◌, Option, none, some, List, [], ◌∷◌, ◌==◌, ltb, leb, any, keep, opt_eq,
  if◌then◌else◌,
}
use alpha_pos_local.Base.Int.{ℤ, pos, ◌+ℤ◌, ◌-ℤ◌, leb_ℤ}
use alpha_pos_local.Base.Sums.{sum_of}
use alpha_pos_local.Base.Text.{Text, codes, text_eq}
use alpha_pos_local.Base.Sorting.{sort_by}
use alpha_pos_local.Couriers.Payments.Rows.{Payment}
use alpha_pos_local.Couriers.Ledger.Rows.{
  Refund, Store, is_courier_payment, is_order_cancel, event_key, hundredths, is_paid_of,
}

abbrev pub min_ℤ : ℤ → ℤ → ℤ
min_ℤ a b = if leb_ℤ a b then a else b

abbrev pub max_ℤ : ℤ → ℤ → ℤ
max_ℤ a b = if leb_ℤ b a then a else b

abbrev is_of : ℕ → Payment → Bool
is_of courier p = opt_eq p.courier_id (some courier)

-- A refund that reverses a payment of the courier, of any status.
unfoldable pub is_relevant : ℕ → List Payment → Refund → Bool
is_relevant courier payments r =
    not r.is_deleted
    && (is_courier_payment r.source
          && any (λ p. is_of courier p && text_eq (event_key p) r.source_id) payments
        || is_order_cancel r.source
          && any (λ p. is_of courier p && p.order_id == r.order_id) payments)

-- `courier_refund_events` of a window, by its test of the time
unfoldable pub refund_events : ℕ → (ℕ → Bool) → Store → List Refund
refund_events courier window s =
    keep (λ r. is_relevant courier s.payments r && window r.accounting_recorded_at) s.refunds

-- The last row of a dictionary that is built from the rows in their order.
unfoldable pub last_of {ℓ} : {A : Type ℓ} → (A → Bool) → List A → Option A
last_of test [] = none
last_of test (x ∷ xs) = elim (last_of test xs) [
  | some y ↦ some y
  | none ↦ if test x then some x else none
]

-- `provider_refunds`: of the refunds of the provider, one by the key of the payment.
unfoldable pub provider_refund : Store → Payment → Option Refund
provider_refund s p =
    last_of
      (λ r. not r.is_deleted && is_courier_payment r.source && text_eq r.source_id (event_key p))
      s.refunds

-- A payment less what its provider had refunded when the order was cancelled.
unfoldable pub remaining : Store → Refund → Payment → ℤ
remaining s r p = elim (provider_refund s p) [
  | none ↦ hundredths p.amount
  | some prior ↦
      if leb prior.accounting_recorded_at r.accounting_recorded_at
      then max_ℤ (hundredths p.amount -ℤ prior.amount) (pos 0)
      else hundredths p.amount
]

-- The courier's payments of an order by a provider.
abbrev pub by_provider : ℕ → ℕ → Text → Payment → Bool
by_provider courier order provider p =
    is_paid_of courier p && p.order_id == order && text_eq p.provider provider

-- One bucket of `outstanding`.
unfoldable pub outstanding : ℕ → Store → Refund → Text → ℤ
outstanding courier s r provider =
    sum_of (remaining s r) (keep (by_provider courier r.order_id provider) s.payments)

-- The courier's part of a refund.
pub record Entry : Type 0 where
  pub refund : Refund
  pub cash : ℤ
  pub card : ℤ
  pub payme : ℤ

-- The tender of the provider's refund is the tender of its payment.
unfoldable pub provider_entry : Refund → Payment → Entry
provider_entry r p =
    if text_eq p.provider (codes "CASH")
    then record { refund = r; cash = r.amount; card = pos 0; payme = pos 0 }
    else if text_eq p.provider (codes "CARD")
    then record { refund = r; cash = pos 0; card = r.amount; payme = pos 0 }
    else record { refund = r; cash = pos 0; card = pos 0; payme = r.amount }

-- A cancellation takes of each tender what is outstanding, at most what the row froze; the cash that
-- came through the till is not the courier's.
unfoldable pub cancel_entry : ℕ → Store → Refund → Entry
cancel_entry courier s r = record {
  refund = r;
  cash =
      min_ℤ (max_ℤ (r.cash_amount -ℤ r.drawer_cash_amount) (pos 0))
        (outstanding courier s r (codes "CASH"));
  card = min_ℤ r.card_amount (outstanding courier s r (codes "CARD"));
  payme = min_ℤ r.payme_amount (outstanding courier s r (codes "QR"));
}

abbrev pub attributed : Entry → Option Entry
attributed e = if leb_ℤ (e.cash +ℤ e.card +ℤ e.payme) (pos 0) then none else some e

-- One round of the loop over the refunds.
unfoldable pub entry_of : ℕ → Store → Refund → Option Entry
entry_of courier s r =
    if is_courier_payment r.source
    then elim (last_of (λ p. is_paid_of courier p && text_eq (event_key p) r.source_id)
        s.payments) [ none ↦ none | some p ↦ attributed (provider_entry r p) ]
    else attributed (cancel_entry courier s r)

abbrev pub refund_before : Refund → Refund → Bool
refund_before a b =
    ltb a.refunded_at b.refunded_at || (a.refunded_at == b.refunded_at && ltb a.pk b.pk)

unfoldable pub entries_of : ℕ → Store → List Refund → List Entry
entries_of courier s [] = []
entries_of courier s (r ∷ rs) =
    let rest = entries_of courier s rs in
    elim (entry_of courier s r) [ none ↦ rest | some e ↦ e ∷ rest ]

-- `courier_refund_entries`
unfoldable pub refund_entries : ℕ → (ℕ → Bool) → Store → List Entry
refund_entries courier window s =
    entries_of courier s (sort_by refund_before (refund_events courier window s))
