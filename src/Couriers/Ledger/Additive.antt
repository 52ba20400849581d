-- ===== src/Couriers/Ledger/Additive.antt =====
-- Adjacent windows of a courier's accounts add up to the window that they make.
use alpha_pos_local.Base.{
  ℕ, ◌+◌, ◌≤◌, ◌≡◌, refl, sym, ◌∙◌, ap, Bool, false, not, ◌&&◌, ◌||◌, Option, none, some, List, [],
  ◌∷◌, arith, opt_eq, keep,
}
use alpha_pos_local.Base.Int.{ℤ, pos, ◌+ℤ◌, ◌-ℤ◌, +ℤ_parts, eq_of_parts}
use alpha_pos_local.Base.Sums.{sum_of, +ℤ-diff, sum-sort_by, Splits, sum-Splits, length-Splits}
use alpha_pos_local.Base.Sorting.{sort_by}
use alpha_pos_local.Couriers.Dispatch.Store.{Assignment}
use alpha_pos_local.Couriers.Payments.Rows.{Payment}
use alpha_pos_local.Couriers.Ledger.Rows.{Refund, Store, within, within?, is_paid_of, is_cash}
use alpha_pos_local.Couriers.Ledger.Refunds.{
  is_relevant, refund_before, refund_events, Entry, entry_of, entries_of, refund_entries,
}
use alpha_pos_local.Couriers.Ledger.Snapshot.{
  is_delivered, deliveries_in, payments_in, cash_of, noncash_of, cash_in, noncash_in, fees_in,
  snapshot,
}

-- What a refund adds to a sum over the entries.
abbrev part : ℕ → Store → (Entry → ℤ) → Refund → ℤ
part courier s f r = elim (entry_of courier s r) [ none ↦ pos 0 | some e ↦ f e ]

add_zero : (z : ℤ) → pos 0 +ℤ z ≡ z
add_zero z = eq_of_parts _ _ (let h = +ℤ_parts (pos 0) z in omega arith)

entries-sum :
    (courier : ℕ) (s : Store) (f : Entry → ℤ) (rs : List Refund)
    → sum_of f (entries_of courier s rs) ≡ sum_of (part courier s f) rs
unfolding sum_of entries_of
entries-sum courier s f [] = refl
entries-sum courier s f (r ∷ rs) = from (entry_of courier s r) (entries-sum courier s f rs)
  where
    from :
        (o : Option Entry)
        → sum_of f (entries_of courier s rs) ≡ sum_of (part courier s f) rs
        → sum_of f (elim o as (λ x. List Entry) [
          | none ↦ entries_of courier s rs
          | some e ↦ e ∷ entries_of courier s rs
        ])
          ≡ (elim o as (λ x. ℤ) [ none ↦ pos 0 | some e ↦ f e ]) +ℤ sum_of (part courier s f) rs
    from none h = h ∙ sym (add_zero (sum_of (part courier s f) rs))
    from (some e) h = ap (λ (z : ℤ). f e +ℤ z) h

module _ (courier : ℕ) (a b c : ℕ) (first : a ≤ b) (second : b ≤ c) (s : Store) where
  within-split :
      (t : ℕ)
      → (within a c t ≡ (within a b t || within b c t)) × ((within a b t && within b c t) ≡ false)
  within-split t = ground arith

  within?-split :
      (t : Option ℕ)
      → (within? a c t ≡ (within? a b t || within? b c t))
        × ((within? a b t && within? b c t) ≡ false)
  within?-split none = (refl, refl)
  within?-split (some t) = within-split t

  -- A test that has a window among its conditions is split with the window.
  conditions :
      (p q w u v : Bool)
      → w ≡ (u || v)
      → (u && v) ≡ false
      → ((p && w && q) ≡ (p && u && q || p && v && q)) × (((p && u && q) && (p && v && q)) ≡ false)
  conditions p q w u v e d = ground arith

  two_conditions :
      (p w u v : Bool)
      → w ≡ (u || v)
      → (u && v) ≡ false
      → ((p && w) ≡ (p && u || p && v)) × (((p && u) && (p && v)) ≡ false)
  two_conditions p w u v e d = ground arith

  cash-split :
      Splits {A = Payment}
        (λ p. is_paid_of courier p && within? a c p.paid_at && is_cash p)
        (λ p. is_paid_of courier p && within? a b p.paid_at && is_cash p)
        (λ p. is_paid_of courier p && within? b c p.paid_at && is_cash p)
  cash-split p =
      conditions (is_paid_of courier p) (is_cash p) _ _ _ ((within?-split p.paid_at).0)
        ((within?-split p.paid_at).1)

  noncash-split :
      Splits {A = Payment}
        (λ p. is_paid_of courier p && within? a c p.paid_at && not (is_cash p))
        (λ p. is_paid_of courier p && within? a b p.paid_at && not (is_cash p))
        (λ p. is_paid_of courier p && within? b c p.paid_at && not (is_cash p))
  noncash-split p =
      conditions (is_paid_of courier p) (not (is_cash p)) _ _ _ ((within?-split p.paid_at).0)
        ((within?-split p.paid_at).1)

  deliveries-split :
      Splits {A = Assignment}
        (λ d.
          opt_eq d.courier_id (some courier) && is_delivered d.step && within? a c d.delivered_at)
        (λ d.
          opt_eq d.courier_id (some courier) && is_delivered d.step && within? a b d.delivered_at)
        (λ d.
          opt_eq d.courier_id (some courier) && is_delivered d.step && within? b c d.delivered_at)
  deliveries-split d =
      three (opt_eq d.courier_id (some courier)) (is_delivered d.step) _ _ _
        ((within?-split d.delivered_at).0) ((within?-split d.delivered_at).1)
    where
      three :
          (p q w u v : Bool)
          → w ≡ (u || v)
          → (u && v) ≡ false
          → ((p && q && w) ≡ (p && q && u || p && q && v))
            × (((p && q && u) && (p && q && v)) ≡ false)
      three p q w u v e d = ground arith

  refunds-split :
      Splits {A = Refund}
        (λ r. is_relevant courier s.payments r && within a c r.accounting_recorded_at)
        (λ r. is_relevant courier s.payments r && within a b r.accounting_recorded_at)
        (λ r. is_relevant courier s.payments r && within b c r.accounting_recorded_at)
  refunds-split r =
      two_conditions (is_relevant courier s.payments r) _ _ _
        ((within-split r.accounting_recorded_at).0) ((within-split r.accounting_recorded_at).1)

  entries-split :
      (f : Entry → ℤ)
      → sum_of f (refund_entries courier (within a c) s)
        ≡ sum_of f (refund_entries courier (within a b) s)
          +ℤ sum_of f (refund_entries courier (within b c) s)
  unfolding refund_entries refund_events
  entries-split f =
      whole (within a c)
      ∙ sum-Splits _ _ _ refunds-split (part courier s f) s.refunds
      ∙ sym (both (whole (within a b)) (whole (within b c)))
    where
      both : {x y z w : ℤ} → x ≡ y → z ≡ w → x +ℤ z ≡ y +ℤ w
      both e d = rw (e, d) refl

      whole :
          (window : ℕ → Bool)
          → sum_of f (entries_of courier s (sort_by refund_before (refund_events courier window s)))
            ≡ sum_of (part courier s f) (
                keep
                  (λ r. is_relevant courier s.payments r && window r.accounting_recorded_at)
                  s.refunds)
      whole window = entries-sum courier s f _ ∙ sum-sort_by (part courier s f) _ _

difference : (x y z u v w : ℤ) → x ≡ y +ℤ z → u ≡ v +ℤ w → x -ℤ u ≡ (y -ℤ v) +ℤ (z -ℤ w)
difference x y z u v w e d = rw (e, d) (+ℤ-diff y z v w)

-- For adjacent windows of the same rows, the deliveries, the cash, the money in other tenders and the
-- delivery fees of the two add up to those of the window that they make.
pub snapshot-additive :
    (courier a b c : ℕ) (bonuses tips : ℤ) (s : Store)
    → a ≤ b
    → b ≤ c
    → ((snapshot courier a c bonuses tips s).deliveries
        ≡ (snapshot courier a b bonuses tips s).deliveries
          + (snapshot courier b c bonuses tips s).deliveries)
      × ((snapshot courier a c bonuses tips s).cash_collected
          ≡ (snapshot courier a b bonuses tips s).cash_collected
            +ℤ (snapshot courier b c bonuses tips s).cash_collected)
      × ((snapshot courier a c bonuses tips s).qr_collected
          ≡ (snapshot courier a b bonuses tips s).qr_collected
            +ℤ (snapshot courier b c bonuses tips s).qr_collected)
      × ((snapshot courier a c bonuses tips s).delivery_fees
          ≡ (snapshot courier a b bonuses tips s).delivery_fees
            +ℤ (snapshot courier b c bonuses tips s).delivery_fees)
unfolding snapshot cash_in noncash_in fees_in payments_in deliveries_in
snapshot-additive courier a b c bonuses tips s first second = (
  length-Splits _ _ _ (deliveries-split courier a b c first second s) s.assignments,
  difference _ _ _ _ _ _
      (sum-Splits _ _ _ (cash-split courier a b c first second s) (λ p. p.amount) s.payments)
      (entries-split courier a b c first second s cash_of),
  difference _ _ _ _ _ _
      (sum-Splits _ _ _ (noncash-split courier a b c first second s) (λ p. p.amount) s.payments)
      (entries-split courier a b c first second s noncash_of),
  sum-Splits _ _ _ (deliveries-split courier a b c first second s) (λ d. d.fee) s.assignments,
)
