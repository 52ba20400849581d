-- ===== src/Couriers/Ledger/Snapshot.antt =====
-- The window of a courier's accounts, what happened in it, and its settlement: `unsettled_start`,
-- `reconciliation_snapshot` and `settle` of couriers/services.py.
use alpha_pos_local.Base.{
  ℕ, suc, Bool, true, false, not, ◌&&◌, Option, none, some, List, [], ◌∷◌, ◌++◌, ◌==◌, ltb, any,
  keep, length, map, take, opt_eq, if◌then◌else◌, min,
}
use alpha_pos_local.Base.Int.{ℤ, pos, negsuc, ◌+ℤ◌, ◌-ℤ◌}
use alpha_pos_local.Base.Sums.{sum_of}
use alpha_pos_local.Base.Text.{Text}
use alpha_pos_local.Base.Sorting.{sort_by, head}
use alpha_pos_local.Couriers.Dispatch.Store.{Step, delivered, Assignment}
use alpha_pos_local.Couriers.Payments.Rows.{Payment}
use alpha_pos_local.Couriers.Ledger.Rows.{
  Settlement, Store, whole, within, within?, is_paid_of, is_cash,
}
use alpha_pos_local.Couriers.Ledger.Refunds.{Entry, refund_entries}

abbrev pub is_delivered : Step → Bool
is_delivered delivered = true
is_delivered _ = false

-- The deliveries of a courier in a window.
unfoldable pub deliveries_in : ℕ → (start end : ℕ) → Store → List Assignment
deliveries_in courier start end s =
    keep
      (λ a.
        opt_eq a.courier_id (some courier)
        && is_delivered a.step
        && within? start end a.delivered_at)
      s.assignments

-- The payments of a courier in a window, by tender.
unfoldable pub payments_in : ℕ → (start end : ℕ) → (cash : Bool) → Store → List Payment
payments_in courier start end true s =
    keep (λ p. is_paid_of courier p && within? start end p.paid_at && is_cash p) s.payments
payments_in courier start end false s =
    keep (λ p. is_paid_of courier p && within? start end p.paid_at && not (is_cash p)) s.payments

-- `len(set(...))`
unfoldable pub distinct : List ℕ → ℕ
distinct [] = 0
distinct (k ∷ ks) = let rest = distinct ks in if any (λ j. j == k) ks then rest else suc rest

-- What a window amounts to.
pub record Snapshot : Type 0 where
  pub deliveries : ℕ
  pub cash_collected : ℤ
  pub qr_collected : ℤ
  pub delivery_fees : ℤ
  pub bonuses : ℤ
  pub tips : ℤ
  pub cash_orders : ℕ
  pub qr_orders : ℕ
  pub net_payout : ℤ
  -- The orders with cash in hand, and the cash given back.
  pub held : List (ℕ × ℤ)
  pub period_start : ℕ
  pub period_end : ℕ

abbrev pub cash_of : Entry → ℤ
cash_of e = whole e.cash

abbrev pub noncash_of : Entry → ℤ
noncash_of e = whole (e.card +ℤ e.payme)

unfoldable pub cash_in : ℕ → (start end : ℕ) → Store → ℤ
cash_in courier start end s =
    sum_of (λ p. p.amount) (payments_in courier start end true s)
    -ℤ sum_of cash_of (refund_entries courier (within start end) s)

unfoldable pub noncash_in : ℕ → (start end : ℕ) → Store → ℤ
noncash_in courier start end s =
    sum_of (λ p. p.amount) (payments_in courier start end false s)
    -ℤ sum_of noncash_of (refund_entries courier (within start end) s)

unfoldable pub fees_in : ℕ → (start end : ℕ) → Store → ℤ
fees_in courier start end s = sum_of (λ a. a.fee) (deliveries_in courier start end s)

abbrev is_zero : ℤ → Bool
is_zero z = elim z [ pos n ↦ n == 0 | negsuc n ↦ false ]

unfoldable pub given_back : List Entry → List (ℕ × ℤ)
given_back [] = []
given_back (e ∷ es) =
    let rest = given_back es in
    if is_zero (cash_of e) then rest else (e.refund.order_id, pos 0 -ℤ cash_of e) ∷ rest

-- `reconciliation_snapshot` of a given window
unfoldable pub snapshot : ℕ → (start end : ℕ) → (bonuses tips : ℤ) → Store → Snapshot
snapshot courier start end bonuses tips s = record {
  deliveries = length (deliveries_in courier start end s);
  cash_collected = cash_in courier start end s;
  qr_collected = noncash_in courier start end s;
  delivery_fees = fees_in courier start end s;
  bonuses = bonuses;
  tips = tips;
  cash_orders = distinct (map (λ p. p.order_id) (payments_in courier start end true s));
  qr_orders = distinct (map (λ p. p.order_id) (payments_in courier start end false s));
  net_payout = fees_in courier start end s +ℤ bonuses +ℤ tips;
  held =
      map (λ p. (p.order_id, p.amount)) (payments_in courier start end true s)
      ++ given_back (refund_entries courier (within start end) s);
  period_start = start;
  period_end = end;
}

abbrev pub later_end : Settlement → Settlement → Bool
later_end a b = ltb b.period_end a.period_end

-- `courier.settlements.order_by('-period_end').first()`
unfoldable pub last_settlement : ℕ → List Settlement → Option Settlement
last_settlement courier ss = head (sort_by later_end (keep (λ x. x.courier_id == courier) ss))

-- The earliest of the times.
unfoldable pub earliest : List (Option ℕ) → Option ℕ
earliest [] = none
earliest (none ∷ ts) = earliest ts
earliest (some t ∷ ts) = elim (earliest ts) [ none ↦ some t | some u ↦ some (min t u) ]

abbrev pub first_event : ℕ → Store → Option ℕ
first_event courier s = earliest (
    map (λ p. p.paid_at) (keep (is_paid_of courier) s.payments)
    ++ map (λ a. a.delivered_at)
        (keep (λ a. opt_eq a.courier_id (some courier) && is_delivered a.step) s.assignments))

-- The end of the last settlement, or else the first event, or else midnight.
abbrev pub start_after : Option Settlement → Option ℕ → (midnight : ℕ) → ℕ
start_after (some last) event midnight = last.period_end
start_after none (some t) midnight = t
start_after none none midnight = midnight

-- `unsettled_start`, with the midnight that `_today_start` gives
unfoldable pub unsettled_start : ℕ → (midnight : ℕ) → Store → ℕ
unsettled_start courier midnight s =
    start_after (last_settlement courier s.settlements) (first_event courier s) midnight

unfoldable pub settlement : ℕ → Text → Snapshot → Settlement
settlement courier note n = record {
  courier_id = courier;
  period_start = n.period_start;
  period_end = n.period_end;
  deliveries = n.deliveries;
  cash_collected = n.cash_collected;
  qr_collected = n.qr_collected;
  delivery_fees = n.delivery_fees;
  bonuses = n.bonuses;
  tips = n.tips;
  net_payout = n.net_payout;
  note = take 200 note;
}

-- `settle` at a time
unfoldable pub settle :
    ℕ → (midnight now : ℕ) → (bonuses tips : ℤ) → (note : Text) → Store → Settlement × Store
settle courier midnight now bonuses tips note s =
    let row =
      settlement courier note
        (snapshot courier (unsettled_start courier midnight s) now bonuses tips s) in
    (row, record s { settlements = s.settlements ++ row ∷ [] })
