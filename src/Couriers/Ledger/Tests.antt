-- ===== src/Couriers/Ledger/Tests.antt =====
-- Runs of a courier's accounts, and the theorems at those runs.
use alpha_pos_local.Base.{ℕ, ◌+◌, ◌≡◌, refl, false, none, some, [], ◌∷◌, arith}
use alpha_pos_local.Base.Int.{pos, ◌+ℤ◌, ◌-ℤ◌, ◌≤ℤ◌}
use alpha_pos_local.Base.Text.{Text, codes, text_eq}
use alpha_pos_local.Base.Sorting.{insert_by, sort_by}
use alpha_pos_local.Base.Digits.{show, show_from}
use alpha_pos_local.Base.Sums.{sum_of}
use alpha_pos_local.Couriers.Dispatch.Store.{Assignment, delivered, Address}
use alpha_pos_local.Couriers.Payments.Rows.{Payment, paid}
use alpha_pos_local.Couriers.Ledger.Rows.{
  Refund, courier_payment, order_cancel, Store, event_key, hundredths, whole,
}
use alpha_pos_local.Couriers.Ledger.Refunds.{
  max_ℤ, is_relevant, refund_events, last_of, provider_refund, remaining, outstanding, Entry,
  provider_entry, cancel_entry, entry_of, entries_of, refund_entries,
}
use alpha_pos_local.Couriers.Ledger.Snapshot.{
  deliveries_in, payments_in, distinct, cash_in, noncash_in, fees_in, given_back, snapshot,
  last_settlement, earliest, unsettled_start, settlement, settle,
}
use alpha_pos_local.Couriers.Ledger.Additive.{snapshot-additive}
use alpha_pos_local.Couriers.Ledger.Settled.{settle-start}
use alpha_pos_local.Couriers.Ledger.Share.{collected, cancel_bounds}

-- What a test has to compute with.
ledger_runs : Unit {0}
unfolding text_eq insert_by sort_by show show_from sum_of event_key hundredths whole is_relevant
    refund_events last_of provider_refund remaining outstanding provider_entry cancel_entry entry_of
    entries_of refund_entries deliveries_in payments_in distinct cash_in noncash_in fees_in
    given_back snapshot last_settlement earliest unsettled_start settlement settle collected ◌+ℤ◌
    ◌-ℤ◌
ledger_runs = tt

abbrev payment_of : (k order : ℕ) → Text → ℕ → (at : ℕ) → Payment
payment_of k order provider amount at = record {
  pk = k;
  order_id = order;
  courier_id = some 7;
  provider = provider;
  amount = pos amount;
  status = paid;
  external_id = [];
  branch_id = codes "north";
  created_at = at;
  paid_at = some at;
  refunded_at = none;
}

abbrev nowhere : Address
nowhere = record {
  addr_text = [];
  addr_landmark = [];
  addr_lat = none;
  addr_lng = none;
  distance_km = none;
}

abbrev delivery_of : (order : ℕ) → (at : ℕ) → Assignment
delivery_of order at = record {
  order_id = order;
  courier_id = some 7;
  step = delivered;
  fee = pos 9000;
  assigned_at = none;
  accepted_at = none;
  ready_at = none;
  picked_at = none;
  delivered_at = some at;
  expires_at = none;
  declined_reason = [];
  address = nowhere;
}

-- The cancellation of order 1, of which 20 000 so'm in cash came through the till.
abbrev cancelled : Refund
cancelled = record {
  pk = 1;
  source = order_cancel;
  source_id = [];
  order_id = 1;
  amount = pos 7_000_000;
  cash_amount = pos 7_000_000;
  drawer_cash_amount = pos 2_000_000;
  card_amount = pos 0;
  payme_amount = pos 0;
  refunded_at = 130;
  accounting_recorded_at = 130;
  is_deleted = false;
}

-- The provider gave the card payment of order 2 back.
abbrev card_back : Refund
card_back = record cancelled {
  pk = 2;
  source = courier_payment;
  source_id = codes "legacy-payment:12";
  order_id = 2;
  amount = pos 3_000_000;
  cash_amount = pos 0;
  drawer_cash_amount = pos 0;
  refunded_at = 140;
  accounting_recorded_at = 140;
}

abbrev day : Store
day = record {
  payments =
      payment_of 11 1 (codes "CASH") 50_000 110
      ∷ payment_of 12 2 (codes "CARD") 30_000 115
      ∷ payment_of 13 3 (codes "CASH") 40_000 135
      ∷ [];
  assignments = delivery_of 1 111 ∷ delivery_of 2 116 ∷ delivery_of 3 136 ∷ [];
  refunds = cancelled ∷ card_back ∷ [];
  settlements = [];
}

-- All three payments, less both refunds.
whole_day : (snapshot 7 100 200 (pos 0) (pos 500) day).cash_collected ≡ pos 40_000
unfolding ledger_runs
whole_day = refl

whole_day_cards : (snapshot 7 100 200 (pos 0) (pos 500) day).qr_collected ≡ pos 0
unfolding ledger_runs
whole_day_cards = refl

whole_day_held :
    (snapshot 7 100 200 (pos 0) (pos 500) day).held
    ≡ (1, pos 50_000) ∷ (3, pos 40_000) ∷ (1, pos 0 -ℤ pos 50_000) ∷ []
unfolding ledger_runs
whole_day_held = refl

-- The account starts with the first payment.
starts : unsettled_start 7 90 day ≡ 110
unfolding ledger_runs
starts = refl

settled_noon : (settle 7 90 120 (pos 0) (pos 0) [] day).0.cash_collected ≡ pos 50_000
unfolding ledger_runs
settled_noon = refl

snapshot-additive_example :
    ((snapshot 7 100 200 (pos 0) (pos 0) day).deliveries
      ≡ (snapshot 7 100 120 (pos 0) (pos 0) day).deliveries
        + (snapshot 7 120 200 (pos 0) (pos 0) day).deliveries)
    × ((snapshot 7 100 200 (pos 0) (pos 0) day).cash_collected
        ≡ (snapshot 7 100 120 (pos 0) (pos 0) day).cash_collected
          +ℤ (snapshot 7 120 200 (pos 0) (pos 0) day).cash_collected)
    × ((snapshot 7 100 200 (pos 0) (pos 0) day).qr_collected
        ≡ (snapshot 7 100 120 (pos 0) (pos 0) day).qr_collected
          +ℤ (snapshot 7 120 200 (pos 0) (pos 0) day).qr_collected)
    × ((snapshot 7 100 200 (pos 0) (pos 0) day).delivery_fees
        ≡ (snapshot 7 100 120 (pos 0) (pos 0) day).delivery_fees
          +ℤ (snapshot 7 120 200 (pos 0) (pos 0) day).delivery_fees)
snapshot-additive_example =
    snapshot-additive 7 100 120 200 (pos 0) (pos 0) day (omega arith) (omega arith)

settle-start_example :
    ((settle 7 90 120 (pos 0) (pos 0) [] day).0.period_start ≡ unsettled_start 7 90 day)
    × ((settle 7 90 120 (pos 0) (pos 0) [] day).0.period_end ≡ 120)
    × (unsettled_start 7 300 ((settle 7 90 120 (pos 0) (pos 0) [] day).1) ≡ 120)
settle-start_example = settle-start 7 90 300 120 (pos 0) (pos 0) [] day tt

abbrev share : Entry
share = record { refund = cancelled; cash = pos 5_000_000; card = pos 0; payme = pos 0 }

cancel_bounds_example :
    (share.cash ≤ℤ collected 7 day 1 (codes "CASH"))
    × (share.card ≤ℤ collected 7 day 1 (codes "CARD"))
    × (share.payme ≤ℤ collected 7 day 1 (codes "QR"))
    × (share.cash ≤ℤ max_ℤ (cancelled.cash_amount -ℤ cancelled.drawer_cash_amount) (pos 0))
    × (share.card ≤ℤ cancelled.card_amount)
    × (share.payme ≤ℤ cancelled.payme_amount)
unfolding ledger_runs
cancel_bounds_example =
    cancel_bounds 7 day cancelled share
      ((omega arith, (omega arith, (omega arith, tt))), (omega arith, (omega arith, tt))) refl refl
