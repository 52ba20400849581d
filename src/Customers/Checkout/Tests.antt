-- ===== src/Customers/Checkout/Tests.antt =====
-- Runs of the checkout, and the theorems at those runs.
use alpha_pos_local.Base.{
  ◌+◌, ◌*◌, ◌≤◌, ◌-◌, ◌%◌, ◌<◌, Option, false, ◌≡◌, refl, Bool, ◌||◌, none, some, List, [], ◌∷◌, ok,
  err, find,
}
use alpha_pos_local.Base.Int.{pos, ◌+ℤ◌, ◌-ℤ◌}
use alpha_pos_local.Base.Text.{Text, codes, text_eq, strip, lstrip, is_space}
use alpha_pos_local.Base.Sorting.{insert_by, sort_by}
use alpha_pos_local.Base.Number.{decimal, upper, upper_char, power_of_ten}
use alpha_pos_local.Customers.Checkout.Request.{
  object, unset, items, Request, structured, Contract, Tender, retry_conflict, hundredths, percent,
  legacy_method, line, read_lines, add_total, totals_from, largest, dominant_of,
  dominant_payment_method, check_hint, kind_of, normalize,
}
use alpha_pos_local.Customers.Checkout.Orders.{
  Order, Shift, Store, cashier, owns, stored_tenders, find_settlement_shift, success_data,
  tenders_eq, whole_tender, tenders_match, request_matches, save_order, Receipt, order_is,
}
use alpha_pos_local.Customers.Checkout.Pay.{
  Host, Call, effective_total, sum_of, cash_sum, tender_lines, all_of, header_method, line_rows,
  discounted, paid_order, deposit, persist, bill, book, settle, replay, mark_as_paid,
}
use alpha_pos_local.Customers.Checkout.Frozen.{after, run_all, SameSale, run_all-SameSale}
use alpha_pos_local.Customers.Checkout.Balance.{
  Balanced, Kept, mark_as_paid-Balanced, mark_as_paid-Kept, drawer,
}
use alpha_pos_local.Customers.Checkout.Replay.{again, mark_as_paid-again}
use alpha_pos_local.Customers.Checkout.Dominant.{
  collected, dominant_payment_method-collected, effective_total_bounds,
}

-- What a test has to compute with.
checkout_runs : Unit {0}
unfolding upper_char upper power_of_ten hundredths percent legacy_method line read_lines add_total
    totals_from largest dominant_of dominant_payment_method check_hint kind_of normalize owns
    stored_tenders find_settlement_shift success_data tenders_eq whole_tender tenders_match
    request_matches save_order effective_total sum_of cash_sum tender_lines all_of header_method
    line_rows discounted paid_order deposit persist bill book settle replay mark_as_paid run_all
    text_eq strip lstrip is_space insert_by sort_by drawer collected ◌+ℤ◌ ◌-ℤ◌
checkout_runs = tt

abbrev valid_method : Text → Bool
valid_method m = text_eq m (codes "CASH") || text_eq m (codes "UZCARD") || text_eq m (codes "MIXED")

abbrev morning : Shift
morning = record {
  pk = 3;
  user_id = 7;
  branch_id = codes "b1";
  start_time = 10;
  end_time = none;
  is_deleted = false;
}

abbrev host : Host
host = record {
  is_choice = valid_method;
  active_shift = λ s user branch. some morning;
  stock_refuses = λ s o. false;
}

-- A table's order of 100 000 so'm, opened by a waiter.
abbrev table : Order
table = record {
  pk = 12;
  user_id = some 4;
  cashier_id = none;
  branch_id = codes "b1";
  is_canceled = false;
  is_paid = false;
  payment_action_id = none;
  payment_method = none;
  paid_at = none;
  accounting_recorded_at = none;
  discount_percent = 0;
  discount_amount = pos 0;
  total_amount = pos 10_000_000;
}

abbrev till : Store
till = record { orders = table ∷ []; lines = []; shifts = morning ∷ []; outbox = [] }

-- Card and cash, with ten percent off; the cash gives change.
abbrev split : Request
split = record {
  payment_method = some (codes "cash");
  payments = items (
      object (codes "UZCARD") (decimal (pos 40_000) 0)
      ∷ object (codes "cash ") (decimal (pos 600_000) 1)
      ∷ []);
  discount_percent = decimal (pos 10) 0;
}

abbrev paying : Call
paying = record {
  order_id = 12;
  actor = record { cashier_id = some 7; user_id = some 7; role = cashier };
  request = split;
  action_id = some 900;
  now = 50;
  fresh_action = 1;
}

abbrev both : List Tender
both = (codes "UZCARD", 4_000_000) ∷ (codes "CASH", 6_000_000) ∷ []

abbrev done : Receipt × Store
done = elim (mark_as_paid host paying till) [
  | ok x ↦ x
  | err e ↦ (success_data till table none, till)
]

went_through : mark_as_paid host paying till ≡ ok done
unfolding checkout_runs
went_through = refl

-- The drawer gets 50 000 of the 90 000: the card paid the rest.
drawer_example : drawer ((done.1).outbox) ≡ 5_000_000
unfolding checkout_runs
drawer_example = refl

mark_as_paid-Balanced_example : Balanced host paying table till (done.1)
unfolding checkout_runs
mark_as_paid-Balanced_example =
    mark_as_paid-Balanced host paying table till (done.1) (done.0) refl refl went_through

mark_as_paid-Kept_example :
    (p : Order) × (find (order_is 12) (done.1).orders ≡ some p) × Kept paying table p
unfolding checkout_runs
mark_as_paid-Kept_example =
    mark_as_paid-Kept host paying table till (done.1) (done.0) refl refl went_through

mark_as_paid-again_example :
    (shift : Option Shift) × (mark_as_paid host (again paying 80 2) (done.1)
      ≡ ok (record (done.0) { shift = shift }, (done.1)))
unfolding checkout_runs
mark_as_paid-again_example =
    mark_as_paid-again host paying 900 100_000 80 2 table till (done.1) (done.0) refl refl refl refl
      refl refl went_through

-- The repeat, another action, and a request that does not match.
abbrev later : List Call
later =
    again paying 80 2
    ∷ record paying { action_id = some 901 }
    ∷ record paying { request = record split { discount_percent = decimal (pos 5) 0 } }
    ∷ []

run_all-SameSale_example : SameSale 12 (done.1) (run_all host later (done.1))
unfolding checkout_runs
run_all-SameSale_example =
    let (p, at, kept) =
      mark_as_paid-Kept host paying table till (done.1) (done.0) refl refl went_through in
    run_all-SameSale host later 12 (done.1) (p, at, kept.is_paid)

dominant_payment_method-collected_example :
    collected (codes "UZCARD") both ≤ collected (codes "CASH") both
unfolding checkout_runs
dominant_payment_method-collected_example =
    dominant_payment_method-collected (codes "UZCARD") (codes "CASH") both refl

effective_total_bounds_example :
    (effective_total 10_050 1_000 % 100 ≡ 0)
    × (effective_total 10_050 1_000 * 10_000 ≤ 10_050 * (10_000 - 1_000) + 500_000)
    × (10_050 * (10_000 - 1_000) < effective_total 10_050 1_000 * 10_000 + 500_000)
    × (effective_total (7 * 100) 0 ≡ 7 * 100)
    × (effective_total 10_050 10_000 ≡ 0)
effective_total_bounds_example = effective_total_bounds 10_050 1_000 7

abbrev split_contract : Contract
split_contract = record { kind = structured both; discount_percent = 1_000 }

-- A total of 100.40 so'm without a discount is collected as 100 so'm, and the repeat of its exact
-- request is then refused: the row keeps the total of 100.40.
abbrev fraction : Store
fraction = record till { orders = record table { total_amount = pos 10_040 } ∷ [] }

abbrev whole_cash : Call
whole_cash = record paying {
  request = record {
    payment_method = some (codes "CASH");
    payments = unset;
    discount_percent = decimal (pos 0) 0;
  };
}

fraction_refused :
    (mark_as_paid host
      (again whole_cash 80 2)
      (after (mark_as_paid host whole_cash fraction) fraction))
    ≡ err retry_conflict
unfolding checkout_runs
fraction_refused = refl
