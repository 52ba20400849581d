-- ===== src/Couriers/Payments/Tests.antt =====
-- Runs of the payment service, and the theorems at those runs. The digest here is the text itself.
use alpha_pos_local.Base.{
  ◌≤◌, ◌≡◌, ◌↔◌, refl, true, false, Bool, ◌||◌, none, some, List, [], ◌∷◌, err,
}
use alpha_pos_local.Base.Int.{pos}
use alpha_pos_local.Base.Text.{Text, codes, text_eq, strip, lstrip, is_space}
use alpha_pos_local.Base.Digits.{show, show_from}
use alpha_pos_local.Base.Number.{decimal, power_of_ten, upper, upper_char, lower, lower_char}
use alpha_pos_local.Base.Sorting.{insert_by, sort_by}
use alpha_pos_local.Couriers.Payments.Rows.{
  Order, TillRow, Payment, Store, pending, ledger_refused, method_of, int_eq, save_order,
  save_payment, over_capacity,
}
use alpha_pos_local.Couriers.Payments.Evidence.{
  evidence_values, same_evidence, ensure_found, ensure_row, ensure_evidence, add_till, till_sum,
  external_sum, legacy_sum, combine, payment_evidence, check_capacity, Totals,
}
use alpha_pos_local.Couriers.Payments.Header.{
  all_of, header_method, covered, recomputed, write_header, recompute,
}
use alpha_pos_local.Couriers.Payments.Create.{
  Host, absent, given, Ask, coerce_amount, manual_external_id, check_order, same_identity,
  blank_event, event_key, existing_refund, with_evidence, collect, repeat, settle_pending, repeated,
  new_payment, insert, by_key, create_locked, create_payment,
}
use alpha_pos_local.Couriers.Payments.Refund.{ask_ledger, refund_locked, on_payment, refund_payment}
use alpha_pos_local.Couriers.Payments.Gateway.{
  Hook, resolve, confirm, fail, create_for, on_paid, on_refund, on_fail, apply_webhook,
}
use alpha_pos_local.Couriers.Payments.Steps.{Steps}
use alpha_pos_local.Couriers.Payments.Grows.{StaysPaid, Extends}
use alpha_pos_local.Couriers.Payments.Calls.{Call, run, run-Steps, run-StaysPaid, run-Extends}
use alpha_pos_local.Couriers.Payments.Money.{payment_evidence_bound, recompute-paid}

-- What a test has to compute with.
payment_runs : Unit {0}
unfolding text_eq strip lstrip is_space show show_from power_of_ten upper upper_char lower
    lower_char insert_by sort_by method_of int_eq save_order save_payment evidence_values
    same_evidence ensure_found ensure_row ensure_evidence add_till till_sum external_sum legacy_sum
    combine payment_evidence check_capacity all_of header_method covered recomputed write_header
    recompute coerce_amount manual_external_id check_order same_identity blank_event event_key
    existing_refund with_evidence collect repeat settle_pending repeated new_payment insert by_key
    create_locked create_payment ask_ledger refund_locked on_payment refund_payment resolve confirm
    fail create_for on_paid on_refund on_fail apply_webhook
payment_runs = tt

abbrev concrete : Text → Bool
concrete m = text_eq m (codes "CASH") || text_eq m (codes "UZCARD") || text_eq m (codes "PAYME")

abbrev host : Host
host = record {
  is_concrete = concrete;
  sha256 = λ t. t;
  record_refund = λ o p s. err ledger_refused;
}

-- A delivery of 80 000 so'm; a card at the till has paid 30 000 of it.
abbrev delivery : Order
delivery = record {
  pk = 5;
  uuid = codes "d5";
  branch_id = codes "b1";
  is_delivery = true;
  courier_id = some 2;
  total_amount = pos 8_000_000;
  is_paid = false;
  payment_method = none;
  paid_at = none;
  accounting_recorded_at = none;
}

abbrev at_till : TillRow
at_till = record {
  order_id = 5;
  branch_id = codes "b1";
  method = codes "UZCARD";
  amount = pos 3_000_000;
  created_at = 11;
  is_deleted = false;
}

-- A gateway payment of 10 000 that waits for its confirmation.
abbrev waiting : Payment
waiting = record {
  pk = 1;
  order_id = 5;
  courier_id = some 2;
  provider = codes "QR";
  amount = pos 10_000;
  status = pending;
  external_id = codes "g1";
  branch_id = codes "b1";
  created_at = 12;
  paid_at = none;
  refunded_at = none;
}

abbrev store : Store
store = record {
  orders = delivery ∷ [];
  till = at_till ∷ [];
  evidence = [];
  payments = waiting ∷ [];
  refunds = [];
  outbox = [];
}

abbrev door : Ask
door = record {
  courier = some 2;
  order_id = 5;
  seen_total = pos 8_000_000;
  provider = codes " cash";
  amount = given (decimal (pos 40_000) 0);
  external_id = [];
  now = 20;
  fresh_pk = 2;
}

abbrev hook : Hook
hook = record {
  external_id = codes "g1";
  payment_id = none;
  status = codes "PAID ";
  order_id = none;
  provider = codes "QR";
  amount = absent;
  now = 30;
  fresh_pk = 9;
}

-- The courier collects 40 000, and the gateway confirms the other 10 000: then the order is paid.
abbrev collected : Store
collected = run host (Call.creating door) store

abbrev settled : Store
settled = run host (Call.notified hook) collected

abbrev paid_flags : List Order → List Bool
paid_flags [] = []
paid_flags (o ∷ orders) = o.is_paid ∷ paid_flags orders

not_yet : paid_flags collected.orders ≡ false ∷ []
unfolding payment_runs
not_yet = refl

paid_now : paid_flags settled.orders ≡ true ∷ []
unfolding payment_runs
paid_now = refl

-- There is no room for another so'm.
no_room :
    (create_payment host
      (record door { amount = given (decimal (pos 10) 1); external_id = codes "x"; fresh_pk = 3 })
      settled).0
    ≡ err over_capacity
unfolding payment_runs
no_room = refl

run-Steps_example : Steps collected.payments (run host (Call.notified hook) collected).payments
unfolding payment_runs
run-Steps_example = run-Steps host (Call.notified hook) collected (refl, (refl, tt))

run-StaysPaid_example : StaysPaid settled.orders (run host (Call.refunding 5 1 40) settled).orders
unfolding payment_runs
run-StaysPaid_example = run-StaysPaid host (Call.refunding 5 1 40) settled (refl, (refl, tt))

run-Extends_example :
    Extends store.evidence (run host (Call.creating door) store).evidence
    × ((run host (Call.creating door) store).till ≡ store.till)
run-Extends_example = run-Extends host (Call.creating door) store (refl, tt)

abbrev totals : Totals
totals = record {
  due = 8_000_000;
  total = 7_000_000;
  methods = codes "UZCARD" ∷ codes "CASH" ∷ [];
  latest = some 20;
  has_rows = true;
}

payment_evidence_bound_example : (7_000_000 ≤ 8_000_000) × (pos 8_000_000 ≡ pos 8_000_000)
unfolding payment_runs
payment_evidence_bound_example = payment_evidence_bound concrete delivery collected totals refl

recompute-paid_example :
    (delivery.is_paid ≡ true) ↔ ((1 ≤ totals.total) × (totals.total ≡ totals.due))
unfolding payment_runs
recompute-paid_example =
    recompute-paid concrete delivery delivery none 21 collected totals refl refl refl refl
