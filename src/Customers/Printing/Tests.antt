-- ===== src/Customers/Printing/Tests.antt =====
-- Runs of the print queue, and the theorems at those runs. The digest here is the text itself.
use alpha_pos_local.Base.{
  ℕ, ◌+◌, true, false, ◌≡◌, refl, inr, none, some, List, [], ◌∷◌, arith, find, ok,
}
use alpha_pos_local.Base.Text.{codes, text_eq, strip, lstrip, is_space}
use alpha_pos_local.Base.Sorting.{insert_by, sort_by}
use alpha_pos_local.Base.Digits.{show_money}
use alpha_pos_local.Customers.Printing.Jobs.{
  Item, Order, printed, claimed, Job, Store, lease_duration, settle_duration, gross, evidence,
  fingerprint, is_open, for_order, order_is, ordered_at, before_by_order, save_job,
}
use alpha_pos_local.Customers.Printing.Queue.{
  Host, Clock, new_job, create_jobs, materialize, refresh_job, refresh_all, refresh, is_own_claim,
  is_available, leased, lease_next, claim_from, claim_next, printed_job, acknowledge, released_job,
  release_failed,
}
use alpha_pos_local.Customers.Printing.Passes.{PassesOver, claim_next-passes}
use alpha_pos_local.Customers.Printing.Granted.{Granted, claim_next-Granted}
use alpha_pos_local.Customers.Printing.Printed.{
  Call, run, run_all, run_all-printed, acknowledge-acknowledge,
}

-- What a test has to compute with.
queue_runs : Unit {0}
unfolding insert_by sort_by show_money lease_duration settle_duration gross evidence fingerprint
    is_open order_is ordered_at before_by_order save_job new_job create_jobs materialize refresh_job
    refresh_all refresh is_own_claim is_available leased lease_next claim_from claim_next
    printed_job acknowledge released_job release_failed run run_all text_eq strip lstrip is_space
queue_runs = tt

abbrev host : Host
host = record { sha256 = λ t. t; lease_seconds = none; settle_microseconds = none }

abbrev clock : ℕ → Clock
clock t = record { start = t; policy = t + 1; materialize = t + 2; claim = t + 3 }

abbrev plov : Item
plov = record {
  uuid = codes "a1";
  sync_version = 3;
  quantity = 2;
  price = 4_500_000;
  is_deleted = false;
}

abbrev lunch : Order
lunch = record {
  pk = 40;
  is_telegram = true;
  is_deleted = false;
  is_canceled = false;
  created_at = 5;
  subtotal = 9_000_000;
  items = plov ∷ [];
}

abbrev store : Store
store = record { orders = lunch ∷ []; jobs = []; activated_at = some 0 }

-- The first poll makes the job, and a poll after the two seconds leases it.
abbrev polls : List Call
polls =
    Call.claiming (clock 100) 71 (codes "till") (λ j. false)
    ∷ Call.claiming (clock 3_000_000) 72 (codes "till") (λ j. false)
    ∷ []

abbrev lunch_job : Job
lunch_job = record {
  order_id = 40;
  state = claimed;
  claim_token = some 72;
  claimed_session_hash = codes "till";
  claimed_at = some 3_000_003;
  lease_expires_at = some 183_000_003;
  attempt_count = 1;
  materialization_fingerprint = codes "subtotal=90000.00|a1:3:2:45000.00";
  eligible_at = some 2_000_102;
  last_error = [];
  printed_at = none;
}

polls_lease : (run_all host polls store).jobs ≡ lunch_job ∷ []
unfolding queue_runs
polls_lease = refl

abbrev after_polls : Store
after_polls = record store { jobs = lunch_job ∷ [] }

-- Another till is passed over while the lease runs.
claim_next-passes_example :
    PassesOver 40 lunch_job
      (claim_next host (clock 4_000_000) 73 (codes "bar") (λ j. false) after_polls)
unfolding queue_runs
claim_next-passes_example =
    claim_next-passes host (clock 4_000_000) 73 (codes "bar") (λ j. false) after_polls 40 lunch_job
      (tt, tt) refl refl refl (inr (ground arith))

claim_next-Granted_example :
    Granted
      (codes "till")
      3_500_003
      (claim_next host (clock 3_500_000) 74 (codes "till") (λ j. false) after_polls)
claim_next-Granted_example =
    claim_next-Granted host (clock 3_500_000) 74 (codes "till") (λ j. false) after_polls (tt, tt)

abbrev printed_lunch : Job
printed_lunch = record lunch_job {
  state = printed;
  printed_at = some 4_000_000;
  lease_expires_at = none;
}

abbrev after_print : Store
after_print = record store { jobs = printed_lunch ∷ [] }

run_all-printed_example :
    find (for_order 40) (run_all host polls (record store { jobs = printed_lunch ∷ [] })).jobs
    ≡ some printed_lunch
run_all-printed_example =
    run_all-printed host polls (record store { jobs = printed_lunch ∷ [] }) 40 printed_lunch
      (tt, tt) refl refl

acknowledge-acknowledge_example :
    acknowledge host 72 (codes "till") 5_000_000 after_print ≡ ok (printed_lunch, true, after_print)
unfolding queue_runs
acknowledge-acknowledge_example =
    acknowledge-acknowledge host 72 (codes "till") 4_000_000 5_000_000 after_polls after_print
      printed_lunch false (tt, tt) refl
