-- ===== src/Couriers/Dispatch/Tests.antt =====
-- Runs of dispatch on a small table, and the theorems at those runs.
use alpha_pos_local.Base.{
  ℕ, zero, suc, ◌<◌, Option, All, true, false, ◌≡◌, ◌≢◌, refl, none, some, List, [], ◌∷◌, arith,
  find, ok, err,
}
use alpha_pos_local.Base.Int.{pos}
use alpha_pos_local.Base.Text.{Text, codes, text_eq, strip, lstrip, is_space}
use alpha_pos_local.Couriers.Dispatch.Store.{
  picked_up, delivered, preparing, order_ready, completed, delivery, Order, Courier, Assignment,
  Store, is_busy, can_advance_to, for_order, order_by_pk, save_assignment, was_reassigned,
}
use alpha_pos_local.Couriers.Dispatch.Assign.{
  unscoped, scoped, Terms, assign, check_assign, assign_denied, place, retry, new_row, write_row,
  clear_delivery_person, unassign, unassign_denied, clear, cleared_row,
}
use alpha_pos_local.Couriers.Dispatch.Progress.{
  Handle, reload, accept, decline, mark_ready, ready_bridge, ready_row, advance_status,
  advanced_row, close_order,
}
use alpha_pos_local.Base.Sorting.{insert_by, sort_by}
use alpha_pos_local.Couriers.Dispatch.Pick.{busy_in, is_candidate, Round, next_candidate, pick}
use alpha_pos_local.Couriers.Dispatch.Picked.{IsFree, pick_ends}
use alpha_pos_local.Couriers.Dispatch.Exclusive.{live_courier}
use alpha_pos_local.Couriers.Dispatch.Calls.{Call, run, run_all}
use alpha_pos_local.Couriers.Dispatch.Invariants.{run_all-one_delivery, run_all-delivered}
use alpha_pos_local.Couriers.Dispatch.Retry.{assign-assign, assign-stale}
use alpha_pos_local.Couriers.Dispatch.Delivery.{advance_status-delivered}

-- What a test has to compute with.
dispatch_runs : Unit {0}
unfolding run_all run assign check_assign assign_denied place retry ready_bridge new_row write_row
    clear_delivery_person save_assignment accept decline reload mark_ready ready_row advance_status
    advanced_row close_order can_advance_to unassign unassign_denied clear cleared_row text_eq strip
    lstrip is_space busy_in is_candidate next_candidate pick insert_by sort_by
dispatch_runs = tt

abbrev north : Text
north = codes "north"

abbrev first_order : Order
first_order = record {
  pk = 1;
  is_deleted = false;
  branch_id = north;
  order_type = delivery;
  status = preparing;
  ready_at = none;
  delivery_person_id = some 5;
}

abbrev second_order : Order
second_order = record first_order { pk = 2; status = order_ready; delivery_person_id = none }

abbrev rider : Courier
rider = record {
  pk = 7;
  branch_id = north;
  online = true;
  user_active = true;
  user_deleted = false;
}

abbrev other_rider : Courier
other_rider = record rider { pk = 8 }

abbrev terms : Terms
terms = record {
  fee = pos 9000;
  address = record {
    addr_text = [];
    addr_landmark = [];
    addr_lat = none;
    addr_lng = none;
    distance_km = none;
  };
}

abbrev start : Store
start = record {
  orders = first_order ∷ second_order ∷ [];
  couriers = rider ∷ other_rider ∷ [];
  assignments = [];
  outbox = [];
}

abbrev rider_on_first : Handle
rider_on_first = record { order_id = 1; courier_id = some 7 }

-- A rider takes the first order and sets off; another takes the second.
abbrev morning : List Call
morning =
    Call.assigning 1 7 terms unscoped 100
    ∷ Call.assigning 2 7 terms unscoped 110
    ∷ Call.accepting rider_on_first 120 121
    ∷ Call.assigning 2 8 terms unscoped 130
    ∷ Call.kitchen_ready 1 140
    ∷ Call.advancing rider_on_first picked_up 150
    ∷ Call.unassigning 1 [] unscoped
    ∷ []

abbrev all_day : List Call
all_day = Call.advancing rider_on_first delivered 200 ∷ Call.assigning 1 8 terms unscoped 210 ∷ []

-- The rows of the two orders after the morning.
abbrev first_row : Assignment
first_row = record (new_row first_order rider terms 100) {
  step = picked_up;
  accepted_at = some 121;
  ready_at = some 140;
  picked_at = some 150;
}

abbrev delivered_row : Assignment
delivered_row = record first_row { step = delivered; delivered_at = some 200 }

morning_rows :
    (run_all morning start).assignments
    ≡ first_row ∷ new_row second_order other_rider terms 130 ∷ []
unfolding dispatch_runs
morning_rows = refl

run_all-one_delivery_example : live_courier (new_row second_order other_rider terms 130) ≢ some 7
unfolding dispatch_runs live_courier
run_all-one_delivery_example =
    run_all-one_delivery morning start tt 1 2 7 first_row
      (new_row second_order other_rider terms 130) (omega arith) refl refl refl

run_all-delivered_example :
    find (for_order 1) (run_all morning (run_all all_day (run_all morning start))).assignments
    ≡ some delivered_row
unfolding dispatch_runs
run_all-delivered_example =
    run_all-delivered morning (run_all all_day (run_all morning start)) 1 delivered_row refl refl

-- The store after the first order was given to the rider.
abbrev taken : Store
taken = write_row first_order rider none (new_row first_order rider terms 100) start

assign-assign_example :
    assign 1 7 (record terms { fee = pos 1 }) (scoped north false) 900 taken
    ≡ ok (some (new_row first_order rider terms 100), taken)
unfolding dispatch_runs
assign-assign_example =
    assign-assign 1 7 terms (record terms { fee = pos 1 }) (scoped north false) 100 900 start taken
      (some (new_row first_order rider terms 100)) refl

assign-stale_example :
    (accept (record rider_on_first { courier_id = some 8 }) 120 121 taken ≡ err was_reassigned)
    × (decline (record rider_on_first { courier_id = some 8 }) [] taken ≡ err was_reassigned)
    × (advance_status (record rider_on_first { courier_id = some 8 }) picked_up 120 taken
        ≡ err was_reassigned)
unfolding dispatch_runs
assign-stale_example =
    assign-stale 1 7 terms unscoped 100 start taken (some (new_row first_order rider terms 100))
      refl (record rider_on_first { courier_id = some 8 }) refl (ground arith) 120 121 [] picked_up
      refl

advance_status-delivered_example :
    (a : Assignment) × (o : Order) × (find (for_order 1) (run_all morning start).assignments
      ≡ some a)
    × (a.courier_id ≡ some 7)
    × (is_busy a.step ≡ true)
    × (find
          (for_order 1)
          (run (Call.advancing rider_on_first delivered 200) (run_all morning start)).assignments
        ≡ some (record a { step = delivered; delivered_at = some 200 }))
    × (order_by_pk 1
          (run (Call.advancing rider_on_first delivered 200) (run_all morning start)).orders
        ≡ some o)
    × (o.status ≡ completed)
unfolding dispatch_runs
advance_status-delivered_example =
    advance_status-delivered rider_on_first 200 (run_all morning start)
      (run (Call.advancing rider_on_first delivered 200) (run_all morning start)) refl

-- Two rounds: rider 7 gets a delivery before its row is locked, then rider 8 is free.
abbrev taken_round : Round
taken_round = record {
  couriers = other_rider ∷ rider ∷ [];
  rows = [];
  locked = λ c. false;
  rechecked = first_row ∷ [];
}

abbrev free_round : Round
free_round = record taken_round { rows = first_row ∷ [] }

abbrev two_rounds : ℕ → Round
two_rounds zero = taken_round
two_rounds (suc i) = free_round

picked_second : pick 10 (some (codes " north ")) two_rounds [] ≡ some (some other_rider)
unfolding dispatch_runs
picked_second = refl

pick_ends_example :
    (o : Option Courier) × (pick 10 (some north) two_rounds [] ≡ some o)
    × IsFree (some north) two_rounds o
pick_ends_example = pick_ends 9 (some north) two_rounds (λ i. below i)
  where
    below : (i : ℕ) → All (λ c. c.pk < 9) (two_rounds i).couriers
    below zero = (omega arith, (omega arith, tt))
    below (suc i) = (omega arith, (omega arith, tt))
