-- ===== src/Couriers/Dispatch/Progress.antt =====
-- `accept`, `decline`, `mark_ready` and `advance_status` of couriers/services.py.
use alpha_pos_local.Base.{
  ℕ, Bool, true, false, not, ◌&&◌, Option, none, some, List, [], ◌∷◌, ◌++◌, Outcome, ok, ◌>>=◌,
  ◌>>◌, or_raise, raise_if, ltb, opt_eq, is_some, take, find, if◌then◌else◌,
}
use alpha_pos_local.Base.Text.{Text}
use alpha_pos_local.Couriers.Dispatch.Store.{
  Step, ready, picked_up, delivered, declined, completed, Order, Assignment, is_settable,
  is_assigned, is_awaiting, is_completed, can_advance_to, Effect, Store, Refusal, order_gone,
  courier_gone, was_reassigned, window_expired, not_awaiting, cannot_set, illegal_transition,
  is_order_ready, live_order, order_by_pk, courier_by_pk, for_order, save_assignment, save_order,
}

-- The assignment that a view handed over: the courier it showed, and the order that names the row.
pub record Handle : Type 0 where
  pub order_id : ℕ
  pub courier_id : Option ℕ

-- The order and the row under their locks, if the row still has the courier of the handle.
unfoldable pub reload : Handle → Store → Outcome Refusal (Order × Assignment)
reload h s = do
  order ← or_raise (order_by_pk h.order_id s.orders) order_gone
  a ← or_raise (find (for_order h.order_id) s.assignments) was_reassigned
  raise_if (not (opt_eq a.courier_id h.courier_id)) was_reassigned
  ok (order, a)

abbrev pub is_past : Option ℕ → ℕ → Bool
is_past none now = false
is_past (some t) now = ltb t now

abbrev pub write : Assignment → List Effect → Store → Store
write a effects s = record s {
  assignments = save_assignment a s.assignments;
  outbox = s.outbox ++ effects;
}

-- The clock is read twice: for the window, and for the stamp.
unfoldable pub accept : Handle → (now later : ℕ) → Store → Outcome Refusal Store
unfolding reload
accept h now later s = do
  (order, a) ← reload h s
  raise_if (is_past a.expires_at now) window_expired
  raise_if (not (is_awaiting a.step)) not_awaiting
  ok (
      write (record a { accepted_at = some later })
        (Effect.accepted_cashiers order.branch_id a.order_id a.courier_id a.step ∷ []) s)

unfoldable pub decline : Handle → (reason : Text) → Store → Outcome Refusal Store
unfolding reload
decline h reason s = do
  (order, a) ← reload h s
  raise_if (not (is_awaiting a.step)) not_awaiting
  ok (
      write (record a { step = declined; declined_reason = take 200 reason })
        (Effect.declined_cashiers order.branch_id a.order_id a.courier_id ∷ []) s)

abbrev pub or_now : Option ℕ → ℕ → Option ℕ
or_now none now = some now
or_now (some t) now = some t

unfoldable pub ready_row : Order → ℕ → Store → Option Assignment → Store
ready_row order now s none = s
ready_row order now s (some a) =
    if is_assigned a.step
    then write (record a { step = ready; ready_at = or_now order.ready_at now })
        (Effect.ready_courier order.pk a.courier_id ∷ Effect.notify a.courier_id order.pk ∷ []) s
    else s

-- Returns nothing, and does nothing where there is nothing to mark.
unfoldable pub mark_ready : (order now : ℕ) → Store → Store
unfolding ready_row
mark_ready order_pk now s = elim (live_order order_pk s.orders) [
  | none ↦ s
  | some order ↦ ready_row order now s (find (for_order order.pk) s.assignments)
]

-- The receiver `_order_ready_bridge` of couriers/signals.py, after an order was saved.
unfoldable pub ready_bridge : Order → ℕ → Store → Store
ready_bridge order now s = if is_order_ready order.status then mark_ready order.pk now s else s

abbrev pub is_delivered : Step → Bool
is_delivered delivered = true
is_delivered _ = false

abbrev pub is_picked_up : Step → Bool
is_picked_up picked_up = true
is_picked_up _ = false

-- `lock_courier_accounting`: `.get(pk=...)` raises where the courier's row is gone.
abbrev pub lock_courier : Option ℕ → Store → Outcome Refusal (Unit {0})
lock_courier none s = ok tt
lock_courier (some c) s = raise_if (not (is_some (courier_by_pk c s.couriers))) courier_gone

-- The step, and the time stamp that `_STEP_TS` names for it.
unfoldable pub advanced_row : Assignment → Step → ℕ → Assignment
advanced_row a target now = record a {
  step = target;
  picked_at = if is_picked_up target then some now else a.picked_at;
  delivered_at = if is_delivered target then some now else a.delivered_at;
}

-- A delivered order is closed, so that it syncs back as completed. Saving it runs the receiver
-- `_clear_conflicting_legacy_courier` of couriers/signals.py, which clears a stale `delivery_person`,
-- since the row is live.
unfoldable pub close_order : Step → Order → List Order → List Order
close_order target order orders =
    if is_delivered target && not (is_completed order.status)
    then save_order (record order { status = completed; delivery_person_id = none }) orders
    else orders

abbrev pub advance_effects : Order → Assignment → Step → ℕ → List Effect
advance_effects order a target now =
    (if is_delivered target
      then Effect.delivered_cashiers order.branch_id order.pk a.courier_id now ∷ []
      else [])
    ++ Effect.advanced_courier_status order.branch_id order.pk a.courier_id target ∷ []

unfoldable pub advance_status : Handle → (target : Step) (now : ℕ) → Store → Outcome Refusal Store
unfolding can_advance_to reload advanced_row close_order
advance_status h target now s = do
  raise_if (not (is_settable target)) (cannot_set target)
  (order, a) ← reload h s
  raise_if (not (can_advance_to a.step target)) (illegal_transition a.step target)
  (if is_delivered target then lock_courier a.courier_id s else ok tt)
  ok (
      let s' = write (advanced_row a target now) (advance_effects order a target now) s in
      record s' { orders = close_order target order s.orders })
