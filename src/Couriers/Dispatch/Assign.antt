-- ===== src/Couriers/Dispatch/Assign.antt =====
-- `assign` and `unassign` of couriers/services.py. A refusal rolls the transaction back, so it
-- carries no store.
use alpha_pos_local.Base.{
  ℕ, ◌+◌, ◌*◌, Bool, true, false, not, ◌&&◌, ◌||◌, Option, none, some, List, [], ◌∷◌, ◌++◌, Outcome,
  ok, ◌>>=◌, ◌>>◌, or_raise, raise_if, opt_eq, is_some, take, find, if◌then◌else◌,
}
use alpha_pos_local.Base.Text.{Text, codes, text_eq, is_blank, strip}
use alpha_pos_local.Base.Int.{ℤ}
use alpha_pos_local.Couriers.Dispatch.Progress.{ready_bridge}
use alpha_pos_local.Couriers.Dispatch.Store.{
  assigned, ready, declined, Order, Courier, Address, Assignment, is_protected, is_declined,
  is_delivery, is_order_ready, is_canceled, is_completed, Effect, Store, Refusal, order_gone,
  courier_gone, courier_suspended, outside_branch, courier_busy, not_delivery, order_cancelled,
  other_branch, order_completed, protected_step, live_order, courier_by_pk, for_order,
  busy_elsewhere, save_assignment, save_order,
}

-- `actor_branch` and `actor_is_global`: a call from the code itself is not scoped.
pub data Scope : Type 0 where
  unscoped : Scope
  scoped : (branch : Text) (is_global : Bool) → Scope

-- The branch that a scoped actor may act on; `none` lets everything through.
abbrev pub allowed_branch : Scope → Option Text
allowed_branch unscoped = none
allowed_branch (scoped branch true) = none
allowed_branch (scoped branch false) = some (strip branch)

-- A branch that is not the allowed one; no actor without a branch is let through.
abbrev pub branch_denied : Text → Text → Bool
branch_denied allowed branch = is_blank allowed || not (text_eq (strip branch) allowed)

unfoldable pub assign_denied : Scope → Order → Courier → Bool
assign_denied scope order courier = elim (allowed_branch scope) [
  | none ↦ false
  | some allowed ↦ branch_denied allowed order.branch_id || branch_denied allowed courier.branch_id
]

unfoldable pub unassign_denied : Scope → Order → Bool
unassign_denied scope order = elim (allowed_branch scope) [
  | none ↦ false
  | some allowed ↦ branch_denied allowed order.branch_id
]

-- `ACCEPT_WINDOW_SECONDS`, in microseconds.
abbrev pub accept_window : ℕ
accept_window = 20 * 1_000_000

-- The arguments of `assign` beside the order and the courier.
pub record Terms : Type 0 where
  pub fee : ℤ
  pub address : Address

-- A stale `delivery_person` is removed under the order's lock.
unfoldable pub clear_delivery_person : Order → Store → Store
clear_delivery_person order s =
    if is_some order.delivery_person_id
    then record s { orders = save_order (record order { delivery_person_id = none }) s.orders }
    else s

-- The row's courier is the one that is asked for, and the row is live: an exact retry.
abbrev pub is_retry : Option Assignment → ℕ → Bool
is_retry none courier = false
is_retry (some a) courier = not (is_declined a.step) && opt_eq a.courier_id (some courier)

abbrev pub protected_row : Option Assignment → Outcome Refusal (Unit {0})
protected_row none = ok tt
protected_row (some a) = raise_if (is_protected a.step) (protected_step a.step)

-- The courier who loses the order, if the row was live and had another one.
abbrev pub previous_courier : Option Assignment → ℕ → Option ℕ
previous_courier none courier = none
previous_courier (some a) courier =
    if not (is_declined a.step) && not (opt_eq a.courier_id (some courier))
    then a.courier_id
    else none

-- Every column of the row is written anew.
unfoldable pub new_row : Order → Courier → Terms → ℕ → Assignment
new_row order courier terms now =
    let starts_ready = is_order_ready order.status in
    record {
      order_id = order.pk;
      courier_id = some courier.pk;
      step = if starts_ready then ready else assigned;
      fee = terms.fee;
      assigned_at = some now;
      accepted_at = none;
      ready_at =
          if starts_ready then elim order.ready_at [ none ↦ some now | some t ↦ some t ] else none;
      picked_at = none;
      delivered_at = none;
      expires_at = some (now + accept_window);
      declined_reason = [];
      address = terms.address;
    }

abbrev pub reassigned_effects : ℕ → Option ℕ → List Effect
reassigned_effects order none = []
reassigned_effects order (some old) =
    Effect.reassigned_old_courier order old ∷ Effect.notify (some old) order ∷ []

abbrev pub assigned_effects : Order → Assignment → ℕ → List Effect
assigned_effects order row courier =
    Effect.assigned_courier order.pk courier row.fee row.step
    ∷ Effect.assigned_cashiers order.branch_id order.pk courier row.step
    ∷ Effect.notify (some courier) order.pk
    ∷ []

-- The checks of `assign` on the locked rows, in their order.
unfoldable pub check_assign : Scope → Order → Courier → List Assignment → Outcome Refusal (Unit {0})
check_assign scope order courier rows = do
  raise_if (not courier.user_active || courier.user_deleted) courier_suspended
  raise_if (assign_denied scope order courier) outside_branch
  raise_if (busy_elsewhere courier.pk order.pk rows) courier_busy
  raise_if (not (is_delivery order.order_type)) not_delivery
  raise_if (is_canceled order.status) order_cancelled
  raise_if
      (not (is_blank order.branch_id)
        && not (is_blank courier.branch_id)
        && not (text_eq order.branch_id courier.branch_id))
      other_branch

-- The write of a new or moved assignment.
unfoldable pub write_row : Order → Courier → Option Assignment → Assignment → Store → Store
write_row order courier existing row s =
    let s' =
      clear_delivery_person order (record s { assignments = save_assignment row s.assignments }) in
    record s' {
      outbox =
          s.outbox
          ++ (reassigned_effects order.pk (previous_courier existing courier.pk)
              ++ assigned_effects order row courier.pk);
    }

-- An exact retry. Saving the order runs the receiver `_order_ready_bridge` of couriers/signals.py.
unfoldable pub retry : Order → ℕ → Store → Store
retry order now s =
    if is_some order.delivery_person_id
    then ready_bridge order now (clear_delivery_person order s)
    else s

-- What follows the checks: an exact retry, or the new row. (There the receiver finds nothing to do
-- when the order is saved: the row is READY if the order is.)
unfoldable pub place :
    Order
    → Courier
    → Option Assignment
    → Terms
    → ℕ
    → Store
    → Outcome Refusal (Option Assignment × Store)
place order courier existing terms now s =
    let row = new_row order courier terms now in
    if is_retry existing courier.pk then ok (existing, retry order now s) else (do
      raise_if (is_completed order.status) order_completed
      protected_row existing
      ok (some row, write_row order courier existing row s))

unfoldable pub assign :
    (order courier : ℕ)
    → Terms
    → Scope
    → (now : ℕ) → Store
    → Outcome Refusal (Option Assignment × Store)
assign order_pk courier_pk terms scope now s = do
  order ← or_raise (live_order order_pk s.orders) order_gone
  courier ← or_raise (courier_by_pk courier_pk s.couriers) courier_gone
  check_assign scope order courier s.assignments
  place order courier (find (for_order order.pk) s.assignments) terms now s

abbrev pub or_default : Text → Text → Text
or_default [] d = d
or_default (c ∷ s) d = c ∷ s

-- A cleared row keeps its courier as evidence.
unfoldable pub cleared_row : Assignment → Text → Assignment
cleared_row a reason = record a {
  step = declined;
  declined_reason = take 200 (or_default reason (codes "Unassigned"));
  accepted_at = none;
  expires_at = none;
}

unfoldable pub clear :
    Order → Text → Store → Option Assignment → Outcome Refusal (Option Assignment × Store)
unfolding cleared_row
clear order reason s none = ok (none, s)
clear order reason s (some a) =
    let row = cleared_row a reason in
    if is_declined a.step then ok (some a, s) else (do
      raise_if (is_protected a.step) (protected_step a.step)
      ok (
        some row,
        record s {
          assignments = save_assignment row s.assignments;
          outbox =
              s.outbox
              ++ (Effect.unassigned_courier order.pk a.courier_id row.declined_reason
                  ∷ Effect.unassigned_cashiers order.branch_id order.pk
                  ∷ Effect.notify a.courier_id order.pk
                  ∷ []);
        },
      ))

unfoldable pub unassign :
    (order : ℕ) (reason : Text) → Scope → Store → Outcome Refusal (Option Assignment × Store)
unfolding unassign_denied clear
unassign order_pk reason scope s = do
  order ← or_raise (live_order order_pk s.orders) order_gone
  raise_if (unassign_denied scope order) outside_branch
  clear order reason s (find (for_order order.pk) s.assignments)
