-- ===== src/Couriers/Dispatch/Store.antt =====
-- The rows that dispatch reads and writes (couriers/models.py), and what it sends out.
-- A time is a count of microseconds; `None` and the empty text are one branch id, since the
-- source always reads it as `branch_id or ''` or by its truth value.
use alpha_pos_local.Base.{
  ℕ, Bool, true, false, not, ◌&&◌, Option, none, some, List, [], ◌∷◌, ◌==◌, ltb, opt_eq, find, any,
  update_where, if◌then◌else◌,
}
use alpha_pos_local.Base.Int.{ℤ}
use alpha_pos_local.Base.Text.{Text}

-- `DeliveryAssignment.Step`
pub data Step : Type 0 where
  assigned ready picked_up on_way delivered declined : Step

-- `Order.Status`, as far as the code names it.
pub data OrderStatus : Type 0 where
  preparing order_ready canceled completed : OrderStatus
  other_status : Text → OrderStatus

-- `Order.OrderType`
pub data OrderType : Type 0 where
  hall delivery pickup : OrderType

-- The columns of `base.Order` that dispatch uses.
pub record Order : Type 0 where
  pub pk : ℕ
  pub is_deleted : Bool
  pub branch_id : Text
  pub order_type : OrderType
  pub status : OrderStatus
  pub ready_at : Option ℕ
  pub delivery_person_id : Option ℕ

-- `Courier`, with the two columns of its user that dispatch reads.
pub record Courier : Type 0 where
  pub pk : ℕ
  pub branch_id : Text
  pub online : Bool
  pub user_active : Bool
  pub user_deleted : Bool

-- The address snapshot. A coordinate is only copied: it is the float's bit pattern.
pub record Address : Type 0 where
  pub addr_text : Text
  pub addr_landmark : Text
  pub addr_lat : Option ℕ
  pub addr_lng : Option ℕ
  pub distance_km : Option ℕ

-- `DeliveryAssignment`. Its `order` is a OneToOneField, so the order names the row.
pub record Assignment : Type 0 where
  pub order_id : ℕ
  pub courier_id : Option ℕ
  pub step : Step
  pub fee : ℤ
  pub assigned_at : Option ℕ
  pub accepted_at : Option ℕ
  pub ready_at : Option ℕ
  pub picked_at : Option ℕ
  pub delivered_at : Option ℕ
  pub expires_at : Option ℕ
  pub declined_reason : Text
  pub address : Address

-- `_BUSY_ASSIGNMENT_STEPS`
abbrev pub is_busy : Step → Bool
is_busy assigned = true
is_busy ready = true
is_busy picked_up = true
is_busy on_way = true
is_busy _ = false

-- `_PROTECTED_ASSIGNMENT_STEPS`
abbrev pub is_protected : Step → Bool
is_protected picked_up = true
is_protected on_way = true
is_protected delivered = true
is_protected _ = false

abbrev pub is_declined : Step → Bool
is_declined declined = true
is_declined _ = false

abbrev pub is_assigned : Step → Bool
is_assigned assigned = true
is_assigned _ = false

-- A step from which the courier may accept or decline.
abbrev pub is_awaiting : Step → Bool
is_awaiting assigned = true
is_awaiting ready = true
is_awaiting _ = false

-- `DeliveryAssignment.COURIER_SETTABLE`
abbrev pub is_settable : Step → Bool
is_settable picked_up = true
is_settable on_way = true
is_settable delivered = true
is_settable _ = false

-- `FORWARD.index`, which raises for a step that is not on the list.
abbrev pub forward_index : Step → Option ℕ
forward_index assigned = some 0
forward_index ready = some 1
forward_index picked_up = some 2
forward_index on_way = some 3
forward_index delivered = some 4
forward_index declined = none

-- `DeliveryAssignment.can_advance_to`, on the current step.
unfoldable pub can_advance_to : Step → Step → Bool
can_advance_to step target = elim (forward_index target) [
  | none ↦ false
  | some t ↦ elim (forward_index step) [ none ↦ false | some s ↦ ltb s t ]
]

abbrev pub is_delivery : OrderType → Bool
is_delivery delivery = true
is_delivery _ = false

abbrev pub is_order_ready : OrderStatus → Bool
is_order_ready order_ready = true
is_order_ready _ = false

abbrev pub is_canceled : OrderStatus → Bool
is_canceled canceled = true
is_canceled _ = false

abbrev pub is_completed : OrderStatus → Bool
is_completed completed = true
is_completed _ = false

-- What goes out after the commit: the callbacks of `_after_commit`, by their labels, and the
-- bell-feed rows of `notify`, by the event that they tell of. Wording is left out.
pub data Effect : Type 0 where
  reassigned_old_courier : (order courier : ℕ) → Effect
  assigned_courier : (order courier : ℕ) → (fee : ℤ) → Step → Effect
  assigned_cashiers : (branch : Text) (order courier : ℕ) → Step → Effect
  unassigned_courier : (order : ℕ) → Option ℕ → (reason : Text) → Effect
  unassigned_cashiers : (branch : Text) (order : ℕ) → Effect
  accepted_cashiers : (branch : Text) (order : ℕ) → Option ℕ → Step → Effect
  declined_cashiers : (branch : Text) (order : ℕ) → Option ℕ → Effect
  ready_courier : (order : ℕ) → Option ℕ → Effect
  delivered_cashiers : (branch : Text) (order : ℕ) → Option ℕ → (at : ℕ) → Effect
  advanced_courier_status : (branch : Text) (order : ℕ) → Option ℕ → Step → Effect
  notify : Option ℕ → (order : ℕ) → Effect

pub record Store : Type 0 where
  pub orders : List Order
  pub couriers : List Courier
  pub assignments : List Assignment
  pub outbox : List Effect

-- Why a call was refused: `AssignmentConflict`, `DoesNotExist`, or a returned message.
pub data Refusal : Type 0 where
  order_gone courier_gone courier_suspended outside_branch courier_busy : Refusal
  not_delivery order_cancelled other_branch order_completed : Refusal
  protected_step : Step → Refusal
  was_reassigned window_expired not_awaiting : Refusal
  cannot_set : Step → Refusal
  illegal_transition : Step → Step → Refusal

-- `Order.objects.filter(pk=pk, is_deleted=False).first()`
abbrev pub live_order : ℕ → List Order → Option Order
live_order pk = find (λ o. o.pk == pk && not o.is_deleted)

-- `Order.objects.get(pk=pk)`
abbrev pub order_by_pk : ℕ → List Order → Option Order
order_by_pk pk = find (λ o. o.pk == pk)

abbrev pub courier_by_pk : ℕ → List Courier → Option Courier
courier_by_pk pk = find (λ c. c.pk == pk)

-- `DeliveryAssignment.objects.filter(order=order).first()`
abbrev pub for_order : ℕ → Assignment → Bool
for_order order a = a.order_id == order

-- A live delivery of the courier for another order.
abbrev pub busy_elsewhere : ℕ → ℕ → List Assignment → Bool
busy_elsewhere courier order =
    any (λ a. opt_eq a.courier_id (some courier) && is_busy a.step && not (a.order_id == order))

-- `assignment.save()`: a new row goes to the end.
unfoldable pub save_assignment : Assignment → List Assignment → List Assignment
save_assignment a [] = a ∷ []
save_assignment a (r ∷ rs) = if r.order_id == a.order_id then a ∷ rs else r ∷ save_assignment a rs

-- `order.save()`
abbrev pub save_order : Order → List Order → List Order
save_order o = update_where (λ r. r.pk == o.pk) (λ r. o)
