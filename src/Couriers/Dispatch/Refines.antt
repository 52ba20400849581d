-- ===== src/Couriers/Dispatch/Refines.antt =====
-- Every operation of dispatch changes the table as the life of an assignment allows.
use alpha_pos_local.Base.{
  ℕ, true, false, not, ◌≡◌, refl, subst, is_some, inl, inr, Option, none, some, arith, ok, bind_ok,
  guard_ok, or_raise, take, find, Bool-cases, Option-cases,
}
use alpha_pos_local.Base.Text.{Text}
use alpha_pos_local.Couriers.Dispatch.Store.{
  Step, declined, ready, Order, Courier, Assignment, is_settable, is_assigned, is_awaiting,
  is_declined, is_order_ready, live_order, courier_by_pk, can_advance_to, cannot_set, order_gone,
  courier_gone, outside_branch, Store, for_order, busy_elsewhere, save_assignment,
}
use alpha_pos_local.Couriers.Dispatch.Lifecycle.{
  accepted, withdrawn, cooked, advanced, is_free, Change, kept, evolved, placed,
}
use alpha_pos_local.Couriers.Dispatch.Assign.{
  Scope, Terms, assign, check_assign, retry, place, new_row, is_retry, write_row,
  clear_delivery_person, unassign, unassign_denied, clear, cleared_row,
}
use alpha_pos_local.Couriers.Dispatch.Progress.{
  Handle, reload, accept, decline, mark_ready, ready_bridge, or_now, ready_row, advance_status,
  advanced_row,
}

reload_ok :
    (h : Handle) (s : Store) (o : Order) (a : Assignment)
    → reload h s ≡ ok (o, a)
    → (find (for_order h.order_id) s.assignments ≡ some a) × (a.courier_id ≡ h.courier_id)
unfolding reload
reload_ok h s o a e = ground arith

pub accept-Change :
    (h : Handle) (now later : ℕ) (s s' : Store)
    → accept h now later s ≡ ok s'
    → Change s.assignments s'.assignments
unfolding accept
accept-Change h now later s s' e =
    let ((o, a), loaded, e1) = bind_ok (reload h s) _ e in
    let a' : Assignment = record a { accepted_at = some later } in
    let facts : (is_awaiting a.step ≡ true) × (s'.assignments ≡ save_assignment a' s.assignments) =
      ground arith in
    evolved h.order_id a a' (reload_ok h s o a loaded).0
      (record { same_order = refl; same_courier = refl; follows = accepted facts.0 refl }) facts.1

pub decline-Change :
    (h : Handle) (reason : Text) (s s' : Store)
    → decline h reason s ≡ ok s'
    → Change s.assignments s'.assignments
unfolding decline
decline-Change h reason s s' e =
    let ((o, a), loaded, e1) = bind_ok (reload h s) _ e in
    let a' : Assignment = record a { step = declined; declined_reason = take 200 reason } in
    let facts : (is_awaiting a.step ≡ true) × (s'.assignments ≡ save_assignment a' s.assignments) =
      ground arith in
    evolved h.order_id a a' (reload_ok h s o a loaded).0
      (record { same_order = refl; same_courier = refl; follows = withdrawn facts.0 refl }) facts.1

pub advance_status-Change :
    (h : Handle) (target : Step) (now : ℕ) (s s' : Store)
    → advance_status h target now s ≡ ok s'
    → Change s.assignments s'.assignments
unfolding advance_status
advance_status-Change h target now s s' e =
    let (settable, e0) = guard_ok (not (is_settable target)) (cannot_set target) _ e in
    let ((o, a), loaded, e1) = bind_ok (reload h s) _ e0 in
    let a' : Assignment = advanced_row a target now in
    let facts : (can_advance_to a.step target ≡ true)
        × (s'.assignments ≡ save_assignment a' s.assignments) =
      ground arith in
    evolved h.order_id a a' (reload_ok h s o a loaded).0
      (record { same_order = refl; same_courier = refl; follows = advanced (ground arith) facts.0 })
      facts.1

ready_row-Change :
    (order : Order) (now : ℕ) (s : Store) (o : ℕ) (existing : Option Assignment)
    → find (for_order o) s.assignments ≡ existing
    → Change s.assignments (ready_row order now s existing).assignments
unfolding ready_row
ready_row-Change order now s o none e = kept refl
ready_row-Change order now s o (some a) e = elim (Bool-cases (is_assigned a.step)) [
  | inl waits ↦
      let a' : Assignment = record a { step = ready; ready_at = or_now order.ready_at now } in
      rw waits (
        evolved o a a' e
          (record { same_order = refl; same_courier = refl; follows = cooked waits refl }) refl)
  | inr other ↦ rw other (kept refl)
]

pub mark_ready-Change :
    (order now : ℕ) (s : Store) → Change s.assignments (mark_ready order now s).assignments
unfolding mark_ready
mark_ready-Change order now s = elim (Option-cases (live_order order s.orders)) [
  | inl gone ↦ rw (gone, mark_ready) (kept refl)
  | inr (o, found) ↦
      rw (found, mark_ready)
        (ready_row-Change o now s o.pk (find (for_order o.pk) s.assignments) refl)
]

clear-Change :
    (order : Order) (reason : Text) (s s' : Store) (existing r : Option Assignment)
    → find (for_order order.pk) s.assignments ≡ existing
    → clear order reason s existing ≡ ok (r, s')
    → Change s.assignments s'.assignments
unfolding clear
clear-Change order reason s s' none r f e = kept (ground arith)
clear-Change order reason s s' (some a) r f e = elim (Bool-cases (is_declined a.step)) [
  | inl old ↦ kept (ground arith)
  | inr live ↦
      let a' : Assignment = cleared_row a reason in
      let facts : (is_awaiting a.step ≡ true)
          × (s'.assignments ≡ save_assignment a' s.assignments) =
        ground arith in
      evolved order.pk a a' f
        (record { same_order = refl; same_courier = refl; follows = withdrawn facts.0 refl })
        facts.1
]

pub unassign-Change :
    (order : ℕ) (reason : Text) (scope : Scope) (s s' : Store) (r : Option Assignment)
    → unassign order reason scope s ≡ ok (r, s')
    → Change s.assignments s'.assignments
unfolding unassign
unassign-Change order reason scope s s' r e =
    let (o, _, e1) = bind_ok (or_raise (live_order order s.orders) order_gone) _ e in
    let (_, e2) = guard_ok (unassign_denied scope o) outside_branch _ e1 in
    clear-Change o reason s s' (find (for_order o.pk) s.assignments) r refl e2

-- The row that `assign` writes belongs to the courier, and waits.
pub new_row_awaits :
    (order : Order) (courier : Courier) (terms : Terms) (now : ℕ)
    → is_awaiting (new_row order courier terms now).step ≡ true
unfolding new_row
new_row_awaits order courier terms now = ground arith

pub clear_delivery_person_rows :
    (order : Order) (s : Store) → (clear_delivery_person order s).assignments ≡ s.assignments
unfolding clear_delivery_person
clear_delivery_person_rows order s = ground arith

pub write_row_rows :
    (order : Order) (courier : Courier) (existing : Option Assignment) (row : Assignment)
    (s : Store)
    → (write_row order courier existing row s).assignments ≡ save_assignment row s.assignments
unfolding write_row
write_row_rows order courier existing row s = rw (
    clear_delivery_person_rows order (record s { assignments = save_assignment row s.assignments }))

bridge-Change :
    (order : Order) (now : ℕ) (s : Store)
    → Change s.assignments (ready_bridge order now s).assignments
unfolding ready_bridge
bridge-Change order now s = elim (Bool-cases (is_order_ready order.status)) [
  | inl cooked_now ↦ rw cooked_now (mark_ready-Change order.pk now s)
  | inr waiting ↦ rw waiting (kept refl)
]

pub retry-Change :
    (order : Order) (now : ℕ) (s : Store) → Change s.assignments (retry order now s).assignments
unfolding retry
retry-Change order now s = elim (Bool-cases (is_some order.delivery_person_id)) [
  | inl stale ↦ rw stale (
      subst
        (λ rows. Change rows (ready_bridge order now (clear_delivery_person order s)).assignments)
        (clear_delivery_person_rows order s)
        (bridge-Change order now (clear_delivery_person order s)))
  | inr clean ↦ rw clean (kept refl)
]

place-Change :
    (order : Order) (courier : Courier) (terms : Terms) (now : ℕ) (s s' : Store)
    (existing r : Option Assignment)
    → find (for_order order.pk) s.assignments ≡ existing
    → busy_elsewhere courier.pk order.pk s.assignments ≡ false
    → place order courier existing terms now s ≡ ok (r, s')
    → Change s.assignments s'.assignments
unfolding place
place-Change order courier terms now s s' existing r f free e =
    elim (Bool-cases (is_retry existing courier.pk)) [
      | inl again ↦
          let same : s' ≡ retry order now s = ground arith in rw same (retry-Change order now s)
      | inr moved ↦
          let row : Assignment = new_row order courier terms now in
          let facts : (is_free existing ≡ true) × (s' ≡ write_row order courier existing row s) =
            ground arith in
          placed courier.pk row (unfold new_row in refl) (new_row_awaits order courier terms now)
            (unfold new_row in rw f facts.0) (unfold new_row in free) (rw (facts.1, write_row_rows))
    ]

pub assign-Change :
    (order courier : ℕ) (terms : Terms) (scope : Scope) (now : ℕ) (s s' : Store)
    (r : Option Assignment)
    → assign order courier terms scope now s ≡ ok (r, s')
    → Change s.assignments s'.assignments
unfolding assign check_assign
assign-Change order courier terms scope now s s' r e =
    let (o, _, e1) = bind_ok (or_raise (live_order order s.orders) order_gone) _ e in
    let (c, _, e2) = bind_ok (or_raise (courier_by_pk courier s.couriers) courier_gone) _ e1 in
    let (_, checked, e3) = bind_ok (check_assign scope o c s.assignments) _ e2 in
    place-Change o c terms now s s' (find (for_order o.pk) s.assignments) r refl (ground arith) e3
