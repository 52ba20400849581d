-- ===== src/Couriers/Dispatch/Assigned.antt =====
-- An assignment that went through, taken apart: what it found, and the table it leaves.
use alpha_pos_local.Base.{
  ℕ, true, false, not, ◌&&◌, ◌≡◌, refl, sym, subst, ap, ◌∙◌, inl, inr, Option, none, some, List, [],
  ◌∷◌, arith, ◌==◌, ==_iff, is_some, find, find_sound, Bool-cases, Option-cases, if◌then◌else◌, ok,
  bind_ok, or_raise, or_raise_ok,
}
use alpha_pos_local.Couriers.Dispatch.Store.{
  ready, is_assigned, is_order_ready, Order, Courier, Assignment, for_order, busy_elsewhere,
  live_order, courier_by_pk, Store, save_assignment, save_order, order_gone, courier_gone,
}
use alpha_pos_local.Couriers.Dispatch.Assign.{
  Scope, Terms, assign, check_assign, retry, place, new_row, is_retry, write_row,
  clear_delivery_person,
}
use alpha_pos_local.Couriers.Dispatch.Progress.{mark_ready, ready_bridge, ready_row, or_now}
use alpha_pos_local.Couriers.Dispatch.Lifecycle.{find-save}
use alpha_pos_local.Couriers.Dispatch.Refines.{clear_delivery_person_rows, write_row_rows}

-- A saved order is what a query for it then finds.
live_order-save :
    (pk : ℕ) (o o' : Order) (rows : List Order)
    → live_order pk rows ≡ some o
    → o'.pk ≡ o.pk
    → o'.is_deleted ≡ o.is_deleted
    → live_order pk (save_order o' rows) ≡ some o'
live_order-save pk o o' [] f e d = absurd (ground arith)
live_order-save pk o o' (r ∷ rows) f e d =
    let (same, live) : (o.pk ≡ pk) × (o.is_deleted ≡ false) =
      ground (arith, find_sound (λ q. q.pk == pk && not q.is_deleted) (r ∷ rows) o f) in
    elim (Bool-cases (r.pk == o'.pk)) [
      | inl hit ↦ rw hit (ground arith)
      | inr miss ↦
          let f' : live_order pk rows ≡ some o = ground arith in
          rw miss (ground (arith, live_order-save pk o o' rows f' e d))
    ]

busy_elsewhere-save :
    (c o : ℕ) (a : Assignment) (rows : List Assignment)
    → a.order_id ≡ o
    → busy_elsewhere c o rows ≡ false
    → busy_elsewhere c o (save_assignment a rows) ≡ false
unfolding save_assignment
busy_elsewhere-save c o a [] e h = ground arith
busy_elsewhere-save c o a (r ∷ rows) e h = elim (Bool-cases (r.order_id == a.order_id)) [
  | inl hit ↦ rw hit (ground arith)
  | inr miss ↦
      let rest : busy_elsewhere c o (save_assignment a rows) ≡ false =
        busy_elsewhere-save c o a rows e (ground arith) in
      rw (miss, rest) (ground arith)
]

-- An order whose stale `delivery_person` is gone.
abbrev pub cleared : Order → Order
cleared o = record o { delivery_person_id = none }

pub clear_idle :
    (o : Order) (s : Store) → o.delivery_person_id ≡ none → clear_delivery_person o s ≡ s
unfolding clear_delivery_person
clear_idle o s gone = ground arith

clear_busy :
    (o : Order) (s : Store) (d : ℕ)
    → o.delivery_person_id ≡ some d
    → clear_delivery_person o s ≡ record s { orders = save_order (cleared o) s.orders }
unfolding clear_delivery_person
clear_busy o s d there = ground arith

cleared_idle : (o : Order) → o.delivery_person_id ≡ none → cleared o ≡ o
cleared_idle o gone = λ i. record o { delivery_person_id = sym gone i }

clear_couriers : (o : Order) (s : Store) → (clear_delivery_person o s).couriers ≡ s.couriers
unfolding clear_delivery_person
clear_couriers o s = ground arith

idle_person : (o : Order) → o.delivery_person_id ≡ none → is_some o.delivery_person_id ≡ false
idle_person o e = ground arith

stale_person :
    (o : Order) (d : ℕ) → o.delivery_person_id ≡ some d → is_some o.delivery_person_id ≡ true
stale_person o d e = ground arith

live_order-clear :
    (pk : ℕ) (o : Order) (s : Store)
    → live_order pk s.orders ≡ some o
    → live_order pk (clear_delivery_person o s).orders ≡ some (cleared o)
live_order-clear pk o s f = elim (Option-cases o.delivery_person_id) [
  | inl gone ↦ rw (clear_idle o s gone) (f ∙ ap some (sym (cleared_idle o gone)))
  | inr (d, there) ↦
      rw (clear_busy o s d there) (live_order-save pk o (cleared o) s.orders f refl refl)
]

-- What an `assign` that went through has found and done.
pub record Assigned (o c : ℕ) (scope : Scope) (s s' : Store) (r : Option Assignment) (order : Order)
    (courier : Courier) : Type 0 where
  pub the_order : live_order o s.orders ≡ some order
  pub the_courier : courier_by_pk c s.couriers ≡ some courier
  pub checked : check_assign scope order courier s.assignments ≡ ok tt
  pub still_there : courier_by_pk c s'.couriers ≡ some courier
  pub order_cleared : live_order o s'.orders ≡ some (cleared order)
  pub is_theirs : is_retry (find (for_order order.pk) s'.assignments) courier.pk ≡ true
  pub still_free : busy_elsewhere courier.pk order.pk s'.assignments ≡ false

pub check_free :
    (scope : Scope) (order : Order) (courier : Courier) (rows : List Assignment)
    → check_assign scope order courier rows ≡ ok tt
    → busy_elsewhere courier.pk order.pk rows ≡ false
unfolding check_assign
check_free scope order courier rows e = ground arith

write_row_couriers :
    (order : Order) (courier : Courier) (existing : Option Assignment) (row : Assignment)
    (s : Store)
    → (write_row order courier existing row s).couriers ≡ s.couriers
unfolding write_row
write_row_couriers order courier existing row s =
    clear_couriers order (record s { assignments = save_assignment row s.assignments })

live_order-write_row :
    (pk : ℕ) (order : Order) (courier : Courier) (existing : Option Assignment) (row : Assignment)
    (s : Store)
    → live_order pk s.orders ≡ some order
    → live_order pk (write_row order courier existing row s).orders ≡ some (cleared order)
unfolding write_row
live_order-write_row pk order courier existing row s f =
    live_order-clear pk order (record s { assignments = save_assignment row s.assignments }) f

new_row_found :
    (order : Order) (courier : Courier) (terms : Terms) (now : ℕ) (old : Option Assignment)
    → is_retry
        (if (new_row order courier terms now).order_id == order.pk
          then some (new_row order courier terms now)
          else old)
        courier.pk
      ≡ true
unfolding new_row
new_row_found order courier terms now old = ground arith

-- What the receiver leaves: orders and couriers as they are, and at the order a row that is still the
-- courier's.
record Bridged (c : ℕ) (order : Order) (s s' : Store) : Type 0 where
  same_orders : s'.orders ≡ s.orders
  same_couriers : s'.couriers ≡ s.couriers
  theirs_still : is_retry (find (for_order order.pk) s'.assignments) c ≡ true
  free_still : busy_elsewhere c order.pk s'.assignments ≡ false

ready_theirs :
    (a : Assignment) (t : Option ℕ) (o c : ℕ) (old : Option Assignment)
    → is_retry (some a) c ≡ true
    → a.order_id ≡ o
    → is_retry (if a.order_id == o then some (record a { step = ready; ready_at = t }) else old) c
      ≡ true
ready_theirs a t o c old h e = ground arith

ready_row_done :
    (q order : Order) (now c : ℕ) (s : Store) (existing : Option Assignment)
    → find (for_order order.pk) s.assignments ≡ existing
    → is_retry existing c ≡ true
    → busy_elsewhere c order.pk s.assignments ≡ false
    → Bridged c order s (ready_row q now s existing)
unfolding ready_row
ready_row_done q order now c s none f h free = absurd (ground arith)
ready_row_done q order now c s (some a) f h free =
    let at : a.order_id ≡ order.pk =
      (==_iff _ _).0 (find_sound (for_order order.pk) s.assignments a f) in
    let a' : Assignment = record a { step = ready; ready_at = or_now q.ready_at now } in
    elim (Bool-cases (is_assigned a.step)) [
      | inl waits ↦ rw waits (record {
        same_orders = refl;
        same_couriers = refl;
        theirs_still =
            rw (find-save order.pk a' s.assignments)
              (ready_theirs a (or_now q.ready_at now) order.pk c _ h at);
        free_still = busy_elsewhere-save c order.pk a' s.assignments at free;
      })
      | inr other ↦ rw other (record {
        same_orders = refl;
        same_couriers = refl;
        theirs_still = rw f h;
        free_still = free;
      })
    ]

bridge_done :
    (order : Order) (now c : ℕ) (s : Store)
    → is_retry (find (for_order order.pk) s.assignments) c ≡ true
    → busy_elsewhere c order.pk s.assignments ≡ false
    → Bridged c order s (ready_bridge order now s)
unfolding ready_bridge mark_ready
bridge_done order now c s h free = elim (Bool-cases (is_order_ready order.status)) [
  | inr waiting ↦
      rw waiting
        (record { same_orders = refl; same_couriers = refl; theirs_still = h; free_still = free })
  | inl cooked_now ↦ elim (Option-cases (live_order order.pk s.orders)) [
    | inl gone ↦ rw cooked_now (
        rw (gone, mark_ready)
          (record {
            same_orders = refl;
            same_couriers = refl;
            theirs_still = h;
            free_still = free;
          }))
    | inr (q, there) ↦
        let same : q.pk ≡ order.pk =
          ground (arith, find_sound (λ x. x.pk == order.pk && not x.is_deleted) s.orders q there) in
        rw cooked_now (
          rw (there, mark_ready)
            (ready_row_done q order now c s (find (for_order q.pk) s.assignments)
              (ap (λ n. find (for_order n) s.assignments) (sym same))
              (subst (λ n. is_retry (find (for_order n) s.assignments) c ≡ true) (sym same) h)
              free))
  ]
]

retry_done :
    (o c : ℕ) (order : Order) (now : ℕ) (s : Store)
    → live_order o s.orders ≡ some order
    → is_retry (find (for_order order.pk) s.assignments) c ≡ true
    → busy_elsewhere c order.pk s.assignments ≡ false
    → ((retry order now s).couriers ≡ s.couriers)
      × (live_order o (retry order now s).orders ≡ some (cleared order))
      × (is_retry (find (for_order order.pk) (retry order now s).assignments) c ≡ true)
      × (busy_elsewhere c order.pk (retry order now s).assignments ≡ false)
unfolding retry
retry_done o c order now s fo h free = elim (Option-cases order.delivery_person_id) [
  | inl clean ↦
      rw (idle_person order clean) (refl, fo ∙ ap some (sym (cleared_idle order clean)), h, free)
  | inr (d, stale) ↦
      let s' : Store = clear_delivery_person order s in
      let rows = clear_delivery_person_rows order s in
      let b : Bridged c order s' (ready_bridge order now s') =
        bridge_done order now c s' (rw rows h) (rw rows free) in
      rw (stale_person order d stale) (
        b.same_couriers ∙ clear_couriers order s,
        rw (b.same_orders) (live_order-clear o order s fo),
        b.theirs_still,
        b.free_still,
      )
]

place_done :
    (o : ℕ) (order : Order) (courier : Courier) (existing r : Option Assignment) (terms : Terms)
    (now : ℕ) (s s' : Store)
    → live_order o s.orders ≡ some order
    → find (for_order order.pk) s.assignments ≡ existing
    → busy_elsewhere courier.pk order.pk s.assignments ≡ false
    → place order courier existing terms now s ≡ ok (r, s')
    → (s'.couriers ≡ s.couriers)
      × (live_order o s'.orders ≡ some (cleared order))
      × (is_retry (find (for_order order.pk) s'.assignments) courier.pk ≡ true)
      × (busy_elsewhere courier.pk order.pk s'.assignments ≡ false)
unfolding place
place_done o order courier existing r terms now s s' fo fa free e =
    elim (Bool-cases (is_retry existing courier.pk)) [
      | inl again ↦
          let same : s' ≡ retry order now s = ground arith in
          let theirs : is_retry (find (for_order order.pk) s.assignments) courier.pk ≡ true =
            rw fa again in
          rw same (retry_done o courier.pk order now s fo theirs free)
      | inr moved ↦
          let row : Assignment = new_row order courier terms now in
          let facts : (r ≡ some row) × (s' ≡ write_row order courier existing row s) =
            ground arith in
          let rows : s'.assignments ≡ save_assignment row s.assignments =
            ap (λ (t : Store). t.assignments) facts.1
            ∙ write_row_rows order courier existing row s in
          (
            rw (facts.1) (write_row_couriers order courier existing row s),
            rw (facts.1) (live_order-write_row o order courier existing row s fo),
            rw (rows, find-save order.pk row s.assignments)
                (new_row_found order courier terms now (find (for_order order.pk) s.assignments)),
            rw rows (
                busy_elsewhere-save courier.pk order.pk row s.assignments (unfold new_row in refl)
                  free),
          )
    ]

-- An `assign` that went through, taken apart.
pub assign_done :
    (o c : ℕ) (terms : Terms) (scope : Scope) (now : ℕ) (s s' : Store) (r : Option Assignment)
    → assign o c terms scope now s ≡ ok (r, s')
    → (order : Order) × (courier : Courier) × Assigned o c scope s s' r order courier
unfolding assign
assign_done o c terms scope now s s' r e =
    let (order, fo, e1) = bind_ok (or_raise (live_order o s.orders) order_gone) _ e in
    let (courier, fc, e2) = bind_ok (or_raise (courier_by_pk c s.couriers) courier_gone) _ e1 in
    let (_, checked, e3) = bind_ok (check_assign scope order courier s.assignments) _ e2 in
    let the_order = or_raise_ok _ order_gone fo in
    let the_courier = or_raise_ok _ courier_gone fc in
    let (p, q, u, v) =
      place_done o order courier (find (for_order order.pk) s.assignments) r terms now s s'
        the_order refl (check_free scope order courier s.assignments checked) e3 in
    (
      order,
      courier,
      record {
        the_order = the_order;
        the_courier = the_courier;
        checked = checked;
        still_there = rw p the_courier;
        order_cleared = q;
        is_theirs = u;
        still_free = v;
      },
    )
