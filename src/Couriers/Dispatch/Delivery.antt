-- ===== src/Couriers/Dispatch/Delivery.antt =====
-- What advancing an order does: its row, its order, and what is sent.
use alpha_pos_local.Base.{
  ℕ, true, ◌≡◌, refl, inl, inr, none, some, List, [], ◌∷◌, arith, ◌==◌, ==_iff, find, find_sound,
  Bool-cases, ok, bind_ok,
}
use alpha_pos_local.Couriers.Dispatch.Store.{
  Step, delivered, completed, Order, Assignment, is_busy, is_completed, can_advance_to, for_order,
  order_by_pk, Store, save_assignment, save_order,
}
use alpha_pos_local.Couriers.Dispatch.Progress.{
  Handle, reload, advance_status, advanced_row, close_order,
}
use alpha_pos_local.Couriers.Dispatch.Lifecycle.{find-save}

order_by_pk-save :
    (pk : ℕ) (o o' : Order) (rows : List Order)
    → order_by_pk pk rows ≡ some o
    → o'.pk ≡ o.pk
    → order_by_pk pk (save_order o' rows) ≡ some o'
order_by_pk-save pk o o' [] f e = absurd (ground arith)
order_by_pk-save pk o o' (r ∷ rows) f e =
    let same : o.pk ≡ pk = (==_iff _ _).0 (find_sound (λ q. q.pk == pk) (r ∷ rows) o f) in
    elim (Bool-cases (r.pk == o'.pk)) [
      | inl hit ↦ rw hit (ground arith)
      | inr miss ↦
          let f' : order_by_pk pk rows ≡ some o = ground arith in
          rw miss (ground (arith, order_by_pk-save pk o o' rows f' e))
    ]

-- Closing leaves an order that is completed, whatever its status was.
close_order-delivered :
    (pk : ℕ) (o : Order) (rows : List Order)
    → order_by_pk pk rows ≡ some o
    → (o' : Order) × (order_by_pk pk (close_order delivered o rows) ≡ some o')
      × (o'.status ≡ completed)
unfolding close_order
close_order-delivered pk o rows f = elim (Bool-cases (is_completed o.status)) [
  | inl done ↦ (o, rw done f, ground arith)
  | inr open_still ↦ (
    record o { status = completed; delivery_person_id = none },
    rw open_still (
        order_by_pk-save pk o (record o { status = completed; delivery_person_id = none }) rows f
          refl),
    refl,
  )
]

reload_parts :
    (h : Handle) (s : Store) (o : Order) (a : Assignment)
    → reload h s ≡ ok (o, a)
    → (order_by_pk h.order_id s.orders ≡ some o)
      × (find (for_order h.order_id) s.assignments ≡ some a)
      × (a.courier_id ≡ h.courier_id)
unfolding reload
reload_parts h s o a e = ground arith

can_deliver : (s : Step) → can_advance_to s delivered ≡ true → is_busy s ≡ true
unfolding can_advance_to
can_deliver s e = ground arith

advanced_delivered :
    (a : Assignment) (now : ℕ)
    → advanced_row a delivered now ≡ record a { step = delivered; delivered_at = some now }
unfolding advanced_row
advanced_delivered a now = refl

-- A delivery that is reported and accepted was of an order whose row had the courier of the report,
-- at a step from ASSIGNED to ON_WAY. Afterwards the row is the same but for the step DELIVERED and the
-- time of the call as its delivery time, and the order is COMPLETED.
pub advance_status-delivered :
    (h : Handle) (now : ℕ) (s s' : Store)
    → advance_status h delivered now s ≡ ok s'
    → (a : Assignment) × (o : Order) × (find (for_order h.order_id) s.assignments ≡ some a)
      × (a.courier_id ≡ h.courier_id)
      × (is_busy a.step ≡ true)
      × (find (for_order h.order_id) s'.assignments
          ≡ some (record a { step = delivered; delivered_at = some now }))
      × (order_by_pk h.order_id s'.orders ≡ some o)
      × (o.status ≡ completed)
unfolding advance_status
advance_status-delivered h now s s' e =
    let ((o, a), loaded, e1) = bind_ok (reload h s) _ e in
    let (fo, fa, held) = reload_parts h s o a loaded in
    let a' : Assignment = advanced_row a delivered now in
    let facts : (can_advance_to a.step delivered ≡ true)
        × (s'.assignments ≡ save_assignment a' s.assignments)
        × (s'.orders ≡ close_order delivered o s.orders) =
      ground arith in
    let (o', fo', closed) = close_order-delivered h.order_id o s.orders fo in
    let at : (a'.order_id == h.order_id) ≡ true =
      find_sound (for_order h.order_id) s.assignments a fa in
    (
      a,
      o',
      fa,
      held,
      can_deliver a.step (facts.0),
      rw (facts.1, find-save h.order_id a' s.assignments, at, advanced_delivered a now),
      rw (facts.2) fo',
      closed,
    )
