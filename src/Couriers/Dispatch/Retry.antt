-- ===== src/Couriers/Dispatch/Retry.antt =====
-- A repeated `assign` does nothing; a scoped actor stays in its branch; and a courier who lost an
-- order cannot act on it.
use alpha_pos_local.Base.{
  ℕ, true, false, not, ◌&&◌, ◌≡◌, ◌≢◌, refl, sym, ap, ◌∙◌, inl, inr, Option, none, some, List, [],
  ◌∷◌, arith, ◌==◌, ==_iff, opt_eq, find, find_sound, Bool-cases, ok, err,
}
use alpha_pos_local.Base.Text.{Text, strip, text_eq→≡}
use alpha_pos_local.Couriers.Dispatch.Store.{
  Step, was_reassigned, is_settable, Order, Courier, Assignment, for_order, busy_elsewhere,
  live_order, order_by_pk, courier_by_pk, Store,
}
use alpha_pos_local.Couriers.Dispatch.Assign.{
  Scope, scoped, Terms, assign, assign_denied, check_assign, place, retry, is_retry,
}
use alpha_pos_local.Couriers.Dispatch.Progress.{Handle, reload, accept, decline, advance_status}
use alpha_pos_local.Couriers.Dispatch.Assigned.{cleared, assign_done}

check_again :
    (scope : Scope) (order : Order) (courier : Courier) (rows rows' : List Assignment)
    → check_assign scope order courier rows ≡ ok tt
    → busy_elsewhere courier.pk order.pk rows' ≡ false
    → check_assign scope (cleared order) courier rows' ≡ ok tt
unfolding check_assign assign_denied
check_again scope order courier rows rows' e h = ground arith

live_order_pk : (pk : ℕ) (o : Order) (rows : List Order) → live_order pk rows ≡ some o → o.pk ≡ pk
live_order_pk pk o rows e =
    ground (arith, find_sound (λ q. q.pk == pk && not q.is_deleted) rows o e)

place_again :
    (order : Order) (courier : Courier) (r : Option Assignment) (terms : Terms) (now : ℕ)
    (s : Store)
    → is_retry r courier.pk ≡ true
    → place (cleared order) courier r terms now s ≡ ok (r, s)
unfolding place retry
place_again order courier r terms now s h = rw h

-- After an assignment that went through, the same assignment is accepted again at any later time and
-- with any fee and address, returns the order's row as it stands, and changes nothing: no row is
-- rewritten and nothing is sent.
pub assign-assign :
    (o c : ℕ) (terms terms' : Terms) (scope : Scope) (now now' : ℕ) (s s' : Store)
    (r : Option Assignment)
    → assign o c terms scope now s ≡ ok (r, s')
    → assign o c terms' scope now' s' ≡ ok (find (for_order o) s'.assignments, s')
unfolding assign
assign-assign o c terms terms' scope now now' s s' r e =
    let (order, courier, d) = assign_done o c terms scope now s s' r e in
    rw (d.order_cleared) (
      rw (d.still_there) (
        rw (check_again scope order courier s.assignments s'.assignments d.checked d.still_free) (
          place_again order courier (find (for_order order.pk) s'.assignments) terms' now' s'
            d.is_theirs
          ∙ ap (λ n. ok (find (for_order n) s'.assignments, s'))
              (live_order_pk o order s.orders d.the_order))))

not_denied :
    (scope : Scope) (order : Order) (courier : Courier) (rows : List Assignment)
    → check_assign scope order courier rows ≡ ok tt
    → assign_denied scope order courier ≡ false
unfolding check_assign
not_denied scope order courier rows e = ground arith

in_branch :
    (order : Order) (courier : Courier) (branch : Text)
    → assign_denied (scoped branch false) order courier ≡ false
    → (strip branch ≢ [])
      × (strip order.branch_id ≡ strip branch)
      × (strip courier.branch_id ≡ strip branch)
unfolding assign_denied
in_branch order courier branch e = (
  ground arith,
  text_eq→≡ (strip order.branch_id) (strip branch) (ground arith),
  text_eq→≡ (strip courier.branch_id) (strip branch) (ground arith),
)

-- A scoped actor who is not global and whose assignment went through has a branch, and the order and
-- the courier both belong to it.
pub assign-in_branch :
    (o c : ℕ) (terms : Terms) (branch : Text) (now : ℕ) (s s' : Store) (r : Option Assignment)
    → assign o c terms (scoped branch false) now s ≡ ok (r, s')
    → (order : Order) × (courier : Courier) × (live_order o s.orders ≡ some order)
      × (courier_by_pk c s.couriers ≡ some courier)
      × (strip branch ≢ [])
      × (strip order.branch_id ≡ strip branch)
      × (strip courier.branch_id ≡ strip branch)
assign-in_branch o c terms branch now s s' r e =
    let (order, courier, d) = assign_done o c terms (scoped branch false) now s s' r e in
    let (p, q, u) =
      in_branch order courier branch
        (not_denied (scoped branch false) order courier s.assignments d.checked) in
    (order, courier, d.the_order, d.the_courier, p, q, u)

reload_stale :
    (h : Handle) (s : Store) (order : Order) (a : Assignment)
    → order_by_pk h.order_id s.orders ≡ some order
    → find (for_order h.order_id) s.assignments ≡ some a
    → opt_eq a.courier_id h.courier_id ≡ false
    → reload h s ≡ err was_reassigned
unfolding reload
reload_stale h s order a fo fa ne = rw fo (rw fa (rw ne))

order_by_pk_of_live :
    (pk : ℕ) (o : Order) (rows : List Order)
    → live_order pk rows ≡ some o
    → (q : Order) × (order_by_pk pk rows ≡ some q)
order_by_pk_of_live pk o [] e = absurd (ground arith)
order_by_pk_of_live pk o (r ∷ rows) e = elim (Bool-cases (r.pk == pk)) [
  | inl hit ↦ (r, rw hit)
  | inr miss ↦
      let e' : live_order pk rows ≡ some o = ground arith in
      let (q, f) = order_by_pk_of_live pk o rows e' in (q, rw miss f)
]

-- The row of an order that was assigned is the courier's.
theirs :
    (r : Option Assignment) (c : ℕ)
    → is_retry r c ≡ true
    → (a : Assignment) × (r ≡ some a) × (a.courier_id ≡ some c)
theirs none c e = absurd (ground arith)
theirs (some a) c e = (a, refl, ground arith)

-- Once an order has been assigned to a courier, whoever still holds it under another courier is
-- refused, and told so: the order cannot be accepted or declined, nor moved to any step that a
-- courier may set.
pub assign-stale :
    (o c : ℕ) (terms : Terms) (scope : Scope) (now : ℕ) (s s' : Store) (r : Option Assignment)
    → assign o c terms scope now s ≡ ok (r, s')
    → (h : Handle) → h.order_id ≡ o
    → h.courier_id ≢ some c
    → (t later : ℕ) (reason : Text) (target : Step) → is_settable target ≡ true
    → (accept h t later s' ≡ err was_reassigned)
      × (decline h reason s' ≡ err was_reassigned)
      × (advance_status h target t s' ≡ err was_reassigned)
unfolding accept decline advance_status
assign-stale o c terms scope now s s' r e h at other t later reason target settable =
    let (order, courier, d) = assign_done o c terms scope now s s' r e in
    let (q, fo) = order_by_pk_of_live o (cleared order) s'.orders d.order_cleared in
    let (a, is_a, has) = theirs (find (for_order order.pk) s'.assignments) courier.pk d.is_theirs in
    let order_pk : order.pk ≡ o = live_order_pk o order s.orders d.the_order in
    let courier_pk : courier.pk ≡ c =
      (==_iff _ _).0 (find_sound (λ x. x.pk == c) s.couriers courier d.the_courier) in
    let fa : find (for_order o) s'.assignments ≡ some a =
      ap (λ n. find (for_order n) s'.assignments) (sym order_pk) ∙ is_a in
    let ne : opt_eq a.courier_id h.courier_id ≡ false = ground arith in
    let stale : reload h s' ≡ err was_reassigned = reload_stale h s' q a (rw at fo) (rw at fa) ne in
    (rw stale, rw stale, rw settable (rw stale))
