-- ===== src/Customers/Checkout/Settled.antt =====
-- What a payment that went through has done: the lines cover the bill, and the drawer takes the cash
-- share of it. About `mark_as_paid` of customers/services/order_service.py.
use alpha_pos_local.Base.{
  ℕ, ◌≤◌, ◌≡◌, refl, subst, true, false, not, some, List, ok, or_raise, raise_if, bind_ok,
  or_raise_ok, find, if◌then◌else◌, inl, inr, ◌⊎◌, arith, if_cases,
}
use alpha_pos_local.Customers.Checkout.Request.{
  Tender, Contract, normalize, not_found, forbidden, no_shift, bad_total, cancelled_order,
}
use alpha_pos_local.Customers.Checkout.Orders.{
  Order, Shift, Store, is_owner, Receipt, order_is, success_data,
}
use alpha_pos_local.Customers.Checkout.Pay.{
  Host, Call, effective_total, sum_of, noncash_sum, tender_lines, or_id, paid_order, persist,
  non_negative, check_cover, settle, replay, mark_as_paid, Bill, bill, book,
}

-- A bill that passed the checks of the code.
pub record Covered (contract : Contract) (o : Order) (b : Bill) : Type 0 where
  pub of_percent : b.percent ≡ contract.discount_percent
  pub of_total : non_negative o.total_amount ≡ some b.base
  pub of_due : b.due ≡ effective_total b.base b.percent
  pub of_lines : tender_lines contract.kind b.due ≡ ok b.lines
  pub covered : b.due ≤ sum_of b.lines
  pub noncash_fits : noncash_sum b.lines ≤ b.due

cover_ok :
    (due : ℕ) (lines : List Tender) (u : Unit {0})
    → check_cover due lines ≡ ok u
    → (due ≤ sum_of lines) × (noncash_sum lines ≤ due)
cover_ok due lines u e = ground arith

pub bill_ok :
    (contract : Contract) (o : Order) (b : Bill) → bill contract o ≡ ok b → Covered contract o b
unfolding bill
bill_ok contract o b e =
    let (u, not_cancelled, e1) = bind_ok (raise_if o.is_canceled cancelled_order) _ e in
    let (base, t, e2) = bind_ok (or_raise (non_negative o.total_amount) bad_total) _ e1 in
    let (lines, l, e3) =
      bind_ok (tender_lines contract.kind (effective_total base contract.discount_percent)) _ e2 in
    let (v, c, e4) =
      bind_ok (check_cover (effective_total base contract.discount_percent) lines) _ e3 in
    let fits = cover_ok (effective_total base contract.discount_percent) lines v c in
    let made : record {
      percent = contract.discount_percent;
      base = base;
      due = effective_total base contract.discount_percent;
      lines = lines;
    }
        ≡ b =
      ground arith in
    subst (Covered contract o) made (record {
      of_percent = refl;
      of_total = or_raise_ok _ _ t;
      of_due = refl;
      of_lines = l;
      covered = fits.0;
      noncash_fits = fits.1;
    })

-- A payment that went through.
pub record Settlement (host : Host) (c : Call) (o : Order) (s s' : Store) (r : Receipt)
    : Type 0 where
  pub contract : Contract
  pub bill_of : Bill
  pub shift : Shift
  pub normal : normalize host.is_choice c.request ≡ ok contract
  pub checked : Covered contract o bill_of
  pub stored : s' ≡ persist (paid_order o c shift bill_of) c bill_of s
  pub receipt : r ≡ success_data s' (paid_order o c shift bill_of) (some shift)

book_ok :
    (host : Host) (c : Call) (b : Bill) (o : Order) (s s' : Store) (shift : Shift) (r : Receipt)
    → book host c b o s shift ≡ ok (r, s')
    → (s' ≡ persist (paid_order o c shift b) c b s)
      × (r ≡ success_data s' (paid_order o c shift b) (some shift))
unfolding book
book_ok host c b o s s' shift r e = ground arith

settle_ok :
    (host : Host) (c : Call) (contract : Contract) (o : Order) (s s' : Store) (r : Receipt)
    → normalize host.is_choice c.request ≡ ok contract
    → settle host c contract o s ≡ ok (r, s')
    → Settlement host c o s s' r
unfolding settle
settle_ok host c contract o s s' r n e =
    let (b, billed, e1) = bind_ok (bill contract o) _ e in
    let (shift, found, e2) =
      bind_ok
        (or_raise (host.active_shift s (or_id c.actor.cashier_id c.actor.user_id) o.branch_id)
          no_shift)
        _ e1 in
    let done = book_ok host c b o s s' shift r e2 in
    record {
      contract = contract;
      bill_of = b;
      shift = shift;
      normal = n;
      checked = bill_ok contract o b billed;
      stored = done.0;
      receipt = done.1;
    }

replay_ok :
    (c : Call) (contract : Contract) (o : Order) (s s' : Store) (r : Receipt)
    → replay c contract o s ≡ ok (r, s')
    → s' ≡ s
unfolding replay
replay_ok c contract o s s' r e = ground arith

-- What a call that went through did: it settled an order that was not paid, or repeated the action
-- that had paid it.
abbrev pub Done : Host → Call → Store → Store → Receipt → Order → Type 0
Done host c s s' r o =
    (o.is_paid ≡ false) × Settlement host c o s s' r ⊎ (o.is_paid ≡ true) × (s' ≡ s)

found_ok :
    (host : Host) (c : Call) (contract : Contract) (o : Order) (s s' : Store) (r : Receipt)
    → normalize host.is_choice c.request ≡ ok contract
    → (if o.is_paid then replay c contract o s else settle host c contract o s) ≡ ok (r, s')
    → Done host c s s' r o
found_ok host c contract o s s' r n e =
    elim (if_cases o.is_paid (replay c contract o s) (settle host c contract o s) e) [
      | inl (t, e1) ↦ inr (t, replay_ok c contract o s s' r e1)
      | inr (f, e1) ↦ inl (f, settle_ok host c contract o s s' r n e1)
    ]

pub paid_ok :
    (host : Host) (c : Call) (s s' : Store) (r : Receipt)
    → mark_as_paid host c s ≡ ok (r, s')
    → (o : Order) × (find (order_is c.order_id) s.orders ≡ some o) × Done host c s s' r o
unfolding mark_as_paid
paid_ok host c s s' r e =
    let (contract, n, e1) = bind_ok (normalize host.is_choice c.request) _ e in
    let (o, found, e2) = bind_ok (or_raise (find (order_is c.order_id) s.orders) not_found) _ e1 in
    let (u, owner, e3) = bind_ok (raise_if (not (is_owner o c.actor)) forbidden) _ e2 in
    (o, or_raise_ok _ _ found, found_ok host c contract o s s' r n e3)
