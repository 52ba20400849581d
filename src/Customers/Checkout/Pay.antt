-- ===== src/Customers/Checkout/Pay.antt =====
-- `mark_as_paid` of customers/services/order_service.py. A refusal leaves the rows as they are: what
-- comes before the last one, the stock's, is rolled back.
use alpha_pos_local.Base.{
  ℕ, suc, ◌+◌, ◌-◌, ◌*◌, ◌/◌, Bool, true, false, not, ◌&&◌, Option, none, some, List, [], ◌∷◌, ◌++◌,
  ◌==◌, ltb, opt_eq, Outcome, ok, err, ◌>>=◌, ◌>>◌, or_raise, raise_if, find, if◌then◌else◌,
}
use alpha_pos_local.Base.Int.{ℤ, pos, negsuc, ◌+ℤ◌, ◌-ℤ◌}
use alpha_pos_local.Base.Text.{Text, codes, text_eq, is_blank}
use alpha_pos_local.Customers.Checkout.Request.{
  Request, Tender, Kind, legacy, dual_empty, structured, Contract, Refusal, bad_payments, not_found,
  forbidden, retry_conflict, already_paid, cancelled_order, bad_total, not_covered,
  noncash_overpaid, no_shift, stock_refused, normalize,
}
use alpha_pos_local.Customers.Checkout.Orders.{
  Order, Line, Shift, Effect, add_to_register, paid_notification, fiscalize, Store, Actor, truthy,
  is_owner, Receipt, success_data, request_matches, save_order, order_is,
}

-- What the packages `base` and `stock` supply: the choices of `Order.PaymentMethod`,
-- `lock_active_cashier_shift`, and whether the stock refuses the transition to PAID.
pub record Host : Type 0 where
  pub is_choice : Text → Bool
  pub active_shift : Store → Option ℕ → Text → Option Shift
  pub stock_refuses : Store → Order → Bool

-- A call of `mark_as_paid`, with the time `timezone.now()` and the action `uuid4()` that it draws. An
-- action identifier is a number here: one that is no UUID never gets this far.
pub record Call : Type 0 where
  pub order_id : ℕ
  pub actor : Actor
  pub request : Request
  pub action_id : Option ℕ
  pub now : ℕ
  pub fresh_action : ℕ

abbrev pub cash : Text
cash = codes "CASH"

-- `effective_total`: whole so'm, halves go up.
unfoldable pub effective_total : (base pct : ℕ) → ℕ
effective_total base pct = (base * (10_000 - pct) + 500_000) / 1_000_000 * 100

unfoldable pub sum_of : List Tender → ℕ
sum_of [] = 0
sum_of (t ∷ lines) = t.1 + sum_of lines

unfoldable pub cash_sum : List Tender → ℕ
cash_sum [] = 0
cash_sum (t ∷ lines) = (if text_eq t.0 cash then t.1 else 0) + cash_sum lines

-- `noncash_sum`: the cash lines are some of the lines, so nothing is cut off.
abbrev pub noncash_sum : List Tender → ℕ
noncash_sum lines = sum_of lines - cash_sum lines

-- The tender lines of a bill.
unfoldable pub tender_lines : Kind → ℕ → Outcome Refusal (List Tender)
tender_lines (structured lines) due = if due == 0 then err bad_payments else ok lines
tender_lines (dual_empty method) due = if due == 0 then ok [] else err bad_payments
tender_lines (legacy method) due = ok (if due == 0 then [] else (method, due) ∷ [])

unfoldable pub all_of : Text → List Tender → Bool
all_of m [] = true
all_of m (t ∷ lines) = text_eq t.0 m && all_of m lines

-- The one method of all lines, MIXED of several, none of no lines.
unfoldable pub header_method : List Tender → Option Text
header_method [] = none
header_method (t ∷ lines) = if all_of t.0 lines then some t.0 else some (codes "MIXED")

unfoldable pub line_rows : ℕ → ℕ → ℕ → List Tender → List Line
line_rows order action index [] = []
line_rows order action index (t ∷ lines) =
    record {
      order_id = order;
      method = t.0;
      amount = t.1;
      payment_action_id = action;
      line_index = index;
      is_deleted = false;
    }
    ∷ line_rows order action (suc index) lines

abbrev pub or_id : Option ℕ → Option ℕ → Option ℕ
or_id a b = if truthy a then a else b

abbrev pub or_fresh : Option ℕ → ℕ → ℕ
or_fresh none fresh = fresh
or_fresh (some a) fresh = a

-- What a settlement is made of: the order's total, the bill, and its tender lines.
pub record Bill : Type 0 where
  pub percent : ℕ
  pub base : ℕ
  pub due : ℕ
  pub lines : List Tender

-- The totals change only where a discount is given with the payment.
unfoldable pub discounted : Order → Bill → Order
discounted o b = if b.percent == 0 then o else record o {
  discount_percent = b.percent;
  discount_amount = o.discount_amount +ℤ (pos b.base -ℤ pos b.due);
  total_amount = pos b.due;
}

unfoldable pub paid_order : Order → Call → Shift → Bill → Order
paid_order o c shift b = record (discounted o b) {
  branch_id = if is_blank o.branch_id then shift.branch_id else o.branch_id;
  cashier_id = or_id c.actor.cashier_id c.actor.user_id;
  is_paid = true;
  payment_action_id = some (or_fresh c.action_id c.fresh_action);
  payment_method = header_method b.lines;
  paid_at = some c.now;
  accounting_recorded_at = some c.now;
}

-- The cash that stays in the drawer, net of the change.
unfoldable pub deposit : Order → ℕ → List Effect
deposit o kept = if kept == 0 then [] else add_to_register kept o.branch_id ∷ []

unfoldable pub persist : Order → Call → Bill → Store → Store
persist o c b s = record s {
  orders = save_order o s.orders;
  lines = s.lines ++ line_rows o.pk (or_fresh c.action_id c.fresh_action) 0 b.lines;
  outbox =
      s.outbox
      ++ (deposit o (b.due - noncash_sum b.lines)
          ++ (paid_notification o.pk ∷ fiscalize o.pk ∷ []));
}

-- `base_total`, where it is no negative amount.
abbrev pub non_negative : ℤ → Option ℕ
non_negative (pos n) = some n
non_negative (negsuc n) = none

abbrev pub check_cover : ℕ → List Tender → Outcome Refusal (Unit {0})
check_cover due lines = do
  raise_if (ltb (sum_of lines) due) not_covered
  raise_if (ltb due (noncash_sum lines)) noncash_overpaid

-- From the contract to the lines that cover the bill.
unfoldable pub bill : Contract → Order → Outcome Refusal Bill
bill contract o = do
  raise_if o.is_canceled cancelled_order
  base ← or_raise (non_negative o.total_amount) bad_total
  let due = effective_total base contract.discount_percent
  lines ← tender_lines contract.kind due
  check_cover due lines
  ok (record { percent = contract.discount_percent; base = base; due = due; lines = lines })

-- What is written once the cashier's shift is locked.
unfoldable pub book : Host → Call → Bill → Order → Store → Shift → Outcome Refusal (Receipt × Store)
book host c b o s shift =
    let paid = paid_order o c shift b in
    let s' = persist paid c b s in
    if host.stock_refuses s' paid
    then err stock_refused
    else ok (success_data s' paid (some shift), s')

-- The payment of an order that is not paid yet.
unfoldable pub settle : Host → Call → Contract → Order → Store → Outcome Refusal (Receipt × Store)
settle host c contract o s = do
  b ← bill contract o
  shift ←
      or_raise (host.active_shift s (or_id c.actor.cashier_id c.actor.user_id) o.branch_id) no_shift
  book host c b o s shift

-- A repeated call of the action that paid the order.
abbrev pub is_replay : Option ℕ → Order → Bool
is_replay none o = false
is_replay (some a) o = opt_eq o.payment_action_id (some a)

-- The answer where the order is paid: nothing is written.
unfoldable pub replay : Call → Contract → Order → Store → Outcome Refusal (Receipt × Store)
replay c contract o s =
    if is_replay c.action_id o
    then (do
      raise_if (not (request_matches s o contract)) retry_conflict
      ok (success_data s o none, s))
    else err already_paid

unfoldable pub mark_as_paid : Host → Call → Store → Outcome Refusal (Receipt × Store)
mark_as_paid host c s = do
  contract ← normalize host.is_choice c.request
  o ← or_raise (find (order_is c.order_id) s.orders) not_found
  raise_if (not (is_owner o c.actor)) forbidden
  (if o.is_paid then replay c contract o s else settle host c contract o s)
