-- ===== src/Customers/Checkout/Orders.antt =====
-- The rows that a checkout reads and writes, the ownership of an order, and what is stored of a
-- payment: `_check_cashier_ownership`, `_find_settlement_shift`, `_checkout_success_data` and
-- `_checkout_request_matches` of customers/services/order_service.py.
use alpha_pos_local.Base.{
  ℕ, zero, suc, Bool, true, false, not, ◌&&◌, ◌||◌, Option, none, some, List, [], ◌∷◌, map, ◌==◌,
  ltb, leb, opt_eq, is_some, keep, if◌then◌else◌,
}
use alpha_pos_local.Base.Int.{ℤ, pos, negsuc}
use alpha_pos_local.Base.Text.{Text, text_eq, is_blank}
use alpha_pos_local.Base.Sorting.{sort_by, head}
use alpha_pos_local.Customers.Checkout.Request.{
  Tender, Kind, legacy, dual_empty, structured, Contract,
}

-- The columns of `base.Order` that a checkout reads and writes.
pub record Order : Type 0 where
  pub pk : ℕ
  pub user_id : Option ℕ
  pub cashier_id : Option ℕ
  pub branch_id : Text
  pub is_canceled : Bool
  pub is_paid : Bool
  pub payment_action_id : Option ℕ
  pub payment_method : Option Text
  pub paid_at : Option ℕ
  pub accounting_recorded_at : Option ℕ
  pub discount_percent : ℕ
  pub discount_amount : ℤ
  pub total_amount : ℤ

-- `base.OrderPayment`
pub record Line : Type 0 where
  pub order_id : ℕ
  pub method : Text
  pub amount : ℕ
  pub payment_action_id : ℕ
  pub line_index : ℕ
  pub is_deleted : Bool

-- `base.Shift`
pub record Shift : Type 0 where
  pub pk : ℕ
  pub user_id : ℕ
  pub branch_id : Text
  pub start_time : ℕ
  pub end_time : Option ℕ
  pub is_deleted : Bool

-- What a checkout hands to other parts: cash for the drawer of a branch, and what follows the commit.
pub data Effect : Type 0 where
  add_to_register : (amount : ℕ) (branch : Text) → Effect
  paid_notification fiscalize : (order : ℕ) → Effect

pub record Store : Type 0 where
  pub orders : List Order
  -- In the order of their keys.
  pub lines : List Line
  pub shifts : List Shift
  pub outbox : List Effect

pub data Role : Type 0 where
  admin manager cashier waiter other : Role

abbrev pub is_staff : Role → Bool
is_staff admin = true
is_staff manager = true
is_staff cashier = true
is_staff waiter = false
is_staff other = false

abbrev pub is_waiter : Role → Bool
is_waiter waiter = true
is_waiter _ = false

-- Who calls: `cashier_id`, `user_id` and `user_role`.
pub record Actor : Type 0 where
  pub cashier_id : Option ℕ
  pub user_id : Option ℕ
  pub role : Role

-- The truth value of a key.
abbrev pub truthy : Option ℕ → Bool
truthy none = false
truthy (some zero) = false
truthy (some (suc n)) = true

-- `_check_cashier_ownership` has no objection, by the order's `user_id` and `cashier_id`.
unfoldable pub owns : (user_id cashier_id : Option ℕ) → Actor → Bool
owns user_id cashier_id a =
    if is_staff a.role
    then true
    else if is_waiter a.role
    then is_some a.user_id && (opt_eq cashier_id a.user_id || opt_eq user_id a.user_id)
    else not (is_some a.user_id && not (opt_eq user_id a.user_id))
      && not (truthy cashier_id && not (opt_eq cashier_id a.cashier_id))

abbrev pub is_owner : Order → Actor → Bool
is_owner o a = owns o.user_id o.cashier_id a

abbrev pub is_line_of : ℕ → Line → Bool
is_line_of o l = not l.is_deleted && l.order_id == o

-- `order_by('line_index', 'pk')`, of lines in the order of their keys: of two, the first stays first
-- unless its index is the larger one.
abbrev pub index_before : Line → Line → Bool
index_before a b = leb a.line_index b.line_index

abbrev pub tender : Line → Tender
tender l = (l.method, l.amount)

-- The live tender rows of an order.
unfoldable pub stored_tenders : ℕ → List Line → List Tender
stored_tenders o lines = map tender (sort_by index_before (keep (is_line_of o) lines))

abbrev pub covers : ℕ → Text → ℕ → Shift → Bool
covers user branch at s =
    s.user_id == user
    && not s.is_deleted
    && leb s.start_time at
    && elim (s.end_time) [ none ↦ true | some e ↦ leb at e ]
    && (is_blank branch || text_eq s.branch_id branch)

abbrev pub latest_shift_first : Shift → Shift → Bool
latest_shift_first a b =
    ltb b.start_time a.start_time || (a.start_time == b.start_time && ltb b.pk a.pk)

abbrev pub shift_at : List Shift → ℕ → Text → Option ℕ → Option Shift
shift_at shifts user branch none = none
shift_at shifts user branch (some at) =
    head (sort_by latest_shift_first (keep (covers user branch at) shifts))

-- `_find_settlement_shift`
unfoldable pub find_settlement_shift : List Shift → Order → Option Shift
find_settlement_shift shifts o = elim (o.cashier_id) [
  | none ↦ none
  | some zero ↦ none
  | some (suc n) ↦ shift_at shifts (suc n) o.branch_id o.paid_at
]

-- What `_checkout_success_data` returns.
pub record Receipt : Type 0 where
  pub order_id : ℕ
  pub payment_action_id : Option ℕ
  pub shift : Option Shift
  pub paid_at : Option ℕ
  pub payment_method : Option Text
  pub discount_percent : ℕ
  pub discount_amount : ℤ
  pub total_amount : ℤ
  pub payments : List Tender

abbrev pub or_found : Option Shift → Option Shift → Option Shift
or_found none s = s
or_found (some s) t = some s

-- `_checkout_success_data`
unfoldable pub success_data : Store → Order → Option Shift → Receipt
success_data s o shift = record {
  order_id = o.pk;
  payment_action_id = o.payment_action_id;
  shift = or_found shift (find_settlement_shift s.shifts o);
  paid_at = o.paid_at;
  payment_method = o.payment_method;
  discount_percent = o.discount_percent;
  discount_amount = o.discount_amount;
  total_amount = o.total_amount;
  payments = stored_tenders o.pk s.lines;
}

unfoldable pub tenders_eq : List Tender → List Tender → Bool
tenders_eq [] [] = true
tenders_eq [] (b ∷ ys) = false
tenders_eq (a ∷ xs) [] = false
tenders_eq (a ∷ xs) (b ∷ ys) = text_eq a.0 b.0 && a.1 == b.1 && tenders_eq xs ys

abbrev pub no_tenders : List Tender → Bool
no_tenders [] = true
no_tenders (t ∷ rest) = false

abbrev pub method_is : Text → Option Text → Bool
method_is m none = false
method_is m (some n) = text_eq n m

-- One tender row of the whole total, or nothing at all of a total of zero.
unfoldable pub whole_tender : ℤ → Text → Option Text → List Tender → Bool
unfolding tenders_eq
whole_tender (pos zero) method paid_by stored = no_tenders stored && not (is_some paid_by)
whole_tender (pos (suc n)) method paid_by stored =
    tenders_eq stored ((method, suc n) ∷ []) && method_is method paid_by
whole_tender (negsuc n) method paid_by stored = false

unfoldable pub tenders_match : Kind → Order → List Tender → Bool
unfolding whole_tender
tenders_match (structured lines) o stored = tenders_eq stored lines
tenders_match (legacy method) o stored = whole_tender o.total_amount method o.payment_method stored
tenders_match (dual_empty method) o stored =
    whole_tender o.total_amount method o.payment_method stored

-- `_checkout_request_matches`
unfoldable pub request_matches : Store → Order → Contract → Bool
request_matches s o c =
    (c.discount_percent == 0 || o.discount_percent == c.discount_percent)
    && tenders_match c.kind o (stored_tenders o.pk s.lines)

unfoldable pub save_order : Order → List Order → List Order
save_order o [] = []
save_order o (r ∷ orders) = if r.pk == o.pk then o ∷ orders else r ∷ save_order o orders

abbrev pub order_is : ℕ → Order → Bool
order_is pk o = o.pk == pk
