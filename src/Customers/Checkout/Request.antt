-- ===== src/Customers/Checkout/Request.antt =====
-- The request of a checkout and its normal form: `_dominant_payment_method` and
-- `_normalize_checkout_contract` of customers/services/order_service.py. Money and percentages are in
-- hundredths. A refusal names the field that is at fault.
use alpha_pos_local.Base.{
  ℕ, suc, ◌+◌, ◌*◌, ◌/◌, ◌%◌, Bool, true, false, not, ◌&&◌, Option, none, some, List, [], ◌∷◌, ◌==◌,
  ltb, Outcome, ok, err, ◌>>=◌, ◌>>◌, or_raise, raise_if, if◌then◌else◌,
}
use alpha_pos_local.Base.Int.{pos, negsuc}
use alpha_pos_local.Base.Number.{Number, not_finite, decimal, power_of_ten, upper}
use alpha_pos_local.Base.Text.{Text, codes, text_eq, strip}

-- An element of `payments`; the method stands as `str(item.get('method') or '')`.
pub data Item : Type 0 where
  not_object : Item
  object : (method : Text) (amount : Number) → Item

-- `payments`: `_UNSET`, no list, or a list.
pub data Payments : Type 0 where
  unset not_list : Payments
  items : List Item → Payments

-- `payment_method` is `none` for `_UNSET`, and stands as `str(payment_method or '')`.
pub record Request : Type 0 where
  pub payment_method : Option Text
  pub payments : Payments
  pub discount_percent : Number

abbrev pub Tender : Type 0
Tender = Text × ℕ

pub data Kind : Type 0 where
  legacy : (method : Text) → Kind
  dual_empty : (method : Text) → Kind
  structured : (lines : List Tender) → Kind

-- The normal form of a request.
pub record Contract : Type 0 where
  pub kind : Kind
  pub discount_percent : ℕ

pub data Refusal : Type 0 where
  bad_payment bad_discount bad_method bad_payments contradictory : Refusal
  bad_line : (index : ℕ) → Refusal
  not_found forbidden retry_conflict already_paid cancelled_order bad_total : Refusal
  not_covered noncash_overpaid no_shift stock_refused : Refusal

-- A number that is finite, has at most two decimal places and is not negative, in hundredths. The
-- code tests these one after the other, with one field for every refusal.
unfoldable pub hundredths : Number → Option ℕ
unfolding power_of_ten
hundredths not_finite = none
hundredths (decimal (negsuc n) places) = none
hundredths (decimal (pos n) places) =
    let scale = power_of_ten places in if n * 100 % scale == 0 then some (n * 100 / scale) else none

-- `_MAX_ORDER_PAYMENT`
abbrev pub max_order_payment : ℕ
max_order_payment = 9_999_999_999

unfoldable pub percent : Number → Outcome Refusal ℕ
unfolding hundredths
percent n = do
  pct ← or_raise (hundredths n) bad_discount
  raise_if (ltb 10_000 pct) bad_discount
  ok pct

-- The concrete methods: the choices of `Order.PaymentMethod`, without MIXED.
abbrev pub concrete : (is_choice : Text → Bool) → Text → Bool
concrete is_choice m = is_choice m && not (text_eq m (codes "MIXED"))

-- The legacy method of a request, where it is one of the valid ones.
unfoldable pub legacy_method : (Text → Bool) → Option Text → Outcome Refusal (Option Text)
legacy_method valid none = ok none
legacy_method valid (some text) =
    let method = upper (strip text) in if valid method then ok (some method) else err bad_method

unfoldable pub line : (Text → Bool) → ℕ → Item → Outcome Refusal Tender
line valid index not_object = err (bad_line index)
line valid index (object text number) = do
  let method = upper (strip text)
  raise_if (not (valid method)) (bad_line index)
  amount ← or_raise (hundredths number) (bad_line index)
  raise_if (amount == 0) (bad_line index)
  raise_if (ltb max_order_payment amount) (bad_line index)
  ok (method, amount)

unfoldable pub read_lines : (Text → Bool) → ℕ → List Item → Outcome Refusal (List Tender)
unfolding line
read_lines valid index [] = ok []
read_lines valid index (i ∷ rest) = do
  first ← line valid index i
  lines ← read_lines valid (suc index) rest
  ok (first ∷ lines)

-- `totals[method] = totals.get(method, 0) + amount`: a method keeps the place it first had.
unfoldable pub add_total : Tender → List Tender → List Tender
add_total (method, amount) [] = (method, amount) ∷ []
add_total (method, amount) ((m, total) ∷ totals) =
    if text_eq m method
    then (m, total + amount) ∷ totals
    else (m, total) ∷ add_total (method, amount) totals

unfoldable pub totals_from : List Tender → List Tender → List Tender
totals_from totals [] = totals
totals_from totals (l ∷ lines) = totals_from (add_total l totals) lines

-- `max(totals, key=totals.get)`: the first of the largest.
unfoldable pub largest : Tender → List Tender → Tender
largest best [] = best
largest best (t ∷ totals) = largest (if ltb best.1 t.1 then t else best) totals

unfoldable pub dominant_of : List Tender → Option Text
dominant_of [] = none
dominant_of (t ∷ totals) = some ((largest t totals).0)

-- `_dominant_payment_method`; the code calls it on a list that is not empty.
unfoldable pub dominant_payment_method : List Tender → Option Text
dominant_payment_method lines = dominant_of (totals_from [] lines)

abbrev pub is_method : Text → Option Text → Bool
is_method method none = false
is_method method (some m) = text_eq method m

-- A legacy hint beside structured lines agrees with them.
unfoldable pub check_hint : Option Text → List Tender → Outcome Refusal (Unit {0})
check_hint none lines = ok tt
check_hint (some method) lines =
    raise_if (not (is_method method (dominant_payment_method lines))) contradictory

unfoldable pub kind_of : (Text → Bool) → Option Text → Payments → Outcome Refusal Kind
kind_of valid none unset = err bad_payment
kind_of valid (some method) unset = ok (legacy method)
kind_of valid hint not_list = err bad_payments
kind_of valid none (items []) = err bad_payments
kind_of valid (some method) (items []) = ok (dual_empty method)
kind_of valid hint (items (i ∷ rest)) = do
  lines ← read_lines valid 0 (i ∷ rest)
  check_hint hint lines
  ok (structured lines)

abbrev pub is_empty_request : Request → Bool
is_empty_request r = elim (r.payment_method) [
  | some m ↦ false
  | none ↦ elim (r.payments) [ unset ↦ true | not_list ↦ false | items l ↦ false ]
]

-- `_normalize_checkout_contract`
unfoldable pub normalize : (is_choice : Text → Bool) → Request → Outcome Refusal Contract
normalize is_choice r = do
  raise_if (is_empty_request r) bad_payment
  pct ← percent r.discount_percent
  hint ← legacy_method (concrete is_choice) r.payment_method
  kind ← kind_of (concrete is_choice) hint r.payments
  ok (record { kind = kind; discount_percent = pct })
