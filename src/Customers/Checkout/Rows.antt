-- ===== src/Customers/Checkout/Rows.antt =====
-- The rows after a save: which order is found, and the tender rows of an order.
use alpha_pos_local.Base.{
  ℕ, suc, ◌≡◌, ◌≢◌, refl, Bool, true, some, List, [], ◌∷◌, ◌++◌, ◌==◌, leb, find, keep, map, inl,
  inr, arith, Bool-cases, find_sound,
}
use alpha_pos_local.Base.Sorting.{sort_by, insert_by}
use alpha_pos_local.Customers.Checkout.Request.{Tender}
use alpha_pos_local.Customers.Checkout.Orders.{
  Order, Line, Shift, save_order, order_is, is_line_of, index_before, tender, stored_tenders,
}
use alpha_pos_local.Customers.Checkout.Pay.{Call, Bill, discounted, paid_order, line_rows}

pub found-pk :
    (pk : ℕ) (orders : List Order) (o : Order) → find (order_is pk) orders ≡ some o → o.pk ≡ pk
found-pk pk orders o e =
    let t : (o.pk == pk) ≡ true = find_sound (order_is pk) orders o e in ground arith

pub find-save_order :
    (o p : Order) (pk : ℕ) (orders : List Order)
    → p.pk ≡ pk
    → find (order_is pk) orders ≡ some o
    → find (order_is pk) (save_order p orders) ≡ some p
unfolding save_order
find-save_order o p pk [] h e = ground arith
find-save_order o p pk (r ∷ orders) h e = ground (arith, find-save_order o p pk orders)

pub find-save_other :
    (p : Order) (pk : ℕ) (orders : List Order)
    → p.pk ≢ pk
    → find (order_is pk) (save_order p orders) ≡ find (order_is pk) orders
unfolding save_order
find-save_other p pk [] h = refl
find-save_other p pk (r ∷ orders) h = ground (arith, find-save_other p pk orders)

discounted-pk : (o : Order) (b : Bill) → (discounted o b).pk ≡ o.pk
unfolding discounted
discounted-pk o b = ground arith

pub paid_order-pk :
    (o : Order) (c : Call) (shift : Shift) (b : Bill) → (paid_order o c shift b).pk ≡ o.pk
unfolding paid_order
paid_order-pk o c shift b = discounted-pk o b

pub keep-append {ℓ} :
    {A : Type ℓ} (test : A → Bool) (xs ys : List A)
    → keep test (xs ++ ys) ≡ keep test xs ++ keep test ys
keep-append test [] ys = refl
keep-append test (x ∷ xs) ys = elim (Bool-cases (test x)) [
  | inl t ↦ rw (t, keep-append test xs ys) refl
  | inr f ↦ rw (f, keep-append test xs ys) refl
]

-- The new rows of another order.
pub keep-line_rows_other :
    (pk order action index : ℕ) (lines : List Tender)
    → order ≢ pk
    → keep (is_line_of pk) (line_rows order action index lines) ≡ []
unfolding line_rows
keep-line_rows_other pk order action index [] h = refl
keep-line_rows_other pk order action index (t ∷ lines) h =
    ground (arith, keep-line_rows_other pk order action (suc index) lines)

keep-line_rows :
    (pk action index : ℕ) (lines : List Tender)
    → keep (is_line_of pk) (line_rows pk action index lines) ≡ line_rows pk action index lines
unfolding line_rows
keep-line_rows pk action index [] = refl
keep-line_rows pk action index (t ∷ lines) =
    let test : (pk == pk) ≡ true = ground arith in
    rw (test, keep-line_rows pk action (suc index) lines) refl

-- New rows stand in the order of their indices.
sort-line_rows :
    (pk action index : ℕ) (lines : List Tender)
    → sort_by index_before (line_rows pk action index lines) ≡ line_rows pk action index lines
unfolding line_rows sort_by insert_by
sort-line_rows pk action index [] = refl
sort-line_rows pk action index (t ∷ []) = refl
sort-line_rows pk action index (t ∷ u ∷ lines) =
    let test : leb index (suc index) ≡ true = ground arith in
    rw (sort-line_rows pk action (suc index) (u ∷ lines), test) refl

tender-line_rows :
    (pk action index : ℕ) (lines : List Tender)
    → map tender (line_rows pk action index lines) ≡ lines
unfolding line_rows
tender-line_rows pk action index [] = refl
tender-line_rows pk action index (t ∷ lines) =
    rw (tender-line_rows pk action (suc index) lines) refl

-- What an order without tender rows has after its lines are stored.
pub stored_tenders-line_rows :
    (pk action : ℕ) (lines : List Tender) (rows : List Line)
    → keep (is_line_of pk) rows ≡ []
    → stored_tenders pk (rows ++ line_rows pk action 0 lines) ≡ lines
unfolding stored_tenders
stored_tenders-line_rows pk action lines rows h =
    rw
      (
        keep-append (is_line_of pk) rows (line_rows pk action 0 lines),
        h,
        keep-line_rows pk action 0 lines,
        sort-line_rows pk action 0 lines,
      )
      (tender-line_rows pk action 0 lines)
