-- ===== src/Customers/Checkout/Frozen.antt =====
-- Sequences of checkouts. Each locks its order first, so an interleaving is a sequence of whole calls.
use alpha_pos_local.Base.{
  ℕ, ◌≡◌, ◌≢◌, refl, sym, ap, ◌∙◌, true, false, some, List, [], ◌∷◌, ◌++◌, find, keep, inl, inr,
  arith, Outcome, ok, err,
}
use alpha_pos_local.Customers.Checkout.Request.{Refusal}
use alpha_pos_local.Customers.Checkout.Orders.{Order, Store, Receipt, order_is, is_line_of}
use alpha_pos_local.Customers.Checkout.Pay.{
  Host, Call, Bill, paid_order, persist, or_fresh, mark_as_paid,
}
use alpha_pos_local.Customers.Checkout.Settled.{Done, paid_ok}
use alpha_pos_local.Customers.Checkout.Rows.{
  found-pk, find-save_other, paid_order-pk, keep-append, keep-line_rows_other,
}

-- A refused call is rolled back.
abbrev pub after : Outcome Refusal (Receipt × Store) → Store → Store
after (ok (r, s')) s = s'
after (err e) s = s

unfoldable pub run_all : Host → List Call → Store → Store
run_all host [] s = s
run_all host (c ∷ calls) s = run_all host calls (after (mark_as_paid host c s) s)

-- The order and its tender rows.
abbrev pub SameSale : ℕ → Store → Store → Type 0
SameSale pk s s' =
    (find (order_is pk) s'.orders ≡ find (order_is pk) s.orders)
    × (keep (is_line_of pk) s'.lines ≡ keep (is_line_of pk) s.lines)

abbrev pub IsPaid : ℕ → Store → Type 0
IsPaid pk s = (o : Order) × (find (order_is pk) s.orders ≡ some o) × (o.is_paid ≡ true)

[]-append {ℓ} : {A : Type ℓ} (xs ys : List A) → ys ≡ [] → xs ++ ys ≡ xs
[]-append [] ys h = h
[]-append (x ∷ xs) ys h = ap (λ l. x ∷ l) ([]-append xs ys h)

persist-SameSale :
    (p : Order) (c : Call) (b : Bill) (pk : ℕ) (s : Store)
    → p.pk ≢ pk
    → SameSale pk s (persist p c b s)
unfolding persist
persist-SameSale p c b pk s h = (
  find-save_other p pk s.orders h,
  keep-append (is_line_of pk) s.lines _
      ∙ []-append (keep (is_line_of pk) s.lines) _
          (keep-line_rows_other pk p.pk (or_fresh c.action_id c.fresh_action) 0 b.lines h),
)

-- A call for another order, or one for an order that is paid already.
Done-SameSale :
    (host : Host) (c : Call) (s s' : Store) (r : Receipt) (o : Order) (pk : ℕ)
    → find (order_is c.order_id) s.orders ≡ some o
    → IsPaid pk s
    → Done host c s s' r o
    → SameSale pk s s'
Done-SameSale host c s s' r o pk found paid (inr (t, same)) = rw same (refl, refl)
Done-SameSale host c s s' r o pk found (p, at, t) (inl (f, d)) = rw d.stored (
    persist-SameSale (paid_order o c d.shift d.bill_of) c d.bill_of pk s (λ e.
      let q : o.pk ≡ pk = sym (paid_order-pk o c d.shift d.bill_of) ∙ e in
      let q' : c.order_id ≡ pk = sym (found-pk c.order_id s.orders o found) ∙ q in
      let same : some o ≡ some p = sym found ∙ ap (λ k. find (order_is k) s.orders) q' ∙ at in
      let eq : o ≡ p = ground arith in
      absurd (let clash : true ≡ false = sym t ∙ ap (λ x. x.is_paid) (sym eq) ∙ f in ground arith)))

after-SameSale :
    (host : Host) (c : Call) (s : Store) (pk : ℕ) (m : Outcome Refusal (Receipt × Store))
    → mark_as_paid host c s ≡ m
    → IsPaid pk s
    → SameSale pk s (after m s)
after-SameSale host c s pk (err e) q paid = (refl, refl)
after-SameSale host c s pk (ok (r, s')) q paid =
    let (o, found, d) = paid_ok host c s s' r q in Done-SameSale host c s s' r o pk found paid d

still-IsPaid : (pk : ℕ) (s s' : Store) → SameSale pk s s' → IsPaid pk s → IsPaid pk s'
still-IsPaid pk s s' same (o, found, t) = (o, same.0 ∙ found, t)

-- Once an order is paid, no calls of any actors change its row or its tender rows.
pub run_all-SameSale :
    (host : Host) (calls : List Call) (pk : ℕ) (s : Store)
    → IsPaid pk s
    → SameSale pk s (run_all host calls s)
unfolding run_all
run_all-SameSale host [] pk s paid = (refl, refl)
run_all-SameSale host (c ∷ calls) pk s paid =
    let s' : Store = after (mark_as_paid host c s) s in
    let one : SameSale pk s s' = after-SameSale host c s pk (mark_as_paid host c s) refl paid in
    let rest = run_all-SameSale host calls pk s' (still-IsPaid pk s s' one paid) in
    (rest.0 ∙ one.0, rest.1 ∙ one.1)
