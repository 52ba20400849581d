-- ===== src/Couriers/Payments/Money.antt =====
-- The evidence of an order never exceeds its total, and its header follows the evidence:
-- `_payment_evidence` and `_recompute_order_paid` of couriers/payments.py.
use alpha_pos_local.Base.{
  ℕ, ◌+◌, ◌≤◌, ◌≡◌, refl, sym, ap, subst, ◌∙◌, Bool, true, false, not, ◌&&◌, Option, some, List, [],
  ◌∷◌, ltb, find, ok, or_raise, raise_if, bind_ok, arith, ◌↔◌,
}
use alpha_pos_local.Base.Int.{pos}
use alpha_pos_local.Base.Text.{Text}
use alpha_pos_local.Couriers.Payments.Rows.{Order, Store, Refusal, overpaid, order_is, save_order}
use alpha_pos_local.Couriers.Payments.Evidence.{
  Sum, Totals, till_sum, external_sum, legacy_sum, till_of, external_of, legacy_of, non_negative,
  no_rows, combine, payment_evidence,
}
use alpha_pos_local.Couriers.Payments.Header.{covered, recomputed, write_header, recompute}

combine_bound :
    (due : ℕ) (rows : Bool) (till external legacy : Sum) (u : Unit {0})
    → raise_if {E = Refusal} (ltb due (till.exact + (external.exact + legacy.exact))) overpaid
      ≡ ok u
    → (combine due rows till external legacy).total ≤ due
unfolding combine
combine_bound due rows till external legacy u e =
    let exact : ℕ = till.exact + (external.exact + legacy.exact) in ground arith

combine-due :
    (due : ℕ) (rows : Bool) (till external legacy : Sum)
    → (combine due rows till external legacy).due ≡ due
unfolding combine
combine-due due rows till external legacy = refl

-- Where the evidence of an order has no defect, it adds up to at most the total of the order.
pub payment_evidence_bound :
    (is_concrete : Text → Bool) (o : Order) (s : Store) (t : Totals)
    → payment_evidence is_concrete o s ≡ ok t
    → (t.total ≤ t.due) × (o.total_amount ≡ pos t.due)
unfolding payment_evidence
payment_evidence_bound is_concrete o s t e =
    let (till, h1, e1) = bind_ok (till_sum is_concrete o.branch_id (till_of o s)) _ e in
    let (due, h2, e2) = bind_ok (or_raise (non_negative o.total_amount) overpaid) _ e1 in
    let (u, h3, e3) = bind_ok (raise_if (ltb due till.exact) overpaid) _ e2 in
    let (external, h4, e4) =
      bind_ok (external_sum is_concrete o.branch_id (external_of o s)) _ e3 in
    let (legacy, h5, e5) = bind_ok (legacy_sum is_concrete o.branch_id (legacy_of o s)) _ e4 in
    let (v, h6, e6) =
      bind_ok (raise_if (ltb due (till.exact + (external.exact + legacy.exact))) overpaid) _ e5 in
    let rows : Bool =
      not (no_rows (till_of o s) && no_rows (external_of o s) && no_rows (legacy_of o s)) in
    let made : combine due rows till external legacy ≡ t = ground arith in
    let total : o.total_amount ≡ pos due = ground arith in
    subst (λ x. (x.total ≤ x.due) × (o.total_amount ≡ pos x.due)) made
      (
        subst (λ d. (combine due rows till external legacy).total ≤ d)
            (sym (combine-due due rows till external legacy))
            (combine_bound due rows till external legacy v h6),
        total ∙ ap pos (sym (combine-due due rows till external legacy)),
      )

find-save_order :
    (o p : Order) (k : ℕ) (xs : List Order)
    → p.pk ≡ k
    → find (order_is k) xs ≡ some o
    → find (order_is k) (save_order p xs) ≡ some p
unfolding save_order
find-save_order o p k [] h e = absurd (ground arith)
find-save_order o p k (r ∷ xs) h e = ground (arith, find-save_order o p k xs)

recomputed_paid :
    (t : Totals) (at : Option ℕ) (now : ℕ) (o : Order)
    → o.is_paid ≡ false
    → t.total ≤ t.due
    → (recomputed t at now o).pk ≡ o.pk
      × (((recomputed t at now o).is_paid ≡ true) ↔ ((1 ≤ t.total) × (t.total ≡ t.due)))
unfolding recomputed covered
recomputed_paid t at now o h b = ground arith

-- Where the evidence of an order has no defect, the header of one that is not paid yet becomes paid
-- exactly if the evidence adds up to the whole of a total that is not zero.
pub recompute-paid :
    (is_concrete : Text → Bool) (o p : Order) (at : Option ℕ) (now : ℕ) (s : Store) (t : Totals)
    → find (order_is o.pk) s.orders ≡ some o
    → o.is_paid ≡ false
    → payment_evidence is_concrete o s ≡ ok t
    → find (order_is o.pk) (recompute is_concrete o at now s).orders ≡ some p
    → (p.is_paid ≡ true) ↔ ((1 ≤ t.total) × (t.total ≡ t.due))
unfolding recompute write_header
recompute-paid is_concrete o p at now s t found h e after =
    let bound : t.total ≤ t.due = (payment_evidence_bound is_concrete o s t e).0 in
    let (pk, iff) = recomputed_paid t at now o h bound in
    let saved : find (order_is o.pk) (save_order (recomputed t at now o) s.orders)
        ≡ some (recomputed t at now o) =
      find-save_order o (recomputed t at now o) o.pk s.orders pk found in
    let written : find (order_is o.pk) (save_order (recomputed t at now o) s.orders) ≡ some p =
      rw e at after in
    let same : recomputed t at now o ≡ p = ground arith in
    subst (λ x. (x.is_paid ≡ true) ↔ ((1 ≤ t.total) × (t.total ≡ t.due))) same iff
