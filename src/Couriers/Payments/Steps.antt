-- ===== src/Couriers/Payments/Steps.antt =====
-- How a call may change the rows of courier payments. The identity of a collection never changes, and
-- neither does its outcome once it has one.
use alpha_pos_local.Base.{
  ℕ, ◌≡◌, ◌≢◌, refl, sym, ap, subst, ◌∙◌, some, List, [], ◌∷◌, ◌++◌, ◌==◌, ◌⊎◌, inl, inr, find,
  arith, Bool-cases,
}
use alpha_pos_local.Base.Sorting.{find-append}
use alpha_pos_local.Couriers.Payments.Rows.{pending, Payment, payment_is, save_payment}

pub record Progress (p q : Payment) : Type 0 where
  pub same_order : q.order_id ≡ p.order_id
  pub same_courier : q.courier_id ≡ p.courier_id
  pub same_provider : q.provider ≡ p.provider
  pub same_amount : q.amount ≡ p.amount
  pub outcome : (p.status ≡ pending) ⊎ (q.status ≡ p.status) × (q.paid_at ≡ p.paid_at)

pub Progress-refl : (p : Payment) → Progress p p
Progress-refl p = record {
  same_order = refl;
  same_courier = refl;
  same_provider = refl;
  same_amount = refl;
  outcome = inr (refl, refl);
}

Progress-trans : (p q r : Payment) → Progress p q → Progress q r → Progress p r
Progress-trans p q r a b = record {
  same_order = b.same_order ∙ a.same_order;
  same_courier = b.same_courier ∙ a.same_courier;
  same_provider = b.same_provider ∙ a.same_provider;
  same_amount = b.same_amount ∙ a.same_amount;
  outcome = joined a.outcome b.outcome;
}
  where
    joined :
        (p.status ≡ pending) ⊎ (q.status ≡ p.status) × (q.paid_at ≡ p.paid_at)
        → (q.status ≡ pending) ⊎ (r.status ≡ q.status) × (r.paid_at ≡ q.paid_at)
        → (p.status ≡ pending) ⊎ (r.status ≡ p.status) × (r.paid_at ≡ p.paid_at)
    joined (inl w) y = inl w
    joined (inr (e, f)) (inl w) = inl (sym e ∙ w)
    joined (inr (e, f)) (inr (g, h)) = inr (g ∙ e, h ∙ f)

-- Every row is still there under its key, and has only progressed.
abbrev pub Steps : List Payment → List Payment → Type 0
Steps xs ys =
    (k : ℕ) (p : Payment)
    → find (payment_is k) xs ≡ some p
    → (q : Payment) × (find (payment_is k) ys ≡ some q) × Progress p q

pub Steps-refl : (xs : List Payment) → Steps xs xs
Steps-refl xs k p e = (p, e, Progress-refl p)

pub Steps-trans : (xs ys zs : List Payment) → Steps xs ys → Steps ys zs → Steps xs zs
Steps-trans xs ys zs a b k p e =
    let (q, at, first) = a k p e in
    let (r, at', second) = b k q at in (r, at', Progress-trans p q r first second)

pub find-save_same :
    (p q : Payment) (k : ℕ) (xs : List Payment)
    → q.pk ≡ k
    → find (payment_is k) xs ≡ some p
    → find (payment_is k) (save_payment q xs) ≡ some q
unfolding save_payment
find-save_same p q k [] h e = absurd (ground arith)
find-save_same p q k (r ∷ xs) h e = ground (arith, find-save_same p q k xs)

find-save_other :
    (q : Payment) (k : ℕ) (xs : List Payment)
    → q.pk ≢ k
    → find (payment_is k) (save_payment q xs) ≡ find (payment_is k) xs
unfolding save_payment
find-save_other q k [] h = refl
find-save_other q k (r ∷ xs) h = ground (arith, find-save_other q k xs)

-- A save of a row that is there.
pub Steps-save :
    (p q : Payment) (xs : List Payment)
    → q.pk ≡ p.pk
    → find (payment_is p.pk) xs ≡ some p
    → Progress p q
    → Steps xs (save_payment q xs)
Steps-save p q xs h at g k r e = elim (Bool-cases (q.pk == k)) [
  | inl t ↦
      let same : q.pk ≡ k = ground arith in
      let key : p.pk ≡ k = sym h ∙ same in
      let one : some p ≡ some r = sym at ∙ ap (λ n. find (payment_is n) xs) key ∙ e in
      let row : p ≡ r = ground arith in
      (q, find-save_same r q k xs same e, subst (λ x. Progress x q) row g)
  | inr f ↦
      let other : q.pk ≢ k = ground arith in (r, find-save_other q k xs other ∙ e, Progress-refl r)
]

pub Steps-append : (xs ys : List Payment) → Steps xs (xs ++ ys)
Steps-append xs ys k p e = (p, find-append (payment_is k) xs ys p e, Progress-refl p)
