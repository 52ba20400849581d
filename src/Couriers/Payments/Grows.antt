-- ===== src/Couriers/Payments/Grows.antt =====
-- What every write of couriers/payments.py keeps: rows progress, evidence is only added, a paid
-- header stays paid, and the till's rows are left alone.
use alpha_pos_local.Base.{
  ℕ, ◌≡◌, ◌≢◌, ◌⊎◌, refl, sym, ap, subst, ◌∙◌, Bool, true, false, Option, none, some, List, [], ◌∷◌,
  ◌++◌, ◌==◌, inl, inr, find, if◌then◌else◌, Outcome, ok, err, bind_ok, arith, Bool-cases, is_some,
}
use alpha_pos_local.Base.Text.{Text}
use alpha_pos_local.Couriers.Payments.Rows.{
  Refund, Status, pending, paid, refunded, failed, Order, Evidence, Payment, Store, Refusal, Answer,
  Effect, order_is, payment_is, save_payment, save_order,
}
use alpha_pos_local.Couriers.Payments.Evidence.{
  Totals, evidence_values, ensure_row, ensure_found, ensure_evidence, is_evidence_of,
  payment_evidence,
}
use alpha_pos_local.Couriers.Payments.Header.{
  recorded, covered, recomputed, recompute, write_header,
}
use alpha_pos_local.Couriers.Payments.Create.{Host, with_evidence, emit}
use alpha_pos_local.Couriers.Payments.Steps.{
  Steps, Steps-refl, Steps-trans, Steps-save, Steps-append, Progress,
}

-- The method and the time of a payment stay as they are, or are written anew; they are not cleared.
abbrev pub SameMeans : Order → Order → Type 0
SameMeans o p =
    (p.payment_method ≡ o.payment_method) × (p.paid_at ≡ o.paid_at)
    ⊎ (is_some p.payment_method ≡ true) × (is_some p.paid_at ≡ true)

-- An order that is paid stays paid, with a method and a time, and keeps the time of its accounting.
abbrev pub StaysPaid : List Order → List Order → Type 0
StaysPaid xs ys =
    (k : ℕ) (o : Order)
    → find (order_is k) xs ≡ some o
    → o.is_paid ≡ true
    → (p : Order) × (find (order_is k) ys ≡ some p)
      × (p.is_paid ≡ true)
      × (p.accounting_recorded_at ≡ o.accounting_recorded_at)
      × (p.total_amount ≡ o.total_amount)
      × SameMeans o p

abbrev pub Extends : List Evidence → List Evidence → Type 0
Extends xs ys = (new : List Evidence) × (ys ≡ xs ++ new)

pub record Grows (s s' : Store) : Type 0 where
  pub payments : Steps s.payments s'.payments
  pub evidence : Extends s.evidence s'.evidence
  pub headers : StaysPaid s.orders s'.orders
  pub same_till : s'.till ≡ s.till

means_trans : (o p q : Order) → SameMeans o p → SameMeans p q → SameMeans o q
means_trans o p q a (inr set) = inr set
means_trans o p q (inl (m, t)) (inl (m', t')) = inl (m' ∙ m, t' ∙ t)
means_trans o p q (inr (m, t)) (inl (m', t')) = inr (ap is_some m' ∙ m, ap is_some t' ∙ t)

StaysPaid-trans : (xs ys zs : List Order) → StaysPaid xs ys → StaysPaid ys zs → StaysPaid xs zs
StaysPaid-trans xs ys zs a b k o e t =
    let (p, at, t', c, m, w) = a k o e t in
    let (q, at', t'', c', m', w') = b k p at t' in
    (q, at', t'', c' ∙ c, m' ∙ m, means_trans o p q w w')

append_assoc : (xs ys zs : List Evidence) → (xs ++ ys) ++ zs ≡ xs ++ (ys ++ zs)
append_assoc [] ys zs = refl
append_assoc (x ∷ xs) ys zs = ap (λ l. x ∷ l) (append_assoc xs ys zs)

append_none : (xs : List Evidence) → xs ≡ xs ++ []
append_none [] = refl
append_none (x ∷ xs) = ap (λ l. x ∷ l) (append_none xs)

pub Grows-refl : (s : Store) → Grows s s
Grows-refl s = record {
  payments = Steps-refl s.payments;
  evidence = ([], append_none s.evidence);
  headers = λ k o e t. (o, e, t, refl, refl, inl (refl, refl));
  same_till = refl;
}

pub Grows-trans : (s t u : Store) → Grows s t → Grows t u → Grows s u
Grows-trans s t u a b = record {
  payments = Steps-trans s.payments t.payments u.payments a.payments b.payments;
  evidence =
      let (xs, e) = a.evidence in
      let (ys, f) = b.evidence in
      (xs ++ ys, f ∙ ap (λ l. l ++ ys) e ∙ append_assoc s.evidence xs ys);
  headers = StaysPaid-trans s.orders t.orders u.orders a.headers b.headers;
  same_till = b.same_till ∙ a.same_till;
}

pub save-Grows :
    (p q : Payment) (s : Store)
    → q.pk ≡ p.pk
    → find (payment_is p.pk) s.payments ≡ some p
    → Progress p q
    → Grows s (record s { payments = save_payment q s.payments })
save-Grows p q s h at g = record {
  payments = Steps-save p q s.payments h at g;
  evidence = ([], append_none s.evidence);
  headers = λ k o e t. (o, e, t, refl, refl, inl (refl, refl));
  same_till = refl;
}

pub append-Grows :
    (ps : List Payment) (s : Store) → Grows s (record s { payments = s.payments ++ ps })
append-Grows ps s = record {
  payments = Steps-append s.payments ps;
  evidence = ([], append_none s.evidence);
  headers = λ k o e t. (o, e, t, refl, refl, inl (refl, refl));
  same_till = refl;
}

-- The outbox and the refunds are no part of it.
pub emit-Grows : (effects : List Effect) (s t : Store) → Grows s t → Grows s (emit effects t)
emit-Grows effects s t g = record {
  payments = g.payments;
  evidence = g.evidence;
  headers = g.headers;
  same_till = g.same_till;
}

ensure_found-Extends :
    (v : Evidence) (rows rows' : List Evidence) (found : Option Evidence)
    → ensure_found v rows found ≡ ok rows'
    → Extends rows rows'
unfolding ensure_found
ensure_found-Extends v rows rows' none e = (v ∷ [], ground arith)
ensure_found-Extends v rows rows' (some w) e =
    let same : rows ≡ rows' = ground arith in ([], sym same ∙ append_none rows)

ensure_row-Extends :
    (v : Evidence) (rows rows' : List Evidence) → ensure_row v rows ≡ ok rows' → Extends rows rows'
unfolding ensure_row
ensure_row-Extends v rows rows' e =
    ensure_found-Extends v rows rows' (find (is_evidence_of v.branch_id v.source_id) rows) e

-- Ensuring the evidence touches no other row.
pub ensure_evidence_ok :
    (is_concrete : Text → Bool) (p : Payment) (o : Order) (s s' : Store)
    → ensure_evidence is_concrete p o s ≡ ok s'
    → Grows s s' × (s'.orders ≡ s.orders) × (s'.payments ≡ s.payments)
unfolding ensure_evidence
ensure_evidence_ok is_concrete p o s s' e =
    let (v, values, e1) = bind_ok (evidence_values is_concrete p o) _ e in
    let (rows, ensured, e2) = bind_ok (ensure_row v s.evidence) _ e1 in
    let made : record s { evidence = rows } ≡ s' = ground arith in
    subst (λ t. Grows s t × (t.orders ≡ s.orders) × (t.payments ≡ s.payments)) made
      (
        record {
          payments = Steps-refl s.payments;
          evidence = ensure_row-Extends v s.evidence rows ensured;
          headers = λ k q f t. (q, f, t, refl, refl, inl (refl, refl));
          same_till = refl;
        },
        refl,
        refl,
      )

recomputed-pk :
    (t : Totals) (at : Option ℕ) (now : ℕ) (o : Order) → (recomputed t at now o).pk ≡ o.pk
unfolding recomputed
recomputed-pk t at now o = ground arith

recorded_paid :
    (at : Option ℕ) (o : Order) → o.is_paid ≡ true → recorded o at ≡ o.accounting_recorded_at
recorded_paid at o h = ground arith

recomputed-paid :
    (t : Totals) (at : Option ℕ) (now : ℕ) (o : Order)
    → o.is_paid ≡ true
    → ((recomputed t at now o).is_paid ≡ true)
      × ((recomputed t at now o).accounting_recorded_at ≡ o.accounting_recorded_at)
      × ((recomputed t at now o).total_amount ≡ o.total_amount)
      × SameMeans o (recomputed t at now o)
unfolding recomputed
recomputed-paid t at now o h = elim (Bool-cases (covered t)) [
  | inl c ↦ rw c (refl, recorded_paid at o h, refl, inr (refl, refl))
  | inr d ↦ rw (d, h) (refl, refl, refl, inl (refl, refl))
]

find-save_order :
    (o p : Order) (k : ℕ) (xs : List Order)
    → p.pk ≡ k
    → find (order_is k) xs ≡ some o
    → find (order_is k) (save_order p xs) ≡ some p
unfolding save_order
find-save_order o p k [] h e = absurd (ground arith)
find-save_order o p k (r ∷ xs) h e = ground (arith, find-save_order o p k xs)

find-save_other :
    (p : Order) (k : ℕ) (xs : List Order)
    → p.pk ≢ k
    → find (order_is k) (save_order p xs) ≡ find (order_is k) xs
unfolding save_order
find-save_other p k [] h = refl
find-save_other p k (r ∷ xs) h = ground (arith, find-save_other p k xs)

recomputed-StaysPaid :
    (t : Totals) (at : Option ℕ) (now : ℕ) (o : Order) (xs : List Order)
    → find (order_is o.pk) xs ≡ some o
    → StaysPaid xs (save_order (recomputed t at now o) xs)
recomputed-StaysPaid t at now o xs found k q e h = elim (Bool-cases (o.pk == k)) [
  | inl y ↦
      let key : o.pk ≡ k = ground arith in
      let one : some o ≡ some q = sym found ∙ ap (λ n. find (order_is n) xs) key ∙ e in
      let row : q ≡ o = ground arith in
      let kept = recomputed-paid t at now o (ap (λ x. x.is_paid) (sym row) ∙ h) in
      (
        recomputed t at now o,
        find-save_order q (recomputed t at now o) k xs (recomputed-pk t at now o ∙ key) e,
        kept.0,
        kept.1 ∙ ap (λ x. x.accounting_recorded_at) (sym row),
        kept.2 ∙ ap (λ x. x.total_amount) (sym row),
        subst (λ (x : Order). SameMeans x (recomputed t at now o)) (sym row) kept.3,
      )
  | inr f ↦
      let other : (recomputed t at now o).pk ≢ k =
        λ y. (let key : o.pk ≡ k = sym (recomputed-pk t at now o) ∙ y in absurd (ground arith)) in
      (q, find-save_other (recomputed t at now o) k xs other ∙ e, h, refl, refl, inl (refl, refl))
]

write_header-Grows :
    (m : Outcome Refusal Totals) (o : Order) (at : Option ℕ) (now : ℕ) (s : Store)
    → find (order_is o.pk) s.orders ≡ some o
    → Grows s (write_header m o at now s)
unfolding write_header
write_header-Grows (err e) o at now s found = Grows-refl s
write_header-Grows (ok t) o at now s found = record {
  payments = Steps-refl s.payments;
  evidence = ([], append_none s.evidence);
  headers = recomputed-StaysPaid t at now o s.orders found;
  same_till = refl;
}

pub recompute-Grows :
    (is_concrete : Text → Bool) (o : Order) (at : Option ℕ) (now : ℕ) (s : Store)
    → find (order_is o.pk) s.orders ≡ some o
    → Grows s (recompute is_concrete o at now s)
unfolding recompute
recompute-Grows is_concrete o at now s found =
    write_header-Grows (payment_evidence is_concrete o s) o at now s found

-- A step behind the evidence: either everything is rolled back, or the rest goes on.
pub with_evidence-Grows :
    (host : Host) (p : Payment) (o : Order) (start s : Store) (next : Store → Answer)
    → Grows start s
    → ((s' : Store) → s'.orders ≡ s.orders → Grows start s' → Grows start (next s').1)
    → Grows start (with_evidence host p o start s next).1
unfolding with_evidence
with_evidence-Grows host p o start s next g f =
    with_outcome (ensure_evidence host.is_concrete p o s) refl
  where
    with_outcome :
        (m : Outcome Refusal Store)
        → ensure_evidence host.is_concrete p o s ≡ m
        → Grows start (elim m as (λ x. Answer) [ err e ↦ (err e, start) | ok s' ↦ next s' ]).1
    with_outcome (err e) q = Grows-refl start
    with_outcome (ok s') q =
        let (grown, orders, rows) = ensure_evidence_ok host.is_concrete p o s s' q in
        f s' orders (Grows-trans start s s' g grown)

-- The cases of an answer.
module _ (start : Store) where
  pub outcome-Grows :
      {A : Type 0} (m : Outcome Refusal A) (f : Refusal → Answer) (g : A → Answer)
      → ((e : Refusal) → Grows start (f e).1)
      → ((a : A) → m ≡ ok a → Grows start (g a).1)
      → Grows start (elim m as (λ x. Answer) [ err e ↦ f e | ok a ↦ g a ]).1
  outcome-Grows (err e) f g h k = h e
  outcome-Grows (ok a) f g h k = k a refl

  pub option-Grows :
      {A : Type 0} (m : Option A) (f : Answer) (g : A → Answer)
      → Grows start f.1
      → ((a : A) → m ≡ some a → Grows start (g a).1)
      → Grows start (elim m as (λ x. Answer) [ none ↦ f | some a ↦ g a ]).1
  option-Grows none f g h k = h
  option-Grows (some a) f g h k = k a refl

  pub if-Grows :
      (test : Bool) (x y : Answer)
      → Grows start x.1
      → Grows start y.1
      → Grows start (if test then x else y).1
  if-Grows true x y h k = h
  if-Grows false x y h k = k

  pub status-Grows :
      (t : Status) (a b c d : Answer)
      → (t ≡ pending → Grows start a.1)
      → Grows start b.1
      → Grows start c.1
      → Grows start d.1
      → Grows start
          (elim t as (λ x. Answer) [ pending ↦ a | paid ↦ b | refunded ↦ c | failed ↦ d ]).1
  status-Grows pending a b c d h i j k = h refl
  status-Grows paid a b c d h i j k = i
  status-Grows refunded a b c d h i j k = j
  status-Grows failed a b c d h i j k = k

pub refunds-Grows :
    (refunds : List Refund) (s t : Store) → Grows s t → Grows s (record t { refunds = refunds })
refunds-Grows refunds s t g = record {
  payments = g.payments;
  evidence = g.evidence;
  headers = g.headers;
  same_till = g.same_till;
}
