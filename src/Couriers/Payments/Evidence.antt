-- ===== src/Couriers/Payments/Evidence.antt =====
-- The synced evidence of a collection, and what the evidence of an order adds up to:
-- `_external_evidence_values`, `_ensure_external_payment_evidence`, `_payment_evidence` and
-- `_capacity_error` of couriers/payments.py.
use alpha_pos_local.Base.{
  ℕ, ◌+◌, ◌-◌, min, max, Bool, true, false, not, ◌&&◌, ◌||◌, Option, none, some, List, [], ◌∷◌,
  ◌++◌, ◌==◌, ltb, find, any, keep, if◌then◌else◌, Outcome, ok, err, ◌>>=◌, ◌>>◌, or_raise,
  raise_if,
}
use alpha_pos_local.Base.Int.{ℤ, pos, negsuc}
use alpha_pos_local.Base.Text.{Text, codes, text_eq, is_blank, strip}
use alpha_pos_local.Couriers.Payments.Rows.{
  Order, TillRow, Evidence, Payment, Store, Refusal, evidence_conflict, till_defect,
  evidence_defect, overpaid, nothing_due, already_paid, over_capacity, is_settled, method_of,
  positive, hundredfold, int_eq, or_created,
}

abbrev pub is_evidence_of : Text → Text → Evidence → Bool
is_evidence_of branch source e = text_eq e.branch_id branch && text_eq e.source_id source

-- A row that is there has to agree in every column.
unfoldable pub same_evidence : Evidence → Evidence → Bool
same_evidence v e =
    e.order_id == v.order_id
    && text_eq e.method v.method
    && int_eq e.amount v.amount
    && e.occurred_at == v.occurred_at
    && not e.is_deleted

unfoldable pub ensure_found :
    Evidence → List Evidence → Option Evidence → Outcome Refusal (List Evidence)
ensure_found v rows none = ok (rows ++ v ∷ [])
ensure_found v rows (some e) = if same_evidence v e then ok rows else err evidence_conflict

unfoldable pub ensure_row : Evidence → List Evidence → Outcome Refusal (List Evidence)
ensure_row v rows = ensure_found v rows (find (is_evidence_of v.branch_id v.source_id) rows)

-- What some rows add up to: cash that was tendered, and exact amounts with their methods.
pub record Sum : Type 0 where
  pub cash : ℕ
  pub exact : ℕ
  pub methods : List Text
  pub latest : Option ℕ

abbrev pub empty : Sum
empty = record { cash = 0; exact = 0; methods = []; latest = none }

abbrev pub later : ℕ → Option ℕ → Option ℕ
later t none = some t
later t (some u) = some (max t u)

abbrev pub add_cash : ℕ → ℕ → Sum → Sum
add_cash amount at t = record t { cash = amount + t.cash; latest = later at t.latest }

abbrev pub add_exact : ℕ → Text → ℕ → Sum → Sum
add_exact amount method at t = record t {
  exact = amount + t.exact;
  methods = method ∷ t.methods;
  latest = later at t.latest;
}

abbrev pub is_cash : Text → Bool
is_cash m = text_eq m (codes "CASH")

-- A row of no amount counts for nothing.
unfoldable pub add_till : TillRow → Sum → Sum
add_till r t = elim (positive r.amount) [
  | none ↦ t
  | some n ↦
      if is_cash r.method then add_cash n r.created_at t else add_exact n r.method r.created_at t
]

abbrev pub is_negative : ℤ → Bool
is_negative (pos n) = false
is_negative (negsuc n) = true

abbrev pub till_of : Order → Store → List TillRow
till_of o s = keep (λ r. r.order_id == o.pk && not r.is_deleted) s.till

abbrev pub external_of : Order → Store → List Evidence
external_of o s = keep (λ r. r.order_id == o.pk && not r.is_deleted) s.evidence

-- Settled collections that no evidence of the order mirrors.
abbrev pub legacy_of : Order → Store → List Payment
legacy_of o s =
    keep
      (λ p.
        p.order_id == o.pk
        && is_settled p.status
        && not (any (λ r. text_eq r.source_id p.external_id) (external_of o s)))
      s.payments

abbrev pub no_rows {ℓ} : {A : Type ℓ} → List A → Bool
no_rows [] = true
no_rows (x ∷ xs) = false

-- What `_payment_evidence` returns.
pub record Totals : Type 0 where
  pub due : ℕ
  pub total : ℕ
  pub methods : List Text
  pub latest : Option ℕ
  pub has_rows : Bool

abbrev pub latest_of : Option ℕ → Option ℕ → Option ℕ
latest_of none t = t
latest_of (some u) t = later u t

abbrev pub non_negative : ℤ → Option ℕ
non_negative (pos n) = some n
non_negative (negsuc n) = none

-- Cash is applied to what the exact rows leave of the bill; the rest of it is change.
unfoldable pub combine : ℕ → Bool → Sum → Sum → Sum → Totals
combine due rows till external legacy =
    let exact = till.exact + (external.exact + legacy.exact) in
    let applied = min till.cash (due - exact) in
    record {
      due = due;
      total = exact + applied;
      methods =
          (if applied == 0 then [] else codes "CASH" ∷ [])
          ++ (till.methods ++ (external.methods ++ legacy.methods));
      latest = latest_of till.latest (latest_of external.latest legacy.latest);
      has_rows = rows;
    }

-- The concrete methods of `Order.PaymentMethod`.
module _ (is_concrete : Text → Bool) where
  abbrev pub concrete_method : Text → Option Text
  concrete_method provider = elim (method_of provider) [
    | none ↦ none
    | some m ↦ if is_concrete m then some m else none
  ]

  -- `_external_evidence_values`
  unfoldable pub evidence_values : Payment → Order → Outcome Refusal Evidence
  evidence_values p o = do
    raise_if (not (is_settled p.status)) evidence_conflict
    raise_if (not (p.order_id == o.pk)) evidence_conflict
    raise_if (is_blank (strip o.branch_id)) evidence_conflict
    raise_if
        (not (is_blank (strip p.branch_id))
          && not (text_eq (strip p.branch_id) (strip o.branch_id)))
        evidence_conflict
    raise_if (is_blank (strip p.external_id)) evidence_conflict
    method ← or_raise (concrete_method p.provider) evidence_conflict
    amount ← or_raise (positive (hundredfold p.amount)) evidence_conflict
    ok (record {
      order_id = o.pk;
      branch_id = strip o.branch_id;
      source_id = p.external_id;
      method = method;
      amount = pos amount;
      occurred_at = or_created p.paid_at p.created_at;
      is_deleted = false;
    })

  -- `_ensure_external_payment_evidence`
  unfoldable pub ensure_evidence : Payment → Order → Store → Outcome Refusal Store
  ensure_evidence p o s = do
    v ← evidence_values p o
    rows ← ensure_row v s.evidence
    ok (record s { evidence = rows })

  -- The order of the rows only decides which of several defects is the one that is reported.
  unfoldable pub till_sum : Text → List TillRow → Outcome Refusal Sum
  till_sum branch [] = ok empty
  till_sum branch (r ∷ rows) = do
    raise_if
        (not (text_eq r.branch_id branch) || not (is_concrete r.method) || is_negative r.amount)
        till_defect
    t ← till_sum branch rows
    ok (add_till r t)

  unfoldable pub external_sum : Text → List Evidence → Outcome Refusal Sum
  external_sum branch [] = ok empty
  external_sum branch (r ∷ rows) = do
    raise_if (not (text_eq r.branch_id branch) || not (is_concrete r.method)) evidence_defect
    amount ← or_raise (positive r.amount) evidence_defect
    t ← external_sum branch rows
    ok (add_exact amount r.method r.occurred_at t)

  unfoldable pub legacy_sum : Text → List Payment → Outcome Refusal Sum
  legacy_sum branch [] = ok empty
  legacy_sum branch (p ∷ rows) = do
    raise_if (not (text_eq p.branch_id branch)) evidence_defect
    method ← or_raise (concrete_method p.provider) evidence_defect
    amount ← or_raise (positive (hundredfold p.amount)) evidence_defect
    t ← legacy_sum branch rows
    ok (add_exact amount method (or_created p.paid_at p.created_at) t)

  -- `_payment_evidence`. A negative total is exceeded by any sum.
  unfoldable pub payment_evidence : Order → Store → Outcome Refusal Totals
  payment_evidence o s = do
    till ← till_sum o.branch_id (till_of o s)
    due ← or_raise (non_negative o.total_amount) overpaid
    raise_if (ltb due till.exact) overpaid
    external ← external_sum o.branch_id (external_of o s)
    legacy ← legacy_sum o.branch_id (legacy_of o s)
    raise_if (ltb due (till.exact + (external.exact + legacy.exact))) overpaid
    ok (
        combine due
          (not (no_rows (till_of o s) && no_rows (external_of o s) && no_rows (legacy_of o s))) till
          external legacy)

  -- `_capacity_error`, of an amount in whole so'm.
  unfoldable pub check_capacity : Order → ℤ → Store → Outcome Refusal (Unit {0})
  check_capacity o amount s = do
    t ← payment_evidence o s
    raise_if (t.due == 0) nothing_due
    raise_if (o.is_paid && not t.has_rows) already_paid
    elim (positive (hundredfold amount)) [
      | none ↦ ok tt
      | some n ↦ raise_if (ltb (t.due - t.total) n) over_capacity
    ]
