-- ===== src/Customers/Checkout/Dominant.antt =====
-- The method that the hint of a split payment has to name, and the rounding of the bill:
-- `_dominant_payment_method` and `effective_total` of customers/services/order_service.py.
use alpha_pos_local.Base.{
  ℕ, ◌+◌, ◌-◌, ◌*◌, ◌≤◌, ◌<◌, ◌≡◌, refl, sym, ap, subst, ◌∙◌, false, some, List, [], ◌∷◌, ltb,
  if◌then◌else◌, inl, inr, arith, Bool-cases, All, All-map, ◌%◌,
}
use alpha_pos_local.Base.Sorting.{All-both}
use alpha_pos_local.Base.Text.{Text, text_eq, text_eq→≡, text_eq_refl, text_eq_sym}
use alpha_pos_local.Customers.Checkout.Request.{
  Tender, add_total, totals_from, largest, dominant_of, dominant_payment_method,
}
use alpha_pos_local.Customers.Checkout.Pay.{effective_total}

-- What a method collects over all lines.
unfoldable pub collected : Text → List Tender → ℕ
collected m [] = 0
collected m (t ∷ lines) = (if text_eq t.0 m then t.1 else 0) + collected m lines

-- The total that the dictionary has for a method: 0 where it has none.
unfoldable pub total_at : Text → List Tender → ℕ
total_at m [] = 0
total_at m (t ∷ totals) = if text_eq t.0 m then t.1 else total_at m totals

total_at-add_total :
    (m : Text) (l : Tender) (totals : List Tender)
    → total_at m (add_total l totals) ≡ (if text_eq l.0 m then l.1 else 0) + total_at m totals
unfolding total_at add_total
total_at-add_total m (k, amount) [] = ground arith
total_at-add_total m (k, amount) ((n, total) ∷ totals) = elim (Bool-cases (text_eq n k)) [
  | inl t ↦ let same : n ≡ k = text_eq→≡ n k t in rw t (rw same (ground arith))
  | inr f ↦ elim (Bool-cases (text_eq n m)) [
    | inl u ↦
        let same : n ≡ m = text_eq→≡ n m u in
        let other : text_eq k m ≡ false = text_eq_sym k m ∙ ap (λ x. text_eq x k) (sym same) ∙ f in
        rw (f, other) (rw u (ground arith))
    | inr v ↦ rw f (rw v (total_at-add_total m (k, amount) totals))
  ]
]

total_at-totals_from :
    (m : Text) (totals lines : List Tender)
    → total_at m (totals_from totals lines) ≡ total_at m totals + collected m lines
unfolding totals_from collected
total_at-totals_from m totals [] = ground arith
total_at-totals_from m totals (l ∷ lines) =
    let rest = total_at-totals_from m (add_total l totals) lines in
    let first = total_at-add_total m l totals in ground arith

-- No total is larger.
largest_bound :
    (m : Text) (best : Tender) (totals : List Tender)
    → (best.1 ≤ (largest best totals).1) × (total_at m totals ≤ (largest best totals).1)
unfolding largest total_at
largest_bound m best [] = ground arith
largest_bound m best (t ∷ totals) =
    let next : Tender = if ltb best.1 t.1 then t else best in
    let above : best.1 ≤ next.1 = ground arith in
    let above' : t.1 ≤ next.1 = ground arith in
    let rest : (next.1 ≤ (largest next totals).1) × (total_at m totals ≤ (largest next totals).1) =
      largest_bound m next totals in
    ground arith

All-largest {κ} :
    (P : Tender → Type κ) (best : Tender) (totals : List Tender)
    → P best
    → All P totals
    → P (largest best totals)
unfolding largest
All-largest P best [] p h = p
All-largest P best (t ∷ totals) p h = elim (Bool-cases (ltb best.1 t.1)) [
  | inl y ↦ rw y (All-largest P t totals h.0 h.1)
  | inr f ↦ rw f (All-largest P best totals p h.1)
]

-- A method has one entry.
abbrev Other : Text → Tender → Type 0
Other m t = text_eq t.0 m ≡ false

abbrev IsTable : List Tender → Type 0
IsTable [] = Unit {0}
IsTable (t ∷ totals) = All (Other t.0) totals × IsTable totals

All-Other-add_total :
    (m : Text) (l : Tender) (totals : List Tender)
    → text_eq l.0 m ≡ false
    → All (Other m) totals
    → All (Other m) (add_total l totals)
unfolding add_total
All-Other-add_total m (k, amount) [] f h = (f, tt)
All-Other-add_total m (k, amount) ((n, total) ∷ totals) f h = elim (Bool-cases (text_eq n k)) [
  | inl t ↦ rw t (h.0, h.1)
  | inr g ↦ rw g (h.0, All-Other-add_total m (k, amount) totals f h.1)
]

add_total-IsTable :
    (l : Tender) (totals : List Tender) → IsTable totals → IsTable (add_total l totals)
unfolding add_total
add_total-IsTable (k, amount) [] h = (tt, tt)
add_total-IsTable (k, amount) ((n, total) ∷ totals) h = elim (Bool-cases (text_eq n k)) [
  | inl t ↦ rw t (h.0, h.1)
  | inr g ↦ rw g (
    All-Other-add_total n (k, amount) totals (text_eq_sym k n ∙ g) h.0,
    add_total-IsTable (k, amount) totals h.1,
  )
]

totals_from-IsTable :
    (totals lines : List Tender) → IsTable totals → IsTable (totals_from totals lines)
unfolding totals_from
totals_from-IsTable totals [] h = h
totals_from-IsTable totals (l ∷ lines) h =
    totals_from-IsTable (add_total l totals) lines (add_total-IsTable l totals h)

-- Each entry is what a lookup of its method finds.
abbrev Found : List Tender → Tender → Type 0
Found totals t = total_at t.0 totals ≡ t.1

Found-later :
    (t u : Tender) (totals : List Tender) → Other t.0 u × Found totals u → Found (t ∷ totals) u
unfolding total_at
Found-later t u totals h = rw (text_eq_sym t.0 u.0 ∙ h.0) h.1

IsTable-Found : (totals : List Tender) → IsTable totals → All (Found totals) totals
unfolding total_at
IsTable-Found [] h = tt
IsTable-Found (t ∷ totals) h = (
  rw (text_eq_refl t.0) refl,
  All-map (λ u. Other t.0 u × Found totals u) (Found (t ∷ totals)) totals
      (λ u k. Found-later t u totals k)
      (All-both (Other t.0) (Found totals) totals h.0 (IsTable-Found totals h.1)),
)

total_at_bound :
    (m : Text) (t : Tender) (totals : List Tender) {n : ℕ}
    → (t.1 ≤ n) × (total_at m totals ≤ n)
    → total_at m (t ∷ totals) ≤ n
unfolding total_at
total_at_bound m t totals h = ground arith

sum_of_table :
    (m : Text) (lines : List Tender) → total_at m (totals_from [] lines) ≡ collected m lines
unfolding total_at
sum_of_table m lines = total_at-totals_from m [] lines ∙ ground arith

dominant_of-total :
    (m best : Text) (totals : List Tender)
    → IsTable totals
    → dominant_of totals ≡ some best
    → total_at m totals ≤ total_at best totals
unfolding dominant_of
dominant_of-total m best [] h e = absurd (ground arith)
dominant_of-total m best (t ∷ totals) h e =
    let all = IsTable-Found (t ∷ totals) h in
    let found : Found (t ∷ totals) (largest t totals) =
      All-largest (Found (t ∷ totals)) t totals all.0 all.1 in
    let name : (largest t totals).0 ≡ best = ground arith in
    let found' : total_at best (t ∷ totals) ≡ (largest t totals).1 =
      subst (λ n. total_at n (t ∷ totals) ≡ (largest t totals).1) name found in
    let bound : (t.1 ≤ (largest t totals).1) × (total_at m totals ≤ (largest t totals).1) =
      largest_bound m t totals in
    let here : total_at m (t ∷ totals) ≤ (largest t totals).1 = total_at_bound m t totals bound in
    ground arith

-- The dominant method of a payment's lines collects at least as much as any method does.
pub dominant_payment_method-collected :
    (m best : Text) (lines : List Tender)
    → dominant_payment_method lines ≡ some best
    → collected m lines ≤ collected best lines
unfolding dominant_payment_method
dominant_payment_method-collected m best lines e =
    let h = dominant_of-total m best (totals_from [] lines) (totals_from-IsTable [] lines tt) e in
    let left : total_at m (totals_from [] lines) ≡ collected m lines = sum_of_table m lines in
    let right : total_at best (totals_from [] lines) ≡ collected best lines =
      sum_of_table best lines in
    ground arith

-- The bill is a number of whole so'm within half a so'm of the discounted total, no discount
-- leaves a total of whole so'm as it is, and the full discount leaves nothing.
pub effective_total_bounds :
    (base pct n : ℕ)
    → (effective_total base pct % 100 ≡ 0)
      × (effective_total base pct * 10_000 ≤ base * (10_000 - pct) + 500_000)
      × (base * (10_000 - pct) < effective_total base pct * 10_000 + 500_000)
      × (effective_total (n * 100) 0 ≡ n * 100)
      × (effective_total base 10_000 ≡ 0)
unfolding effective_total
effective_total_bounds base pct n = let exact : ℕ = base * (10_000 - pct) in ground arith
