-- ===== src/Customers/Checkout/Given.antt =====
-- The tender lines of a payment are those of the request: `mark_as_paid` and
-- `_normalize_checkout_contract` of customers/services/order_service.py.
use alpha_pos_local.Base.{
  ℕ, suc, ◌≡◌, ◌⊎◌, refl, sym, ap, subst, ◌∙◌, Bool, not, Option, none, some, List, [], ◌∷◌, ◌==◌,
  inl, inr, arith, ok, or_raise, raise_if, bind_ok, or_raise_ok, Bool-cases, ◌>>=◌, ◌>>◌,
}
use alpha_pos_local.Base.Text.{Text, strip}
use alpha_pos_local.Base.Number.{Number, upper}
use alpha_pos_local.Customers.Checkout.Request.{
  Item, not_object, object, Payments, unset, not_list, items, Request, Tender, Kind, legacy,
  dual_empty, structured, Contract, bad_line, bad_discount, bad_payment, hundredths, percent,
  legacy_method, line, read_lines, check_hint, kind_of, concrete, is_empty_request, normalize,
}
use alpha_pos_local.Customers.Checkout.Pay.{tender_lines}

-- One line for every element of `payments`, with its method and its amount.
abbrev pub Stand : List Item → List Tender → Type 0
Stand [] [] = Unit {0}
Stand (object text number ∷ is) ((method, amount) ∷ lines) =
    (method ≡ upper (strip text)) × (hundredths number ≡ some amount) × Stand is lines
Stand _ _ = ⊥

-- The lines that a request asks for, where the bill is `due`: those of `payments`, no line where this
-- is an empty list, and the bill in `payment_method` where it is not given.
abbrev pub Given : Payments → Option Text → ℕ → List Tender → Type 0
Given not_list method due lines = ⊥
Given (items []) method due lines = (due ≡ 0) × (lines ≡ [])
Given (items (i ∷ is)) method due lines = Stand (i ∷ is) lines
Given unset none due lines = ⊥
Given unset (some text) due lines =
    (due ≡ 0) × (lines ≡ []) ⊎ (lines ≡ (upper (strip text), due) ∷ [])

line-Stand :
    (valid : Text → Bool) (index : ℕ) (i : Item) (t : Tender) (is : List Item) (lines : List Tender)
    → line valid index i ≡ ok t
    → Stand is lines
    → Stand (i ∷ is) (t ∷ lines)
unfolding line
line-Stand valid index not_object t is lines e h = absurd (ground arith)
line-Stand valid index (object text number) t is lines e h =
    let (u, method, e1) =
      bind_ok (raise_if (not (valid (upper (strip text)))) (bad_line index)) _ e in
    let (amount, a, e2) = bind_ok (or_raise (hundredths number) (bad_line index)) _ e1 in
    let made : (upper (strip text), amount) ≡ t = ground arith in
    subst (λ (x : Tender). Stand (object text number ∷ is) (x ∷ lines)) made
      (refl, or_raise_ok _ _ a, h)

read_lines-Stand :
    (valid : Text → Bool) (index : ℕ) (is : List Item) (lines : List Tender)
    → read_lines valid index is ≡ ok lines
    → Stand is lines
unfolding read_lines
read_lines-Stand valid index [] lines e =
    let none_read : [] ≡ lines = ground arith in
    subst (λ (l : List Tender). Stand [] l) none_read tt
read_lines-Stand valid index (i ∷ is) lines e =
    let (t, first, e1) = bind_ok (line valid index i) _ e in
    let (rest, later, e2) = bind_ok (read_lines valid (suc index) is) _ e1 in
    let made : t ∷ rest ≡ lines = ground arith in
    subst (λ (l : List Tender). Stand (i ∷ is) l) made
      (line-Stand valid index i t is rest first (read_lines-Stand valid (suc index) is rest later))

-- What a hint is in the request.
Hinted : Option Text → Option Text → Type 0
Hinted given none = given ≡ none
Hinted given (some m) = (text : Text) × (given ≡ some text) × (m ≡ upper (strip text))

legacy_method-Hinted :
    (valid : Text → Bool) (given hint : Option Text)
    → legacy_method valid given ≡ ok hint
    → Hinted given hint
unfolding legacy_method Hinted
legacy_method-Hinted valid none none e = refl
legacy_method-Hinted valid none (some m) e = absurd (ground arith)
legacy_method-Hinted valid (some text) none e = absurd (ground arith)
legacy_method-Hinted valid (some text) (some m) e = (text, refl, ground arith)

due_or_none :
    (method text : Text) (due : ℕ) (lines : List Tender)
    → method ≡ upper (strip text)
    → tender_lines (legacy method) due ≡ ok lines
    → Given unset (some text) due lines
unfolding tender_lines
due_or_none method text due lines m e = elim (Bool-cases (due == 0)) [
  | inl t ↦ inl (ground arith, ground arith)
  | inr f ↦
      let made : (method, due) ∷ [] ≡ lines = ground arith in
      inr (sym made ∙ ap (λ (x : Text). (x, due) ∷ []) m)
]

empty_bill :
    (method : Text) (due : ℕ) (lines : List Tender)
    → tender_lines (dual_empty method) due ≡ ok lines
    → (due ≡ 0) × (lines ≡ [])
unfolding tender_lines
empty_bill method due lines e = elim (Bool-cases (due == 0)) [
  | inl t ↦ (ground arith, ground arith)
  | inr f ↦ absurd (ground arith)
]

structured_same :
    (given lines : List Tender) (due : ℕ)
    → tender_lines (structured given) due ≡ ok lines
    → given ≡ lines
unfolding tender_lines
structured_same given lines due e = ground arith

items_given :
    (valid : Text → Bool) (hint : Option Text) (i : Item) (is : List Item) (kind : Kind) (due : ℕ)
    (lines : List Tender)
    → (do ls ← read_lines valid 0 (i ∷ is); check_hint hint ls; ok (structured ls)) ≡ ok kind
    → tender_lines kind due ≡ ok lines
    → Stand (i ∷ is) lines
items_given valid hint i is kind due lines e l =
    let (ls, read, e1) = bind_ok (read_lines valid 0 (i ∷ is)) _ e in
    let (u, checked, e2) = bind_ok (check_hint hint ls) _ e1 in
    let made : structured ls ≡ kind = ground arith in
    let same : ls ≡ lines =
      structured_same ls lines due
        (subst (λ (k : Kind). tender_lines k due ≡ ok lines) (sym made) l) in
    subst (λ (x : List Tender). Stand (i ∷ is) x) same (read_lines-Stand valid 0 (i ∷ is) ls read)

kind_of-Given :
    (valid : Text → Bool) (given hint : Option Text) (p : Payments) (kind : Kind) (due : ℕ)
    (lines : List Tender)
    → Hinted given hint
    → kind_of valid hint p ≡ ok kind
    → tender_lines kind due ≡ ok lines
    → Given p given due lines
unfolding kind_of Hinted
kind_of-Given valid given none unset kind due lines h e l = absurd (ground arith)
kind_of-Given valid given (some m) unset kind due lines (text, g, s) e l =
    let made : legacy m ≡ kind = ground arith in
    subst (λ (o : Option Text). Given unset o due lines) (sym g)
      (due_or_none m text due lines s
        (subst (λ (k : Kind). tender_lines k due ≡ ok lines) (sym made) l))
kind_of-Given valid given none not_list kind due lines h e l = absurd (ground arith)
kind_of-Given valid given (some m) not_list kind due lines h e l = absurd (ground arith)
kind_of-Given valid given none (items []) kind due lines h e l = absurd (ground arith)
kind_of-Given valid given (some m) (items []) kind due lines h e l =
    let made : dual_empty m ≡ kind = ground arith in
    empty_bill m due lines (subst (λ (k : Kind). tender_lines k due ≡ ok lines) (sym made) l)
kind_of-Given valid given none (items (i ∷ is)) kind due lines h e l =
    items_given valid none i is kind due lines e l
kind_of-Given valid given (some m) (items (i ∷ is)) kind due lines h e l =
    items_given valid (some m) i is kind due lines e l

percent-hundredths : (n : Number) (pct : ℕ) → percent n ≡ ok pct → hundredths n ≡ some pct
unfolding percent
percent-hundredths n pct e =
    let (p, found, e1) = bind_ok (or_raise (hundredths n) bad_discount) _ e in
    let same : p ≡ pct = ground arith in or_raise_ok _ _ found ∙ ap some same

-- The discount and the lines of a request that passed the checks.
pub normalize-Given :
    (is_choice : Text → Bool) (r : Request) (c : Contract) (due : ℕ) (lines : List Tender)
    → normalize is_choice r ≡ ok c
    → tender_lines c.kind due ≡ ok lines
    → (hundredths r.discount_percent ≡ some c.discount_percent)
      × Given r.payments r.payment_method due lines
unfolding normalize
normalize-Given is_choice r c due lines e l =
    let (u, some_given, e1) = bind_ok (raise_if (is_empty_request r) bad_payment) _ e in
    let (pct, p, e2) = bind_ok (percent r.discount_percent) _ e1 in
    let (hint, h, e3) = bind_ok (legacy_method (concrete is_choice) r.payment_method) _ e2 in
    let (kind, k, e4) = bind_ok (kind_of (concrete is_choice) hint r.payments) _ e3 in
    let same_kind : kind ≡ c.kind = ground arith in
    let same_pct : pct ≡ c.discount_percent = ground arith in
    (
      percent-hundredths r.discount_percent pct p ∙ ap some same_pct,
      kind_of-Given (concrete is_choice) r.payment_method hint r.payments kind due lines
          (legacy_method-Hinted (concrete is_choice) r.payment_method hint h) k
          (subst (λ (x : Kind). tender_lines x due ≡ ok lines) (sym same_kind) l),
    )
