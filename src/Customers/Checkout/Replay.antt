-- ===== src/Customers/Checkout/Replay.antt =====
-- A checkout that is sent again under its action: `_checkout_request_matches` and the replay of
-- `mark_as_paid` in customers/services/order_service.py.
use alpha_pos_local.Base.{
  ℕ, zero, suc, ◌*◌, ◌≡◌, refl, sym, ap, subst, ◌∙◌, true, false, ◌||◌, Option, none, some, List,
  [], ◌∷◌, ◌++◌, ◌==◌, find, keep, inl, inr, arith, ok, if◌then◌else◌, Bool-cases, if_true,
}
use alpha_pos_local.Base.Int.{pos}
use alpha_pos_local.Base.Text.{Text, text_eq_refl}
use alpha_pos_local.Customers.Checkout.Request.{
  Kind, legacy, dual_empty, structured, Contract, Tender, normalize,
}
use alpha_pos_local.Customers.Checkout.Orders.{
  Order, Shift, Store, Receipt, Actor, is_staff, owns, is_owner, order_is, is_line_of, success_data,
  stored_tenders, tenders_eq, whole_tender, tenders_match, request_matches, find_settlement_shift,
}
use alpha_pos_local.Customers.Checkout.Pay.{
  Host, Call, Bill, paid_order, discounted, line_rows, or_fresh, mark_as_paid, effective_total,
  tender_lines, header_method, all_of, replay, is_replay,
}
use alpha_pos_local.Customers.Checkout.Settled.{Settlement, Covered}
use alpha_pos_local.Customers.Checkout.Rows.{found-pk, paid_order-pk, stored_tenders-line_rows}
use alpha_pos_local.Customers.Checkout.Balance.{
  settled, persist-lines, Kept, persist-found, paid_order-Kept, non_negative_pos,
}

effective_total-whole : (n : ℕ) → effective_total (n * 100) 0 ≡ n * 100
unfolding effective_total
effective_total-whole n = ground arith

tenders_eq_refl : (lines : List Tender) → tenders_eq lines lines ≡ true
unfolding tenders_eq
tenders_eq_refl [] = refl
tenders_eq_refl (t ∷ lines) =
    let amount : (t.1 == t.1) ≡ true = ground arith in
    rw (text_eq_refl t.0, amount, tenders_eq_refl lines) refl

-- One tender of a bill, as `tender_lines` makes it, is the whole of the bill.
whole_tender-one :
    (m : Text) (due : ℕ) (lines : List Tender)
    → (if due == 0 then [] else (m, due) ∷ []) ≡ lines
    → whole_tender (pos due) m (header_method lines) lines ≡ true
unfolding whole_tender header_method tenders_eq all_of
whole_tender-one m zero lines h = rw (sym h) refl
whole_tender-one m (suc n) lines h =
    let same : (m, suc n) ∷ [] ≡ lines = ground arith in
    let amount : (suc n == suc n) ≡ true = ground arith in
    subst (λ l. whole_tender (pos (suc n)) m (header_method l) l ≡ true) same
      (rw (text_eq_refl m, amount) refl)

tenders_match-bill :
    (kind : Kind) (due : ℕ) (lines : List Tender) (p : Order)
    → tender_lines kind due ≡ ok lines
    → p.total_amount ≡ pos due
    → p.payment_method ≡ header_method lines
    → tenders_match kind p lines ≡ true
unfolding tender_lines tenders_match
tenders_match-bill (legacy m) due lines p h t k =
    rw (t, k) (whole_tender-one m due lines (ground arith))
tenders_match-bill (dual_empty m) due lines p h t k =
    rw (t, k) (whole_tender-one m due lines (ground arith))
tenders_match-bill (structured given) due lines p h t k =
    let same : given ≡ lines = ground arith in rw same (tenders_eq_refl lines)

-- The total of the row after a payment is the bill, where the total was whole so'm.
discounted-total :
    (o : Order) (b : Bill) (n : ℕ)
    → o.total_amount ≡ pos b.base
    → b.base ≡ n * 100
    → b.due ≡ effective_total b.base b.percent
    → (discounted o b).total_amount ≡ pos b.due
unfolding discounted
discounted-total o b n t w d = elim (Bool-cases (b.percent == 0)) [
  | inl z ↦ rw z (
      let none_off : b.percent ≡ 0 = ground arith in
      t ∙ ap pos (w ∙ sym (d ∙ rw (none_off, w) (effective_total-whole n))))
  | inr f ↦ rw f refl
]

discounted-percent :
    (o : Order) (b : Bill)
    → (b.percent == 0 || (discounted o b).discount_percent == b.percent) ≡ true
unfolding discounted
discounted-percent o b = elim (Bool-cases (b.percent == 0)) [
  | inl z ↦ rw z refl
  | inr f ↦ rw f (ground arith)
]

paid_order-total :
    (o : Order) (c : Call) (shift : Shift) (b : Bill) (n : ℕ)
    → o.total_amount ≡ pos b.base
    → b.base ≡ n * 100
    → b.due ≡ effective_total b.base b.percent
    → (paid_order o c shift b).total_amount ≡ pos b.due
unfolding paid_order
paid_order-total o c shift b n t w d = discounted-total o b n t w d

paid_order-percent :
    (o : Order) (c : Call) (shift : Shift) (b : Bill)
    → (b.percent == 0 || (paid_order o c shift b).discount_percent == b.percent) ≡ true
unfolding paid_order
paid_order-percent o c shift b = discounted-percent o b

paid_order-method :
    (o : Order) (c : Call) (shift : Shift) (b : Bill)
    → (paid_order o c shift b).payment_method ≡ header_method b.lines
unfolding paid_order
paid_order-method o c shift b = refl

-- The settled row answers for the request that settled it.
paid_order-matches :
    (o : Order) (c : Call) (shift : Shift) (contract : Contract) (b : Bill) (n : ℕ)
    → Covered contract o b
    → o.total_amount ≡ pos (n * 100)
    → (s' : Store) → stored_tenders o.pk s'.lines ≡ b.lines
    → request_matches s' (paid_order o c shift b) contract ≡ true
unfolding request_matches
paid_order-matches o c shift contract b n k w s' stored =
    let p : Order = paid_order o c shift b in
    let t : o.total_amount ≡ pos b.base = non_negative_pos o.total_amount b.base k.of_total in
    let base : b.base ≡ n * 100 = ground arith in
    let total : p.total_amount ≡ pos b.due = paid_order-total o c shift b n t base k.of_due in
    let tenders : tenders_match contract.kind p b.lines ≡ true =
      tenders_match-bill contract.kind b.due b.lines p k.of_lines total
        (paid_order-method o c shift b) in
    let percent : (contract.discount_percent == 0
          || p.discount_percent == contract.discount_percent)
        ≡ true =
      subst (λ q. (q == 0 || p.discount_percent == q) ≡ true) k.of_percent
        (paid_order-percent o c shift b) in
    let rows : stored_tenders p.pk s'.lines ≡ b.lines =
      ap (λ q. stored_tenders q s'.lines) (paid_order-pk o c shift b) ∙ stored in
    rw (percent, rows, tenders) refl

-- The same call at another time: its clock and its fresh action differ.
abbrev pub again : Call → (now fresh : ℕ) → Call
again c now fresh = record c { now = now; fresh_action = fresh }

staff_owner : (o : Order) (a : Actor) → is_staff a.role ≡ true → is_owner o a ≡ true
unfolding owns
staff_owner o a h = rw h refl

replay-again :
    (a : ℕ) (c : Call) (contract : Contract) (p : Order) (s : Store)
    → c.action_id ≡ some a
    → p.payment_action_id ≡ some a
    → request_matches s p contract ≡ true
    → replay c contract p s ≡ ok (success_data s p none, s)
unfolding replay
replay-again a c contract p s h k m =
    let test : is_replay c.action_id p ≡ true = rw h (ground arith) in
    if_true (is_replay c.action_id p) _ _ test ∙ rw m refl

-- What a call answers of an order that its action has paid.
mark_as_paid-paid :
    (host : Host) (c : Call) (contract : Contract) (a : ℕ) (p : Order) (s : Store)
    → normalize host.is_choice c.request ≡ ok contract
    → find (order_is c.order_id) s.orders ≡ some p
    → is_owner p c.actor ≡ true
    → p.is_paid ≡ true
    → c.action_id ≡ some a
    → p.payment_action_id ≡ some a
    → request_matches s p contract ≡ true
    → mark_as_paid host c s ≡ ok (success_data s p none, s)
unfolding mark_as_paid
mark_as_paid-paid host c contract a p s n f o t h k m =
    rw (n, f) (rw o (if_true p.is_paid _ _ t ∙ replay-again a c contract p s h k m))

success_data-shift :
    (s : Store) (p : Order) (shift : Shift)
    → success_data s p none
      ≡ record (success_data s p (some shift)) { shift = find_settlement_shift s.shifts p }
unfolding success_data
success_data-shift s p shift = refl

-- A staff checkout under an action identifier, of an order of whole so'm without tender rows, that
-- is sent again at any later time answers with the same evidence and changes nothing. (The shift in
-- the answer is looked up again.)
pub mark_as_paid-again :
    (host : Host) (c : Call) (a n now fresh : ℕ) (o : Order) (s s' : Store) (r : Receipt)
    → c.action_id ≡ some a
    → is_staff c.actor.role ≡ true
    → find (order_is c.order_id) s.orders ≡ some o
    → o.is_paid ≡ false
    → o.total_amount ≡ pos (n * 100)
    → keep (is_line_of o.pk) s.lines ≡ []
    → mark_as_paid host c s ≡ ok (r, s')
    → (shift : Option Shift) × (mark_as_paid host (again c now fresh) s'
        ≡ ok (record r { shift = shift }, s'))
mark_as_paid-again host c a n now fresh o s s' r h staff found f whole free e =
    let d : Settlement host c o s s' r = settled host c o s s' r found f e in
    let b : Bill = d.bill_of in
    let p : Order = paid_order o c d.shift b in
    let pk : p.pk ≡ c.order_id =
      paid_order-pk o c d.shift b ∙ found-pk c.order_id s.orders o found in
    let at : find (order_is c.order_id) s'.orders ≡ some p =
      ap (λ t. find (order_is c.order_id) t.orders) d.stored
      ∙ persist-found o p c b c.order_id s pk found in
    let kept : Kept c o p =
      paid_order-Kept o c d.shift b (non_negative_pos o.total_amount b.base d.checked.of_total) in
    let rows : s'.lines
        ≡ s.lines ++ line_rows o.pk (or_fresh c.action_id c.fresh_action) 0 b.lines =
      ap (λ t. t.lines) d.stored
      ∙ persist-lines p c b s
      ∙ ap (λ q. s.lines ++ line_rows q (or_fresh c.action_id c.fresh_action) 0 b.lines)
          (paid_order-pk o c d.shift b) in
    let stored : stored_tenders o.pk s'.lines ≡ b.lines =
      ap (stored_tenders o.pk) rows
      ∙ stored_tenders-line_rows o.pk (or_fresh c.action_id c.fresh_action) b.lines s.lines free in
    let action : p.payment_action_id ≡ some a =
      kept.action ∙ ap (λ q. some (or_fresh q c.fresh_action)) h in
    let answer : mark_as_paid host (again c now fresh) s' ≡ ok (success_data s' p none, s') =
      mark_as_paid-paid host (again c now fresh) d.contract a p s' d.normal at
        (staff_owner p c.actor staff) kept.is_paid h action
        (paid_order-matches o c d.shift d.contract b n d.checked whole s' stored) in
    let shift : Option Shift = find_settlement_shift s'.shifts p in
    let same : success_data s' p none ≡ record r { shift = shift } =
      success_data-shift s' p d.shift
      ∙ ap {A = Receipt} (λ q. record q { shift = shift }) (sym d.receipt) in
    (shift, answer ∙ ap (λ q. ok (q, s')) same)
