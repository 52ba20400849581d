-- ===== src/Customers/Checkout/Balance.antt =====
-- The money of a settlement: what goes to the drawer, and the totals of the order.
use alpha_pos_local.Base.{
  ℕ, ◌+◌, ◌-◌, ◌≤◌, ◌≡◌, refl, sym, ap, subst, ◌∙◌, true, false, some, List, [], ◌∷◌, ◌++◌, ◌==◌,
  find, inl, inr, arith, ok, Bool-cases,
}
use alpha_pos_local.Base.Int.{ℤ, pos, ◌+ℤ◌, ◌-ℤ◌, +ℤ_parts, -ℤ_parts, eq_of_parts}
use alpha_pos_local.Customers.Checkout.Request.{hundredths, normalize, Contract, Tender}
use alpha_pos_local.Customers.Checkout.Given.{Given, normalize-Given}
use alpha_pos_local.Customers.Checkout.Orders.{
  Order, Shift, Store, Receipt, order_is, Effect, add_to_register, paid_notification, fiscalize,
}
use alpha_pos_local.Customers.Checkout.Pay.{
  Host, Call, Bill, paid_order, persist, line_rows, or_fresh, mark_as_paid, noncash_sum, deposit,
  effective_total, discounted, non_negative, sum_of,
}
use alpha_pos_local.Customers.Checkout.Settled.{Settlement, Covered, Done, paid_ok}
use alpha_pos_local.Customers.Checkout.Rows.{found-pk, find-save_order, paid_order-pk}

-- The call settled the order that it found, where that was not paid.
pub settled :
    (host : Host) (c : Call) (o : Order) (s s' : Store) (r : Receipt)
    → find (order_is c.order_id) s.orders ≡ some o
    → o.is_paid ≡ false
    → mark_as_paid host c s ≡ ok (r, s')
    → Settlement host c o s s' r
settled host c o s s' r found f e =
    let (q, found', d) = paid_ok host c s s' r e in
    let same : q ≡ o = ground arith in settled_of (subst (λ p. Done host c s s' r p) same d)
  where
    settled_of : Done host c s s' r o → Settlement host c o s s' r
    settled_of (inl (g, d)) = d
    settled_of (inr (t, g)) = absurd (ground arith)

-- The cash that the drawers were given.
unfoldable pub drawer : List Effect → ℕ
drawer [] = 0
drawer (add_to_register amount branch ∷ effects) = amount + drawer effects
drawer (paid_notification o ∷ effects) = drawer effects
drawer (fiscalize o ∷ effects) = drawer effects

drawer-append : (xs ys : List Effect) → drawer (xs ++ ys) ≡ drawer xs + drawer ys
unfolding drawer
drawer-append [] ys = ground arith
drawer-append (add_to_register amount branch ∷ xs) ys = ground (arith, drawer-append xs ys)
drawer-append (paid_notification o ∷ xs) ys = drawer-append xs ys
drawer-append (fiscalize o ∷ xs) ys = drawer-append xs ys

drawer-deposit :
    (o : Order) (kept : ℕ) (order : ℕ)
    → drawer (deposit o kept ++ (paid_notification order ∷ fiscalize order ∷ [])) ≡ kept
unfolding drawer deposit
drawer-deposit o kept order = elim (Bool-cases (kept == 0)) [
  | inl t ↦ rw t (let z : kept ≡ 0 = ground arith in sym z)
  | inr f ↦ rw f (ground arith)
]

persist-drawer :
    (p : Order) (c : Call) (b : Bill) (s : Store)
    → drawer (persist p c b s).outbox ≡ drawer s.outbox + (b.due - noncash_sum b.lines)
unfolding persist
persist-drawer p c b s =
    drawer-append s.outbox _
    ∙ ap (λ k. drawer s.outbox + k) (drawer-deposit p (b.due - noncash_sum b.lines) p.pk)

-- The bill by the discount of the request, its tender lines as the request gives them, and that money
-- and rows agree with them.
pub record Balanced (host : Host) (c : Call) (o : Order) (s s' : Store) : Type 0 where
  pub contract : Contract
  pub normal : normalize host.is_choice c.request ≡ ok contract
  pub base : ℕ
  pub due : ℕ
  pub lines : List Tender
  pub of_discount : hundredths c.request.discount_percent ≡ some contract.discount_percent
  pub given : Given c.request.payments c.request.payment_method due lines
  pub of_total : o.total_amount ≡ pos base
  pub of_due : due ≡ effective_total base contract.discount_percent
  pub covered : due ≤ sum_of lines
  pub noncash_fits : noncash_sum lines ≤ due
  pub drawer_takes : drawer s'.outbox + noncash_sum lines ≡ drawer s.outbox + due
  pub rows : s'.lines ≡ s.lines ++ line_rows o.pk (or_fresh c.action_id c.fresh_action) 0 lines

pub non_negative_pos : (z : ℤ) (n : ℕ) → non_negative z ≡ some n → z ≡ pos n
non_negative_pos z n e = ground arith

pub persist-lines :
    (p : Order) (c : Call) (b : Bill) (s : Store)
    → (persist p c b s).lines
      ≡ s.lines ++ line_rows p.pk (or_fresh c.action_id c.fresh_action) 0 b.lines
unfolding persist
persist-lines p c b s = refl

-- A payment that goes through takes the tenders of its request: each element of `payments`, or the
-- bill in `payment_method` alone. They cover the bill, those that give no change come to no more than
-- the bill, the drawer gets exactly the rest of it, and one row is stored for each.
pub mark_as_paid-Balanced :
    (host : Host) (c : Call) (o : Order) (s s' : Store) (r : Receipt)
    → find (order_is c.order_id) s.orders ≡ some o
    → o.is_paid ≡ false
    → mark_as_paid host c s ≡ ok (r, s')
    → Balanced host c o s s'
mark_as_paid-Balanced host c o s s' r found f e =
    let d : Settlement host c o s s' r = settled host c o s s' r found f e in
    let b : Bill = d.bill_of in
    let k : Covered d.contract o b = d.checked in
    let asked =
      normalize-Given host.is_choice c.request d.contract b.due b.lines d.normal k.of_lines in
    let p : Order = paid_order o c d.shift b in
    let outbox : drawer s'.outbox ≡ drawer s.outbox + (b.due - noncash_sum b.lines) =
      ap (λ t. drawer t.outbox) d.stored ∙ persist-drawer p c b s in
    let fits : noncash_sum b.lines ≤ b.due = k.noncash_fits in
    record {
      contract = d.contract;
      normal = d.normal;
      base = b.base;
      due = b.due;
      lines = b.lines;
      of_discount = asked.0;
      given = asked.1;
      of_total = non_negative_pos o.total_amount b.base k.of_total;
      of_due = k.of_due ∙ ap (effective_total b.base) k.of_percent;
      covered = k.covered;
      noncash_fits = fits;
      drawer_takes = ground arith;
      rows =
          ap (λ t. t.lines) d.stored
          ∙ persist-lines p c b s
          ∙ ap (λ n. s.lines ++ line_rows n (or_fresh c.action_id c.fresh_action) 0 b.lines)
              (paid_order-pk o c d.shift b);
    }

-- What a settlement leaves in the row of the order.
pub persist-found :
    (o p : Order) (c : Call) (b : Bill) (pk : ℕ) (s : Store)
    → p.pk ≡ pk
    → find (order_is pk) s.orders ≡ some o
    → find (order_is pk) (persist p c b s).orders ≡ some p
unfolding persist
persist-found o p c b pk s h found = find-save_order o p pk s.orders h found

cut_total : (base due : ℕ) (d : ℤ) → pos due +ℤ (d +ℤ (pos base -ℤ pos due)) ≡ pos base +ℤ d
cut_total base due d = eq_of_parts _ _ (
    let cut : ℤ = pos base -ℤ pos due in
    let h1 = -ℤ_parts (pos base) (pos due) in
    let h2 = +ℤ_parts d cut in
    let h3 = +ℤ_parts (pos due) (d +ℤ cut) in let h4 = +ℤ_parts (pos base) d in omega arith)

discounted-sum :
    (o : Order) (b : Bill)
    → o.total_amount ≡ pos b.base
    → (discounted o b).total_amount +ℤ (discounted o b).discount_amount
      ≡ o.total_amount +ℤ o.discount_amount
unfolding discounted
discounted-sum o b h = elim (Bool-cases (b.percent == 0)) [
  | inl t ↦ rw t refl
  | inr f ↦ rw (f, h) (cut_total b.base b.due o.discount_amount)
]

paid_order-sum :
    (o : Order) (c : Call) (shift : Shift) (b : Bill)
    → o.total_amount ≡ pos b.base
    → (paid_order o c shift b).total_amount +ℤ (paid_order o c shift b).discount_amount
      ≡ o.total_amount +ℤ o.discount_amount
unfolding paid_order
paid_order-sum o c shift b h = discounted-sum o b h

-- The row that a settlement leaves: paid, with the sum of total and discount that it had.
pub record Kept (c : Call) (o p : Order) : Type 0 where
  pub is_paid : p.is_paid ≡ true
  pub same_subtotal : p.total_amount +ℤ p.discount_amount ≡ o.total_amount +ℤ o.discount_amount
  pub action : p.payment_action_id ≡ some (or_fresh c.action_id c.fresh_action)

pub paid_order-Kept :
    (o : Order) (c : Call) (shift : Shift) (b : Bill)
    → o.total_amount ≡ pos b.base
    → Kept c o (paid_order o c shift b)
unfolding paid_order
paid_order-Kept o c shift b h = record {
  is_paid = refl;
  same_subtotal = paid_order-sum o c shift b h;
  action = refl;
}

-- A payment marks the order as paid by its action, and what it cuts off the total it adds to the
-- discount, so that total plus discount stay what they were: the subtotal.
pub mark_as_paid-Kept :
    (host : Host) (c : Call) (o : Order) (s s' : Store) (r : Receipt)
    → find (order_is c.order_id) s.orders ≡ some o
    → o.is_paid ≡ false
    → mark_as_paid host c s ≡ ok (r, s')
    → (p : Order) × (find (order_is c.order_id) s'.orders ≡ some p) × Kept c o p
mark_as_paid-Kept host c o s s' r found f e =
    let d : Settlement host c o s s' r = settled host c o s s' r found f e in
    let p : Order = paid_order o c d.shift d.bill_of in
    let pk : p.pk ≡ c.order_id =
      paid_order-pk o c d.shift d.bill_of ∙ found-pk c.order_id s.orders o found in
    (
      p,
      ap (λ t. find (order_is c.order_id) t.orders) d.stored
          ∙ persist-found o p c d.bill_of c.order_id s pk found,
      paid_order-Kept o c d.shift d.bill_of
          (non_negative_pos o.total_amount d.bill_of.base d.checked.of_total),
    )
