-- ===== src/Customers/Orders/Paid.antt =====
-- A paid order keeps its amounts and its lines, under every sequence of calls.
use alpha_pos_local.Base.{
  ℕ, ◌≡◌, Bool, refl, ◌∙◌, subst, true, false, none, some, inl, inr, arith, ◌==◌, Bool-cases,
  if◌then◌else◌,
}
use alpha_pos_local.Base.Yields.{Yields, Yields-map, Yields-of}
use alpha_pos_local.Customers.Orders.Rows.{
  Order, Item, Store, Host, order_row, item_row, item_is, is_ready, is_unready_of, save_order,
  save_items, notify, Notice,
}
use alpha_pos_local.Customers.Orders.Parts.{check_and_update_ready, stamp_ready, stamp_item}
use alpha_pos_local.Customers.Orders.Create.{create_order}
use alpha_pos_local.Customers.Orders.Edit.{reopen, after_removal, bury_item}
use alpha_pos_local.Customers.Orders.Status.{write_status}
use alpha_pos_local.Customers.Orders.Kitchen.{notify_ready, mark_item_ready, unmark_item_ready}
use alpha_pos_local.Customers.Checkout.Orders.{Actor}
use alpha_pos_local.Customers.Orders.Details.{edited, set_person}
use alpha_pos_local.Customers.Orders.Calls.{
  Call, serve, target, IsFresh, IsSound, after, Reaches, stay, serves, late_ready, late_unready,
}
use alpha_pos_local.Customers.Orders.Frame.{Frame, notify-SameRows}
use alpha_pos_local.Customers.Orders.Edits.{
  add_item-Yields, update_item-Yields, remove_item-Yields, set_status-Yields,
}
use alpha_pos_local.Customers.Orders.Changes.{
  set_type-Yields, item_ready-Yields, item_unready-Yields, ready_order-Yields, assign-Yields,
  edit-Yields,
}
use alpha_pos_local.Customers.Orders.Sold.{
  Kept, OrderKept, LineKept, rows_Kept, Kept-trans, save_order-Kept, stamp_items-Kept, stamp-Kept,
  write_status-Kept, if-Kept, check-Kept, money_trans, line_trans,
}
use alpha_pos_local.Customers.Orders.Plain.{SameMoney, edited-Plain}
use alpha_pos_local.Customers.Orders.Apart.{serve-Frame}
use alpha_pos_local.Customers.Orders.Canceled.{Frame-SameOrder, after_same}

-- What a paid order keeps: its amounts, and its lines.
abbrev pub PaidKept : ℕ → Store → Store → Type 0
PaidKept k s t =
    ((o : Order) → order_row k s.orders ≡ some o → OrderKept o (order_row k t.orders))
    × ((j : ℕ) (i : Item)
        → item_row j s.items ≡ some i
        → i.order_id ≡ k
        → LineKept i (item_row j t.items))

paid_refl : (k : ℕ) (s : Store) → PaidKept k s s
paid_refl k s =
    (λ o e. (o, e, (refl, refl, refl, refl)), λ j i e own. (i, e, (refl, refl, refl, refl, refl)))

Kept-PaidKept : (k : ℕ) (s t : Store) → Kept s t → PaidKept k s t
Kept-PaidKept k s t f = (f.0 k, λ j i e own. f.1 j i e)

-- The two calls of one item change no amount and no line, whatever they have seen.
module _ (host : Host) (sound : IsSound host) where
  late_ready-Kept :
      (now later k item : ℕ) (a : Actor) (seen s : Store)
      → Yields (Kept s) (mark_item_ready host now later k item a seen s)
  late_ready-Kept now later k item a seen s =
      item_ready-Yields host sound _ now later k item a seen s (λ p i f live cooking row own.
        let t = save_items (item_is i.pk) (stamp_item (some now)) s in
        let u = notify_ready p.pk (check_and_update_ready later p t) in
        Kept-trans s t u (stamp_items-Kept (item_is i.pk) (some now) s) (check-Kept later p t))

  late_unready-Kept :
      (k item : ℕ) (a : Actor) (seen s : Store)
      → Yields (Kept s) (unmark_item_ready host k item a seen s)
  late_unready-Kept k item a seen s =
      item_unready-Yields host sound _ k item a seen s (λ p i f live row own.
        let t = save_items (item_is i.pk) (stamp_item none) s in
        let u = save_order p.pk reopen t in
        let first = stamp_items-Kept (item_is i.pk) none s in
        if-Kept (is_ready p.status) s u t
          (Kept-trans s t u first
            (save_order-Kept p.pk reopen t (λ r. refl) (λ r. (refl, refl, refl, refl))))
          first)

-- The order of an edit is not paid.
module _ (host : Host) (sound : IsSound host) (s : Store) (k : ℕ) (o : Order)
    (found : order_row k s.orders ≡ some o) (paid : o.is_paid ≡ true) where
  unpaid_refused :
      (j : ℕ) (p : Order) (t : Store)
      → j ≡ k
      → order_row j s.orders ≡ some p
      → p.is_paid ≡ false
      → PaidKept k s t
  unpaid_refused j p t e f u =
      let g : order_row k s.orders ≡ some p =
        subst (λ (y : ℕ). order_row y s.orders ≡ some p) e f in
      let q : o ≡ p = ground arith in
      let v : p.is_paid ≡ true = subst (λ (x : Order). x.is_paid ≡ true) q paid in
      absurd (ground arith)

  unfound_refused : (j : ℕ) (t : Store) → j ≡ k → order_row j s.orders ≡ none → PaidKept k s t
  unfound_refused j t e n =
      let m : order_row k s.orders ≡ none = subst (λ (x : ℕ). order_row x s.orders ≡ none) e n in
      absurd (ground arith)

  paid-serve : (c : Call) → target c ≡ k → IsFresh c s → Yields (PaidKept k s) (serve host c s)
  unfolding set_person
  paid-serve (Call.create fresh r) e new =
      Yields-of (PaidKept k s) (create_order host fresh r s)
        (λ t _. unfound_refused fresh.order_key t e new)
  paid-serve (Call.add_item key now j product q a) e new =
      add_item-Yields host sound _ key now j product q a s
        (λ p x n t f u c same. unpaid_refused j p t e f u)
  paid-serve (Call.update_item j item q a) e new =
      update_item-Yields host sound _ j item q a s
        (λ p i n t f u c row own same. unpaid_refused j p t e f u)
  paid-serve (Call.remove_item now j item a) e new =
      remove_item-Yields host sound _ now j item a s (λ p i t f u c row own same.
        unpaid_refused j p (after_removal host now p (save_items (item_is i.pk) bury_item t)) e f u)
  paid-serve (Call.set_status now j text a reason) e new =
      set_status-Yields host sound _ now j text a reason s (λ p f c. paid_refl k s)
        (λ p status s1 t f live x y.
          let v = write_status now p status s1 in
          Kept-PaidKept k s t (
            Kept-trans s s1 t (rows_Kept s s1 x)
              (Kept-trans s1 v t (write_status-Kept now p status s1) (rows_Kept v t y))))
  paid-serve (Call.set_type j text a) e new =
      set_type-Yields host sound _ j text a s (λ p type f live.
        Kept-PaidKept k s (save_order p.pk (λ r. record r { order_type = type }) s) (
          save_order-Kept p.pk (λ r. record r { order_type = type }) s (λ r. refl)
            (λ r. (refl, refl, refl, refl))))
  paid-serve (Call.item_ready now later j item a) e new =
      Yields-map (Kept s) (PaidKept k s) (mark_item_ready host now later j item a s s)
        (Kept-PaidKept k s) (late_ready-Kept host sound now later j item a s s)
  paid-serve (Call.item_unready j item a) e new =
      Yields-map (Kept s) (PaidKept k s) (unmark_item_ready host j item a s s) (Kept-PaidKept k s)
        (late_unready-Kept host sound j item a s s)
  paid-serve (Call.ready_order now j a) e new =
      ready_order-Yields host sound _ now j a s (λ p f live.
        let t = save_order p.pk (stamp_ready now) s in
        let u = save_items (is_unready_of p.pk) (stamp_item (some now)) t in
        let v = notify (Notice.ready_order p.pk) u in
        Kept-PaidKept k s (if is_ready p.status then s else v) (
          if-Kept (is_ready p.status) s s v (rows_Kept s s (refl, refl)) (
            Kept-trans s t v (stamp-Kept now p.pk s) (
              Kept-trans t u v (stamp_items-Kept (is_unready_of p.pk) (some now) t)
                (rows_Kept u v (notify-SameRows (Notice.ready_order p.pk) u))))))
  paid-serve (Call.assign j person a) e new = assign-Yields host sound _ j person a s (λ p f live.
      Kept-PaidKept k s (save_order p.pk (set_person person) s)
        (save_order-Kept p.pk (set_person person) s (λ r. refl) (λ r. (refl, refl, refl, refl))))
  paid-serve (Call.edit j x a) e new = edit-Yields host sound _ j x a s (λ p f live.
      Kept-PaidKept k s (save_order p.pk (edited host x) s) (
        save_order-Kept p.pk (edited host x) s (λ r. (edited-Plain host x r).0)
          (λ r. (edited-Plain host x r).4)))

  step-PaidKept : (c : Call) → IsFresh c s → PaidKept k s (after (serve host c s) s)
  step-PaidKept c new = elim (Bool-cases (target c == k)) [
    | inl t ↦
        after_same s (PaidKept k s) (serve host c s) (paid_refl k s)
          (paid-serve c (ground arith) new)
    | inr f ↦ after_same s (PaidKept k s) (serve host c s) (paid_refl k s) (
        Yields-map (Frame (target c) s) (PaidKept k s) (serve host c s)
          (λ t g.
            let same = Frame-SameOrder (target c) k s t (λ e. ground arith) g in
            (
              λ p e. (p, same.0 ∙ e, (refl, refl, refl, refl)),
              λ j i e own. (i, same.1 j i e own, (refl, refl, refl, refl, refl)),
            ))
          (serve-Frame host sound s c))
  ]

pub paid_trans :
    (k : ℕ) (s t u : Store) (o : Order)
    → order_row k s.orders ≡ some o
    → PaidKept k s t
    → PaidKept k t u
    → PaidKept k s u
paid_trans k s t u o found first later =
    let (p, e1, m) = first.0 o found in
    let (q, e2, n) = later.0 p e1 in
    (
      λ r e.
          let same : o ≡ r = ground arith in
          (q, e2, subst (λ (x : Order). SameMoney x q) same (money_trans o p q m n)),
      λ j i e own.
          let (l, e3, h) = first.1 j i e own in
          let (r, e4, h') = later.1 j l e3 (h.0 ∙ own) in (r, e4, line_trans i l r h h'),
    )

-- A paid order keeps its amounts and its lines under every sequence of calls.
pub paid-PaidKept :
    (late : ℕ → Bool) (s t : Store) (k : ℕ) (o : Order)
    → Reaches late s t
    → order_row k s.orders ≡ some o
    → o.is_paid ≡ true
    → PaidKept k s t
paid-PaidKept late s t k o stay found paid = paid_refl k s
paid-PaidKept late s t k o (serves host c sound new rest) found paid =
    let s1 = after (serve host c s) s in
    let first = step-PaidKept host sound s k o found paid c new in
    let (p, e, m) = first.0 o found in
    paid_trans k s s1 t o found first (paid-PaidKept late s1 t k p rest e (m.0 ∙ paid))
paid-PaidKept late s t k o (late_ready host now later order item a seen sound is_late rest) found
      paid =
    let m = mark_item_ready host now later order item a seen s in
    let s1 = after m s in
    let first = after_same s (PaidKept k s) m (paid_refl k s) (
      Yields-map (Kept s) (PaidKept k s) m (Kept-PaidKept k s)
        (late_ready-Kept host sound now later order item a seen s)) in
    let (p, e, n) = first.0 o found in
    paid_trans k s s1 t o found first (paid-PaidKept late s1 t k p rest e (n.0 ∙ paid))
paid-PaidKept late s t k o (late_unready host order item a seen sound is_late rest) found paid =
    let m = unmark_item_ready host order item a seen s in
    let s1 = after m s in
    let first = after_same s (PaidKept k s) m (paid_refl k s) (
      Yields-map (Kept s) (PaidKept k s) m (Kept-PaidKept k s)
        (late_unready-Kept host sound order item a seen s)) in
    let (p, e, n) = first.0 o found in
    paid_trans k s s1 t o found first (paid-PaidKept late s1 t k p rest e (n.0 ∙ paid))
