-- ===== src/Customers/Orders/Refused.antt =====
-- Calls while the stock services refuse.
use alpha_pos_local.Base.{
  ℕ, zero, suc, ◌≡◌, ◌∙◌, ap, [], ◌∷◌, any, All, Outcome, ok, err, inl, inr, Bool-cases, refl,
  subst, Bool, true, false, not, ◌&&◌, Option, none, some, List, keep, arith, leb,
}
use alpha_pos_local.Base.Int.{ℤ, pos, negsuc}
use alpha_pos_local.Base.Yields.{Yields, if_Yields, bind-Yields, bind_known, or_raise-Yields}
use alpha_pos_local.Couriers.Dispatch.Store.{OrderStatus, preparing}
use alpha_pos_local.Customers.Orders.Rows.{
  StockItem, StockCall, StockAnswer, responds, raises, StockSettings, Store, Host, OrderError,
  is_canceled, is_live_of, or_key,
}
use alpha_pos_local.Customers.Orders.Parts.{
  answered, is_zero, adjust_order_stock, needs_location, has_location, transition,
  apply_order_stock_transition,
}
use alpha_pos_local.Customers.Orders.Create.{
  check_request, placed, place_order, create_order, stock_items, new_items, or_blank,
}
use alpha_pos_local.Customers.Orders.Edit.{
  Quantity, positive, above_zero, editable, add_item_to_order,
}
use alpha_pos_local.Customers.Orders.Spelling.{from_api_status, allowed_status}
use alpha_pos_local.Customers.Orders.Status.{
  owned, refund_for, write_status, change_status, move_status, update_order_status,
}
use alpha_pos_local.Customers.Orders.Calls.{Call, serve, serve_all, after}
use alpha_pos_local.Customers.Orders.Canceled.{after_same}

-- An answer that is an exception or an error status.
abbrev pub refuses : StockAnswer → Bool
refuses raises = true
refuses (responds status) = leb 400 status

-- Stock is on, and deducted on a sale.
abbrev pub IsOn : Host → Type 0
IsOn host =
    (settings : StockSettings) × (host.stock_settings ≡ some settings)
    × (settings.stock_enabled ≡ true)
    × (settings.auto_deduct_on_sale ≡ true)

answered_refused :
    (P : Store → Type 0) (a : StockAnswer) (c : StockCall) (s : Store)
    → refuses a ≡ true
    → Yields P (answered a c s)
unfolding answered
answered_refused P raises c s h = tt
answered_refused P (responds status) c s h =
    if_Yields P (leb 400 status) _ _ (λ _. tt) (λ f. absurd (ground arith))

-- The calls that take stock.
abbrev pub takes_stock : Call → Bool
takes_stock (Call.create fresh r) = true
takes_stock (Call.add_item key now order product q a) = true
takes_stock (Call.set_status now order status a reason) = true
takes_stock _ = false

-- The calls that create an order or add an item.
abbrev pub adds_stock : Call → Bool
adds_stock (Call.create fresh r) = true
adds_stock (Call.add_item key now order product q a) = true
adds_stock _ = false

abbrev pub accepted : Outcome OrderError Store → Bool
accepted (ok s) = true
accepted (err e) = false

unaccepted : (m : Outcome OrderError Store) → Yields (λ _. ⊥) m → accepted m ≡ false
unaccepted (ok s) h = absurd h
unaccepted (err e) h = refl

not_zero : (q : ℤ) (n : ℕ) → above_zero q ≡ some n → is_zero (pos n) ≡ false
unfolding above_zero
not_zero (pos zero) n e = absurd (ground arith)
not_zero (pos (suc m)) n e =
    let d : suc m ≡ n = ground arith in subst (λ (x : ℕ). is_zero (pos x) ≡ false) d refl
not_zero (negsuc m) n e = absurd (ground arith)

positive_not_zero : (q : Quantity) (n : ℕ) → positive q ≡ some n → is_zero (pos n) ≡ false
positive_not_zero (Quantity.integer q) n e = not_zero q n e
positive_not_zero Quantity.other_value n e = absurd (ground arith)

module _ (host : Host)
    (down : (history : List StockCall) (c : StockCall)
      → refuses (host.stock_answer history c) ≡ true) where
  adjust_refused :
      (P : Store → Type 0) (order product : ℕ) (delta : ℤ) (by : Option ℕ) (item : ℕ) (s : Store)
      → is_zero delta ≡ false
      → Yields P (adjust_order_stock host order product delta by item s)
  unfolding adjust_order_stock
  adjust_refused P order product delta by item s h =
      if_Yields P (is_zero delta) _ _ (λ t. absurd (ground arith))
        (λ _. answered_refused P _ _ s (down s.stock _))

  transition_refused :
      (P : Store → Type 0) (order : ℕ) (before : Option OrderStatus) (after : OrderStatus)
      (items : List StockItem) (by : Option ℕ) (s : Store)
      → IsOn host
      → Yields P (apply_order_stock_transition host order before after items by s)
  unfolding apply_order_stock_transition transition
  transition_refused P order before after items by s (settings, e, on, auto) =
      rw (e, on, auto)
        (if_Yields P
          (needs_location settings before after && not (has_location host.stock_location)) _ _
          (λ _. tt) (λ _. answered_refused P _ _ s (down s.stock _)))

  -- No call that adds to an order is accepted.
  adds_refused :
      (P : Store → Type 0)
      → IsOn host
      → (c : Call) (s : Store) → adds_stock c ≡ true
      → Yields P (serve host c s)
  unfolding create_order place_order add_item_to_order
  adds_refused P on (Call.create fresh r) s e = bind-Yields P (check_request host r) _ (λ c e1.
      bind_known P (λ _. ⊥)
        (apply_order_stock_transition host fresh.order_key none preparing
          (stock_items (new_items fresh 0 (c.1))) (some r.user_id)
          (placed host fresh r (c.0) (c.1) s))
        _
        (transition_refused (λ _. ⊥) fresh.order_key none preparing
          (stock_items (new_items fresh 0 (c.1))) (some r.user_id)
          (placed host fresh r (c.0) (c.1) s) on)
        (λ t f. absurd f))
  adds_refused P on (Call.add_item key now k product q a) s e =
      bind-Yields P (editable host k a s) _ (λ o e1.
        or_raise-Yields P (host.product product) _ _ (λ p e2.
          or_raise-Yields P (positive q) _ _ (λ n e3.
            adjust_refused P k product (pos n) (or_key a.cashier_id a.user_id) _ _
              (positive_not_zero q n e3))))
  adds_refused P on (Call.set_status now k text a reason) s e = absurd (ground arith)
  adds_refused P on (Call.update_item k item q a) s e = absurd (ground arith)
  adds_refused P on (Call.remove_item now k item a) s e = absurd (ground arith)
  adds_refused P on (Call.set_type k text a) s e = absurd (ground arith)
  adds_refused P on (Call.item_ready now later k item a) s e = absurd (ground arith)
  adds_refused P on (Call.item_unready k item a) s e = absurd (ground arith)
  adds_refused P on (Call.ready_order now k a) s e = absurd (ground arith)
  adds_refused P on (Call.assign k person a) s e = absurd (ground arith)
  adds_refused P on (Call.edit k x a) s e = absurd (ground arith)

  -- What an accepted call leaves.
  refused_same :
      IsOn host
      → (c : Call) (s : Store) → takes_stock c ≡ true
      → Yields (λ t. t ≡ s) (serve host c s)
  unfolding update_order_status move_status change_status
  refused_same on (Call.create fresh r) s e =
      adds_refused (λ t. t ≡ s) on (Call.create fresh r) s refl
  refused_same on (Call.add_item key now k product q a) s e =
      adds_refused (λ t. t ≡ s) on (Call.add_item key now k product q a) s refl
  refused_same on (Call.set_status now k text a reason) s e =
      bind-Yields (λ t. t ≡ s) (owned host k a s) _
        (λ o e1.
          or_raise-Yields (λ t. t ≡ s) (allowed_status (from_api_status (or_blank text))) _ _
            (λ status e2.
              if_Yields (λ t. t ≡ s) (is_canceled o.status) _ _
                (λ c. if_Yields (λ t. t ≡ s) (is_canceled status) _ _ (λ _. refl) (λ _. tt))
                (λ c.
                  bind-Yields (λ t. t ≡ s) (refund_for host o status a reason s) _
                    (λ s1 e3.
                      let t = write_status now o status s1 in
                      let lines = stock_items (keep (is_live_of o.pk) t.items) in
                      bind_known (λ t. t ≡ s) (λ _. ⊥)
                        (apply_order_stock_transition host o.pk (some o.status) status lines
                          o.user_id t)
                        _
                        (transition_refused (λ _. ⊥) o.pk (some o.status) status lines o.user_id t
                          on)
                        (λ t f. absurd f)))))
  refused_same on (Call.update_item k item q a) s e = absurd (ground arith)
  refused_same on (Call.remove_item now k item a) s e = absurd (ground arith)
  refused_same on (Call.set_type k text a) s e = absurd (ground arith)
  refused_same on (Call.item_ready now later k item a) s e = absurd (ground arith)
  refused_same on (Call.item_unready k item a) s e = absurd (ground arith)
  refused_same on (Call.ready_order now k a) s e = absurd (ground arith)
  refused_same on (Call.assign k person a) s e = absurd (ground arith)
  refused_same on (Call.edit k x a) s e = absurd (ground arith)

  refused_after :
      IsOn host → (c : Call) (s : Store) → takes_stock c ≡ true → after (serve host c s) s ≡ s
  refused_after on c s e = after_same s (λ t. t ≡ s) (serve host c s) refl (refused_same on c s e)

  adds_unaccepted :
      IsOn host → (c : Call) (s : Store) → (adds_stock c && accepted (serve host c s)) ≡ false
  adds_unaccepted on c s = elim (Bool-cases (adds_stock c)) [
    | inr f ↦ rw f refl
    | inl t ↦ rw t (unaccepted (serve host c s) (adds_refused (λ _. ⊥) on c s t))
  ]

  -- The calls one after the other.
  pub refused-All :
      IsOn host
      → (s : Store) (cs : List Call) → All (λ c. takes_stock c ≡ true) cs
      → (serve_all host cs s ≡ s)
        × (any (λ c. adds_stock c && accepted (serve host c s)) cs ≡ false)
  unfolding serve_all
  refused-All on s [] h = (refl, refl)
  refused-All on s (c ∷ cs) h =
      let rest = refused-All on s cs h.1 in
      (
        ap (λ (t : Store). serve_all host cs t) (refused_after on c s h.0) ∙ rest.0,
        rw (adds_unaccepted on c s) (rest.1),
      )
