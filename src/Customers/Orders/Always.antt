-- ===== src/Customers/Orders/Always.antt =====
-- The state of the kitchen under every sequence of calls.
use alpha_pos_local.Base.{
  ℕ, ◌⊎◌, ◌≡◌, Bool, true, false, Outcome, refl, sym, ◌∙◌, ap, subst, Option, some, inl, inr, arith,
  ◌==◌, Bool-cases, is_some,
}
use alpha_pos_local.Base.Tables.{row-key}
use alpha_pos_local.Base.Yields.{Yields, Yields-map, Yields-both}
use alpha_pos_local.Customers.Orders.Rows.{
  Order, Item, Store, Host, OrderError, order_row, item_row,
}
use alpha_pos_local.Customers.Orders.Calls.{
  Call, serve, target, after, IsSound, IsFresh, Reaches, stay, serves, late_ready, late_unready,
}
use alpha_pos_local.Customers.Orders.Kitchen.{mark_item_ready, unmark_item_ready}
use alpha_pos_local.Customers.Orders.Frame.{Frame, Belongs}
use alpha_pos_local.Customers.Orders.Cooked.{IsCooked, Cooked, Linked, CookedAt}
use alpha_pos_local.Customers.Orders.Apart.{serve-Frame, late_ready-Frame, late_unready-Frame}
use alpha_pos_local.Customers.Orders.Canceled.{after_same}
use alpha_pos_local.Customers.Orders.Ready.{serve-CookedAt}

-- An item after a write within a frame: it is as it was, or it is of the framed order.
framed_item :
    (pk : ℕ) (s t : Store) (j : ℕ) (i : Item)
    → Frame pk s t
    → item_row j t.items ≡ some i
    → (item_row j s.items ≡ some i) ⊎ (i.order_id ≡ pk)
framed_item pk s t j i f e = elim (f.1 j) [
  | inl same ↦ inl (sym same ∙ e)
  | inr (b, c) ↦ inr (subst (λ (x : Option Item). Belongs pk x) e c)
]

Frame-Cooked :
    (late : ℕ → Bool) (pk : ℕ) (s t : Store)
    → Frame pk s t
    → (late pk ≡ false → CookedAt pk t)
    → Cooked late s
    → Cooked late t
Frame-Cooked late pk s t f at_own cooked k p prompt found = elim (Bool-cases (k == pk)) [
  | inl q ↦
      let d : k ≡ pk = ground arith in
      let g : order_row pk t.orders ≡ some p =
        subst (λ (x : ℕ). order_row x t.orders ≡ some p) d found in
      let (o, e, c) = at_own (subst (λ (x : ℕ). late x ≡ false) d prompt) in
      let same : o ≡ p = ground arith in subst (λ (x : Order). IsCooked x t.items) same c
  | inr q ↦
      let before : order_row k s.orders ≡ some p = sym (f.0 k (λ d. ground arith)) ∙ found in
      λ ready. (
        (cooked k p prompt before ready).0,
        λ j i e own live. elim (framed_item pk s t j i f e) [
          | inl e' ↦ (cooked k p prompt before ready).1 j i e' own live
          | inr own' ↦
              let key : p.pk ≡ k = row-key (λ o. o.pk) k t.orders p found in absurd (ground arith)
        ],
      )
]

Frame-Linked :
    (late : ℕ → Bool) (pk : ℕ) (s t : Store)
    → Frame pk s t
    → (late pk ≡ false → CookedAt pk t)
    → Linked late s
    → Linked late t
Frame-Linked late pk s t f at_own linked j i prompt found = elim (Bool-cases (i.order_id == pk)) [
  | inl q ↦
      let d : i.order_id ≡ pk = ground arith in
      let (o, e, c) = at_own (subst (λ (x : ℕ). late x ≡ false) d prompt) in
      let g : order_row i.order_id t.orders ≡ some o =
        subst (λ (x : ℕ). order_row x t.orders ≡ some o) (sym d) e in
      rw g refl
  | inr q ↦ elim (framed_item pk s t j i f found) [
    | inl e' ↦
        ap (λ (x : Option Order). is_some x) (f.0 i.order_id (λ d. ground arith))
        ∙ linked j i prompt e'
    | inr own ↦ absurd (ground arith)
  ]
]

abbrev pub Kitchen : (ℕ → Bool) → Store → Type 0
Kitchen late s = Cooked late s × Linked late s

Frame-Kitchen :
    (late : ℕ → Bool) (pk : ℕ) (s : Store) (m : Outcome OrderError Store)
    → Yields (λ t. Frame pk s t × (late pk ≡ false → CookedAt pk t)) m
    → Kitchen late s
    → Kitchen late (after m s)
Frame-Kitchen late pk s m y (cooked, linked) =
    after_same s (Kitchen late) m (cooked, linked)
      (Yields-map (λ t. Frame pk s t × (late pk ≡ false → CookedAt pk t)) (Kitchen late) m
        (λ t h. (
          Frame-Cooked late pk s t (h.0) (h.1) cooked,
          Frame-Linked late pk s t (h.0) (h.1) linked,
        ))
        y)

-- A late call leaves the orders that no late call is about.
late-Kitchen :
    (late : ℕ → Bool) (order : ℕ) (s : Store) (m : Outcome OrderError Store)
    → late order ≡ true
    → Yields (Frame order s) m
    → Kitchen late s
    → Kitchen late (after m s)
late-Kitchen late order s m is_late y = Frame-Kitchen late order s m (
    Yields-map (Frame order s) (λ t. Frame order s t × (late order ≡ false → CookedAt order t)) m
      (λ t f. (f, λ prompt. absurd (ground arith))) y)

serve-Kitchen :
    (late : ℕ → Bool) (host : Host) (sound : IsSound host) (c : Call) (s : Store)
    → IsFresh c s
    → Kitchen late s
    → Kitchen late (after (serve host c s) s)
serve-Kitchen late host sound c s new (cooked, linked) = elim (Bool-cases (late (target c))) [
  | inl l ↦
      late-Kitchen late (target c) s (serve host c s) l (serve-Frame host sound s c)
        (cooked, linked)
  | inr p ↦
      Frame-Kitchen late (target c) s (serve host c s)
        (Yields-map (λ t. Frame (target c) s t × CookedAt (target c) t)
          (λ t. Frame (target c) s t × (late (target c) ≡ false → CookedAt (target c) t))
          (serve host c s) (λ t h. (h.0, λ _. h.1))
          (Yields-both (Frame (target c) s) (CookedAt (target c)) (serve host c s)
            (serve-Frame host sound s c) (serve-CookedAt late host sound s cooked linked c p new)))
        (cooked, linked)
]

-- The two are kept by every sequence of calls.
pub reaches-Cooked :
    (late : ℕ → Bool) (s t : Store) → Reaches late s t → Kitchen late s → Kitchen late t
reaches-Cooked late s t stay h = h
reaches-Cooked late s t (serves host c sound new rest) h =
    reaches-Cooked late (after (serve host c s) s) t rest (serve-Kitchen late host sound c s new h)
reaches-Cooked late s t (late_ready host now later order item a seen sound is_late rest) h =
    let m = mark_item_ready host now later order item a seen s in
    reaches-Cooked late (after m s) t rest (
      late-Kitchen late order s m is_late
        (late_ready-Frame host sound now later order item a seen s) h)
reaches-Cooked late s t (late_unready host order item a seen sound is_late rest) h =
    let m = unmark_item_ready host order item a seen s in
    reaches-Cooked late (after m s) t rest
      (late-Kitchen late order s m is_late (late_unready-Frame host sound order item a seen s) h)
