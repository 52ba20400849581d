-- ===== src/Customers/Orders/Canceled.antt =====
-- A cancelled order stays as it is, under every sequence of calls.
use alpha_pos_local.Base.{
  ℕ, ◌≡◌, ◌≢◌, Bool, refl, sym, ◌∙◌, subst, true, false, Option, none, some, inl, inr, arith, ◌==◌,
  Bool-cases, Outcome, ok, err,
}
use alpha_pos_local.Base.Yields.{Yields, Yields-map}
use alpha_pos_local.Couriers.Dispatch.Store.{
  OrderStatus, preparing, order_ready, canceled, completed, other_status,
}
use alpha_pos_local.Customers.Orders.Rows.{
  Order, Item, Store, Host, OrderError, order_row, item_row, is_canceled, is_preparing,
}
use alpha_pos_local.Customers.Orders.Calls.{
  Call, serve, target, IsFresh, IsSound, after, Reaches, stay, serves, late_ready, late_unready,
}
use alpha_pos_local.Customers.Orders.Frame.{Frame, Belongs}
use alpha_pos_local.Customers.Orders.Edits.{
  add_item-Yields, update_item-Yields, remove_item-Yields, set_status-Yields,
}
use alpha_pos_local.Customers.Orders.Changes.{
  set_type-Yields, item_ready-Yields, item_unready-Yields, ready_order-Yields, assign-Yields,
  edit-Yields,
}
use alpha_pos_local.Customers.Orders.Apart.{serve-Frame, late_ready-Frame, late_unready-Frame}
use alpha_pos_local.Customers.Orders.Kitchen.{mark_item_ready, unmark_item_ready}

canceled_not_preparing : (t : OrderStatus) → is_canceled t ≡ true → is_preparing t ≡ true → ⊥
canceled_not_preparing preparing c p = ground arith
canceled_not_preparing order_ready c p = ground arith
canceled_not_preparing canceled c p = ground arith
canceled_not_preparing completed c p = ground arith
canceled_not_preparing (other_status t) c p = ground arith

module _ (host : Host) (sound : IsSound host) (s : Store) (k : ℕ) (o : Order)
    (found : order_row k s.orders ≡ some o) (gone : is_canceled o.status ≡ true) where
  same_row : (p : Order) → order_row k s.orders ≡ some p → is_canceled p.status ≡ true
  same_row p e =
      let q : o ≡ p = ground arith in subst (λ (x : Order). is_canceled x.status ≡ true) q gone

  edit_refused :
      (p : Order) (t : Store) → order_row k s.orders ≡ some p → is_preparing p.status ≡ true → t ≡ s
  edit_refused p t e open_ = absurd (canceled_not_preparing p.status (same_row p e) open_)

  change_refused :
      (p : Order) (t : Store) → order_row k s.orders ≡ some p → is_canceled p.status ≡ false → t ≡ s
  change_refused p t e live = absurd (let c = same_row p e in ground arith)

  -- An accepted call for a cancelled order changes nothing.
  pub canceled-serve :
      (c : Call) → target c ≡ k → IsFresh c s → Yields (λ t. t ≡ s) (serve host c s)
  canceled-serve (Call.create fresh r) e new = absurd (new_order e new)
    where
      new_order : fresh.order_key ≡ k → order_row fresh.order_key s.orders ≡ none → ⊥
      new_order e n =
          let m : order_row k s.orders ≡ none =
            subst (λ (x : ℕ). order_row x s.orders ≡ none) e n in
          ground arith
  canceled-serve (Call.add_item key now j product q a) e new =
      add_item-Yields host sound _ key now j product q a s (λ p x n t f u c same.
        edit_refused p t (subst (λ (y : ℕ). order_row y s.orders ≡ some p) e f) c)
  canceled-serve (Call.update_item j item q a) e new =
      update_item-Yields host sound _ j item q a s (λ p i n t f u c row own same.
        edit_refused p t (subst (λ (y : ℕ). order_row y s.orders ≡ some p) e f) c)
  canceled-serve (Call.remove_item now j item a) e new =
      remove_item-Yields host sound _ now j item a s (λ p i t f u c row own same.
        edit_refused p _ (subst (λ (y : ℕ). order_row y s.orders ≡ some p) e f) c)
  canceled-serve (Call.set_status now j text a reason) e new =
      set_status-Yields host sound _ now j text a reason s (λ p f c. refl)
        (λ p status s1 t f live x y.
          change_refused p t (subst (λ (y : ℕ). order_row y s.orders ≡ some p) e f) live)
  canceled-serve (Call.set_type j text a) e new =
      set_type-Yields host sound _ j text a s (λ p type f live.
        change_refused p _ (subst (λ (y : ℕ). order_row y s.orders ≡ some p) e f) live)
  canceled-serve (Call.item_ready now later j item a) e new =
      item_ready-Yields host sound _ now later j item a s s (λ p i f live cooking row own.
        change_refused p _ (subst (λ (y : ℕ). order_row y s.orders ≡ some p) e f) live)
  canceled-serve (Call.item_unready j item a) e new =
      item_unready-Yields host sound _ j item a s s (λ p i f live row own.
        change_refused p _ (subst (λ (y : ℕ). order_row y s.orders ≡ some p) e f) live)
  canceled-serve (Call.ready_order now j a) e new =
      ready_order-Yields host sound _ now j a s
        (λ p f live. change_refused p _ (subst (λ (y : ℕ). order_row y s.orders ≡ some p) e f) live)
  canceled-serve (Call.assign j person a) e new =
      assign-Yields host sound _ j person a s
        (λ p f live. change_refused p _ (subst (λ (y : ℕ). order_row y s.orders ≡ some p) e f) live)
  canceled-serve (Call.edit j x a) e new =
      edit-Yields host sound _ j x a s
        (λ p f live. change_refused p _ (subst (λ (y : ℕ). order_row y s.orders ≡ some p) e f) live)

-- The row of an order and its items.
abbrev pub SameOrder : ℕ → Store → Store → Type 0
SameOrder k s t =
    (order_row k t.orders ≡ order_row k s.orders)
    × ((j : ℕ) (i : Item)
        → item_row j s.items ≡ some i
        → i.order_id ≡ k
        → item_row j t.items ≡ some i)

-- What is outside a frame is the same.
pub Frame-SameOrder : (pk k : ℕ) (s t : Store) → k ≢ pk → Frame pk s t → SameOrder k s t
Frame-SameOrder pk k s t d f = (
  f.0 k d,
  λ j i e own. elim (f.1 j) [
    | inl same ↦ same ∙ e
    | inr (b, c) ↦
        let q : i.order_id ≡ pk = subst (λ (x : Option Item). Belongs pk x) e b in
        absurd (d (sym own ∙ q))
  ],
)

pub after_same :
    (s : Store) (P : Store → Type 0) (m : Outcome OrderError Store)
    → P s
    → Yields P m
    → P (after m s)
after_same s P (ok t) p y = y
after_same s P (err e) p y = p

step-SameOrder :
    (host : Host) (sound : IsSound host) (c : Call) (s : Store) (k : ℕ) (o : Order)
    → IsFresh c s
    → order_row k s.orders ≡ some o
    → is_canceled o.status ≡ true
    → SameOrder k s (after (serve host c s) s)
step-SameOrder host sound c s k o new found gone = elim (Bool-cases (target c == k)) [
  | inl t ↦
      let same : after (serve host c s) s ≡ s =
        after_same s (λ t. t ≡ s) (serve host c s) refl
          (canceled-serve host sound s k o found gone c (ground arith) new) in
      rw same (refl, λ j i e own. e)
  | inr f ↦
      after_same s (SameOrder k s) (serve host c s) (refl, λ j i e own. e)
        (Yields-map (Frame (target c) s) (SameOrder k s) (serve host c s)
          (λ t. Frame-SameOrder (target c) k s t (λ e. ground arith)) (serve-Frame host sound s c))
]

-- A late call of another order.
late-SameOrder :
    (late : ℕ → Bool) (k order : ℕ) (s : Store) (m : Outcome OrderError Store)
    → late k ≡ false
    → late order ≡ true
    → Yields (Frame order s) m
    → SameOrder k s (after m s)
late-SameOrder late k order s m prompt is_late y =
    after_same s (SameOrder k s) m (refl, λ j i e own. e)
      (Yields-map (Frame order s) (SameOrder k s) m
        (λ t. Frame-SameOrder order k s t (λ e.
          let other : late k ≡ true = subst (λ (x : ℕ). late x ≡ true) (sym e) is_late in
          absurd (ground arith)))
        y)

same_trans : (k : ℕ) (s t u : Store) → SameOrder k s t → SameOrder k t u → SameOrder k s u
same_trans k s t u f g = (g.0 ∙ f.0, λ j i e own. g.1 j i (f.1 j i e own) own)

-- A cancelled order that no late call is about keeps its rows under every sequence of calls.
pub canceled-SameOrder :
    (late : ℕ → Bool) (s t : Store) (k : ℕ) (o : Order)
    → late k ≡ false
    → Reaches late s t
    → order_row k s.orders ≡ some o
    → is_canceled o.status ≡ true
    → SameOrder k s t
canceled-SameOrder late s t k o prompt stay found gone = (refl, λ j i e own. e)
canceled-SameOrder late s t k o prompt (serves host c sound new rest) found gone =
    let s1 = after (serve host c s) s in
    let first = step-SameOrder host sound c s k o new found gone in
    same_trans k s s1 t first (canceled-SameOrder late s1 t k o prompt rest (first.0 ∙ found) gone)
canceled-SameOrder late s t k o prompt
      (late_ready host now later order item a seen sound is_late rest) found gone =
    let m = mark_item_ready host now later order item a seen s in
    let s1 = after m s in
    let first =
      late-SameOrder late k order s m prompt is_late
        (late_ready-Frame host sound now later order item a seen s) in
    same_trans k s s1 t first (canceled-SameOrder late s1 t k o prompt rest (first.0 ∙ found) gone)
canceled-SameOrder late s t k o prompt (late_unready host order item a seen sound is_late rest)
      found gone =
    let m = unmark_item_ready host order item a seen s in
    let s1 = after m s in
    let first =
      late-SameOrder late k order s m prompt is_late
        (late_unready-Frame host sound order item a seen s) in
    same_trans k s s1 t first (canceled-SameOrder late s1 t k o prompt rest (first.0 ∙ found) gone)
