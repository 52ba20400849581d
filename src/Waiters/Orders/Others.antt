-- ===== src/Waiters/Orders/Others.antt =====
-- A waiter's calls leave the orders of the other cashiers alone (waiters/services/order_service.py).
use alpha_pos_local.Base.{
  ℕ, ◌==◌, ◌≡◌, ◌≢◌, sym, subst, ◌∙◌, Bool, true, false, Option, some, List, [], ◌∷◌, inl, inr,
  arith, All, Outcome, ok, err,
}
use alpha_pos_local.Base.Yields.{Yields, Yields-map}
use alpha_pos_local.Customers.Orders.Rows.{Order, Item, Store, OrderError, order_row, item_row}
use alpha_pos_local.Customers.Orders.Calls.{IsSound}
use alpha_pos_local.Customers.Orders.Frame.{Frame, Belongs}
use alpha_pos_local.Waiters.Orders.Rows.{Floor, WaiterHost, is_cashier_of}
use alpha_pos_local.Waiters.Orders.Create.{create_order}
use alpha_pos_local.Waiters.Orders.Edit.{add_item, update_item, remove_item}
use alpha_pos_local.Waiters.Orders.Status.{mark_ready, request_payment, cancel_order}
use alpha_pos_local.Waiters.Orders.Tables.{update_table_status}
use alpha_pos_local.Waiters.Orders.Calls.{
  Call, create, add, update, remove, ready, request, cancel, set_table_status, serve, after,
  serve_all,
}
use alpha_pos_local.Waiters.Orders.Owned.{
  Within, add_item-Within, update_item-Within, remove_item-Within,
}
use alpha_pos_local.Waiters.Orders.Alone.{
  ready-Within, request-Within, cancel-Within, create-Frame, table-Same,
}

-- Who makes a call, of those that name an order, and the order that it names or creates.
abbrev pub is_by : ℕ → Call → Bool
is_by w (create fresh r) = r.waiter == w
is_by w (add key now k product q v) = v == w
is_by w (update k item q v) = v == w
is_by w (remove k item v) = v == w
is_by w (ready now k v) = v == w
is_by w (request now k v) = v == w
is_by w (cancel k v) = v == w
is_by w (set_table_status t status actor role) = true

abbrev pub creates : ℕ → Call → Bool
creates k (create fresh r) = fresh.order_key == k
creates k _ = false

-- The row of an order, and one of an item of it.
abbrev Has : ℕ → Order → ℕ → Item → Store → Type 0
Has k o j i s = (order_row k s.orders ≡ some o) × (item_row j s.items ≡ some i)

Frame-Has :
    (t k j : ℕ) (o : Order) (i : Item) (s u : Store)
    → i.order_id ≡ k
    → k ≢ t
    → Frame t s u
    → Has k o j i s
    → Has k o j i u
Frame-Has t k j o i s u mine d (orders, items) (e, h) = (
  orders k d ∙ e,
  elim (items j) [
    | inl same ↦ same ∙ h
    | inr (a, b) ↦
        let x : i.order_id ≡ t = subst (λ (r : Option Item). Belongs t r) h a in
        absurd (ground arith)
  ],
)

Within-Has :
    (t w k j : ℕ) (o : Order) (i : Item) (f g : Floor)
    → i.order_id ≡ k
    → is_cashier_of w o ≡ false
    → Within t w f g
    → Has k o j i f.core
    → Has k o j i g.core
Within-Has t w k j o i f g mine other ((p, found, own), frame) (e, h) =
    Frame-Has t k j o i f.core g.core mine apart frame (e, h)
  where
    apart : k ≢ t
    apart q =
        let e' : order_row t f.core.orders ≡ some o =
          subst (λ (x : ℕ). order_row x f.core.orders ≡ some o) q e in
        let z : p ≡ o = ground arith in
        let y : is_cashier_of w o ≡ true = subst (λ (x : Order). is_cashier_of w x ≡ true) z own in
        absurd (ground arith)

after-Has :
    (k j : ℕ) (o : Order) (i : Item) (m : Outcome OrderError Floor) (f : Floor)
    → Has k o j i f.core
    → Yields (λ g. Has k o j i g.core) m
    → Has k o j i (after m f).core
after-Has k j o i (ok g) f h y = y
after-Has k j o i (err e) f h y = h

module _ (host : WaiterHost) (sound : IsSound host.core) (w k j : ℕ) (o : Order) (i : Item)
    (mine : i.order_id ≡ k) (other : is_cashier_of w o ≡ false) where
  from :
      (t v : ℕ) (f : Floor) (m : Outcome OrderError Floor)
      → (v == w) ≡ true
      → Has k o j i f.core
      → Yields (Within t v f) m
      → Yields (λ g. Has k o j i g.core) m
  from t v f m by h q =
      let e : w ≡ v = ground arith in
      Yields-map _ _ m
        (λ g within.
          Within-Has t v k j o i f g mine (subst (λ (x : ℕ). is_cashier_of x o ≡ false) e other)
            within h)
        q

  serve-Has :
      (c : Call) (f : Floor)
      → is_by w c ≡ true
      → creates k c ≡ false
      → Has k o j i f.core
      → Yields (λ g. Has k o j i g.core) (serve host c f)
  unfolding serve
  serve-Has (create fresh r) f by new h =
      Yields-map _ _ (create_order host fresh r f)
        (λ g frame.
          Frame-Has fresh.order_key k j o i f.core g.core mine (λ q. absurd (ground arith)) frame h)
        (create-Frame host sound fresh r f)
  serve-Has (add key now t product q v) f by new h =
      from t v f (add_item host key now t product q v f) by h
        (add_item-Within host sound key now t product q v f)
  serve-Has (update t item q v) f by new h =
      from t v f (update_item host t item q v f) by h (update_item-Within host sound t item q v f)
  serve-Has (remove t item v) f by new h =
      from t v f (remove_item host t item v f) by h (remove_item-Within host sound t item v f)
  serve-Has (ready now t v) f by new h =
      from t v f (mark_ready host now t v f) by h (ready-Within host sound now t v f)
  serve-Has (request now t v) f by new h =
      from t v f (request_payment host now t v f) by h (request-Within host sound now t v f)
  serve-Has (cancel t v) f by new h =
      from t v f (cancel_order host t v f) by h (cancel-Within host sound t v f)
  serve-Has (set_table_status t status actor role) f by new h =
      Yields-map _ _ (update_table_status host t status actor role f)
        (λ g same. subst (λ (s : Store). Has k o j i s) (sym same) h)
        (table-Same host sound t status actor role f)

  All-Has :
      (cs : List Call) (f : Floor)
      → All (λ c. (is_by w c ≡ true) × (creates k c ≡ false)) cs
      → Has k o j i f.core
      → Has k o j i (serve_all host cs f).core
  unfolding serve_all
  All-Has [] f made h = h
  All-Has (c ∷ cs) f made h =
      All-Has cs (after (serve host c f) f) made.1
        (after-Has k j o i (serve host c f) f h (serve-Has c f made.0.0 made.0.1 h))

-- Whatever calls a waiter makes, an order of another cashier keeps its row, and so does every item of
-- it, as long as no call creates an order under its key.
pub serve_all-others :
    (host : WaiterHost)
    → IsSound host.core
    → (w : ℕ) (cs : List Call) (f : Floor) (k j : ℕ) (o : Order) (i : Item)
    → order_row k f.core.orders ≡ some o
    → is_cashier_of w o ≡ false
    → item_row j f.core.items ≡ some i
    → i.order_id ≡ k
    → All (λ c. (is_by w c ≡ true) × (creates k c ≡ false)) cs
    → (order_row k (serve_all host cs f).core.orders ≡ some o)
      × (item_row j (serve_all host cs f).core.items ≡ some i)
serve_all-others host sound w cs f k j o i found other has mine made =
    All-Has host sound w k j o i mine other cs f made (found, has)
