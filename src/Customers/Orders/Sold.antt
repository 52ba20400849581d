-- ===== src/Customers/Orders/Sold.antt =====
-- Writes that keep the amounts of the orders and what was sold.
use alpha_pos_local.Base.{
  ℕ, ◌≡◌, refl, ◌∙◌, Bool, true, false, Option, some, if◌then◌else◌, not, ◌&&◌,
}
use alpha_pos_local.Base.Tables.{row-Related}
use alpha_pos_local.Couriers.Dispatch.Store.{
  OrderStatus, preparing, order_ready, canceled, completed, other_status,
}
use alpha_pos_local.Customers.Orders.Rows.{
  received, Order, Item, Store, order_row, item_row, order_is, is_ready, is_unready_of, save_order,
  save_items, notify,
}
use alpha_pos_local.Customers.Orders.Parts.{
  check_and_update_ready, all_ready, stamp_ready, stamp_item,
}
use alpha_pos_local.Customers.Orders.Status.{write_status, set_status}
use alpha_pos_local.Customers.Orders.Kitchen.{notify_ready}
use alpha_pos_local.Customers.Orders.Frame.{SameRows}
use alpha_pos_local.Customers.Orders.Plain.{SameMoney}

-- What was sold: all of a line but whether it is ready.
abbrev pub SameLine : Item → Item → Type 0
SameLine i j =
    (j.order_id ≡ i.order_id)
    × (j.product_id ≡ i.product_id)
    × (j.quantity ≡ i.quantity)
    × (j.price ≡ i.price)
    × (j.is_deleted ≡ i.is_deleted)

abbrev pub OrderKept : Order → Option Order → Type 0
OrderKept o r = (p : Order) × (r ≡ some p) × SameMoney o p

abbrev pub LineKept : Item → Option Item → Type 0
LineKept i r = (j : Item) × (r ≡ some j) × SameLine i j

-- Every order keeps its amounts, and every item what was sold.
abbrev pub Kept : Store → Store → Type 0
Kept s t =
    ((k : ℕ) (o : Order) → order_row k s.orders ≡ some o → OrderKept o (order_row k t.orders))
    × ((j : ℕ) (i : Item) → item_row j s.items ≡ some i → LineKept i (item_row j t.items))

pub money_trans : (o p q : Order) → SameMoney o p → SameMoney p q → SameMoney o q
money_trans o p q (a, b, c, d) (a', b', c', d') = (a' ∙ a, b' ∙ b, c' ∙ c, d' ∙ d)

pub line_trans : (i j k : Item) → SameLine i j → SameLine j k → SameLine i k
line_trans i j k (a, b, c, d, e) (a', b', c', d', e') = (a' ∙ a, b' ∙ b, c' ∙ c, d' ∙ d, e' ∙ e)

pub rows_Kept : (s t : Store) → SameRows s t → Kept s t
rows_Kept s t (a, b) = (
  λ k o e. (o, rw a e, (refl, refl, refl, refl)),
  λ j i e. (i, rw b e, (refl, refl, refl, refl, refl)),
)

pub Kept-trans : (s t u : Store) → Kept s t → Kept t u → Kept s u
Kept-trans s t u f g = (
  λ k o e.
      let (p, e1, m) = f.0 k o e in let (q, e2, n) = g.0 k p e1 in (q, e2, money_trans o p q m n),
  λ j i e.
      let (l, e1, m) = f.1 j i e in let (r, e2, n) = g.1 j l e1 in (r, e2, line_trans i l r m n),
)

pub save_order-Kept :
    (pk : ℕ) (write : Order → Order) (s : Store)
    → ((o : Order) → (write o).pk ≡ o.pk)
    → ((o : Order) → SameMoney o (write o))
    → Kept s (save_order pk write s)
unfolding save_order
save_order-Kept pk write s same money = (
  λ k o e.
      row-Related (λ o. o.pk) SameMoney (order_is pk) (λ o. received s (write o)) same k s.orders o
        e (λ _. money o) (λ _. (refl, refl, refl, refl)),
  λ j i e. (i, e, (refl, refl, refl, refl, refl)),
)

pub stamp_items-Kept :
    (test : Item → Bool) (at : Option ℕ) (s : Store) → Kept s (save_items test (stamp_item at) s)
unfolding save_items stamp_item
stamp_items-Kept test at s = (
  λ k o e. (o, e, (refl, refl, refl, refl)),
  λ j i e.
      row-Related (λ i. i.pk) SameLine test (stamp_item at) (λ i. refl) j s.items i e
        (λ _. (refl, refl, refl, refl, refl)) (λ _. (refl, refl, refl, refl, refl)),
)

pub stamp-Kept : (now pk : ℕ) (s : Store) → Kept s (save_order pk (stamp_ready now) s)
unfolding stamp_ready
stamp-Kept now pk s =
    save_order-Kept pk (stamp_ready now) s (λ o. refl) (λ o. (refl, refl, refl, refl))

status-Kept :
    (pk : ℕ) (status : OrderStatus) (s : Store) → Kept s (save_order pk (set_status status) s)
status-Kept pk status s =
    save_order-Kept pk (set_status status) s (λ o. refl) (λ o. (refl, refl, refl, refl))

pub write_status-Kept :
    (now : ℕ) (o : Order) (status : OrderStatus) (s : Store) → Kept s (write_status now o status s)
unfolding write_status
write_status-Kept now o order_ready s =
    let t = save_items (is_unready_of o.pk) (stamp_item (some now)) s in
    Kept-trans s t (save_order o.pk (stamp_ready now) t)
      (stamp_items-Kept (is_unready_of o.pk) (some now) s) (stamp-Kept now o.pk t)
write_status-Kept now o preparing s = status-Kept o.pk preparing s
write_status-Kept now o canceled s = status-Kept o.pk canceled s
write_status-Kept now o completed s = status-Kept o.pk completed s
write_status-Kept now o (other_status t) s = status-Kept o.pk (other_status t) s

pub if-Kept : (test : Bool) (s t u : Store) → Kept s t → Kept s u → Kept s (if test then t else u)
if-Kept true s t u f g = f
if-Kept false s t u f g = g

pub check-Kept :
    (now : ℕ) (o : Order) (s : Store) → Kept s (notify_ready o.pk (check_and_update_ready now o s))
unfolding check_and_update_ready notify_ready notify
check-Kept now o s =
    from (all_ready o.pk s.items) (all_ready o.pk s.items && not (is_ready o.status))
  where
    from :
        (ready test : Bool)
        → Kept s (
            notify_ready o.pk (
              if◌then◌else◌ {A = Bool × Bool × Store} test
                (true, true, save_order o.pk (stamp_ready now) s)
                (ready, false, s)))
    from ready true = stamp-Kept now o.pk s
    from ready false = rows_Kept s s (refl, refl)
