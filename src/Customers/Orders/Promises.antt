-- ===== src/Customers/Orders/Promises.antt =====
-- What the operations on orders promise, for every call and every sequence of calls.
use alpha_pos_local.Base.{ℕ, Bool, ◌≡◌, ◌≢◌, true, false, some, ok, is_some, ◌∙◌, sym}
use alpha_pos_local.Base.Tables.{row-key}
use alpha_pos_local.Base.Yields.{yields_ok}
use alpha_pos_local.Customers.Orders.Rows.{
  Order, Item, Store, Host, order_row, item_row, is_ready, is_canceled,
}
use alpha_pos_local.Customers.Orders.Calls.{Call, serve, target, IsSound, Reaches}
use alpha_pos_local.Customers.Orders.Frame.{Frame}
use alpha_pos_local.Customers.Orders.Apart.{serve-Frame}
use alpha_pos_local.Customers.Orders.Canceled.{Frame-SameOrder, canceled-SameOrder}
use alpha_pos_local.Customers.Orders.Sold.{OrderKept, LineKept}
use alpha_pos_local.Customers.Orders.Paid.{paid-PaidKept}
use alpha_pos_local.Customers.Orders.Cooked.{Cooked, Linked}
use alpha_pos_local.Customers.Orders.Always.{reaches-Cooked}
use alpha_pos_local.Customers.Orders.Balanced.{EditedAt, is_edit, edit-EditedAt}

-- An accepted call for one order leaves the row of every other order and of every item of it as it is.
pub serve_apart :
    (host : Host) (c : Call) (s t : Store) (k j : ℕ) (i : Item)
    → IsSound host
    → serve host c s ≡ ok t
    → k ≢ target c
    → item_row j s.items ≡ some i
    → i.order_id ≡ k
    → (order_row k t.orders ≡ order_row k s.orders) × (item_row j t.items ≡ some i)
serve_apart host c s t k j i sound e d found own =
    let f = yields_ok (Frame (target c) s) (serve host c s) t (serve-Frame host sound s c) e in
    let same = Frame-SameOrder (target c) k s t d f in (same.0, same.1 j i found own)

-- Once an order is cancelled, no sequence of the calls of `CustomerOrderService`, but for a late
-- `mark_item_ready` or `unmark_item_ready` of this order, changes its row or the row of an item of it.
-- Late is a call that decides on a state of the order that other calls have changed since.
pub canceled_terminal :
    (late : ℕ → Bool) (s t : Store) (k j : ℕ) (o : Order) (i : Item)
    → late k ≡ false
    → Reaches late s t
    → order_row k s.orders ≡ some o
    → is_canceled o.status ≡ true
    → item_row j s.items ≡ some i
    → i.order_id ≡ k
    → (order_row k t.orders ≡ some o) × (item_row j t.items ≡ some i)
canceled_terminal late s t k j o i prompt path found gone line own =
    let same = canceled-SameOrder late s t k o prompt path found gone in
    (same.0 ∙ found, same.1 j i line own)

-- Once an order is paid, no sequence of calls, late ones among them, takes back the payment, changes
-- its subtotal, discount or total, or changes the order, product, quantity or price of an item of it,
-- or deletes or restores one.
pub paid_frozen :
    (late : ℕ → Bool) (s t : Store) (k j : ℕ) (o : Order) (i : Item)
    → Reaches late s t
    → order_row k s.orders ≡ some o
    → o.is_paid ≡ true
    → item_row j s.items ≡ some i
    → i.order_id ≡ k
    → OrderKept o (order_row k t.orders) × LineKept i (item_row j t.items)
paid_frozen late s t k j o i path found paid line own =
    let kept = paid-PaidKept late s t k o path found paid in (kept.0 o found, kept.1 j i line own)

-- In every state that the calls lead to from one where it is so and where every item is of an order, a
-- ready order has the time at which it became ready, and every live item of it is ready. This is of
-- the orders of which there is no late `mark_item_ready` or `unmark_item_ready`: one that decides on a
-- state of the order that other calls have changed since.
pub ready_complete :
    (late : ℕ → Bool) (s t : Store) (k j : ℕ) (o : Order) (i : Item)
    → late k ≡ false
    → Cooked late s
    → Linked late s
    → Reaches late s t
    → order_row k t.orders ≡ some o
    → is_ready o.status ≡ true
    → item_row j t.items ≡ some i
    → i.order_id ≡ k
    → i.is_deleted ≡ false
    → (is_some o.ready_at ≡ true) × (is_some i.ready_at ≡ true)
ready_complete late s t k j o i prompt cooked linked path found ready line own live =
    let (time, all) = (reaches-Cooked late s t path (cooked, linked)).0 k o prompt found ready in
    let key = row-key (λ o. o.pk) k t.orders o found in (time, all j i line (own ∙ sym key) live)

-- After an accepted edit of its lines, an order is deleted and no line of it is left, or its subtotal
-- is what its lines come to, its total and its discount add up to the subtotal, the total is not below
-- zero and the discount is not above the subtotal.
pub edit_balanced :
    (host : Host) (c : Call) (s t : Store)
    → IsSound host
    → is_edit c ≡ true
    → serve host c s ≡ ok t
    → EditedAt host (target c) t
edit_balanced host c s t sound edit e =
    yields_ok (EditedAt host (target c)) (serve host c s) t (edit-EditedAt host sound c s edit) e
