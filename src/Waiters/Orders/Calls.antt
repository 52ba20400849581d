-- ===== src/Waiters/Orders/Calls.antt =====
-- The waiters' operations as calls (waiters/services/order_service.py), and what a call leaves.
use alpha_pos_local.Base.{ℕ, Option, List, [], ◌∷◌, Outcome, ok, err}
use alpha_pos_local.Base.Int.{ℤ}
use alpha_pos_local.Base.Text.{Text}
use alpha_pos_local.Customers.Orders.Rows.{OrderError}
use alpha_pos_local.Customers.Orders.Create.{Fresh}
use alpha_pos_local.Waiters.Orders.Rows.{Floor, WaiterHost}
use alpha_pos_local.Waiters.Orders.Create.{Request, create_order}
use alpha_pos_local.Waiters.Orders.Edit.{add_item, update_item, remove_item}
use alpha_pos_local.Waiters.Orders.Status.{mark_ready, request_payment, cancel_order}
use alpha_pos_local.Waiters.Orders.Tables.{update_table_status}

pub data Call : Type 0 where
  create : Fresh → Request → Call
  add : (key now order product : ℕ) → (quantity : ℤ) → (waiter : ℕ) → Call
  update : (order item : ℕ) → (quantity : ℤ) → (waiter : ℕ) → Call
  remove : (order item waiter : ℕ) → Call
  ready : (now order waiter : ℕ) → Call
  request : (now order waiter : ℕ) → Call
  cancel : (order waiter : ℕ) → Call
  set_table_status : (table : ℕ) → Text → (actor : Option ℕ) → (role : Option Text) → Call

unfoldable pub serve : WaiterHost → Call → Floor → Outcome OrderError Floor
serve host (create fresh r) f = create_order host fresh r f
serve host (add key now k product q w) f = add_item host key now k product q w f
serve host (update k item q w) f = update_item host k item q w f
serve host (remove k item w) f = remove_item host k item w f
serve host (ready now k w) f = mark_ready host now k w f
serve host (request now k w) f = request_payment host now k w f
serve host (cancel k w) f = cancel_order host k w f
serve host (set_table_status t status actor role) f = update_table_status host t status actor role f

-- The rows after a call; a refusal leaves them.
abbrev pub after : Outcome OrderError Floor → Floor → Floor
after (ok g) f = g
after (err e) f = f

unfoldable pub serve_all : WaiterHost → List Call → Floor → Floor
serve_all host [] f = f
serve_all host (c ∷ cs) f = serve_all host cs (after (serve host c f) f)
