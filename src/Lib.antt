-- ===== src/Lib.antt =====
-- A point of sale for restaurants: a Django service and its desktop host. This library models the
-- parts that carry its rules and proves what makes them correct.
--
-- Parts, and the files that model them (source paths from the repository's root):
--
-- Couriers/Dispatch: the dispatch of delivery orders to couriers, couriers/services.py from
-- `assign` to `advance_status`, over couriers/models.py, with the two receivers of
-- couriers/signals.py. Store has the rows and the post-commit effects, Assign `assign` and
-- `unassign`, Pick `pick_available_courier`, Progress `accept`, `decline`, `mark_ready` and `advance_status`. Lifecycle is the
-- specification: which step may follow which, and how one call may change the table; Refines
-- shows that every operation keeps to it; Calls runs sequences of calls.
--
-- Customers/Printing: the queue of receipts to print, customers/services/print_service.py over
-- customers/models.py. Jobs has the rows and the completeness test of an order's lines, Queue the
-- three operations.
--
-- Couriers/Payments: what couriers and a payment gateway collect, couriers/payments.py. Rows has the
-- rows, Evidence the synced evidence and its sums, Header the paid header, Create `create_payment`,
-- Refund `refund_payment`, Gateway `apply_webhook`. Steps and Grows say how rows may change, Terminal and
-- Calls that every call keeps to it. The refund ledger of `base` is an argument.
--
-- Couriers/Ledger: a courier's money, couriers/services.py from `courier_payment_event_key` to
-- `settle`. Rows has the rows, Refunds what of a refund is the courier's, Snapshot the window, the
-- reconciliation and the settlement; Additive, Settled and Share what holds of them.
--
-- Couriers/Tokens: credentials, couriers/tokens.py. Rows has the rows, Claims the one-time QR claims,
-- Refresh sessions and the rotation of refresh tokens, Rotation, Single and Once what holds of
-- these, Spent and Login what holds of claims.
--
-- Customers/Checkout: settling an order, `mark_as_paid` of customers/services/order_service.py.
-- Request has the shapes of a request and `_normalize_checkout_contract`, Orders the rows, the
-- ownership test and the stored evidence, Pay the payment and its replay. Given says, apart from the code,
-- which tenders a request gives. The choices of payment methods, the lock of the cashier's shift and
-- the stock are arguments.
--
-- Customers/Orders: the other operations on an order, customers/services/order_service.py. Rows has
-- the rows and the code of `base`, stock and discounts that is called, Parts the totals, the stock
-- and the readiness that the operations share, Create, Edit, Status, Kitchen and Details the
-- operations, Calls all of them as calls and the states that calls lead to, Spelling the spelling of
-- statuses. Edits and Changes have a rule of each operation, from which Apart, Canceled, Paid,
-- Always, Balanced and Refused derive what Promises states. An order's assignments are the rows of
-- Couriers/Dispatch, its ownership test is that of Customers/Checkout.
-- The calls are those of `CustomerOrderService`: a courier's report of a delivery, in
-- Couriers/Dispatch, is not one of them, and completes its order whatever the order's status is. A save
-- of an order runs the receiver of couriers/signals.py that clears its legacy courier; the one that makes
-- an assigned delivery of a ready order ready is in Couriers/Dispatch and not composed with these calls,
-- none of which tells the two steps apart.
--
-- Waiters/Orders: the waiters' operations on orders and tables, waiters/services/order_service.py,
-- over the rows and the shared steps of Customers/Orders. Rows has the tables, the requests for
-- payment and the ownership test, Create, Edit, Status and Tables the operations, Calls all of them;
-- Owned, Alone and Others what they leave to the orders of other cashiers.
--
-- Desktop/ShiftClose: the tracker of closed shifts, desktop/shift_close_sync.py. Entries has the
-- entries of the state file, Verdict what an answer of the cloud means, Refresh the rounds and the
-- close that commits, Calls the calls that reach the tracker, Status what it shows; Kept, Rounds and
-- Acked what holds of the calls. The bundle of a shift, with the outcome of the check of its manifest,
-- and the answers of the cloud are arguments; what is asked of the sync queue is a list of effects.
--
-- Conventions. A request handler is a function from the rows that it reads to the rows that it
-- leaves; a refusal (a raised exception that rolls the transaction back, or a returned message) is a
-- value. Rows are lists, a query is a filter over them, and a row that a OneToOneField or a unique
-- key names is addressed by that key. A handler locks the rows that it decides on before it reads
-- them, so an interleaving of requests is a sequence of whole calls, but for three that do not:
-- `mark_item_ready` and `unmark_item_ready`, which have the state that they read as an argument
-- beside the one that they write to (a late call of Customers/Orders/Calls is one whose state others
-- have changed since, and its own writes follow one another), and `update_table_status` of the
-- waiters, which is modelled as if it did. Where a reading of the clock or a lock of another
-- transaction shows inside a call, it is an argument. Times are microseconds. The
-- models of the package `base` (orders, users, shifts) are records of the columns that the code here
-- reads and writes. Money is in hundredths, a courier's collection in whole so'm. A call that is refused
-- leaves the rows as they were, but in Couriers/Payments, where a refusal comes with the rows that the
-- code commits all the same. SHA-256 and the secrets of the standard library are arguments.
--
-- Loops run over lists, so none needs fuel but two: the decimal digits of a number, which take one
-- more round than the number's value, and the choice of a courier, which takes one more round than
-- there are keys of couriers.
--
-- Not modelled: serialisation of responses, the wording of notifications, WebSocket and push
-- transport, the rest of the desktop host and its user interface, the updater, and the audit exports.
pub mod Base
pub mod Couriers
pub mod Customers
pub mod Desktop
pub mod Waiters
