-- ===== src/Customers/Printing/Jobs.antt =====
-- The print jobs, the orders that they print, and when an order's lines are complete. SHA-256 is
-- `hashlib`'s: a parameter. Money is in hundredths; a time is a count of microseconds.
use alpha_pos_local.Base.{
  ◌||◌, ℕ, ◌+◌, ◌*◌, min, max, Bool, true, false, not, ◌&&◌, Option, none, some, List, [], ◌∷◌,
  ◌++◌, ◌==◌, ltb, leb, keep, find, if◌then◌else◌,
}
use alpha_pos_local.Base.Int.{ℤ, pos_part}
use alpha_pos_local.Base.Text.{Text, codes}
use alpha_pos_local.Base.Digits.{show, show_money}

-- `OrderItem`
pub record Item : Type 0 where
  pub uuid : Text
  pub sync_version : ℕ
  pub quantity : ℕ
  pub price : ℕ
  pub is_deleted : Bool

-- The columns of `base.Order` that printing reads. Its items stand in the order of their uuids.
pub record Order : Type 0 where
  pub pk : ℕ
  pub is_telegram : Bool
  pub is_deleted : Bool
  pub is_canceled : Bool
  pub created_at : ℕ
  pub subtotal : ℕ
  pub items : List Item

-- `ReceiptPrintJob.State`
pub data State : Type 0 where
  pending claimed printed : State

-- `ReceiptPrintJob`. Its `order` is a OneToOneField, so the order names the row.
pub record Job : Type 0 where
  pub order_id : ℕ
  pub state : State
  pub claim_token : Option ℕ
  pub claimed_session_hash : Text
  pub claimed_at : Option ℕ
  pub lease_expires_at : Option ℕ
  pub attempt_count : ℕ
  pub materialization_fingerprint : Text
  pub eligible_at : Option ℕ
  pub last_error : Text
  pub printed_at : Option ℕ

pub record Store : Type 0 where
  pub orders : List Order
  pub jobs : List Job
  -- `ReceiptPrintPolicy.activated_at`, once its row is there.
  pub activated_at : Option ℕ

abbrev pub second : ℕ
second = 1_000_000

-- `_lease_duration`: `none` is a setting that is no number.
unfoldable pub lease_duration : Option ℤ → ℕ
lease_duration none = max 30 (min 180 3600) * second
lease_duration (some s) = max 30 (min (pos_part s) 3600) * second

-- `_materialization_settle_duration`, of a setting in microseconds.
unfoldable pub settle_duration : Option ℤ → ℕ
settle_duration none = 2 * second
settle_duration (some s) = min (pos_part s) (60 * second)

-- The live items, in the order of the query.
abbrev pub live_items : Order → List Item
live_items o = keep (λ i. not i.is_deleted) o.items

unfoldable pub gross : List Item → ℕ
gross [] = 0
gross (i ∷ items) = i.price * i.quantity + gross items

-- `':'.join(...)` of one line.
unfoldable pub line_evidence : Item → Text
line_evidence i =
    i.uuid
    ++ (b':' ∷ show i.sync_version)
    ++ (b':' ∷ show i.quantity)
    ++ (b':' ∷ show_money i.price)

-- `'|'.join(evidence)`, behind its first part.
unfoldable pub join_lines : List Item → Text
unfolding line_evidence
join_lines [] = []
join_lines (i ∷ items) = b'|' ∷ line_evidence i ++ join_lines items

unfoldable pub evidence : Order → Text
unfolding join_lines
evidence o = codes "subtotal=" ++ show_money o.subtotal ++ join_lines (live_items o)

abbrev pub no_items : List Item → Bool
no_items [] = true
no_items (i ∷ items) = false

-- `_materialization_fingerprint`: blank while the lines do not add up to the subtotal.
unfoldable pub fingerprint : (Text → Text) → Order → Text
fingerprint sha256 o =
    if no_items (live_items o)
    then []
    else if gross (live_items o) == o.subtotal
    then sha256 (evidence o)
    else []

abbrev pub is_pending : State → Bool
is_pending pending = true
is_pending _ = false

abbrev pub is_claimed : State → Bool
is_claimed claimed = true
is_claimed _ = false

abbrev pub is_printed : State → Bool
is_printed printed = true
is_printed _ = false

-- `lease_expires_at__lte=now` or null.
abbrev pub lease_over : Option ℕ → ℕ → Bool
lease_over none now = true
lease_over (some t) now = leb t now

-- Pending, or claimed with a lease that has run out.
unfoldable pub is_open : ℕ → Job → Bool
is_open now j = elim (j.state) [
  | pending ↦ true
  | claimed ↦ lease_over j.lease_expires_at now
  | printed ↦ false
]

-- A Telegram order that is neither deleted nor cancelled.
abbrev pub is_printable : Order → Bool
is_printable o = o.is_telegram && not o.is_deleted && not o.is_canceled

abbrev pub for_order : ℕ → Job → Bool
for_order o j = j.order_id == o

abbrev pub order_by_pk : ℕ → List Order → Option Order
order_by_pk pk = find (λ o. o.pk == pk)

-- The joins of a job with its order.
unfoldable pub order_is : (Order → Bool) → List Order → Job → Bool
order_is test orders j = elim (order_by_pk j.order_id orders) [ none ↦ false | some o ↦ test o ]

-- `order__created_at`
unfoldable pub ordered_at : List Order → Job → ℕ
ordered_at orders j = elim (order_by_pk j.order_id orders) [ none ↦ 0 | some o ↦ o.created_at ]

-- `order_by('order__created_at', 'order_id')`
unfoldable pub before_by_order : List Order → Job → Job → Bool
before_by_order orders a b =
    let s = ordered_at orders a in
    let t = ordered_at orders b in ltb s t || (s == t && ltb a.order_id b.order_id)

-- `save()` of a job that is there: it is the row of its order.
unfoldable pub save_job : Job → List Job → List Job
save_job j [] = []
save_job j (r ∷ jobs) = if r.order_id == j.order_id then j ∷ jobs else r ∷ save_job j jobs
