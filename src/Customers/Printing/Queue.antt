-- ===== src/Customers/Printing/Queue.antt =====
-- `claim_next`, `acknowledge` and `release_failed` of customers/services/print_service.py.
-- A call that raises writes nothing.
use alpha_pos_local.Base.{
  ℕ, suc, ◌+◌, Bool, true, false, not, ◌&&◌, ◌||◌, Option, none, some, List, [], ◌∷◌, ◌++◌, Outcome,
  ok, ◌>>=◌, ◌>>◌, or_raise, raise_if, ◌==◌, ltb, leb, opt_eq, find, keep, any, take, if◌then◌else◌,
}
use alpha_pos_local.Base.Int.{ℤ}
use alpha_pos_local.Base.Text.{Text, codes, text_eq, is_blank, strip}
use alpha_pos_local.Base.Sorting.{head, sort_by}
use alpha_pos_local.Customers.Printing.Jobs.{
  Order, pending, claimed, printed, Job, Store, lease_duration, settle_duration, live_items,
  no_items, fingerprint, is_claimed, is_printed, is_open, is_printable, for_order, order_by_pk,
  order_is, before_by_order, save_job,
}

-- The process: its settings, and `hashlib.sha256(...).hexdigest()`.
pub record Host : Type 0 where
  pub sha256 : Text → Text
  pub lease_seconds : Option ℤ
  pub settle_microseconds : Option ℤ

-- The readings of the clock in one `claim_next`, in their order.
pub record Clock : Type 0 where
  pub start : ℕ
  pub policy : ℕ
  pub materialize : ℕ
  pub claim : ℕ

pub data PrintError : Type 0 where
  claim_not_found claim_conflict : PrintError

-- `items__is_deleted=False` joins: some item is live.
abbrev pub is_new : ℕ → List Job → Order → Bool
is_new activated jobs o =
    is_printable o
    && not (no_items (live_items o))
    && leb activated o.created_at
    && not (any (for_order o.pk) jobs)

abbrev pub order_before : Order → Order → Bool
order_before a b = ltb a.created_at b.created_at || (a.created_at == b.created_at && ltb a.pk b.pk)

unfoldable pub new_job : Host → ℕ → Order → Job
new_job host now o = record {
  order_id = o.pk;
  state = pending;
  claim_token = none;
  claimed_session_hash = [];
  claimed_at = none;
  lease_expires_at = none;
  attempt_count = 0;
  materialization_fingerprint = fingerprint host.sha256 o;
  eligible_at = some (now + settle_duration host.settle_microseconds);
  last_error = [];
  printed_at = none;
}

-- `bulk_create(jobs, ignore_conflicts=True)`: an order that has a job by now is passed over.
unfoldable pub create_jobs : Host → ℕ → List Order → List Job → List Job
create_jobs host now [] jobs = jobs
create_jobs host now (o ∷ orders) jobs = create_jobs host now orders (
    if not (is_blank (fingerprint host.sha256 o)) && not (any (for_order o.pk) jobs)
    then jobs ++ new_job host now o ∷ []
    else jobs)

abbrev pub activation : Option ℕ → ℕ → ℕ
activation none now = now
activation (some t) now = t

-- `_materialize_new_jobs`
unfoldable pub materialize : Host → Clock → Store → Store
materialize host clock s =
    let activated = activation s.activated_at clock.policy in
    let orders = take 250 (sort_by order_before (keep (is_new activated s.jobs) s.orders)) in
    record s {
      jobs = create_jobs host clock.materialize orders s.jobs;
      activated_at = some activated;
    }

-- One job of `_refresh_pending_materialization`.
unfoldable pub refresh_job : Host → ℕ → Order → Job → Job
refresh_job host now o j =
    let print = fingerprint host.sha256 o in
    if text_eq print j.materialization_fingerprint then j else record j {
      materialization_fingerprint = print;
      eligible_at =
          if is_blank print then none else some (now + settle_duration host.settle_microseconds);
    }

unfoldable pub refresh_all : Host → ℕ → List Order → List Job → List Job → List Job
refresh_all host now orders [] jobs = jobs
refresh_all host now orders (j ∷ chosen) jobs =
    refresh_all host now orders chosen (elim (order_by_pk j.order_id orders) [
      | none ↦ jobs
      | some o ↦ save_job (refresh_job host now o j) jobs
    ])

-- `_refresh_pending_materialization`
unfoldable pub refresh : Host → ℕ → Store → Store
refresh host now s =
    let open_jobs = keep (λ j. is_open now j && order_is is_printable s.orders j) s.jobs in
    record s {
      jobs =
          refresh_all host now s.orders (take 250 (sort_by (before_by_order s.orders) open_jobs))
            s.jobs;
    }

abbrev pub lease_runs : Option ℕ → ℕ → Bool
lease_runs none now = false
lease_runs (some t) now = ltb now t

-- A claim that the session holds at the time.
unfoldable pub is_own_claim : Text → ℕ → List Order → Job → Bool
is_own_claim owner now orders j =
    is_claimed j.state
    && text_eq j.claimed_session_hash owner
    && lease_runs j.lease_expires_at now
    && order_is is_printable orders j

-- `order_by('claimed_at', 'pk')`: rows of one time stay in the order of the table, and a null is last.
abbrev pub claimed_before : Job → Job → Bool
claimed_before a b = elim (b.claimed_at) [
  | none ↦ true
  | some t ↦ elim (a.claimed_at) [ none ↦ false | some s ↦ leb s t ]
]

abbrev pub is_eligible : Option ℕ → ℕ → Bool
is_eligible none now = false
is_eligible (some t) now = leb t now

-- A job that may be leased now.
unfoldable pub is_available : ℕ → List Order → Job → Bool
is_available now orders j =
    is_open now j
    && order_is is_printable orders j
    && is_eligible j.eligible_at now
    && not (is_blank j.materialization_fingerprint)

unfoldable pub leased : Host → (token : ℕ) (owner : Text) (now : ℕ) → Job → Job
leased host token owner now j = record j {
  state = claimed;
  claim_token = some token;
  claimed_session_hash = owner;
  claimed_at = some now;
  lease_expires_at = some (now + lease_duration host.lease_seconds);
  attempt_count = suc j.attempt_count;
}

-- Jobs whose rows other transactions have locked are skipped.
unfoldable pub lease_next :
    Host → (token : ℕ) (owner : Text) (now : ℕ) → (Job → Bool) → Store → Option Job × Store
lease_next host token owner now locked s =
    elim (head (
      sort_by (before_by_order s.orders)
        (keep (λ j. is_available now s.orders j && not (locked j)) s.jobs))) [
          | none ↦ (none, s)
          | some j ↦ (
            some (leased host token owner now j),
            record s { jobs = save_job (leased host token owner now j) s.jobs },
          )
        ]

unfoldable pub claim_from :
    Host → (token : ℕ) (owner : Text) (now : ℕ) → (Job → Bool) → Store → Option Job × Store
claim_from host token owner now locked s =
    elim (head (sort_by claimed_before (keep (is_own_claim owner now s.orders) s.jobs))) [
      | some j ↦ (some j, s)
      | none ↦ lease_next host token owner now locked s
    ]

-- `claim_next`, with the fresh token of `uuid.uuid4()`.
unfoldable pub claim_next :
    Host
    → Clock
    → (token : ℕ) → (session_key : Text) → (locked : Job → Bool) → Store
    → Option Job × Store
claim_next host clock token session_key locked s =
    claim_from host token (host.sha256 session_key) clock.claim locked
      (refresh host clock.start (materialize host clock s))

abbrev pub has_token : ℕ → Job → Bool
has_token token j = opt_eq j.claim_token (some token)

unfoldable pub printed_job : ℕ → Job → Job
printed_job now j = record j {
  state = printed;
  printed_at = some now;
  lease_expires_at = none;
  last_error = [];
}

-- Says whether the receipt had been acknowledged before.
unfoldable pub acknowledge :
    Host
    → (token : ℕ) → (session_key : Text) → (now : ℕ) → Store
    → Outcome PrintError (Job × Bool × Store)
acknowledge host token session_key now s = do
  j ← or_raise (find (has_token token) s.jobs) claim_not_found
  raise_if (not (text_eq j.claimed_session_hash (host.sha256 session_key))) claim_conflict
  (if is_printed j.state then ok (j, true, s) else (do
    raise_if (not (is_claimed j.state)) claim_conflict
    ok (printed_job now j, false, record s { jobs = save_job (printed_job now j) s.jobs })))

abbrev pub or_reported : Text → Text
or_reported [] = codes "Printer reported failure"
or_reported (c ∷ s) = c ∷ s

unfoldable pub released_job : Text → Job → Job
released_job error j = record j {
  state = pending;
  claim_token = none;
  claimed_session_hash = [];
  claimed_at = none;
  lease_expires_at = none;
  last_error = take 1000 (strip (or_reported error));
}

unfoldable pub release_failed :
    Host → (token : ℕ) → (session_key error : Text) → Store → Outcome PrintError (Job × Store)
release_failed host token session_key error s = do
  j ← or_raise (find (has_token token) s.jobs) claim_not_found
  raise_if
      (not (is_claimed j.state) || not (text_eq j.claimed_session_hash (host.sha256 session_key)))
      claim_conflict
  ok (released_job error j, record s { jobs = save_job (released_job error j) s.jobs })
