-- ===== src/Customers/Printing/Rows.antt =====
-- Which rows a query of the queue picks, and how the first two steps of a claim leave the table.
use alpha_pos_local.Base.{
  ℕ, Bool, true, false, not, ◌&&◌, ◌≡◌, ap, subst, ◌∙◌, inl, inr, some, List, arith, ◌==◌, find,
  keep, All, All-map, Bool-cases, Option-cases,
}
use alpha_pos_local.Base.Text.{Text}
use alpha_pos_local.Base.Sorting.{
  head, sort_by, All-keep, All-keep_test, All-sort_by, All-head, All-take, All-both,
}
use alpha_pos_local.Customers.Printing.Jobs.{
  Job, Store, is_open, is_printable, for_order, order_is, before_by_order,
}
use alpha_pos_local.Customers.Printing.Queue.{
  Host, Clock, materialize, refresh, is_own_claim, claimed_before, is_available, leased, lease_next,
  claim_from, claim_next,
}
use alpha_pos_local.Customers.Printing.Unique.{
  OtherOrder, IsUnique, found-All, save_job-IsUnique, create_jobs-IsUnique, find-create_jobs,
  refresh_all-IsUnique, find-refresh_all,
}

-- A row that a test singles out is not the row of an order whose row fails the test.
pub chosen_elsewhere :
    (test : Job → Bool) (o : ℕ) (x : Job) (jobs : List Job)
    → IsUnique jobs
    → find (for_order o) jobs ≡ some x
    → test x ≡ false
    → All (OtherOrder o) (keep test jobs)
chosen_elsewhere test o x jobs u f fails =
    All-map (λ j. (find (for_order j.order_id) jobs ≡ some j) × (test j ≡ true)) (OtherOrder o)
      (keep test jobs) apart
      (All-both _ _ (keep test jobs) (All-keep _ test jobs (found-All jobs u))
        (All-keep_test _ test jobs (λ j t. t)))
  where
    apart :
        (j : Job) → (find (for_order j.order_id) jobs ≡ some j) × (test j ≡ true) → OtherOrder o j
    apart j (g, t) = elim (Bool-cases (j.order_id == o)) [
      | inl same ↦
          let at : j.order_id ≡ o = ground arith in
          let g' : find (for_order o) jobs ≡ some j =
            subst (λ n. find (for_order n) jobs ≡ some j) at g in
          let j_is_x : j ≡ x = ground arith in absurd (ground (arith, ap test j_is_x))
      | inr other ↦ other
    ]

-- The first row of a query is a row of the table, and passes the query's test.
pub picked :
    (test : Job → Bool) (before : Job → Job → Bool) (jobs : List Job) (j : Job)
    → IsUnique jobs
    → head (sort_by before (keep test jobs)) ≡ some j
    → (find (for_order j.order_id) jobs ≡ some j) × (test j ≡ true)
picked test before jobs j u e =
    All-head (λ k. (find (for_order k.order_id) jobs ≡ some k) × (test k ≡ true)) _ j
      (All-sort_by _ before _ (
        All-both _ _ (keep test jobs) (All-keep _ test jobs (found-All jobs u))
          (All-keep_test _ test jobs (λ k t. t))))
      e

pub materialize-IsUnique :
    (host : Host) (clock : Clock) (s : Store)
    → IsUnique s.jobs
    → IsUnique (materialize host clock s).jobs
unfolding materialize
materialize-IsUnique host clock s u = create_jobs-IsUnique host clock.materialize _ s.jobs u

pub find-materialize :
    (host : Host) (clock : Clock) (s : Store) (o : ℕ) (x : Job)
    → find (for_order o) s.jobs ≡ some x
    → find (for_order o) (materialize host clock s).jobs ≡ some x
unfolding materialize
find-materialize host clock s o x f = find-create_jobs host clock.materialize _ s.jobs o x f

pub refresh-IsUnique :
    (host : Host) (now : ℕ) (s : Store) → IsUnique s.jobs → IsUnique (refresh host now s).jobs
unfolding refresh
refresh-IsUnique host now s u = refresh_all-IsUnique host now s.orders _ s.jobs u

-- A job that is neither pending nor past its lease is not refreshed.
pub find-refresh :
    (host : Host) (now : ℕ) (s : Store) (o : ℕ) (x : Job)
    → IsUnique s.jobs
    → find (for_order o) s.jobs ≡ some x
    → is_open now x ≡ false
    → find (for_order o) (refresh host now s).jobs ≡ some x
unfolding refresh
find-refresh host now s o x u f shut =
    find-refresh_all host now s.orders o _ s.jobs (
      All-take _ 250 _ (
        All-sort_by _ (before_by_order s.orders) _ (
          chosen_elsewhere (λ j. is_open now j && order_is is_printable s.orders j) o x s.jobs u f
            (rw shut))))
    ∙ f

lease_next-IsUnique :
    (host : Host) (token : ℕ) (owner : Text) (now : ℕ) (locked : Job → Bool) (s : Store)
    → IsUnique s.jobs
    → IsUnique (lease_next host token owner now locked s).1.jobs
unfolding lease_next
lease_next-IsUnique host token owner now locked s u =
    elim (Option-cases (
      head (
        sort_by (before_by_order s.orders)
          (keep (λ j. is_available now s.orders j && not (locked j)) s.jobs)))) [
            | inl nothing ↦ rw (nothing, lease_next) u
            | inr (j, e) ↦
                rw (e, lease_next) (save_job-IsUnique (leased host token owner now j) s.jobs u)
          ]

claim_from-IsUnique :
    (host : Host) (token : ℕ) (owner : Text) (now : ℕ) (locked : Job → Bool) (s : Store)
    → IsUnique s.jobs
    → IsUnique (claim_from host token owner now locked s).1.jobs
unfolding claim_from
claim_from-IsUnique host token owner now locked s u =
    elim (Option-cases
      (head (sort_by claimed_before (keep (is_own_claim owner now s.orders) s.jobs)))) [
        | inl nothing ↦
            rw (nothing, claim_from) (lease_next-IsUnique host token owner now locked s u)
        | inr (j, e) ↦ rw (e, claim_from) u
      ]

pub claim_next-IsUnique :
    (host : Host) (clock : Clock) (token : ℕ) (session_key : Text) (locked : Job → Bool) (s : Store)
    → IsUnique s.jobs
    → IsUnique (claim_next host clock token session_key locked s).1.jobs
unfolding claim_next
claim_next-IsUnique host clock token session_key locked s u =
    claim_from-IsUnique host token (host.sha256 session_key) clock.claim locked _
      (refresh-IsUnique host clock.start _ (materialize-IsUnique host clock s u))
