-- ===== src/Customers/Printing/Passes.antt =====
-- Which jobs a claim leaves alone.
use alpha_pos_local.Base.{
  ℕ, Bool, false, not, ◌&&◌, ◌≡◌, ◌≢◌, ◌⊎◌, refl, ◌∙◌, inl, inr, Option, none, some, List, arith,
  find, keep, Option-cases,
}
use alpha_pos_local.Base.Text.{Text, text_eq→≡}
use alpha_pos_local.Base.Sorting.{head, sort_by, All-sort_by, All-head}
use alpha_pos_local.Customers.Printing.Jobs.{
  Order, printed, Job, Store, is_open, for_order, before_by_order,
}
use alpha_pos_local.Customers.Printing.Queue.{
  Host, Clock, is_own_claim, claimed_before, is_available, leased, lease_next, claim_from,
  claim_next,
}
use alpha_pos_local.Customers.Printing.Unique.{OtherOrder, IsUnique, find-save_other}
use alpha_pos_local.Customers.Printing.Rows.{
  chosen_elsewhere, materialize-IsUnique, find-materialize, refresh-IsUnique, find-refresh,
}

-- What a claim does to a row that it is not given: the row stays, and another order's is returned.
abbrev pub PassesOver : ℕ → Job → Option Job × Store → Type 0
PassesOver o x (none, s') = find (for_order o) s'.jobs ≡ some x
PassesOver o x (some j, s') = (find (for_order o) s'.jobs ≡ some x) × (j.order_id ≢ o)

leased_order :
    (host : Host) (token : ℕ) (owner : Text) (now : ℕ) (j : Job)
    → (leased host token owner now j).order_id ≡ j.order_id
unfolding leased
leased_order host token owner now j = refl

lease_next-passes :
    (host : Host) (token : ℕ) (owner : Text) (now : ℕ) (locked : Job → Bool) (s : Store) (o : ℕ)
    (x : Job)
    → IsUnique s.jobs
    → find (for_order o) s.jobs ≡ some x
    → is_open now x ≡ false
    → PassesOver o x (lease_next host token owner now locked s)
unfolding lease_next
lease_next-passes host token owner now locked s o x u f shut =
    elim (Option-cases (
      head (
        sort_by (before_by_order s.orders)
          (keep (λ j. is_available now s.orders j && not (locked j)) s.jobs)))) [
            | inl nothing ↦ rw (nothing, lease_next) f
            | inr (j, e) ↦
                let apart : OtherOrder o j =
                  All-head (OtherOrder o) _ j
                    (All-sort_by _ (before_by_order s.orders) _ (
                      chosen_elsewhere (λ k. is_available now s.orders k && not (locked k)) o x
                        s.jobs u f (unfold is_available in rw shut)))
                    e in
                let j' : Job = leased host token owner now j in
                rw (e, lease_next)
                  (
                    find-save_other o j' s.jobs (rw (leased_order host token owner now j) apart)
                        ∙ f,
                    rw (leased_order host token owner now j) (ground arith),
                  )
          ]

claim_from-passes :
    (host : Host) (token : ℕ) (owner : Text) (now : ℕ) (locked : Job → Bool) (s : Store) (o : ℕ)
    (x : Job)
    → IsUnique s.jobs
    → find (for_order o) s.jobs ≡ some x
    → is_open now x ≡ false
    → is_own_claim owner now s.orders x ≡ false
    → PassesOver o x (claim_from host token owner now locked s)
unfolding claim_from
claim_from-passes host token owner now locked s o x u f shut foreign =
    elim (Option-cases
      (head (sort_by claimed_before (keep (is_own_claim owner now s.orders) s.jobs)))) [
        | inl nothing ↦
            rw (nothing, claim_from) (lease_next-passes host token owner now locked s o x u f shut)
        | inr (j, e) ↦
            let apart : OtherOrder o j =
              All-head (OtherOrder o) _ j
                (All-sort_by _ claimed_before _
                  (chosen_elsewhere (is_own_claim owner now s.orders) o x s.jobs u f foreign))
                e in
            rw (e, claim_from) (f, ground arith)
      ]

not_own :
    (owner : Text) (now : ℕ) (x : Job) (orders : List Order)
    → ((x.state ≡ printed) ⊎ (x.claimed_session_hash ≢ owner))
    → is_own_claim owner now orders x ≡ false
unfolding is_own_claim
not_own owner now x orders (inl p) = ground arith
not_own owner now x orders (inr ne) = ground (arith, text_eq→≡ x.claimed_session_hash owner)

-- While another session's lease on a job runs, from the first to the last reading of the clock, a
-- claim is not given that job and does not change it. The same holds of a printed job.
pub claim_next-passes :
    (host : Host) (clock : Clock) (token : ℕ) (session_key : Text) (locked : Job → Bool) (s : Store)
    (o : ℕ) (x : Job)
    → IsUnique s.jobs
    → find (for_order o) s.jobs ≡ some x
    → is_open clock.start x ≡ false
    → is_open clock.claim x ≡ false
    → ((x.state ≡ printed) ⊎ (x.claimed_session_hash ≢ host.sha256 session_key))
    → PassesOver o x (claim_next host clock token session_key locked s)
unfolding claim_next
claim_next-passes host clock token session_key locked s o x u f shut shut' foreign =
    claim_from-passes host token (host.sha256 session_key) clock.claim locked _ o x
      (refresh-IsUnique host clock.start _ (materialize-IsUnique host clock s u))
      (find-refresh host clock.start _ o x (materialize-IsUnique host clock s u)
        (find-materialize host clock s o x f) shut)
      shut' (not_own (host.sha256 session_key) clock.claim x _ foreign)
