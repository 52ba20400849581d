-- ===== src/Customers/Printing/Granted.antt =====
-- What a session holds when a claim gives it a job.
use alpha_pos_local.Base.{
  ℕ, ◌<◌, Bool, true, not, ◌&&◌, ◌≡◌, refl, inl, inr, Option, none, some, arith, find, keep,
  Option-cases,
}
use alpha_pos_local.Base.Int.{ℤ}
use alpha_pos_local.Base.Text.{Text, text_eq→≡}
use alpha_pos_local.Base.Sorting.{head, sort_by}
use alpha_pos_local.Customers.Printing.Jobs.{
  claimed, Job, Store, lease_duration, is_printable, for_order, order_is, before_by_order, save_job,
}
use alpha_pos_local.Customers.Printing.Queue.{
  Host, Clock, lease_runs, is_own_claim, claimed_before, is_available, leased, lease_next,
  claim_from, claim_next,
}
use alpha_pos_local.Customers.Printing.Unique.{IsUnique, find-save_own}
use alpha_pos_local.Customers.Printing.Rows.{picked, materialize-IsUnique, refresh-IsUnique}

lease_duration_pos : (setting : Option ℤ) → 0 < lease_duration setting
unfolding lease_duration
lease_duration_pos none = omega arith
lease_duration_pos (some z) = omega arith

-- What the session has when a claim returns a job.
pub record Holds (owner : Text) (now : ℕ) (j : Job) (s : Store) : Type 0 where
  pub is_the_row : find (for_order j.order_id) s.jobs ≡ some j
  pub in_claim : j.state ≡ claimed
  pub theirs : j.claimed_session_hash ≡ owner
  pub lease : lease_runs j.lease_expires_at now ≡ true
  pub order_printable : order_is is_printable s.orders j ≡ true

abbrev pub Granted : Text → ℕ → Option Job × Store → Type 0
Granted owner now (none, s) = Unit
Granted owner now (some j, s) = Holds owner now j s

own_claim-Holds :
    (owner : Text) (now : ℕ) (j : Job) (s : Store)
    → find (for_order j.order_id) s.jobs ≡ some j
    → is_own_claim owner now s.orders j ≡ true
    → Holds owner now j s
unfolding is_own_claim
own_claim-Holds owner now j s f e = record {
  is_the_row = f;
  in_claim = ground arith;
  theirs = text_eq→≡ j.claimed_session_hash owner (ground arith);
  lease = ground arith;
  order_printable = ground arith;
}

lease-Holds :
    (host : Host) (token : ℕ) (owner : Text) (now : ℕ) (j : Job) (s : Store)
    → find (for_order j.order_id) s.jobs ≡ some j
    → is_available now s.orders j ≡ true
    → Holds owner now
        (leased host token owner now j)
        (record s { jobs = save_job (leased host token owner now j) s.jobs })
unfolding is_available leased order_is
lease-Holds host token owner now j s f e = record {
  is_the_row = find-save_own j.order_id (leased host token owner now j) j s.jobs refl f;
  in_claim = refl;
  theirs = refl;
  lease = ground (arith, lease_duration_pos host.lease_seconds);
  order_printable = ground arith;
}

lease_next-Granted :
    (host : Host) (token : ℕ) (owner : Text) (now : ℕ) (locked : Job → Bool) (s : Store)
    → IsUnique s.jobs
    → Granted owner now (lease_next host token owner now locked s)
unfolding lease_next
lease_next-Granted host token owner now locked s u =
    elim (Option-cases (
      head (
        sort_by (before_by_order s.orders)
          (keep (λ j. is_available now s.orders j && not (locked j)) s.jobs)))) [
            | inl nothing ↦ rw (nothing, lease_next) tt
            | inr (j, e) ↦
                let (f, t) =
                  picked (λ k. is_available now s.orders k && not (locked k))
                    (before_by_order s.orders) s.jobs j u e in
                rw (e, lease_next) (lease-Holds host token owner now j s f (ground arith))
          ]

claim_from-Granted :
    (host : Host) (token : ℕ) (owner : Text) (now : ℕ) (locked : Job → Bool) (s : Store)
    → IsUnique s.jobs
    → Granted owner now (claim_from host token owner now locked s)
unfolding claim_from
claim_from-Granted host token owner now locked s u =
    elim (Option-cases
      (head (sort_by claimed_before (keep (is_own_claim owner now s.orders) s.jobs)))) [
        | inl nothing ↦
            rw (nothing, claim_from) (lease_next-Granted host token owner now locked s u)
        | inr (j, e) ↦
            let (f, t) = picked (is_own_claim owner now s.orders) claimed_before s.jobs j u e in
            rw (e, claim_from) (own_claim-Holds owner now j s f t)
      ]

-- A job that a claim returns is the row of its order, is CLAIMED by the session that asks, with a
-- lease that runs at the last reading of the clock, and its order is a Telegram order that is neither
-- deleted nor cancelled.
pub claim_next-Granted :
    (host : Host) (clock : Clock) (token : ℕ) (session_key : Text) (locked : Job → Bool) (s : Store)
    → IsUnique s.jobs
    → Granted
        (host.sha256 session_key)
        clock.claim
        (claim_next host clock token session_key locked s)
unfolding claim_next
claim_next-Granted host clock token session_key locked s u =
    claim_from-Granted host token (host.sha256 session_key) clock.claim locked _
      (refresh-IsUnique host clock.start _ (materialize-IsUnique host clock s u))
