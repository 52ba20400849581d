-- ===== src/Customers/Printing/Unique.antt =====
-- One job for each order, and what each write of the queue does to the job of an order.
use alpha_pos_local.Base.{
  ℕ, true, false, not, ◌&&◌, ◌≡◌, refl, subst, ◌∙◌, inl, inr, some, List, [], ◌∷◌, ◌++◌, arith,
  ◌==◌, find, any, All, All-map, Bool-cases, Option-cases,
}
use alpha_pos_local.Base.Text.{is_blank}
use alpha_pos_local.Base.Sorting.{All-append, All-both, find-append}
use alpha_pos_local.Customers.Printing.Jobs.{
  Order, Job, fingerprint, for_order, order_by_pk, save_job,
}
use alpha_pos_local.Customers.Printing.Queue.{Host, new_job, create_jobs, refresh_job, refresh_all}

abbrev pub OtherOrder : ℕ → Job → Type 0
OtherOrder o j = (j.order_id == o) ≡ false

abbrev pub IsUnique : List Job → Type 0
IsUnique [] = Unit
IsUnique (j ∷ jobs) = All (OtherOrder j.order_id) jobs × IsUnique jobs

-- Under uniqueness a row is what its order finds.
pub found-All :
    (jobs : List Job) → IsUnique jobs → All (λ j. find (for_order j.order_id) jobs ≡ some j) jobs
found-All [] u = tt
found-All (j ∷ jobs) u = (
  ground arith,
  All-map (λ x. (x.order_id == j.order_id) ≡ false × (find (for_order x.order_id) jobs ≡ some x))
      (λ x. find (for_order x.order_id) (j ∷ jobs) ≡ some x) jobs (λ x p. ground arith)
      (All-both _ _ jobs u.0 (found-All jobs u.1)),
)

All-other-save :
    (o : ℕ) (j : Job) (jobs : List Job)
    → All (OtherOrder o) jobs
    → All (OtherOrder o) (save_job j jobs)
unfolding save_job
All-other-save o j [] h = tt
All-other-save o j (r ∷ jobs) h = elim (Bool-cases (r.order_id == j.order_id)) [
  | inl hit ↦ rw hit (ground arith, h.1)
  | inr miss ↦ rw miss (h.0, All-other-save o j jobs h.1)
]

pub save_job-IsUnique : (j : Job) (jobs : List Job) → IsUnique jobs → IsUnique (save_job j jobs)
unfolding save_job
save_job-IsUnique j [] u = tt
save_job-IsUnique j (r ∷ jobs) u = elim (Bool-cases (r.order_id == j.order_id)) [
  | inl hit ↦ rw hit (subst (λ n. All (OtherOrder n) jobs) (same hit) u.0, u.1)
  | inr miss ↦ rw miss (All-other-save r.order_id j jobs u.0, save_job-IsUnique j jobs u.1)
]
  where
    same : (r.order_id == j.order_id) ≡ true → r.order_id ≡ j.order_id
    same hit = ground arith

append-IsUnique :
    (j : Job) (jobs : List Job)
    → IsUnique jobs
    → any (for_order j.order_id) jobs ≡ false
    → IsUnique (jobs ++ j ∷ [])
append-IsUnique j [] u n = (tt, tt)
append-IsUnique j (r ∷ jobs) u n = (
  All-append (OtherOrder r.order_id) jobs (j ∷ []) u.0 (ground arith, tt),
  append-IsUnique j jobs u.1 (ground arith),
)

-- A save is seen by its own order only.
pub find-save_other :
    (o : ℕ) (j : Job) (jobs : List Job)
    → (j.order_id == o) ≡ false
    → find (for_order o) (save_job j jobs) ≡ find (for_order o) jobs
unfolding save_job
find-save_other o j [] ne = refl
find-save_other o j (r ∷ jobs) ne = elim (Bool-cases (r.order_id == j.order_id)) [
  | inl hit ↦ rw hit (ground arith)
  | inr miss ↦ rw miss (ground (arith, find-save_other o j jobs ne))
]

pub find-save_own :
    (o : ℕ) (j x : Job) (jobs : List Job)
    → j.order_id ≡ o
    → find (for_order o) jobs ≡ some x
    → find (for_order o) (save_job j jobs) ≡ some j
unfolding save_job
find-save_own o j x [] e f = absurd (ground arith)
find-save_own o j x (r ∷ jobs) e f = elim (Bool-cases (r.order_id == j.order_id)) [
  | inl hit ↦ rw hit (ground arith)
  | inr miss ↦
      let f' : find (for_order o) jobs ≡ some x = ground arith in
      rw miss (ground (arith, find-save_own o j x jobs e f'))
]

pub create_jobs-IsUnique :
    (host : Host) (now : ℕ) (orders : List Order) (jobs : List Job)
    → IsUnique jobs
    → IsUnique (create_jobs host now orders jobs)
unfolding create_jobs
create_jobs-IsUnique host now [] jobs u = u
create_jobs-IsUnique host now (o ∷ orders) jobs u =
    elim (Bool-cases
      (not (is_blank (fingerprint host.sha256 o)) && not (any (for_order o.pk) jobs))) [
        | inl new ↦ rw new (
            create_jobs-IsUnique host now orders (jobs ++ new_job host now o ∷ [])
              (append-IsUnique (new_job host now o) jobs u (unfold new_job in ground arith)))
        | inr old ↦ rw old (create_jobs-IsUnique host now orders jobs u)
      ]

pub find-create_jobs :
    (host : Host) (now : ℕ) (orders : List Order) (jobs : List Job) (o : ℕ) (x : Job)
    → find (for_order o) jobs ≡ some x
    → find (for_order o) (create_jobs host now orders jobs) ≡ some x
unfolding create_jobs
find-create_jobs host now [] jobs o x f = f
find-create_jobs host now (q ∷ orders) jobs o x f =
    elim (Bool-cases
      (not (is_blank (fingerprint host.sha256 q)) && not (any (for_order q.pk) jobs))) [
        | inl new ↦ rw new (
            find-create_jobs host now orders (jobs ++ new_job host now q ∷ []) o x
              (find-append (for_order o) jobs (new_job host now q ∷ []) x f))
        | inr old ↦ rw old (find-create_jobs host now orders jobs o x f)
      ]

refresh_job_order :
    (host : Host) (now : ℕ) (o : Order) (j : Job) → (refresh_job host now o j).order_id ≡ j.order_id
unfolding refresh_job
refresh_job_order host now o j = ground arith

pub refresh_all-IsUnique :
    (host : Host) (now : ℕ) (orders : List Order) (chosen jobs : List Job)
    → IsUnique jobs
    → IsUnique (refresh_all host now orders chosen jobs)
unfolding refresh_all
refresh_all-IsUnique host now orders [] jobs u = u
refresh_all-IsUnique host now orders (j ∷ chosen) jobs u =
    elim (Option-cases (order_by_pk j.order_id orders)) [
      | inl gone ↦ rw gone (refresh_all-IsUnique host now orders chosen jobs u)
      | inr (o, there) ↦ rw there (
          refresh_all-IsUnique host now orders chosen (save_job (refresh_job host now o j) jobs)
            (save_job-IsUnique (refresh_job host now o j) jobs u))
    ]

-- A job that is not among the chosen stays as it is.
pub find-refresh_all :
    (host : Host) (now : ℕ) (orders : List Order) (o : ℕ) (chosen jobs : List Job)
    → All (OtherOrder o) chosen
    → find (for_order o) (refresh_all host now orders chosen jobs) ≡ find (for_order o) jobs
unfolding refresh_all
find-refresh_all host now orders o [] jobs h = refl
find-refresh_all host now orders o (j ∷ chosen) jobs h =
    elim (Option-cases (order_by_pk j.order_id orders)) [
      | inl gone ↦ rw gone (find-refresh_all host now orders o chosen jobs h.1)
      | inr (q, there) ↦ rw there (
          find-refresh_all host now orders o chosen (save_job (refresh_job host now q j) jobs) h.1
          ∙ find-save_other o (refresh_job host now q j) jobs
              (rw (refresh_job_order host now q j) h.0))
    ]
