-- ===== src/Customers/Printing/Printed.antt =====
-- A printed receipt stays printed, and is acknowledged as often as one likes.
use alpha_pos_local.Base.{
  ℕ, Bool, true, false, ◌≡◌, refl, ap, subst, ◌∙◌, ◌⊎◌, inl, inr, Option, none, some, List, [], ◌∷◌,
  arith, ◌==◌, find, find_sound, All-find, Bool-cases, Outcome, ok, err, bind_ok, or_raise,
  or_raise_ok,
}
use alpha_pos_local.Base.Text.{Text, text_eq}
use alpha_pos_local.Customers.Printing.Jobs.{
  Order, printed, Job, Store, is_claimed, is_printed, is_open, for_order, save_job,
}
use alpha_pos_local.Customers.Printing.Queue.{
  Host, Clock, PrintError, claim_not_found, claim_next, has_token, printed_job, acknowledge,
  released_job, release_failed,
}
use alpha_pos_local.Customers.Printing.Unique.{
  OtherOrder, IsUnique, found-All, save_job-IsUnique, find-save_other,
}
use alpha_pos_local.Customers.Printing.Rows.{claim_next-IsUnique}
use alpha_pos_local.Customers.Printing.Passes.{PassesOver, claim_next-passes}

-- The calls that reach the queue; other parts of the program write orders as they like.
pub data Call : Type 0 where
  claiming : Clock → (token : ℕ) → (session_key : Text) → (locked : Job → Bool) → Call
  acknowledging : (token : ℕ) → (session_key : Text) → (now : ℕ) → Call
  releasing : (token : ℕ) → (session_key error : Text) → Call
  elsewhere : List Order → Call

abbrev pub after_ack : Outcome PrintError (Job × Bool × Store) → Store → Store
after_ack (ok (_, _, s')) s = s'
after_ack (err e) s = s

abbrev pub after_release : Outcome PrintError (Job × Store) → Store → Store
after_release (ok (_, s')) s = s'
after_release (err e) s = s

unfoldable pub run : Host → Call → Store → Store
run host (Call.claiming clock token key locked) s = (claim_next host clock token key locked s).1
run host (Call.acknowledging token key now) s = after_ack (acknowledge host token key now s) s
run host (Call.releasing token key error) s =
    after_release (release_failed host token key error s) s
run host (Call.elsewhere orders) s = record s { orders = orders }

unfoldable pub run_all : Host → List Call → Store → Store
run_all host [] s = s
run_all host (c ∷ calls) s = run_all host calls (run host c s)

-- A printed job of an order, in a table with one job for each order.
pub record Kept (o : ℕ) (x : Job) (s : Store) : Type 0 where
  pub unique : IsUnique s.jobs
  pub there : find (for_order o) s.jobs ≡ some x

passed_over :
    (o : ℕ) (x : Job) (r : Option Job × Store)
    → PassesOver o x r
    → find (for_order o) r.1.jobs ≡ some x
passed_over o x (none, s) p = p
passed_over o x (some j, s) p = p.0

printed_shut : (now : ℕ) (x : Job) → x.state ≡ printed → is_open now x ≡ false
unfolding is_open
printed_shut now x p = ground arith

-- A job in a claim, found by its token, is not the printed job.
saved_elsewhere :
    (o token : ℕ) (x j j' : Job) (jobs : List Job)
    → IsUnique jobs
    → find (for_order o) jobs ≡ some x
    → x.state ≡ printed
    → find (has_token token) jobs ≡ some j
    → is_claimed j.state ≡ true
    → j'.order_id ≡ j.order_id
    → find (for_order o) (save_job j' jobs) ≡ some x
saved_elsewhere o token x j j' jobs u f p t c e = elim (Bool-cases (j'.order_id == o)) [
  | inl same ↦
      let g : find (for_order j.order_id) jobs ≡ some j =
        All-find (λ k. find (for_order k.order_id) jobs ≡ some k) (has_token token) jobs j
          (found-All jobs u) t in
      let at : j.order_id ≡ o = ground arith in
      let g' : find (for_order o) jobs ≡ some j =
        subst (λ n. find (for_order n) jobs ≡ some j) at g in
      let j_is_x : j ≡ x = ground arith in
      absurd (ground (arith, ap (λ (k : Job). is_claimed k.state) j_is_x))
  | inr other ↦ find-save_other o j' jobs other ∙ f
]

ack_Kept :
    (host : Host) (token : ℕ) (key : Text) (now : ℕ) (s : Store) (o : ℕ) (x : Job)
    → x.state ≡ printed
    → Kept o x s
    → (r : Outcome PrintError (Job × Bool × Store)) → acknowledge host token key now s ≡ r
    → Kept o x (after_ack r s)
unfolding acknowledge
ack_Kept host token key now s o x p k (err e) h = k
ack_Kept host token key now s o x p k (ok (j', b, s')) h =
    let (j, t, h1) = bind_ok (or_raise (find (has_token token) s.jobs) claim_not_found) _ h in
    let found : find (has_token token) s.jobs ≡ some j = or_raise_ok _ claim_not_found t in
    elim (Bool-cases (is_printed j.state)) [
      | inl before ↦ let same : s' ≡ s = ground arith in rw same k
      | inr fresh ↦
          let facts : (is_claimed j.state ≡ true)
              × (s' ≡ record s { jobs = save_job (printed_job now j) s.jobs }) =
            ground arith in
          rw (facts.1) (record {
            unique = save_job-IsUnique (printed_job now j) s.jobs k.unique;
            there =
                saved_elsewhere o token x j (printed_job now j) s.jobs k.unique k.there p found
                  facts.0 (unfold printed_job in refl);
          })
    ]

release_Kept :
    (host : Host) (token : ℕ) (key error : Text) (s : Store) (o : ℕ) (x : Job)
    → x.state ≡ printed
    → Kept o x s
    → (r : Outcome PrintError (Job × Store)) → release_failed host token key error s ≡ r
    → Kept o x (after_release r s)
unfolding release_failed
release_Kept host token key error s o x p k (err e) h = k
release_Kept host token key error s o x p k (ok (j', s')) h =
    let (j, t, h1) = bind_ok (or_raise (find (has_token token) s.jobs) claim_not_found) _ h in
    let found : find (has_token token) s.jobs ≡ some j = or_raise_ok _ claim_not_found t in
    let facts : (is_claimed j.state ≡ true)
        × (s' ≡ record s { jobs = save_job (released_job error j) s.jobs }) =
      ground arith in
    rw (facts.1) (record {
      unique = save_job-IsUnique (released_job error j) s.jobs k.unique;
      there =
          saved_elsewhere o token x j (released_job error j) s.jobs k.unique k.there p found facts.0
            (unfold released_job in refl);
    })

run-Kept :
    (host : Host) (c : Call) (s : Store) (o : ℕ) (x : Job)
    → x.state ≡ printed
    → Kept o x s
    → Kept o x (run host c s)
unfolding run
run-Kept host (Call.claiming clock token key locked) s o x p k = record {
  unique = claim_next-IsUnique host clock token key locked s k.unique;
  there = passed_over o x _ (
      claim_next-passes host clock token key locked s o x k.unique k.there
        (printed_shut clock.start x p) (printed_shut clock.claim x p) (inl p));
}
run-Kept host (Call.acknowledging token key now) s o x p k =
    ack_Kept host token key now s o x p k (acknowledge host token key now s) refl
run-Kept host (Call.releasing token key error) s o x p k =
    release_Kept host token key error s o x p k (release_failed host token key error s) refl
run-Kept host (Call.elsewhere orders) s o x p k = record { unique = k.unique; there = k.there }

run_all-Kept :
    (host : Host) (calls : List Call) (s : Store) (o : ℕ) (x : Job)
    → x.state ≡ printed
    → Kept o x s
    → Kept o x (run_all host calls s)
unfolding run_all
run_all-Kept host [] s o x p k = k
run_all-Kept host (c ∷ calls) s o x p k =
    run_all-Kept host calls (run host c s) o x p (run-Kept host c s o x p k)

-- In a table with one job for each order: the job of a receipt that was acknowledged as printed is
-- never written again, whatever calls are made by any sessions in any order.
pub run_all-printed :
    (host : Host) (calls : List Call) (s : Store) (o : ℕ) (x : Job)
    → IsUnique s.jobs
    → find (for_order o) s.jobs ≡ some x
    → x.state ≡ printed
    → find (for_order o) (run_all host calls s).jobs ≡ some x
run_all-printed host calls s o x u f p =
    (run_all-Kept host calls s o x p (record { unique = u; there = f })).there

find-token_save :
    (token : ℕ) (j j' : Job) (jobs : List Job)
    → IsUnique jobs
    → find (has_token token) jobs ≡ some j
    → j'.order_id ≡ j.order_id
    → has_token token j' ≡ true
    → find (has_token token) (save_job j' jobs) ≡ some j'
unfolding save_job
find-token_save token j j' [] u f e t = absurd (ground arith)
find-token_save token j j' (r ∷ jobs) u f e t = elim (Bool-cases (has_token token r)) [
  | inl hit ↦
      let r_is_j : r ≡ j = ground arith in
      let here : (r.order_id == j'.order_id) ≡ true =
        ground (arith, ap (λ (k : Job). k.order_id) r_is_j) in
      rw (here, t)
  | inr miss ↦
      let f' : find (has_token token) jobs ≡ some j = ground arith in
      let apart : OtherOrder r.order_id j =
        All-find (OtherOrder r.order_id) (has_token token) jobs j u.0 f' in
      let there : (r.order_id == j'.order_id) ≡ false = ground arith in
      rw (there, miss) (find-token_save token j j' jobs u.1 f' e t)
]

ack_printed :
    (host : Host) (token : ℕ) (key : Text) (now : ℕ) (s : Store) (j : Job)
    → find (has_token token) s.jobs ≡ some j
    → text_eq j.claimed_session_hash (host.sha256 key) ≡ true
    → is_printed j.state ≡ true
    → acknowledge host token key now s ≡ ok (j, true, s)
unfolding acknowledge
ack_printed host token key now s j f t p = rw f (rw t (rw p))

ack_found :
    (host : Host) (token : ℕ) (key : Text) (now : ℕ) (s s' : Store) (j : Job) (b : Bool)
    → acknowledge host token key now s ≡ ok (j, b, s')
    → (i : Job) × (find (has_token token) s.jobs ≡ some i)
unfolding acknowledge
ack_found host token key now s s' j b h =
    let (i, t, _) = bind_ok (or_raise (find (has_token token) s.jobs) claim_not_found) _ h in
    (i, or_raise_ok _ claim_not_found t)

ack_parts :
    (host : Host) (token : ℕ) (key : Text) (now : ℕ) (s s' : Store) (i j : Job) (b : Bool)
    → find (has_token token) s.jobs ≡ some i
    → acknowledge host token key now s ≡ ok (j, b, s')
    → (text_eq i.claimed_session_hash (host.sha256 key) ≡ true)
      × (((is_printed i.state ≡ true) × (j ≡ i) × (s' ≡ s))
          ⊎ ((j ≡ printed_job now i)
              × (s' ≡ record s { jobs = save_job (printed_job now i) s.jobs })))
unfolding acknowledge
ack_parts host token key now s s' i j b f h = elim (Bool-cases (is_printed i.state)) [
  | inl before ↦ (ground arith, inl (before, ground arith, ground arith))
  | inr fresh ↦ (ground arith, inr (ground arith, ground arith))
]

-- In a table with one job for each order: an acknowledgement that went through goes through again at
-- any later time, returns the same job, says that it was printed before, and changes nothing.
pub acknowledge-acknowledge :
    (host : Host) (token : ℕ) (key : Text) (now later : ℕ) (s s' : Store) (j : Job) (b : Bool)
    → IsUnique s.jobs
    → acknowledge host token key now s ≡ ok (j, b, s')
    → acknowledge host token key later s' ≡ ok (j, true, s')
acknowledge-acknowledge host token key now later s s' j b u h =
    let (i, found) = ack_found host token key now s s' j b h in
    let (theirs, done) = ack_parts host token key now s s' i j b found h in
    elim done [
      | inl (p, same_job, same_store) ↦
          rw same_store (rw same_job (ack_printed host token key later s i found theirs p))
      | inr (new_job, new_store) ↦ rw new_store (
          rw new_job (
            ack_printed host token key later
              (record s { jobs = save_job (printed_job now i) s.jobs }) (printed_job now i)
              (find-token_save token i (printed_job now i) s.jobs u found
                (unfold printed_job in refl)
                (unfold printed_job in find_sound (has_token token) s.jobs i found))
              (unfold printed_job in theirs) (unfold printed_job in refl)))
    ]
