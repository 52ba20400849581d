-- ===== src/Desktop/ShiftClose/Kept.antt =====
-- Discovery and verdicts in desktop/shift_close_sync.py keep a predicate that only an acknowledgement could break.
use alpha_pos_local.Base.{
  ℕ, ◌≡◌, refl, subst, sym, ap, Bool, true, false, not, ◌||◌, Option, none, some, List, [], ◌∷◌,
  map, inl, inr, arith, any, find, if◌then◌else◌, Bool-cases, All,
}
use alpha_pos_local.Base.Text.{codes, text_eq, is_blank}
use alpha_pos_local.Desktop.ShiftClose.Entries.{
  State, pending, conflict, acknowledged, is_acknowledged, is_conflict, is_pending, Bundle, Entry,
  uuid_is, to_compact, compact, prune, set_entry, entry_for,
}
use alpha_pos_local.Desktop.ShiftClose.Verdict.{Remote, Verdict, is_state, verdict}
use alpha_pos_local.Desktop.ShiftClose.Refresh.{
  retain, park, clear_parked, message_of, Run, persist, discovered, discover_all, missing,
  mark_missing, ensure_discovered, or_kept, has_state, queue, after_verdict, judge, hold,
  retain_all,
}

module _ {ℓ} (P : Entry → Type ℓ) (P-compact : (e : Entry) → P e → P (compact e))
    (P-open : (e : Entry) → is_acknowledged e.state ≡ false → P e) where
  All-prune : (es : List Entry) → All P es → All P (prune es)
  unfolding prune
  All-prune es h = All_compact (to_compact es) es h
    where
      All_compact :
          (old xs : List Entry)
          → All P xs
          → All P (map (λ e. if any (uuid_is e.shift_uuid) old then compact e else e) xs)
      All_compact old [] k = tt
      All_compact old (x ∷ xs) k = (
        elim (Bool-cases (any (uuid_is x.shift_uuid) old)) [
          | inl t ↦ rw t (P-compact x k.0)
          | inr f ↦ rw f k.0
        ],
        All_compact old xs k.1,
      )

  All-set_entry : (e : Entry) (es : List Entry) → P e → All P es → All P (set_entry e es)
  unfolding set_entry
  All-set_entry e [] p h = (p, tt)
  All-set_entry e (x ∷ xs) p h = elim (Bool-cases (uuid_is e.shift_uuid x)) [
    | inl t ↦ rw t (p, h.1)
    | inr f ↦ rw f (h.0, All-set_entry e xs p h.1)
  ]

  pub All-persist : (e : Entry) (run : Run) → P e → All P run.stored → All P (persist e run).stored
  unfolding persist
  All-persist e run p h = All-prune (set_entry e run.stored) (All-set_entry e run.stored p h)

  pub discovered-P :
      (now : ℕ) (b : Bundle) (o : Option Entry) (e : Entry) → discovered now b o ≡ some e → P e
  unfolding discovered entry_for
  discovered-P now b none e d = P-open e (ground arith)
  discovered-P now b (some p) e d = P-open e (ground arith)

  pub All-kept :
      (o : Option Entry) (run : Run)
      → ((e : Entry) → o ≡ some e → P e)
      → All P run.stored
      → All P (or_kept o run).stored
  All-kept none run p h = h
  All-kept (some e) run p h = All-persist e run (p e refl) h

  All-discover :
      (now : ℕ) (bs : List Bundle) (run : Run)
      → All P run.stored
      → All P (discover_all now bs run).stored
  unfolding discover_all
  All-discover now [] run h = h
  All-discover now (b ∷ bs) run h =
      let o = discovered now b (find (uuid_is b.shift_uuid) run.entries) in
      All-discover now bs (or_kept o run)
        (All-kept o run (discovered-P now b (find (uuid_is b.shift_uuid) run.entries)) h)

  All-missing :
      (now : ℕ) (bs : List Bundle) (es : List Entry) (run : Run)
      → All P run.stored
      → All P (mark_missing now bs es run).stored
  unfolding mark_missing missing
  All-missing now bs [] run h = h
  All-missing now bs (e ∷ es) run h =
      All-missing now bs es
        (if is_acknowledged e.state || any (λ b. text_eq b.shift_uuid e.shift_uuid) bs
          then run
          else persist (missing now e) run)
        (kept_or_gone (is_acknowledged e.state || any (λ b. text_eq b.shift_uuid e.shift_uuid) bs))
    where
      kept_or_gone : (c : Bool) → All P (if c then run else persist (missing now e) run).stored
      kept_or_gone true = h
      kept_or_gone false = All-persist (missing now e) run (P-open (missing now e) refl) h

  pub All-ensure :
      (now : ℕ) (bs : List Bundle) (run : Run)
      → All P run.stored
      → All P (ensure_discovered now bs run).stored
  unfolding ensure_discovered
  All-ensure now bs run h =
      All-missing now bs (discover_all now bs run).entries (discover_all now bs run)
        (All-discover now bs run h)

  All-step : (step run : Run) → step.stored ≡ run.stored → All P run.stored → All P step.stored
  All-step step run e h = subst (All P) (sym e) h

  pub All-retain :
      (retains : Bool) (bs : List Bundle) (run : Run)
      → All P run.stored
      → All P (retain_all retains bs run).stored
  unfolding retain_all queue
  All-retain retains [] run h = h
  All-retain retains (b ∷ bs) run h =
      let o = find (uuid_is b.shift_uuid) run.entries in
      let step : Run =
        if not retains || has_state is_acknowledged o || not (is_blank b.local_error)
        then run
        else if has_state is_pending o
        then queue (retain b.shift_uuid false) run
        else if has_state is_conflict o
        then queue (park b.shift_uuid (message_of o)) run
        else run in
      All-retain retains bs step (All-step step run (ground arith) h)

  pub All-hold :
      (b : Bundle) (o : Option Entry) (run : Run) → All P run.stored → All P (hold b o run).stored
  unfolding hold queue
  All-hold b o run h = All-step (hold b o run) run (ground arith) h

  after-stored :
      (b : Bundle) (r : Remote) (v : Verdict) (run : Run)
      → (after_verdict b r v run).stored ≡ run.stored
  unfolding after_verdict queue
  after-stored b r v run = of_state (v.state)
    where
      of_state :
          (s : State)
          → (elim s as (λ x. Run) [
            | pending ↦ queue (retain b.shift_uuid (is_state r (codes "PENDING"))) run
            | conflict ↦ queue (park b.shift_uuid v.message) run
            | acknowledged ↦ queue (clear_parked b.shift_uuid) run
          ]).stored
            ≡ run.stored
      of_state pending = refl
      of_state conflict = refl
      of_state acknowledged = refl

  -- An entry that takes its state from a verdict.
  pub All-judge :
      (now : ℕ) (b : Bundle) (o : Option Entry) (r : Remote) (run : Run)
      → ((verdict b r).state ≡ acknowledged
          → (e : Entry) → e.shift_uuid ≡ b.shift_uuid
          → e.manifest_digest ≡ b.manifest_digest
          → P e)
      → All P run.stored
      → All P (judge now b o r run).stored
  unfolding judge entry_for
  All-judge now b o r run p h =
      let v = verdict b r in
      let e : Entry = entry_for now b o v.state v.reason_code v.message true in
      All-step (judge now b o r run) (persist e run) (after-stored b r v (persist e run))
        (All-persist e run (judged e v.state refl refl refl refl) h)
    where
      judged :
          (e : Entry) (s : State)
          → (verdict b r).state ≡ s
          → e.state ≡ s
          → e.shift_uuid ≡ b.shift_uuid
          → e.manifest_digest ≡ b.manifest_digest
          → P e
      judged e acknowledged vs es u d = p vs e u d
      judged e pending vs es u d = P-open e (ap is_acknowledged es)
      judged e conflict vs es u d = P-open e (ap is_acknowledged es)
