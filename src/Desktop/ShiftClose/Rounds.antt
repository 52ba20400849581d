-- ===== src/Desktop/ShiftClose/Rounds.antt =====
-- The rounds of desktop/shift_close_sync.py, and a predicate on entries that only an acknowledgement could break.
use alpha_pos_local.Base.{
  ℕ, suc, ◌≡◌, refl, ◌∙◌, Bool, true, false, not, ◌||◌, Option, none, some, List, [], ◌∷◌, arith,
  leb, find, if◌then◌else◌, All,
}
use alpha_pos_local.Base.Text.{codes, is_blank}
use alpha_pos_local.Base.Sorting.{sort_by, All-sort_by}
use alpha_pos_local.Desktop.ShiftClose.Entries.{
  acknowledged, is_acknowledged, Bundle, Entry, uuid_is, compact, entry_for,
}
use alpha_pos_local.Desktop.ShiftClose.Verdict.{Remote, is_state, verdict}
use alpha_pos_local.Desktop.ShiftClose.Refresh.{
  Run, ensure_discovered, has_state, bundle_before, judge, hold, max_probes, probe_all, refresh,
  tracked, track_committed,
}
use alpha_pos_local.Desktop.ShiftClose.Kept.{
  discovered-P, All-kept, All-ensure, All-retain, All-hold, All-judge,
}

module _ {ℓ} (P : Entry → Type ℓ) where
  -- What an acknowledgement of `b` in the answer `r` gives the entries of `b`.
  abbrev pub Earned : Bundle → Remote → Type ℓ
  Earned b r =
      is_blank b.local_error ≡ true
      → (verdict b r).state ≡ acknowledged
      → (e : Entry) → e.shift_uuid ≡ b.shift_uuid
      → e.manifest_digest ≡ b.manifest_digest
      → P e

module _ {ℓ} (P : Entry → Type ℓ) (P-compact : (e : Entry) → P e → P (compact e))
    (P-open : (e : Entry) → is_acknowledged e.state ≡ false → P e) where
  Earned-down : (b : Bundle) (r : Remote) → is_state r (codes "UNAVAILABLE") ≡ true → Earned P b r
  unfolding verdict
  Earned-down b r u l v e s d = absurd (ground arith)

  -- The loop, where an answer that is kept is one of an unavailable cloud.
  All-probe :
      (now : ℕ) (ask : Bundle → Remote) (probes : ℕ) (down : Option Remote) (bs : List Bundle)
      (run : Run)
      → ((r : Remote) → down ≡ some r → is_state r (codes "UNAVAILABLE") ≡ true)
      → All (λ b. Earned P b (ask b)) bs
      → All P run.stored
      → All P (probe_all now ask probes down bs run).stored
  unfolding probe_all
  All-probe now ask probes down [] run d p h = h
  All-probe now ask probes down (b ∷ bs) run d p h =
      let o = find (uuid_is b.shift_uuid) run.entries in
      let asked = ask b in
      let next_down : Option Remote =
        if is_state asked (codes "UNAVAILABLE") then some asked else none in
      turn (has_state is_acknowledged o || not (is_blank b.local_error)) (leb max_probes probes)
        down (λ f. ground arith) (All-probe now ask probes down bs run d p.1 h)
        (All-probe now ask probes down bs (hold b o run) d p.1
          (All-hold P P-compact P-open b o run h))
        (λ l r e.
          All-probe now ask probes (some r) bs (judge now b o r run) (λ q f. d q (e ∙ f)) p.1
            (All-judge P P-compact P-open now b o r run (Earned-down b r (d r e) l) h))
        (λ l.
          All-probe now ask (suc probes) next_down bs (judge now b o asked run)
            (λ q f. ground arith) p.1 (All-judge P P-compact P-open now b o asked run (p.0 l) h))
    where
      turn :
          (skipped full : Bool) (down : Option Remote)
          → (skipped ≡ false → is_blank b.local_error ≡ true)
          → All P (probe_all now ask probes down bs run).stored
          → All P
              (probe_all now ask probes down bs
                (hold b (find (uuid_is b.shift_uuid) run.entries) run)).stored
          → (is_blank b.local_error ≡ true
              → (r : Remote) → down ≡ some r
              → All P
                  (probe_all now ask probes
                    (some r)
                    bs
                    (judge now b (find (uuid_is b.shift_uuid) run.entries) r run)).stored)
          → (is_blank b.local_error ≡ true
              → All P
                  (probe_all now ask
                    (suc probes)
                    (if is_state (ask b) (codes "UNAVAILABLE") then some (ask b) else none)
                    bs
                    (judge now b (find (uuid_is b.shift_uuid) run.entries) (ask b) run)).stored)
          → All P
              (elim skipped as (λ x. Run) [
                | true ↦ probe_all now ask probes down bs run
                | false ↦ elim full as (λ x. Run) [
                  | true ↦
                      probe_all now ask probes down bs
                        (hold b (find (uuid_is b.shift_uuid) run.entries) run)
                  | false ↦ elim down as (λ x. Run) [
                    | some r ↦
                        probe_all now ask probes
                          (some r)
                          bs
                          (judge now b (find (uuid_is b.shift_uuid) run.entries) r run)
                    | none ↦
                        probe_all now ask
                          (suc probes)
                          (if is_state (ask b) (codes "UNAVAILABLE") then some (ask b) else none)
                          bs
                          (judge now b (find (uuid_is b.shift_uuid) run.entries) (ask b) run)
                  ]
                ]
              ]).stored
      turn true full down l skip held again new = skip
      turn false true down l skip held again new = held
      turn false false (some r) l skip held again new = again (l refl) r refl
      turn false false none l skip held again new = new (l refl)

  pub All-refresh :
      (now : ℕ) (asks : Option (Bundle → Remote)) (retains : Bool) (bs : List Bundle)
      (es : List Entry)
      → ((ask : Bundle → Remote) → asks ≡ some ask → All (λ b. Earned P b (ask b)) bs)
      → All P es
      → All P (refresh now asks retains bs es).stored
  unfolding refresh
  All-refresh now none retains bs es p h =
      let run = ensure_discovered now bs (record { stored = es; entries = es; outbox = [] }) in
      All-retain P P-compact P-open retains (sort_by (bundle_before run.entries) bs) run
        (All-ensure P P-compact P-open now bs (record { stored = es; entries = es; outbox = [] }) h)
  All-refresh now (some ask) retains bs es p h =
      let run = ensure_discovered now bs (record { stored = es; entries = es; outbox = [] }) in
      All-probe now ask 0 none (sort_by (bundle_before run.entries) bs) run (λ r e. ground arith)
        (All-sort_by (λ b. Earned P b (ask b)) (bundle_before run.entries) bs (p ask refl))
        (All-ensure P P-compact P-open now bs (record { stored = es; entries = es; outbox = [] }) h)

  tracked-P : (now : ℕ) (b : Bundle) (o : Option Entry) (e : Entry) → tracked now b o ≡ some e → P e
  unfolding tracked entry_for
  tracked-P now b none e d = discovered-P P P-compact P-open now b none e d
  tracked-P now b (some p) e d = P-open e (ground arith)

  pub All-track :
      (now : ℕ) (b : Bundle) (es : List Entry) → All P es → All P (track_committed now b es)
  unfolding track_committed
  All-track now b es h =
      let o = find (uuid_is b.shift_uuid) es in
      All-kept P P-compact P-open (tracked now b o)
        (record { stored = es; entries = es; outbox = [] }) (tracked-P now b o) h
