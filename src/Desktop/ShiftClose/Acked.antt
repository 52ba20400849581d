-- ===== src/Desktop/ShiftClose/Acked.antt =====
-- No acknowledgement without an exact echo of the cloud: desktop/shift_close_sync.py.
use alpha_pos_local.Base.{
  ℕ, ◌≡◌, refl, sym, subst, Bool, true, false, ◌&&◌, Option, none, some, List, [], ◌∷◌, arith, any,
  find, opt_eq, All, All-map, All-find, All-any, some-injective,
}
use alpha_pos_local.Base.Text.{Text, codes, text_eq, text_eq_refl, is_blank}
use alpha_pos_local.Base.Number.{upper}
use alpha_pos_local.Desktop.ShiftClose.Entries.{
  acknowledged, is_acknowledged, Bundle, Entry, compact,
}
use alpha_pos_local.Desktop.ShiftClose.Verdict.{
  Remote, digest_is, digest_algorithm, identity_matches, matched, verdict,
}
use alpha_pos_local.Desktop.ShiftClose.Refresh.{same_digest}
use alpha_pos_local.Desktop.ShiftClose.Rounds.{Earned, All-refresh, All-track}
use alpha_pos_local.Desktop.ShiftClose.Calls.{
  Call, shift_saved, ensure_started, prepare_for_push, after_push, serve, serve_all,
}

-- A digest that is there, and is the given one.
abbrev pub holds : Text → Option Text → Bool
holds d none = false
holds d (some e) = text_eq d e

-- An answer that names the shift, the version and the digest, says by which algorithm, and acknowledges
-- them in its state and in its flag.
unfoldable pub names : (shift : Text) (version : Option ℕ) (digest : Option Text) → Remote → Bool
names shift version digest r =
    r.success
    && (text_eq r.shift_uuid shift
        && (opt_eq r.manifest_version version
            && (holds r.manifest_digest digest
                && (text_eq r.digest_algorithm (codes "sha256-canonical-json-v1")
                    && (text_eq (upper r.state) (codes "ACKNOWLEDGED") && r.acknowledged)))))

-- The answer to a valid bundle of a shift and a digest acknowledges just these.
unfoldable pub echoed : (shift : Text) (digest : Option Text) → (Bundle → Remote) → Bundle → Bool
echoed shift digest answer b =
    is_blank b.local_error
    && (text_eq b.shift_uuid shift
        && (same_digest b.manifest_digest digest
            && names shift b.manifest_version digest (answer b)))

-- A call in which the cloud acknowledged the digest of the shift.
unfoldable pub proves : (shift : Text) (digest : Option Text) → Call → Bool
proves shift digest (after_push now answer bs) = any (echoed shift digest answer) bs
proves shift digest _ = false

Acked : List Call → Entry → Type 0
Acked cs e = is_acknowledged e.state ≡ true → any (proves e.shift_uuid e.manifest_digest) cs ≡ true

compact-Acked : (cs : List Call) (e : Entry) → Acked cs e → Acked cs (compact e)
unfolding Acked compact
compact-Acked cs e h = h

open-Acked : (cs : List Call) (e : Entry) → is_acknowledged e.state ≡ false → Acked cs e
unfolding Acked
open-Acked cs e f t = absurd (ground arith)

verdict-matches :
    (b : Bundle) (r : Remote) → (verdict b r).state ≡ acknowledged → identity_matches b r ≡ true
unfolding verdict
verdict-matches b r v = ground arith

verdict-acknowledged :
    (b : Bundle) (r : Remote) → (verdict b r).state ≡ acknowledged → r.acknowledged ≡ true
unfolding verdict matched
verdict-acknowledged b r v = ground arith

same_digest_refl : (d : Option Text) → same_digest d d ≡ true
same_digest_refl none = refl
same_digest_refl (some d) = text_eq_refl d

verdict-acknowledges :
    (b : Bundle) (r : Remote)
    → (verdict b r).state ≡ acknowledged
    → text_eq (upper r.state) (codes "ACKNOWLEDGED") ≡ true
unfolding verdict matched
verdict-acknowledges b r v = ground arith

all_seven :
    (a b c d e f g : Bool)
    → a ≡ true
    → b ≡ true
    → c ≡ true
    → d ≡ true
    → e ≡ true
    → f ≡ true
    → g ≡ true
    → (a && (b && (c && (d && (e && (f && g)))))) ≡ true
all_seven a b c d e f g ha hb hc hd he hf hg = rw (ha, hb, hc, hd, he, hf, hg) refl

digest_is-holds : (d : Text) (o : Option Text) → digest_is d o ≡ true → holds d o ≡ true
digest_is-holds d none h = h
digest_is-holds d (some e) h = h

-- What an exact echo says, field by field.
matches-parts :
    (b : Bundle) (r : Remote)
    → identity_matches b r ≡ true
    → (r.success ≡ true)
      × (text_eq r.shift_uuid b.shift_uuid ≡ true)
      × (opt_eq r.manifest_version b.manifest_version ≡ true)
      × (digest_is r.manifest_digest b.manifest_digest ≡ true)
      × (text_eq r.digest_algorithm digest_algorithm ≡ true)
unfolding identity_matches
matches-parts b r m = (ground arith, ground arith, ground arith, ground arith, ground arith)

-- An answer that earns an acknowledgement proves it.
echoed-earned :
    (answer : Bundle → Remote) (b : Bundle)
    → is_blank b.local_error ≡ true
    → (verdict b (answer b)).state ≡ acknowledged
    → echoed b.shift_uuid b.manifest_digest answer b ≡ true
unfolding echoed names
echoed-earned answer b l v =
    let r = answer b in
    let m = matches-parts b r (verdict-matches b r v) in
    let said =
      all_seven _ _ _ _ _ _ _ (m.0) (m.1) (m.2)
        (digest_is-holds r.manifest_digest b.manifest_digest (m.3)) (m.4)
        (verdict-acknowledges b r v) (verdict-acknowledged b r v) in
    rw (l, text_eq_refl b.shift_uuid, same_digest_refl b.manifest_digest) said

-- The bundles of a call that asks the cloud earn what the call proves.
earned :
    (cs : List Call) (now : ℕ) (answer : Bundle → Remote) (bs : List Bundle)
    → ((test : Call → Bool) → test (after_push now answer bs) ≡ true → any test cs ≡ true)
    → All (λ b. Earned (Acked cs) b (answer b)) bs
unfolding Acked proves
earned cs now answer bs known =
    All-map (λ b. (test : Bundle → Bool) → test b ≡ true → any test bs ≡ true)
      (λ b. Earned (Acked cs) b (answer b)) bs
      (λ b found l v e u d t.
        subst (λ (s : Text). any (proves s e.manifest_digest) cs ≡ true) (sym u)
          (subst (λ (m : Option Text). any (proves b.shift_uuid m) cs ≡ true) (sym d)
            (known (proves b.shift_uuid b.manifest_digest)
              (found (echoed b.shift_uuid b.manifest_digest answer) (echoed-earned answer b l v)))))
      (All-any bs)

serve-Acked :
    (cs : List Call) (c : Call) (es : List Entry)
    → ((test : Call → Bool) → test c ≡ true → any test cs ≡ true)
    → All (Acked cs) es
    → All (Acked cs) (serve c es)
unfolding serve
serve-Acked cs (shift_saved now b) es known h =
    All-track (Acked cs) (compact-Acked cs) (open-Acked cs) now b es h
serve-Acked cs (ensure_started now bs) es known h =
    All-refresh (Acked cs) (compact-Acked cs) (open-Acked cs) now none false bs es
      (λ a e. ground arith) h
serve-Acked cs (prepare_for_push now bs) es known h =
    All-refresh (Acked cs) (compact-Acked cs) (open-Acked cs) now none true bs es
      (λ a e. ground arith) h
serve-Acked cs (after_push now answer bs) es known h =
    All-refresh (Acked cs) (compact-Acked cs) (open-Acked cs) now (some answer) true bs es
      (λ a e.
        subst (λ (a : Bundle → Remote). All (λ b. Earned (Acked cs) b (a b)) bs)
          (some-injective answer a e) (earned cs now answer bs known))
      h

serve_all-Acked :
    (cs rest : List Call) (es : List Entry)
    → All (λ c. (test : Call → Bool) → test c ≡ true → any test cs ≡ true) rest
    → All (Acked cs) es
    → All (Acked cs) (serve_all rest es)
unfolding serve_all
serve_all-Acked cs [] es known h = h
serve_all-Acked cs (c ∷ rest) es known h =
    serve_all-Acked cs rest (serve c es) known.1 (serve-Acked cs c es known.0 h)

-- Whatever calls reach an empty tracker, an entry that it then holds as acknowledged is one whose
-- shift and digest the cloud acknowledged in one of the calls: it was asked about a valid bundle of
-- that shift and digest, and its successful answer names the shift, the version of the bundle, the
-- digest and SHA-256 of the canonical JSON, is in the state ACKNOWLEDGED and says `acknowledged`.
pub acknowledged_echoed :
    (cs : List Call) (test : Entry → Bool) (e : Entry)
    → find test (serve_all cs []) ≡ some e
    → is_acknowledged e.state ≡ true
    → any (proves e.shift_uuid e.manifest_digest) cs ≡ true
unfolding Acked
acknowledged_echoed cs test e f t =
    All-find (Acked cs) test (serve_all cs []) e (serve_all-Acked cs cs [] (All-any cs) tt) f t
