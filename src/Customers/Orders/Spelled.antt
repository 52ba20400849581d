-- ===== src/Customers/Orders/Spelled.antt =====
-- A list of statuses as a client writes it, and as `_parse_statuses` reads it.
use alpha_pos_local.Base.{
  ℕ, ◌≡◌, refl, sym, subst, ◌∙◌, ap, Bool, false, some, List, [], ◌∷◌, ◌++◌, map, ◌==◌, All,
}
use alpha_pos_local.Base.Sorting.{All-append}
use alpha_pos_local.Base.Text.{Text, codes, text_eq, is_blank, is_space, lstrip, strip}
use alpha_pos_local.Base.Number.{upper, upper_char}
use alpha_pos_local.Customers.Orders.Spelling.{
  to_api_status, from_api_status, lstrip_chars, strip_chars, is_bracket, split_commas, read_parts,
  parse_statuses,
}
use mathlib.Core.List.{reverse, reverse-cons, reverse_aux-reverse_aux-nil}

-- `ALLOWED_STATUSES`
pub data Allowed : Type 0 where
  prepares is_done is_off : Allowed

-- The stored spelling.
abbrev pub spelling : Allowed → Text
spelling prepares = codes "PREPARING"
spelling is_done = codes "READY"
spelling is_off = codes "CANCELED"

-- `','.join(...)` of the outer spellings.
unfoldable pub join_api : Allowed → List Allowed → Text
join_api a [] = to_api_status (spelling a)
join_api a (b ∷ rest) = to_api_status (spelling a) ++ b',' ∷ join_api b rest

module _ (test : ℕ → Bool) where
  lstrip_none : (s : Text) → All (λ c. test c ≡ false) s → lstrip_chars test s ≡ s
  unfolding lstrip_chars
  lstrip_none [] h = refl
  lstrip_none (c ∷ s) h = rw (h.0) refl

  All-reverse : (s : Text) → All (λ c. test c ≡ false) s → All (λ c. test c ≡ false) (reverse s)
  All-reverse [] h = tt
  All-reverse (c ∷ s) h =
      subst (λ (x : Text). All (λ c. test c ≡ false) x) (sym (reverse-cons c s))
        (All-append (λ c. test c ≡ false) (reverse s) (c ∷ []) (All-reverse s h.1) (h.0, tt))

  strip_none : (s : Text) → All (λ c. test c ≡ false) s → strip_chars test s ≡ s
  unfolding strip_chars
  strip_none s h = rw (lstrip_none s h) (
      ap (λ (x : Text). reverse x) (lstrip_none (reverse s) (All-reverse s h))
      ∙ reverse_aux-reverse_aux-nil s [])

lstrip_space : (s : Text) → lstrip s ≡ lstrip_chars is_space s
unfolding lstrip lstrip_chars
lstrip_space [] = refl
lstrip_space (c ∷ s) = rw (lstrip_space s) refl

strip_space : (s : Text) → strip s ≡ strip_chars is_space s
unfolding strip strip_chars
strip_space s =
    rw (lstrip_space s)
      (ap (λ (x : Text). reverse x) (lstrip_space (reverse (lstrip_chars is_space s))))

-- What the characters of a list are not.
pub data Mark : Type 0 where
  space bracket : Mark

abbrev is_mark : Mark → ℕ → Bool
is_mark space = is_space
is_mark bracket = is_bracket

api_unmarked :
    (m : Mark) (a : Allowed) → All (λ c. is_mark m c ≡ false) (to_api_status (spelling a))
unfolding to_api_status is_space
api_unmarked space prepares =
    (refl, (refl, (refl, (refl, (refl, (refl, (refl, (refl, (refl, tt)))))))))
api_unmarked space is_done = (refl, (refl, (refl, (refl, (refl, tt)))))
api_unmarked space is_off =
    (refl, (refl, (refl, (refl, (refl, (refl, (refl, (refl, (refl, tt)))))))))
api_unmarked bracket prepares =
    (refl, (refl, (refl, (refl, (refl, (refl, (refl, (refl, (refl, tt)))))))))
api_unmarked bracket is_done = (refl, (refl, (refl, (refl, (refl, tt)))))
api_unmarked bracket is_off =
    (refl, (refl, (refl, (refl, (refl, (refl, (refl, (refl, (refl, tt)))))))))

comma_unmarked : (m : Mark) → is_mark m b',' ≡ false
unfolding is_space
comma_unmarked space = refl
comma_unmarked bracket = refl

join-unmarked :
    (m : Mark) (a : Allowed) (rest : List Allowed)
    → All (λ c. is_mark m c ≡ false) (join_api a rest)
unfolding join_api
join-unmarked m a [] = api_unmarked m a
join-unmarked m a (b ∷ rest) =
    All-append (λ c. is_mark m c ≡ false) (to_api_status (spelling a)) (b',' ∷ join_api b rest)
      (api_unmarked m a) (comma_unmarked m, join-unmarked m b rest)

api_whole : (a : Allowed) → All (λ c. (c == b',') ≡ false) (to_api_status (spelling a))
unfolding to_api_status
api_whole prepares = (refl, (refl, (refl, (refl, (refl, (refl, (refl, (refl, (refl, tt)))))))))
api_whole is_done = (refl, (refl, (refl, (refl, (refl, tt)))))
api_whole is_off = (refl, (refl, (refl, (refl, (refl, (refl, (refl, (refl, (refl, tt)))))))))

-- A text without commas is one part.
split-whole :
    (t s : Text)
    → All (λ c. (c == b',') ≡ false) t
    → split_commas (t ++ b',' ∷ s) ≡ t ∷ split_commas s
unfolding split_commas
split-whole [] s h = refl
split-whole (c ∷ t) s h = rw (split-whole t s h.1, h.0) refl

split-last : (t : Text) → All (λ c. (c == b',') ≡ false) t → split_commas t ≡ t ∷ []
unfolding split_commas
split-last [] h = refl
split-last (c ∷ t) h = rw (split-last t h.1, h.0) refl

split-join :
    (a : Allowed) (rest : List Allowed)
    → split_commas (join_api a rest) ≡ map (λ x. to_api_status (spelling x)) (a ∷ rest)
unfolding join_api
split-join a [] = split-last (to_api_status (spelling a)) (api_whole a)
split-join a (b ∷ rest) =
    split-whole (to_api_status (spelling a)) (join_api b rest) (api_whole a)
    ∙ ap (λ (x : List Text). to_api_status (spelling a) ∷ x) (split-join b rest)

-- One part is read as the stored spelling.
part_read :
    (a : Allowed) (ts : List Text)
    → read_parts (to_api_status (spelling a) ∷ ts) ≡ spelling a ∷ read_parts ts
unfolding read_parts from_api_status strip_chars lstrip_chars strip lstrip is_space upper upper_char
    to_api_status text_eq
part_read prepares ts = refl
part_read is_done ts = refl
part_read is_off ts = refl

parts_read :
    (xs : List Allowed) → read_parts (map (λ x. to_api_status (spelling x)) xs) ≡ map spelling xs
unfolding read_parts
parts_read [] = refl
parts_read (a ∷ xs) =
    part_read a (map (λ x. to_api_status (spelling x)) xs)
    ∙ ap (λ (x : List Text). spelling a ∷ x) (parts_read xs)

join-not_blank : (a : Allowed) (rest : List Allowed) → is_blank (join_api a rest) ≡ false
unfolding join_api to_api_status
join-not_blank prepares [] = refl
join-not_blank is_done [] = refl
join-not_blank is_off [] = refl
join-not_blank prepares (b ∷ rest) = refl
join-not_blank is_done (b ∷ rest) = refl
join-not_blank is_off (b ∷ rest) = refl

-- The statuses of a filter, in the spelling of the clients and joined by commas, are read as the stored
-- ones, in their order.
pub parse-join :
    (a : Allowed) (rest : List Allowed)
    → parse_statuses (some (join_api a rest)) ≡ some (map spelling (a ∷ rest))
unfolding parse_statuses
parse-join a rest =
    let s = join_api a rest in
    let same : strip_chars is_bracket (strip s) ≡ s =
      ap (λ (x : Text). strip_chars is_bracket x)
        (strip_space s ∙ strip_none is_space s (join-unmarked space a rest))
      ∙ strip_none is_bracket s (join-unmarked bracket a rest) in
    rw (same, join-not_blank a rest, split-join a rest)
      (ap {A = List Text} (λ x. some x) (parts_read (a ∷ rest)))
