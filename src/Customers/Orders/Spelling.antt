-- ===== src/Customers/Orders/Spelling.antt =====
-- The spelling of a status outside and inside: `_to_api_status`, `_from_api_status` and
-- `_parse_statuses` of customers/services/order_service.py.
use alpha_pos_local.Base.{ℕ, Bool, ◌||◌, Option, none, some, List, [], ◌∷◌, ◌==◌, if◌then◌else◌}
use alpha_pos_local.Base.Text.{Text, codes, text_eq, is_blank, strip}
use alpha_pos_local.Base.Number.{upper}
use alpha_pos_local.Couriers.Dispatch.Store.{OrderStatus, preparing, order_ready, canceled}
use mathlib.Core.List.{reverse}

-- `_to_api_status`
unfoldable pub to_api_status : Text → Text
unfolding text_eq
to_api_status s = if text_eq s (codes "CANCELED") then codes "CANCELLED" else s

abbrev pub one_l : Text → Text
one_l s = if text_eq s (codes "CANCELLED") then codes "CANCELED" else s

-- `_from_api_status` of a text
unfoldable pub from_api_status : Text → Text
from_api_status s = if is_blank s then s else one_l (upper (strip s))

-- `ALLOWED_STATUSES`
unfoldable pub allowed_status : Text → Option OrderStatus
unfolding text_eq
allowed_status s =
    if text_eq s (codes "PREPARING")
    then some preparing
    else if text_eq s (codes "READY")
    then some order_ready
    else if text_eq s (codes "CANCELED")
    then some canceled
    else none

-- `s.lstrip(chars)`, of the characters that pass a test.
unfoldable pub lstrip_chars : (ℕ → Bool) → Text → Text
lstrip_chars test [] = []
lstrip_chars test (c ∷ s) = let rest = lstrip_chars test s in if test c then rest else c ∷ s

unfoldable pub strip_chars : (ℕ → Bool) → Text → Text
strip_chars test s = reverse (lstrip_chars test (reverse (lstrip_chars test s)))

abbrev pub is_bracket : ℕ → Bool
is_bracket c = c == b'[' || c == b']'

abbrev pub is_quote : ℕ → Bool
is_quote c = c == b'"' || c == b'\''

abbrev pub cons_first : ℕ → List Text → List Text
cons_first c [] = (c ∷ []) ∷ []
cons_first c (t ∷ ts) = (c ∷ t) ∷ ts

-- `s.split(',')`
unfoldable pub split_commas : Text → List Text
split_commas [] = [] ∷ []
split_commas (c ∷ s) =
    let rest = split_commas s in if c == b',' then [] ∷ rest else cons_first c rest

-- The parts that are not blank, each without spaces and quotes.
unfoldable pub read_parts : List Text → List Text
read_parts [] = []
read_parts (t ∷ ts) =
    let rest = read_parts ts in
    if is_blank (strip t) then rest else from_api_status (strip_chars is_quote (strip t)) ∷ rest

-- `_parse_statuses`
unfoldable pub parse_statuses : Option Text → Option (List Text)
parse_statuses none = none
parse_statuses (some s) =
    let param = strip_chars is_bracket (strip s) in
    if is_blank s || is_blank param then none else some (read_parts (split_commas param))
