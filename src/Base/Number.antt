-- ===== src/Base/Number.antt =====
-- Numbers in a request as `Decimal` reads them, and `str.upper`.
use Prim.Native.Nat.{ℕ, zero, suc, ◌+◌, ◌-◌, ◌*◌}
use mathlib.Core.Bool.{◌&&◌}
use mathlib.Core.List.{map}
use alpha_pos_local.Base.Tests.{leb, ◌==◌, if◌then◌else◌}
use alpha_pos_local.Base.Int.{ℤ}
use alpha_pos_local.Base.Text.{Text}

-- What `Decimal(str(value))` yields: no finite number, or a coefficient over a power of ten.
pub data Number : Type 0 where
  not_finite : Number
  decimal : (coefficient : ℤ) (places : ℕ) → Number

-- `str.upper` on the letters whose capital is a single ASCII letter: a-z, dotless i and long s.
unfoldable pub upper_char : ℕ → ℕ
upper_char c =
    if leb b'a' c && leb c b'z'
    then c - 32
    else if c == 0x131
    then b'I'
    else if c == 0x17f
    then b'S'
    else c

unfoldable pub upper : Text → Text
unfolding upper_char
upper s = map upper_char s

unfoldable pub power_of_ten : ℕ → ℕ
power_of_ten zero = 1
power_of_ten (suc n) = 10 * power_of_ten n

-- `str.lower` on the letters whose small letter is a single ASCII letter: A-Z and the Kelvin sign.
unfoldable pub lower_char : ℕ → ℕ
lower_char c = if leb b'A' c && leb c b'Z' then c + 32 else if c == 0x212a then b'k' else c

unfoldable pub lower : Text → Text
unfolding lower_char
lower s = map lower_char s
