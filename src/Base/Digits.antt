-- ===== src/Base/Digits.antt =====
-- `str` of a whole number, and of an amount in hundredths.
use Prim.Native.Nat.{ℕ, zero, suc, ◌+◌, ◌/◌, ◌%◌}
use mathlib.Core.List.{[], ◌∷◌, ◌++◌}
use alpha_pos_local.Base.Tests.{ltb, if◌then◌else◌}
use alpha_pos_local.Base.Text.{Text}

abbrev pub digit : ℕ → ℕ
digit d = b'0' + d

-- The digits of `n` in front of `rest`; a number has at most as many digits as its value, and one.
unfoldable pub show_from : (fuel : ℕ) → ℕ → Text → Text
show_from zero n rest = rest
show_from (suc fuel) n rest =
    let text = digit (n % 10) ∷ rest in
    let longer = show_from fuel (n / 10) text in if ltb n 10 then text else longer

unfoldable pub show : ℕ → Text
unfolding show_from
show n = show_from (suc n) n []

-- `str(amount.quantize(Decimal('0.01')))`
unfoldable pub show_money : ℕ → Text
unfolding show
show_money n = show (n / 100) ++ b'.' ∷ digit (n / 10 % 10) ∷ digit (n % 10) ∷ []
