-- ===== src/Common/Show.antt =====
-- `Display` of an unsigned integer: its decimal digits.
use Prim.Native.Nat.{ℕ, zero, suc, ◌/◌, ◌%◌}
use Prim.Native.String
use Prim.Native.String.{String}
use mathlib.Core.Path.{◌≡◌, refl}
use cli_agent.Common.Tests.{if◌then◌else◌, ltb}

digit : ℕ → String
digit zero = "0"
digit (suc zero) = "1"
digit (suc (suc zero)) = "2"
digit (suc (suc (suc zero))) = "3"
digit (suc (suc (suc (suc zero)))) = "4"
digit (suc (suc (suc (suc (suc zero))))) = "5"
digit (suc (suc (suc (suc (suc (suc zero)))))) = "6"
digit (suc (suc (suc (suc (suc (suc (suc zero))))))) = "7"
digit (suc (suc (suc (suc (suc (suc (suc (suc zero)))))))) = "8"
digit (suc (suc (suc (suc (suc (suc (suc (suc (suc n))))))))) = "9"

-- The digits in front of `acc`; a number has fewer digits than its value and one.
show_from : ℕ → ℕ → String → String
unfolding digit
show_from zero n acc = acc
show_from (suc fuel) n acc =
    let longer = String.◌++◌ (digit (n % 10)) acc in
    let rest = show_from fuel (n / 10) longer in if ltb n 10 then longer else rest

unfoldable pub show : ℕ → String
unfolding show_from
show n = show_from (suc n) n ""

show_test : show 120300 ≡ "120300"
unfolding show
show_test = refl
