-- ===== src/Common/Bytes.antt =====
-- The bytes of a text, and the texts that the standard library reads as an `i64`.
use Prim.Native.Nat.{ℕ, zero, suc, ◌+◌, ◌-◌, ◌*◌, ◌/◌, ◌%◌}
use Prim.Native.String.{String}
use Prim.Native.Char.{code}
use mathlib.Core.Path.{◌≡◌}
use mathlib.Core.Logic.{inl, inr}
use mathlib.Core.Bool.{Bool, ◌&&◌}
use mathlib.Core.Option.{Option, none, some}
use mathlib.Core.List.{List, [], ◌∷◌, ◌++◌}
use native.Mathlib.Omega.{arith}
use cli_agent.Common.Tests.{ltb, leb, if◌then◌else◌, Bool-cases}
use cli_agent.Common.Int.{ℤ, pos, negsuc, half, IsI64}

-- The UTF-8 encoding of a code point.
unfoldable pub utf8 : ℕ → List ℕ
utf8 c =
    if ltb c 128
    then c ∷ []
    else if ltb c 2048
    then (192 + c / 64) ∷ (128 + c % 64) ∷ []
    else if ltb c 65536
    then (224 + c / 4096) ∷ (128 + c / 64 % 64) ∷ (128 + c % 64) ∷ []
    else (240 + c / 262144) ∷ (128 + c / 4096 % 64) ∷ (128 + c / 64 % 64) ∷ (128 + c % 64) ∷ []

-- `str::as_bytes`
unfoldable pub as_bytes : String → List ℕ
unfolding utf8
as_bytes String.[] = []
as_bytes (String.◌∷◌ c s) = utf8 (code c) ++ as_bytes s

abbrev pub is_digit : ℕ → Bool
is_digit b = leb 48 b && leb b 57

-- The value of a run of digits behind the value read so far, and nothing where another byte comes.
unfoldable pub read_digits : ℕ → List ℕ → Option ℕ
read_digits n [] = some n
read_digits n (b ∷ bs) = if is_digit b then read_digits (10 * n + (b - 48)) bs else none

-- There is at least one digit.
abbrev pub read_number : List ℕ → Option ℕ
read_number [] = none
read_number (b ∷ bs) = read_digits 0 (b ∷ bs)

abbrev positive : Option ℕ → Option ℤ
positive none = none
positive (some n) = if ltb n half then some (pos n) else none

abbrev negate : ℕ → ℤ
negate zero = pos zero
negate (suc n) = negsuc n

abbrev negative : Option ℕ → Option ℤ
negative none = none
negative (some n) = if leb n half then some (negate n) else none

unfoldable pub parse_bytes : List ℕ → Option ℤ
unfolding read_digits
parse_bytes [] = none
parse_bytes (b ∷ bs) =
    if leb b 43 && leb 43 b
    then positive (read_number bs)
    else if leb b 45 && leb 45 b
    then negative (read_number bs)
    else positive (read_number (b ∷ bs))

-- `str::parse::<i64>`
unfoldable pub parse_i64 : String → Option ℤ
unfolding as_bytes parse_bytes
parse_i64 s = parse_bytes (as_bytes s)

positive-IsI64 : (o : Option ℕ) (t : ℤ) → positive o ≡ some t → IsI64 t
unfolding IsI64
positive-IsI64 none t e = cc
positive-IsI64 (some n) t e = elim (Bool-cases (ltb n half)) [
  | inl small ↦ ground (arith, e, small)
  | inr large ↦ ground (arith, e, large)
]

negative-IsI64 : (o : Option ℕ) (t : ℤ) → negative o ≡ some t → IsI64 t
unfolding IsI64
negative-IsI64 none t e = cc
negative-IsI64 (some zero) t e = ground (arith, e)
negative-IsI64 (some (suc n)) t e = elim (Bool-cases (leb (suc n) half)) [
  | inl small ↦ ground (arith, e, small)
  | inr large ↦ ground (arith, e, large)
]

parse_bytes-IsI64 : (bs : List ℕ) (t : ℤ) → parse_bytes bs ≡ some t → IsI64 t
unfolding parse_bytes
parse_bytes-IsI64 [] t e = cc
parse_bytes-IsI64 (b ∷ bs) t e = elim (Bool-cases (leb b 43 && leb 43 b)) [
  | inl plus ↦ positive-IsI64 (read_number bs) t (ground (arith, e, plus))
  | inr other ↦ elim (Bool-cases (leb b 45 && leb 45 b)) [
    | inl minus ↦ negative-IsI64 (read_number bs) t (ground (arith, e, other, minus))
    | inr digit ↦ positive-IsI64 (read_number (b ∷ bs)) t (ground (arith, e, other, digit))
  ]
]

-- What is read lies in the range of the type.
pub parse_i64-IsI64 : (s : String) (t : ℤ) → parse_i64 s ≡ some t → IsI64 t
unfolding parse_i64
parse_i64-IsI64 s = parse_bytes-IsI64 (as_bytes s)
