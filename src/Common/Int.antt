-- ===== src/Common/Int.antt =====
-- Signed integers over the native numbers, under the library's names, and the arithmetic of `i64`
-- where overflow is not checked, which is the release profile.
use Prim.Native.Nat.{ℕ, suc, ◌+◌, ◌-◌, ◌≤◌, ◌<◌}
use mathlib.Core.Path.{◌≡◌}
use mathlib.Core.Logic.{◌⊎◌, inl, inr}
use mathlib.Core.Bool.{Bool}
use native.Mathlib.Omega.{arith}
use native.Mathlib.Decide.{dec_le}
use cli_agent.Common.Tests.{ltb, leb, if◌then◌else◌}

-- `negsuc n` is -(n + 1).
pub data ℤ : Type 0 where
  pos : ℕ → ℤ
  negsuc : ℕ → ℤ

abbrev pub pos_part : ℤ → ℕ
pos_part (pos n) = n
pos_part (negsuc n) = 0

abbrev pub neg_part : ℤ → ℕ
neg_part (pos n) = 0
neg_part (negsuc n) = suc n

-- a - b, as an integer.
abbrev pub sub_ℕ : ℕ → ℕ → ℤ
sub_ℕ a b = if leb b a then pos (a - b) else negsuc (b - a - 1)

abbrev pub leb_ℤ : ℤ → ℤ → Bool
leb_ℤ a b = leb (pos_part a + neg_part b) (pos_part b + neg_part a)

abbrev pub ltb_ℤ : ℤ → ℤ → Bool
ltb_ℤ a b = ltb (pos_part a + neg_part b) (pos_part b + neg_part a)

-- 2 ^ 63 and 2 ^ 64
abbrev pub half : ℕ
half = 9223372036854775808

abbrev pub whole : ℕ
whole = 18446744073709551616

-- The `i64` that a sum or difference of two `i64` wraps around to.
unfoldable pub wrap64 : ℤ → ℤ
wrap64 (pos n) = if ltb n half then pos n else sub_ℕ n whole
wrap64 (negsuc n) = if ltb n half then negsuc n else sub_ℕ whole (suc n)

infixl 65 ◌-i64◌ ◌+i64◌
unfoldable pub ◌+i64◌ : ℤ → ℤ → ℤ
unfolding wrap64
a +i64 b = wrap64 (sub_ℕ (pos_part a + pos_part b) (neg_part a + neg_part b))

unfoldable pub ◌-i64◌ : ℤ → ℤ → ℤ
unfolding wrap64
a -i64 b = wrap64 (sub_ℕ (pos_part a + neg_part b) (neg_part a + pos_part b))

-- `i64::abs`, which gives the least integer back as it is.
unfoldable pub abs_i64 : ℤ → ℤ
abs_i64 (pos n) = pos n
abs_i64 (negsuc n) = if ltb (suc n) half then pos (suc n) else negsuc n

unfoldable pub IsI64 : ℤ → Type 0
IsI64 a = (pos_part a < half) × (neg_part a ≤ half)

-- A distance of at most `d`, or the one that wraps around to the least integer.
pub abs-sub_cases :
    (n d : ℕ) (t : ℤ)
    → IsI64 t
    → n < 4611686018427387904
    → d < 2305843009213693952
    → ltb_ℤ (pos d) (abs_i64 (pos n -i64 t)) ≡ Bool.false
    → ((n ≤ d + pos_part t) × (pos_part t ≤ n + d) × (neg_part t ≤ d)) ⊎ (n + neg_part t ≡ half)
unfolding ◌-i64◌ abs_i64 IsI64
abs-sub_cases n d (pos t) fits hn hd h =
    inl (ground (arith, fits), ground (arith, fits), ground arith)
abs-sub_cases n d (negsuc t) fits hn hd h = elim (dec_le (n + suc t) half) [
  | no far ↦ absurd (ground (arith, fits, far))
  | yes near ↦ elim (dec_le half (n + suc t)) [
    | yes e ↦ inr (omega arith)
    | no ne ↦ inl (ground (arith, fits, ne), omega arith, ground (arith, fits, ne))
  ]
]

double_i64 : (d : ℕ) → d < 2305843009213693952 → pos d +i64 pos d ≡ pos (d + d)
unfolding ◌+i64◌
double_i64 d h = ground arith

sub-leb_i64 :
    (now m n : ℕ)
    → now < 4611686018427387904
    → m < 4611686018427387904
    → now ≤ n + m
    → leb_ℤ (pos now -i64 pos m) (pos n) ≡ Bool.true
unfolding ◌-i64◌
sub-leb_i64 now m n hnow hm h = elim (dec_le m now) [
  | yes above ↦ ground (arith, above)
  | no below ↦ ground (arith, below)
]

-- `now - 2 * d` is at most `n`, in the arithmetic of `i64`.
pub sub-double-leb_i64 :
    (now d n : ℕ)
    → now < 4611686018427387904
    → d < 2305843009213693952
    → now ≤ n + d + d
    → leb_ℤ (pos now -i64 (pos d +i64 pos d)) (pos n) ≡ Bool.true
sub-double-leb_i64 now d n hnow hd h =
    rw (double_i64 d hd) (sub-leb_i64 now (d + d) n hnow (omega arith) (omega arith))
