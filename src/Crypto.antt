-- ===== src/Crypto.antt =====
-- src/crypto.rs: the comparison of signatures and their hexadecimal form. The hash function behind
-- `hmac_sha256_hex` is a parameter where it is used.
use cli_agent.Common.{
  ℕ, zero, suc, ◌+◌, ◌*◌, ◌/◌, ◌%◌, ◌^◌, ◌<◌, max, String, inl, inr, ◌≡◌, refl, ap, ◌↔◌, Bool, true,
  false, Option, none, some, List, [], ◌∷◌, arith, if◌then◌else◌, Bool-cases, ◌==◌, eq_of_==,
  nat_eq, length, All,
}
use Prim.Native.String

-- `^` on numbers of `w` bits
unfoldable pub xor : ℕ → ℕ → ℕ → ℕ
xor zero a b = 0
xor (suc w) a b = (a % 2 + b % 2) % 2 + 2 * xor w (a / 2) (b / 2)

-- `|` on numbers of `w` bits
unfoldable pub or : ℕ → ℕ → ℕ → ℕ
or zero a b = 0
or (suc w) a b = max (a % 2) (b % 2) + 2 * or w (a / 2) (b / 2)

-- The loop of `constant_time_eq`.
unfoldable pub difference : ℕ → List ℕ → List ℕ → ℕ
difference diff [] ys = diff
difference diff (x ∷ xs) [] = diff
difference diff (x ∷ xs) (y ∷ ys) = difference (or 8 diff (xor 8 x y)) xs ys

unfoldable pub constant_time_eq : List ℕ → List ℕ → Bool
unfolding difference
constant_time_eq a b = if length a == length b then difference 0 a b == 0 else false

-- One character of a text, as a text.
unfoldable pub char_at : ℕ → String → String
char_at n String.[] = ""
char_at zero (String.◌∷◌ c s) = String.◌∷◌ c ""
char_at (suc n) (String.◌∷◌ c s) = char_at n s

-- `{:02x}`
unfoldable pub hex_byte : ℕ → String
unfolding char_at
hex_byte b = String.◌++◌ (char_at (b / 16) "0123456789abcdef") (char_at (b % 16) "0123456789abcdef")

unfoldable pub to_hex : List ℕ → String
unfolding hex_byte
to_hex [] = ""
to_hex (b ∷ bs) = String.◌++◌ (hex_byte b) (to_hex bs)

-- `hmac` gives the digest of a secret and a message, or nothing where it refuses the secret.
unfoldable pub hmac_sha256_hex :
    (List ℕ → List ℕ → Option (List ℕ)) → List ℕ → List ℕ → Option String
unfolding to_hex
hmac_sha256_hex hmac secret message = elim (hmac secret message) [
  | none ↦ none
  | some digest ↦ some (to_hex digest)
]

xor-lt : (w a b : ℕ) → xor w a b < 2 ^ w
unfolding xor
xor-lt zero a b = omega arith
xor-lt (suc w) a b = omega (arith, xor-lt w (a / 2) (b / 2))

or-lt : (w a b : ℕ) → or w a b < 2 ^ w
unfolding or
or-lt zero a b = omega arith
or-lt (suc w) a b = omega (arith, or-lt w (a / 2) (b / 2))

xor_self : (w a : ℕ) → xor w a a ≡ 0
unfolding xor
xor_self zero a = refl
xor_self (suc w) a = omega (arith, xor_self w (a / 2))

eq_of_xor : (w a b : ℕ) → a < 2 ^ w → b < 2 ^ w → xor w a b ≡ 0 → a ≡ b
unfolding xor
eq_of_xor zero a b ha hb h = omega arith
eq_of_xor (suc w) a b ha hb h =
    omega (arith, eq_of_xor w (a / 2) (b / 2) (omega arith) (omega arith) (omega arith))

or_none : (w : ℕ) → or w 0 0 ≡ 0
unfolding or
or_none zero = refl
or_none (suc w) = omega (arith, or_none w)

zero_of_or : (w a b : ℕ) → a < 2 ^ w → b < 2 ^ w → or w a b ≡ 0 → (a ≡ 0) × (b ≡ 0)
unfolding or
zero_of_or zero a b ha hb h = (omega arith, omega arith)
zero_of_or (suc w) a b ha hb h =
    let (x, y) = zero_of_or w (a / 2) (b / 2) (omega arith) (omega arith) (omega arith) in
    (omega arith, omega arith)

abbrev pub AreBytes : List ℕ → Type 0
AreBytes bs = All (λ b. b < 256) bs

difference_iff :
    (diff : ℕ) (xs ys : List ℕ)
    → diff < 256
    → AreBytes xs
    → AreBytes ys
    → length xs ≡ length ys
    → (difference diff xs ys ≡ 0) ↔ ((diff ≡ 0) × (xs ≡ ys))
unfolding difference
difference_iff diff [] [] hd hx hy l = (λ e. (e, refl), λ h. h.0)
difference_iff diff [] (y ∷ ys) hd hx hy l = absurd (omega arith)
difference_iff diff (x ∷ xs) [] hd hx hy l = absurd (omega arith)
difference_iff diff (x ∷ xs) (y ∷ ys) hd hx hy l =
    let ih =
      difference_iff (or 8 diff (xor 8 x y)) xs ys (or-lt 8 diff (xor 8 x y)) hx.1 hy.1
        (omega arith) in
    (
      λ e.
          let (z, same) = ih.0 e in
          let (d, x_y) = zero_of_or 8 diff (xor 8 x y) hd (xor-lt 8 x y) z in
          (d, cc (eq_of_xor 8 x y hx.0 hy.0 x_y, same)),
      λ h. ih.1 (cc (h.0, h.1, xor_self 8 x, or_none 8), cc (h.1)),
    )

-- On bytes the comparison in constant time decides equality, lengths included.
pub constant_time_eq_iff :
    (a b : List ℕ) → AreBytes a → AreBytes b → (constant_time_eq a b ≡ true) ↔ (a ≡ b)
unfolding constant_time_eq
constant_time_eq_iff a b ha hb = elim (Bool-cases (length a == length b)) [
  | inl same ↦
      let d = difference_iff 0 a b (omega arith) ha hb (eq_of_== (length a) (length b) same) in
      (λ e. (d.0 (ground (arith, e, same))).1, λ e. ground (arith, same, d.1 (refl, e)))
  | inr differ ↦ (λ e. ground (arith, e, differ), λ e. absurd (ground (arith, differ, ap length e)))
]
