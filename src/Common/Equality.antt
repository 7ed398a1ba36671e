-- ===== src/Common/Equality.antt =====
-- Boolean equality as an interface, `PartialEq` of the source: its instances for texts, numbers and
-- enums, and the laws that hold of all of them.
use Prim.Native.Nat.{ℕ, compare, Ordering}
use Prim.Native.String.{String}
use mathlib.Core.Path.{◌≡◌, refl}
use mathlib.Core.Logic.{◌↔◌}
use mathlib.Core.Bool.{Bool, true, false, false≢true}
use native.Mathlib.Omega.{arith}
use text.Mathlib.Text.{◌==◌ as text_equal}
use text.Mathlib.TextEquality.{eq_iff}

-- A test and the proof that it decides the paths of the type.
pub record Eq {ℓ} (K : Type ℓ) : Type ℓ where
  pub equal : K → K → Bool
  pub decides : (k l : K) → (equal k l ≡ true) ↔ (k ≡ l)

-- `#[derive(PartialEq)]` on an enum.
abbrev pub is_yes {ℓ} : {K : Type ℓ} → Dec K → Bool
is_yes (yes k) = true
is_yes (no n) = false

pub is_yes_iff {ℓ} : {K : Type ℓ} (d : Dec K) → (is_yes d ≡ true) ↔ K
is_yes_iff (yes k) = (λ _. k, λ _. refl)
is_yes_iff (no n) = (λ e. absurd (false≢true e), λ k. absurd (n k))

abbrev pub derive_eq {ℓ} : {K : Type ℓ} → Discrete K → Eq K
derive_eq d = record { equal = λ k l. is_yes (d k l); decides = λ k l. is_yes_iff (d k l) }

abbrev pub same_number : ℕ → ℕ → Bool
same_number m n = elim (compare m n) [ Ordering.eq ↦ true | _ ↦ false ]

pub same_number_iff : (m n : ℕ) → (same_number m n ≡ true) ↔ (m ≡ n)
same_number_iff m n = ground arith

instance abbrev pub string_eq : Eq String
string_eq = record { equal = text_equal; decides = eq_iff }

instance abbrev pub nat_eq : Eq ℕ
nat_eq = record { equal = same_number; decides = same_number_iff }

infix 50 ◌==◌
abbrev pub ◌==◌ {ℓ} : {K : Type ℓ} ⦃d : Eq K⦄ → K → K → Bool
◌==◌ ⦃d⦄ = d.equal

module _ {ℓ} {K : Type ℓ} ⦃d : Eq K⦄ where
  pub ==_refl : (k : K) → (k == k) ≡ true
  ==_refl k = (d.decides k k).1 refl

  pub eq_of_== : (k l : K) → (k == l) ≡ true → k ≡ l
  eq_of_== k l = (d.decides k l).0

  pub ==_comm : (k l : K) → (k == l) ≡ (l == k)
  ==_comm k l = ground (arith, d.decides k l, d.decides l k)
