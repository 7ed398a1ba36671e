-- ===== src/Common/Set.antt =====
-- `HashSet` as a list without repeats.
use Prim.Native.Nat.{ℕ, suc, ◌≤◌, ◌<◌}
use mathlib.Core.Logic.{inl, inr}
use mathlib.Core.Path.{ap, ◌≡◌, refl}
use mathlib.Core.Bool.{Bool, true, false, ◌||◌, not, ◌&&◌}
use mathlib.Core.List.{List, [], ◌∷◌, ◌++◌}
use native.Mathlib.Omega.{arith}
use cli_agent.Common.Tests.{Bool-cases, if◌then◌else◌}
use cli_agent.Common.Equality.{eq_of_==, Eq, ◌==◌}
use cli_agent.Common.Lists.{length}

module _ {ℓ} {A : Type ℓ} ⦃e : Eq A⦄ where
  unfoldable pub contains : A → List A → Bool
  contains a [] = false
  contains a (x ∷ xs) = x == a || contains a xs

  unfoldable pub insert : A → List A → List A
  insert a xs = if contains a xs then xs else a ∷ xs

  unfoldable pub remove : A → List A → List A
  remove a [] = []
  remove a (x ∷ xs) = let rest = remove a xs in if x == a then rest else x ∷ rest

  pub contains-insert :
      (a b : A) (xs : List A) → contains b (insert a xs) ≡ (a == b || contains b xs)
  unfolding contains insert
  contains-insert a b xs = ground (arith, e.decides a b)

  pub contains-remove :
      (a b : A) (xs : List A) → contains b (remove a xs) ≡ (not (a == b) && contains b xs)
  unfolding contains remove
  contains-remove a b [] = ground arith
  contains-remove a b (x ∷ xs) =
      ground (arith, e.decides a b, e.decides x a, e.decides x b, contains-remove a b xs)

  pub remove_absent : (a : A) (xs : List A) → contains a xs ≡ false → remove a xs ≡ xs
  unfolding contains remove
  remove_absent a [] h = refl
  remove_absent a (x ∷ xs) h = ground (arith, remove_absent a xs)

  pub length-remove-le : (a : A) (xs : List A) → length (remove a xs) ≤ length xs
  unfolding remove
  length-remove-le a [] = omega arith
  length-remove-le a (x ∷ xs) = ground (arith, length-remove-le a xs)

  pub contains-append :
      (a : A) (xs ys : List A) → contains a (xs ++ ys) ≡ (contains a xs || contains a ys)
  unfolding contains
  contains-append a [] ys = refl
  contains-append a (x ∷ xs) ys = ground (arith, contains-append a xs ys)

  -- How many of the listed values are not in the set.
  pub fresh : List A → List A → ℕ
  fresh xs [] = 0
  fresh xs (a ∷ rest) = let n = fresh xs rest in if contains a xs then n else suc n

  pub fresh-le-length : (xs ks : List A) → fresh xs ks ≤ length ks
  unfolding fresh
  fresh-le-length xs [] = omega arith
  fresh-le-length xs (a ∷ rest) = ground (arith, fresh-le-length xs rest)

  pub fresh-insert-le : (k : A) (xs ks : List A) → fresh (insert k xs) ks ≤ fresh xs ks
  unfolding fresh
  fresh-insert-le k xs [] = omega arith
  fresh-insert-le k xs (a ∷ rest) =
      ground (arith, contains-insert k a xs, fresh-insert-le k xs rest)

  pub fresh-insert-lt :
      (k : A) (xs ks : List A)
      → contains k xs ≡ false
      → contains k ks ≡ true
      → fresh (insert k xs) ks < fresh xs ks
  unfolding fresh contains
  fresh-insert-lt k xs [] h m = cc
  fresh-insert-lt k xs (a ∷ rest) h m = ground (
    arith,
    contains-insert k a xs,
    e.decides k a,
    e.decides a k,
    fresh-insert-le k xs rest,
    fresh-insert-lt k xs rest,
  )

  -- No value stands twice.
  abbrev pub Distinct : List A → Type 0
  Distinct [] = Unit
  Distinct (x ∷ xs) = (contains x xs ≡ false) × Distinct xs

  pub Distinct-insert : (a : A) (xs : List A) → Distinct xs → Distinct (insert a xs)
  unfolding insert
  Distinct-insert a xs d = elim (Bool-cases (contains a xs)) [
    | inl old ↦ rw old d
    | inr new ↦ rw new (new, d)
  ]

  pub Distinct-remove : (a : A) (xs : List A) → Distinct xs → Distinct (remove a xs)
  unfolding remove
  Distinct-remove a [] d = tt
  Distinct-remove a (x ∷ xs) (absent, d) = elim (Bool-cases (x == a)) [
    | inl same ↦ rw same (Distinct-remove a xs d)
    | inr other ↦ rw other (ground (arith, contains-remove a x xs, absent), Distinct-remove a xs d)
  ]

  pub Distinct-append :
      (a : A) (xs : List A) → Distinct xs → contains a xs ≡ false → Distinct (xs ++ a ∷ [])
  unfolding contains
  Distinct-append a [] d h = (refl, tt)
  Distinct-append a (x ∷ xs) (absent, d) h = (
    ground (arith, contains-append x xs (a ∷ []), absent, h, e.decides a x, e.decides x a),
    Distinct-append a xs d (ground (arith, h)),
  )

  pub length-insert_new :
      (a : A) (xs : List A) → contains a xs ≡ false → length (insert a xs) ≡ suc (length xs)
  unfolding insert
  length-insert_new a xs h = rw h

  pub length-insert-le : (a : A) (xs : List A) → length (insert a xs) ≤ suc (length xs)
  unfolding insert
  length-insert-le a xs = ground arith

  pub length-remove_member :
      (a : A) (xs : List A)
      → Distinct xs
      → contains a xs ≡ true
      → suc (length (remove a xs)) ≡ length xs
  unfolding contains remove
  length-remove_member a [] d h = cc
  length-remove_member a (x ∷ xs) (absent, d) h = elim (Bool-cases (x == a)) [
    | inl same ↦ rw (same, remove_absent a xs (rw (← eq_of_== x a same) absent))
    | inr other ↦ rw other (ap suc (length-remove_member a xs d (ground (arith, h, other))))
  ]
