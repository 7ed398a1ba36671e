-- ===== src/Common/Map.antt =====
-- `HashMap` and `DashMap` as association lists: the list is one order in which the source may
-- visit the entries.
use mathlib.Core.Path.{ap, ◌≡◌, refl}
use mathlib.Core.Bool.{Bool, true, false}
use mathlib.Core.Option
use mathlib.Core.Option.{Option, none, some}
use mathlib.Core.List.{List, [], ◌∷◌, map}
use native.Mathlib.Omega.{arith}
use Prim.Native.Nat.{suc}
use cli_agent.Common.Set
use cli_agent.Common.Tests.{if◌then◌else◌, Bool-cases}
use mathlib.Core.Logic.{inl, inr}
use cli_agent.Common.Equality.{Eq, ◌==◌}
use cli_agent.Common.Lists.{length}

abbrev pub Map {ℓ κ} : Type ℓ → Type κ → Type (ℓ ⊔ κ)
Map K V = List (K × V)

module _ {ℓ κ} {K : Type ℓ} {V : Type κ} where
  abbrev pub keys : Map K V → List K
  keys m = map (λ kv. kv.0) m

  abbrev pub values : Map K V → List V
  values m = map (λ kv. kv.1) m

abbrev is_some {ℓ} : {A : Type ℓ} → Option A → Bool
is_some none = false
is_some (some a) = true

module _ {ℓ κ} {K : Type ℓ} {V : Type κ} ⦃e : Eq K⦄ where
  unfoldable pub get : K → Map K V → Option V
  get k [] = none
  get k ((j, v) ∷ m) = if j == k then some v else get k m

  unfoldable pub insert : K → V → Map K V → Map K V
  insert k v [] = (k, v) ∷ []
  insert k v ((j, w) ∷ m) = if j == k then (j, v) ∷ m else (j, w) ∷ insert k v m

  unfoldable pub remove : K → Map K V → Map K V
  remove k [] = []
  remove k ((j, w) ∷ m) = let rest = remove k m in if j == k then rest else (j, w) ∷ rest

  -- A write through `get_mut`: nothing happens where the key is missing.
  unfoldable pub modify : K → (V → V) → Map K V → Map K V
  modify k f [] = []
  modify k f ((j, w) ∷ m) = if j == k then (j, f w) ∷ m else (j, w) ∷ modify k f m

  abbrev pub contains_key : K → Map K V → Bool
  contains_key k m = is_some (get k m)

  abbrev pub get_or : K → V → Map K V → V
  get_or k d m = elim (get k m) [ none ↦ d | some v ↦ v ]

  pub get-insert :
      (k j : K) (v : V) (m : Map K V) → get j (insert k v m) ≡ (if k == j then some v else get j m)
  unfolding get insert
  get-insert k j v [] = refl
  get-insert k j v ((i, w) ∷ m) =
      ground (arith, e.decides k j, e.decides i k, e.decides i j, get-insert k j v m)

  pub get-remove : (k j : K) (m : Map K V) → get j (remove k m) ≡ (if k == j then none else get j m)
  unfolding get remove
  get-remove k j [] = ground arith
  get-remove k j ((i, w) ∷ m) =
      ground (arith, e.decides k j, e.decides i k, e.decides i j, get-remove k j m)

  pub get-modify :
      (k j : K) (f : V → V) (m : Map K V)
      → get j (modify k f m) ≡ (if k == j then Option.map f (get j m) else get j m)
  unfolding get modify
  get-modify k j f [] = ground arith
  get-modify k j f ((i, w) ∷ m) =
      ground (arith, e.decides k j, e.decides i k, e.decides i j, get-modify k j f m)

  pub keys-modify : (k : K) (f : V → V) (m : Map K V) → keys (modify k f m) ≡ keys m
  unfolding modify
  keys-modify k f [] = refl
  keys-modify k f ((i, w) ∷ m) = ground (arith, keys-modify k f m)

  pub length-modify : (k : K) (f : V → V) (m : Map K V) → length (modify k f m) ≡ length m
  unfolding modify
  length-modify k f [] = refl
  length-modify k f ((i, w) ∷ m) = ground (arith, length-modify k f m)

  pub contains-keys : (k : K) (m : Map K V) → Set.contains k (keys m) ≡ contains_key k m
  unfolding get Set.contains
  contains-keys k [] = refl
  contains-keys k ((j, w) ∷ m) = ground (arith, contains-keys k m)

  pub length-keys : (m : Map K V) → length (keys m) ≡ length m
  length-keys [] = refl
  length-keys ((j, w) ∷ m) = ap suc (length-keys m)

  -- `retain` on the values.
  unfoldable pub retain : (V → Bool) → Map K V → Map K V
  retain p [] = []
  retain p ((j, w) ∷ m) = let rest = retain p m in if p w then (j, w) ∷ rest else rest

  pub get-retain :
      (p : V → Bool) (k : K) (v : V) (m : Map K V)
      → get k m ≡ some v
      → p v ≡ true
      → get k (retain p m) ≡ some v
  unfolding retain get
  get-retain p k v [] h good = cc
  get-retain p k v ((j, w) ∷ m) h good = elim (Bool-cases (j == k)) [
    | inl same ↦ ground (arith, h, same, good)
    | inr other ↦ ground (arith, get-retain p k v m, h, other, good)
  ]
