-- ===== src/Common/Sort.antt =====
-- `sort_by` with a Boolean comparison: insertion, which is stable as the source's sort is.
use cli_agent.Common.Tests.{if◌then◌else◌}
use cli_agent.Common.Lists.{All}
use mathlib.Core.Bool.{Bool, true, false}
use mathlib.Core.List.{List, [], ◌∷◌}

module _ {ℓ} {A : Type ℓ} (le : A → A → Bool) where
  -- In front of equal values: `sort_by` inserts from the end of the list.
  unfoldable pub insert_sorted : A → List A → List A
  insert_sorted a [] = a ∷ []
  insert_sorted a (x ∷ xs) = if le a x then a ∷ x ∷ xs else x ∷ insert_sorted a xs

  unfoldable pub sort_by : List A → List A
  unfolding insert_sorted
  sort_by [] = []
  sort_by (x ∷ xs) = insert_sorted x (sort_by xs)

  insert_sorted-All {κ} :
      (P : A → Type κ) (a : A) (xs : List A) → P a → All P xs → All P (insert_sorted a xs)
  unfolding insert_sorted
  insert_sorted-All P a [] p h = (p, tt)
  insert_sorted-All P a (x ∷ xs) p (q, h) =
      elim (le a x) as (λ b. All P (if b then a ∷ x ∷ xs else x ∷ insert_sorted a xs)) [
        | true ↦ (p, (q, h))
        | false ↦ (q, insert_sorted-All P a xs p h)
      ]

  -- Sorting invents no element.
  pub sort_by-All {κ} : (P : A → Type κ) (xs : List A) → All P xs → All P (sort_by xs)
  unfolding sort_by
  sort_by-All P [] h = tt
  sort_by-All P (x ∷ xs) (p, h) = insert_sorted-All P x (sort_by xs) p (sort_by-All P xs h)
