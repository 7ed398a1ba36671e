-- ===== src/Subtasks/Marks.antt =====
-- The marks of the search for a cycle, and the neighbours that a plan gives.
use cli_agent.Common.{
  ℕ, zero, suc, ◌<◌, String, string_eq, ◌≡◌, refl, sym, ap, subst, ◌∙◌, Bool, true, false, ◌&&◌,
  none, some, List, [], ◌∷◌, filter, length, if◌then◌else◌, ◌==◌, eq_of_==, ==_refl, arith, inl,
  inr, ◌⊎◌, Bool-cases,
}
use cli_agent.Common.Map
use cli_agent.Common.Map.{Map}
use cli_agent.Common.Set
use cli_agent.Types.{SubtaskDefinition}
use cli_agent.Subtasks.{
  Mark, pending, visiting, done, nth, neighbours, adjacency, inner_dependencies, subtask_ids,
}

abbrev pub mark_of : String → Map String Mark → Mark
mark_of id state = Map.get_or id pending state

abbrev pub is_unvisited : Mark → Bool
is_unvisited pending = true
is_unvisited _ = false

pub mark_of-insert :
    (id other : String) (m : Mark) (state : Map String Mark)
    → mark_of other (Map.insert id m state) ≡ (if id == other then m else mark_of other state)
mark_of-insert id other m state = ground (arith, Map.get-insert id other m state)

pub mark_of-insert_self :
    (id : String) (m : Mark) (state : Map String Mark) → mark_of id (Map.insert id m state) ≡ m
mark_of-insert_self id m state = ground (arith, mark_of-insert id id m state, ==_refl id)

pub mark_of-insert_other :
    (id other : String) (m : Mark) (state : Map String Mark)
    → (id == other) ≡ false
    → mark_of other (Map.insert id m state) ≡ mark_of other state
mark_of-insert_other id other m state h = mark_of-insert id other m state ∙ (rw h)

pub Mark-cases : (m : Mark) → (m ≡ pending) ⊎ (m ≡ visiting) ⊎ (m ≡ done)
Mark-cases pending = inl refl
Mark-cases visiting = inr (inl refl)
Mark-cases done = inr (inr refl)

pub nth-lt : (idx : ℕ) (xs : List String) (x : String) → nth idx xs ≡ some x → idx < length xs
unfolding nth
nth-lt zero [] x e = cc
nth-lt (suc idx) [] x e = cc
nth-lt zero (y ∷ xs) x e = omega arith
nth-lt (suc idx) (y ∷ xs) x e = omega (arith, nth-lt idx xs x e)

pub contains-nth :
    (idx : ℕ) (xs : List String) (x : String) → nth idx xs ≡ some x → Set.contains x xs ≡ true
unfolding nth Set.contains
contains-nth zero [] x e = cc
contains-nth (suc idx) [] x e = cc
contains-nth zero (y ∷ xs) x e = ground (arith, e, ==_refl x)
contains-nth (suc idx) (y ∷ xs) x e = ground (arith, contains-nth idx xs x e)

pub nth-contains :
    (xs : List String) (x : String) → Set.contains x xs ≡ true → (i : ℕ) × (nth i xs ≡ some x)
unfolding nth Set.contains
nth-contains [] x c = cc
nth-contains (y ∷ xs) x c = elim (Bool-cases (y == x)) [
  | inl same ↦ (0, ap (λ z. some z) (eq_of_== y x same))
  | inr other ↦ let (i, e) = nth-contains xs x (ground (arith, c, other)) in (suc i, e)
]

-- An index at which there is something is below one at which there is nothing.
pub nth-none-lt :
    (idx i : ℕ) (xs : List String) (x : String) → nth idx xs ≡ none → nth i xs ≡ some x → i < idx
unfolding nth
nth-none-lt idx i [] x h e = cc
nth-none-lt zero i (y ∷ xs) x h e = cc
nth-none-lt (suc idx) zero (y ∷ xs) x h e = omega arith
nth-none-lt (suc idx) (suc i) (y ∷ xs) x h e = omega (arith, nth-none-lt idx i xs x h e)

-- The neighbours of nodes are nodes.
abbrev pub IsClosed : Map String (List String) → List String → Type 0
IsClosed adj ids =
    (x d : String) → Set.contains d (neighbours adj x) ≡ true → Set.contains d ids ≡ true

pub keys-adjacency :
    (known : List String) (subtasks : List SubtaskDefinition)
    → Map.keys (adjacency known subtasks) ≡ subtask_ids subtasks
unfolding adjacency
keys-adjacency known [] = refl
keys-adjacency known (s ∷ rest) = ap (λ ids. s.id ∷ ids) (keys-adjacency known rest)

pub contains-inner_dependencies :
    (known deps : List String) (d : String)
    → Set.contains d (filter (λ x. Set.contains x known) deps)
      ≡ (Set.contains d deps && Set.contains d known)
unfolding Set.contains
contains-inner_dependencies known [] d = refl
contains-inner_dependencies known (x ∷ deps) d = elim (Bool-cases (x == d)) [
  | inl same ↦ ground (
    arith,
    contains-inner_dependencies known deps d,
    same,
    ap (λ y. Set.contains y known) (eq_of_== x d same),
    ==_refl d,
  )
  | inr other ↦ ground (arith, contains-inner_dependencies known deps d, other)
]

pub neighbours-adjacency :
    (known : List String) (s : SubtaskDefinition) (rest : List SubtaskDefinition) (x : String)
    → neighbours (adjacency known (s ∷ rest)) x
      ≡ (if s.id == x then inner_dependencies known s else neighbours (adjacency known rest) x)
unfolding adjacency Map.get
neighbours-adjacency known s rest x = ground arith

and_right : (a b : Bool) → (a && b) ≡ true → b ≡ true
and_right a b h = ground (arith, h)

pub adjacency-known :
    (known : List String) (subtasks : List SubtaskDefinition) (x d : String)
    → Set.contains d (neighbours (adjacency known subtasks) x) ≡ true
    → Set.contains d known ≡ true
unfolding adjacency Map.get Set.contains
adjacency-known known [] x d h = cc
adjacency-known known (s ∷ rest) x d h = elim (Bool-cases (s.id == x)) [
  | inl e ↦ and_right _ _ (
      sym (contains-inner_dependencies known s.dependencies d)
      ∙ subst (λ ds. Set.contains d ds ≡ true) (neighbours-adjacency known s rest x ∙ rw e) h)
  | inr o ↦
      adjacency-known known rest x d
        (subst (λ ds. Set.contains d ds ≡ true) (neighbours-adjacency known s rest x ∙ rw o) h)
]

pub adjacency-IsClosed :
    (subtasks : List SubtaskDefinition)
    → IsClosed (adjacency (subtask_ids subtasks) subtasks) (subtask_ids subtasks)
adjacency-IsClosed subtasks x d h = adjacency-known (subtask_ids subtasks) subtasks x d h
