-- ===== src/Subtasks/Starts.antt =====
-- The loop over the starts of the search: one that ends without a cycle ranks all nodes.
use cli_agent.Common.{
  ℕ, ◌<◌, String, string_eq, ◌≡◌, ◌≢◌, refl, sym, ap, subst, ◌∙◌, true, Option, none, some, List,
  [], ◌∷◌, ◌==◌, eq_of_==, arith, inl, inr, Bool-cases,
}
use mathlib.Core.Bool.{false≢true}
use cli_agent.Common.Map
use cli_agent.Common.Map.{Map}
use cli_agent.Common.Set
use cli_agent.Subtasks.Marks.{mark_of, mark_of-insert_self, Mark-cases}
use cli_agent.Subtasks.{
  Mark, pending, visiting, done, SearchEnd, finished, cyclic, neighbours, search, go_on, search_all,
  all_pending, find_cycle,
}
use cli_agent.Subtasks.Frames.{
  Advances, Advances-insert, done-ne-pending, visiting-ne-pending, HasRank, Ranking-visit,
  OnStack-start,
}
use cli_agent.Subtasks.Search.{IsKept, Keeps, search-Keeps}

module _ (adj : Map String (List String)) where
  -- The same of the loop over the starts, none of which is left pending.
  abbrev Finds : List String → Map String Mark → Option SearchEnd → Type 0
  Finds starts state none = Unit
  Finds starts state (some (cyclic id)) = Unit
  Finds starts state (some (finished later)) =
      IsKept adj [] later
      × Advances state later
      × ((x : String) → Set.contains x starts ≡ true → mark_of x later ≢ pending)

  Finds-cons :
      (start : String) (starts : List String) (state later : Map String Mark) (r : Option SearchEnd)
      → Advances state later
      → mark_of start later ≢ pending
      → Finds starts later r
      → Finds (start ∷ starts) state r
  unfolding Set.contains
  Finds-cons start starts state later none a n f = tt
  Finds-cons start starts state later (some (cyclic id)) a n f = tt
  Finds-cons start starts state later (some (finished end)) a n (k, a', all) =
      (k, (λ x e. a x (a' x e)), visited)
    where
      visited : (x : String) → Set.contains x (start ∷ starts) ≡ true → mark_of x end ≢ pending
      visited x c e = elim (Bool-cases (start == x)) [
        | inl same ↦ n (ap (λ y. mark_of y later) (eq_of_== start x same) ∙ a' x e)
        | inr other ↦ all x (ground (arith, c, other)) e
      ]

  IsKept-start :
      (start : String) (state : Map String Mark)
      → mark_of start state ≡ pending
      → IsKept adj [] state
      → IsKept adj ((start, 0) ∷ []) (Map.insert start visiting state)
  unfolding Set.contains
  IsKept-start start state p k = record {
    ranking = Ranking-visit adj start state p k.ranking;
    frames =
        (mark_of-insert_self start visiting state, (λ i d lt at. absurd (omega arith)), refl, tt);
    on_stack = OnStack-start start state k.on_stack;
  }

  go_on-Finds :
      (start : String) (starts : List String) (state entered : Map String Mark)
      (next : Map String Mark → Option SearchEnd) (r : Option SearchEnd)
      → Advances state entered
      → mark_of start entered ≢ pending
      → Keeps adj entered r
      → ((later : Map String Mark) → IsKept adj [] later → Finds starts later (next later))
      → Finds (start ∷ starts) state (go_on adj next r)
  go_on-Finds start starts state entered next none a n k f = tt
  go_on-Finds start starts state entered next (some (cyclic id)) a n k f = tt
  go_on-Finds start starts state entered next (some (finished later)) a n (k, a') f =
      Finds-cons start starts state later (next later) (λ x e. a x (a' x e)) (λ e. n (a' start e))
        (f later k)

  search_all-Finds :
      (fuel : ℕ) (starts : List String) (state : Map String Mark)
      → IsKept adj [] state
      → Finds starts state (search_all adj fuel starts state)
  unfolding search_all Set.contains
  search_all-Finds fuel [] state k = (k, (λ x e. e), λ x c. cc c)
  search_all-Finds fuel (start ∷ starts) state k = elim (Mark-cases (mark_of start state)) [
    | inl p ↦
        rw (p, search_all)
          (go_on-Finds start starts state (Map.insert start visiting state)
            (search_all adj fuel starts)
            (search adj fuel ((start, 0) ∷ []) (Map.insert start visiting state))
            (Advances-insert start visiting state visiting-ne-pending)
            (λ e. visiting-ne-pending (sym (mark_of-insert_self start visiting state) ∙ e))
            (search-Keeps adj fuel ((start, 0) ∷ []) (Map.insert start visiting state)
              (IsKept-start start state p k))
            (λ later k'. search_all-Finds fuel starts later k'))
    | inr (inl v) ↦
        rw (v, search_all)
          (Finds-cons start starts state state _ (λ x e. e) (λ e. visiting-ne-pending (sym v ∙ e))
            (search_all-Finds fuel starts state k))
    | inr (inr d) ↦
        rw (d, search_all)
          (Finds-cons start starts state state _ (λ x e. e) (λ e. done-ne-pending (sym d ∙ e))
            (search_all-Finds fuel starts state k))
  ]

pub mark_of-all_pending : (ids : List String) (x : String) → mark_of x (all_pending ids) ≡ pending
unfolding Map.get
mark_of-all_pending [] x = refl
mark_of-all_pending (id ∷ ids) x = ground (arith, mark_of-all_pending ids x)

-- Every node stands above its neighbours.
abbrev pub Ranks : (String → ℕ) → Map String (List String) → Type 0
Ranks rank adj = (x d : String) → Set.contains d (neighbours adj x) ≡ true → rank d < rank x

pub key_of_neighbour :
    (adj : Map String (List String)) (x d : String)
    → Set.contains d (neighbours adj x) ≡ true
    → Set.contains x (Map.keys adj) ≡ true
unfolding Set.contains
key_of_neighbour adj x d c = ground (arith, c, Map.contains-keys x adj)

settled : (m : Mark) → m ≢ pending → m ≢ visiting → m ≡ done
settled pending n v = absurd (n refl)
settled visiting n v = absurd (v refl)
settled done n v = refl

-- A search that finishes has a ranking of all nodes.
pub find_cycle-Ranks :
    (adj : Map String (List String)) (later : Map String Mark)
    → find_cycle adj ≡ some (finished later)
    → (rank : String → ℕ) × Ranks rank adj
unfolding find_cycle Set.contains
find_cycle-Ranks adj later e = ranks k.ranking
  where
    begun : IsKept adj [] (all_pending (Map.keys adj))
    begun = record {
      ranking = (λ x. 0, λ x d h c. cc (h, mark_of-all_pending (Map.keys adj) x));
      frames = tt;
      on_stack = λ x v. cc (v, mark_of-all_pending (Map.keys adj) x);
    }

    found : Finds adj (Map.keys adj) (all_pending (Map.keys adj)) (some (finished later))
    found =
        subst (Finds adj (Map.keys adj) (all_pending (Map.keys adj))) e
          (search_all-Finds adj _ (Map.keys adj) (all_pending (Map.keys adj)) begun)

    k : IsKept adj [] later
    k = found.0

    all_done : (x : String) → Set.contains x (Map.keys adj) ≡ true → mark_of x later ≡ done
    all_done x c = settled (mark_of x later) (found.2 x c) (λ v. false≢true (k.on_stack x v))

    ranks : ((rank : String → ℕ) × HasRank adj rank later) → (rank : String → ℕ) × Ranks rank adj
    ranks (rank, h) = (rank, λ x d c. (h x d (all_done x (key_of_neighbour adj x d c)) c).1)
