-- ===== src/Subtasks/Search.antt =====
-- What the search for a cycle establishes on the way: every node that is done stands above its
-- neighbours in a ranking.
use cli_agent.Common.{
  ℕ, zero, suc, String, string_eq, ◌≡◌, refl, false, Option, none, some, List, [], ◌∷◌, arith, inl,
  inr, Bool-cases, Option-cases,
}
use cli_agent.Common.Map
use cli_agent.Common.Map.{Map}
use cli_agent.Common.Set
use cli_agent.Subtasks.Marks.{mark_of, mark_of-insert_self, Mark-cases, nth-contains, nth-none-lt}
use cli_agent.Subtasks.{
  Mark, pending, visiting, done, SearchEnd, finished, cyclic, nth, neighbours, search,
}
use cli_agent.Subtasks.Frames.{
  nodes_of, Advances, Advances-insert, done-ne-pending, visiting-ne-pending, Ranking, Scanned,
  Frames, OnStack, Ranking-done, Ranking-visit, pending-ne-done, Frames-visiting, Frames-write,
  Frames-pop, Scanned-suc, OnStack-pop, OnStack-push,
}

module _ (adj : Map String (List String)) where
  -- What holds of the stack and the marks before every turn.
  pub record IsKept (stack : List (String × ℕ)) (state : Map String Mark) : Type 0 where
    pub ranking : Ranking adj state
    pub frames : Frames adj state none stack
    pub on_stack : OnStack stack state

  IsKept-pop :
      (node : String) (idx : ℕ) (rest : List (String × ℕ)) (state : Map String Mark)
      → nth idx (neighbours adj node) ≡ none
      → IsKept ((node, idx) ∷ rest) state
      → IsKept rest (Map.insert node done state)
  unfolding Set.contains
  IsKept-pop node idx rest state e k =
      let (v, s, c, f) = k.frames in
      record {
        ranking = Ranking-done adj node state v (λ d m. below s d (nth-contains _ d m)) k.ranking;
        frames = Frames-pop adj node state rest v c f;
        on_stack = OnStack-pop node idx rest state k.on_stack;
      }
    where
      below :
          Scanned adj state none node idx
          → (d : String) → ((i : ℕ) × (nth i (neighbours adj node) ≡ some d))
          → mark_of d state ≡ done
      below s d (i, at) = elim (s i d (nth-none-lt idx i _ d e at) at) [ inl m ↦ m | inr a ↦ cc a ]

  IsKept-done :
      (node next : String) (idx : ℕ) (rest : List (String × ℕ)) (state : Map String Mark)
      → nth idx (neighbours adj node) ≡ some next
      → mark_of next state ≡ done
      → IsKept ((node, idx) ∷ rest) state
      → IsKept ((node, suc idx) ∷ rest) state
  unfolding Set.contains
  IsKept-done node next idx rest state e d k =
      let (v, s, c, f) = k.frames in
      record {
        ranking = k.ranking;
        frames = (v, Scanned-suc adj state none node next idx e (inl d) s, c, f);
        on_stack = k.on_stack;
      }

  IsKept-push :
      (node next : String) (idx : ℕ) (rest : List (String × ℕ)) (state : Map String Mark)
      → nth idx (neighbours adj node) ≡ some next
      → mark_of next state ≡ pending
      → IsKept ((node, idx) ∷ rest) state
      → IsKept ((next, 0) ∷ (node, suc idx) ∷ rest) (Map.insert next visiting state)
  unfolding Set.contains
  IsKept-push node next idx rest state e p k =
      let (v, s, c, f) = k.frames in
      let f' =
        Frames-write adj next visiting state none ((node, idx) ∷ rest) (pending-ne-done adj p)
          absent (v, s, c, f) in
      record {
        ranking = Ranking-visit adj next state p k.ranking;
        frames = (
          mark_of-insert_self next visiting state,
          (λ i d lt at. absurd (omega arith)),
          absent,
          (
            f'.0,
            Scanned-suc adj _ (some next) node next idx e (inr refl) f'.1,
            c,
            Frames-write adj next visiting state (some node) rest (pending-ne-done adj p)
                (ground (arith, absent)) f,
          ),
        );
        on_stack = OnStack-push node next idx rest state k.on_stack;
      }
    where
      absent : Set.contains next (nodes_of ((node, idx) ∷ rest)) ≡ false
      absent = elim (Bool-cases (Set.contains next (nodes_of ((node, idx) ∷ rest)))) [
        | inl c ↦ cc (p, Frames-visiting adj state none ((node, idx) ∷ rest) k.frames next c)
        | inr c ↦ c
      ]

  -- A search that ends without a cycle has a ranking, and nothing is being visited any more.
  abbrev pub Keeps : Map String Mark → Option SearchEnd → Type 0
  Keeps state none = Unit
  Keeps state (some (cyclic id)) = Unit
  Keeps state (some (finished later)) = IsKept [] later × Advances state later

  Keeps-Advances :
      (state later : Map String Mark) (r : Option SearchEnd)
      → Advances state later
      → Keeps later r
      → Keeps state r
  Keeps-Advances state later none a k = tt
  Keeps-Advances state later (some (cyclic id)) a k = tt
  Keeps-Advances state later (some (finished end)) a (k, a') = (k, λ x e. a x (a' x e))

  pub search-Keeps :
      (fuel : ℕ) (stack : List (String × ℕ)) (state : Map String Mark)
      → IsKept stack state
      → Keeps state (search adj fuel stack state)
  unfolding search
  search-Keeps zero stack state k = tt
  search-Keeps (suc fuel) [] state k = (k, λ x e. e)
  search-Keeps (suc fuel) ((node, idx) ∷ rest) state k =
      elim (Option-cases (nth idx (neighbours adj node))) [
        | inl e ↦
            rw (e, search)
              (Keeps-Advances _ _ _ (Advances-insert node done state done-ne-pending) (
                search-Keeps fuel rest (Map.insert node done state)
                  (IsKept-pop node idx rest state e k)))
        | inr (next, e) ↦
            rw (e, search)
              (elim (Mark-cases (mark_of next state)) [
                | inl p ↦
                    rw (p, search)
                      (Keeps-Advances _ _ _
                        (Advances-insert next visiting state visiting-ne-pending)
                        (search-Keeps fuel ((next, 0) ∷ (node, suc idx) ∷ rest)
                          (Map.insert next visiting state)
                          (IsKept-push node next idx rest state e p k)))
                | inr (inl v) ↦ rw (v, search) tt
                | inr (inr d) ↦
                    rw (d, search)
                      (search-Keeps fuel ((node, suc idx) ∷ rest) state
                        (IsKept-done node next idx rest state e d k))
              ])
      ]
