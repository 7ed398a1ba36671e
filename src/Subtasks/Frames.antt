-- ===== src/Subtasks/Frames.antt =====
-- The stack and the marks of the search for a cycle: rankings of the nodes that are done, what the
-- frames have looked at, and which nodes are being visited.
use cli_agent.Common.{
  ℕ, suc, ◌≤◌, ◌<◌, String, string_eq, ◌≡◌, ◌≢◌, refl, sym, ap, subst, ◌∙◌, true, false, Option,
  none, some, List, [], ◌∷◌, map, if◌then◌else◌, ◌==◌, eq_of_==, ==_comm, arith, inl, inr, ◌⊎◌,
  Bool-cases, max,
}
use native.Mathlib.Decide.{ℕ_discrete}
use cli_agent.Common.Map
use cli_agent.Common.Map.{Map}
use cli_agent.Common.Set
use cli_agent.Subtasks.Marks.{mark_of, mark_of-insert, mark_of-insert_self, mark_of-insert_other}
use cli_agent.Subtasks.{Mark, pending, visiting, done, nth, neighbours}

-- The marks only go on: pending, visiting, done.
abbrev pub Advances : Map String Mark → Map String Mark → Type 0
Advances state later = (x : String) → mark_of x later ≡ pending → mark_of x state ≡ pending

pub Advances-insert :
    (id : String) (m : Mark) (state : Map String Mark)
    → m ≢ pending
    → Advances state (Map.insert id m state)
Advances-insert id m state h x e = elim (Bool-cases (id == x)) [
  | inl same ↦ absurd (
      h (
        sym (mark_of-insert_self id m state)
        ∙ ap (λ y. mark_of y (Map.insert id m state)) (eq_of_== id x same)
        ∙ e))
  | inr other ↦ sym (mark_of-insert_other id x m state other) ∙ e
]

pub done-ne-pending : done ≢ pending
done-ne-pending e = cc

pub visiting-ne-pending : visiting ≢ pending
visiting-ne-pending e = cc

-- The highest rank of the listed nodes.
abbrev highest : (String → ℕ) → List String → ℕ
highest rank [] = 0
highest rank (x ∷ xs) = max (rank x) (highest rank xs)

highest-ge :
    (rank : String → ℕ) (xs : List String) (x : String)
    → Set.contains x xs ≡ true
    → rank x ≤ highest rank xs
unfolding Set.contains
highest-ge rank [] x h = cc
highest-ge rank (y ∷ xs) x h = elim (Bool-cases (y == x)) [
  | inl same ↦ rw (← eq_of_== y x same) (omega arith)
  | inr other ↦ omega (arith, highest-ge rank xs x (ground (arith, h, other)))
]

abbrev pub nodes_of : List (String × ℕ) → List String
nodes_of stack = map (λ frame. frame.0) stack

-- Only nodes of the stack are being visited.
abbrev pub OnStack : List (String × ℕ) → Map String Mark → Type 0
OnStack stack state =
    (x : String) → mark_of x state ≡ visiting → Set.contains x (nodes_of stack) ≡ true

module _ (adj : Map String (List String)) where
  -- The neighbours of a node that is done are done, and of lower rank.
  abbrev pub HasRank : (String → ℕ) → Map String Mark → Type 0
  HasRank rank state =
      (x d : String)
      → mark_of x state ≡ done
      → Set.contains d (neighbours adj x) ≡ true
      → (mark_of d state ≡ done) × (rank d < rank x)

  -- The neighbours before the index are done, or the node of the frame above.
  abbrev pub Scanned : Map String Mark → Option String → String → ℕ → Type 0
  Scanned state above node idx =
      (i : ℕ) (d : String)
      → i < idx
      → nth i (neighbours adj node) ≡ some d
      → (mark_of d state ≡ done) ⊎ (above ≡ some d)

  abbrev pub Frames : Map String Mark → Option String → List (String × ℕ) → Type 0
  Frames state above [] = Unit
  Frames state above ((node, idx) ∷ rest) =
      (mark_of node state ≡ visiting)
      × Scanned state above node idx
      × (Set.contains node (nodes_of rest) ≡ false)
      × Frames state (some node) rest

  abbrev pub Ranking : Map String Mark → Type 0
  Ranking state = (rank : String → ℕ) × HasRank rank state

  differ :
      (node d : String) (state : Map String Mark)
      → mark_of node state ≡ visiting
      → mark_of d state ≡ done
      → (node == d) ≡ false
  differ node d state v e = elim (Bool-cases (node == d)) [
    | inl same ↦ cc (v, e, eq_of_== node d same)
    | inr other ↦ other
  ]

  mark_of-stays :
      (node d : String) (state : Map String Mark)
      → mark_of d state ≡ done
      → mark_of d (Map.insert node done state) ≡ done
  mark_of-stays node d state e = ground (arith, mark_of-insert node d done state, e)

  ranked_by : (String → ℕ) → String → String → ℕ
  ranked_by rank node x = if node == x then suc (highest rank (neighbours adj node)) else rank x

  -- A node whose neighbours are done gets a rank above theirs.
  pub Ranking-done :
      (node : String) (state : Map String Mark)
      → mark_of node state ≡ visiting
      → ((d : String) → Set.contains d (neighbours adj node) ≡ true → mark_of d state ≡ done)
      → Ranking state
      → Ranking (Map.insert node done state)
  unfolding ranked_by
  Ranking-done node state v below (rank, h) = (ranked_by rank node, raised)
    where
      raised : HasRank (ranked_by rank node) (Map.insert node done state)
      raised x d e c = elim (Bool-cases (node == x)) [
        | inl same ↦
            let c' : Set.contains d (neighbours adj node) ≡ true = rw (eq_of_== node x same) c in
            let e' = below d c' in
            (
              mark_of-stays node d state e',
              rw (same, differ node d state v e')
                  (omega (arith, highest-ge rank (neighbours adj node) d c')),
            )
        | inr other ↦
            let (e', lt) = h x d (sym (mark_of-insert_other node x done state other) ∙ e) c in
            (mark_of-stays node d state e', rw (other, differ node d state v e') lt)
      ]

  not_done :
      (id : String) (m : Mark) (state : Map String Mark)
      → mark_of id state ≢ done
      → (d : String) → mark_of d state ≡ done
      → mark_of d (Map.insert id m state) ≡ done
  not_done id m state n d e = elim (Bool-cases (id == d)) [
    | inl same ↦ absurd (n (ap (λ y. mark_of y state) (eq_of_== id d same) ∙ e))
    | inr other ↦ mark_of-insert_other id d m state other ∙ e
  ]

  pub pending-ne-done : {m : Mark} → m ≡ pending → m ≢ done
  pending-ne-done p e = cc

  visiting-ne-done : {m : Mark} → m ≡ visiting → m ≢ done
  visiting-ne-done p e = cc

  -- A node that is entered leaves the ranking as it is.
  pub Ranking-visit :
      (node : String) (state : Map String Mark)
      → mark_of node state ≡ pending
      → Ranking state
      → Ranking (Map.insert node visiting state)
  Ranking-visit node state p (rank, h) = (rank, λ x d e c. kept x d (h x d (was_done x e) c))
    where
      was_done :
          (x : String) → mark_of x (Map.insert node visiting state) ≡ done → mark_of x state ≡ done
      was_done x e = elim (Bool-cases (node == x)) [
        | inl same ↦ cc (mark_of-insert_self node visiting state, eq_of_== node x same, e)
        | inr other ↦ sym (mark_of-insert_other node x visiting state other) ∙ e
      ]

      kept :
          (x d : String)
          → (mark_of d state ≡ done) × (rank d < rank x)
          → (mark_of d (Map.insert node visiting state) ≡ done) × (rank d < rank x)
      kept x d (e, lt) = (not_done node visiting state (pending-ne-done p) d e, lt)

  pub Frames-visiting :
      (state : Map String Mark) (above : Option String) (stack : List (String × ℕ))
      → Frames state above stack
      → (x : String) → Set.contains x (nodes_of stack) ≡ true
      → mark_of x state ≡ visiting
  unfolding Set.contains
  Frames-visiting state above [] f x c = cc
  Frames-visiting state above ((node, idx) ∷ rest) (v, _, _, f) x c =
      elim (Bool-cases (node == x)) [
        | inl same ↦ ap (λ y. mark_of y state) (sym (eq_of_== node x same)) ∙ v
        | inr other ↦ Frames-visiting state (some node) rest f x (ground (arith, c, other))
      ]

  Scanned-write :
      (id : String) (m : Mark) (state : Map String Mark) (above : Option String) (node : String)
      (idx : ℕ)
      → mark_of id state ≢ done
      → Scanned state above node idx
      → Scanned (Map.insert id m state) above node idx
  Scanned-write id m state above node idx n s i d lt e = elim (s i d lt e) [
    | inl e' ↦ inl (not_done id m state n d e')
    | inr a ↦ inr a
  ]

  -- A mark of a node that is not on the stack and was not done.
  pub Frames-write :
      (id : String) (m : Mark) (state : Map String Mark) (above : Option String)
      (stack : List (String × ℕ))
      → mark_of id state ≢ done
      → Set.contains id (nodes_of stack) ≡ false
      → Frames state above stack
      → Frames (Map.insert id m state) above stack
  unfolding Set.contains
  Frames-write id m state above [] n absent f = tt
  Frames-write id m state above ((node, idx) ∷ rest) n absent (v, s, c, f) =
      let other : (id == node) ≡ false = ground (arith, absent, ==_comm id node) in
      (
        mark_of-insert_other id node m state other ∙ v,
        Scanned-write id m state above node idx n s,
        c,
        Frames-write id m state (some node) rest n (ground (arith, absent)) f,
      )

  -- The node above is done and leaves the stack.
  pub Frames-pop :
      (id : String) (state : Map String Mark) (stack : List (String × ℕ))
      → mark_of id state ≡ visiting
      → Set.contains id (nodes_of stack) ≡ false
      → Frames state (some id) stack
      → Frames (Map.insert id done state) none stack
  unfolding Set.contains
  Frames-pop id state [] v absent f = tt
  Frames-pop id state ((node, idx) ∷ rest) v absent (v', s, c, f) =
      let other : (id == node) ≡ false = ground (arith, absent, ==_comm id node) in
      (
        mark_of-insert_other id node done state other ∙ v',
        scanned,
        c,
        Frames-write id done state (some node) rest (visiting-ne-done v) (ground (arith, absent)) f,
      )
    where
      scanned : Scanned (Map.insert id done state) none node idx
      scanned i d lt e = elim (s i d lt e) [
        | inl e' ↦ inl (mark_of-stays id d state e')
        | inr a ↦ inl (cc (mark_of-insert_self id done state, a))
      ]

  pub Scanned-suc :
      (state : Map String Mark) (above : Option String) (node next : String) (idx : ℕ)
      → nth idx (neighbours adj node) ≡ some next
      → (mark_of next state ≡ done) ⊎ (above ≡ some next)
      → Scanned state none node idx
      → Scanned state above node (suc idx)
  Scanned-suc state above node next idx e good s i d lt e' = elim (ℕ_discrete i idx) [
    | yes same ↦ subst (λ y. (mark_of y state ≡ done) ⊎ (above ≡ some y)) (next_is same) good
    | no other ↦ elim (s i d (omega arith) e') [ inl e' ↦ inl e' | inr a ↦ cc a ]
  ]
    where
      next_is : i ≡ idx → next ≡ d
      next_is same = cc (e, e', same)

pub OnStack-pop :
    (node : String) (idx : ℕ) (rest : List (String × ℕ)) (state : Map String Mark)
    → OnStack ((node, idx) ∷ rest) state
    → OnStack rest (Map.insert node done state)
unfolding Set.contains
OnStack-pop node idx rest state on x v = elim (Bool-cases (node == x)) [
  | inl same ↦ cc (mark_of-insert_self node done state, eq_of_== node x same, v)
  | inr other ↦ ground (arith, on x (sym (mark_of-insert_other node x done state other) ∙ v), other)
]

pub OnStack-push :
    (node next : String) (idx : ℕ) (rest : List (String × ℕ)) (state : Map String Mark)
    → OnStack ((node, idx) ∷ rest) state
    → OnStack ((next, 0) ∷ (node, suc idx) ∷ rest) (Map.insert next visiting state)
unfolding Set.contains
OnStack-push node next idx rest state on x v = elim (Bool-cases (next == x)) [
  | inl same ↦ rw same refl
  | inr other ↦ rw other (on x (sym (mark_of-insert_other next x visiting state other) ∙ v))
]

-- A start that is entered on an empty stack.
pub OnStack-start :
    (start : String) (state : Map String Mark)
    → OnStack [] state
    → OnStack ((start, 0) ∷ []) (Map.insert start visiting state)
unfolding Set.contains
OnStack-start start state on x v = elim (Bool-cases (start == x)) [
  | inl same ↦ rw same refl
  | inr other ↦ rw other (on x (sym (mark_of-insert_other start x visiting state other) ∙ v))
]
