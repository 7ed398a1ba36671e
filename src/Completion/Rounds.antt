-- ===== src/Completion/Rounds.antt =====
-- The iteration that the ids of the loops carry: it reads back, so the review loop ends.
use cli_agent.Common.{
  ℕ, zero, suc, ◌+◌, ◌<◌, ◌≤◌, String, string_eq, nat_eq, ◌≡◌, refl, ap, ◌∙◌, ◌⊎◌, inl, inr, Bool,
  true, false, not, ◌&&◌, Option, none, some, List, [], ◌∷◌, arith, ltb, ◌==◌, eq_of_==, Bool-cases,
  Option-cases,
}
use Prim.Native.String
use Prim.Native.Char.{Char}
use native.Mathlib.Decide.{ℕ_discrete}
use text.Mathlib.TextLemmas.{nil-append, cons-append, append_assoc}
use cli_agent.Common.Bytes.{read_digits}
use cli_agent.Common.Texts.{
  contains_text, find, strip_prefix, holds, before_found, after_last, parse_u8, ◌<>◌,
}
use cli_agent.Common.Show.{show}
use cli_agent.Types.{role_eq, reviewer}
use cli_agent.Graph.{AgentNode}
use cli_agent.Runtime.{NodeExecutionResult}
use cli_agent.Completion.{parse_fix_iteration, review_fixes}

holds-before_found : (c : Char) (o : Option (String × String)) → holds (before_found c o) ≡ holds o
holds-before_found c none = refl
holds-before_found c (some (before, after)) = refl

contains_text-cons :
    (c : Char) (t : String) → contains_text "_" t ≡ true → contains_text "_" (String.◌∷◌ c t) ≡ true
unfolding contains_text find
contains_text-cons c t h = elim (Option-cases (strip_prefix "_" (String.◌∷◌ c t))) [
  | inl later ↦ rw (later, find) (holds-before_found c (find "_" t) ∙ h)
  | inr (rest, here) ↦ rw (here, find)
]

contains_text-here : (s : String) → contains_text "_" (String.◌∷◌ "_" s) ≡ true
unfolding contains_text find strip_prefix
contains_text-here s = refl

-- A separator and what follows it.
abbrev tail : String → String
tail s = String.◌++◌ "_" s

tail-cons : (s : String) → tail s ≡ String.◌∷◌ "_" s
tail-cons s = cons-append "_" "" s ∙ ap (String.◌∷◌ "_") (nil-append s)

contains_text-separator : (p s : String) → contains_text "_" (p <> "_" <> s) ≡ true
contains_text-separator String.[] s =
    ap (contains_text "_") (nil-append (tail s) ∙ tail-cons s) ∙ contains_text-here s
contains_text-separator (String.◌∷◌ c p) s =
    ap (contains_text "_") (cons-append c p (tail s))
    ∙ contains_text-cons c (p <> tail s) (contains_text-separator p s)

after_last-here : (s : String) → contains_text "_" s ≡ false → after_last "_" (String.◌∷◌ "_" s) ≡ s
unfolding after_last
after_last-here s h = rw h

after_last-cons :
    (c : Char) (t : String)
    → contains_text "_" t ≡ true
    → after_last "_" (String.◌∷◌ c t) ≡ after_last "_" t
unfolding after_last
after_last-cons c t h = rw h

-- Behind the last separator stands what was put there, if it holds no separator itself.
after_last-append :
    (p s : String) → contains_text "_" s ≡ false → after_last "_" (p <> "_" <> s) ≡ s
after_last-append String.[] s h =
    ap (after_last "_") (nil-append (tail s) ∙ tail-cons s) ∙ after_last-here s h
after_last-append (String.◌∷◌ c p) s h =
    ap (after_last "_") (cons-append c p (tail s))
    ∙ after_last-cons c (p <> tail s) (contains_text-separator p s)
    ∙ after_last-append p s h

abbrev is_that : ℕ → Option ℕ → Bool
is_that n none = false
is_that n (some m) = m == n

-- Whether a number's decimal digits hold no separator and read back as the number.
reads_back : ℕ → Bool
reads_back n = not (contains_text "_" (show n)) && is_that n (parse_u8 (show n))

-- The numbers up to one, in turn.
rounds_checked : ℕ → Bool
rounds_checked zero = reads_back zero
rounds_checked (suc k) = rounds_checked k && reads_back (suc k)

reads_back_of_checked : (k n : ℕ) → rounds_checked k ≡ true → n ≤ k → reads_back n ≡ true
unfolding rounds_checked
reads_back_of_checked zero n checked le = elim (ℕ_discrete n 0) [
  | yes is ↦ rw is checked
  | no other ↦ absurd (omega arith)
]
reads_back_of_checked (suc k) n checked le = elim (ℕ_discrete n (suc k)) [
  | yes is ↦ rw is (ground (arith, checked))
  | no other ↦ reads_back_of_checked k n (ground (arith, checked)) (omega arith)
]

bytes_checked : rounds_checked 255 ≡ true
unfolding rounds_checked reads_back contains_text show parse_u8 read_digits
bytes_checked = refl

both :
    (b : Bool) (o : Option ℕ) (n : ℕ) → (not b && is_that n o) ≡ true → (b ≡ false) × (o ≡ some n)
both true o n h = cc h
both false none n h = cc h
both false (some m) n h = (refl, ap (λ k. some k) (eq_of_== m n h))

parse_fix_iteration-read :
    (text digits : String) (n : ℕ)
    → after_last "_" text ≡ digits
    → parse_u8 digits ≡ some n
    → parse_fix_iteration text ≡ n
unfolding parse_fix_iteration
parse_fix_iteration-read text digits n e r = rw (parse_fix_iteration, e, r)

-- The iteration that an id ends with, behind an underscore and in decimal digits, is what
-- `parse_fix_iteration` reads from it, for every iteration that a `u8` holds.
pub parse_fix_iteration-show :
    (prefix : String) (n : ℕ) → n < 256 → parse_fix_iteration (prefix <> "_" <> show n) ≡ n
unfolding reads_back
parse_fix_iteration-show prefix n small =
    let (plain, read) =
      both (contains_text "_" (show n)) (parse_u8 (show n)) n
        (reads_back_of_checked 255 n bytes_checked (omega arith)) in
    parse_fix_iteration-read (prefix <> "_" <> show n) (show n) n
      (after_last-append prefix (show n) plain) read

re_review-show : (k : ℕ) → k < 3 → parse_fix_iteration ("re_review_" <> show (k + 1)) ≡ k + 1
re_review-show k small =
    ap parse_fix_iteration (append_assoc "re_review" "_" (show (k + 1)))
    ∙ parse_fix_iteration-show "re_review" (k + 1) (omega arith)

-- How the review loop goes on: the number of the second node that a reviewer's REQUEST_CHANGES adds.
abbrev pub next_iteration : List AgentNode → Option ℕ
next_iteration (fix ∷ again ∷ []) = some (parse_fix_iteration again.id)
next_iteration _ = none

-- The review loop ends: a reviewer's result adds either nothing or a review whose id carries the
-- next iteration, and only in the iterations before the third.
pub review_fixes_rounds :
    (node : AgentNode) (result : NodeExecutionResult)
    → (review_fixes node result ≡ [])
      ⊎ (next_iteration (review_fixes node result) ≡ some (parse_fix_iteration node.id + 1))
        × (parse_fix_iteration node.id < 3)
unfolding review_fixes
review_fixes_rounds node result =
    elim (Bool-cases (
      node.role == reviewer
      && result.succeeded
      && contains_text "REQUEST_CHANGES" result.output
      && ltb (parse_fix_iteration node.id) 3)) [
        | inr other ↦ inl (rw other)
        | inl asked ↦ inr (
          rw asked (ap (λ k. some k) (re_review-show (parse_fix_iteration node.id) (below asked))),
          below asked,
        )
      ]
  where
    below :
        (node.role == reviewer
            && result.succeeded
            && contains_text "REQUEST_CHANGES" result.output
            && ltb (parse_fix_iteration node.id) 3)
          ≡ true
        → parse_fix_iteration node.id < 3
    below h = ground (arith, h)
