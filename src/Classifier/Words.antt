-- ===== src/Classifier/Words.antt =====
-- `contains_word` against its description: the word stands in the text, alone.
use cli_agent.Common.{
  ℕ, String, ◌≡◌, ◌↔◌, refl, sym, ap, ◌∙◌, inl, inr, Bool, true, false, not, ◌&&◌, ◌||◌, some, List,
  [], ◌∷◌, ◌++◌, map, arith, ◌==◌, nat_eq, eq_of_==, ==_refl, Bool-cases, Option-cases,
}
use cli_agent.Common.Bytes.{as_bytes}
use cli_agent.Common.Texts.{strip_ignoring_case, to_ascii_lowercase, is_empty}
use cli_agent.Classifier.{is_word_byte, ends_word, stands_at, contains_word_from, contains_word}

abbrev pub lower : List ℕ → List ℕ
lower bytes = map to_ascii_lowercase bytes

-- Whether the place behind these bytes is not inside a word.
abbrev pub begins_word : Bool → List ℕ → Bool
begins_word left_ok [] = left_ok
begins_word left_ok (b ∷ bytes) = begins_word (not (is_word_byte b)) bytes

-- The text is parted into what stands before, the word up to the case of its letters, and what
-- stands behind; neither side goes on with a byte of a word.
pub record StandsAlone (left_ok : Bool) (needle bytes : List ℕ) : Type 0 where
  pub before : List ℕ
  pub here : List ℕ
  pub after : List ℕ
  pub parts : bytes ≡ before ++ (here ++ after)
  pub same : lower here ≡ lower needle
  pub left : begins_word left_ok before ≡ true
  pub right : ends_word after ≡ true

cons_head : (x y : ℕ) (xs ys : List ℕ) → x ∷ xs ≡ y ∷ ys → x ≡ y
cons_head x y xs ys h = cc h

cons_tail : (x y : ℕ) (xs ys : List ℕ) → x ∷ xs ≡ y ∷ ys → xs ≡ ys
cons_tail x y xs ys h = cc h

cons_path : {x y : ℕ} {xs ys : List ℕ} → x ≡ y → xs ≡ ys → x ∷ xs ≡ y ∷ ys
cons_path e f = cc (e, f)

strip_sound :
    (needle bytes rest : List ℕ)
    → strip_ignoring_case needle bytes ≡ some rest
    → (here : List ℕ) × (bytes ≡ here ++ rest) × (lower here ≡ lower needle)
unfolding strip_ignoring_case
strip_sound [] bytes rest h = ([], cc h, refl)
strip_sound (n ∷ needle) [] rest h = cc h
strip_sound (n ∷ needle) (b ∷ bytes) rest h =
    elim (Bool-cases (to_ascii_lowercase n == to_ascii_lowercase b)) [
      | inr other ↦ cc (other, h)
      | inl same ↦
          let (here, e, f) = strip_sound needle bytes rest (ground (arith, h, same)) in
          (
            b ∷ here,
            ap (λ xs. b ∷ xs) e,
            cons_path (sym (eq_of_== (to_ascii_lowercase n) (to_ascii_lowercase b) same)) f,
          )
    ]

strip_complete :
    (needle here rest : List ℕ)
    → lower here ≡ lower needle
    → strip_ignoring_case needle (here ++ rest) ≡ some rest
unfolding strip_ignoring_case
strip_complete [] [] rest h = refl
strip_complete [] (b ∷ here) rest h = cc h
strip_complete (n ∷ needle) [] rest h = cc h
strip_complete (n ∷ needle) (b ∷ here) rest h =
    let same = cons_head _ _ (lower here) (lower needle) h in
    let found : (to_ascii_lowercase n == to_ascii_lowercase b) ≡ true =
      rw same (==_refl (to_ascii_lowercase n)) in
    rw found (
      strip_complete needle here rest
        (cons_tail (to_ascii_lowercase b) (to_ascii_lowercase n) _ _ h))

or_right : (a b : Bool) → a ≡ false → (a || b) ≡ true → b ≡ true
or_right a b e h = ground (arith, e, h)

both_true : (a b : Bool) → a ≡ false → b ≡ true → (not a && b) ≡ true
both_true a b e h = ground (arith, e, h)

or_intro : (a b : Bool) → b ≡ true → (a || b) ≡ true
or_intro a b h = ground (arith, h)

stands_at-split :
    (needle bytes : List ℕ)
    → stands_at (strip_ignoring_case needle bytes) ≡ true
    → (rest : List ℕ) × (strip_ignoring_case needle bytes ≡ some rest) × (ends_word rest ≡ true)
stands_at-split needle bytes h = elim (Option-cases (strip_ignoring_case needle bytes)) [
  | inl absent ↦ cc (ap stands_at absent, h)
  | inr (rest, found) ↦ (rest, found, sym (ap stands_at found) ∙ h)
]

-- The word stands at the first byte.
at_once :
    (left_ok : Bool) (needle bytes : List ℕ)
    → (left_ok && stands_at (strip_ignoring_case needle bytes)) ≡ true
    → StandsAlone left_ok needle bytes
at_once left_ok needle bytes h =
    let (rest, found, ends) = stands_at-split needle bytes (ground (arith, h)) in
    let (here, e, f) = strip_sound needle bytes rest found in
    record {
      before = [];
      here = here;
      after = rest;
      parts = e;
      same = f;
      left = ground (arith, h);
      right = ends;
    }

later :
    (left_ok : Bool) (needle : List ℕ) (b : ℕ) (bytes : List ℕ)
    → StandsAlone (not (is_word_byte b)) needle bytes
    → StandsAlone left_ok needle (b ∷ bytes)
later left_ok needle b bytes s = record {
  before = b ∷ s.before;
  here = s.here;
  after = s.after;
  parts = ap (λ xs. b ∷ xs) s.parts;
  same = s.same;
  left = s.left;
  right = s.right;
}

contains_word_from-StandsAlone :
    (left_ok : Bool) (needle bytes : List ℕ)
    → contains_word_from left_ok needle bytes ≡ true
    → StandsAlone left_ok needle bytes
unfolding contains_word_from
contains_word_from-StandsAlone left_ok needle [] h = at_once left_ok needle [] h
contains_word_from-StandsAlone left_ok needle (b ∷ bytes) h =
    elim (Bool-cases (left_ok && stands_at (strip_ignoring_case needle (b ∷ bytes)))) [
      | inl now ↦ at_once left_ok needle (b ∷ bytes) now
      | inr other ↦ later left_ok needle b bytes (
          contains_word_from-StandsAlone (not (is_word_byte b)) needle bytes (or_right _ _ other h))
    ]

found_at_once :
    (left_ok : Bool) (needle bytes : List ℕ)
    → left_ok ≡ true
    → stands_at (strip_ignoring_case needle bytes) ≡ true
    → contains_word_from left_ok needle bytes ≡ true
unfolding contains_word_from
found_at_once left_ok needle [] l h = rw (l, h)
found_at_once left_ok needle (b ∷ bytes) l h = rw (l, h)

contains_word_from_found :
    (left_ok : Bool) (needle before here after : List ℕ)
    → lower here ≡ lower needle
    → begins_word left_ok before ≡ true
    → ends_word after ≡ true
    → contains_word_from left_ok needle (before ++ (here ++ after)) ≡ true
unfolding contains_word_from
contains_word_from_found left_ok needle [] here after same left right =
    found_at_once left_ok needle (here ++ after) left
      (ap stands_at (strip_complete needle here after same) ∙ right)
contains_word_from_found left_ok needle (b ∷ before) here after same left right =
    or_intro _ _
      (contains_word_from_found (not (is_word_byte b)) needle before here after same left right)

-- `contains_word` answers yes exactly when the needle is not empty and stands in the text as a word
-- of its own: its bytes, up to the case of ASCII letters, with no ASCII letter, digit or underscore
-- right before or right behind them.
pub contains_word-StandsAlone :
    (haystack needle : String)
    → (contains_word haystack needle ≡ true)
      ↔ ((is_empty needle ≡ false) × StandsAlone true (as_bytes needle) (as_bytes haystack))
unfolding contains_word
contains_word-StandsAlone haystack needle = (
  λ h. (
    ground (arith, h),
    contains_word_from-StandsAlone true (as_bytes needle) (as_bytes haystack) (ground (arith, h)),
  ),
  λ h. both_true _ _ h.0 (found h.1),
)
  where
    found :
        StandsAlone true (as_bytes needle) (as_bytes haystack)
        → contains_word_from true (as_bytes needle) (as_bytes haystack) ≡ true
    found s = rw (s.parts) (
        contains_word_from_found true (as_bytes needle) s.before s.here s.after s.same s.left
          s.right)
