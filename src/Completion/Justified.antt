-- ===== src/Completion/Justified.antt =====
-- What each verdict of `parse_reviewer_verdict` in src/orchestrator/completion.rs rests on.
use cli_agent.Common.{
  String, string_eq, ◌≡◌, refl, ◌⊎◌, inl, inr, true, false, Option, none, some, List, [], ◌∷◌, ◌==◌,
  any, Any, any-Any, if◌then◌else◌, Bool-cases, Option-cases,
}
use text.Mathlib.TextEquality.{eq_iff}
use cli_agent.Common.Texts.{trim, is_empty, starts_with, strip_prefix, take_chars, contains_text}
use cli_agent.Classifier.{contains_any, contains_any_word, contains_word}
use cli_agent.Completion.Json.{extract_json_object}
use cli_agent.Completion.Verdict.{
  VerificationVerdict, complete, incomplete, ambiguous, given, or_text, by_status, by_read, by_json,
  by_words, behind_prefix, parse_reviewer_verdict,
}

-- The reason that goes with what was said: that, or the default where nothing was said.
abbrev pub Given : String → String → Type 0
Given said reason =
    ((is_empty said ≡ true) × (reason ≡ "No reason provided"))
    ⊎ ((is_empty said ≡ false) × (reason ≡ said))

is_empty-nil : (s : String) → is_empty s ≡ true → s ≡ ""
is_empty-nil String.[] h = refl
is_empty-nil (String.◌∷◌ c s) h = cc h

given-Given : (said : String) → Given said (given said)
given-Given said = elim (Bool-cases (is_empty said)) [
  | inl nothing_said ↦ rw nothing_said (inl (refl, refl))
  | inr some_text ↦ rw some_text (inr (refl, refl))
]

abbrev pub SaysDone : String → Type 0
SaysDone status =
    Any (λ w. w ≡ status) ("complete" ∷ "completed" ∷ "success" ∷ "satisfied" ∷ "done" ∷ [])

abbrev pub SaysOpen : String → Type 0
SaysOpen status =
    Any (λ w. w ≡ status) ("incomplete" ∷ "not_complete" ∷ "fail" ∷ "failed" ∷ "not_done" ∷ [])

-- The verdict of a status and a reason, and of a status that is none of the words.
abbrev pub ByStatus : String → String → VerificationVerdict → Type 0
ByStatus status said complete = SaysDone status
ByStatus status said (incomplete reason) = SaysOpen status × Given said reason
ByStatus status said (ambiguous preview) = ⊥

abbrev pub SaysNothing : String → Type 0
SaysNothing status = (¬ SaysDone status) × (¬ SaysOpen status)

by_status-cases :
    (status said : String)
    → ((v : VerificationVerdict) × (by_status status said ≡ some v) × ByStatus status said v)
      ⊎ ((by_status status said ≡ none) × SaysNothing status)
unfolding by_status
by_status-cases status said =
    let done_words : List String =
      "complete" ∷ "completed" ∷ "success" ∷ "satisfied" ∷ "done" ∷ [] in
    let open_words : List String =
      "incomplete" ∷ "not_complete" ∷ "fail" ∷ "failed" ∷ "not_done" ∷ [] in
    let (to, from) =
      any-Any (λ w. w ≡ status) (λ w. w == status) done_words (λ w. eq_iff w status) in
    let (open_to, open_from) =
      any-Any (λ w. w ≡ status) (λ w. w == status) open_words (λ w. eq_iff w status) in
    elim (Bool-cases (any (λ w. w == status) done_words)) [
      | inl good ↦ inl (complete, rw good refl, to good)
      | inr not_good ↦ elim (Bool-cases (any (λ w. w == status) open_words)) [
        | inl bad ↦
            inl (incomplete (given said), rw (not_good, bad) refl, (open_to bad, given-Given said))
        | inr not_bad ↦ inr (
          rw (not_good, not_bad) refl,
          (λ h. cc (not_good, from h), λ h. cc (not_bad, open_from h)),
        )
      ]
    ]

module _ (to_lowercase : String → String)
    (read_status : String → Option (String × Option String)) where
  -- What the status and the reason of an object say; nothing where there is no status.
  abbrev pub ByRead : Option (String × Option String) → VerificationVerdict → Type 0
  ByRead none v = ⊥
  ByRead (some (status, reason)) v =
      ByStatus (to_lowercase (trim status)) (trim (or_text reason "")) v

  abbrev pub ReadsNothing : Option (String × Option String) → Type 0
  ReadsNothing none = Unit
  ReadsNothing (some (status, reason)) = SaysNothing (to_lowercase (trim status))

  by_read-cases :
      (r : Option (String × Option String))
      → ((v : VerificationVerdict) × (by_read to_lowercase read_status r ≡ some v) × ByRead r v)
        ⊎ ((by_read to_lowercase read_status r ≡ none) × ReadsNothing r)
  unfolding by_read
  by_read-cases none = inr (refl, tt)
  by_read-cases (some (status, reason)) =
      by_status-cases (to_lowercase (trim status)) (trim (or_text reason ""))

  module _ (content : String) where
    -- What is read from the text, or from the object in it.
    abbrev pub read : Option (String × Option String)
    read = read_status (or_text (extract_json_object content) content)

    -- The verdict of a text that starts with one of the two words.
    abbrev pub ByPrefix : VerificationVerdict → Type 0
    ByPrefix complete = (rest : String) × (strip_prefix "COMPLETE" content ≡ some rest)
    ByPrefix (incomplete reason) =
        (strip_prefix "COMPLETE" content ≡ none)
        × ((rest : String) × ((strip_prefix "INCOMPLETE:" content ≡ some rest)
              ⊎ ((strip_prefix "INCOMPLETE:" content ≡ none)
                  × (strip_prefix "INCOMPLETE" content ≡ some rest)))
            × Given (trim rest) reason)
    ByPrefix (ambiguous preview) = ⊥

    -- Some phrase of an incomplete run stands in the text in lower case.
    abbrev pub HasPhrase : Type 0
    HasPhrase =
        Any (λ m. contains_text m (to_lowercase content) ≡ true)
          ("incomplete" ∷ "not satisfied" ∷ "not complete" ∷ "not done" ∷ "missing" ∷ [])

    -- Some word of a complete run stands alone in it.
    abbrev pub HasWord : Type 0
    HasWord =
        Any (λ m. contains_word (to_lowercase content) m ≡ true)
          ("complete" ∷ "completed" ∷ "satisfied" ∷ "success" ∷ [])

    abbrev pub ByWords : VerificationVerdict → Type 0
    ByWords complete = (¬ HasPhrase) × HasWord
    ByWords (incomplete reason) = HasPhrase × (reason ≡ take_chars 240 content)
    ByWords (ambiguous preview) = (¬ HasPhrase) × (¬ HasWord) × (preview ≡ take_chars 240 content)

    -- The steps for a text, each where those before it say nothing.
    abbrev pub Justifies : VerificationVerdict → Type 0
    Justifies v =
        ByRead read v
        ⊎ (ReadsNothing read
            × (ByPrefix v
                ⊎ ((strip_prefix "COMPLETE" content ≡ none)
                    × (strip_prefix "INCOMPLETE" content ≡ none)
                    × ByWords v)))

    by_words-ByWords : ByWords (by_words to_lowercase read_status content)
    unfolding by_words
    by_words-ByWords =
        let lower = to_lowercase content in
        let phrases : List String =
          "incomplete" ∷ "not satisfied" ∷ "not complete" ∷ "not done" ∷ "missing" ∷ [] in
        let words : List String = "complete" ∷ "completed" ∷ "satisfied" ∷ "success" ∷ [] in
        let (to, from) =
          any-Any (λ m. contains_text m lower ≡ true) (λ m. contains_text m lower) phrases
            (λ m. (λ h. h, λ h. h)) in
        let (word_to, word_from) =
          any-Any (λ m. contains_word lower m ≡ true) (λ m. contains_word lower m) words
            (λ m. (λ h. h, λ h. h)) in
        elim (Bool-cases (contains_any lower phrases)) [
          | inl phrase ↦ rw phrase (to phrase, refl)
          | inr no_phrase ↦ elim (Bool-cases (contains_any_word lower words)) [
            | inl word ↦ rw (no_phrase, word) ((λ h. cc (no_phrase, from h)), word_to word)
            | inr no_word ↦
                rw (no_phrase, no_word)
                  ((λ h. cc (no_phrase, from h)), (λ h. cc (no_word, word_from h)), refl)
          ]
        ]

    abbrev by_prefix : VerificationVerdict
    by_prefix =
        if starts_with "COMPLETE" content
        then complete
        else if starts_with "INCOMPLETE" content
        then incomplete (given (trim (behind_prefix content)))
        else by_words to_lowercase read_status content

    by_prefix-cases :
        ByPrefix by_prefix
        ⊎ ((strip_prefix "COMPLETE" content ≡ none)
            × (strip_prefix "INCOMPLETE" content ≡ none)
            × ByWords by_prefix)
    by_prefix-cases = elim (Option-cases (strip_prefix "COMPLETE" content)) [
      | inr (rest, done_) ↦ rw done_ (inl (rest, done_))
      | inl not_done ↦ elim (Option-cases (strip_prefix "INCOMPLETE" content)) [
        | inl no_prefix ↦ rw (not_done, no_prefix) (inr (refl, refl, by_words-ByWords))
        | inr (rest, open_) ↦ elim (Option-cases (strip_prefix "INCOMPLETE:" content)) [
          | inr (rest', colon) ↦
              rw (not_done, open_, colon)
                (inl (not_done, (rest', inl refl, given-Given (trim rest'))))
          | inl no_colon ↦
              rw (not_done, open_, no_colon)
                (inl (not_done, (rest, inr (refl, open_), given-Given (trim rest))))
        ]
      ]
    ]

    or_later-Justifies : Justifies (elim (by_json to_lowercase read_status content) [
      | some verdict ↦ verdict
      | none ↦ by_prefix
    ])
    unfolding by_json
    or_later-Justifies = elim (by_read-cases read) [
      | inl (v, gives, reads) ↦ rw gives (inl reads)
      | inr (silent, nothing_read) ↦ rw silent (inr (nothing_read, by_prefix-cases))
    ]

  -- Every verdict rests on what its step found, and the steps come in their order. For a text that
  -- is empty but for blanks the verdict is ambiguous. Otherwise a status that is read from it, or
  -- from the object in it, and is one of the known words decides; then the prefix COMPLETE or
  -- INCOMPLETE; then, where neither is there, the phrases of an incomplete run before the words of a
  -- complete one. An incomplete verdict has the reason that was given, or the default where it is
  -- empty; one that comes from a phrase, and an ambiguous one, has the first 240 characters.
  pub parse_reviewer_verdict-Justifies :
      (raw : String)
      → ((trim raw ≡ "")
          × (parse_reviewer_verdict to_lowercase read_status raw ≡ ambiguous "<empty>"))
        ⊎ ((is_empty (trim raw) ≡ false)
            × Justifies (trim raw) (parse_reviewer_verdict to_lowercase read_status raw))
  unfolding parse_reviewer_verdict
  parse_reviewer_verdict-Justifies raw = elim (Bool-cases (is_empty (trim raw))) [
    | inl blank ↦ inl (is_empty-nil (trim raw) blank, rw blank refl)
    | inr some_text ↦ inr (some_text, rw some_text (or_later-Justifies (trim raw)))
  ]
