-- ===== src/Completion/Verdict.antt =====
-- `parse_reviewer_verdict` of src/orchestrator/completion.rs. What serde reads from a text, the status
-- and the reason where they are texts, and `to_lowercase` are arguments.
use cli_agent.Common.{String, string_eq, Option, none, some, [], ◌∷◌, ◌==◌, any, if◌then◌else◌}
use cli_agent.Common.Texts.{trim, is_empty, starts_with, strip_prefix, take_chars}
use cli_agent.Classifier.{contains_any, contains_any_word}
use cli_agent.Completion.Json.{extract_json_object}

pub data VerificationVerdict : Type 0 where
  complete : VerificationVerdict
  incomplete ambiguous : String → VerificationVerdict

abbrev pub given : String → String
given reason = if is_empty reason then "No reason provided" else reason

abbrev pub or_text : Option String → String → String
or_text none d = d
or_text (some t) d = t

-- The `match` on the status of a JSON object.
unfoldable pub by_status : String → String → Option VerificationVerdict
by_status status reason =
    if any (λ w. w == status) ("complete" ∷ "completed" ∷ "success" ∷ "satisfied" ∷ "done" ∷ [])
    then some complete
    else if any (λ w. w == status)
        ("incomplete" ∷ "not_complete" ∷ "fail" ∷ "failed" ∷ "not_done" ∷ [])
    then some (incomplete (given reason))
    else none

-- The text behind the prefix, with its colon or without.
abbrev pub behind_prefix : String → String
behind_prefix content =
    or_text (strip_prefix "INCOMPLETE:" content)
      (or_text (strip_prefix "INCOMPLETE" content) content)

module _ (to_lowercase : String → String)
    (read_status : String → Option (String × Option String)) where
  -- The first step: a JSON object with a known status.
  unfoldable pub by_read : Option (String × Option String) → Option VerificationVerdict
  by_read none = none
  by_read (some (status, reason)) =
      by_status (to_lowercase (trim status)) (trim (or_text reason ""))

  unfoldable pub by_json : String → Option VerificationVerdict
  by_json content = by_read (read_status (or_text (extract_json_object content) content))

  -- The last step: the words of the text.
  unfoldable pub by_words : String → VerificationVerdict
  by_words content =
      let lower = to_lowercase content in
      if contains_any lower
        ("incomplete" ∷ "not satisfied" ∷ "not complete" ∷ "not done" ∷ "missing" ∷ [])
      then incomplete (take_chars 240 content)
      else if contains_any_word lower ("complete" ∷ "completed" ∷ "satisfied" ∷ "success" ∷ [])
      then complete
      else ambiguous (take_chars 240 content)

  unfoldable pub parse_reviewer_verdict : String → VerificationVerdict
  unfolding by_json by_words
  parse_reviewer_verdict raw =
      let content = trim raw in
      let later : VerificationVerdict =
        if starts_with "COMPLETE" content
        then complete
        else if starts_with "INCOMPLETE" content
        then incomplete (given (trim (behind_prefix content)))
        else by_words content in
      if is_empty content
      then ambiguous "<empty>"
      else elim (by_json content) [ some verdict ↦ verdict | none ↦ later ]
