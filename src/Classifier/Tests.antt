-- ===== src/Classifier/Tests.antt =====
-- The tests of src/orchestrator/task_classifier.rs and src/orchestrator/helpers.rs, on texts in lower
-- case, and the theorems at them.
use cli_agent.Common.Texts.{trim}
use cli_agent.Common.Texts.{count_words}
use cli_agent.Classifier.{is_continuation_command}
use cli_agent.Common.Texts.{contains_text}
use cli_agent.Common.{String, ◌≡◌, ◌↔◌, refl, true, false, none, some, []}
use cli_agent.Common.Bytes.{as_bytes}
use cli_agent.Common.Texts.{is_empty}
use cli_agent.Types.{code_generation, external_project, complex}
use cli_agent.Classifier.{contains_word, classify_task_fast, classify_task_fallback, classify_task}
use cli_agent.Classifier.Words.{StandsAlone, contains_word-StandsAlone}

abbrev same_text : String → String
same_text s = s

word_found : contains_word "run the CI now" "ci" ≡ true
unfolding contains_word
word_found = refl

word_inside : contains_word "configure the mechanic" "ci" ≡ false
unfolding contains_word
word_inside = refl

-- The marker of an external project is no word: every task with these letters is one.
cyclone : classify_task_fast same_text "track the cyclone" false ≡ some external_project
unfolding classify_task_fast contains_text
cyclone = refl

fix_settings : classify_task_fallback same_text "fix the settings bug" false ≡ code_generation
unfolding classify_task_fallback contains_text contains_word
fix_settings = refl

-- A continuation goes on with the type of the run before.
go_ahead : classify_task same_text "go ahead" [] [] (some complex) none none ≡ complex
unfolding classify_task is_continuation_command count_words trim contains_text
go_ahead = refl

contains_word-StandsAlone_example :
    (contains_word "run the CI now" "ci" ≡ true)
    ↔ ((is_empty "ci" ≡ false) × StandsAlone true (as_bytes "ci") (as_bytes "run the CI now"))
contains_word-StandsAlone_example = contains_word-StandsAlone "run the CI now" "ci"
