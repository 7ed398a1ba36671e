-- ===== src/Classifier.antt =====
-- src/orchestrator/task_classifier.rs: the type of a task, from its words or from the answer of a
-- model. `to_lowercase` is the standard library's, and the answer of the model is an argument.
pub mod Words
mod Tests
use cli_agent.Common.{
  ℕ, String, string_eq, Bool, true, false, not, ◌&&◌, ◌||◌, Option, none, some, List, [], ◌∷◌, any,
  leb, ltb, if◌then◌else◌, ◌==◌, nat_eq,
}
use cli_agent.Common.Bytes.{as_bytes}
use cli_agent.Common.Texts.{
  trim, contains_text, count_words, strip_ignoring_case, is_empty, after_last,
}
use cli_agent.Types.{
  TaskType, simple_query, analysis, code_generation, configuration, config_query, tool_operation,
  external_project, interactive, complex, is_nil,
}

-- `is_ascii_alphanumeric` or an underscore.
abbrev pub is_word_byte : ℕ → Bool
is_word_byte b = leb 48 b && leb b 57 || leb 65 b && leb b 90 || leb 97 b && leb b 122 || b == 95

-- No word goes on at an end of the text.
abbrev pub ends_word : List ℕ → Bool
ends_word [] = true
ends_word (b ∷ bytes) = not (is_word_byte b)

abbrev pub stands_at : Option (List ℕ) → Bool
stands_at none = false
stands_at (some rest) = ends_word rest

-- The loop over the places of the text; `left_ok` is about the byte before.
unfoldable pub contains_word_from : Bool → List ℕ → List ℕ → Bool
unfolding strip_ignoring_case
contains_word_from left_ok needle [] = left_ok && stands_at (strip_ignoring_case needle [])
contains_word_from left_ok needle (b ∷ bytes) =
    left_ok && stands_at (strip_ignoring_case needle (b ∷ bytes))
    || contains_word_from (not (is_word_byte b)) needle bytes

-- `contains_word` of src/orchestrator/helpers.rs
unfoldable pub contains_word : String → String → Bool
unfolding contains_word_from as_bytes
contains_word haystack needle =
    not (is_empty needle) && contains_word_from true (as_bytes needle) (as_bytes haystack)

abbrev pub contains_any_word : String → List String → Bool
contains_any_word lower words = any (λ w. contains_word lower w) words

-- `contains_any_keyword` of src/orchestrator/helpers.rs
abbrev pub contains_any : String → List String → Bool
contains_any lower keywords = any (λ kw. contains_text kw lower) keywords

module _ (to_lowercase : String → String) where
  unfoldable pub has_explicit_remote_repo_reference : String → Bool
  has_explicit_remote_repo_reference task = contains_any (to_lowercase task) (
      "github" ∷ "gitlab" ∷ "bitbucket" ∷ "http://" ∷ "https://" ∷ "owner/repo" ∷ "repository url"
      ∷ "remote repo" ∷ [])

  unfoldable pub is_local_workspace_task : String → Bool
  unfolding has_explicit_remote_repo_reference
  is_local_workspace_task task =
      let lower = to_lowercase task in
      let has_path_like =
        contains_text "/" lower
        && not (contains_text "http://" lower)
        && not (contains_text "https://" lower)
        && not (contains_text "github.com" lower) in
      (contains_any lower (
          "로컬" ∷ "local" ∷ "workspace" ∷ "현재 폴더" ∷ "현재 디렉토리" ∷ "this project" ∷ "this repo"
          ∷ "프로젝트 폴더" ∷ "경로" ∷ "파일" ∷ "readme.md" ∷ "current directory" ∷ "current folder"
          ∷ "my project" ∷ "my repo" ∷ "working directory" ∷ "작성" ∷ "수정" ∷ "편집" ∷ "커밋" ∷ [])
        || has_path_like)
      && not (has_explicit_remote_repo_reference lower)

  unfoldable pub looks_like_follow_up_task : String → Bool
  looks_like_follow_up_task task =
      let lower = to_lowercase (trim task) in
      if is_empty lower
      then false
      else if contains_any_word lower (
          "fix" ∷ "add" ∷ "remove" ∷ "create" ∷ "delete" ∷ "implement" ∷ "write" ∷ "refactor"
          ∷ "debug" ∷ "test" ∷ "run" ∷ "build" ∷ "deploy" ∷ "analyze" ∷ "review" ∷ "clone" ∷ "check"
          ∷ "update" ∷ "explain" ∷ "show" ∷ "list" ∷ "수정" ∷ "추가" ∷ "삭제" ∷ "생성" ∷ "구현" ∷ "작성" ∷ "검토"
          ∷ "분석" ∷ [])
      then false
      else if leb (count_words false lower) 2
      then true
      else contains_any_word lower
          ("그거" ∷ "이거" ∷ "저거" ∷ "거기" ∷ "로컬에" ∷ "that" ∷ "it" ∷ "there" ∷ "them" ∷ "이어서" ∷ "계속" ∷ [])
        || contains_any_word lower ("맞아" ∷ "응" ∷ "네" ∷ "yes" ∷ "yep" ∷ "sure" ∷ "ok" ∷ "okay" ∷ [])

  unfoldable pub is_continuation_command : String → Bool
  is_continuation_command task =
      let lower = to_lowercase (trim task) in
      if ltb 6 (count_words false lower)
      then false
      else contains_any lower (
          "실행해" ∷ "진행해" ∷ "계속해" ∷ "이어서" ∷ "다음 작업" ∷ "go ahead" ∷ "do it" ∷ "execute" ∷ "proceed"
          ∷ "continue" ∷ "run it" ∷ "carry on" ∷ [])

  -- The test for an external project, which two functions share.
  unfoldable pub names_external : String → Bool
  names_external lower =
      contains_any lower ("clone" ∷ "github.com" ∷ "gitlab.com" ∷ "bitbucket.org" ∷ [])
      || contains_text "https://" lower && contains_text ".git" lower

  abbrev config_nouns : List String
  config_nouns = "setting" ∷ "settings" ∷ "config" ∷ "provider" ∷ "backend" ∷ []

  unfoldable pub classify_task_fast : String → Bool → Option TaskType
  unfolding names_external
  classify_task_fast task has_mcp =
      let lower = to_lowercase task in
      if names_external lower
      then some external_project
      else if contains_any_word lower
          ("fix" ∷ "debug" ∷ "refactor" ∷ "patch" ∷ "rewrite" ∷ "implement" ∷ "bug" ∷ [])
      then some code_generation
      else if contains_any_word lower
            ("enable" ∷ "disable" ∷ "switch" ∷ "toggle" ∷ "configure" ∷ "change" ∷ "set" ∷ [])
          && contains_any_word lower config_nouns
      then some configuration
      else if contains_any_word lower ("analyze" ∷ "analysis" ∷ "evaluate" ∷ [])
      then some analysis
      else if has_mcp && contains_any_word lower ("mcp" ∷ "commit" ∷ "branch" ∷ [])
      then some tool_operation
      else none

  unfoldable pub classify_task_fallback : String → Bool → TaskType
  unfolding names_external
  classify_task_fallback task has_mcp =
      let lower = to_lowercase task in
      if names_external lower
      then external_project
      else if contains_any_word lower (
          "code" ∷ "implement" ∷ "function" ∷ "refactor" ∷ "bug" ∷ "fix" ∷ "debug" ∷ "patch"
          ∷ "rewrite" ∷ [])
      then code_generation
      else if contains_any_word lower config_nouns
          && (contains_any_word lower (
                "change" ∷ "update" ∷ "set" ∷ "enable" ∷ "disable" ∷ "switch" ∷ "toggle"
                ∷ "configure" ∷ [])
              || contains_word lower "model")
      then configuration
      else if has_mcp
          && contains_any_word lower ("mcp" ∷ "file" ∷ "repo" ∷ "commit" ∷ "branch" ∷ "search" ∷ [])
      then tool_operation
      else if contains_any lower ("analyze" ∷ "analysis" ∷ "pattern" ∷ "compare" ∷ "evaluate" ∷ [])
      then analysis
      else if contains_any lower
          ("explore" ∷ "investigate" ∷ "figure out" ∷ "step by step" ∷ "iteratively" ∷ [])
      then interactive
      else if leb (count_words false lower) 8
      then simple_query
      else complex

  -- The `match` on the words of the model.
  unfoldable pub read_task_type : String → Option TaskType
  read_task_type word =
      if word == "simple_query"
      then some simple_query
      else if word == "analysis"
      then some analysis
      else if word == "code_generation"
      then some code_generation
      else if word == "configuration"
      then some configuration
      else if word == "config_query"
      then some config_query
      else if word == "tool_operation"
      then some tool_operation
      else if word == "external_project"
      then some external_project
      else if word == "interactive"
      then some interactive
      else if word == "complex"
      then some complex
      else none

  abbrev or_else {ℓ} : {A : Type ℓ} → Option A → A → A
  or_else none d = d
  or_else (some a) d = a

  -- The registered tools and servers that the task names.
  unfoldable pub names_tool : String → List String → List String → Bool
  names_tool lower mcp_server_names mcp_tool_names =
      any (λ name. contains_text (to_lowercase name) lower) mcp_server_names
      || any (λ name. contains_text (to_lowercase (after_last "/" name)) lower) mcp_tool_names

  -- What the answer of the model means; `none` is an error of the request.
  unfoldable pub from_answer : String → Bool → Option String → TaskType
  unfolding read_task_type
  from_answer task has_mcp none = classify_task_fallback task has_mcp
  from_answer task has_mcp (some output) =
      or_else (read_task_type (to_lowercase (trim output))) (classify_task_fallback task has_mcp)

  unfoldable pub classify_task :
      String
      → List String
      → List String
      → Option TaskType
      → Option String
      → Option String
      → TaskType
  unfolding names_tool from_answer
  classify_task task mcp_server_names mcp_tool_names previous_task_type repo_url answer =
      let has_mcp = not (is_nil mcp_server_names) in
      let asked : TaskType = elim (classify_task_fast task has_mcp) [
        | some fast ↦ fast
        | none ↦
            if has_mcp && names_tool (to_lowercase task) mcp_server_names mcp_tool_names
            then tool_operation
            else from_answer task has_mcp answer
      ] in
      elim repo_url [
        | some url ↦ external_project
        | none ↦ if is_continuation_command task then or_else previous_task_type asked else asked
      ]
