-- ===== src/GraphBuilder/Prompts.antt =====
-- The instructions of the planners: `trim_for_context` of src/orchestrator/context_builder.rs, and the
-- texts of src/orchestrator/graph_builder.rs.
use cli_agent.Common.{
  ℕ, zero, suc, ◌+◌, ◌-◌, ◌/◌, ◌≤◌, String, ◌≡◌, refl, ap, inl, inr, ◌<◌, ◌⊎◌, ◌∙◌, sym, not, ◌&&◌,
  Option, none, some, List, map, filter, take, leb, if◌then◌else◌, arith, Bool-cases,
}
use text.Mathlib.TextLemmas.{nil-append, cons-append}
use cli_agent.Common.Texts.{trim, is_empty, count_chars, take_chars, drop_chars, join, ◌<>◌}
use cli_agent.Types.{role_name, is_nil}
use cli_agent.Runtime.{NodeExecutionResult}
use cli_agent.Classifier.{is_local_workspace_task}

abbrev mark : String
mark = "\n... [trimmed] ...\n"

-- The tail is `chars().rev().take(tail_len).rev()`.
unfoldable pub trim_for_context : String → ℕ → String
trim_for_context text max_chars =
    let normalized = trim text in
    let head_len = max_chars / 2 in
    let tail_len = max_chars - head_len in
    if leb (count_chars normalized) max_chars
    then normalized
    else take_chars head_len normalized
      <> mark
      <> drop_chars (count_chars normalized - tail_len) normalized

count_chars-take_chars : (n : ℕ) (s : String) → n ≤ count_chars s → count_chars (take_chars n s) ≡ n
unfolding count_chars take_chars
count_chars-take_chars zero s h = refl
count_chars-take_chars (suc n) String.[] h = absurd (omega arith)
count_chars-take_chars (suc n) (String.◌∷◌ c s) h =
    omega (arith, count_chars-take_chars n s (omega arith))

count_chars-drop_chars : (n : ℕ) (s : String) → count_chars (drop_chars n s) ≡ count_chars s - n
unfolding count_chars drop_chars
count_chars-drop_chars zero s = omega arith
count_chars-drop_chars (suc n) String.[] = omega arith
count_chars-drop_chars (suc n) (String.◌∷◌ c s) = omega (arith, count_chars-drop_chars n s)

take_chars-drop_chars : (n : ℕ) (s : String) → take_chars n s <> drop_chars n s ≡ s
unfolding take_chars drop_chars
take_chars-drop_chars zero s = nil-append s
take_chars-drop_chars (suc n) String.[] = refl
take_chars-drop_chars (suc n) (String.◌∷◌ c s) =
    cons-append c (take_chars n s) (drop_chars n s)
    ∙ ap (λ t. String.◌∷◌ c t) (take_chars-drop_chars n s)

drop_chars-add : (m n : ℕ) (s : String) → drop_chars n (drop_chars m s) ≡ drop_chars (m + n) s
unfolding drop_chars
drop_chars-add zero n s = ap (λ k. drop_chars k s) (omega arith)
drop_chars-add (suc m) zero String.[] = ap (λ k. drop_chars k "") {x = suc m} (omega arith)
drop_chars-add (suc m) (suc n) String.[] =
    ap (λ k. drop_chars k "") {x = suc (m + suc n)} (omega arith)
drop_chars-add (suc m) n (String.◌∷◌ c s) =
    drop_chars-add m n s ∙ ap (λ k. drop_chars k (String.◌∷◌ c s)) {x = suc (m + n)} (omega arith)

-- A text in three parts: the first `m` characters, those up to `k`, and the rest.
three_parts :
    (m k : ℕ) (s : String)
    → m ≤ k
    → s ≡ take_chars m s <> take_chars (k - m) (drop_chars m s) <> drop_chars k s
three_parts m k s h =
    sym (take_chars-drop_chars m s)
    ∙ ap (λ t. take_chars m s <> t)
        (sym (take_chars-drop_chars (k - m) (drop_chars m s))
          ∙ ap (λ t. take_chars (k - m) (drop_chars m s) <> t)
              (drop_chars-add m (k - m) s
                ∙ ap (λ n. drop_chars n s) {x = m + (k - m)} {y = k} (omega arith)))

-- Where the text without the blanks around it has at most the given number of characters, it is the
-- result. Where it is longer, it is made of three parts, the first of half that number of characters,
-- rounded down, and the last of the rest of that number, and the result is the first and the last
-- with the mark between them: the mark comes on top of the given number.
pub trim_for_context_parts :
    (text : String) (max_chars : ℕ)
    → (count_chars (trim text) ≤ max_chars × (trim_for_context text max_chars ≡ trim text))
      ⊎ ((max_chars < count_chars (trim text))
          × ((head middle tail : String) × (trim text ≡ head <> middle <> tail)
              × (trim_for_context text max_chars ≡ head <> "\n... [trimmed] ...\n" <> tail)
              × (count_chars head ≡ max_chars / 2)
              × (count_chars head + count_chars tail ≡ max_chars)))
unfolding trim_for_context
trim_for_context_parts text max_chars =
    elim (Bool-cases (leb (count_chars (trim text)) max_chars)) [
      | inl short ↦ inl (ground (arith, short), rw short refl)
      | inr long ↦
          let s = trim text in
          let half = max_chars / 2 in
          let from = count_chars s - (max_chars - half) in
          let more : max_chars < count_chars s = ground (arith, long) in
          inr (
            more,
            (
              take_chars half s,
              take_chars (from - half) (drop_chars half s),
              drop_chars from s,
              three_parts half from s (omega arith),
              rw long refl,
              count_chars-take_chars half s (omega arith),
              omega (
                arith,
                count_chars-take_chars half s (omega arith),
                count_chars-drop_chars from s,
              ),
            ),
          )
    ]

-- `summarize_results_for_followup`
unfoldable pub summarize_results_for_followup : List NodeExecutionResult → String
unfolding trim_for_context
summarize_results_for_followup results = join "\n---\n" (
    map (λ r. "[" <> r.node_id <> ":" <> role_name r.role <> "]\n" <> trim_for_context r.output 700)
      (filter (λ r. r.succeeded && not (is_empty (trim r.output))) results))

abbrev or_unknown : Option String → String
or_unknown none = "unknown error"
or_unknown (some e) = e

abbrev schema : String
schema =
    "{\"subtasks\":[{\"id\":\"string\",\"description\":\"string\",\"agent_role\":\"planner|extractor|coder|summarizer|fallback|tool_caller|analyzer|reviewer|scheduler|config_manager|validator\",\"dependencies\":[\"node_id\"],\"instructions\":\"string\",\"mcp_tools\":[\"server/tool\"]}]}\n\n"

-- The instructions in `build_failure_recovery_graph`.
unfoldable pub recovery_instructions :
    String → List NodeExecutionResult → List NodeExecutionResult → String
unfolding summarize_results_for_followup trim_for_context
recovery_instructions original_task failed_results successful_results =
    "One or more agents failed during execution. Your job is to recover.\n\nORIGINAL TASK:\n"
    <> trim_for_context original_task 1000
    <> "\n\nFAILED AGENTS (with errors):\n"
    <> trim_for_context
        (join "\n"
          (map (λ r. "[" <> r.node_id <> "] error: " <> or_unknown r.error) failed_results))
        800
    <> "\n\nSUCCESSFUL OUTPUTS SO FAR:\n"
    <> trim_for_context (summarize_results_for_followup successful_results) 3000
    <> "\n\nReturn a JSON SubtaskPlan that addresses the failed work:\n"
    <> schema
    <> "Rules:\n- Focus only on what failed; do not repeat succeeded work.\n- If an agent failed due to a transient error, retry it with clearer instructions.\n- If an agent failed due to a design flaw, replace it with a different approach.\n- Do not wrap the JSON in markdown fences."

module _ (to_lowercase : String → String) where
  -- The instructions in `build_completion_followup_graph`.
  unfoldable pub followup_instructions : String → String → List NodeExecutionResult → String
  unfolding summarize_results_for_followup trim_for_context
  followup_instructions original_task incomplete_reason results =
      "Reviewer marked the run incomplete.\n\nORIGINAL TASK:\n"
      <> trim_for_context original_task 1000
      <> "\n\nREMAINING GAP:\n"
      <> trim_for_context incomplete_reason 600
      <> "\n\nPREVIOUS SUCCESSFUL OUTPUTS:\n"
      <> trim_for_context (summarize_results_for_followup results) 4000
      <> "\n\nReturn a JSON SubtaskPlan object matching exactly this schema:\n"
      <> schema
      <> "Rules:\n- Cover only the remaining requirements.\n- Split independent remaining work into separate subtasks so they can run in parallel.\n- Use dependencies only when sequencing is truly required.\n- Reuse the smallest set of sub-agents needed to fully complete the request.\n- If only one focused step remains, still return a single-item subtasks array.\n- Do not wrap the JSON in markdown fences."
      <> (if is_local_workspace_task to_lowercase original_task
          then "\n- The remaining work must stay local-first and CLI-compatible.\n- Prefer filesystem and local workspace actions; do not require UI-only steps."
          else "")

  -- The instructions of the node `plan` in `build_graph`; `server_descriptions` are those of `mcp`.
  unfoldable pub planner_instructions :
      String → List String → List (String × String) → Option String → String
  unfolding trim_for_context
  planner_instructions task mcp_tool_names server_descriptions previous_plan =
      let guide : String =
        if is_nil server_descriptions
        then ""
        else "\nServer guide:\n"
          <> join "\n" (map (λ nd. "  - " <> nd.0 <> ": " <> nd.1) server_descriptions) in
      let local_first_hint : String =
        if is_local_workspace_task to_lowercase task
        then "\n\nSTRICT LOCAL-FIRST POLICY:\n- You MUST plan filesystem/* tools for any task involving local files, directories, or project workspace contents.\n- NEVER plan github/* or remote API calls for reading/writing local files.\n- Only plan github/* when the user explicitly asks for remote repository operations (e.g., creating PRs, checking remote issues).\n- For file edits and commits on local projects, use filesystem/* tools (read, write, edit)."
        else "" in
      let instructions : String =
        if is_nil mcp_tool_names
        then "Plan work and constraints. For non-trivial work, output a JSON SubtaskPlan so sub-agents can execute independent work in parallel and continue until the request is fully completed."
        else "Plan work and constraints. Available MCP tools: ["
          <> join ", " (take 30 mcp_tool_names)
          <> "]. If the task requires external data or operations, plan to use these tools via the tool_call node. For non-trivial work, output a JSON SubtaskPlan so sub-agents can execute independent work in parallel and continue until the request is fully completed."
          <> guide
          <> local_first_hint in
      elim previous_plan [
        | none ↦ instructions
        | some prev_plan ↦
            instructions
            <> "\n\nPREVIOUS PLAN (from prior run in this session — continue execution from here):\n"
            <> trim_for_context prev_plan 800
      ]
