-- ===== src/Types.antt =====
-- src/types.rs: the enums and records that the other components share. Uuids and wall-clock times
-- are texts and numbers here; JSON payloads are left to the components that carry them.
use cli_agent.Common.{
  ℕ, ◌+◌, ◌-◌, ◌^◌, String, List, [], ◌∷◌, Eq, derive_eq, min, Bool, true, false, not, ◌||◌,
}

pub data TaskProfile : Type 0 where
  planning extraction coding general : TaskProfile

pub data AgentRole : Type 0 where
  planner extractor coder summarizer fallback tool_caller analyzer reviewer scheduler : AgentRole
  config_manager validator : AgentRole

unfoldable pub AgentRole-discrete : Discrete AgentRole
AgentRole-discrete = hlevel

instance abbrev pub role_eq : Eq AgentRole
role_eq = derive_eq AgentRole-discrete

-- `AgentRole::all`
pub all_roles : List AgentRole
all_roles =
    planner ∷ extractor ∷ coder ∷ summarizer ∷ fallback ∷ tool_caller ∷ analyzer ∷ reviewer
    ∷ scheduler ∷ config_manager ∷ validator ∷ []

-- `Display for AgentRole`
unfoldable pub role_name : AgentRole → String
role_name planner = "planner"
role_name extractor = "extractor"
role_name coder = "coder"
role_name summarizer = "summarizer"
role_name fallback = "fallback"
role_name tool_caller = "tool_caller"
role_name analyzer = "analyzer"
role_name reviewer = "reviewer"
role_name scheduler = "scheduler"
role_name config_manager = "config_manager"
role_name validator = "validator"

-- The largest `u32`, at which the counters saturate.
abbrev pub u32_max : ℕ
u32_max = 2 ^ 32 - 1

-- `u32::saturating_add`
abbrev pub saturating_add : ℕ → ℕ → ℕ
saturating_add a b = min (a + b) u32_max

pub record TokenUsage : Type 0 where
  pub input_tokens : ℕ
  pub output_tokens : ℕ

unfoldable pub total : TokenUsage → ℕ
total u = saturating_add u.input_tokens u.output_tokens

unfoldable pub merge : TokenUsage → TokenUsage → TokenUsage
merge u other = record {
  input_tokens = saturating_add u.input_tokens other.input_tokens;
  output_tokens = saturating_add u.output_tokens other.output_tokens;
}

pub data TaskType : Type 0 where
  simple_query analysis code_generation configuration config_query tool_operation : TaskType
  external_project interactive complex : TaskType

pub record SubtaskDefinition : Type 0 where
  pub id : String
  pub description : String
  pub agent_role : AgentRole
  pub dependencies : List String
  pub mcp_tools : List String
  pub instructions : String

pub record SubtaskPlan : Type 0 where
  pub subtasks : List SubtaskDefinition

pub record ValidationConfig : Type 0 where
  pub lint_commands : List String
  pub build_commands : List String
  pub test_commands : List String
  pub max_fix_iterations : ℕ
  pub lint_timeout_ms : ℕ
  pub test_timeout_ms : ℕ
  pub git_auto_commit : Bool

abbrev pub is_nil {ℓ} : {A : Type ℓ} → List A → Bool
is_nil [] = true
is_nil (x ∷ xs) = false

-- `ValidationConfig::has_lint`
abbrev pub has_lint : ValidationConfig → Bool
has_lint c = not (is_nil c.lint_commands) || not (is_nil c.build_commands)

-- `ValidationConfig::has_test`
abbrev pub has_test : ValidationConfig → Bool
has_test c = not (is_nil c.test_commands)

pub record WorkflowNodeTemplate (Policy : Type 0) : Type 0 where
  pub id : String
  pub role : AgentRole
  pub instructions : String
  pub dependencies : List String
  pub mcp_tools : List String
  pub git_commands : List String
  pub policy : Policy
