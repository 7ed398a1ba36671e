-- ===== src/Harness/Metrics.antt =====
-- `HarnessMetrics::snapshot` of src/harness/metrics.rs: the counters over all sessions. The depth of the
-- sessions' tree, which it computes behind the loop, is not modelled.
use cli_agent.Common.{
  if◌then◌else◌, filter, Bool, true, false, Bool-cases, inl, inr, refl, sym, ap, Option-cases, ◌∙◌,
  map, ℕ, ◌+◌, ◌<◌, ◌%◌, ◌^◌, String, string_eq, ◌≡◌, Option, none, some, List, [], ◌∷◌, ◌++◌,
  arith, length,
}
use mathlib.Core.List.{append-nil, append_assoc}
use cli_agent.Common.Map
use cli_agent.Common.Map.{Map}
use cli_agent.Types.{
  AgentRole, planner, extractor, coder, summarizer, fallback, tool_caller, analyzer, reviewer,
  scheduler, config_manager, validator, TokenUsage, merge, saturating_add,
}
use cli_agent.Harness.{AgentSessionStatus, idle, running, ready, failed, terminated, AgentSession}

-- `role_key`: the name of the constructor in lower case.
abbrev pub role_key : AgentRole → String
role_key planner = "planner"
role_key extractor = "extractor"
role_key coder = "coder"
role_key summarizer = "summarizer"
role_key fallback = "fallback"
role_key tool_caller = "toolcaller"
role_key analyzer = "analyzer"
role_key reviewer = "reviewer"
role_key scheduler = "scheduler"
role_key config_manager = "configmanager"
role_key validator = "validator"

abbrev no_tokens : TokenUsage
no_tokens = record { input_tokens = 0; output_tokens = 0 }

pub record RoleStats : Type 0 where
  pub active : ℕ
  pub completed : ℕ
  pub failures : ℕ
  pub iterations : ℕ
  pub tokens : TokenUsage

abbrev pub no_stats : RoleStats
no_stats = record { active = 0; completed = 0; failures = 0; iterations = 0; tokens = no_tokens }

pub record HarnessMetrics : Type 0 where
  pub active_sessions : ℕ
  pub idle_sessions : ℕ
  pub completed_sessions : ℕ
  pub failed_sessions : ℕ
  pub terminated_sessions : ℕ
  pub total_iterations : ℕ
  pub total_tokens : TokenUsage
  pub roots : List String
  pub per_role : Map String RoleStats

abbrev pub no_metrics : HarnessMetrics
no_metrics = record {
  active_sessions = 0;
  idle_sessions = 0;
  completed_sessions = 0;
  failed_sessions = 0;
  terminated_sessions = 0;
  total_iterations = 0;
  total_tokens = no_tokens;
  roots = [];
  per_role = [];
}

-- `+= 1` on a `u32`, in the release profile.
abbrev pub next_u32 : ℕ → ℕ
next_u32 n = (n + 1) % 2 ^ 32

abbrev count_status : AgentSessionStatus → HarnessMetrics → HarnessMetrics
count_status idle m = record m { idle_sessions = next_u32 m.idle_sessions }
count_status running m = record m { active_sessions = next_u32 m.active_sessions }
count_status ready m = record m { completed_sessions = next_u32 m.completed_sessions }
count_status (failed e) m = record m { failed_sessions = next_u32 m.failed_sessions }
count_status terminated m = record m { terminated_sessions = next_u32 m.terminated_sessions }

abbrev merge_some : TokenUsage → Option TokenUsage → TokenUsage
merge_some total none = total
merge_some total (some u) = merge total u

abbrev count_role : AgentSessionStatus → RoleStats → RoleStats
count_role running r = record r { active = next_u32 r.active }
count_role ready r = record r { completed = next_u32 r.completed }
count_role (failed e) r = record r { failures = next_u32 r.failures }
count_role _ r = r

abbrev note_role : AgentSession → RoleStats → RoleStats
note_role s r = count_role s.status (record r {
  iterations = saturating_add r.iterations s.iteration_count;
  tokens = merge_some r.tokens s.total_usage;
})

abbrev note_root : AgentSession → List String → List String
note_root s roots = elim s.parent_session [ none ↦ roots ++ s.session_id ∷ [] | some p ↦ roots ]

-- The body of the loop.
unfoldable pub tally : AgentSession → HarnessMetrics → HarnessMetrics
tally s m =
    let counted = count_status s.status m in
    record counted {
      total_iterations = saturating_add m.total_iterations s.iteration_count;
      total_tokens = merge_some m.total_tokens s.total_usage;
      roots = note_root s m.roots;
      per_role =
          Map.insert (role_key s.agent_role)
            (note_role s (Map.get_or (role_key s.agent_role) no_stats m.per_role)) m.per_role;
    }

unfoldable pub tally_all : List AgentSession → HarnessMetrics → HarnessMetrics
unfolding tally
tally_all [] m = m
tally_all (s ∷ rest) m = tally_all rest (tally s m)

abbrev pub is_idle : AgentSessionStatus → Bool
is_idle idle = true
is_idle _ = false

abbrev pub is_running : AgentSessionStatus → Bool
is_running running = true
is_running _ = false

abbrev pub is_ready : AgentSessionStatus → Bool
is_ready ready = true
is_ready _ = false

abbrev pub has_failed : AgentSessionStatus → Bool
has_failed (failed e) = true
has_failed _ = false

abbrev pub is_terminated : AgentSessionStatus → Bool
is_terminated terminated = true
is_terminated _ = false

abbrev has_no_parent : Option String → Bool
has_no_parent none = true
has_no_parent (some p) = false

-- How many sessions are in such a state.
abbrev pub how_many : (AgentSessionStatus → Bool) → List AgentSession → ℕ
how_many p sessions = length (filter (λ s. p s.status) sessions)

-- A counter that each session of such a state raises by one, and no other session.
module _ (counter : HarnessMetrics → ℕ) (p : AgentSessionStatus → Bool)
    (step : (s : AgentSession) (m : HarnessMetrics)
      → counter (tally s m) ≡ (if p s.status then next_u32 (counter m) else counter m)) where
  counter-tally_all :
      (sessions : List AgentSession) (m : HarnessMetrics)
      → counter m + length sessions < 2 ^ 32
      → counter (tally_all sessions m) ≡ counter m + how_many p sessions
  unfolding tally_all
  counter-tally_all [] m small = omega arith
  counter-tally_all (s ∷ rest) m small = elim (Bool-cases (p s.status)) [
    | inl yes_ ↦
        let one : counter (tally s m) ≡ next_u32 (counter m) = step s m ∙ rw yes_ refl in
        rw yes_ (omega (arith, one, counter-tally_all rest (tally s m) (omega (arith, one))))
    | inr no_ ↦
        let one : counter (tally s m) ≡ counter m = step s m ∙ rw no_ refl in
        rw no_ (omega (arith, one, counter-tally_all rest (tally s m) (omega (arith, one))))
  ]

-- The ids of the sessions without a parent.
abbrev pub root_ids : List AgentSession → List String
root_ids sessions = map (λ s. s.session_id) (filter (λ s. has_no_parent s.parent_session) sessions)

append-note_root :
    (s : AgentSession) (roots later : List String)
    → note_root s roots ++ later
      ≡ roots ++ (if has_no_parent s.parent_session then s.session_id ∷ later else later)
append-note_root s roots later = elim (Option-cases s.parent_session) [
  | inl root ↦ rw root (append_assoc roots (s.session_id ∷ []) later)
  | inr (parent, child) ↦ rw child refl
]

root_ids-cons :
    (s : AgentSession) (rest : List AgentSession)
    → root_ids (s ∷ rest)
      ≡ (if has_no_parent s.parent_session then s.session_id ∷ root_ids rest else root_ids rest)
root_ids-cons s rest = elim (Bool-cases (has_no_parent s.parent_session)) [
  | inl root ↦ rw root refl
  | inr child ↦ rw child refl
]

roots-tally_all :
    (sessions : List AgentSession) (m : HarnessMetrics)
    → (tally_all sessions m).roots ≡ m.roots ++ root_ids sessions
unfolding tally_all tally
roots-tally_all [] m = sym (append-nil m.roots)
roots-tally_all (s ∷ rest) m =
    roots-tally_all rest (tally s m)
    ∙ append-note_root s m.roots (root_ids rest)
    ∙ ap (λ ids. m.roots ++ ids) (sym (root_ids-cons s rest))

-- The counter of this state goes up by one, and the other four stay.
abbrev CountedOnce : AgentSessionStatus → HarnessMetrics → HarnessMetrics → Type 0
CountedOnce st m m' =
    (m'.active_sessions ≡ (if is_running st then next_u32 m.active_sessions else m.active_sessions))
    × (m'.idle_sessions ≡ (if is_idle st then next_u32 m.idle_sessions else m.idle_sessions))
    × (m'.completed_sessions
        ≡ (if is_ready st then next_u32 m.completed_sessions else m.completed_sessions))
    × (m'.failed_sessions
        ≡ (if has_failed st then next_u32 m.failed_sessions else m.failed_sessions))
    × (m'.terminated_sessions
        ≡ (if is_terminated st then next_u32 m.terminated_sessions else m.terminated_sessions))

count_status-once :
    (st : AgentSessionStatus) (m : HarnessMetrics) → CountedOnce st m (count_status st m)
count_status-once idle m = (refl, refl, refl, refl, refl)
count_status-once running m = (refl, refl, refl, refl, refl)
count_status-once ready m = (refl, refl, refl, refl, refl)
count_status-once (failed e) m = (refl, refl, refl, refl, refl)
count_status-once terminated m = (refl, refl, refl, refl, refl)

tally-once : (s : AgentSession) (m : HarnessMetrics) → CountedOnce s.status m (tally s m)
unfolding tally
tally-once s m = count_status-once s.status m

-- For counters that stay below 2 ^ 32, the counter of each state goes up by the number of sessions
-- in that state: running ones are active, ready ones completed. The ids of the sessions without a
-- parent are added to the roots, in order.
pub tally_all-counts :
    (sessions : List AgentSession) (m : HarnessMetrics)
    → (m.active_sessions + length sessions < 2 ^ 32)
    → (m.idle_sessions + length sessions < 2 ^ 32)
    → (m.completed_sessions + length sessions < 2 ^ 32)
    → (m.failed_sessions + length sessions < 2 ^ 32)
    → (m.terminated_sessions + length sessions < 2 ^ 32)
    → ((tally_all sessions m).active_sessions ≡ m.active_sessions + how_many is_running sessions)
      × ((tally_all sessions m).idle_sessions ≡ m.idle_sessions + how_many is_idle sessions)
      × ((tally_all sessions m).completed_sessions
          ≡ m.completed_sessions + how_many is_ready sessions)
      × ((tally_all sessions m).failed_sessions ≡ m.failed_sessions + how_many has_failed sessions)
      × ((tally_all sessions m).terminated_sessions
          ≡ m.terminated_sessions + how_many is_terminated sessions)
      × ((tally_all sessions m).roots ≡ m.roots ++ root_ids sessions)
tally_all-counts sessions m a i c f t = (
  counter-tally_all (λ n. n.active_sessions) is_running (λ s n. (tally-once s n).0) sessions m a,
  counter-tally_all (λ n. n.idle_sessions) is_idle (λ s n. (tally-once s n).1) sessions m i,
  counter-tally_all (λ n. n.completed_sessions) is_ready (λ s n. (tally-once s n).2) sessions m c,
  counter-tally_all (λ n. n.failed_sessions) has_failed (λ s n. (tally-once s n).3) sessions m f,
  counter-tally_all (λ n. n.terminated_sessions) is_terminated (λ s n. (tally-once s n).4) sessions
      m t,
  roots-tally_all sessions m,
)
