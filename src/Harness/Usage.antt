-- ===== src/Harness/Usage.antt =====
-- What a session adds up over its outputs.
use cli_agent.Common.{
  ℕ, ◌+◌, ◌≤◌, min, string_eq, ◌≡◌, Option, none, some, List, [], ◌∷◌, length, All, arith,
}
use cli_agent.Types.{TokenUsage, merge, u32_max}
use cli_agent.Harness.{AgentOutput, AgentSession, note_output, add_usage}

unfoldable pub note_all : List AgentOutput → AgentSession → AgentSession
note_all [] s = s
note_all (output ∷ outputs) s = note_all outputs (note_output output s)

abbrev pub input_of : Option TokenUsage → ℕ
input_of none = 0
input_of (some u) = u.input_tokens

-- The tokens of the outputs that report their usage.
unfoldable pub input_sum : List AgentOutput → ℕ
input_sum [] = 0
input_sum (o ∷ outputs) = input_of o.usage + input_sum outputs

add_usage-input :
    (before used : Option TokenUsage)
    → input_of before ≤ u32_max
    → input_of used ≤ u32_max
    → input_of (add_usage before used) ≡ min (input_of before + input_of used) u32_max
unfolding add_usage merge
add_usage-input none none hb hu = omega arith
add_usage-input none (some u) hb hu = omega arith
add_usage-input (some v) none hb hu = omega arith
add_usage-input (some v) (some u) hb hu = omega arith

-- The number of calls that a session counts is that of the recorded outputs, and its input tokens are
-- those of the outputs that report them, both cut off at the largest `u32`.
pub note_all-sums :
    (outputs : List AgentOutput) (s : AgentSession)
    → s.iteration_count ≤ u32_max
    → input_of s.total_usage ≤ u32_max
    → All (λ o. input_of o.usage ≤ u32_max) outputs
    → ((note_all outputs s).iteration_count ≡ min (s.iteration_count + length outputs) u32_max)
      × (input_of (note_all outputs s).total_usage
          ≡ min (input_of s.total_usage + input_sum outputs) u32_max)
unfolding note_all input_sum note_output
note_all-sums [] s hi ht h = (omega arith, omega arith)
note_all-sums (o ∷ outputs) s hi ht (hu, h) =
    let e = add_usage-input s.total_usage o.usage ht hu in
    let (i, t) = note_all-sums outputs (note_output o s) (omega arith) (omega (arith, e)) h in
    (omega (arith, i), omega (arith, t, e))
