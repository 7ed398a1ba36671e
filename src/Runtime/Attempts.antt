-- ===== src/Runtime/Attempts.antt =====
-- `execute_node_with_policy` of src/runtime/mod.rs: the attempts at one node. What an attempt gives
-- is up to the caller's closure `run_node` and the timer, so it is a parameter: a function from the
-- number of the attempt to its outcome.
use cli_agent.Common.{
  ℕ, zero, suc, ◌+◌, ◌%◌, ◌^◌, ◌≤◌, ◌<◌, min, String, ◌≡◌, refl, subst, ◌⊎◌, inl, inr, true, false,
  none, some, List, [], ◌∷◌, arith, ltb, if◌then◌else◌, nat_eq, string_eq, length, All,
}
use native.Mathlib.Decide.{dec_le}
use native.Mathlib.Nat.{one-le-pow}
use cli_agent.Common.Show.{show}
use cli_agent.Common.Texts.{◌<>◌}
use cli_agent.Runtime.{NodeExecutionResult}
use cli_agent.Graph.{AgentNode}

-- `Ok(Ok(output))`, `Ok(Err(err))` and `Err(_)` of the awaited timeout.
pub data Attempt : Type 0 where
  returned : NodeExecutionResult → Attempt
  raised : String → Attempt
  timed_out : Attempt

pub data Execution : Type 0 where
  ok : NodeExecutionResult → Execution
  err : String → Execution

-- `(1u64 << attempt).min(30)`: a shift by 64 or more takes the amount modulo 64 where overflow is
-- not checked, which is the release profile.
unfoldable pub backoff_secs : ℕ → ℕ
backoff_secs attempt = min (2 ^ (attempt % 64)) 30

unfoldable pub failure_message : NodeExecutionResult → String
failure_message output = elim output.error [ none ↦ "node execution reported failure" | some e ↦ e ]

unfoldable pub timeout_message : AgentNode → String
unfolding show
timeout_message node =
    "node " <> node.id <> " timed out after " <> show node.policy.timeout_ms <> "ms"

-- The successful output of an attempt, or the error that it leaves in `last_error`.
unfoldable pub judge : AgentNode → Attempt → Execution
unfolding failure_message timeout_message
judge node (returned output) = if output.succeeded then ok output else err (failure_message output)
judge node (raised e) = err e
judge node timed_out = err (timeout_message node)

-- The outcome, the number of attempts that were made, and the seconds slept between them.
pub record Trace : Type 0 where
  pub result : Execution
  pub calls : ℕ
  pub sleeps : List ℕ

-- The end of a round: the sleep before the next attempt, then that attempt.
abbrev pub after_failure : ℕ → ℕ → Trace → Trace
after_failure retry attempt next = record {
  result = next.result;
  calls = suc next.calls;
  sleeps = if ltb attempt retry then backoff_secs attempt ∷ next.sleeps else next.sleeps;
}

module _ (run : ℕ → Attempt) (node : AgentNode) where
  -- The loop `for attempt in 0..=node.policy.retry` with `left` rounds to go.
  unfoldable pub attempts : ℕ → ℕ → String → Trace
  unfolding judge backoff_secs
  attempts zero attempt last_error = record { result = err last_error; calls = 0; sleeps = [] }
  attempts (suc left) attempt last_error = elim (judge node (run attempt)) [
    | ok output ↦ record { result = ok output; calls = 1; sleeps = [] }
    | err e ↦ after_failure node.policy.retry attempt (attempts left (suc attempt) e)
  ]

  unfoldable pub execute_node_with_policy : Trace
  unfolding attempts
  execute_node_with_policy = attempts (suc node.policy.retry) 0 "node execution failed"

-- Attempt `k` is the first that succeeds, and it gives `output`.
abbrev pub FirstSuccess : (ℕ → Attempt) → AgentNode → ℕ → NodeExecutionResult → Type 0
FirstSuccess run node k output =
    (judge node (run k) ≡ ok output)
    × ((j : ℕ) → j < k → (e : String) × (judge node (run j) ≡ err e))

judge_succeeded :
    (node : AgentNode) (a : Attempt) {output : NodeExecutionResult}
    → judge node a ≡ ok output
    → output.succeeded ≡ true
unfolding judge
judge_succeeded node a h = ground arith

abbrev Fails : (ℕ → Attempt) → AgentNode → ℕ → Type 0
Fails run node j = (e : String) × (judge node (run j) ≡ err e)

Execution-cases :
    (x : Execution) → ((o : NodeExecutionResult) × (x ≡ ok o)) ⊎ ((e : String) × (x ≡ err e))
Execution-cases (ok o) = inl (o, refl)
Execution-cases (err e) = inr (e, refl)

module _ (run : ℕ → Attempt) (node : AgentNode) where
  -- From attempt `from` on, `left` attempts are made: up to the first success, or all of them.
  abbrev Stops : ℕ → ℕ → Trace → Type 0
  Stops from left t =
      ((k : ℕ) × (o : NodeExecutionResult) × (from ≤ k)
        × (k < from + left)
        × (judge node (run k) ≡ ok o)
        × ((j : ℕ) → from ≤ j → j < k → Fails run node j)
        × (t.result ≡ ok o)
        × (t.calls + from ≡ suc k))
      ⊎ ((e : String) × (t.result ≡ err e)
          × ((j : ℕ) → from ≤ j → j < from + left → Fails run node j)
          × (t.calls ≡ left))

  first_or_later :
      (from bound : ℕ)
      → Fails run node from
      → ((j : ℕ) → suc from ≤ j → j < bound → Fails run node j)
      → (j : ℕ) → from ≤ j
      → j < bound
      → Fails run node j
  first_or_later from bound first later j lo hi = elim (dec_le (suc from) j) [
    | yes h ↦ later j h hi
    | no h ↦ subst (Fails run node) {x = from} (omega arith) first
  ]

  after_failure-Stops :
      (from left : ℕ) (t : Trace)
      → Fails run node from
      → Stops (suc from) left t
      → Stops from (suc left) (after_failure node.policy.retry from t)
  after_failure-Stops from left t fails (inl (k, o, lo, hi, good, bad, r, c)) =
      inl (k, o, omega arith, omega arith, good, first_or_later from k fails bad, r, omega arith)
  after_failure-Stops from left t fails (inr (e, r, bad, c)) = inr (
    e,
    r,
    λ j lo hi. first_or_later from (suc from + left) fails bad j lo (omega arith),
    omega arith,
  )

  attempts-Stops :
      (left from : ℕ) (last_error : String)
      → Stops from left (attempts run node left from last_error)
  unfolding attempts
  attempts-Stops zero from last_error =
      inr (last_error, refl, λ j lo hi. absurd (omega arith), refl)
  attempts-Stops (suc left) from last_error = elim (Execution-cases (judge node (run from))) [
    | inl (o, good) ↦
        rw (good, attempts)
          (inl (
            from,
            o,
            omega arith,
            omega arith,
            good,
            λ j lo hi. absurd (omega arith),
            refl,
            omega arith,
          ))
    | inr (e, bad) ↦
        rw (bad, attempts)
          (after_failure-Stops from left (attempts run node left (suc from) e) (e, bad)
            (attempts-Stops left (suc from) e))
  ]

-- The node is tried at most `retry + 1` times. Either the result is the output of the first
-- successful attempt, and no attempt is made behind it; or all `retry + 1` attempts were made,
-- all of them failed, and the result is an error.
pub execute_node_cases :
    (run : ℕ → Attempt) (node : AgentNode)
    → ((k : ℕ) × (o : NodeExecutionResult) × (k ≤ node.policy.retry)
        × FirstSuccess run node k o
        × ((execute_node_with_policy run node).result ≡ ok o)
        × ((execute_node_with_policy run node).calls ≡ suc k))
      ⊎ ((e : String) × ((execute_node_with_policy run node).result ≡ err e)
          × ((j : ℕ) → j ≤ node.policy.retry → (e' : String) × (judge node (run j) ≡ err e'))
          × ((execute_node_with_policy run node).calls ≡ suc node.policy.retry))
unfolding execute_node_with_policy
execute_node_cases run node =
    elim (attempts-Stops run node (suc node.policy.retry) 0 "node execution failed") [
      | inl (k, o, lo, hi, good, bad, r, c) ↦
          inl (k, o, omega arith, (good, λ j h. bad j (omega arith) h), r, omega arith)
      | inr (e, r, bad, c) ↦ inr (e, r, λ j h. bad j (omega arith) (omega arith), c)
    ]

-- A node that is reported as done reports success: an output that says it failed becomes an error.
pub execute_node_succeeded :
    (run : ℕ → Attempt) (node : AgentNode) {o : NodeExecutionResult}
    → (execute_node_with_policy run node).result ≡ ok o
    → o.succeeded ≡ true
execute_node_succeeded run node h = elim (execute_node_cases run node) [
  | inl (k, o, _, fits, r, _) ↦ cc (judge_succeeded node (run k) fits.0)
  | inr (e, r, _, _) ↦ cc
]

-- The sleep before the next attempt is never zero and never above 30 seconds.
backoff_secs_bounds : (attempt : ℕ) → (1 ≤ backoff_secs attempt) × (backoff_secs attempt ≤ 30)
unfolding backoff_secs
backoff_secs_bounds attempt =
    (omega (arith, one-le-pow (attempt % 64) 2 (omega arith)), omega arith)

module _ (run : ℕ → Attempt) (node : AgentNode) where
  -- One sleep for each attempt but the last, each of the backoff's length.
  abbrev Paced : ℕ → Trace → Type 0
  Paced left t =
      (t.calls ≤ left) × (length t.sleeps + 1 ≡ t.calls) × All (λ s. (1 ≤ s) × (s ≤ 30)) t.sleeps

  last_not_below : (from : ℕ) → from + 0 ≡ node.policy.retry → ltb from node.policy.retry ≡ false
  last_not_below from h = ground arith

  earlier_below :
      (from left : ℕ) → from + suc left ≡ node.policy.retry → ltb from node.policy.retry ≡ true
  earlier_below from left h = ground arith

  attempts-Paced :
      (left from : ℕ) (last_error : String)
      → from + left ≡ node.policy.retry
      → Paced (suc left) (attempts run node (suc left) from last_error)
  unfolding attempts
  attempts-Paced zero from last_error h = elim (Execution-cases (judge node (run from))) [
    | inl (o, good) ↦ rw (good, attempts) (omega arith, omega arith, tt)
    | inr (e, bad) ↦ rw (bad, attempts, last_not_below from h) (omega arith, omega arith, tt)
  ]
  attempts-Paced (suc left) from last_error h = elim (Execution-cases (judge node (run from))) [
    | inl (o, good) ↦ rw (good, attempts) (omega arith, omega arith, tt)
    | inr (e, bad) ↦
        let (few, spaced, paced) = attempts-Paced left (suc from) e (omega arith) in
        rw (bad, attempts, earlier_below from left h)
          (
            omega arith,
            omega arith,
            (((backoff_secs_bounds from).0, (backoff_secs_bounds from).1), paced),
          )
  ]

-- The loop sleeps once between two attempts, never behind the last, for one to thirty seconds.
pub execute_node_sleeps :
    (run : ℕ → Attempt) (node : AgentNode)
    → (length (execute_node_with_policy run node).sleeps + 1
        ≡ (execute_node_with_policy run node).calls)
      × All (λ s. (1 ≤ s) × (s ≤ 30)) (execute_node_with_policy run node).sleeps
unfolding execute_node_with_policy
execute_node_sleeps run node =
    let (_, spaced, paced) =
      attempts-Paced run node node.policy.retry 0 "node execution failed" (omega arith) in
    (spaced, paced)
