-- ===== src/Harness/Tests.antt =====
-- Sessions and messages on which the theorems on them are tried.
use cli_agent.Common.{
  ◌+◌, string_eq, ◌≡◌, refl, Option, none, some, List, [], ◌∷◌, ◌++◌, filter, ◌==◌, arith,
}
use cli_agent.Common.Map
use cli_agent.Types.{planner, coder, tool_caller}
use cli_agent.Harness.SubAgents.{escalate_to_planner, classify_child_failure}
use cli_agent.Harness.Metrics.{
  role_key, tally_all, no_metrics, tally_all-counts, how_many, is_running, is_idle, is_ready,
  has_failed, is_terminated, root_ids,
}
use cli_agent.Harness.{
  failed, AgentHarness, AgentSession, create_session, record_error, AgentOutput, ready, new_session,
  new_harness, note_output, produced, begin_spawn, finish_call, link_child, session_status,
}
use cli_agent.Harness.Bus.{
  AgentMessage, query, status, MessageBus, new_bus, with_queue_cap, send_all, drain,
}
use cli_agent.Harness.Bus.Order.{pending, drain-send_all}
use cli_agent.Harness.Usage.{note_all, input_of, input_sum, note_all-sums}

abbrev output : AgentOutput
output = record {
  model = "m";
  content = "done";
  usage = some (record { input_tokens = 10; output_tokens = 3 });
}

note_all-sums_example :
    ((note_all (output ∷ output ∷ []) (new_session "s1" planner none)).iteration_count ≡ 2)
    × (input_of (note_all (output ∷ output ∷ []) (new_session "s1" planner none)).total_usage ≡ 20)
unfolding input_sum
note_all-sums_example =
    note_all-sums (output ∷ output ∷ []) (new_session "s1" planner none) (omega arith) (omega arith)
      (omega arith, (omega arith, tt))

spawned :
    session_status "s1"
      (finish_call "s1" (produced output) (begin_spawn "s1" planner none new_harness))
    ≡ some ready
unfolding finish_call begin_spawn Map.get Map.modify Map.insert link_child note_output
spawned = refl

abbrev question : AgentMessage
question = record { from_session = "b"; to_session = "a"; kind = query; body = "which file?" }

abbrev beat : AgentMessage
beat = record { from_session = "b"; to_session = "c"; kind = status; body = "half way" }

abbrev bus_of : Option MessageBus → MessageBus
bus_of none = new_bus
bus_of (some b) = b

abbrev sent_three : MessageBus
sent_three = bus_of (send_all (question ∷ beat ∷ question ∷ []) new_bus)

three_sent : send_all (question ∷ beat ∷ question ∷ []) new_bus ≡ some sent_three
unfolding send_all Map.get Map.insert
three_sent = refl

drain-send_all_example :
    (drain "a" sent_three).0
    ≡ pending "a" new_bus ++ filter (λ m. m.to_session == "a") (question ∷ beat ∷ question ∷ [])
drain-send_all_example =
    drain-send_all (question ∷ beat ∷ question ∷ []) new_bus sent_three "a" three_sent

-- A full mailbox makes the sender wait; the call gives no error.
full_waits : send_all (question ∷ question ∷ []) (with_queue_cap 1) ≡ none
unfolding send_all Map.get Map.insert
full_waits = refl

-- A parent with two children, of which one fails.
abbrev family : AgentHarness
family =
    create_session "c2" coder (some "p")
      (create_session "c1" coder (some "p") (create_session "p" planner none new_harness))

abbrev parent_of : Option AgentSession → AgentSession
parent_of none = new_session "" planner none
parent_of (some s) = s

abbrev parent : AgentSession
parent = parent_of (Map.get "p" (record_error "c1" "no answer" family).sessions)

half_failed : (classify_child_failure "p" "c1" "no answer" family).1 ≡ some escalate_to_planner
unfolding classify_child_failure Map.get Map.modify create_session Map.insert link_child
half_failed = refl

-- The keys of the roles are not their names.
keys_differ : role_key tool_caller ≡ "toolcaller"
keys_differ = refl

-- A session in each of three states.
abbrev three : List AgentSession
three =
    new_session "a" planner none
    ∷ record (new_session "b" coder (some "a")) { status = failed "no answer" }
    ∷ record (new_session "c" coder (some "a")) { status = ready }
    ∷ []

tally_all-counts_example :
    ((tally_all three no_metrics).active_sessions ≡ 0 + how_many is_running three)
    × ((tally_all three no_metrics).idle_sessions ≡ 0 + how_many is_idle three)
    × ((tally_all three no_metrics).completed_sessions ≡ 0 + how_many is_ready three)
    × ((tally_all three no_metrics).failed_sessions ≡ 0 + how_many has_failed three)
    × ((tally_all three no_metrics).terminated_sessions ≡ 0 + how_many is_terminated three)
    × ((tally_all three no_metrics).roots ≡ [] ++ root_ids three)
tally_all-counts_example =
    tally_all-counts three no_metrics (omega arith) (omega arith) (omega arith) (omega arith)
      (omega arith)
