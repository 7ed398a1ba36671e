-- ===== src/Lib.antt =====
-- The core of cli-agent, a runner of multi-agent tasks: a run is a graph of agent nodes, and an
-- executor starts the nodes whose dependencies are met, retries them, switches to fallbacks, takes
-- in nodes that are added while it runs, and stops when the run is cancelled or cannot go on.
-- Requests from outside are signed, and events go out to registered endpoints.
--
-- Types (src/types.rs): the roles of agents, the profiles of tasks, token counts.
-- Graph (src/runtime/graph.rs): `ExecutionGraph` with all its operations; the functions keep their
--   names. Graph.Cycle is about the search for cycles, Graph.Valid about what `add_node` accepts
--   and the well-formed graphs, Graph.Keeps about the other operations.
-- Runtime (src/runtime/mod.rs): the results of nodes, the events, `is_runnable`,
--   `select_next_node` and `resolve_blocked_nodes`. Runtime.Attempts is
--   `execute_node_with_policy`, and Runtime.Loop `execute_graph_with_pause_notify`: `launch` is
--   the inner loop, `idle` the part of a round in which nothing runs, `join_next` the rest of it,
--   `round` one round and `run_rounds` a sequence of rounds. The modules below Runtime.Loop are
--   named for what they are about.
-- Crypto (src/crypto.rs): the comparison in constant time and the hexadecimal form of a digest.
-- Webhook (src/webhook/mod.rs): `AuthManager`, which checks signed requests; Webhook.Accepts and
--   Webhook.Replay are about what it accepts. Webhook.Dispatch is `WebhookDispatcher`, and
--   Webhook.Delivery and Webhook.Rows are about the rows that it stores. The hash function, the
--   headers, the clock and the answers to requests are arguments.
-- RunControl (src/orchestrator/mod.rs, src/types.rs): `cancel_run`, `pause_run` and `resume_run`
--   with the two flags that the run loop reads; the modules below it are about sequences of them.
-- Harness (src/harness/mod.rs): the sessions of agents; Harness.Bus (src/harness/message_bus.rs) the
--   mailboxes between them, and Harness.Usage and Harness.Bus.Order are about what they keep;
--   Harness.SubAgents is src/harness/sub_agent.rs, without its snapshot of the tree, and
--   Harness.Metrics the counters of src/harness/metrics.rs.
-- Subtasks (src/orchestrator/completion.rs): `validate_subtask_plan`, the checks of a planner's plan with
--   the search for cycles on a stack of its own. Subtasks.Marks, Subtasks.Frames, Subtasks.Search,
--   Subtasks.Starts and Subtasks.Ranked are about that search, Subtasks.Terminates about its end, Subtasks.Accepts about
--   the plans that are accepted.
-- Classifier (src/orchestrator/task_classifier.rs, and `contains_word` of src/orchestrator/helpers.rs):
--   the type of a task from its words, or from the answer of a model; Classifier.Words is about
--   `contains_word`.
-- GraphBuilder (src/orchestrator/graph_builder.rs): the graphs that runs start with, by the type of the
--   task, those of a recovery and a follow-up; GraphBuilder.Templates makes those of workflow
--   templates. GraphBuilder.Prompts
--   holds the instructions of the planners, with `trim_for_context` of
--   src/orchestrator/context_builder.rs; GraphBuilder.Admits and Graph.Ordered are about the addition
--   of all their nodes.
-- Completion (src/orchestrator/completion.rs): the callback `on_completed` of the run loop, one function
--   for each of its branches; Completion.Json is `extract_json_object` of
--   src/orchestrator/helpers.rs. Completion.Plans and Completion.Late are about accepted plans in the
--   run loop, Completion.Adds about the other answers, Completion.Failed about validators that fail,
--   Completion.Rounds about the numbers in the ids of the loops. Completion.Verdict is
--   `parse_reviewer_verdict`, and Completion.Justified what its verdicts rest on.
-- The modules called Samples and Tests hold concrete inputs and runs.
--
-- Mutation is written as a function from the old state to the new one; an operation that can fail
-- returns the state beside the error, since the source changes the graph in place. Hash maps and
-- sets are association lists (Common.Map, Common.Set); no theorem depends on their order, which in
-- the source is arbitrary. Machine integers are natural numbers, or integers for `i64`, where the
-- wrap-around of the release profile is written out (Common.Int); where the source saturates or
-- shifts, so is the bound. Texts become bytes by UTF-8 (Common.Bytes). A round of the loop takes a
-- `Tick`, which holds what the environment decides: the two flags, the task that ends and how, and
-- the answer of the callback. So a list of ticks is an interleaving, and the theorems are about
-- every list. The flags are read once a round, and the wait of a paused run changes no state.
--
-- Fuel: `dfs` goes one node deeper with each unit and a path has no node twice, so one unit more
-- than there are nodes is enough; the inner loop adds a running node each turn, so as many turns
-- as the limit are enough. The search in a plan uses up a dependency or a subtask each turn.
--
-- Not modelled: what a node does (models, tools, processes, git), the orchestrator around the run
-- loop but for its graphs, its callback and the three requests above, storage, the HTTP and terminal
-- interfaces, the chat gateways and the web front end. These are input and output around the code
-- here, or calls of services. The parsers of JSON (serde), `to_lowercase` and the resolution of
-- personas are arguments of the functions that use them.
mod Common
pub mod Types
pub mod Crypto
pub mod Webhook
pub mod Graph
pub mod RunControl
pub mod Harness
pub mod Subtasks
pub mod Classifier
pub mod GraphBuilder
pub mod Completion
pub mod Runtime
