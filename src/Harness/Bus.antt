-- ===== src/Harness/Bus.antt =====
-- src/harness/message_bus.rs: the mailboxes of sessions. A mailbox is the queue of its channel;
-- `sent_at` is left out.
pub mod Order
use cli_agent.Common.{
  ℕ, max, String, string_eq, ◌≡◌, Bool, true, false, Option, none, some, List, [], ◌∷◌, ◌++◌,
  if◌then◌else◌, ltb, length,
}
use cli_agent.Common.Map
use cli_agent.Common.Map.{Map}

pub data MessageKind : Type 0 where
  query feedback delegation status : MessageKind

pub record AgentMessage : Type 0 where
  pub from_session : String
  pub to_session : String
  pub kind : MessageKind
  pub body : String

pub record MessageBus : Type 0 where
  pub boxes : Map String (List AgentMessage)
  pub queue_cap : ℕ

abbrev pub default_queue_cap : ℕ
default_queue_cap = 64

abbrev pub new_bus : MessageBus
new_bus = record { boxes = []; queue_cap = default_queue_cap }

abbrev pub with_queue_cap : ℕ → MessageBus
with_queue_cap cap = record { boxes = []; queue_cap = max cap 1 }

unfoldable pub ensure_mailbox : String → MessageBus → MessageBus
ensure_mailbox id b =
    if Map.contains_key id b.boxes then b else record b { boxes = Map.insert id [] b.boxes }

-- What becomes of a `send`: it is done, or it waits for room in a full mailbox.
pub data Sending : Type 0 where
  sent : MessageBus → Sending
  waits : MessageBus → Sending
  no_mailbox : MessageBus → Sending

abbrev put : AgentMessage → MessageBus → Option (List AgentMessage) → Sending
put msg b none = no_mailbox b
put msg b (some queue) =
    if ltb (length queue) b.queue_cap
    then sent (record b { boxes = Map.insert msg.to_session (queue ++ msg ∷ []) b.boxes })
    else waits b

unfoldable pub send : AgentMessage → MessageBus → Sending
unfolding ensure_mailbox
send msg b =
    let ready = ensure_mailbox msg.to_session b in
    put msg ready (Map.get msg.to_session ready.boxes)

-- The oldest message of a mailbox, and the bus without it.
unfoldable pub try_recv : String → MessageBus → Option AgentMessage × MessageBus
try_recv id b = elim (Map.get id b.boxes) [
  | none ↦ (none, b)
  | some [] ↦ (none, b)
  | some (msg ∷ queue) ↦ (some msg, record b { boxes = Map.insert id queue b.boxes })
]

unfoldable pub drain : String → MessageBus → List AgentMessage × MessageBus
drain id b = elim (Map.get id b.boxes) [
  | none ↦ ([], b)
  | some queue ↦ (queue, record b { boxes = Map.insert id [] b.boxes })
]

unfoldable pub close : String → MessageBus → MessageBus
close id b = record b { boxes = Map.remove id b.boxes }

-- A sequence of sends; it stops with the first that waits or fails.
unfoldable pub send_all : List AgentMessage → MessageBus → Option MessageBus
unfolding send
send_all [] b = some b
send_all (msg ∷ msgs) b = elim (send msg b) [
  | sent b' ↦ send_all msgs b'
  | waits b' ↦ none
  | no_mailbox b' ↦ none
]
