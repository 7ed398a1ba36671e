-- ===== src/Harness/Bus/Order.antt =====
-- The order in which messages arrive.
use cli_agent.Common.{
  String, string_eq, ◌≡◌, refl, sym, ap, subst, ◌∙◌, true, some, List, [], ◌∷◌, ◌++◌, if◌then◌else◌,
  ltb, length, filter, ◌==◌, eq_of_==, arith, inl, inr, ◌⊎◌, Bool-cases, Option-cases,
}
use cli_agent.Common.Map
use cli_agent.Harness.Bus.{
  AgentMessage, MessageBus, Sending, sent, waits, no_mailbox, put, ensure_mailbox, send, drain,
  send_all,
}

-- What lies in the mailbox of a session.
abbrev pub pending : String → MessageBus → List AgentMessage
pending id b = Map.get_or id [] b.boxes

ensure_mailbox-pending :
    (id other : String) (b : MessageBus) → pending other (ensure_mailbox id b) ≡ pending other b
unfolding ensure_mailbox
ensure_mailbox-pending id other b =
    ground (arith, Map.get-insert {V = List AgentMessage} id other [] b.boxes, eq_of_== id other)

bus_inj : {b b' : MessageBus} → some b ≡ some b' → b ≡ b'
bus_inj e = cc e

drained : (id : String) (b : MessageBus) → (drain id b).0 ≡ pending id b
unfolding drain
drained id b = ground (arith, Option-cases (Map.get id b.boxes))

sent_inj : {b b' : MessageBus} → sent b ≡ sent b' → b ≡ b'
sent_inj e = cc e

-- The bus with a message behind the queue of its mailbox.
abbrev stored : AgentMessage → List AgentMessage → MessageBus → MessageBus
stored msg queue b = record b { boxes = Map.insert msg.to_session (queue ++ msg ∷ []) b.boxes }

put_lem :
    (msg : AgentMessage) (b : MessageBus) (queue : List AgentMessage)
    → Map.get msg.to_session b.boxes ≡ some queue
    → ltb (length queue) b.queue_cap ≡ true
    → put msg b (Map.get msg.to_session b.boxes) ≡ sent (stored msg queue b)
put_lem msg b queue found room = rw (found, room) refl

stored-pending :
    (msg : AgentMessage) (b : MessageBus) (queue : List AgentMessage) (id : String)
    → Map.get msg.to_session b.boxes ≡ some queue
    → pending id (stored msg queue b)
      ≡ (if msg.to_session == id then pending id b ++ msg ∷ [] else pending id b)
stored-pending msg b queue id found = elim (Bool-cases (msg.to_session == id)) [
  | inl own ↦
      let here : Map.get id b.boxes ≡ some queue =
        subst (λ i. Map.get i b.boxes ≡ some queue) (eq_of_== msg.to_session id own) found in
      ground (arith, Map.get-insert msg.to_session id (queue ++ msg ∷ []) b.boxes, own, here)
  | inr foreign ↦
      ground (arith, Map.get-insert msg.to_session id (queue ++ msg ∷ []) b.boxes, foreign)
]

put-pending :
    (msg : AgentMessage) (b b' : MessageBus) (id : String)
    → put msg b (Map.get msg.to_session b.boxes) ≡ sent b'
    → pending id b' ≡ (if msg.to_session == id then pending id b ++ msg ∷ [] else pending id b)
put-pending msg b b' id e = elim (Option-cases (Map.get msg.to_session b.boxes)) [
  | inl missing ↦ absurd (ground (arith, e, missing))
  | inr (queue, found) ↦ elim (Bool-cases (ltb (length queue) b.queue_cap)) [
    | inr full ↦ absurd (ground (arith, e, found, full))
    | inl room ↦
        subst
          (λ x.
            pending id x
            ≡ (if msg.to_session == id then pending id b ++ msg ∷ [] else pending id b))
          (sent_inj (sym (put_lem msg b queue found room) ∙ e))
          (stored-pending msg b queue id found)
  ]
]

-- A message that was sent stands behind those of its mailbox, and the other mailboxes are as they were.
send-pending :
    (msg : AgentMessage) (b b' : MessageBus) (id : String)
    → send msg b ≡ sent b'
    → pending id b' ≡ (if msg.to_session == id then pending id b ++ msg ∷ [] else pending id b)
unfolding send
send-pending msg b b' id e =
    subst (λ p. pending id b' ≡ (if msg.to_session == id then p ++ msg ∷ [] else p))
      (ensure_mailbox-pending msg.to_session id b)
      (put-pending msg (ensure_mailbox msg.to_session b) b' id e)

++-one :
    (xs : List AgentMessage) (m : AgentMessage) (ys : List AgentMessage)
    → (xs ++ m ∷ []) ++ ys ≡ xs ++ m ∷ ys
++-one [] m ys = refl
++-one (x ∷ xs) m ys = ap (λ l. x ∷ l) (++-one xs m ys)

++-nil : (xs : List AgentMessage) → xs ++ [] ≡ xs
++-nil [] = refl
++-nil (x ∷ xs) = ap (λ l. x ∷ l) (++-nil xs)

Sending-cases :
    (s : Sending)
    → ((b : MessageBus) × (s ≡ sent b))
      ⊎ ((b : MessageBus) × (s ≡ waits b))
      ⊎ ((b : MessageBus) × (s ≡ no_mailbox b))
Sending-cases (sent b) = inl (b, refl)
Sending-cases (waits b) = inr (inl (b, refl))
Sending-cases (no_mailbox b) = inr (inr (b, refl))

send_all_first :
    (msg : AgentMessage) (msgs : List AgentMessage) (b b' : MessageBus)
    → send msg b ≡ sent b'
    → send_all (msg ∷ msgs) b ≡ send_all msgs b'
unfolding send_all
send_all_first msg msgs b b' sends = rw (send_all, sends) refl

-- Messages arrive in order and nothing is lost: where a sequence of sends gets through, draining the
-- mailbox of a session gives what was in it, then the messages to that session in the order in which
-- they were sent, and no other.
pub drain-send_all :
    (msgs : List AgentMessage) (b b' : MessageBus) (id : String)
    → send_all msgs b ≡ some b'
    → (drain id b').0 ≡ pending id b ++ filter (λ m. m.to_session == id) msgs
unfolding send_all drain
drain-send_all [] b b' id e =
    drained id b' ∙ ap (pending id) (sym (bus_inj e)) ∙ sym (++-nil (pending id b))
drain-send_all (msg ∷ msgs) b b' id e = elim (Sending-cases (send msg b)) [
  | inr (inl (b1, blocked)) ↦ absurd (ground (arith, e, blocked))
  | inr (inr (b1, broken)) ↦ absurd (ground (arith, e, broken))
  | inl (b1, sends) ↦
      let ih = drain-send_all msgs b1 b' id (sym (send_all_first msg msgs b b1 sends) ∙ e) in
      let grows = send-pending msg b b1 id sends in
      elim (Bool-cases (msg.to_session == id)) [
        | inl own ↦ rw own (
            ih
            ∙ ap (λ p. p ++ filter (λ m. m.to_session == id) msgs) (grows ∙ rw own refl)
            ∙ ++-one (pending id b) msg (filter (λ m. m.to_session == id) msgs))
        | inr foreign ↦
            rw foreign
              (ih ∙ ap (λ p. p ++ filter (λ m. m.to_session == id) msgs) (grows ∙ rw foreign refl))
      ]
]
