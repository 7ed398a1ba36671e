-- ===== src/Webhook/Dispatch.antt =====
-- src/webhook/mod.rs: the delivery of events (`WebhookDispatcher`). What is sent and stored leaves the
-- program, so the answers come from an `Environment`; the rows for the store are the result.
use cli_agent.Common.{
  ℕ, zero, suc, ◌*◌, String, string_eq, nat_eq, ◌≡◌, Bool, true, false, ◌&&◌, ◌||◌, Option, none,
  some, List, [], ◌∷◌, ◌==◌, if◌then◌else◌, ltb, leb, filter, any,
}
use Prim.Native.String
use cli_agent.Webhook.{sign_payload}

pub record WebhookEndpoint : Type 0 where
  pub id : String
  pub url : String
  pub events : List String
  pub secret : String
  pub enabled : Bool

-- The arguments of `insert_webhook_delivery`, without the payload.
pub record Delivery : Type 0 where
  pub endpoint_id : String
  pub event : String
  pub event_id : String
  pub url : String
  pub attempts : ℕ
  pub delivered : Bool
  pub dead_letter : Bool
  pub status : Option ℕ
  pub error : Option String

-- The status code of an answer, or the error of a request.
pub data Sent : Type 0 where
  answered : ℕ → Sent
  unanswered : String → Sent

-- What the outside gives for one endpoint: the id and the bytes of the event, and for each attempt
-- the time, the nonce and what comes of the request with that signature. `status_text` is how a
-- status prints.
pub record Environment : Type 0 where
  pub event_id : String
  pub body : Option (List ℕ)
  pub timestamp : ℕ → String
  pub nonce : ℕ → String
  pub post : ℕ → String → Sent
  pub status_text : ℕ → String

-- `StatusCode::is_success`
abbrev is_success : ℕ → Bool
is_success code = leb 200 code && ltb code 300

-- An answer that counts as a delivery; 409 is `StatusCode::CONFLICT`.
abbrev pub counts : ℕ → Bool
counts code = is_success code || code == 409

-- The row of an endpoint and the sleeps, in milliseconds.
pub record Delivered : Type 0 where
  pub row : Delivery
  pub sleeps : List ℕ

pub data DispatchError : Type 0 where
  not_serialized invalid_key_length : DispatchError
  no_endpoint : String → String → DispatchError

pub data Outcome (A : Type 0) : Type 0 where
  done : A → Outcome A
  aborted : DispatchError → Outcome A

-- The sleep at the end of a failed attempt.
abbrev pub slept : ℕ → Outcome Delivered → Outcome Delivered
slept attempt (aborted e) = aborted e
slept attempt (done d) = done (record d { sleeps = 150 * attempt ∷ d.sleeps })

module _ (hmac : List ℕ → List ℕ → Option (List ℕ)) (event : String) where
  module _ (env : Environment) (endpoint : WebhookEndpoint) (body : List ℕ) where
    abbrev pub row_of : ℕ → Bool → Option ℕ → Option String → Delivery
    row_of attempts delivered status error = record {
      endpoint_id = endpoint.id;
      event = event;
      event_id = env.event_id;
      url = endpoint.url;
      attempts = attempts;
      delivered = delivered;
      dead_letter = if delivered then false else true;
      status = status;
      error = error;
    }

    -- The `match` on the answer; `next` is the rest of the loop with the last status and error.
    abbrev pub settle :
        ℕ → Option ℕ → (Option ℕ → Option String → Outcome Delivered) → Sent → Outcome Delivered
    settle attempt status next (unanswered e) = slept attempt (next status (some e))
    settle attempt status next (answered code) =
        if counts code
        then done (record { row = row_of attempt true (some code) none; sleeps = [] })
        else slept attempt (next (some code) (some (String.◌++◌ "status " (env.status_text code))))

    -- The loop `for attempt in 1..=3` with `left` attempts to go, and the dead letter behind it.
    unfoldable pub deliver_from : ℕ → ℕ → Option ℕ → Option String → Outcome Delivered
    deliver_from zero attempt status error =
        done (record { row = row_of 3 false status error; sleeps = [] })
    deliver_from (suc left) attempt status error =
        elim (sign_payload hmac endpoint.secret (env.timestamp attempt) (env.nonce attempt) body) [
          | none ↦ aborted invalid_key_length
          | some signature ↦
              settle attempt status (deliver_from left (suc attempt)) (env.post attempt signature)
        ]

  -- The body of the loop over the endpoints.
  unfoldable pub deliver : Environment → WebhookEndpoint → Outcome Delivered
  unfolding deliver_from
  deliver env endpoint = elim env.body [
    | none ↦ aborted not_serialized
    | some body ↦ deliver_from env endpoint body 3 1 none none
  ]

  -- What was stored before an error stays stored, so the rows come with the error.
  unfoldable pub dispatch_with_endpoints :
      (ℕ → Environment) → ℕ → List WebhookEndpoint → List Delivery × Option DispatchError
  unfolding deliver
  dispatch_with_endpoints envs index [] = ([], none)
  dispatch_with_endpoints envs index (endpoint ∷ rest) =
      let (rows, result) = dispatch_with_endpoints envs (suc index) rest in
      elim (deliver (envs index) endpoint) [
        | aborted e ↦ ([], some e)
        | done d ↦ (d.row ∷ rows, result)
      ]

  abbrev pub is_registered : WebhookEndpoint → Bool
  is_registered endpoint = endpoint.enabled && any (λ e. e == event) endpoint.events

  unfoldable pub dispatch :
      (ℕ → Environment) → List WebhookEndpoint → List Delivery × Option DispatchError
  unfolding dispatch_with_endpoints
  dispatch envs endpoints = dispatch_with_endpoints envs 0 (filter is_registered endpoints)

  unfoldable pub dispatch_to_endpoint :
      (ℕ → Environment) → String → List WebhookEndpoint → List Delivery × Option DispatchError
  unfolding dispatch_with_endpoints
  dispatch_to_endpoint envs endpoint_id endpoints =
      elim (filter (λ e. e.enabled && e.id == endpoint_id && any (λ r. r == event) e.events)
        endpoints) [
          | [] ↦ ([], some (no_endpoint endpoint_id event))
          | e ∷ rest ↦ dispatch_with_endpoints envs 0 (e ∷ rest)
        ]

  -- Attempt `k` was answered, and the answer counts.
  abbrev pub Counts : Environment → WebhookEndpoint → List ℕ → ℕ → Type 0
  Counts env endpoint body k =
      (signature : String) × (code : ℕ) × (sign_payload hmac endpoint.secret (env.timestamp k)
          (env.nonce k) body
        ≡ some signature)
      × (env.post k signature ≡ answered code)
      × (counts code ≡ true)
