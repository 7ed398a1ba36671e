-- ===== src/Webhook/Rows.antt =====
-- Which endpoints an event is delivered to.
use cli_agent.Common.{
  ℕ, zero, suc, String, ◌≡◌, refl, subst, Option, none, some, List, [], ◌∷◌, filter, map, ◌++◌, inl,
  inr, ◌⊎◌, ◌↔◌, true, ◌==◌, string_eq, arith, Bool-cases, Option-cases, Any, any-Any,
}
use text.Mathlib.TextEquality.{eq_iff}
use cli_agent.Webhook.{sign_payload}
use cli_agent.Webhook.Dispatch.{
  WebhookEndpoint, Delivery, Sent, answered, unanswered, Environment, counts, Delivered,
  DispatchError, Outcome, done, aborted, settle, slept, deliver_from, deliver,
  dispatch_with_endpoints, is_registered, dispatch,
}

-- The row of the loop names its endpoint and the event.
module _ (hmac : List ℕ → List ℕ → Option (List ℕ)) (event : String) where
  abbrev Names : WebhookEndpoint → Outcome Delivered → Type 0
  Names endpoint (done d) = (d.row.endpoint_id ≡ endpoint.id) × (d.row.event ≡ event)
  Names endpoint (aborted e) = Unit

  slept-Names :
      (endpoint : WebhookEndpoint) (k : ℕ) (o : Outcome Delivered)
      → Names endpoint o
      → Names endpoint (slept k o)
  slept-Names endpoint k (done d) h = h
  slept-Names endpoint k (aborted e) h = tt

  settle-Names :
      (env : Environment) (endpoint : WebhookEndpoint) (body : List ℕ) (k : ℕ) (status : Option ℕ)
      (next : Option ℕ → Option String → Outcome Delivered) (s : Sent)
      → ((st : Option ℕ) (er : Option String) → Names endpoint (next st er))
      → Names endpoint (settle hmac event env endpoint body k status next s)
  settle-Names env endpoint body k status next (unanswered e) h =
      slept-Names endpoint k (next status (some e)) (h status (some e))
  settle-Names env endpoint body k status next (answered code) h = elim (Bool-cases (counts code)) [
    | inl good ↦ rw good (refl, refl)
    | inr bad ↦ rw bad (slept-Names endpoint k _ (h _ _))
  ]

  deliver_from-Names :
      (env : Environment) (endpoint : WebhookEndpoint) (body : List ℕ) (left k : ℕ)
      (status : Option ℕ) (error : Option String)
      → Names endpoint (deliver_from hmac event env endpoint body left k status error)
  unfolding deliver_from
  deliver_from-Names env endpoint body zero k status error = (refl, refl)
  deliver_from-Names env endpoint body (suc left) k status error =
      elim (Option-cases (sign_payload hmac endpoint.secret (env.timestamp k) (env.nonce k) body)) [
        | inl unsigned ↦ rw (deliver_from, unsigned) tt
        | inr (signature, signs) ↦
            rw (deliver_from, signs)
              (settle-Names env endpoint body k status
                (deliver_from hmac event env endpoint body left (suc k)) (env.post k signature)
                (λ st er. deliver_from-Names env endpoint body left (suc k) st er))
      ]

  deliver-Names :
      (env : Environment) (endpoint : WebhookEndpoint)
      → Names endpoint (deliver hmac event env endpoint)
  unfolding deliver
  deliver-Names env endpoint = elim (Option-cases env.body) [
    | inl unserialized ↦ rw unserialized tt
    | inr (body, has) ↦ rw has (deliver_from-Names env endpoint body 3 1 none none)
  ]

  deliver-id :
      (env : Environment) (endpoint : WebhookEndpoint) (d : Delivered)
      → deliver hmac event env endpoint ≡ done d
      → d.row.endpoint_id ≡ endpoint.id
  deliver-id env endpoint d e = (subst (Names endpoint) e (deliver-Names env endpoint)).0

  Outcome-cases :
      (o : Outcome Delivered)
      → ((d : Delivered) × (o ≡ done d)) ⊎ ((e : DispatchError) × (o ≡ aborted e))
  Outcome-cases (done d) = inl (d, refl)
  Outcome-cases (aborted e) = inr (e, refl)

  abbrev pub row_ids : List Delivery → List String
  row_ids rows = map (λ r. r.endpoint_id) rows

  abbrev pub ids : List WebhookEndpoint → List String
  ids endpoints = map (λ e. e.id) endpoints

  -- The rows belong to the first endpoints, and to all of them where there is no error.
  abbrev pub Covers : List WebhookEndpoint → List Delivery × Option DispatchError → Type 0
  Covers endpoints dispatched =
      (rest : List String) × (row_ids dispatched.0 ++ rest ≡ ids endpoints)
      × (dispatched.1 ≡ none → rest ≡ [])

  dispatch_with_endpoints-Covers :
      (envs : ℕ → Environment) (index : ℕ) (endpoints : List WebhookEndpoint)
      → Covers endpoints (dispatch_with_endpoints hmac event envs index endpoints)
  unfolding dispatch_with_endpoints
  dispatch_with_endpoints-Covers envs index [] = ([], refl, λ _. refl)
  dispatch_with_endpoints-Covers envs index (endpoint ∷ rest) =
      elim (Outcome-cases (deliver hmac event (envs index) endpoint)) [
        | inr (e, broken) ↦
            rw (dispatch_with_endpoints, broken) (ids (endpoint ∷ rest), refl, λ h. cc h)
        | inl (d, gives) ↦
            let (later, e, whole) = dispatch_with_endpoints-Covers envs (suc index) rest in
            rw (dispatch_with_endpoints, gives)
              (later, cc (deliver-id (envs index) endpoint d gives, e), whole)
      ]

  -- The endpoint is enabled, and one of the events that it lists is this one.
  abbrev pub IsSubscribed : WebhookEndpoint → Type 0
  IsSubscribed endpoint = (endpoint.enabled ≡ true) × Any (λ e. e ≡ event) endpoint.events

  -- The second list holds the subscribed endpoints of the first, in their order and no others.
  abbrev pub Picks : List WebhookEndpoint → List WebhookEndpoint → Type 0
  Picks [] picked = picked ≡ []
  Picks (endpoint ∷ rest) picked =
      (IsSubscribed endpoint
        × ((later : List WebhookEndpoint) × (picked ≡ endpoint ∷ later) × Picks rest later))
      ⊎ ((¬ IsSubscribed endpoint) × Picks rest picked)

  is_registered-IsSubscribed :
      (endpoint : WebhookEndpoint)
      → (is_registered hmac event endpoint ≡ true) ↔ IsSubscribed endpoint
  is_registered-IsSubscribed endpoint =
      let (to, from) =
        any-Any (λ e. e ≡ event) (λ e. e == event) endpoint.events (λ e. eq_iff e event) in
      ((λ h. (ground (arith, h), to (ground (arith, h)))), (λ h. ground (arith, h.0, from h.1)))

  filter-Picks :
      (endpoints : List WebhookEndpoint)
      → Picks endpoints (filter (is_registered hmac event) endpoints)
  filter-Picks [] = refl
  filter-Picks (endpoint ∷ rest) = elim (Bool-cases (is_registered hmac event endpoint)) [
    | inl takes ↦
        inl ((is_registered-IsSubscribed endpoint).0 takes, (_, rw takes refl, filter-Picks rest))
    | inr not_one ↦ inr (
      (λ h. cc (not_one, (is_registered-IsSubscribed endpoint).1 h)),
      rw not_one (filter-Picks rest),
    )
  ]

  -- An event goes to the endpoints that are enabled and list it among their events, in order and
  -- one row each, and to no other; without an error to all of them, with one to those before it.
  pub dispatch-Covers :
      (envs : ℕ → Environment) (endpoints : List WebhookEndpoint)
      → (picked : List WebhookEndpoint) × Picks endpoints picked
        × Covers picked (dispatch hmac event envs endpoints)
  unfolding dispatch
  dispatch-Covers envs endpoints =
      let picked = filter (is_registered hmac event) endpoints in
      (picked, filter-Picks endpoints, dispatch_with_endpoints-Covers envs 0 picked)
