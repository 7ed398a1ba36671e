-- ===== src/Webhook/Delivery.antt =====
-- What is stored of the delivery of an event.
use cli_agent.Common.{
  ℕ, zero, suc, ◌+◌, ◌*◌, ◌≤◌, ◌<◌, String, ◌≡◌, ◌≢◌, refl, ap, subst, ◌∙◌, true, false, Option,
  none, some, List, [], ◌∷◌, arith, inl, inr, ◌⊎◌, Bool-cases, Option-cases,
}
use Prim.Native.String
use native.Mathlib.Decide.{dec_le}
use cli_agent.Crypto.{hmac_sha256_hex, to_hex}
use cli_agent.Common.Bytes.{as_bytes}
use cli_agent.Webhook.{sign_payload, signed_message}
use cli_agent.Webhook.Dispatch.{
  WebhookEndpoint, Sent, answered, unanswered, Environment, counts, Delivered, Outcome, done,
  aborted, row_of, slept, deliver_from, deliver, Counts,
}

Sent-cases : (s : Sent) → ((c : ℕ) × (s ≡ answered c)) ⊎ ((e : String) × (s ≡ unanswered e))
Sent-cases (answered c) = inl (c, refl)
Sent-cases (unanswered e) = inr (e, refl)

answered_inj : {c d : ℕ} → answered c ≡ answered d → c ≡ d
answered_inj e = cc e

done_inj : {d d' : Delivered} → done d ≡ done d' → d ≡ d'
done_inj e = cc e

same_code : (c d : ℕ) → answered c ≡ answered d → counts c ≡ false → counts d ≡ true → ⊥
same_code c d e bad good = cc (ap counts (answered_inj e), bad, good)

module _ (hmac : List ℕ → List ℕ → Option (List ℕ)) (event : String) (env : Environment)
    (endpoint : WebhookEndpoint) (body : List ℕ) where
  abbrev CountsAt : ℕ → Type 0
  CountsAt k = Counts hmac event env endpoint body k

  abbrev from : ℕ → ℕ → Option ℕ → Option String → Outcome Delivered
  from = deliver_from hmac event env endpoint body

  sign_payload-some :
      ((secret message : List ℕ) → hmac secret message ≢ none)
      → (timestamp nonce : String)
      → (s : String) × (sign_payload hmac endpoint.secret timestamp nonce body ≡ some s)
  unfolding sign_payload hmac_sha256_hex
  sign_payload-some takes timestamp nonce =
      elim (Option-cases (hmac (as_bytes endpoint.secret) (signed_message timestamp nonce body))) [
        | inl refuses ↦
            absurd (takes (as_bytes endpoint.secret) (signed_message timestamp nonce body) refuses)
        | inr (digest, e) ↦ (to_hex digest, rw (sign_payload, hmac_sha256_hex, e) refl)
      ]

  -- The row of attempt `k`, which counts.
  abbrev Arrives : ℕ → Outcome Delivered → Type 0
  Arrives k o =
      (d : Delivered) × (o ≡ done d)
      × (d.row.delivered ≡ true)
      × (d.row.dead_letter ≡ false)
      × (d.row.attempts ≡ k)

  attempt_cases :
      ((secret message : List ℕ) → hmac secret message ≢ none)
      → (left k : ℕ) (status : Option ℕ) (error : Option String)
      → (CountsAt k × Arrives k (from (suc left) k status error))
        ⊎ ((¬ CountsAt k)
            × ((status' : Option ℕ) × (error' : Option String) × (from (suc left) k status error
                  ≡ slept k (from left (suc k) status' error'))))
  unfolding deliver_from
  attempt_cases takes left k status error =
      let (signature, signs) = sign_payload-some takes (env.timestamp k) (env.nonce k) in
      elim (Sent-cases (env.post k signature)) [
        | inr (e, sent) ↦ inr (
          (λ (s', c', signs', sent', good'). cc (signs, signs', sent, sent')),
          (status, some e, rw (deliver_from, signs, sent) refl),
        )
        | inl (code, sent) ↦ elim (Bool-cases (counts code)) [
          | inl good ↦ inl (
            (signature, code, signs, sent, good),
            (
              record {
                row = row_of hmac event env endpoint body k true (some code) none;
                sleeps = [];
              },
              rw (deliver_from, signs, sent, good) refl,
              refl,
              refl,
              refl,
            ),
          )
          | inr bad ↦ inr (
            (λ (s', c', signs', sent', good').
                same_code code c' (cc (signs, signs', sent, sent')) bad good'),
            (
              some code,
              some (String.◌++◌ "status " (env.status_text code)),
              rw (deliver_from, signs, sent, bad) refl,
            ),
          )
        ]
      ]

  -- Where the loop ends with `left` attempts to go from attempt `k` on.
  abbrev Ends : ℕ → ℕ → Outcome Delivered → Type 0
  Ends left k o =
      ((j : ℕ) × (k ≤ j)
        × (j < k + left)
        × CountsAt j
        × Arrives j o
        × ((i : ℕ) → k ≤ i → i < j → ¬ CountsAt i))
      ⊎ (((i : ℕ) → k ≤ i → i < k + left → ¬ CountsAt i)
          × ((d : Delivered) × (o ≡ done d)
              × (d.row.delivered ≡ false)
              × (d.row.dead_letter ≡ true)
              × (d.row.attempts ≡ 3)))

  slept-Arrives : (k j : ℕ) (o : Outcome Delivered) → Arrives j o → Arrives j (slept k o)
  slept-Arrives k j (done d) (d', e, x, y, z) =
      let same : d ≡ d' = done_inj e in
      (
        record d { sleeps = 150 * k ∷ d.sleeps },
        refl,
        ap (λ v. v.row.delivered) same ∙ x,
        ap (λ v. v.row.dead_letter) same ∙ y,
        ap (λ v. v.row.attempts) same ∙ z,
      )
  slept-Arrives k j (aborted a) (d', e, x, y, z) = cc

  not_yet :
      (k bound : ℕ)
      → ¬ CountsAt k
      → ((i : ℕ) → suc k ≤ i → i < bound → ¬ CountsAt i)
      → (i : ℕ) → k ≤ i
      → i < bound
      → ¬ CountsAt i
  not_yet k bound fails later i lo hi = elim (dec_le (suc k) i) [
    | yes h ↦ later i h hi
    | no h ↦ subst (λ x. ¬ CountsAt x) {x = k} (omega arith) fails
  ]

  slept-Ends :
      (left k : ℕ) (o : Outcome Delivered)
      → ¬ CountsAt k
      → Ends left (suc k) o
      → Ends (suc left) k (slept k o)
  slept-Ends left k o fails (inl (j, lo, hi, good, there, bad)) =
      inl (j, omega arith, omega arith, good, slept-Arrives k j o there, not_yet k j fails bad)
  slept-Ends left k o fails (inr (bad, (d, e, x, y, z))) = inr (
    λ i lo hi. not_yet k (suc k + left) fails bad i lo (omega arith),
    (record d { sleeps = 150 * k ∷ d.sleeps }, ap (slept k) e, x, y, z),
  )

  deliver_from-Ends :
      ((secret message : List ℕ) → hmac secret message ≢ none)
      → (left k : ℕ) (status : Option ℕ) (error : Option String)
      → Ends left k (from left k status error)
  unfolding deliver_from
  deliver_from-Ends takes zero k status error = inr (
    λ i lo hi. absurd (omega arith),
    (
      record { row = row_of hmac event env endpoint body 3 false status error; sleeps = [] },
      refl,
      refl,
      refl,
      refl,
    ),
  )
  deliver_from-Ends takes (suc left) k status error =
      elim (attempt_cases takes left k status error) [
        | inl (good, there) ↦
            inl (k, omega arith, omega arith, good, there, λ i lo hi. absurd (omega arith))
        | inr (fails, (status', error', e)) ↦ rw e (
            slept-Ends left k (from left (suc k) status' error') fails
              (deliver_from-Ends takes left (suc k) status' error'))
      ]

  -- An endpoint gets exactly one row. It says delivered, with the number of the first attempt of
  -- three whose answer is a success or a conflict; or, where no attempt of the three has such an
  -- answer, it is a dead letter that counts three attempts. The event is serialized, and the hash
  -- takes secrets of any length.
  pub deliver_cases :
      ((secret message : List ℕ) → hmac secret message ≢ none)
      → env.body ≡ some body
      → ((k : ℕ) × (1 ≤ k)
          × (k < 4)
          × CountsAt k
          × ((i : ℕ) → 1 ≤ i → i < k → ¬ CountsAt i)
          × ((d : Delivered) × (deliver hmac event env endpoint ≡ done d)
              × (d.row.delivered ≡ true)
              × (d.row.dead_letter ≡ false)
              × (d.row.attempts ≡ k)))
        ⊎ (((i : ℕ) → 1 ≤ i → i < 4 → ¬ CountsAt i)
            × ((d : Delivered) × (deliver hmac event env endpoint ≡ done d)
                × (d.row.delivered ≡ false)
                × (d.row.dead_letter ≡ true)
                × (d.row.attempts ≡ 3)))
  unfolding deliver
  deliver_cases takes has = elim (deliver_from-Ends takes 3 1 none none) [
    | inl (k, lo, hi, good, there, bad) ↦ inl (k, lo, hi, good, bad, rw has there)
    | inr (bad, dead) ↦ inr (bad, rw has dead)
  ]
