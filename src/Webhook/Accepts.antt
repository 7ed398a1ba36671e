-- ===== src/Webhook/Accepts.antt =====
-- What the check of a request accepts.
use cli_agent.Common.{
  ℕ, String, ◌≡◌, refl, sym, ◌∙◌, ap, true, false, Option, none, some, List, ◌==◌, string_eq,
  Bool-cases, Option-cases, inl, inr, ◌⊎◌, arith, eq_of_==,
}
use cli_agent.Common.Map
use cli_agent.Common.Int.{ℤ}
use cli_agent.Common.Bytes.{as_bytes, parse_i64}
use cli_agent.Crypto.{constant_time_eq}
use cli_agent.Webhook.{
  AuthManager, AuthError, invalid_timestamp, invalid_timestamp_header, Headers, Header, found,
  refused, header_value, Request, by_headers, by_query, cleanup_old_nonces, drifts, sign_payload,
  check_signature, check_nonce, check_signed, verify_headers, verify_query_params, verify,
}

-- The key, signature, timestamp and nonce that a request brings.
abbrev pub Brings : Request → String → String → String → String → Type 0
Brings (by_headers headers body) key signature timestamp_raw nonce =
    (header_value headers "X-API-Key" ≡ found key)
    × (header_value headers "X-Signature" ≡ found signature)
    × (header_value headers "X-Timestamp" ≡ found timestamp_raw)
    × (header_value headers "X-Nonce" ≡ found nonce)
Brings (by_query key' signature' timestamp_raw' nonce' body) key signature timestamp_raw nonce =
    (key' ≡ key) × (signature' ≡ signature) × (timestamp_raw' ≡ timestamp_raw) × (nonce' ≡ nonce)

abbrev pub body_of : Request → List ℕ
body_of (by_headers headers body) = body
body_of (by_query key signature timestamp_raw nonce body) = body

pub Header-cases :
    (x : Header) → ((s : String) × (x ≡ found s)) ⊎ ((e : AuthError) × (x ≡ refused e))
Header-cases (found s) = inl (s, refl)
Header-cases (refused e) = inr (e, refl)

cleanup_keeps_secret :
    (a : AuthManager) (now : ℤ) → (cleanup_old_nonces a now).api_secret ≡ a.api_secret
unfolding cleanup_old_nonces
cleanup_keeps_secret a now = refl

module _ (hmac : List ℕ → List ℕ → Option (List ℕ)) where
  -- A timestamp that passes the test of the drift, a nonce that is not in the cache behind its clean-up, and the
  -- signature of the request under the secret; the nonce is then in the cache.
  abbrev pub IsGenuine : AuthManager → ℤ → String → String → String → List ℕ → AuthManager → Type 0
  IsGenuine a now signature timestamp_raw nonce body a' =
      (t : ℤ) × (expected : String) × (parse_i64 timestamp_raw ≡ some t)
      × (drifts a now t ≡ false)
      × (Map.contains_key nonce (cleanup_old_nonces a now).nonce_cache ≡ false)
      × (sign_payload hmac a.api_secret timestamp_raw nonce body ≡ some expected)
      × (constant_time_eq (as_bytes expected) (as_bytes signature) ≡ true)
      × (a' ≡ record (cleanup_old_nonces a now) {
        nonce_cache = Map.insert nonce now (cleanup_old_nonces a now).nonce_cache;
      })

  check_signed-IsGenuine :
      (bad : AuthError) (a a' : AuthManager) (now : ℤ) (signature timestamp_raw nonce : String)
      (body : List ℕ)
      → check_signed hmac bad a now signature timestamp_raw nonce body ≡ (a', none)
      → IsGenuine a now signature timestamp_raw nonce body a'
  unfolding check_signed check_nonce check_signature
  check_signed-IsGenuine bad a a' now signature timestamp_raw nonce body h =
      elim (Option-cases (parse_i64 timestamp_raw)) [
        | inl unread ↦ absurd (ground (arith, h, unread))
        | inr (t, read) ↦ elim (Bool-cases (drifts a now t)) [
          | inl far ↦ absurd (ground (arith, h, read, far))
          | inr near ↦
              elim (Bool-cases (Map.contains_key nonce (cleanup_old_nonces a now).nonce_cache)) [
                | inl used ↦ absurd (ground (arith, h, read, near, used))
                | inr new ↦
                    elim (Option-cases (
                      sign_payload hmac (cleanup_old_nonces a now).api_secret timestamp_raw nonce
                        body)) [
                          | inl unsigned ↦ absurd (ground (arith, h, read, near, new, unsigned))
                          | inr (expected, signs) ↦
                              elim (Bool-cases
                                (constant_time_eq (as_bytes expected) (as_bytes signature))) [
                                  | inr wrong ↦
                                      absurd (ground (arith, h, read, near, new, signs, wrong))
                                  | inl right ↦ (
                                    t,
                                    expected,
                                    read,
                                    near,
                                    new,
                                    cc (signs, cleanup_keeps_secret a now),
                                    right,
                                    sym (ap (λ v. v.0) h)
                                        ∙ rw
                                            (
                                              check_signed, read, near, check_nonce, new,
                                              check_signature, signs, right,
                                            )
                                            refl,
                                  )
                                ]
                        ]
              ]
        ]
      ]

  verify_headers_accepts :
      (a a' : AuthManager) (now : ℤ) (headers : Headers) (body : List ℕ)
      → verify_headers hmac a now headers body ≡ (a', none)
      → (key signature timestamp_raw nonce : String) × Brings
          (by_headers headers body)
          key
          signature
          timestamp_raw
          nonce
        × (key ≡ a.api_key)
        × IsGenuine a now signature timestamp_raw nonce body a'
  unfolding verify_headers
  verify_headers_accepts a a' now headers body h =
      elim (Header-cases (header_value headers "X-API-Key")) [
        | inr (e, x) ↦ absurd (ground (arith, h, x))
        | inl (key, hk) ↦ elim (Bool-cases (key == a.api_key)) [
          | inr wrong ↦ absurd (ground (arith, h, hk, wrong))
          | inl right ↦ elim (Header-cases (header_value headers "X-Signature")) [
            | inr (e, x) ↦ absurd (ground (arith, h, hk, right, x))
            | inl (signature, hs) ↦ elim (Header-cases (header_value headers "X-Timestamp")) [
              | inr (e, x) ↦ absurd (ground (arith, h, hk, right, hs, x))
              | inl (timestamp_raw, ht) ↦ elim (Header-cases (header_value headers "X-Nonce")) [
                | inr (e, x) ↦ absurd (ground (arith, h, hk, right, hs, ht, x))
                | inl (nonce, hn) ↦ (
                  key,
                  signature,
                  timestamp_raw,
                  nonce,
                  (hk, hs, ht, hn),
                  eq_of_== key a.api_key right,
                  check_signed-IsGenuine invalid_timestamp_header a a' now signature timestamp_raw
                      nonce body (ground (arith, h, hk, right, hs, ht, hn)),
                )
              ]
            ]
          ]
        ]
      ]

  -- An accepted request brings the key of the manager, a timestamp that passes the test of the
  -- drift, a nonce that is not in the cache behind its clean-up, and the signature of its timestamp,
  -- nonce and body under the secret; and of the state just the cache changes: old nonces go, and the
  -- new one comes.
  pub verify_accepts :
      (a a' : AuthManager) (now : ℤ) (request : Request)
      → verify hmac a now request ≡ (a', none)
      → (key signature timestamp_raw nonce : String) × Brings request key signature timestamp_raw
          nonce
        × (key ≡ a.api_key)
        × IsGenuine a now signature timestamp_raw nonce (body_of request) a'
  unfolding verify verify_query_params
  verify_accepts a a' now (by_query key signature timestamp_raw nonce body) h =
      elim (Bool-cases (key == a.api_key)) [
        | inr wrong ↦ absurd (ground (arith, h, wrong))
        | inl right ↦ (
          key,
          signature,
          timestamp_raw,
          nonce,
          (refl, refl, refl, refl),
          eq_of_== key a.api_key right,
          check_signed-IsGenuine invalid_timestamp a a' now signature timestamp_raw nonce body
              (ground (arith, h, right)),
        )
      ]
  verify_accepts a a' now (by_headers headers body) h =
      verify_headers_accepts a a' now headers body h
