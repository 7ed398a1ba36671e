-- ===== src/Webhook.antt =====
-- src/webhook/mod.rs: the check of signed requests (`AuthManager`). The deliveries are in
-- `Webhook.Dispatch`. The clock is an argument of a check, and so is the code that is not of this
-- repository: the hash function and the headers of a request.
pub mod Accepts
pub mod Replay
pub mod Dispatch
pub mod Delivery
pub mod Rows
mod Tests
use cli_agent.Common.{
  ℕ, String, ◌≡◌, Bool, true, false, Option, none, some, List, [], ◌∷◌, ◌++◌, ◌==◌, string_eq,
  if◌then◌else◌, not,
}
use cli_agent.Common.Map
use cli_agent.Common.Map.{Map}
use cli_agent.Common.Int.{ℤ, pos, leb_ℤ, ltb_ℤ, ◌+i64◌, ◌-i64◌, abs_i64}
use cli_agent.Common.Bytes.{as_bytes, parse_i64}
use cli_agent.Crypto.{constant_time_eq, hmac_sha256_hex}

-- `nonce_cache` is behind a shared pointer, so its content is part of the state.
pub record AuthManager : Type 0 where
  pub api_key : String
  pub api_secret : String
  pub max_drift_secs : ℤ
  pub nonce_cache : Map String ℤ

-- `AuthManager::new`
abbrev pub new_auth : String → String → ℤ → AuthManager
new_auth api_key api_secret max_drift_secs = record {
  api_key = api_key;
  api_secret = api_secret;
  max_drift_secs = max_drift_secs;
  nonce_cache = [];
}

pub data AuthError : Type 0 where
  missing_header invalid_header_encoding : String → AuthError
  invalid_api_key invalid_timestamp_header invalid_timestamp drift_exceeded : AuthError
  nonce_reuse invalid_key_length signature_mismatch : AuthError

-- The value of a header: `opaque` where `to_str` refuses it.
pub data HeaderValue : Type 0 where
  text : String → HeaderValue
  opaque : HeaderValue

-- `HeaderMap::get`
abbrev pub Headers : Type 0
Headers = String → Option HeaderValue

pub data Header : Type 0 where
  found : String → Header
  refused : AuthError → Header

unfoldable pub header_value : Headers → String → Header
header_value headers key = elim (headers key) [
  | none ↦ refused (missing_header key)
  | some opaque ↦ refused (invalid_header_encoding key)
  | some (text value) ↦ found value
]

-- A request to check: by its headers, or by its query parameters.
pub data Request : Type 0 where
  by_headers : Headers → List ℕ → Request
  by_query : String → String → String → String → List ℕ → Request

-- The bytes that are signed; 46 is the full stop.
unfoldable pub signed_message : String → String → List ℕ → List ℕ
signed_message timestamp nonce body = as_bytes timestamp ++ 46 ∷ as_bytes nonce ++ 46 ∷ body

unfoldable pub oldest_kept : AuthManager → ℤ → ℤ
oldest_kept a now = now -i64 (a.max_drift_secs +i64 a.max_drift_secs)

unfoldable pub cleanup_old_nonces : AuthManager → ℤ → AuthManager
cleanup_old_nonces a now = record a {
  nonce_cache = Map.retain (λ ts. leb_ℤ (oldest_kept a now) ts) a.nonce_cache;
}

-- `(now - timestamp).abs() > self.max_drift_secs`
unfoldable pub drifts : AuthManager → ℤ → ℤ → Bool
drifts a now timestamp = ltb_ℤ a.max_drift_secs (abs_i64 (now -i64 timestamp))

-- What a check leaves: the manager, and its error if it has one.
abbrev pub Verdict : Type 0
Verdict = AuthManager × Option AuthError

module _ (hmac : List ℕ → List ℕ → Option (List ℕ)) where
  unfoldable pub sign_payload : String → String → String → List ℕ → Option String
  sign_payload secret timestamp nonce body =
      hmac_sha256_hex hmac (as_bytes secret) (signed_message timestamp nonce body)

  -- `AuthManager::sign`
  unfoldable pub sign : AuthManager → String → String → List ℕ → Option String
  sign a timestamp nonce body = sign_payload a.api_secret timestamp nonce body

  -- The end of a check: the signature, then the new nonce.
  unfoldable pub check_signature : AuthManager → ℤ → String → String → String → List ℕ → Verdict
  check_signature a now signature timestamp_raw nonce body =
      elim (sign_payload a.api_secret timestamp_raw nonce body) [
        | none ↦ (a, some invalid_key_length)
        | some expected ↦
            if constant_time_eq (as_bytes expected) (as_bytes signature)
            then (record a { nonce_cache = Map.insert nonce now a.nonce_cache }, none)
            else (a, some signature_mismatch)
      ]

  -- The nonce, once the old ones are gone.
  unfoldable pub check_nonce : AuthManager → ℤ → String → String → String → List ℕ → Verdict
  check_nonce a now signature timestamp_raw nonce body =
      let cleaned = cleanup_old_nonces a now in
      if Map.contains_key nonce cleaned.nonce_cache
      then (cleaned, some nonce_reuse)
      else check_signature cleaned now signature timestamp_raw nonce body

  -- The part that the two checks share, from the parsing of the timestamp on; `bad` is their error
  -- for one that does not parse.
  unfoldable pub check_signed :
      AuthError → AuthManager → ℤ → String → String → String → List ℕ → Verdict
  check_signed bad a now signature timestamp_raw nonce body = elim (parse_i64 timestamp_raw) [
    | none ↦ (a, some bad)
    | some timestamp ↦
        if drifts a now timestamp
        then (a, some drift_exceeded)
        else check_nonce a now signature timestamp_raw nonce body
  ]

  -- Goes on with a header that was found.
  abbrev pub with_header : AuthManager → Header → (String → Verdict) → Verdict
  with_header a (refused e) next = (a, some e)
  with_header a (found value) next = next value

  unfoldable pub verify_headers : AuthManager → ℤ → Headers → List ℕ → Verdict
  verify_headers a now headers body = with_header a (header_value headers "X-API-Key") (λ key.
      if not (key == a.api_key)
      then (a, some invalid_api_key)
      else with_header a (header_value headers "X-Signature") (λ signature.
        with_header a (header_value headers "X-Timestamp") (λ timestamp_raw.
          with_header a (header_value headers "X-Nonce") (λ nonce.
            check_signed invalid_timestamp_header a now signature timestamp_raw nonce body))))

  unfoldable pub verify_query_params :
      AuthManager → ℤ → String → String → String → String → List ℕ → Verdict
  verify_query_params a now key signature timestamp_raw nonce body =
      if not (key == a.api_key)
      then (a, some invalid_api_key)
      else check_signed invalid_timestamp a now signature timestamp_raw nonce body

  -- Either check.
  unfoldable pub verify : AuthManager → ℤ → Request → Verdict
  verify a now (by_headers headers body) = verify_headers a now headers body
  verify a now (by_query key signature timestamp_raw nonce body) =
      verify_query_params a now key signature timestamp_raw nonce body

  -- The manager behind a sequence of requests, each with the time of its check.
  unfoldable pub serve : AuthManager → List (ℤ × Request) → AuthManager
  serve a [] = a
  serve a ((now, request) ∷ rest) = serve (verify a now request).0 rest
