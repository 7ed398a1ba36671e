-- ===== src/Webhook/Tests.antt =====
-- Signed requests on which the theorems on their check are tried.
use cli_agent.Common.Int.{◌-i64◌}
use cli_agent.Common.Int.{abs_i64}
use cli_agent.Webhook.{drifts}
use cli_agent.Common.Bytes.{parse_i64}
use cli_agent.Webhook.{check_signed}
use cli_agent.Webhook.{verify_query_params}
use cli_agent.Common.{
  ℕ, zero, suc, ◌≤◌, ◌⊎◌, ◌<◌, String, string_eq, ◌≡◌, ◌≢◌, ◌↔◌, refl, true, false, Option, some,
  none, List, [], ◌∷◌, length, arith,
}
use cli_agent.Common.Int.{pos, abs_i64, ◌-i64◌, ◌+i64◌, wrap64}
use cli_agent.Common.Map
use cli_agent.Common.Bytes.{as_bytes, utf8, parse_i64, parse_bytes, read_digits}
use cli_agent.Crypto.{
  hmac_sha256_hex, or, xor, char_at, difference, hex_byte, to_hex, constant_time_eq,
  constant_time_eq_iff,
}
use cli_agent.Webhook.{
  AuthManager, new_auth, Request, by_query, verify, serve, verify_query_params, check_signed,
  drifts, check_nonce, cleanup_old_nonces, check_signature, sign_payload, signed_message,
  oldest_kept, drift_exceeded, nonce_reuse,
}
use cli_agent.Webhook.Dispatch.{
  WebhookEndpoint, Sent, answered, unanswered, Environment, Delivered, done, row_of, Counts,
  deliver, deliver_from, dispatch,
}
use cli_agent.Webhook.Delivery.{deliver_cases}
use cli_agent.Webhook.Rows.{Covers, Picks, dispatch-Covers}
use cli_agent.Webhook.Accepts.{Brings, IsGenuine, verify_accepts}
use cli_agent.Webhook.Replay.{verify_once}

-- In place of the hash: the length of the message.
abbrev toy_hmac : List ℕ → List ℕ → Option (List ℕ)
toy_hmac secret message = some (length message ∷ [])

abbrev auth : AuthManager
auth = new_auth "key" "secret" (pos 300)

abbrev request : Request
request = by_query "key" "0a" "1000" "n1" (1 ∷ 2 ∷ [])

abbrev other : Request
other = by_query "key" "0a" "1100" "n2" (3 ∷ 4 ∷ [])

accepted : (verify toy_hmac auth (pos 1010) request).1 ≡ none
unfolding serve verify verify_query_params check_signed parse_i64 drifts abs_i64 ◌-i64◌ check_nonce
    Map.get cleanup_old_nonces Map.retain check_signature sign_payload hmac_sha256_hex
    constant_time_eq signed_message or xor as_bytes parse_bytes read_digits utf8 wrap64 ◌+i64◌
    Map.insert char_at difference hex_byte to_hex oldest_kept
accepted = refl

too_late : (verify toy_hmac auth (pos 1301) request).1 ≡ some drift_exceeded
unfolding serve verify verify_query_params check_signed parse_i64 drifts abs_i64 ◌-i64◌ check_nonce
    Map.get cleanup_old_nonces Map.retain check_signature sign_payload hmac_sha256_hex
    constant_time_eq signed_message or xor as_bytes parse_bytes read_digits utf8 wrap64 ◌+i64◌
    Map.insert char_at difference hex_byte to_hex oldest_kept
too_late = refl

-- The least timestamp from which the difference wraps around passes the test of the drift.
wraps_around :
    (verify toy_hmac auth
      (pos 1010)
      (by_query "key" "1a" "-9223372036854774798" "n1" (1 ∷ 2 ∷ []))).1
    ≡ none
unfolding serve verify verify_query_params check_signed parse_i64 drifts abs_i64 ◌-i64◌ check_nonce
    Map.get cleanup_old_nonces Map.retain check_signature sign_payload hmac_sha256_hex
    constant_time_eq signed_message or xor as_bytes parse_bytes read_digits utf8 wrap64 ◌+i64◌
    Map.insert char_at difference hex_byte to_hex oldest_kept
wraps_around = refl

replayed :
    (verify toy_hmac
      (serve toy_hmac auth ((pos 1010, request) ∷ (pos 1200, other) ∷ []))
      (pos 1250)
      request).1
    ≡ some nonce_reuse
unfolding serve verify verify_query_params check_signed parse_i64 drifts abs_i64 ◌-i64◌ check_nonce
    Map.get cleanup_old_nonces Map.retain check_signature sign_payload hmac_sha256_hex
    constant_time_eq signed_message or xor as_bytes parse_bytes read_digits utf8 wrap64 ◌+i64◌
    Map.insert char_at difference hex_byte to_hex oldest_kept
replayed = refl

verify_once_example :
    (verify toy_hmac
      (serve toy_hmac (verify toy_hmac auth (pos 1010) request).0 ((pos 1200, other) ∷ []))
      (pos 1250)
      request).1
    ≢ none
verify_once_example =
    verify_once toy_hmac auth 300 1010 1250 request request ((pos 1200, other) ∷ []) "key" "0a"
      "1000" "n1" "key" "0a" refl (omega arith) (omega arith) (omega arith) (refl, refl, refl, refl)
      (refl, refl, refl, refl) ((1200, refl, omega arith), tt) accepted

verify_accepts_example :
    (key signature timestamp_raw nonce : String) × Brings request key signature timestamp_raw nonce
    × (key ≡ "key")
    × IsGenuine toy_hmac auth
        (pos 1010)
        signature
        timestamp_raw
        nonce
        (1 ∷ 2 ∷ [])
        (verify toy_hmac auth (pos 1010) request).0
unfolding serve verify verify_query_params check_signed parse_i64 drifts abs_i64 ◌-i64◌ check_nonce
    Map.get cleanup_old_nonces Map.retain check_signature sign_payload hmac_sha256_hex
    constant_time_eq signed_message or xor as_bytes parse_bytes read_digits utf8 wrap64 ◌+i64◌
    Map.insert char_at difference hex_byte to_hex oldest_kept
verify_accepts_example =
    verify_accepts toy_hmac auth (verify toy_hmac auth (pos 1010) request).0 (pos 1010) request refl

abbrev sent_255 : List ℕ
sent_255 = 1 ∷ 255 ∷ []

abbrev sent_254 : List ℕ
sent_254 = 1 ∷ 254 ∷ []

constant_time_eq_iff_example : (constant_time_eq sent_255 sent_254 ≡ true) ↔ (sent_255 ≡ sent_254)
constant_time_eq_iff_example =
    constant_time_eq_iff sent_255 sent_254 (omega arith, (omega arith, tt))
      (omega arith, (omega arith, tt))

abbrev endpoint : WebhookEndpoint
endpoint = record {
  id = "hook";
  url = "http://localhost/hook";
  events = "run.done" ∷ [];
  secret = "s";
  enabled = true;
}

abbrev disabled : WebhookEndpoint
disabled = record endpoint { id = "off"; enabled = false }

-- The first attempt fails, the second meets a conflict.
abbrev conflicting : ℕ → String → Sent
conflicting zero signature = unanswered "no route"
conflicting (suc zero) signature = answered 500
conflicting (suc (suc n)) signature = answered 409

abbrev environment : Environment
environment = record {
  event_id = "e1";
  body = some (123 ∷ 125 ∷ []);
  timestamp = λ k. "1000";
  nonce = λ k. "n1";
  post = conflicting;
  status_text = λ code. "Internal Server Error";
}

deliver_second :
    deliver toy_hmac "run.done" environment endpoint
    ≡ done (record {
      row = row_of toy_hmac "run.done" environment endpoint (123 ∷ []) 2 true (some 409) none;
      sleeps = 150 ∷ [];
    })
unfolding deliver deliver_from sign_payload hmac_sha256_hex
deliver_second = refl

deliver_cases_example :
    ((k : ℕ) × (1 ≤ k)
      × (k < 4)
      × Counts toy_hmac "run.done" environment endpoint (123 ∷ 125 ∷ []) k
      × ((i : ℕ)
          → 1 ≤ i
          → i < k
          → ¬ Counts toy_hmac "run.done" environment endpoint (123 ∷ 125 ∷ []) i)
      × ((d : Delivered) × (deliver toy_hmac "run.done" environment endpoint ≡ done d)
          × (d.row.delivered ≡ true)
          × (d.row.dead_letter ≡ false)
          × (d.row.attempts ≡ k)))
    ⊎ (((i : ℕ)
          → 1 ≤ i
          → i < 4
          → ¬ Counts toy_hmac "run.done" environment endpoint (123 ∷ 125 ∷ []) i)
        × ((d : Delivered) × (deliver toy_hmac "run.done" environment endpoint ≡ done d)
            × (d.row.delivered ≡ false)
            × (d.row.dead_letter ≡ true)
            × (d.row.attempts ≡ 3)))
deliver_cases_example =
    deliver_cases toy_hmac "run.done" environment endpoint (123 ∷ 125 ∷ [])
      (λ secret message e. cc e) refl

dispatch-Covers_example :
    (picked : List WebhookEndpoint) × Picks toy_hmac "run.done" (disabled ∷ endpoint ∷ []) picked
    × Covers toy_hmac "run.done" picked
        (dispatch toy_hmac "run.done" (λ index. environment) (disabled ∷ endpoint ∷ []))
dispatch-Covers_example =
    dispatch-Covers toy_hmac "run.done" (λ index. environment) (disabled ∷ endpoint ∷ [])
