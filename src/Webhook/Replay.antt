-- ===== src/Webhook/Replay.antt =====
-- A request that was accepted is not accepted again.
use cli_agent.Common.{
  ℕ, ◌+◌, ◌≤◌, ◌<◌, String, ◌≡◌, refl, sym, ap, ◌∙◌, subst, true, false, Option, none, some, List,
  [], ◌∷◌, ◌==◌, string_eq, All, Bool-cases, Option-cases, inl, inr, arith, eq_of_==, ==_refl, ◌≢◌,
}
use cli_agent.Common.Map
use cli_agent.Common.Int.{
  ℤ, pos, leb_ℤ, IsI64, abs-sub_cases, ltb_ℤ, abs_i64, ◌-i64◌, sub-double-leb_i64,
}
use cli_agent.Common.Bytes.{as_bytes, parse_i64, parse_i64-IsI64}
use cli_agent.Crypto.{constant_time_eq}
use cli_agent.Webhook.{
  AuthManager, AuthError, found, header_value, Headers, invalid_timestamp, invalid_timestamp_header,
  Request, by_headers, by_query, cleanup_old_nonces, oldest_kept, drifts, sign_payload,
  check_signature, check_nonce, check_signed, verify_headers, verify_query_params, verify, serve,
}
use cli_agent.Webhook.Accepts.{Brings, Header-cases, IsGenuine, body_of, verify_accepts}

-- The request came at a time of at most `now`.
abbrev pub IsBefore : ℕ → ℤ × Request → Type 0
IsBefore now (time, request) = (m : ℕ) × (time ≡ pos m) × (m ≤ now)

-- The manager allows a drift of `d`, and it remembers that the nonce was used at the time `n`, if
-- `now` is no more than two drifts later.
record Remembers (d : ℕ) (nonce : String) (n now : ℕ) (a : AuthManager) : Type 0 where
  allows : a.max_drift_secs ≡ pos d
  known : now ≤ n + d + d → Map.get nonce a.nonce_cache ≡ some (pos n)

-- `n` and `now` are times, `d` a drift, small enough that `i64` does not overflow, and `time` is not
-- after `now`.
record IsTimely (d now time : ℕ) : Type 0 where
  drift_small : d < 2305843009213693952
  now_small : now < 4611686018427387904
  before : time ≤ now

oldest_kept_early :
    (a : AuthManager) (d n now time : ℕ)
    → a.max_drift_secs ≡ pos d
    → IsTimely d now time
    → now ≤ n + d + d
    → leb_ℤ (oldest_kept a (pos time)) (pos n) ≡ true
unfolding oldest_kept
oldest_kept_early a d n now time e ok near = rw e (
    sub-double-leb_i64 time d n (omega (arith, ok.before, ok.now_small)) ok.drift_small
      (omega (arith, ok.before)))

cleanup-Remembers :
    (a : AuthManager) (d n now time : ℕ) (nonce : String)
    → Remembers d nonce n now a
    → IsTimely d now time
    → Remembers d nonce n now (cleanup_old_nonces a (pos time))
unfolding cleanup_old_nonces
cleanup-Remembers a d n now time nonce r ok = record {
  allows = r.allows;
  known = λ near.
      Map.get-retain (leb_ℤ (oldest_kept a (pos time))) nonce (pos n) a.nonce_cache (r.known near)
        (oldest_kept_early a d n now time r.allows ok near);
}

module _ (hmac : List ℕ → List ℕ → Option (List ℕ)) where
  check_signature-Remembers :
      (a : AuthManager) (d n now : ℕ) (time : ℤ) (signature raw fresh nonce : String)
      (body : List ℕ)
      → Remembers d nonce n now a
      → Map.contains_key fresh a.nonce_cache ≡ false
      → Remembers d nonce n now (check_signature hmac a time signature raw fresh body).0
  unfolding check_signature
  check_signature-Remembers a d n now time signature raw fresh nonce body r new =
      elim (Option-cases (sign_payload hmac a.api_secret raw fresh body)) [
        | inl unsigned ↦ rw (check_signature, unsigned) r
        | inr (expected, signs) ↦
            elim (Bool-cases (constant_time_eq (as_bytes expected) (as_bytes signature))) [
              | inr wrong ↦ rw (check_signature, signs, wrong) r
              | inl right ↦
                  rw (check_signature, signs, right)
                    (record {
                      allows = r.allows;
                      known = λ near. ground (
                        arith,
                        Map.get-insert fresh nonce time a.nonce_cache,
                        eq_of_== fresh nonce,
                        r.known near,
                        new,
                      );
                    })
            ]
      ]

  check_signed-Remembers :
      (bad : AuthError) (a : AuthManager) (d n now time : ℕ) (signature raw fresh nonce : String)
      (body : List ℕ)
      → Remembers d nonce n now a
      → IsTimely d now time
      → Remembers d nonce n now (check_signed hmac bad a (pos time) signature raw fresh body).0
  unfolding check_signed check_nonce
  check_signed-Remembers bad a d n now time signature raw fresh nonce body known ok =
      let cleaned = cleanup-Remembers a d n now time nonce known ok in
      elim (Option-cases (parse_i64 raw)) [
        | inl unread ↦ rw (check_signed, unread) known
        | inr (t, read) ↦ elim (Bool-cases (drifts a (pos time) t)) [
          | inl far ↦ rw (check_signed, read, far) known
          | inr close ↦
              elim (Bool-cases
                (Map.contains_key fresh (cleanup_old_nonces a (pos time)).nonce_cache)) [
                  | inl used ↦ rw (check_signed, read, close, check_nonce, used) cleaned
                  | inr new ↦
                      rw (check_signed, read, close, check_nonce, new)
                        (check_signature-Remembers (cleanup_old_nonces a (pos time)) d n now
                          (pos time) signature raw fresh nonce body cleaned new)
                ]
        ]
      ]

  verify_headers-Remembers :
      (a : AuthManager) (d n now time : ℕ) (nonce : String) (headers : Headers) (body : List ℕ)
      → Remembers d nonce n now a
      → IsTimely d now time
      → Remembers d nonce n now (verify_headers hmac a (pos time) headers body).0
  unfolding verify_headers
  verify_headers-Remembers a d n now time nonce headers body r ok =
      elim (Header-cases (header_value headers "X-API-Key")) [
        | inr (e, x) ↦ rw (verify_headers, x) r
        | inl (key, hk) ↦ elim (Bool-cases (key == a.api_key)) [
          | inr wrong ↦ rw (verify_headers, hk, wrong) r
          | inl right ↦ elim (Header-cases (header_value headers "X-Signature")) [
            | inr (e, x) ↦ rw (verify_headers, hk, right, x) r
            | inl (signature, hs) ↦ elim (Header-cases (header_value headers "X-Timestamp")) [
              | inr (e, x) ↦ rw (verify_headers, hk, right, hs, x) r
              | inl (raw, ht) ↦ elim (Header-cases (header_value headers "X-Nonce")) [
                | inr (e, x) ↦ rw (verify_headers, hk, right, hs, ht, x) r
                | inl (fresh, hf) ↦
                    rw (verify_headers, hk, right, hs, ht, hf)
                      (check_signed-Remembers invalid_timestamp_header a d n now time signature raw
                        fresh nonce body r ok)
              ]
            ]
          ]
        ]
      ]

  verify-Remembers :
      (a : AuthManager) (d n now time : ℕ) (nonce : String) (request : Request)
      → Remembers d nonce n now a
      → IsTimely d now time
      → Remembers d nonce n now (verify hmac a (pos time) request).0
  unfolding verify verify_query_params
  verify-Remembers a d n now time nonce (by_headers headers body) r ok =
      verify_headers-Remembers a d n now time nonce headers body r ok
  verify-Remembers a d n now time nonce (by_query key signature raw fresh body) r ok =
      elim (Bool-cases (key == a.api_key)) [
        | inr wrong ↦ rw (verify_query_params, wrong) r
        | inl right ↦
            rw (verify_query_params, right)
              (check_signed-Remembers invalid_timestamp a d n now time signature raw fresh nonce
                body r ok)
      ]

  serve-Remembers :
      (requests : List (ℤ × Request)) (a : AuthManager) (d n now : ℕ) (nonce : String)
      → Remembers d nonce n now a
      → d < 2305843009213693952
      → now < 4611686018427387904
      → All (IsBefore now) requests
      → Remembers d nonce n now (serve hmac a requests)
  unfolding serve
  serve-Remembers [] a d n now nonce r hd hn before = r
  serve-Remembers ((time, request) ∷ rest) a d n now nonce r hd hn ((m, e, le), before) =
      serve-Remembers rest (verify hmac a time request).0 d n now nonce
        (rw e (
          verify-Remembers a d n now m nonce request r
            (record { drift_small = hd; now_small = hn; before = le })))
        hd hn before

-- A drift of at most `d` on both sides puts two times at most `2 * d` apart.
drifts_apart :
    (a b : AuthManager) (d n now : ℕ) (t : ℤ)
    → IsI64 t
    → a.max_drift_secs ≡ pos d
    → b.max_drift_secs ≡ pos d
    → d < 2305843009213693952
    → n < 4611686018427387904
    → now < 4611686018427387904
    → drifts a (pos n) t ≡ false
    → drifts b (pos now) t ≡ false
    → now ≤ n + d + d
unfolding drifts
drifts_apart a b d n now t fits ea eb hd hn hnow first second =
    elim (abs-sub_cases n d t fits hn hd
      (subst (λ m. ltb_ℤ m (abs_i64 (pos n -i64 t)) ≡ false) ea first)) [
        | inl (lo, hi, neg) ↦
            elim (abs-sub_cases now d t fits hnow hd
              (subst (λ m. ltb_ℤ m (abs_i64 (pos now -i64 t)) ≡ false) eb second)) [
                | inl (lo', hi', neg') ↦ omega arith
                | inr far' ↦ omega arith
              ]
        | inr far ↦
            elim (abs-sub_cases now d t fits hnow hd
              (subst (λ m. ltb_ℤ m (abs_i64 (pos now -i64 t)) ≡ false) eb second)) [
                | inl (lo', hi', neg') ↦ omega arith
                | inr far' ↦ omega arith
              ]
      ]

found_inj : {s t : String} → found s ≡ found t → s ≡ t
found_inj e = cc e

-- A request brings one timestamp and one nonce.
Brings-unique :
    (request : Request) (key signature raw nonce key' signature' raw' nonce' : String)
    → Brings request key signature raw nonce
    → Brings request key' signature' raw' nonce'
    → (raw ≡ raw') × (nonce ≡ nonce')
Brings-unique (by_headers headers body) key signature raw nonce key' signature' raw' nonce'
      (_, _, r, n) (_, _, r', n') =
    (found_inj (sym r ∙ r'), found_inj (sym n ∙ n'))
Brings-unique (by_query _ _ _ _ body) key signature raw nonce key' signature' raw' nonce'
      (_, _, r, n) (_, _, r', n') =
    (sym r ∙ r', sym n ∙ n')

cleanup_keeps_drift :
    (a : AuthManager) (now : ℤ) → (cleanup_old_nonces a now).max_drift_secs ≡ a.max_drift_secs
unfolding cleanup_old_nonces
cleanup_keeps_drift a now = refl

module _ (hmac : List ℕ → List ℕ → Option (List ℕ)) where
  IsGenuine-Remembers :
      (a a' : AuthManager) (d n now : ℕ) (signature raw nonce : String) (body : List ℕ)
      → a.max_drift_secs ≡ pos d
      → IsGenuine hmac a (pos n) signature raw nonce body a'
      → Remembers d nonce n now a'
  IsGenuine-Remembers a a' d n now signature raw nonce body e (_, _, _, _, _, _, _, is) =
      subst (Remembers d nonce n now) (sym is) (record {
        allows = cleanup_keeps_drift a (pos n) ∙ e;
        known = λ near. ground (
          arith,
          Map.get-insert nonce nonce (pos n) (cleanup_old_nonces a (pos n)).nonce_cache,
          ==_refl nonce,
        );
      })

  not_again :
      (a b a' b' : AuthManager) (d n now : ℕ) (signature signature' raw nonce : String)
      (body body' : List ℕ)
      → a.max_drift_secs ≡ pos d
      → d < 2305843009213693952
      → n < 4611686018427387904
      → now < 4611686018427387904
      → IsGenuine hmac a (pos n) signature raw nonce body a'
      → Remembers d nonce n now b
      → ¬ IsGenuine hmac b (pos now) signature' raw nonce body' b'
  not_again a b a' b' d n now signature signature' raw nonce body body' e hd hn hnow
        (t, _, read, near, _, _, _, _) r (t', _, read', near', new, _, _, _) =
      let cleaned =
        cleanup-Remembers b d n now now nonce r
          (record { drift_small = hd; now_small = hnow; before = omega arith }) in
      let soon =
        drifts_apart a b d n now t (parse_i64-IsI64 raw t read) e r.allows hd hn hnow near
          (subst (λ x. drifts b (pos now) x ≡ false) (cc (read, read')) near') in
      ground (arith, cleaned.known soon, new)

  -- What `verify_accepts` says, of the timestamp and the nonce that the request is known to bring.
  accepted_as :
      (a : AuthManager) (now : ℤ) (request : Request) (key signature raw nonce : String)
      → Brings request key signature raw nonce
      → (verify hmac a now request).1 ≡ none
      → (s : String) × IsGenuine hmac a now s raw nonce
          (body_of request)
          (verify hmac a now request).0
  accepted_as a now request key signature raw nonce brings accepted =
      let v = verify hmac a now request in
      let (k, s, r, m, brings', _, genuine) =
        verify_accepts hmac a v.0 now request (ap (λ x. (v.0, x)) accepted) in
      let (same_raw, same_nonce) =
        Brings-unique request k s r m key signature raw nonce brings' brings in
      (
        s,
        subst (λ x. IsGenuine hmac a now s x nonce (body_of request) v.0) same_raw
            (subst (λ x. IsGenuine hmac a now s r x (body_of request) v.0) same_nonce genuine),
      )

  -- A request is not accepted twice. Once the manager has accepted a request, it refuses every later
  -- request with the same timestamp and nonce, whatever its signature and body and whichever way it
  -- comes, and whatever requests it checks in between, if their times are not after that of the
  -- later request. Times are below 2 ^ 62 and the drift below 2 ^ 61 seconds; the timestamp is any
  -- text.
  pub verify_once :
      (a : AuthManager) (d n now : ℕ) (first second : Request) (between : List (ℤ × Request))
      (key signature raw nonce key' signature' : String)
      → a.max_drift_secs ≡ pos d
      → d < 2305843009213693952
      → n < 4611686018427387904
      → now < 4611686018427387904
      → Brings first key signature raw nonce
      → Brings second key' signature' raw nonce
      → All (IsBefore now) between
      → (verify hmac a (pos n) first).1 ≡ none
      → (verify hmac (serve hmac (verify hmac a (pos n) first).0 between) (pos now) second).1 ≢ none
  verify_once a d n now first second between key signature raw nonce key' signature' e hd hn hnow
        brings brings' before accepted again =
      let a' = (verify hmac a (pos n) first).0 in
      let (s, genuine) = accepted_as a (pos n) first key signature raw nonce brings accepted in
      let b = serve hmac a' between in
      let (s', genuine') = accepted_as b (pos now) second key' signature' raw nonce brings' again in
      not_again a b a' (verify hmac b (pos now) second).0 d n now s s' raw nonce (body_of first)
        (body_of second) e hd hn hnow genuine
        (serve-Remembers hmac between a' d n now nonce
          (IsGenuine-Remembers a a' d n now s raw nonce (body_of first) e genuine) hd hnow before)
        genuine'
