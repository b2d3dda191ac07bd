-- ===== src/Memory/Access/Guards.antt =====
-- lib/memory/auth.ts: the bearer check and the limit on a body.
use frankai_online.Common.{
  ℕ, ◌*◌, ◌^◌, ◌≤◌, Str, js, true, false, ◌≡◌, ◌↔◌, refl, length, is_empty, ===_iff, ===_refl,
  starts_with, Runtime, arith, Option, none, some, Json, Number, num_above, Reply,
}
use native.Mathlib.Nat.{le_of_mul-le-mul_right}
use frankai_online.Memory.Query.Accepts.{pow_pos}
use frankai_online.Memory.Access.{
  Request, constant_time_matches, after, bearer, require_bearer_token, max_bytes, plain, bounded,
  configured_number, get_max_payload_bytes, exceeds, payload, rejected, read_json_payload,
}

-- An authorization header carries the secret: it is `Bearer ` and a token with the secret's bytes.
pub record Carries (rt : Runtime) (authorization : Option Str) (secret : Str) : Type 0 where
  pub header : Str
  pub sent : authorization ≡ some header
  pub scheme : starts_with header (js "Bearer ") ≡ true
  pub same_bytes : rt.utf8 (after 7 header) ≡ rt.utf8 secret

constant_time_matches_iff :
    (rt : Runtime) (a b : Str) → (constant_time_matches rt a b ≡ true) ↔ (rt.utf8 a ≡ rt.utf8 b)
unfolding constant_time_matches
constant_time_matches_iff rt a b = (
  λ h. (===_iff (rt.utf8 a) (rt.utf8 b)).0 (ground arith),
  λ e. rw e (ground (arith, ===_refl (rt.utf8 b))),
)

bearer_sound :
    (rt : Runtime) (secret : Str) (o : Option Str) → bearer rt secret o ≡ none → Carries rt o secret
unfolding bearer
bearer_sound rt secret none h = absurd (cc)
bearer_sound rt secret (some header) h =
    let matched : constant_time_matches rt (after 7 header) secret ≡ true = ground arith in
    record {
      header = header;
      sent = refl;
      scheme = ground arith;
      same_bytes = (constant_time_matches_iff rt (after 7 header) secret).0 matched;
    }

bearer_complete :
    (rt : Runtime) (secret : Str) (o : Option Str) → Carries rt o secret → bearer rt secret o ≡ none
unfolding bearer
bearer_complete rt secret none c = absurd (let h = c.sent in cc)
bearer_complete rt secret (some header) c =
    let sent = c.sent in
    let same : c.header ≡ header = cc in
    let matched = (constant_time_matches_iff rt (after 7 c.header) secret).1 c.same_bytes in
    ground arith

-- An endpoint lets a request pass exactly when a secret is configured, is not empty, and the
-- authorization header carries it.
pub require_bearer_token_iff :
    (rt : Runtime) (request : Request) (configured : Option Str)
    → (require_bearer_token rt request configured ≡ none) ↔ (
        (secret : Str) × (configured ≡ some secret)
        × (is_empty secret ≡ false)
        × Carries rt request.authorization secret)
unfolding require_bearer_token
require_bearer_token_iff rt request none = (λ h. absurd (cc), λ (s, e, p, c). absurd (cc))
require_bearer_token_iff rt request (some secret) = (
  λ h. (secret, refl, ground arith, bearer_sound rt secret request.authorization (ground arith)),
  λ (s, e, p, c).
      let same : secret ≡ s = cc in
      let passed = bearer_complete rt s request.authorization c in rw same (ground arith),
)

bounded-le :
    (o : Option Number) (fallback : ℕ)
    → fallback ≤ max_bytes
    → (bounded o fallback).magnitude ≤ max_bytes * 2 ^ (bounded o fallback).shift
unfolding bounded plain num_above
bounded-le none fallback h = omega arith
bounded-le (some n) fallback h = ground arith

read_json_payload_within :
    (rt : Runtime) (request : Request) (limit : Number) (v : Json)
    → read_json_payload rt request limit ≡ payload v
    → (rt.parse request.body ≡ some v)
      × (length (rt.utf8 request.body) * 2 ^ limit.shift ≤ limit.magnitude)
unfolding read_json_payload exceeds
read_json_payload_within rt request limit v e = (ground arith, ground arith)

-- A body that is accepted parses to the payload and has a megabyte of bytes at most, whatever limit
-- is configured, for a default limit within a megabyte.
pub read_json_payload-le :
    (rt : Runtime) (request : Request) (configured : Option Str) (fallback : ℕ) (v : Json)
    → fallback ≤ max_bytes
    → read_json_payload rt request (get_max_payload_bytes rt configured fallback) ≡ payload v
    → (rt.parse request.body ≡ some v) × (length (rt.utf8 request.body) ≤ max_bytes)
unfolding get_max_payload_bytes
read_json_payload-le rt request configured fallback v h e =
    let limit = bounded (configured_number rt configured) fallback in
    let (parsed, within) = read_json_payload_within rt request limit v e in
    let scaled : length (rt.utf8 request.body) * 2 ^ limit.shift ≤ max_bytes * 2 ^ limit.shift =
      omega (arith, bounded-le (configured_number rt configured) fallback h) in
    (parsed, le_of_mul-le-mul_right scaled (pow_pos limit.shift))

-- The statuses of the refusals.
pub require_bearer_token-status :
    (rt : Runtime) (request : Request) (configured : Option Str) (reply : Reply)
    → require_bearer_token rt request configured ≡ some reply
    → 400 ≤ reply.status
unfolding require_bearer_token bearer
require_bearer_token-status rt request none reply h = ground arith
require_bearer_token-status rt request (some secret) reply h = ground arith

pub read_json_payload-status :
    (rt : Runtime) (request : Request) (limit : Number) (reply : Reply)
    → read_json_payload rt request limit ≡ rejected reply
    → 400 ≤ reply.status
unfolding read_json_payload
read_json_payload-status rt request limit reply h = ground arith
