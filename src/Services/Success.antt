-- ===== src/Services/Success.antt =====
-- packages/contracts/src/chat.ts: a reply that the services write reads back under the schema.
use frankai_online.Common.{
  ℕ, ◌^◌, ◌<◌, Str, ◌≡◌, refl, ◌===◌, arith, Option, none, some, get, is_integer, num_value, whole,
}
use frankai_online.Services.Contract.{
  ChatSuccess, Usage, and_then, sized, at_least, text_of, optional, token_count, read_usage,
  read_success, is_agent, with_option, map_option, usage_json, success_json,
}

-- What the schema asks of the members that may be absent.
abbrev pub IsCount : Option ℕ → Type 0
IsCount none = Unit
IsCount (some n) = n < 2 ^ 53

abbrev pub IsUsage : Option Usage → Type 0
IsUsage none = Unit
IsUsage (some u) = IsCount u.input_tokens × IsCount u.output_tokens × IsCount u.total_tokens

abbrev pub IsConversationId : Option Str → Type 0
IsConversationId none = Unit
IsConversationId (some c) = sized 1 128 c ≡ some c

pub record IsSuccess (s : ChatSuccess) : Type 0 where
  pub request_fits : at_least 1 s.request_id ≡ some s.request_id
  pub conversation_fits : IsConversationId s.conversation_id
  pub message_fits : at_least 1 s.message ≡ some s.message
  pub usage_fits : IsUsage s.usage

token_count-whole : (n : ℕ) → n < 2 ^ 53 → token_count (whole n) ≡ some n
unfolding token_count is_integer num_value
token_count-whole n h = ground arith

counted : (n : ℕ) → n < 2 ^ 53 → optional token_count (some (whole n)) ≡ some (some n)
unfolding optional and_then
counted n h = rw (token_count-whole n h) refl

read_usage-json :
    (i o t : Option ℕ)
    → IsCount i
    → IsCount o
    → IsCount t
    → read_usage (usage_json (record { input_tokens = i; output_tokens = o; total_tokens = t }))
      ≡ some (record { input_tokens = i; output_tokens = o; total_tokens = t })
unfolding read_usage usage_json with_option map_option get ◌===◌ optional and_then
read_usage-json none none none hi ho ht = refl
read_usage-json none none (some t) hi ho ht = rw (token_count-whole t ht) refl
read_usage-json none (some o) none hi ho ht = rw (token_count-whole o ho) refl
read_usage-json none (some o) (some t) hi ho ht =
    rw (token_count-whole o ho) (rw (token_count-whole t ht) refl)
read_usage-json (some i) none none hi ho ht = rw (token_count-whole i hi) refl
read_usage-json (some i) none (some t) hi ho ht =
    rw (token_count-whole i hi) (rw (token_count-whole t ht) refl)
read_usage-json (some i) (some o) none hi ho ht =
    rw (token_count-whole i hi) (rw (token_count-whole o ho) refl)
read_usage-json (some i) (some o) (some t) hi ho ht =
    rw (token_count-whole i hi) (rw (token_count-whole o ho) (rw (token_count-whole t ht) refl))

read_success-parts :
    (r : Str) (c : Option Str) (m : Str) (u : Option Usage)
    → IsSuccess (record { request_id = r; conversation_id = c; message = m; usage = u })
    → read_success
        (success_json (record { request_id = r; conversation_id = c; message = m; usage = u }))
      ≡ some (record { request_id = r; conversation_id = c; message = m; usage = u })
unfolding read_success is_agent success_json with_option map_option get ◌===◌ text_of optional
    and_then
read_success-parts r none m none h = rw h.request_fits (rw h.message_fits refl)
read_success-parts r (some c) m none h =
    rw h.request_fits (rw h.conversation_fits (rw h.message_fits refl))
read_success-parts r none m (some u) h =
    let (hi, ho, ht) = h.usage_fits in
    let usage = read_usage-json u.input_tokens u.output_tokens u.total_tokens hi ho ht in
    rw h.request_fits (rw h.message_fits (rw usage refl))
read_success-parts r (some c) m (some u) h =
    let (hi, ho, ht) = h.usage_fits in
    let usage = read_usage-json u.input_tokens u.output_tokens u.total_tokens hi ho ht in
    rw h.request_fits (rw h.conversation_fits (rw h.message_fits (rw usage refl)))

-- The JSON of a successful reply reads back as that reply, where its request id and message are
-- not empty, its conversation id has between 1 and 128 characters, and its token counts are below
-- 2 ^ 53.
pub read_success-success_json :
    (s : ChatSuccess) → IsSuccess s → read_success (success_json s) ≡ some s
read_success-success_json s h =
    read_success-parts s.request_id s.conversation_id s.message s.usage h
