-- ===== src/Services/Chain.antt =====
-- services/api over services/orchestrator: the way of one chat request.
pub mod Forwarding
use frankai_online.Common.{
  ℕ, Str, js, [], ◌∷◌, ◌&&◌, ◌≡◌, refl, inl, inr, leb, length, trim, str_mem, trim_idempotent,
  Bool-cases, Option-cases, arith, Option, none, some, Json, null, bool, num, str, arr, obj, get,
  subst, ◌===◌,
}
use frankai_online.Services.Contract.{
  ChatRequest, read_chat_request, read_orchestrator_request, request_json, and_then, optional,
  text_of, sized, only_keys, conversation, with_option, map_option,
}

sized-some :
    (low high : ℕ) (s t : Str) → sized low high (trim s) ≡ some t → sized low high (trim t) ≡ some t
unfolding sized
sized-some low high s t h =
    elim (Bool-cases (leb low (length (trim s)) && leb (length (trim s)) high)) [
      | inl e ↦
          let same : trim s ≡ t = (let k : some (trim s) ≡ some t = (rw e at h) in cc) in
          let again : trim t ≡ t = (rw⁻¹ same (trim_idempotent s)) in
          rw again (subst (λ x. sized low high x ≡ some t) same h)
      | inr e ↦ ground arith
    ]

-- The member of a request that may be absent, as the schema reads it back.
unfoldable pub IsConversation : Option Str → Type 0
IsConversation none = Unit
IsConversation (some c) = conversation c ≡ some c

-- A request that the public schema has accepted.
pub record IsChatRequest (q : ChatRequest) : Type 0 where
  pub message_fits : sized 1 4000 (trim q.message) ≡ some q.message
  pub conversation_fits : IsConversation q.conversation_id

pub read_orchestrator_request-json :
    (m : Str) (c : Option Str) (i : Str)
    → sized 1 4000 (trim m) ≡ some m
    → IsConversation c
    → sized 1 128 i ≡ some i
    → read_orchestrator_request (request_json (record { message = m; conversation_id = c }) i)
      ≡ some (record { message = m; conversation_id = c; request_id = i })
unfolding read_orchestrator_request request_json get only_keys str_mem ◌===◌ text_of optional
    and_then with_option map_option IsConversation
read_orchestrator_request-json m none i hm hc hi = rw hm (rw hi refl)
read_orchestrator_request-json m (some c) i hm hc hi = rw hm (rw hc (rw hi refl))

text_of-sized :
    (low high : ℕ) (o : Option Json) (t : Str)
    → text_of (λ s. sized low high (trim s)) o ≡ some t
    → sized low high (trim t) ≡ some t
unfolding text_of
text_of-sized low high none t h = ground arith
text_of-sized low high (some null) t h = ground arith
text_of-sized low high (some (bool b)) t h = ground arith
text_of-sized low high (some (num k)) t h = ground arith
text_of-sized low high (some (str s)) t h = sized-some low high s t h
text_of-sized low high (some (arr vs)) t h = ground arith
text_of-sized low high (some (obj fs)) t h = ground arith

optional-IsConversation :
    (o : Option Json) (c : Option Str)
    → optional (λ v. text_of conversation (some v)) o ≡ some c
    → IsConversation c
unfolding optional and_then IsConversation
optional-IsConversation none none h = tt
optional-IsConversation none (some c) h = ground arith
optional-IsConversation (some v) c h = elim (Option-cases (text_of conversation (some v))) [
  | inl e ↦ ground arith
  | inr (t, e) ↦
      let same : some t ≡ c = (let k : some (some t) ≡ some c = (rw e at h) in cc) in
      subst IsConversation same (text_of-sized 1 128 (some v) t e)
]

and_then-some :
    {A B : Type 0} (o : Option A) (f : A → Option B) (b : B)
    → and_then o f ≡ some b
    → (a : A) × (o ≡ some a) × (f a ≡ some b)
unfolding and_then
and_then-some none f b h = ground arith
and_then-some (some a) f b h = (a, refl, h)

pub read_chat_request-IsChatRequest :
    (v : Json) (q : ChatRequest) → read_chat_request v ≡ some q → IsChatRequest q
unfolding read_chat_request
read_chat_request-IsChatRequest null q h = ground arith
read_chat_request-IsChatRequest (bool b) q h = ground arith
read_chat_request-IsChatRequest (num k) q h = ground arith
read_chat_request-IsChatRequest (str s) q h = ground arith
read_chat_request-IsChatRequest (arr vs) q h = ground arith
read_chat_request-IsChatRequest (obj fs) q h =
    elim (Bool-cases (only_keys (js "message" ∷ js "conversationId" ∷ []) fs)) [
      | inr e ↦ ground arith
      | inl e ↦
          let (m, hm, h2) = and_then-some _ _ q (rw e at h) in
          let (c, hc, h3) = and_then-some _ _ q h2 in
          let same : record { message = m; conversation_id = c } ≡ q =
            (let k : some (record { message = m; conversation_id = c }) ≡ some q = h3 in cc) in
          subst IsChatRequest same (record {
            message_fits = text_of-sized 1 4000 (get fs (js "message")) m hm;
            conversation_fits = optional-IsConversation (get fs (js "conversationId")) c hc;
          })
    ]
