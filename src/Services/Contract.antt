-- ===== src/Services/Contract.antt =====
-- packages/contracts/src/chat.ts: what the services accept of each other.
use frankai_online.Common.{
  ℕ, ◌^◌, Str, js, List, [], ◌∷◌, Bool, true, false, not, ◌&&◌, ◌||◌, leb, ltb, ◌==◌, if◌then◌else◌,
  length, trim, str_mem, ◌===◌, Option, none, some, Json, num, str, obj, Fields, end, field, get,
  is_integer, num_value, whole,
}

pub record ChatRequest : Type 0 where
  pub message : Str
  pub conversation_id : Option Str

pub record OrchestratorRequest : Type 0 where
  pub message : Str
  pub conversation_id : Option Str
  pub request_id : Str

pub record Usage : Type 0 where
  pub input_tokens : Option ℕ
  pub output_tokens : Option ℕ
  pub total_tokens : Option ℕ

-- The field `agent` has the one value `frank-core`.
pub record ChatSuccess : Type 0 where
  pub request_id : Str
  pub conversation_id : Option Str
  pub message : Str
  pub usage : Option Usage

pub data ErrorCode : Type 0 where
  unauthorized invalid_request orchestrator_unavailable : ErrorCode
  model_secret_missing model_timeout model_failure internal_error : ErrorCode

abbrev pub code_text : ErrorCode → Str
code_text unauthorized = js "UNAUTHORIZED"
code_text invalid_request = js "INVALID_REQUEST"
code_text orchestrator_unavailable = js "ORCHESTRATOR_UNAVAILABLE"
code_text model_secret_missing = js "MODEL_SECRET_MISSING"
code_text model_timeout = js "MODEL_TIMEOUT"
code_text model_failure = js "MODEL_FAILURE"
code_text internal_error = js "INTERNAL_ERROR"

abbrev pub error_codes : List Str
error_codes =
    js "UNAUTHORIZED"
    ∷ js "INVALID_REQUEST"
    ∷ js "ORCHESTRATOR_UNAVAILABLE"
    ∷ js "MODEL_SECRET_MISSING"
    ∷ js "MODEL_TIMEOUT"
    ∷ js "MODEL_FAILURE"
    ∷ js "INTERNAL_ERROR"
    ∷ []

unfoldable pub and_then {ℓ κ} : {A : Type ℓ} {B : Type κ} → Option A → (A → Option B) → Option B
and_then none f = none
and_then (some a) f = f a

-- A text whose length lies between two bounds.
unfoldable pub sized : ℕ → ℕ → Str → Option Str
sized low high s = if leb low (length s) && leb (length s) high then some s else none

unfoldable pub at_least : ℕ → Str → Option Str
at_least low s = if leb low (length s) then some s else none

unfoldable pub text_of : (Str → Option Str) → Option Json → Option Str
text_of check (some (str s)) = check s
text_of check _ = none

-- A field that may be absent: a schema's `optional()`.
unfoldable pub optional {ℓ} : {A : Type ℓ} → (Json → Option A) → Option Json → Option (Option A)
optional read none = some none
optional read (some v) = and_then (read v) (λ a. some (some a))

-- `z.strictObject`: every key is one of the shape's.
unfoldable pub only_keys : List Str → Fields → Bool
only_keys keys end = true
only_keys keys (field k v fs) = str_mem k keys && only_keys keys fs

abbrev pub conversation : Str → Option Str
conversation s = sized 1 128 (trim s)

unfoldable pub read_chat_request : Json → Option ChatRequest
read_chat_request (obj fs) =
    if only_keys (js "message" ∷ js "conversationId" ∷ []) fs
    then and_then (text_of (λ s. sized 1 4000 (trim s)) (get fs (js "message"))) (λ m.
      and_then (optional (λ v. text_of conversation (some v)) (get fs (js "conversationId")))
        (λ c. some (record { message = m; conversation_id = c })))
    else none
read_chat_request _ = none

unfoldable pub read_orchestrator_request : Json → Option OrchestratorRequest
read_orchestrator_request (obj fs) =
    if only_keys (js "message" ∷ js "conversationId" ∷ js "requestId" ∷ []) fs
    then and_then (text_of (λ s. sized 1 4000 (trim s)) (get fs (js "message"))) (λ m.
      and_then (optional (λ v. text_of conversation (some v)) (get fs (js "conversationId"))) (λ c.
        and_then (text_of (sized 1 128) (get fs (js "requestId")))
          (λ r. some (record { message = m; conversation_id = c; request_id = r }))))
    else none
read_orchestrator_request _ = none

-- `z.number().int().nonnegative()`: a safe integer.
unfoldable pub token_count : Json → Option ℕ
token_count (num n) =
    if is_integer n && (not n.negative || n.magnitude == 0) && ltb (num_value n) (2 ^ 53)
    then some (num_value n)
    else none
token_count _ = none

unfoldable pub read_usage : Json → Option Usage
read_usage (obj fs) = and_then (optional token_count (get fs (js "inputTokens"))) (λ i.
    and_then (optional token_count (get fs (js "outputTokens"))) (λ o.
      and_then (optional token_count (get fs (js "totalTokens")))
        (λ t. some (record { input_tokens = i; output_tokens = o; total_tokens = t }))))
read_usage _ = none

unfoldable pub is_agent : Str → Option Str
is_agent s = if s === js "frank-core" then some s else none

unfoldable pub read_success : Json → Option ChatSuccess
unfolding is_agent
read_success (obj fs) = and_then (text_of (at_least 1) (get fs (js "requestId"))) (λ r.
    and_then (optional (λ v. text_of (sized 1 128) (some v)) (get fs (js "conversationId"))) (λ c.
      and_then (text_of is_agent (get fs (js "agent"))) (λ _.
        and_then (text_of (at_least 1) (get fs (js "message"))) (λ m.
          and_then (optional read_usage (get fs (js "usage")))
            (λ u. some (record { request_id = r; conversation_id = c; message = m; usage = u }))))))
read_success _ = none

known_code : Str → Option Str
known_code s = if str_mem s error_codes then some s else none

read_error : Json → Option Str
read_error (obj fs) = and_then (text_of known_code (get fs (js "code"))) (λ _.
    and_then (text_of some (get fs (js "message")))
      (λ _. and_then (text_of (at_least 1) (get fs (js "requestId"))) some))
read_error _ = none

unfoldable pub has_value {ℓ} : {A : Type ℓ} → Option A → Bool
has_value none = false
has_value (some _) = true

-- `errorResponseSchema.safeParse(payload).success`
unfoldable pub is_error_response : Json → Bool
unfolding read_error known_code
is_error_response (obj fs) = has_value (and_then (get fs (js "error")) read_error)
is_error_response _ = false

-- JSON of optional members: `undefined` is left out.
unfoldable pub with_option : Str → Option Json → Fields → Fields
with_option k none rest = rest
with_option k (some v) rest = field k v rest

unfoldable pub map_option {ℓ κ} : {A : Type ℓ} {B : Type κ} → (A → B) → Option A → Option B
map_option f none = none
map_option f (some a) = some (f a)

unfoldable pub usage_json : Usage → Json
usage_json u = obj (
    with_option (js "inputTokens") (map_option whole u.input_tokens) (
      with_option (js "outputTokens") (map_option whole u.output_tokens)
        (with_option (js "totalTokens") (map_option whole u.total_tokens) end)))

unfoldable pub success_json : ChatSuccess → Json
success_json s = obj (
    field (js "requestId") (str s.request_id) (
      with_option (js "conversationId") (map_option str s.conversation_id) (
        field (js "agent") (str (js "frank-core")) (
          field (js "message") (str s.message)
            (with_option (js "usage") (map_option usage_json s.usage) end)))))

-- `{ error: { code, message, requestId } }`
unfoldable pub error_json : ErrorCode → Str → Str → Json
error_json code message request_id = obj (
    field (js "error")
      (obj (
        field (js "code") (str (code_text code))
          (field (js "message") (str message) (field (js "requestId") (str request_id) end))))
      end)

-- `JSON.stringify({ ...parsed.data, requestId })`, as the value it is parsed back to
unfoldable pub request_json : ChatRequest → Str → Json
request_json r request_id = obj (
    field (js "message") (str r.message) (
      with_option (js "conversationId") (map_option str r.conversation_id)
        (field (js "requestId") (str request_id) end)))
