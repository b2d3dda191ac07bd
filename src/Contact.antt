-- ===== src/Contact.antt =====
-- app/api/contact: the enquiry form's handler, with its rate limit and its log.
pub mod Limit
pub mod Effects
use frankai_online.Common.{
  ℕ, ◌+◌, ◌*◌, Str, js, List, [], ◌∷◌, ◌++◌, Bool, true, false, not, ◌&&◌, ◌||◌, leb, ltb, ◌==◌,
  if◌then◌else◌, length, take, is_empty, is_space, trim, str_mem, ◌===◌, Runtime, Option, none,
  some, Json, null, bool, str, obj, Fields, end, of_fields, get, split_on,
}

abbrev pub max_body_bytes : ℕ
max_body_bytes = 12 * 1024

abbrev pub window_ms : ℕ
window_ms = 10 * 60 * 1000

abbrev pub max_requests_per_window : ℕ
max_requests_per_window = 5

abbrev pub interest_types : List Str
interest_types =
    js "personal_access"
    ∷ js "workflow_solution"
    ∷ js "partnership"
    ∷ js "investment"
    ∷ js "other"
    ∷ []

pub record Bucket : Type 0 where
  pub count : ℕ
  pub reset_at : ℕ

-- The module's map from keys to buckets, in the order in which the keys were added.
abbrev pub Buckets : Type 0
Buckets = List (Str × Bucket)

unfoldable pub bucket_of : Str → Buckets → Option Bucket
bucket_of key [] = none
bucket_of key ((k, b) ∷ bs) = if k === key then some b else bucket_of key bs

unfoldable pub set_bucket : Str → Bucket → Buckets → Buckets
set_bucket key b [] = (key, b) ∷ []
set_bucket key b ((k, c) ∷ bs) = if k === key then (k, b) ∷ bs else (k, c) ∷ set_bucket key b bs

-- The bucket that a request leaves, and whether the request is let through.
unfoldable pub next_bucket : ℕ → Option Bucket → Bucket × Bool
next_bucket now none = (record { count = 1; reset_at = now + window_ms }, true)
next_bucket now (some b) =
    if leb b.reset_at now
    then (record { count = 1; reset_at = now + window_ms }, true)
    else (record b { count = b.count + 1 }, leb (b.count + 1) max_requests_per_window)

unfoldable pub rate_limit : ℕ → Str → Buckets → Buckets × Bool
rate_limit now key bs =
    let next = next_bucket now (bucket_of key bs) in (set_bucket key next.0 bs, next.1)

-- `value.trim().slice(0, maxLength)`, of a text
unfoldable pub text : Option Json → ℕ → Str
text (some (str s)) max_length = take max_length (trim s)
text _ max_length = []

first_part : List Str → Str
first_part [] = []
first_part (s ∷ ss) = s

or_text : Option Str → Str → Str
or_text none fallback = fallback
or_text (some s) fallback = if is_empty s then fallback else s

unfoldable pub get_client_ip : Option Str → Option Str → Str
unfolding first_part or_text
get_client_ip forwarded real_ip =
    or_text (elim forwarded [ none ↦ none | some s ↦ some (trim (first_part (split_on 44 s))) ])
      (or_text real_ip (js "unknown"))

plain_char : ℕ → Bool
plain_char c = not (is_space c) && not (c == 64)

all_plain : Str → Bool
all_plain [] = true
all_plain (c ∷ cs) = plain_char c && all_plain cs

-- A full stop that is not the last character.
dot_inside : Str → Bool
dot_inside [] = false
dot_inside (c ∷ cs) = c == 46 && not (is_empty cs) || dot_inside cs

domain : Str → Bool
domain [] = false
domain (c ∷ cs) = all_plain (c ∷ cs) && dot_inside cs

-- The rest of an address after some characters of its local part.
rest_of_email : Str → Bool
rest_of_email [] = false
rest_of_email (c ∷ cs) = if c == 64 then domain cs else plain_char c && rest_of_email cs

-- `/^[^\s@]+@[^\s@]+\.[^\s@]+$/`
unfoldable pub is_email : Str → Bool
unfolding rest_of_email domain dot_inside all_plain plain_char
is_email [] = false
is_email (c ∷ cs) = plain_char c && rest_of_email cs

pub record ContactCall : Type 0 where
  pub forwarded : Option Str
  pub real_ip : Option Str
  pub user_agent : Option Str
  pub body : Str
  pub now : ℕ
  pub now_text : Str
  -- the first eight characters of a random UUID, in upper case
  pub code : Str
  -- whether the log can be written
  pub writable : Bool

pub record Enquiries : Type 0 where
  pub buckets : Buckets
  pub log : Str

pub data ContactReply : Type 0 where
  received : Str → ContactReply
  turned_away : ℕ → Str → ContactReply
  failed : ContactReply

-- The texts of an enquiry, cut to their limits.
pub record Enquiry : Type 0 where
  pub name : Str
  pub email : Str
  pub organisation : Str
  pub interest_type : Str
  pub message : Str
  pub consent : Bool

is_true : Option Json → Bool
is_true (some (bool b)) = b
is_true _ = false

unfoldable pub read_enquiry : Runtime → Fields → Enquiry
unfolding is_true
read_enquiry rt fs = record {
  name = text (get fs (js "name")) 120;
  email = rt.lower (text (get fs (js "email")) 160);
  organisation = text (get fs (js "organisation")) 160;
  interest_type = text (get fs (js "interestType")) 60;
  message = text (get fs (js "message")) 1600;
  consent = is_true (get fs (js "consent"));
}

-- The refusal of an enquiry, or `none`.
unfoldable pub check_enquiry : Enquiry → Option Str
check_enquiry e =
    if is_empty e.name || is_empty e.email || is_empty e.message || not e.consent
    then some (js "Name, email, context and consent are required.")
    else if not (is_email e.email)
    then some (js "Enter a valid email address.")
    else if not (str_mem e.interest_type interest_types)
    then some (js "Choose a valid interest type.")
    else none

or_null : Str → Json
or_null s = if is_empty s then null else str s

given_text : Option Str → Option Json
given_text none = none
given_text (some s) = some (str s)

unfoldable pub enquiry_json : ContactCall → Str → Enquiry → Str → Json
unfolding or_null given_text
enquiry_json call ip_hash e reference = obj (
    of_fields (
      (js "reference", str reference)
      ∷ (js "receivedAt", str call.now_text)
      ∷ (js "source", str (js "frankai.online/contact"))
      ∷ (js "name", str e.name)
      ∷ (js "email", str e.email)
      ∷ (js "organisation", or_null e.organisation)
      ∷ (js "interestType", str e.interest_type)
      ∷ (js "message", str e.message)
      ∷ (js "consent", bool true)
      ∷ (js "ipHash", str ip_hash)
      ∷ (js "userAgent", or_null (text (given_text call.user_agent) 260))
      ∷ []))

abbrev pub reference_of : ContactCall → Str
reference_of call = js "FRANK-" ++ call.code

unfoldable pub log_line : Runtime → ContactCall → Str → Enquiry → Str
log_line rt call ip_hash e =
    rt.stringify (enquiry_json call ip_hash e (reference_of call)) ++ js "\n"

-- A checked enquiry is written to the log, and answered with its reference.
unfoldable pub store_enquiry :
    Runtime → ContactCall → Str → Enquiry → Option Str → Enquiries → Enquiries × ContactReply
store_enquiry rt call ip_hash e (some message) site = (site, turned_away 400 message)
store_enquiry rt call ip_hash e none site =
    if call.writable
    then (
      record site { log = site.log ++ log_line rt call ip_hash e },
      received (reference_of call),
    )
    else (site, failed)

-- A filled-in `website` field marks a robot, which is answered as if its enquiry were kept.
unfoldable pub take_enquiry :
    Runtime → ContactCall → Str → Fields → Enquiries → Enquiries × ContactReply
take_enquiry rt call ip_hash fs site =
    let e = read_enquiry rt fs in
    if not (is_empty (text (get fs (js "website")) 200))
    then (site, received (js "queued"))
    else store_enquiry rt call ip_hash e (check_enquiry e) site

-- Reading a member of `null` throws; any other value that is not an object has no members.
unfoldable pub take_payload :
    Runtime → ContactCall → Str → Option Json → Enquiries → Enquiries × ContactReply
take_payload rt call ip_hash none site = (site, turned_away 400 (js "Invalid JSON."))
take_payload rt call ip_hash (some null) site = (site, failed)
take_payload rt call ip_hash (some (obj fs)) site = take_enquiry rt call ip_hash fs site
take_payload rt call ip_hash (some _) site = take_enquiry rt call ip_hash end site

unfoldable pub post_contact :
    Runtime → (Str → Str) → ContactCall → Enquiries → Enquiries × ContactReply
post_contact rt hash_ip call site =
    let ip_hash = hash_ip (get_client_ip call.forwarded call.real_ip) in
    let limited = rate_limit call.now ip_hash site.buckets in
    let counted = record site { buckets = limited.0 } in
    if not limited.1
    then (counted, turned_away 429 (js "Too many enquiries from this connection. Try again later."))
    else if ltb max_body_bytes (length (rt.utf8 call.body))
    then (counted, turned_away 413 (js "Request is too large."))
    else take_payload rt call ip_hash (rt.parse call.body) counted
