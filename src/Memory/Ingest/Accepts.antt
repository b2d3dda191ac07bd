-- ===== src/Memory/Ingest/Accepts.antt =====
-- lib/memory/store.ts: the ingest payloads that are accepted.
use frankai_online.Common.{
  Str, js, true, false, ◌≡◌, inl, inr, is_empty, trim, str_mem, IsClean, trim-IsClean, Runtime,
  Bool-cases, arith, Option, none, some, Json, str, obj, get, accepted, >>=-eq-accepted,
  accepted-injective, subst,
}
use frankai_online.Memory.Ingest.{
  MemoryIngestPayload, privacy_levels, required_text, check_text, check_occurred_at,
  check_external_id, check_privacy, check_metadata, validate_memory_ingest_payload,
}

abbrev pub IsLevel : Option Str → Type 0
IsLevel none = Unit
IsLevel (some s) = str_mem s privacy_levels ≡ true

abbrev pub IsDate : Runtime → Option Str → Type 0
IsDate rt none = Unit
IsDate rt (some s) = rt.is_date s ≡ true

abbrev pub HasContent : Option Str → Type 0
HasContent none = Unit
HasContent (some s) = is_empty (trim s) ≡ false

abbrev pub IsCleanOption : Option Str → Type 0
IsCleanOption none = Unit
IsCleanOption (some s) = IsClean s

pub record IsIngest (rt : Runtime) (p : MemoryIngestPayload) : Type 0 where
  pub source : IsClean p.source
  pub kind : IsClean p.kind
  pub text : HasContent p.text
  pub occurred_at : IsDate rt p.occurred_at
  pub external_id : IsCleanOption p.external_id
  pub privacy : IsLevel p.privacy

required_text-IsClean :
    (o : Option Json) (message t : Str) → required_text o message ≡ accepted t → IsClean t
unfolding required_text
required_text-IsClean (some (str s)) message t h =
    let same : trim s ≡ t = ground arith in
    let full : is_empty (trim s) ≡ false = ground arith in rw same at (trim-IsClean s full)
required_text-IsClean _ message t h = cc

check_text-HasContent : (o : Option Json) → HasContent (check_text o)
unfolding check_text
check_text-HasContent (some (str s)) = ground arith
check_text-HasContent _ = tt

check_external_id-IsClean : (o : Option Json) → IsCleanOption (check_external_id o)
unfolding check_external_id
check_external_id-IsClean (some (str s)) = elim (Bool-cases (is_empty (trim s))) [
  | inl e ↦ rw e tt
  | inr e ↦ rw e (trim-IsClean s e)
]
check_external_id-IsClean _ = tt

check_occurred_at-IsDate :
    (rt : Runtime) (o : Option Json) (t : Option Str)
    → check_occurred_at rt o ≡ accepted t
    → IsDate rt t
unfolding check_occurred_at
check_occurred_at-IsDate rt o none h = tt
check_occurred_at-IsDate rt (some (str s)) (some t) h = ground arith
check_occurred_at-IsDate rt _ (some t) h = cc

check_privacy-IsLevel :
    (o : Option Json) (t : Option Str) → check_privacy o ≡ accepted t → IsLevel t
unfolding check_privacy
check_privacy-IsLevel o none h = tt
check_privacy-IsLevel (some (str s)) (some t) h = ground arith
check_privacy-IsLevel _ (some t) h = cc

-- An accepted payload has a trimmed source and kind with content; its text, date, external id and
-- privacy level are absent or valid.
pub validate_memory_ingest_payload-IsIngest :
    (rt : Runtime) (v : Json) (p : MemoryIngestPayload)
    → validate_memory_ingest_payload rt v ≡ accepted p
    → IsIngest rt p
unfolding validate_memory_ingest_payload
validate_memory_ingest_payload-IsIngest rt (obj fs) p h =
    let (source, e1, h1) = >>=-eq-accepted (required_text (get fs (js "source")) _) _ h in
    let (kind, e2, h2) = >>=-eq-accepted (required_text (get fs (js "kind")) _) _ h1 in
    let (date, e3, h3) = >>=-eq-accepted (check_occurred_at rt (get fs (js "occurredAt"))) _ h2 in
    let (level, e4, h4) = >>=-eq-accepted (check_privacy (get fs (js "privacy"))) _ h3 in
    let (meta, e5, h5) = >>=-eq-accepted (check_metadata (get fs (js "metadata"))) _ h4 in
    subst (λ q. IsIngest rt q) (accepted-injective h5)
      (record {
        source = required_text-IsClean _ _ source e1;
        kind = required_text-IsClean _ _ kind e2;
        text = check_text-HasContent (get fs (js "text"));
        occurred_at = check_occurred_at-IsDate rt _ date e3;
        external_id = check_external_id-IsClean (get fs (js "externalId"));
        privacy = check_privacy-IsLevel _ level e4;
      })
validate_memory_ingest_payload-IsIngest rt _ p h = cc
