-- ===== src/Platform/Admin/Effects.antt =====
-- app/api/admin/platform: the requests that change the configuration's file.
use frankai_online.Common.{
  ◌≤◌, Str, js, Bool, true, false, ◌≡◌, ◌⊎◌, refl, sym, ap, ◌∙◌, inl, inr, ◌==◌, length, trim,
  ◌===◌, ===_iff, Runtime, File, content, Bool-cases, arith, Option, none, some, Json, null, bool,
  num, str, arr, obj, Fields, end, get, Reply, Outcome, replied, thrown, subst, ℕ, take, cut_after,
  is_empty, IsClean, trim-IsClean, trim_start, trim_end, is_space,
}
use frankai_online.Memory.Access.{
  Payload, payload, rejected, read_json_payload, get_max_payload_bytes, max_bytes,
}
use frankai_online.Memory.Access.Guards.{read_json_payload-le, read_json_payload-status}
use frankai_online.Platform.Config.{PlatformConfig}
use frankai_online.Platform.Store.{
  Attempt, done, invalid, broken, config_text, publish_platform_config,
}
use frankai_online.Platform.Store.Ends.{Ends, IsDraft, IsPublication, publish_platform_config-Ends}
use frankai_online.Platform.Admin.{
  AdminCall, default_max_payload_bytes, config_reply, guarded, is_approved, approval_phrase,
  publish_outcome, publisher, trimmed, publish_approved, publish_parsed, post_platform,
}

abbrev is_ok : Outcome → Bool
is_ok (replied r) = r.status == 200
is_ok thrown = false

-- The administrator's guard refuses with an error.
abbrev pub RefusesWithError : AdminCall → Type 0
RefusesWithError call = (r : Reply) → call.refused_by_auth ≡ some r → 400 ≤ r.status

-- The guards have let a request with this body pass.
pub record IsAdmitted (rt : Runtime) (call : AdminCall) (v : Json) : Type 0 where
  pub by_auth : call.refused_by_auth ≡ none
  pub by_limit : call.allowed ≡ true
  pub by_csrf : call.csrf_ok ≡ true
  pub parsed : rt.parse call.request.body ≡ some v
  pub within : length (rt.utf8 call.request.body) ≤ max_bytes

guarded-IsAdmitted :
    (rt : Runtime) (call : AdminCall) (o : Option Reply) (v : Json)
    → call.refused_by_auth ≡ o
    → guarded rt call o ≡ payload v
    → IsAdmitted rt call v
unfolding guarded
guarded-IsAdmitted rt call (some r) v a h = ground arith
guarded-IsAdmitted rt call none v a h =
    let limited : call.allowed ≡ true = ground arith in
    let csrf : call.csrf_ok ≡ true = ground arith in
    let read : read_json_payload rt call.request
          (get_max_payload_bytes rt call.max_bytes default_max_payload_bytes)
        ≡ payload v =
      ground arith in
    let (parsed, within) =
      read_json_payload-le rt call.request call.max_bytes default_max_payload_bytes v (omega arith)
        read in
    record { by_auth = a; by_limit = limited; by_csrf = csrf; parsed = parsed; within = within }

guarded-status :
    (rt : Runtime) (call : AdminCall) (o : Option Reply) (r : Reply)
    → RefusesWithError call
    → call.refused_by_auth ≡ o
    → guarded rt call o ≡ rejected r
    → 400 ≤ r.status
unfolding guarded
guarded-status rt call (some r') r h a e = ground (arith, h r' a)
guarded-status rt call none r h a e = ground (
  arith,
  read_json_payload-status rt call.request
      (get_max_payload_bytes rt call.max_bytes default_max_payload_bytes) r,
)

-- The file is as it was and the reply is an error; or the guards admitted a request with a fitting
-- body, and the configuration that fits it has been written and is the reply, or the write failed
-- after a beginning of it and the reply is an error.
abbrev pub IsGoverned :
    Runtime → AdminCall → (Json → PlatformConfig → Type 0) → File → File × Outcome → Type 0
IsGoverned rt call Fits file r =
    ((r.0 ≡ file) × (is_ok r.1 ≡ false))
    ⊎ ((v : Json) × (c : PlatformConfig) × IsAdmitted rt call v
        × Fits v c
        × (((r.0 ≡ content (config_text rt c)) × (r.1 ≡ replied (config_reply c)))
            ⊎ ((n : ℕ) × (call.write ≡ cut_after n)
                × (r.0 ≡ content (take n (config_text rt c)))
                × (is_ok r.1 ≡ false))))

error_not_ok : (r : Reply) → 400 ≤ r.status → (r.status == 200) ≡ false
error_not_ok r h = ground arith

module _ (rt : Runtime) (call : AdminCall) (file : File) where
  abbrev pub DraftFits : Json → PlatformConfig → Type 0
  DraftFits v c = IsDraft rt call.now file v c

-- The body of a publication: an object with the approval phrase, and with a note of twenty
-- characters or more, not counting the spaces around them.
pub record IsApproval (v : Json) (body : Fields) : Type 0 where
  pub phrase : Str
  pub note : Str
  pub is_object : v ≡ obj body
  pub phrase_given : get body (js "approvalPhrase") ≡ some (str phrase)
  pub phrase_right : trim phrase ≡ approval_phrase
  pub note_given : get body (js "approvalNote") ≡ some (str note)
  pub note_long : 20 ≤ length (trim note)

trimmed-given :
    (o : Option Json)
    → 1 ≤ length (trimmed o)
    → (s : Str) × (o ≡ some (str s)) × (trimmed o ≡ trim s)
unfolding trimmed
trimmed-given (some (str s)) h = (s, refl, refl)
trimmed-given none h = absurd (ground arith)
trimmed-given (some null) h = absurd (ground arith)
trimmed-given (some (bool b)) h = absurd (ground arith)
trimmed-given (some (num n)) h = absurd (ground arith)
trimmed-given (some (arr vs)) h = absurd (ground arith)
trimmed-given (some (obj fs)) h = absurd (ground arith)

is_approved-IsApproval : (fs : Fields) → is_approved fs ≡ true → IsApproval (obj fs) fs
unfolding is_approved
is_approved-IsApproval fs h =
    let same : (trimmed (get fs (js "approvalPhrase")) === approval_phrase) ≡ true = ground arith in
    let eq = (===_iff (trimmed (get fs (js "approvalPhrase"))) approval_phrase).0 same in
    let long : 20 ≤ length (trimmed (get fs (js "approvalNote"))) = ground arith in
    let filled : 1 ≤ length (trimmed (get fs (js "approvalPhrase"))) = rw eq (omega arith) in
    let (phrase, p, p_trimmed) = trimmed-given (get fs (js "approvalPhrase")) filled in
    let (note, n, n_trimmed) = trimmed-given (get fs (js "approvalNote")) (omega arith) in
    record {
      phrase = phrase;
      note = note;
      is_object = refl;
      phrase_given = p;
      phrase_right = sym p_trimmed ∙ eq;
      note_given = n;
      note_long = subst (λ s. 20 ≤ length s) n_trimmed long;
    }

default_publisher-IsClean : IsClean (js "platform-admin")
unfolding trim trim_start trim_end is_space
default_publisher-IsClean = trim-IsClean (js "platform-admin") refl

trimmed-IsClean : (o : Option Json) → is_empty (trimmed o) ≡ false → IsClean (trimmed o)
unfolding trimmed
trimmed-IsClean (some (str s)) h = trim-IsClean s h
trimmed-IsClean none h = absurd (ground arith)
trimmed-IsClean (some null) h = absurd (ground arith)
trimmed-IsClean (some (bool b)) h = absurd (ground arith)
trimmed-IsClean (some (num n)) h = absurd (ground arith)
trimmed-IsClean (some (arr vs)) h = absurd (ground arith)
trimmed-IsClean (some (obj fs)) h = absurd (ground arith)

publisher-IsClean : (fs : Fields) → IsClean (publisher fs)
unfolding publisher
publisher-IsClean fs = elim (Bool-cases (is_empty (trimmed (get fs (js "publishedBy"))))) [
  | inl e ↦ rw e default_publisher-IsClean
  | inr e ↦ rw e (trimmed-IsClean (get fs (js "publishedBy")) e)
]

module _ (rt : Runtime) (call : AdminCall) (file : File) where
  -- The body approves, and the configuration is the one before, published now by the name in the
  -- body.
  abbrev pub PublicationFits : Json → PlatformConfig → Type 0
  PublicationFits v c =
      (body : Fields) × IsApproval v body × IsPublication rt call.now (publisher body) file c

  publish_outcome-IsGoverned :
      (fs : Fields) (r : File × Attempt)
      → IsAdmitted rt call (obj fs)
      → is_approved fs ≡ true
      → Ends rt call.write file (IsPublication rt call.now (publisher fs) file) r
      → IsGoverned rt call PublicationFits file (r.0, publish_outcome r.1)
  unfolding publish_outcome
  publish_outcome-IsGoverned fs (f, done c) ad ok (inl (same, never)) = absurd (never c refl)
  publish_outcome-IsGoverned fs (f, invalid m) ad ok (inl (same, never)) = inl (same, refl)
  publish_outcome-IsGoverned fs (f, broken) ad ok (inl (same, never)) = inl (same, refl)
  publish_outcome-IsGoverned fs (f, a) ad ok (inr (inl (n, d, w, p, e, cut))) =
      inr (obj fs, d, ad, (fs, is_approved-IsApproval fs ok, p), inr (n, w, cut, rw e refl))
  publish_outcome-IsGoverned fs (f, a) ad ok (inr (inr (d, p, e, written))) =
      inr
        (obj fs, d, ad, (fs, is_approved-IsApproval fs ok, p), inl (written, ap publish_outcome e))

  publish_approved-IsGoverned :
      (fs : Fields)
      → is_empty (trim call.now) ≡ false
      → IsAdmitted rt call (obj fs)
      → IsGoverned rt call PublicationFits file (publish_approved rt call fs file)
  unfolding publish_approved
  publish_approved-IsGoverned fs k ad = elim (Bool-cases (is_approved fs)) [
    | inr e ↦ rw e (inl (refl, refl))
    | inl e ↦ rw e (
        publish_outcome-IsGoverned fs
          (publish_platform_config rt call.now call.write (publisher fs) file) ad e
          (publish_platform_config-Ends rt call.now (publisher fs) call.write file k
            (publisher-IsClean fs)))
  ]

  end_unapproved : is_approved end ≡ false
  unfolding is_approved trimmed get ◌===◌
  end_unapproved = refl

  publish_parsed-IsGoverned :
      (p : Payload)
      → is_empty (trim call.now) ≡ false
      → RefusesWithError call
      → guarded rt call call.refused_by_auth ≡ p
      → IsGoverned rt call PublicationFits file (publish_parsed rt call p file)
  unfolding publish_parsed publish_approved
  publish_parsed-IsGoverned (rejected r) k h e =
      inl (refl, error_not_ok r (guarded-status rt call _ r h refl e))
  publish_parsed-IsGoverned (payload null) k h e = inl (refl, refl)
  publish_parsed-IsGoverned (payload (obj fs)) k h e =
      publish_approved-IsGoverned fs k (guarded-IsAdmitted rt call _ (obj fs) refl e)
  publish_parsed-IsGoverned (payload (bool b)) k h e = rw end_unapproved (inl (refl, refl))
  publish_parsed-IsGoverned (payload (num n)) k h e = rw end_unapproved (inl (refl, refl))
  publish_parsed-IsGoverned (payload (str s)) k h e = rw end_unapproved (inl (refl, refl))
  publish_parsed-IsGoverned (payload (arr vs)) k h e = rw end_unapproved (inl (refl, refl))

-- A publication either leaves the file as it is and is not answered 200, or passed the
-- administrator's guard, the rate limit and the CSRF check and carried the approval phrase and a
-- note of twenty characters or more. Then the configuration that was there before, with the time and
-- the name of the publication set and every other field as it was, is what the file holds and what
-- it is answered with; or the write failed once the file was open, and the file holds a beginning of
-- that text and the answer is not 200. The administrator's guard refuses with an error, and the time
-- is not blank.
pub post_platform-IsGoverned :
    (rt : Runtime) (call : AdminCall) (file : File)
    → is_empty (trim call.now) ≡ false
    → RefusesWithError call
    → IsGoverned rt call (PublicationFits rt call file) file (post_platform rt call file)
unfolding post_platform
post_platform-IsGoverned rt call file k h = publish_parsed-IsGoverned rt call file _ k h refl
