-- ===== src/Tests/Contact.antt =====
-- The enquiry form's theorems at concrete requests.
use frankai_online.Common.{
  ◌≤◌, js, [], ◌∷◌, true, refl, inl, arith, none, some, Json, bool, str, obj, end, field,
}
use frankai_online.Contact.{ContactCall, Enquiries, bucket_of, max_requests_per_window}
use frankai_online.Contact.Limit.{run, allowed_for, rate_limit-window}

rate_limit-window_example :
    allowed_for (js "a") (run ((100, js "a") ∷ (200, js "b") ∷ (300, js "a") ∷ []) [])
    ≤ max_requests_per_window
unfolding bucket_of
rate_limit-window_example =
    rate_limit-window (js "a") 100 ((200, js "b") ∷ (300, js "a") ∷ []) [] (inl refl)
      (omega arith, (omega arith, tt))

abbrev enquiry : Json
enquiry = obj (
    field (js "name") (str (js "Ann")) (
      field (js "email") (str (js "ann@example.org")) (
        field (js "interestType") (str (js "other"))
          (field (js "message") (str (js "hello")) (field (js "consent") (bool true) end)))))

abbrev call : ContactCall
call = record {
  forwarded = some (js "10.0.0.1, 10.0.0.2");
  real_ip = none;
  user_agent = some (js "browser");
  body = js "{}";
  now = 100;
  now_text = js "2026-01-01";
  code = js "1A2B3C4D";
  writable = true;
}

abbrev site : Enquiries
site = record { buckets = []; log = [] }
