-- ===== src/Contact/Effects.antt =====
-- app/api/contact: the requests that reach the log, and what is written of them.
use frankai_online.Common.{
  ◌≤◌, Str, ◌++◌, true, false, ◌≡◌, ◌≢◌, ◌⊎◌, length, is_empty, str_mem, Runtime,
}
use frankai_online.Contact.{
  ContactCall, Enquiries, ContactReply, received, Enquiry, is_email, interest_types, reference_of,
  log_line,
}

-- What every enquiry in the log meets.
pub record IsEnquiry (e : Enquiry) : Type 0 where
  named : is_empty e.name ≡ false
  name_le : length e.name ≤ 120
  email_form : is_email e.email ≡ true
  organisation_le : length e.organisation ≤ 160
  interest_known : str_mem e.interest_type interest_types ≡ true
  described : is_empty e.message ≡ false
  message_le : length e.message ≤ 1600
  consented : e.consent ≡ true

-- Nothing is logged and no reference is given, or an enquiry is logged under its reference.
abbrev pub IsLogged : Runtime → ContactCall → Str → Str → Enquiries × ContactReply → Type 0
IsLogged rt call ip_hash log r =
    ((r.0.log ≡ log) × (r.1 ≢ received (reference_of call)))
    ⊎ ((e : Enquiry) × IsEnquiry e
        × (r.0.log ≡ log ++ log_line rt call ip_hash e)
        × (r.1 ≡ received (reference_of call)))
