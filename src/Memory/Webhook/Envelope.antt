-- ===== src/Memory/Webhook/Envelope.antt =====
-- app/api/webhooks/hostinger-mail: mails with the same envelope.
use frankai_online.Common.{
  ◌*◌, Str, js, ◌≡◌, refl, sym, ap, ◌∙◌, Runtime, Option, none, some, obj, Fields, Number, get,
  Reply,
}
use frankai_online.Memory.Access.{
  Request, payload, read_json_payload, require_bearer_token, get_max_payload_bytes,
}
use frankai_online.Memory.Endpoints.{Site, World}
use frankai_online.Memory.Webhook.{
  supplied_event, event_id, mail_event, mail_object, mail_parsed, mail_checked, post_mail,
}

-- Two bodies with the same event name, identifier and time.
pub record SameEnvelope (fs gs : Fields) : Type 0 where
  pub event : get fs (js "event") ≡ get gs (js "event")
  pub event_type : get fs (js "event_type") ≡ get gs (js "event_type")
  pub type_name : get fs (js "type") ≡ get gs (js "type")
  pub id : get fs (js "id") ≡ get gs (js "id")
  pub message_id : get fs (js "message_id") ≡ get gs (js "message_id")
  pub timestamp : get fs (js "timestamp") ≡ get gs (js "timestamp")

supplied_event_same : (fs gs : Fields) → SameEnvelope fs gs → supplied_event fs ≡ supplied_event gs
unfolding supplied_event
supplied_event_same fs gs s = rw s.event (rw s.event_type (rw s.type_name refl))

event_id_same : (fs gs : Fields) → SameEnvelope fs gs → event_id fs ≡ event_id gs
unfolding event_id
event_id_same fs gs s = rw s.id (rw s.message_id refl)

mail_event_same : (fs gs : Fields) → SameEnvelope fs gs → mail_event fs ≡ mail_event gs
unfolding mail_event
mail_event_same fs gs s =
    rw s.timestamp (rw (event_id_same fs gs s) (rw (supplied_event_same fs gs s) refl))

mail_object_same :
    (rt : Runtime) (w : World) (site : Site) (fs gs : Fields)
    → SameEnvelope fs gs
    → mail_object rt w site fs ≡ mail_object rt w site gs
unfolding mail_object
mail_object_same rt w site fs gs s =
    rw (supplied_event_same fs gs s) (rw (mail_event_same fs gs s) refl)

guard_same :
    (rt : Runtime) (r s : Request) (secret : Option Str)
    → r.authorization ≡ s.authorization
    → require_bearer_token rt r secret ≡ require_bearer_token rt s secret
unfolding require_bearer_token
guard_same rt r s none a = refl
guard_same rt r s (some secret) a = rw a refl

-- The webhook's limit on a body.
abbrev pub mail_limit : Runtime → World → Number
mail_limit rt w = get_max_payload_bytes rt w.webhook_max_bytes (128 * 1024)

mail_checked_same :
    (rt : Runtime) (w : World) (site : Site) (r s : Request) (fs gs : Fields) (o : Option Reply)
    → read_json_payload rt r (mail_limit rt w) ≡ payload (obj fs)
    → read_json_payload rt s (mail_limit rt w) ≡ payload (obj gs)
    → SameEnvelope fs gs
    → mail_checked rt w r site o ≡ mail_checked rt w s site o
unfolding mail_checked mail_parsed
mail_checked_same rt w site r s fs gs (some reply) h k same = refl
mail_checked_same rt w site r s fs gs none h k same =
    ap (mail_parsed rt w site) h
    ∙ mail_object_same rt w site fs gs same
    ∙ ap (mail_parsed rt w site) (sym k)

-- Two requests with the same authorization, whose bodies are within the limit and are objects with
-- the same event name, identifier and time, have the same effect on the files and the same reply,
-- whatever else the mail says.
pub post_mail_same :
    (rt : Runtime) (w : World) (site : Site) (r s : Request) (fs gs : Fields)
    → r.authorization ≡ s.authorization
    → read_json_payload rt r (mail_limit rt w) ≡ payload (obj fs)
    → read_json_payload rt s (mail_limit rt w) ≡ payload (obj gs)
    → SameEnvelope fs gs
    → post_mail rt w r site ≡ post_mail rt w s site
unfolding post_mail
post_mail_same rt w site r s fs gs a h k same =
    mail_checked_same rt w site r s fs gs _ h k same
    ∙ ap (mail_checked rt w s site) (guard_same rt r s w.webhook_secret a)
