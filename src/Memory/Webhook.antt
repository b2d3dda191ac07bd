-- ===== src/Memory/Webhook.antt =====
-- app/api/webhooks/hostinger-mail: the handler that takes the metadata of a mail event.
pub mod Envelope
use frankai_online.Common.{
  ◌*◌, Str, js, Bool, true, false, not, if◌then◌else◌, ◌===◌, Runtime, File, Option, none, some,
  Json, bool, str, obj, Fields, end, field, get, Reply, error_reply, Outcome, replied, thrown,
}
use frankai_online.Memory.{StoredMemoryEvent}
use frankai_online.Memory.Ingest.{MemoryIngestPayload}
use frankai_online.Memory.Queue.{append_memory_event}
use frankai_online.Memory.Access.{
  Request, require_bearer_token, get_max_payload_bytes, Payload, payload, rejected,
  read_json_payload,
}
use frankai_online.Memory.Endpoints.{Site, World}

abbrev pub supported_event : Str
supported_event = js "message.received"

text_of : Option Json → Option Str
text_of (some (str s)) = some s
text_of _ = none

or_else : Option Str → Option Str → Option Str
or_else (some s) _ = some s
or_else none o = o

or_default : Option Str → Str → Str
or_default (some s) _ = s
or_default none d = d

-- `payload.event`, else `payload.event_type`, else `payload.type`, where these are texts
unfoldable pub supplied_event : Fields → Option Str
unfolding text_of or_else
supplied_event fs =
    or_else (text_of (get fs (js "event")))
      (or_else (text_of (get fs (js "event_type"))) (text_of (get fs (js "type"))))

unfoldable pub event_id : Fields → Str
unfolding text_of or_else or_default
event_id fs =
    or_default (or_else (text_of (get fs (js "id"))) (text_of (get fs (js "message_id"))))
      (js "not-provided")

-- The bounded metadata that is kept of a mail event.
unfoldable pub mail_event : Fields → MemoryIngestPayload
unfolding text_of or_default
mail_event fs = record {
  source = js "hostinger-mail";
  kind = js "message.received";
  text = none;
  occurred_at = text_of (get fs (js "timestamp"));
  external_id = some (event_id fs);
  privacy = some (js "private");
  metadata = some (field (js "event") (str (or_default (supplied_event fs) supported_event)) end);
  external_id_first = true;
}

received : Reply
received = record { status = 200; body = obj (field (js "received") (bool true) end) }

mail_appended : Site → Option (StoredMemoryEvent × File) → Site × Outcome
mail_appended site none = (site, thrown)
mail_appended site (some (event, queue)) = (record site { queue = queue }, replied received)

forwards : Option Str → Bool
forwards none = false
forwards (some s) = s === js "true"

mail_object : Runtime → World → Site → Fields → Site × Outcome
mail_object rt w site fs =
    if not (or_default (supplied_event fs) supported_event === supported_event)
    then (site, replied (error_reply 422 (js "Unsupported webhook event")))
    else if forwards w.ingest_from_webhook
    then mail_appended site
        (append_memory_event rt w.queue_appendable w.id w.received_at (mail_event fs) site.queue)
    else (site, replied received)

mail_parsed : Runtime → World → Site → Payload → Site × Outcome
mail_parsed rt w site (rejected reply) = (site, replied reply)
mail_parsed rt w site (payload (obj fs)) = mail_object rt w site fs
mail_parsed rt w site (payload _) = (site, replied (error_reply 400 (js "Invalid payload")))

mail_checked : Runtime → World → Request → Site → Option Reply → Site × Outcome
mail_checked rt w request site (some reply) = (site, replied reply)
mail_checked rt w request site none =
    mail_parsed rt w site
      (read_json_payload rt request (get_max_payload_bytes rt w.webhook_max_bytes (128 * 1024)))

-- `POST` of app/api/webhooks/hostinger-mail/route.ts
unfoldable pub post_mail : Runtime → World → Request → Site → Site × Outcome
unfolding or_default received mail_appended forwards mail_object mail_parsed mail_checked
post_mail rt w request site =
    mail_checked rt w request site (require_bearer_token rt request w.webhook_secret)
