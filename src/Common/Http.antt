-- ===== src/Common/Http.antt =====
-- What a route handler answers: a status with a JSON body, or an exception that it lets through.
use Prim.Native.Nat.{ℕ}
use frankai_online.Common.Text.{Str, js}
use frankai_online.Common.Values.{Json, str, obj, end, field}

pub record Reply : Type 0 where
  pub status : ℕ
  pub body : Json

pub data Outcome : Type 0 where
  replied : Reply → Outcome
  thrown : Outcome

-- `NextResponse.json({ error }, { status })`
abbrev pub error_reply : ℕ → Str → Reply
error_reply status message = record {
  status = status;
  body = obj (field (js "error") (str message) end);
}
