-- ===== src/Common/Host.antt =====
-- What the programs take from the JavaScript runtime beyond plain code: Unicode case mapping and
-- normalisation, collation, date parsing, printing of numbers, and the JSON text format.
use Prim.Native.Nat.{ℕ}
use mathlib.Core.List.{List}
use mathlib.Core.Bool.{Bool}
use mathlib.Core.Option.{Option}
use frankai_online.Common.Text.{Str}
use frankai_online.Common.Values.{Json, Number}

pub record Runtime : Type 0 where
  -- `s.toLowerCase()`
  pub lower : Str → Str
  -- `s.normalize('NFKD')`
  pub nfkd : Str → Str
  -- `a.localeCompare(b) < 0`
  pub collates_before : Str → Str → Bool
  -- `Number.isFinite(Date.parse(s))`
  pub is_date : Str → Bool
  -- `String(v)`
  pub to_text : Json → Str
  -- `JSON.parse(s)`; `none` is the exception
  pub parse : Str → Option Json
  -- `JSON.stringify(v)`
  pub stringify : Json → Str
  -- `Number(s)`; `none` where that is not finite
  pub to_number : Str → Option Number
  -- the bytes of `Buffer.from(s)`
  pub utf8 : Str → List ℕ

-- How `writeFile` ends: with the whole text written, with an exception before the file was opened,
-- or with one after the file was emptied and the given number of units written.
pub data Write : Type 0 where
  complete not_opened : Write
  cut_after : ℕ → Write

-- A file: absent (`ENOENT`), not to be opened for another reason, or its text.
pub data File : Type 0 where
  missing unreadable : File
  content : Str → File
