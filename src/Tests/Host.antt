-- ===== src/Tests/Host.antt =====
-- A runtime for the tests: it knows the ASCII letters, orders texts by length, and its JSON texts
-- all stand for one given value.
use frankai_online.Common.{
  ◌+◌, Str, js, map, ◌&&◌, ltb, leb, length, if◌then◌else◌, Runtime, some, none, Json, is_empty,
  not,
}

abbrev pub ascii_lower : Str → Str
ascii_lower s = map (λ c. if leb 65 c && leb c 90 then c + 32 else c) s

abbrev pub host : Json → Runtime
host v = record {
  lower = ascii_lower;
  nfkd = λ s. s;
  collates_before = λ a b. ltb (length a) (length b);
  is_date = λ s. not (is_empty s);
  to_text = λ v. js "value";
  parse = λ s. some v;
  stringify = λ v. js "{}";
  to_number = λ s. none;
  utf8 = λ s. s;
}
