-- ===== src/Memory/Queue/Append.antt =====
-- lib/memory/store.ts and index.ts: reading the queue file after an append.
use frankai_online.Common.{
  ℕ, ◌+◌, Str, js, List, [], ◌∷◌, ◌++◌, false, ◌≡◌, refl, sym, ap, ◌∙◌, inl, inr, ◌==◌, is_empty,
  trim, trim_start, trim_end, Runtime, File, missing, unreadable, content, All, Bool-cases, arith,
  some, Json, split_on, Bool, true,
}
use mathlib.Core.List.{append_assoc, append-nil}
use frankai_online.Memory.{StoredMemoryEvent}
use frankai_online.Memory.Ingest.{MemoryIngestPayload, stored_event}
use frankai_online.Memory.Ingest.Accepts.{IsIngest}
use frankai_online.Memory.Queue.{
  Line, blank, skipped, event, read_line, add_line, read_lines, event_json, event_line,
  append_memory_event, with_line,
}
use frankai_online.Memory.Queue.Events.{IsEvent, stored_memory_event-event_json}

-- Every line of the text is ended by a newline.
abbrev pub IsComplete : Str → Type 0
IsComplete [] = Unit
IsComplete (c ∷ []) = c ≡ 10
IsComplete (c ∷ d ∷ s) = IsComplete (d ∷ s)

abbrev pub NoNewline : Str → Type 0
NoNewline s = All (λ c. (c == 10) ≡ false) s

-- A complete text that is not empty splits into whole lines, whatever follows it.
split_on_complete :
    (c : ℕ) (s : Str)
    → IsComplete (c ∷ s)
    → (w : Str) × (ws : List Str) × ((d : Str)
        → split_on 10 ((c ∷ s) ++ d) ≡ w ∷ (ws ++ split_on 10 d))
unfolding split_on
split_on_complete c [] h = ([], [], λ d. ground arith)
split_on_complete c (x ∷ s) h =
    let (w, ws, e) = split_on_complete x s h in
    elim (Bool-cases (c == 10)) [
      | inl p ↦ ([], w ∷ ws, λ d. rw p (ap (◌∷◌ []) (e d)))
      | inr p ↦ (c ∷ w, ws, λ d. rw p (rw (e d)))
    ]

split_on-line : (s : Str) → NoNewline s → split_on 10 (s ++ js "\n") ≡ s ∷ [] ∷ []
unfolding split_on
split_on-line [] h = refl
split_on-line (c ∷ s) (p, h) = rw (split_on-line s h) (rw p)

module _ (rt : Runtime) where
  read_lines-append :
      (xs ys : List Str)
      → read_lines rt (xs ++ ys) ≡ (
        (read_lines rt xs).0 ++ (read_lines rt ys).0,
        (read_lines rt xs).1 + (read_lines rt ys).1,
      )
  unfolding read_lines
  read_lines-append [] ys = ground arith
  read_lines-append (x ∷ xs) ys = rw (read_lines-append xs ys) (added (read_line rt x))
    where
      added :
          (l : Line)
          → add_line l (
            (read_lines rt xs).0 ++ (read_lines rt ys).0,
            (read_lines rt xs).1 + (read_lines rt ys).1,
          )
            ≡ (
              (add_line l (read_lines rt xs)).0 ++ (read_lines rt ys).0,
              (add_line l (read_lines rt xs)).1 + (read_lines rt ys).1,
            )
      added blank = refl
      added skipped = ground arith
      added (event e) = refl

  blank_line : read_line rt [] ≡ blank
  unfolding read_line trim trim_start trim_end
  blank_line = refl

  empty_line : read_lines rt ([] ∷ []) ≡ ([], 0)
  unfolding read_lines read_line trim trim_start trim_end
  empty_line = refl

  whole_then_rest :
      (w : Str) (ws : List Str) (d : Str) (old both : List Str)
      → old ≡ (w ∷ ws) ++ [] ∷ []
      → both ≡ (w ∷ ws) ++ split_on 10 d
      → read_lines rt both ≡ (
        (read_lines rt old).0 ++ (read_lines rt (split_on 10 d)).0,
        (read_lines rt old).1 + (read_lines rt (split_on 10 d)).1,
      )
  whole_then_rest w ws d old both p q =
      rw (p, q)
        (rw (read_lines-append (w ∷ ws) (split_on 10 d), read_lines-append (w ∷ ws) ([] ∷ []))
          (rw empty_line (rw append-nil (ground arith))))

  -- What is read from a complete text and a rest is what is read from the two.
  read_complete :
      (raw d : Str)
      → IsComplete raw
      → read_lines rt (split_on 10 (raw ++ d)) ≡ (
        (read_lines rt (split_on 10 raw)).0 ++ (read_lines rt (split_on 10 d)).0,
        (read_lines rt (split_on 10 raw)).1 + (read_lines rt (split_on 10 d)).1,
      )
  unfolding split_on
  read_complete [] d h = rw empty_line (ground arith)
  read_complete (c ∷ s) d h =
      let (w, ws, e) = split_on_complete c s h in
      let whole : split_on 10 (c ∷ s) ≡ (w ∷ ws) ++ [] ∷ [] =
        ap (split_on 10) (sym (append-nil (c ∷ s))) ∙ e [] in
      whole_then_rest w ws d (split_on 10 (c ∷ s)) (split_on 10 ((c ∷ s) ++ d)) whole (e d)

  read_line_lem :
      (b : Bool) (e : StoredMemoryEvent)
      → IsEvent e
      → is_empty (trim (rt.stringify (event_json b e))) ≡ false
      → rt.parse (rt.stringify (event_json b e)) ≡ some (event_json b e)
      → read_line rt (rt.stringify (event_json b e)) ≡ event e
  unfolding read_line
  read_line_lem b e h p q = rw (p, q) (rw (stored_memory_event-event_json b e h))

one_event :
    (rt : Runtime) (line : Str) (e : StoredMemoryEvent)
    → read_line rt line ≡ event e
    → read_lines rt (line ∷ [] ∷ []) ≡ (e ∷ [], 0)
unfolding read_lines
one_event rt line e h = rw h (rw (blank_line rt))

IsComplete-newline : (s : Str) → IsComplete (s ++ js "\n")
IsComplete-newline [] = refl
IsComplete-newline (c ∷ []) = refl
IsComplete-newline (c ∷ d ∷ s) = IsComplete-newline (d ∷ s)

-- The four strings of a stored event have content if the payload was accepted.
stored_event-IsEvent :
    (rt : Runtime) (id now : Str) (payload : MemoryIngestPayload)
    → IsIngest rt payload
    → is_empty (trim id) ≡ false
    → is_empty (trim now) ≡ false
    → IsEvent (stored_event id now payload)
unfolding stored_event
stored_event-IsEvent rt id now payload h p q = record {
  id = p;
  received_at = q;
  source = rw h.source.trimmed h.source.content;
  kind = rw h.kind.trimmed h.kind.content;
}

-- What the runtime documents of JSON text, at one value: it is one line, it is not blank, and
-- parsing it gives the value.
pub record IsJsonLine (rt : Runtime) (v : Json) : Type 0 where
  pub one_line : NoNewline (rt.stringify v)
  pub not_blank : is_empty (trim (rt.stringify v)) ≡ false
  pub parsed : rt.parse (rt.stringify v) ≡ some v

-- What is read from the queue file `raw'` that an append leaves.
pub record Appended (rt : Runtime) (raw raw' : Str) (e : StoredMemoryEvent) : Type 0 where
  pub complete : IsComplete raw'
  pub events : (read_lines rt (split_on 10 raw')).0 ≡ (read_lines rt (split_on 10 raw)).0 ++ e ∷ []
  pub skipped_count : (read_lines rt (split_on 10 raw')).1 ≡ (read_lines rt (split_on 10 raw)).1

Appended-event_line :
    (rt : Runtime) (raw : Str) (b : Bool) (e : StoredMemoryEvent)
    → IsComplete raw
    → IsEvent e
    → IsJsonLine rt (event_json b e)
    → Appended rt raw (raw ++ event_line rt b e) e
unfolding event_line
Appended-event_line rt raw b e c h j =
    let text = rt.stringify (event_json b e) in
    let one : read_lines rt (split_on 10 (text ++ js "\n")) ≡ (e ∷ [], 0) =
      rw (split_on-line text j.one_line)
        (one_event rt text e (read_line_lem rt b e h j.not_blank j.parsed)) in
    let both = read_complete rt raw (text ++ js "\n") c in
    record {
      complete = rw (← append_assoc raw text (js "\n")) (IsComplete-newline (raw ++ text));
      events = rw both (rw one);
      skipped_count = rw both (rw one (omega arith));
    }

-- Appending an accepted payload to a queue file of whole lines, which can be written, succeeds; the file still consists of
-- whole lines, and reading it gives the events of before and then the new one, with as many lines
-- skipped as before. The id and the time are not blank, and the runtime's JSON text of the event
-- reads back from one line.
pub append_memory_event-read :
    (rt : Runtime) (id now raw : Str) (payload : MemoryIngestPayload)
    → IsIngest rt payload
    → is_empty (trim id) ≡ false
    → is_empty (trim now) ≡ false
    → IsComplete raw
    → IsJsonLine rt (event_json payload.external_id_first (stored_event id now payload))
    → (raw' : Str) × (append_memory_event rt true id now payload (content raw)
        ≡ some (stored_event id now payload, content raw'))
      × Appended rt raw raw' (stored_event id now payload)
unfolding append_memory_event with_line
append_memory_event-read rt id now raw payload h p q c j = (
  raw ++ event_line rt payload.external_id_first (stored_event id now payload),
  refl,
  Appended-event_line rt raw payload.external_id_first (stored_event id now payload) c
      (stored_event-IsEvent rt id now payload h p q) j,
)

-- Whatever the file, an append that succeeds returns the stored event.
pub append_memory_event-event :
    (rt : Runtime) (appendable : Bool) (id now : Str) (payload : MemoryIngestPayload)
    (file file' : File) (e : StoredMemoryEvent)
    → append_memory_event rt appendable id now payload file ≡ some (e, file')
    → append_memory_event rt appendable id now payload file
      ≡ some (stored_event id now payload, file')
unfolding append_memory_event with_line
append_memory_event-event rt true id now payload missing file' e h = ground arith
append_memory_event-event rt true id now payload unreadable file' e h = cc
append_memory_event-event rt true id now payload (content raw) file' e h = ground arith
append_memory_event-event rt false id now payload file file' e h = cc
