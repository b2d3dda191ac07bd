-- ===== src/Scripts/RebuildIndex/Reading.antt =====
-- scripts/rebuild-memory-index.mjs and lib/memory/index.ts: the two readings of one line of the
-- queue, and the entries of one event.
use frankai_online.Common.{
  ℕ, ◌+◌, Str, js, List, [], ◌∷◌, ◌++◌, true, false, not, ◌≡◌, refl, ap, ◌∙◌, Bool-cases, inl, inr,
  ◌⊎◌, is_empty, trim, Runtime, Option, none, some, Json, null, bool, num, str, arr, obj, Fields,
  get,
}
use frankai_online.Memory.{StoredMemoryEvent}
use frankai_online.Memory.Words.{truncate}
use frankai_online.Memory.Queue.{
  filled, stored_memory_event, blank, skipped, event, classify, parsed_line, read_line,
}
use frankai_online.Memory.Metadata.{searchable_text, joined}
use frankai_online.Memory.Index.{index_entry}
use frankai_online.Scripts.RebuildIndex.{
  has_text, is_stored_memory_event, text_at, build_searchable_text, entry_of, shortened,
  object_text, short_text, safe_metadata, terms_of,
}
use frankai_online.Scripts.RebuildIndex.Queue.{push_event, add_line_event}
use frankai_online.Scripts.RebuildIndex.Texts.{
  is_plain_metadata, terms_of_lem, safe_metadata_lem, object_text_lem, text_at_lem, short_text_lem,
}

-- The two sides of the check of a field.
has_text-cases :
    (o : Option Json)
    → ((has_text o ≡ false) × (filled o ≡ none))
      ⊎ ((s : Str) × ((has_text o ≡ true) × ((filled o ≡ some s) × (text_at o ≡ s))))
unfolding has_text filled text_at
has_text-cases none = inl (refl, refl)
has_text-cases (some null) = inl (refl, refl)
has_text-cases (some (bool b)) = inl (refl, refl)
has_text-cases (some (num n)) = inl (refl, refl)
has_text-cases (some (arr vs)) = inl (refl, refl)
has_text-cases (some (obj fs)) = inl (refl, refl)
has_text-cases (some (str s)) = elim (Bool-cases (is_empty (trim s))) [
  | inl e ↦ inl (ap not e, (rw e refl))
  | inr e ↦ inr (s, (ap not e, ((rw e refl), refl)))
]

-- The object of a line and the event that the site reads from it.
pub record Reads (rt : Runtime) (fs : Fields) (e : StoredMemoryEvent) : Type 0 where
  pub id : text_at (get fs (js "id")) ≡ e.id
  pub received_at : text_at (get fs (js "receivedAt")) ≡ e.received_at
  pub source : text_at (get fs (js "source")) ≡ e.source
  pub kind : text_at (get fs (js "kind")) ≡ e.kind
  pub text : get fs (js "text") ≡ e.text
  pub occurred_at : get fs (js "occurredAt") ≡ e.occurred_at
  pub external_id : get fs (js "externalId") ≡ e.external_id
  pub privacy : get fs (js "privacy") ≡ e.privacy
  pub metadata : get fs (js "metadata") ≡ e.metadata

-- A line's object passes the script's check just when the site reads an event from it.
read-cases :
    (rt : Runtime) (fs : Fields)
    → ((is_stored_memory_event (obj fs) ≡ false) × (stored_memory_event (obj fs) ≡ none))
      ⊎ ((e : StoredMemoryEvent) × ((is_stored_memory_event (obj fs) ≡ true)
            × ((stored_memory_event (obj fs) ≡ some e) × Reads rt fs e)))
unfolding is_stored_memory_event stored_memory_event
read-cases rt fs = elim (has_text-cases (get fs (js "id"))) [
  | inl (h, f) ↦ (rw h (rw f (inl (refl, refl))))
  | inr (id, (h1, (f1, t1))) ↦ elim (has_text-cases (get fs (js "receivedAt"))) [
    | inl (h, f) ↦ (rw h1 (rw h (rw f1 (rw f (inl (refl, refl))))))
    | inr (received_at, (h2, (f2, t2))) ↦ elim (has_text-cases (get fs (js "source"))) [
      | inl (h, f) ↦ (rw h1 (rw h2 (rw h (rw f1 (rw f2 (rw f (inl (refl, refl))))))))
      | inr (source, (h3, (f3, t3))) ↦ elim (has_text-cases (get fs (js "kind"))) [
        | inl (h, f) ↦
            (rw h1 (rw h2 (rw h3 (rw h (rw f1 (rw f2 (rw f3 (rw f (inl (refl, refl))))))))))
        | inr (kind, (h4, (f4, t4))) ↦
            (rw h1 (
              rw h2 (
                rw h3 (
                  rw h4 (
                    rw f1 (
                      rw f2 (
                        rw f3 (
                          rw f4 (
                            inr (
                              _,
                              (
                                refl,
                                (
                                  refl,
                                  record {
                                    id = t1;
                                    received_at = t2;
                                    source = t3;
                                    kind = t4;
                                    text = refl;
                                    occurred_at = refl;
                                    external_id = refl;
                                    privacy = refl;
                                    metadata = refl;
                                  },
                                ),
                              ),
                            ))))))))))
      ]
    ]
  ]
]

build_searchable_text_lem :
    (rt : Runtime) (fs : Fields) (e : StoredMemoryEvent)
    → Reads rt fs e
    → is_plain_metadata e.metadata ≡ true
    → build_searchable_text rt fs ≡ searchable_text rt e
unfolding build_searchable_text searchable_text shortened truncate
build_searchable_text_lem rt fs e r plain =
    let source = r.source in
    let kind = r.kind in
    let external_id = ap (joined rt) r.external_id in
    let occurred_at = ap (joined rt) r.occurred_at in
    let received_at = r.received_at in
    let text = ap text_at r.text ∙ text_at_lem e.text in
    let metadata = ap (object_text rt) r.metadata ∙ object_text_lem rt e.metadata plain in
    (rw source
      (rw kind (rw external_id (rw occurred_at (rw received_at (rw text (rw metadata refl)))))))

pub entry_of_lem :
    (rt : Runtime) (fs : Fields) (e : StoredMemoryEvent)
    → Reads rt fs e
    → is_plain_metadata e.metadata ≡ true
    → entry_of rt fs ≡ index_entry rt e
unfolding entry_of index_entry
entry_of_lem rt fs e r plain =
    let id = r.id in
    let received_at = r.received_at in
    let source = r.source in
    let kind = r.kind in
    let occurred_at = r.occurred_at in
    let external_id = r.external_id in
    let privacy = r.privacy in
    let text = ap short_text r.text ∙ short_text_lem e.text in
    let metadata = ap (safe_metadata rt) r.metadata ∙ safe_metadata_lem rt e.metadata plain in
    let searchable = build_searchable_text_lem rt fs e r plain in
    let terms = ap (terms_of rt) searchable ∙ terms_of_lem rt (searchable_text rt e) in
    (rw id (
      rw received_at (
        rw source (
          rw kind (
            rw occurred_at (
              rw external_id
                (rw privacy (rw text (rw metadata (rw terms (rw searchable refl)))))))))))

-- What a line does to both readings.
pub data LineCase (rt : Runtime) (line : Str) (fs : List Fields) (n : ℕ) : Type 0 where
  passed_over :
      add_line_event rt line (fs, n) ≡ (fs, n) → read_line rt line ≡ blank → LineCase rt line fs n
  counted :
      add_line_event rt line (fs, n) ≡ (fs, n + 1)
      → read_line rt line ≡ skipped
      → LineCase rt line fs n
  read :
      (f : Fields) (e : StoredMemoryEvent)
      → add_line_event rt line (fs, n) ≡ (fs ++ f ∷ [], n)
      → read_line rt line ≡ event e
      → Reads rt f e
      → LineCase rt line fs n

-- What the parser's result does, on a line that is not blank.
parsed-cases :
    (rt : Runtime) (line : Str) (fs : List Fields) (n : ℕ) (v : Option Json)
    → add_line_event rt line (fs, n) ≡ push_event v (fs, n)
    → read_line rt line ≡ parsed_line v
    → LineCase rt line fs n
unfolding push_event parsed_line classify stored_memory_event
parsed-cases rt line fs n none a b = counted a b
parsed-cases rt line fs n (some null) a b = counted a b
parsed-cases rt line fs n (some (bool t)) a b = counted a b
parsed-cases rt line fs n (some (num m)) a b = counted a b
parsed-cases rt line fs n (some (str s)) a b = counted a b
parsed-cases rt line fs n (some (arr vs)) a b = counted a b
parsed-cases rt line fs n (some (obj f)) a b = elim (read-cases rt f) [
  | inl (h, g) ↦ counted (a ∙ (rw h refl)) (b ∙ (rw g refl))
  | inr (e, (h, (g, r))) ↦ read f e (a ∙ (rw h refl)) (b ∙ (rw g refl)) r
]

blank_line-add :
    (rt : Runtime) (line : Str) (fs : List Fields) (n : ℕ)
    → is_empty (trim line) ≡ true
    → add_line_event rt line (fs, n) ≡ (fs, n)
unfolding add_line_event
blank_line-add rt line fs n e = rw e refl

blank_line-read :
    (rt : Runtime) (line : Str) → is_empty (trim line) ≡ true → read_line rt line ≡ blank
unfolding read_line
blank_line-read rt line e = rw e refl

full_line-add :
    (rt : Runtime) (line : Str) (fs : List Fields) (n : ℕ)
    → is_empty (trim line) ≡ false
    → add_line_event rt line (fs, n) ≡ push_event (rt.parse line) (fs, n)
unfolding add_line_event
full_line-add rt line fs n e = rw e refl

full_line-read :
    (rt : Runtime) (line : Str)
    → is_empty (trim line) ≡ false
    → read_line rt line ≡ parsed_line (rt.parse line)
unfolding read_line
full_line-read rt line e = rw e refl

pub line-cases : (rt : Runtime) (line : Str) (fs : List Fields) (n : ℕ) → LineCase rt line fs n
line-cases rt line fs n = elim (Bool-cases (is_empty (trim line))) [
  | inl e ↦ passed_over (blank_line-add rt line fs n e) (blank_line-read rt line e)
  | inr e ↦
      parsed-cases rt line fs n (rt.parse line) (full_line-add rt line fs n e)
        (full_line-read rt line e)
]
