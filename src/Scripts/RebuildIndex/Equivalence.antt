-- ===== src/Scripts/RebuildIndex/Equivalence.antt =====
-- scripts/rebuild-memory-index.mjs and lib/memory/index.ts: the script and the site's own rebuild
-- of the index.
use frankai_online.Common.{
  ℕ, ◌+◌, Str, List, [], ◌∷◌, ◌++◌, map, Bool, true, false, ◌≡◌, refl, sym, ap, ◌∙◌, arith, All,
  if◌then◌else◌, length, Runtime, File, missing, unreadable, content, Option, none, some, Fields,
  split_on, subst, length-map, append_assoc,
}
use frankai_online.Memory.{StoredMemoryEvent}
use frankai_online.Memory.Queue.{
  Line, blank, skipped, event, read_line, add_line, read_lines, read_memory_events_from_queue,
}
use frankai_online.Memory.Index.{index_entry, build_memory_index}
use frankai_online.Memory.Endpoints.{Site, World, rebuilt, rebuild_memory_index}
use frankai_online.Scripts.RebuildIndex.{entry_of}
use frankai_online.Scripts.RebuildIndex.Queue.{
  Events, add_line_event, read_each, read_memory_events, Report, write_index, rebuild_main,
}
use frankai_online.Scripts.RebuildIndex.Texts.{is_plain_metadata}
use frankai_online.Scripts.RebuildIndex.Reading.{
  entry_of_lem, passed_over, counted, read, line-cases,
}

map-append {ℓ κ} :
    {A : Type ℓ} {B : Type κ} (f : A → B) (xs ys : List A) → map f (xs ++ ys) ≡ map f xs ++ map f ys
map-append f [] ys = refl
map-append f (x ∷ xs) ys = ap (◌∷◌ (f x)) (map-append f xs ys)

append-nil {ℓ} : {A : Type ℓ} (xs : List A) → xs ++ [] ≡ xs
append-nil [] = refl
append-nil (x ∷ xs) = ap (◌∷◌ x) (append-nil xs)

abbrev IsPlain : StoredMemoryEvent → Type 0
IsPlain e = is_plain_metadata e.metadata ≡ true

-- The loop over the lines, from a state, against the events of the lines.
module _ (rt : Runtime) where
  abbrev Agree : Events → Events → List StoredMemoryEvent × ℕ → Type 0
  Agree (fs, n) (gs, m) (es, k) =
      (map (entry_of rt) gs ≡ map (entry_of rt) fs ++ map (index_entry rt) es) × (m ≡ n + k)

  pushed-Agree :
      (fs : List Fields) (n : ℕ) (f : Fields) (e : StoredMemoryEvent) (after : Events)
      (rest : List StoredMemoryEvent × ℕ)
      → entry_of rt f ≡ index_entry rt e
      → Agree (fs ++ f ∷ [], n) after rest
      → Agree (fs, n) after (add_line (event e) rest)
  unfolding add_line
  pushed-Agree fs n f e (gs, m) (es, k) same (a, b) = (
    a
        ∙ ap (λ xs. xs ++ map (index_entry rt) es) (map-append (entry_of rt) fs (f ∷ []))
        ∙ append_assoc (map (entry_of rt) fs) (entry_of rt f ∷ []) (map (index_entry rt) es)
        ∙ ap (λ x. map (entry_of rt) fs ++ x ∷ map (index_entry rt) es) same,
    b,
  )

  counted-Agree :
      (fs : List Fields) (n : ℕ) (after : Events) (rest : List StoredMemoryEvent × ℕ)
      → Agree (fs, n + 1) after rest
      → Agree (fs, n) after (add_line skipped rest)
  unfolding add_line
  counted-Agree fs n (gs, m) (es, k) (a, b) = (a, omega arith)

  passed-Agree :
      (state after : Events) (rest : List StoredMemoryEvent × ℕ)
      → Agree state after rest
      → Agree state after (add_line blank rest)
  unfolding add_line
  passed-Agree (fs, n) (gs, m) (es, k) h = h

  IsPlain-rest :
      (l : Line) (rest : List StoredMemoryEvent × ℕ)
      → All IsPlain (add_line l rest).0
      → All IsPlain rest.0
  unfolding add_line
  IsPlain-rest blank (es, k) h = h
  IsPlain-rest skipped (es, k) h = h
  IsPlain-rest (event e) (es, k) h = h.1

  IsPlain-first :
      (e : StoredMemoryEvent) (rest : List StoredMemoryEvent × ℕ)
      → All IsPlain (add_line (event e) rest).0
      → IsPlain e
  unfolding add_line
  IsPlain-first e (es, k) h = h.0

  read_each-Agree :
      (lines : List Str) (fs : List Fields) (n : ℕ)
      → All IsPlain (read_lines rt lines).0
      → Agree (fs, n) (read_each rt lines (fs, n)) (read_lines rt lines)
  unfolding read_each read_lines
  read_each-Agree [] fs n h = (sym (append-nil (map (entry_of rt) fs)), omega arith)
  read_each-Agree (line ∷ lines) fs n h = elim (line-cases rt line fs n) [
    | passed_over a b ↦
        let rest =
          read_each-Agree lines fs n (IsPlain-rest (read_line rt line) (read_lines rt lines) h) in
        subst
          (λ (l : Line).
            Agree (fs, n) (read_each rt lines (add_line_event rt line (fs, n)))
              (add_line l (read_lines rt lines)))
          (sym b)
          (subst
            (λ (s : Events).
              Agree (fs, n) (read_each rt lines s) (add_line blank (read_lines rt lines)))
            (sym a) (passed-Agree (fs, n) (read_each rt lines (fs, n)) (read_lines rt lines) rest))
    | counted a b ↦
        let rest =
          read_each-Agree lines fs (n + 1)
            (IsPlain-rest (read_line rt line) (read_lines rt lines) h) in
        subst
          (λ (l : Line).
            Agree (fs, n) (read_each rt lines (add_line_event rt line (fs, n)))
              (add_line l (read_lines rt lines)))
          (sym b)
          (subst
            (λ (s : Events).
              Agree (fs, n) (read_each rt lines s) (add_line skipped (read_lines rt lines)))
            (sym a)
            (counted-Agree fs n (read_each rt lines (fs, n + 1)) (read_lines rt lines) rest))
    | read f e a b r ↦
        let plain =
          IsPlain-first e (read_lines rt lines)
            (subst (λ (l : Line). All IsPlain (add_line l (read_lines rt lines)).0) b h) in
        let rest =
          read_each-Agree lines (fs ++ f ∷ []) n
            (IsPlain-rest (read_line rt line) (read_lines rt lines) h) in
        subst
          (λ (l : Line).
            Agree (fs, n) (read_each rt lines (add_line_event rt line (fs, n)))
              (add_line l (read_lines rt lines)))
          (sym b)
          (subst
            (λ (s : Events).
              Agree (fs, n) (read_each rt lines s) (add_line (event e) (read_lines rt lines)))
            (sym a)
            (pushed-Agree fs n f e (read_each rt lines (fs ++ f ∷ [], n)) (read_lines rt lines)
              (entry_of_lem rt f e r plain) rest))
  ]

same_length :
    (rt : Runtime) (fs : List Fields) (es : List StoredMemoryEvent)
    → map (entry_of rt) fs ≡ map (index_entry rt) es
    → length fs ≡ length es
same_length rt fs es e =
    let lengths = ap length e in
    let left = length-map (entry_of rt) fs in
    let right = length-map (index_entry rt) es in sym left ∙ lengths ∙ right

-- The site after the script, where it exits without an error.
abbrev pub site_after : Option (Site × Report) → Option Site
site_after none = none
site_after (some (site, report)) = some site

if-site_after :
    (b : Bool) (site : Site) (report : Report)
    → site_after (if b then some (site, report) else none) ≡ (if b then some site else none)
if-site_after true site report = refl
if-site_after false site report = refl

write_index-rebuilt :
    (rt : Runtime) (w : World) (index_file : Str) (site : Site) (fs : List Fields) (n : ℕ)
    (es : List StoredMemoryEvent) (k : ℕ)
    → map (entry_of rt) fs ≡ map (index_entry rt) es
    → n ≡ k
    → site_after (write_index rt w index_file site (some (fs, n)))
      ≡ rebuilt rt w site (some (es, k))
unfolding write_index rebuilt build_memory_index
write_index-rebuilt rt w index_file site fs n es k e d =
    let lengths = same_length rt fs es e in
    if-site_after w.index_writable _ _ ∙ (rw e (rw d (rw lengths refl)))

-- The events of the queue have metadata that is absent, null or an object.
abbrev pub IsPlainQueue : Option (List StoredMemoryEvent × ℕ) → Type 0
IsPlainQueue none = Unit
IsPlainQueue (some (es, k)) = All IsPlain es

reading-site_after :
    (rt : Runtime) (w : World) (index_file : Str) (site : Site) (queue : File)
    → IsPlainQueue (read_memory_events_from_queue rt queue)
    → site_after (write_index rt w index_file site (read_memory_events rt queue))
      ≡ rebuilt rt w site (read_memory_events_from_queue rt queue)
unfolding read_memory_events read_memory_events_from_queue write_index rebuilt
reading-site_after rt w index_file site missing h =
    write_index-rebuilt rt w index_file site [] 0 [] 0 refl refl
reading-site_after rt w index_file site unreadable h = refl
reading-site_after rt w index_file site (content raw) h =
    let agree = read_each-Agree rt (split_on 10 raw) [] 0 h in
    write_index-rebuilt rt w index_file site (read_each rt (split_on 10 raw) ([], 0)).0
      (read_each rt (split_on 10 raw) ([], 0)).1 (read_lines rt (split_on 10 raw)).0
      (read_lines rt (split_on 10 raw)).1 agree.0 (omega (arith, agree.1))

-- Where the metadata of every event of the queue is absent, null or an object, the script leaves
-- the site as the library's own rebuild does: it writes the same index, or fails with it. The
-- skipped lines count alike, and an absent queue file counts as an empty one.
pub rebuild_main-rebuild_memory_index :
    (rt : Runtime) (w : World) (index_file : Str) (site : Site)
    → IsPlainQueue (read_memory_events_from_queue rt site.queue)
    → site_after (rebuild_main rt w index_file site) ≡ rebuild_memory_index rt w site
unfolding rebuild_main rebuild_memory_index
rebuild_main-rebuild_memory_index rt w index_file site h =
    reading-site_after rt w index_file site site.queue h
