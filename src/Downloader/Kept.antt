-- ===== src/Downloader/Kept.antt =====
-- The output file byte by byte, while a worker goes through its items.
use mathlib.Core.Path.{subst}
use mathlib.Core.List.{append-nil}
use muld.Prelude.{
  ℕ, suc, ◌+◌, ◌-◌, ◌≡◌, ◌<◌, ◌≤◌, ◌⊎◌, inl, inr, refl, sym, ap, ◌∙◌, Bool, true, false, Option,
  none, some, List, [], ◌∷◌, ◌++◌, length, get_elem?, take, drop, replicate, arith, All,
  if◌then◌else◌, Bool-cases, if_true, if_false, ltb, length-append, length-replicate,
  length-take_le, length-take-le, get_elem?-append_left, get_elem?-append_right, get_elem?-take,
  get_elem?-drop, get_elem?-lt, elem_at,
}
use muld.Prelude.Bytes.{Bytes}
use muld.Types.{Url}
use muld.Chunk.{WorkItem}
use muld.Downloader.{pwrite, with_bytes}
use muld.Downloader.Worker.{
  Attempt, ChunkEnding, chunk_finished, returned, waiting, thrown, ChunkRun, download_chunk, Turn,
  WorkerRun, ends, worker_ends, after_chunk, take_item, download_items,
}
use muld.Downloader.Segment.{segment, IsHonest, download_chunk-Writes}

front-length : (o : ℕ) (f : Bytes) → length (take o (f ++ replicate (o - length f) 0)) ≡ o
front-length o f = length-take_le o (f ++ replicate (o - length f) 0) (
    omega (
      arith,
      length-append f (replicate (o - length f) 0),
      length-replicate {A = ℕ} (o - length f) 0,
    ))

pwrite-before :
    (o j : ℕ) (b f : Bytes) → j < o → j < length f → get_elem? (pwrite o b f) j ≡ get_elem? f j
unfolding pwrite
pwrite-before o j b f h k =
    let zeros = replicate (o - length f) 0 in
    get_elem?-append_left (take o (f ++ zeros)) (b ++ drop (o + length b) f) j
      (omega (arith, front-length o f))
    ∙ get_elem?-take o (f ++ zeros) j h
    ∙ get_elem?-append_left f zeros j k

pwrite-inside :
    (o i : ℕ) (b f : Bytes) → i < length b → get_elem? (pwrite o b f) (o + i) ≡ get_elem? b i
unfolding pwrite
pwrite-inside o i b f h =
    let front = take o (f ++ replicate (o - length f) 0) in
    let rest = b ++ drop (o + length b) f in
    ap (λ n. get_elem? (front ++ rest) (n + i)) (sym (front-length o f))
    ∙ get_elem?-append_right front rest i
    ∙ get_elem?-append_left b (drop (o + length b) f) i h

pwrite-behind :
    (o i : ℕ) (b f : Bytes)
    → get_elem? (pwrite o b f) (o + length b + i) ≡ get_elem? f (o + length b + i)
unfolding pwrite
pwrite-behind o i b f =
    let front = take o (f ++ replicate (o - length f) 0) in
    let left = drop (o + length b) f in
    let place : o + length b + i ≡ length front + (length b + i) =
      omega (arith, front-length o f) in
    ap (get_elem? (front ++ (b ++ left))) place
    ∙ get_elem?-append_right front (b ++ left) (length b + i)
    ∙ get_elem?-append_right b left i
    ∙ get_elem?-drop (o + length b) f i

with_bytes-if :
    (o : ℕ) (b f : Bytes)
    → ltb 0 (length b) ≡ true
    → (j : ℕ) → get_elem? (with_bytes o b f) j ≡ get_elem? (pwrite o b f) j
with_bytes-if o b f h j = ap (λ l. get_elem? l j) (if_true (ltb 0 (length b)) _ _ h)

with_bytes-inside :
    (o i : ℕ) (b f : Bytes) → i < length b → get_elem? (with_bytes o b f) (o + i) ≡ get_elem? b i
with_bytes-inside o i b f h = with_bytes-if o b f (ground arith) (o + i) ∙ pwrite-inside o i b f h

-- A place is before, inside or behind a block.
place-cases :
    (o n j : ℕ) → (j < o) ⊎ (((i : ℕ) × (j ≡ o + i) × (i < n)) ⊎ ((i : ℕ) × (j ≡ o + n + i)))
place-cases o n j = elim (Bool-cases (ltb j o)) [
  | inl a ↦ inl (ground arith)
  | inr a ↦ elim (Bool-cases (ltb j (o + n))) [
    | inl b ↦ inr (inl (j - o, ground arith, ground arith))
    | inr b ↦ inr (inr (j - (o + n), ground arith))
  ]
]

-- The file has the byte of the content at a place, or both have none.
abbrev pub IsAt : Bytes → Bytes → ℕ → Type 0
IsAt content file j = get_elem? file j ≡ get_elem? content j

-- A first part of a segment, at its places.
module _ (content got rest : Bytes) (first last : ℕ)
    (cut : got ++ rest ≡ segment content first last) where
  segment-at : (i : ℕ) → i < length got → get_elem? got i ≡ get_elem? content (first + i)
  segment-at i h =
      let part = drop first content in
      let long : length got + length rest ≡ length (segment content first last) =
        sym (length-append got rest) ∙ ap length cut in
      let small : i < suc last - first =
        omega (arith, long, length-take-le (suc last - first) part) in
      sym (get_elem?-append_left got rest i h)
      ∙ ap (λ l. get_elem? l i) cut
      ∙ get_elem?-take (suc last - first) part i small
      ∙ get_elem?-drop first content i

  with_bytes-new :
      (file : Bytes) (i : ℕ) → i < length got → IsAt content (with_bytes first got file) (first + i)
  with_bytes-new file i h = with_bytes-inside first i got file h ∙ segment-at i h

  starts_inside : 0 < length got → first < length content
  starts_inside h =
      let (x, e) = elem_at got 0 h in
      let e' : first + 0 ≡ first = omega arith in
      get_elem?-lt content first x (ap (get_elem? content) (sym e') ∙ (sym (segment-at 0 h) ∙ e))

  with_bytes-old :
      (file : Bytes) (j : ℕ) → IsAt content file j → IsAt content (with_bytes first got file) j
  with_bytes-old file j h = elim (Bool-cases (ltb 0 (length got))) [
    | inr e ↦ subst (λ f. IsAt content f j) (sym (if_false (ltb 0 (length got)) _ _ e)) h
    | inl e ↦ elim (place-cases first (length got) j) [
      | inl before ↦
          let (y, at) = elem_at content j (omega (arith, starts_inside (ground arith))) in
          with_bytes-if first got file e j
          ∙ pwrite-before first j got file before (get_elem?-lt file j y (h ∙ at))
          ∙ h
      | inr (inl (i, here, small)) ↦
          subst (IsAt content (with_bytes first got file)) (sym here) (with_bytes-new file i small)
      | inr (inr (i, here)) ↦
          with_bytes-if first got file e j
          ∙ (ap (get_elem? (pwrite first got file)) here
              ∙ (pwrite-behind first i got file ∙ (ap (get_elem? file) (sym here) ∙ h)))
    ]
  ]

-- The file has the bytes of an item, as far as there are any.
abbrev pub IsWhole : Bytes → Bytes → WorkItem → Type 0
IsWhole content file w =
    (j : ℕ) → w.range_start ≤ j → j ≤ w.range_end → j < length content → IsAt content file j

-- No place of a file has lost its byte in another.
abbrev pub Keeps : Bytes → Bytes → Bytes → Type 0
Keeps content file after = (j : ℕ) → IsAt content file j → IsAt content after j

segment-long :
    (content : Bytes) (first last i : ℕ)
    → i < suc last - first
    → first + i < length content
    → i < length (segment content first last)
segment-long content first last i h k =
    let (y, at) = elem_at content (first + i) k in
    get_elem?-lt (segment content first last) i y (
      get_elem?-take (suc last - first) (drop first content) i h
      ∙ (get_elem?-drop first content i ∙ at))

download_chunk-Keeps :
    (content : Bytes) (url : Url) (w : WorkItem) (rounds : List Attempt) (connected : Bool)
    (file : Bytes)
    → IsHonest content url true w.range_end w.range_start rounds
    → let run = download_chunk url true w.range_end rounds w.range_start connected file in
      Keeps content file run.file × (run.ending ≡ chunk_finished → IsWhole content run.file w)
download_chunk-Keeps content url w rounds connected file honest =
    let (got, rest, cut, file_is, _, all) =
      download_chunk-Writes content url w.range_end rounds w.range_start connected file honest in
    (
      λ j h.
          subst (λ f. IsAt content f j) (sym file_is)
            (with_bytes-old content got rest w.range_start w.range_end cut file j h),
      λ done j above below inside.
          let whole : got ≡ segment content w.range_start w.range_end =
            sym (append-nil got) ∙ ap (λ t. got ++ t) (sym (all done)) ∙ cut in
          let here : w.range_start + (j - w.range_start) ≡ j = omega arith in
          let small : j - w.range_start < length got =
            subst (λ l. j - w.range_start < length l) (sym whole)
              (segment-long content w.range_start w.range_end (j - w.range_start) (omega arith)
                (omega arith)) in
          subst (λ f. IsAt content f j) (sym file_is)
            (subst (IsAt content (with_bytes w.range_start got file)) here (
              with_bytes-new content got rest w.range_start w.range_end cut file (j - w.range_start)
                small)),
    )

abbrev IsHonestItem : Bytes → Url → Option WorkItem → List Attempt → Type 0
IsHonestItem content url none attempts = Unit {0}
IsHonestItem content url (some w) attempts =
    IsHonest content url true w.range_end w.range_start attempts

-- The server is honest in every attempt at every item.
abbrev pub AreHonest : Bytes → Url → List Turn → Type 0
AreHonest content url turns = All (λ t. IsHonestItem content url t.item t.attempts) turns

abbrev finished_first : ChunkEnding → WorkItem → List WorkItem → List WorkItem
finished_first chunk_finished w ws = w ∷ ws
finished_first returned w ws = []
finished_first waiting w ws = []
finished_first (thrown e) w ws = []

abbrev finished_from :
    Url
    → Bool
    → Bool
    → Option WorkItem
    → List Attempt
    → Bool
    → Bytes
    → (ChunkRun → List WorkItem)
    → List WorkItem
finished_from url ranged true item attempts connected file next = []
finished_from url ranged false none attempts connected file next = []
finished_from url ranged false (some w) attempts connected file next =
    let run = download_chunk url ranged w.range_end attempts w.range_start connected file in
    finished_first run.ending w (next run)

-- The items that a worker finishes.
unfoldable pub finished_items : Url → Bool → List Turn → Bool → Bytes → List WorkItem
finished_items url ranged [] connected file = []
finished_items url ranged (t ∷ turns) connected file =
    finished_from url ranged t.release t.item t.attempts connected file
      (λ run. finished_items url ranged turns run.is_connected run.file)

chunk-Keeps :
    (content file : Bytes) (w : WorkItem) (ending : ChunkEnding) (run_file : Bytes)
    (next : WorkerRun) (ws : List WorkItem)
    → Keeps content file run_file
    → (ending ≡ chunk_finished → IsWhole content run_file w)
    → Keeps content run_file next.file
    → All (IsWhole content next.file) ws
    → Keeps content file (after_chunk ending run_file next).file
      × All (IsWhole content (after_chunk ending run_file next).file) (finished_first ending w ws)
chunk-Keeps content file w chunk_finished run_file next ws k whole k' rest =
    (λ j h. k' j (k j h), (λ j a b c. k' j (whole refl j a b c), rest))
chunk-Keeps content file w returned run_file next ws k whole k' rest = (k, tt)
chunk-Keeps content file w waiting run_file next ws k whole k' rest = (k, tt)
chunk-Keeps content file w (thrown e) run_file next ws k whole k' rest = (k, tt)

-- For a job with ranges and a server that has a file and answers each request with the range that it
-- asks for: however a worker's run over its items goes, with interruptions, failing writes, exceptions
-- and a release, every place of the output file that has its byte of the file before the run has it
-- after the run, and so has every place of the items that the worker finishes.
pub download_items-Keeps :
    (content : Bytes) (url : Url) (turns : List Turn) (connected : Bool) (file : Bytes)
    → AreHonest content url turns
    → let after = (download_items url true turns connected file).file in
      Keeps content file after
      × All (IsWhole content after) (finished_items url true turns connected file)
unfolding download_items finished_items
download_items-Keeps content url [] connected file honest = (λ j h. h, tt)
download_items-Keeps content url (t ∷ turns) connected file (honest, all) =
    go t.release t.item honest (λ c f. download_items-Keeps content url turns c f all)
  where
    go :
        (release : Bool) (item : Option WorkItem)
        → IsHonestItem content url item t.attempts
        → ((c : Bool) (f : Bytes)
            → Keeps content f (download_items url true turns c f).file
              × All
                  (IsWhole content (download_items url true turns c f).file)
                  (finished_items url true turns c f))
        → let next =
            (λ (run : ChunkRun). download_items url true turns run.is_connected run.file) in
          let after =
            (if release
              then worker_ends ends file
              else take_item url true item t.attempts connected file next).file in
          Keeps content file after
          × All (IsWhole content after) (
              finished_from url true release item t.attempts connected file
                (λ run. finished_items url true turns run.is_connected run.file))
    go true item h ih = (λ j k. k, tt)
    go false none h ih = (λ j k. k, tt)
    go false (some w) h ih =
        let run = download_chunk url true w.range_end t.attempts w.range_start connected file in
        let (keeps, whole) = download_chunk-Keeps content url w t.attempts connected file h in
        let (keeps', rest) = ih run.is_connected run.file in
        chunk-Keeps content file w run.ending run.file
          (download_items url true turns run.is_connected run.file)
          (finished_items url true turns run.is_connected run.file) keeps whole keeps' rest
