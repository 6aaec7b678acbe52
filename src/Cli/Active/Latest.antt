-- ===== src/Cli/Active/Latest.antt =====
-- The running chunks against the events that were told.
use mathlib.Core.Path.{subst}
use muld.Prelude.{
  zero, suc, ◌+◌, ◌<◌, ◌≢◌, sym, max, replicate, set, get_elem?, get_elem?-set_self,
  get_elem?-set_other, length-set, length-replicate, ℕ, ◌-◌, ◌≡◌, ◌≤◌, refl, ap, ◌∙◌, Bool, Option,
  none, some, List, [], ◌∷◌, ◌++◌, length, take, if◌then◌else◌, if_either, ltb, ◌==◌, arith,
  length-append, length-take_le,
}
use muld.Prelude.Bytes.{Bytes, codes}
use muld.Prelude.Decimal.{decimal}
use muld.Prelude.Floats.{Floats}
use muld.Prelude.Table.{nat_eq, lookup, lookup-insert, lookup-erase}
use muld.Types.{ChunkProgress, ChunkProgressEvent}
use muld.Handler.{put_chunk}
use muld.Cli.Text.{cut_line}
use muld.Cli.Active.{
  View, progress_of, on_chunk, on_chunks, no_chunks, entries, cut_entries, active_line,
  polling_line,
}

-- The last event for a chunk.
abbrev or_first : Option ChunkProgressEvent → Bool → ChunkProgressEvent → Option ChunkProgressEvent
or_first (some e) here first = some e
or_first none here first = if here then some first else none

unfoldable pub latest : ℕ → List ChunkProgressEvent → Option ChunkProgressEvent
latest i [] = none
latest i (e ∷ events) = or_first (latest i events) (e.chunk_id == i) e

-- What is shown of a chunk whose last event is known, and whose entry was known before.
abbrev pub shown : Option ChunkProgressEvent → Option ChunkProgress → Option ChunkProgress
shown none before = before
shown (some e) before = if e.finished then none else some (progress_of e)

on_chunk-lookup :
    (i : ℕ) (v : View) (e : ChunkProgressEvent)
    → lookup i (on_chunk v e).active
      ≡ shown (if e.chunk_id == i then some e else none) (lookup i v.active)
unfolding on_chunk
on_chunk-lookup i v e =
    ground (
      arith,
      lookup-insert e.chunk_id i (progress_of e) v.active,
      lookup-erase e.chunk_id i v.active,
    )

shown-or_first :
    (o : Option ChunkProgressEvent) (here : Bool) (e : ChunkProgressEvent)
    (before : Option ChunkProgress)
    → shown o (shown (if here then some e else none) before) ≡ shown (or_first o here e) before
shown-or_first none here e before = refl
shown-or_first (some x) here e before = refl

on_chunks-shown :
    (i : ℕ) (events : List ChunkProgressEvent) (v : View)
    → lookup i (on_chunks v events).active ≡ shown (latest i events) (lookup i v.active)
unfolding on_chunks latest
on_chunks-shown i [] v = refl
on_chunks-shown i (e ∷ events) v =
    on_chunks-shown i events (on_chunk v e)
    ∙ ap (shown (latest i events)) (on_chunk-lookup i v e)
    ∙ shown-or_first (latest i events) (e.chunk_id == i) e (lookup i v.active)

cut_line-le : (most : ℕ) (line : Bytes) → 3 ≤ most → length (cut_line most line) ≤ most
unfolding cut_line
cut_line-le most line h =
    if_either (λ (t : Bytes). length t ≤ most) (ltb most (length line)) _ _
      (λ long. omega (
        arith,
        length-append (take (most - 3) line) (codes "..."),
        length-take_le (most - 3) line (ground arith),
      ))
      (λ fits. ground arith)

-- A chunk that the vector has no entry for is one without bytes.
abbrev pub or_zero : Option ChunkProgress → ChunkProgress
or_zero none = record { downloaded_bytes = 0; total_bytes = 0 }
or_zero (some c) = c

-- The bytes of the last event, where there is one.
abbrev pub bytes_of : Option ChunkProgressEvent → ChunkProgress → ChunkProgress
bytes_of none before = before
bytes_of (some e) before = progress_of e

-- How many chunks the events tell of, up to the highest id.
unfoldable pub width : ℕ → List ChunkProgressEvent → ℕ
width n [] = n
width n (e ∷ events) = width (max n (suc e.chunk_id)) events

or_zero-replicate :
    (n i : ℕ)
    → or_zero (get_elem? (replicate n (record { downloaded_bytes = 0; total_bytes = 0 })) i)
      ≡ record { downloaded_bytes = 0; total_bytes = 0 }
or_zero-replicate zero i = refl
or_zero-replicate (suc n) zero = refl
or_zero-replicate (suc n) (suc i) = or_zero-replicate n i

or_zero-append :
    (cs : List ChunkProgress) (n i : ℕ)
    → or_zero (get_elem? (cs ++ replicate n (record { downloaded_bytes = 0; total_bytes = 0 })) i)
      ≡ or_zero (get_elem? cs i)
or_zero-append [] n i = or_zero-replicate n i
or_zero-append (c ∷ cs) n zero = refl
or_zero-append (c ∷ cs) n (suc i) = or_zero-append cs n i

length-put_chunk :
    (cs : List ChunkProgress) (k : ℕ) (c : ChunkProgress)
    → length (put_chunk cs k c) ≡ max (length cs) (suc k)
length-put_chunk cs k c =
    let none_yet : ChunkProgress = record { downloaded_bytes = 0; total_bytes = 0 } in
    let longer = cs ++ replicate (suc k - length cs) none_yet in
    length-set longer k c
    ∙ length-append cs (replicate (suc k - length cs) none_yet)
    ∙ ap (λ n. length cs + n) (length-replicate (suc k - length cs) none_yet)
    ∙ omega arith

or_zero-put_chunk :
    (cs : List ChunkProgress) (k i : ℕ) (c : ChunkProgress) (e : ChunkProgressEvent)
    → c ≡ progress_of e
    → or_zero (get_elem? (put_chunk cs k c) i)
      ≡ bytes_of (if k == i then some e else none) (or_zero (get_elem? cs i))
or_zero-put_chunk cs k i c e same =
    let none_yet : ChunkProgress = record { downloaded_bytes = 0; total_bytes = 0 } in
    let longer = cs ++ replicate (suc k - length cs) none_yet in
    let long : k < length longer = omega (
      arith,
      length-append cs (replicate (suc k - length cs) none_yet),
      length-replicate (suc k - length cs) none_yet,
    ) in
    if_either
      (λ (o : Option ChunkProgressEvent).
        or_zero (get_elem? (set longer k c) i) ≡ bytes_of o (or_zero (get_elem? cs i)))
      (k == i) _ _
      (λ here.
        let at : k ≡ i = ground arith in
        ap (λ n. or_zero (get_elem? (set longer k c) n)) (sym at)
        ∙ ap or_zero (get_elem?-set_self longer k c long)
        ∙ same)
      (λ elsewhere.
        let apart : k ≢ i = λ at. ground arith in
        ap or_zero (get_elem?-set_other longer k i c apart)
        ∙ or_zero-append cs (suc k - length cs) i)

bytes_of-or_first :
    (o : Option ChunkProgressEvent) (here : Bool) (e : ChunkProgressEvent) (before : ChunkProgress)
    → bytes_of o (bytes_of (if here then some e else none) before)
      ≡ bytes_of (or_first o here e) before
bytes_of-or_first none here e before = refl
bytes_of-or_first (some x) here e before = refl

on_chunks-all :
    (i : ℕ) (events : List ChunkProgressEvent) (v : View)
    → or_zero (get_elem? (on_chunks v events).all i)
      ≡ bytes_of (latest i events) (or_zero (get_elem? v.all i))
unfolding on_chunks on_chunk latest
on_chunks-all i [] v = refl
on_chunks-all i (e ∷ events) v =
    on_chunks-all i events (on_chunk v e)
    ∙ ap (bytes_of (latest i events)) (or_zero-put_chunk v.all e.chunk_id i (progress_of e) e refl)
    ∙ bytes_of-or_first (latest i events) (e.chunk_id == i) e (or_zero (get_elem? v.all i))

on_chunks-width :
    (events : List ChunkProgressEvent) (v : View)
    → length (on_chunks v events).all ≡ width (length v.all) events
unfolding on_chunks on_chunk width
on_chunks-width [] v = refl
on_chunks-width (e ∷ events) v =
    on_chunks-width events (on_chunk v e)
    ∙ ap (λ n. width n events) (length-put_chunk v.all e.chunk_id (progress_of e))

-- The two tables implement their description. After any events, the map of running chunks has a chunk
-- exactly if the last event for the chunk told that it is not finished, and then with the bytes of that
-- event; the vector of all chunks goes up to the highest id of an event, and has for each chunk the
-- bytes of its last event, and no bytes where there was none.
pub on_chunks-latest :
    (events : List ChunkProgressEvent) (i : ℕ)
    → let v = on_chunks no_chunks events in
      (lookup i v.active ≡ shown (latest i events) none)
      × (or_zero (get_elem? v.all i) ≡ bytes_of (latest i events) (or_zero none))
      × (length v.all ≡ width 0 events)
unfolding lookup
on_chunks-latest events i = (
  on_chunks-shown i events no_chunks,
  on_chunks-all i events no_chunks,
  on_chunks-width events no_chunks,
)

cut_entries-le :
    (n : ℕ) (text : Option Bytes) (line : Bytes)
    → cut_entries n text ≡ some line
    → length line ≤ 100
cut_entries-le n none line h = absurd (cc)
cut_entries-le n (some text) line h =
    let e : cut_line 100 (decimal n ++ (codes " Active Chunks: " ++ text)) ≡ line = ground arith in
    subst (λ l. length l ≤ 100) e (cut_line-le 100 _ (omega arith))

-- The lines that the two tools show of the running chunks have at most 100 and 80 characters.
pub active_line-le :
    (D : Floats) (v : View) (line : Bytes) (chunks : List ChunkProgress)
    → active_line v ≡ some line
    → (length line ≤ 100) × (length (polling_line D chunks) ≤ 80)
unfolding active_line polling_line
active_line-le D v line chunks h =
    (cut_entries-le (length v.active) (entries v.active) line h, cut_line-le 80 _ (omega arith))
