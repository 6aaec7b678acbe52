-- ===== src/Downloader/Whole.antt =====
-- A worker that does all the work that BuildPendingWork gives, and the file that the server has.
use mathlib.Core.Path.{subst}
use muld.Prelude.{
  ℕ, suc, ◌+◌, ◌≡◌, ◌<◌, ◌≤◌, inl, inr, refl, Bool, true, List, [], ◌∷◌, length, take, arith, All,
  leb, Bool-cases, some,
}
use muld.Prelude.Bytes.{Bytes, u64_mod}
use muld.Types.{Url}
use muld.Chunk.{ChunkInfo, WorkItem, total_size, is_finished, pending_from, build_pending_work}
use muld.Chunk.Work.{IsValid, Pending, pending_from-Pending}
use muld.Downloader.Worker.{Turn, download_items}
use muld.Downloader.Kept.{IsAt, IsWhole, Keeps, AreHonest, finished_items, download_items-Keeps}

-- The chunks are the bytes from `a` up to `b`, one after the other.
unfoldable pub Covers : ℕ → List ChunkInfo → ℕ → Type 0
Covers a [] b = a ≡ b
Covers a (c ∷ cs) b = (c.start_range ≡ a) × IsValid c × Covers (c.end_range + 1) cs b

-- The bytes that a chunk has received are in their places.
abbrev pub HasReceived : Bytes → Bytes → ChunkInfo → Type 0
HasReceived content file c =
    (j : ℕ) → c.start_range ≤ j → j < c.start_range + c.received → IsAt content file j

finished_received :
    (c : ChunkInfo)
    → IsValid c
    → c.end_range + 1 < u64_mod
    → is_finished c ≡ true
    → c.end_range + 1 ≤ c.start_range + c.received
unfolding is_finished total_size
finished_received c v small f = let low = v.ordered in ground arith

Covers-IsValid : (a b : ℕ) (cs : List ChunkInfo) → Covers a cs b → All IsValid cs
unfolding Covers
Covers-IsValid a b [] h = tt
Covers-IsValid a b (c ∷ cs) (_, v, h) = (v, Covers-IsValid (c.end_range + 1) b cs h)

Covers-le : (a b : ℕ) (cs : List ChunkInfo) → Covers a cs b → a ≤ b
unfolding Covers
Covers-le a b [] h = omega (arith, h)
Covers-le a b (c ∷ cs) (from, v, h) =
    let low = v.ordered in omega (arith, Covers-le (c.end_range + 1) b cs h)

module _ (content file : Bytes) where
  -- A place that is in a chunk or behind it.
  chunk-or :
      (c : ChunkInfo) (j : ℕ)
      → (j < c.end_range + 1 → IsAt content file j)
      → (c.end_range + 1 ≤ j → IsAt content file j)
      → IsAt content file j
  chunk-or c j here there = elim (Bool-cases (leb (c.end_range + 1) j)) [
    | inl a ↦ there (ground arith)
    | inr a ↦ here (ground arith)
  ]

  open_chunk-IsAt :
      (c : ChunkInfo) (w : WorkItem) (j : ℕ)
      → HasReceived content file c
      → IsWhole content file w
      → w.range_start ≡ c.start_range + c.received
      → w.range_end ≡ c.end_range
      → c.start_range ≤ j
      → j < c.end_range + 1
      → j < length content
      → IsAt content file j
  open_chunk-IsAt c w j got whole start finish above below inside =
      elim (Bool-cases (leb (c.start_range + c.received) j)) [
        | inl a ↦ whole j (ground arith) (omega arith) inside
        | inr a ↦ got j above (ground arith)
      ]

  Pending-IsAt :
      (i work_id a b : ℕ) (cs : List ChunkInfo) (ws : List WorkItem)
      → Covers a cs b
      → Pending i work_id cs ws
      → All (HasReceived content file) cs
      → All (IsWhole content file) ws
      → b ≤ length content
      → b < u64_mod
      → (j : ℕ) → a ≤ j
      → j < b
      → IsAt content file j
  unfolding Covers
  Pending-IsAt i work_id a b [] [] cover p got whole fits narrow j above below =
      absurd (omega (arith, cover))
  Pending-IsAt i work_id a b [] (w ∷ ws) cover p got whole fits narrow j above below = absurd p
  Pending-IsAt i work_id a b (c ∷ cs) [] (from, v, cover) (f, p) (g, got) whole fits narrow j above
        below =
      chunk-or c j
        (λ here. g j (omega arith) (
          omega (
            arith,
            finished_received c v (omega (arith, Covers-le (c.end_range + 1) b cs cover)) f,
          )))
        (λ there.
          Pending-IsAt (i + 1) work_id (c.end_range + 1) b cs [] cover p got whole fits narrow j
            there below)
  Pending-IsAt i work_id a b (c ∷ cs) (w ∷ ws) (from, v, cover) (inl (f, p)) (g, got) whole fits
        narrow j above below =
      chunk-or c j
        (λ here. g j (omega arith) (
          omega (
            arith,
            finished_received c v (omega (arith, Covers-le (c.end_range + 1) b cs cover)) f,
          )))
        (λ there.
          Pending-IsAt (i + 1) work_id (c.end_range + 1) b cs (w ∷ ws) cover p got whole fits narrow
            j there below)
  Pending-IsAt i work_id a b (c ∷ cs) (w ∷ ws) (from, v, cover)
        (inr (_, _, _, start, finish, _, _, p)) (g, got) (one, whole) fits narrow j above below =
      chunk-or c j
        (λ here. open_chunk-IsAt c w j g one start finish (omega arith) here (omega arith))
        (λ there.
          Pending-IsAt (i + 1) (work_id + 1) (c.end_range + 1) b cs ws cover p got whole fits narrow
            j there below)

-- Bytes that are all in their places are the content, up to what is behind it.
take-content :
    (content file : Bytes)
    → ((j : ℕ) → j < length content → IsAt content file j)
    → take (length content) file ≡ content
take-content [] file h = refl
take-content (x ∷ content) [] h = absurd (let e = h 0 (omega arith) in cc)
take-content (x ∷ content) (y ∷ file) h =
    let same : some y ≡ some x = h 0 (omega arith) in
    let rest = take-content content file (λ j k. h (suc j) (omega arith)) in cc

-- For a job with ranges and a server that has a file and answers each request with the range that it
-- asks for, a file shorter than 2 ^ 64, chunks that cover it, and an output file with the bytes that the chunks have received
-- in their places: when a worker has finished all the items of BuildPendingWork, in whatever way the
-- attempts went, the output file starts with the server's file.
pub download_items-whole :
    (content : Bytes) (url : Url) (chunks : List ChunkInfo) (turns : List Turn) (connected : Bool)
    (file : Bytes)
    → length content < u64_mod
    → AreHonest content url turns
    → Covers 0 chunks (length content)
    → All (HasReceived content file) chunks
    → finished_items url true turns connected file ≡ (build_pending_work chunks).0
    → take (length content) (download_items url true turns connected file).file ≡ content
unfolding build_pending_work
download_items-whole content url chunks turns connected file narrow honest cover got done =
    let after = (download_items url true turns connected file).file in
    let (keeps, whole) = download_items-Keeps content url turns connected file honest in
    let pending =
      pending_from-Pending 0 0 chunks (Covers-IsValid 0 (length content) chunks cover) in
    take-content content after (λ j inside.
      Pending-IsAt content after 0 0 0 (length content) chunks (pending_from 0 0 chunks).0 cover
        pending (kept chunks got keeps) (subst (All (IsWhole content after)) done whole)
        (omega arith) narrow j (omega arith) inside)
  where
    kept :
        (cs : List ChunkInfo)
        → All (HasReceived content file) cs
        → Keeps content file (download_items url true turns connected file).file
        → All (HasReceived content (download_items url true turns connected file).file) cs
    kept [] h k = tt
    kept (c ∷ cs) h k = (λ j a b. k j (h.0 j a b), kept cs h.1 k)
