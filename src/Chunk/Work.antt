-- ===== src/Chunk/Work.antt =====
-- The pending work of a started or resumed download.
use muld.Prelude.{
  ℕ, suc, ◌+◌, ◌-◌, ◌≤◌, ◌<◌, ◌≡◌, refl, ◌⊎◌, inl, inr, true, false, List, [], ◌∷◌, if◌then◌else◌,
  arith, length, Bool-cases, All,
}
use muld.Prelude.Bytes.{u64_mod}
use muld.Chunk.{
  ChunkInfo, total_size, remaining_size, is_finished, WorkItem, work_item, pending_from,
  build_pending_work,
}

-- A chunk whose range and count are values of a download.
pub record IsValid (c : ChunkInfo) : Type 0 where
  pub within : c.end_range < u64_mod
  pub ordered : c.start_range ≤ c.end_range
  pub counted : c.received ≤ total_size c

-- The number of finished chunks, of all chunks and of their missing bytes.
unfoldable pub count_finished : List ChunkInfo → ℕ
count_finished [] = 0
count_finished (c ∷ cs) = if is_finished c then suc (count_finished cs) else count_finished cs

unfoldable pub missing_bytes : List ChunkInfo → ℕ
missing_bytes [] = 0
missing_bytes (c ∷ cs) = remaining_size c + missing_bytes cs

-- The bytes that the items ask for.
unfoldable pub requested_bytes : List WorkItem → ℕ
requested_bytes [] = 0
requested_bytes (w ∷ ws) = w.range_end + 1 - w.range_start + requested_bytes ws

-- What a list of items says of the chunks from `i` on: an item for each unfinished chunk, in order,
-- for its missing bytes; and none for a finished one.
abbrev pub Pending : ℕ → ℕ → List ChunkInfo → List WorkItem → Type 0
Pending i work_id [] [] = Unit {0}
Pending i work_id [] (w ∷ ws) = ⊥
Pending i work_id (c ∷ cs) [] = (is_finished c ≡ true) × Pending (i + 1) work_id cs []
Pending i work_id (c ∷ cs) (w ∷ ws) =
    ((is_finished c ≡ true) × Pending (i + 1) work_id cs (w ∷ ws))
    ⊎ ((is_finished c ≡ false)
        × (w.work_id ≡ work_id)
        × (w.chunk_id ≡ i)
        × (w.range_start ≡ c.start_range + c.received)
        × (w.range_end ≡ c.end_range)
        × (w.range_end + 1 - w.range_start ≡ remaining_size c)
        × (w.range_start ≤ w.range_end)
        × Pending (i + 1) (work_id + 1) cs ws)

work_item_lem :
    (work_id i : ℕ) (c : ChunkInfo)
    → IsValid c
    → is_finished c ≡ false
    → let w = work_item work_id i c in
      (w.work_id ≡ work_id)
      × (w.chunk_id ≡ i)
      × (w.range_start ≡ c.start_range + c.received)
      × (w.range_end ≡ c.end_range)
      × (w.range_end + 1 - w.range_start ≡ remaining_size c)
      × (w.range_start ≤ w.range_end)
unfolding work_item is_finished remaining_size total_size
work_item_lem work_id i c v open_chunk = ground arith

Pending-skip :
    (i work_id : ℕ) (c : ChunkInfo) (cs : List ChunkInfo) (ws : List WorkItem)
    → is_finished c ≡ true
    → Pending (i + 1) work_id cs ws
    → Pending i work_id (c ∷ cs) ws
Pending-skip i work_id c cs [] f h = (f, h)
Pending-skip i work_id c cs (w ∷ ws) f h = inl (f, h)

pub pending_from-Pending :
    (i work_id : ℕ) (cs : List ChunkInfo)
    → All IsValid cs
    → Pending i work_id cs (pending_from i work_id cs).0
unfolding pending_from
pending_from-Pending i work_id [] h = tt
pending_from-Pending i work_id (c ∷ cs) h = elim (Bool-cases (is_finished c)) [
  | inl f ↦ rw f (Pending-skip i work_id c cs _ f (pending_from-Pending (i + 1) work_id cs h.1))
  | inr f ↦
      let (a, b, start, finish, size, order) = work_item_lem work_id i c h.0 f in
      rw f (
        inr
          (f, a, b, start, finish, size, order, pending_from-Pending (i + 1) (work_id + 1) cs h.1))
]

finished_remaining : (c : ChunkInfo) → IsValid c → is_finished c ≡ true → remaining_size c ≡ 0
unfolding is_finished remaining_size total_size
finished_remaining c v f = ground arith

Pending-requested :
    (i work_id : ℕ) (cs : List ChunkInfo) (ws : List WorkItem)
    → All IsValid cs
    → Pending i work_id cs ws
    → requested_bytes ws ≡ missing_bytes cs
unfolding requested_bytes missing_bytes
Pending-requested i work_id [] [] v h = refl
Pending-requested i work_id [] (w ∷ ws) v h = absurd h
Pending-requested i work_id (c ∷ cs) [] v h =
    omega (arith, finished_remaining c v.0 h.0, Pending-requested (i + 1) work_id cs [] v.1 h.1)
Pending-requested i work_id (c ∷ cs) (w ∷ ws) v (inl h) =
    omega
      (arith, finished_remaining c v.0 h.0, Pending-requested (i + 1) work_id cs (w ∷ ws) v.1 h.1)
Pending-requested i work_id (c ∷ cs) (w ∷ ws) v (inr (_, _, _, _, _, size, _, rest)) =
    omega (arith, size, Pending-requested (i + 1) (work_id + 1) cs ws v.1 rest)

pending_from-count :
    (i work_id : ℕ) (cs : List ChunkInfo)
    → ((pending_from i work_id cs).1 ≡ count_finished cs)
      × (length (pending_from i work_id cs).0 + count_finished cs ≡ length cs)
unfolding pending_from count_finished
pending_from-count i work_id [] = omega arith
pending_from-count i work_id (c ∷ cs) =
    ground
      (arith, pending_from-count (i + 1) work_id cs, pending_from-count (i + 1) (work_id + 1) cs)

-- For chunks with valid ranges, `BuildPendingWork` makes exactly one item for each unfinished chunk,
-- in order, numbered from 0, which asks for the chunk's missing bytes; none for a finished chunk.
-- So the items ask for all missing bytes and no other. It counts the finished chunks.
pub build_pending_work_lem :
    (cs : List ChunkInfo)
    → All IsValid cs
    → Pending 0 0 cs (build_pending_work cs).0
      × (requested_bytes (build_pending_work cs).0 ≡ missing_bytes cs)
      × ((build_pending_work cs).1 ≡ count_finished cs)
      × (length (build_pending_work cs).0 + count_finished cs ≡ length cs)
unfolding build_pending_work
build_pending_work_lem cs h =
    let pending = pending_from-Pending 0 0 cs h in
    let (finished, all_chunks) = pending_from-count 0 0 cs in
    (pending, Pending-requested 0 0 cs (pending_from 0 0 cs).0 h pending, finished, all_chunks)

pub build_pending_work-count : (cs : List ChunkInfo) → (build_pending_work cs).1 ≡ count_finished cs
unfolding build_pending_work
build_pending_work-count cs = (pending_from-count 0 0 cs).0

pub build_pending_work-finished :
    (cs : List ChunkInfo) → count_finished cs ≡ length cs → (build_pending_work cs).0 ≡ []
unfolding build_pending_work
build_pending_work-finished cs h =
    empty (pending_from 0 0 cs).0 (omega (arith, (pending_from-count 0 0 cs).1))
  where
    empty : (ws : List WorkItem) → length ws ≡ 0 → ws ≡ []
    empty [] e = refl
    empty (w ∷ ws) e = absurd (omega arith)
