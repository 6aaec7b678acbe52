-- ===== src/Chunk.antt =====
-- src/chunk_info.h, the chunk layout that the first constructor of `DownloadEngine` builds, and the
-- work items of `BuildPendingWork` and `GetNextWorkItem` (src/download_engine.cpp). Sizes and
-- offsets are `std::size_t` of 64 bits, with their wrap-around.
use muld.Prelude.{
  ℕ, zero, suc, ◌+◌, ◌-◌, ◌*◌, ◌/◌, ◌%◌, ◌≡◌, Bool, true, false, Option, none, some, List, [], ◌∷◌,
  if◌then◌else◌, leb, ◌==◌, get_elem?, length,
}
use muld.Prelude.Bytes.{u64, u64_mod}
pub mod Layout
pub mod Work
pub mod Count
mod Tests

pub record ChunkInfo : Type 0 where
  pub chunk_id : ℕ
  pub start_range : ℕ
  pub end_range : ℕ
  pub received : ℕ

-- `GetTotalSize`, `GetRemainingSize`, `UpdateReceived`, `IsFinished`.
unfoldable pub total_size : ChunkInfo → ℕ
total_size c = u64 (c.end_range + u64_mod - c.start_range + 1)

unfoldable pub remaining_size : ChunkInfo → ℕ
remaining_size c = u64 (total_size c + u64_mod - c.received)

unfoldable pub update_received : ChunkInfo → ℕ → ChunkInfo
update_received c amount = record c { received = u64 (c.received + amount) }

unfoldable pub is_finished : ChunkInfo → Bool
is_finished c = leb (total_size c) c.received

-- The layout: `n` ranges of equal size, the last one shorter.
unfoldable pub chunk_size : ℕ → ℕ → ℕ
chunk_size file_size n = u64 (file_size + n + u64_mod - 1) / n

unfoldable pub make_chunk : ℕ → ℕ → ℕ → ChunkInfo
make_chunk file_size n i = record {
  chunk_id = i;
  start_range = start;
  end_range =
      if i == n - 1
      then u64 (file_size + u64_mod - 1)
      else u64 (start + chunk_size file_size n + u64_mod - 1);
  received = 0;
}
  where
    start : ℕ
    start = u64 (i * chunk_size file_size n)

unfoldable pub chunks_from : ℕ → ℕ → ℕ → ℕ → List ChunkInfo
chunks_from file_size n i zero = []
chunks_from file_size n i (suc k) = make_chunk file_size n i ∷ chunks_from file_size n (i + 1) k

unfoldable pub make_chunks : ℕ → ℕ → List ChunkInfo
make_chunks file_size n = chunks_from file_size n 0 n

pub record WorkItem : Type 0 where
  pub work_id : ℕ
  pub chunk_id : ℕ
  pub range_start : ℕ
  pub range_end : ℕ

unfoldable pub work_item : ℕ → ℕ → ChunkInfo → WorkItem
work_item work_id i c = record {
  work_id = work_id;
  chunk_id = i;
  range_start = u64 (c.start_range + c.received);
  range_end = c.end_range;
}

-- The loop of `BuildPendingWork`: the pending items, and the number of finished chunks.
unfoldable pub pending_from : ℕ → ℕ → List ChunkInfo → List WorkItem × ℕ
pending_from i work_id [] = ([], 0)
pending_from i work_id (c ∷ cs) =
    let skipped = pending_from (i + 1) work_id cs in
    let kept = pending_from (i + 1) (work_id + 1) cs in
    if is_finished c then (skipped.0, skipped.1 + 1) else (work_item work_id i c ∷ kept.0, kept.1)

unfoldable pub build_pending_work : List ChunkInfo → List WorkItem × ℕ
build_pending_work chunks = pending_from 0 0 chunks
