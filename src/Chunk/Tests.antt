-- ===== src/Chunk/Tests.antt =====
-- Chunks of a small file.
use muld.Prelude.{ℕ, ◌+◌, ◌-◌, ◌<◌, ◌≤◌, ◌≡◌, List, [], ◌∷◌, length, arith}
use muld.Chunk.{ChunkInfo, total_size, build_pending_work}
use muld.Chunk.Work.{IsValid, count_finished, build_pending_work_lem}

abbrev chunk : ℕ → ℕ → ℕ → ℕ → ChunkInfo
chunk id first last received = record {
  chunk_id = id;
  start_range = first;
  end_range = last;
  received = received;
}

abbrev some_chunks : List ChunkInfo
some_chunks = chunk 0 0 3 4 ∷ chunk 1 4 7 1 ∷ chunk 2 8 9 0 ∷ []

chunk-IsValid :
    (id first last received : ℕ)
    → last < 1000
    → first ≤ last
    → received ≤ last + 1 - first
    → IsValid (chunk id first last received)
unfolding total_size
chunk-IsValid id first last received small ordered counted = record {
  within = omega arith;
  ordered = ordered;
  counted = omega arith;
}

build_pending_work_lem_example :
    length (build_pending_work some_chunks).0 + count_finished some_chunks ≡ 3
build_pending_work_lem_example =
    (build_pending_work_lem some_chunks (
      chunk-IsValid 0 0 3 4 (omega arith) (omega arith) (omega arith),
      (
        chunk-IsValid 1 4 7 1 (omega arith) (omega arith) (omega arith),
        (chunk-IsValid 2 8 9 0 (omega arith) (omega arith) (omega arith), tt),
      ),
    )).3
