-- ===== src/Chunk/Layout.antt =====
-- The chunks of a new download tile the file.
use native.Mathlib.Nat.{div-add-mod, zero-mul, add-mul, one-mul, mod-lt, mul-le-mul_right}
use muld.Prelude.{ℕ, zero, suc, ◌+◌, ◌-◌, ◌*◌, ◌%◌, ◌≤◌, ◌<◌, ◌≡◌, true, List, [], ◌∷◌, arith}
use muld.Prelude.Bytes.{u64_mod}
use muld.Chunk.{
  ChunkInfo, total_size, is_finished, chunk_size, make_chunk, chunks_from, make_chunks,
}

-- The chunks cover the bytes from `a` up to `b`, one after the other, with none empty, none started
-- and ids counting up from `i`.
abbrev pub Tiles : ℕ → ℕ → List ChunkInfo → ℕ → Type 0
Tiles i a [] b = a ≡ b
Tiles i a (c ∷ cs) b =
    (c.chunk_id ≡ i)
    × (c.start_range ≡ a)
    × (c.received ≡ 0)
    × (0 < total_size c)
    × (c.end_range + 1 ≡ a + total_size c)
    × Tiles (i + 1) (a + total_size c) cs b

chunk_size_lem :
    (file_size n : ℕ)
    → 0 < n
    → file_size + n < u64_mod
    → 0 < file_size
    → (file_size ≤ n * chunk_size file_size n) × (0 < chunk_size file_size n)
unfolding chunk_size
chunk_size_lem file_size n h fits nonempty =
    let m : (file_size + n + u64_mod - 1) % u64_mod ≡ file_size + n - 1 = omega arith in
    rw m (grind (arith, div-add-mod (file_size + n - 1) n, mod-lt (file_size + n - 1) h))

last_chunk :
    (file_size n i : ℕ)
    → i + 1 ≡ n
    → file_size < u64_mod
    → i * chunk_size file_size n < file_size
    → Tiles i (i * chunk_size file_size n) (make_chunk file_size n i ∷ []) file_size
unfolding make_chunk total_size
last_chunk file_size n i e fits h = ground arith

middle_chunk :
    (file_size n i : ℕ)
    → i + 1 < n
    → (i + 1) * chunk_size file_size n ≡ i * chunk_size file_size n + chunk_size file_size n
    → (i + 1) * chunk_size file_size n < u64_mod
    → 0 < chunk_size file_size n
    → let c = make_chunk file_size n i in
      (c.chunk_id ≡ i)
      × (c.start_range ≡ i * chunk_size file_size n)
      × (c.received ≡ 0)
      × (0 < total_size c)
      × (c.end_range + 1 ≡ i * chunk_size file_size n + total_size c)
      × (total_size c ≡ chunk_size file_size n)
unfolding make_chunk total_size
middle_chunk file_size n i e next fits pos_size = ground arith

-- The tiling from the chunk `i` on, with `k` chunks after it.
chunks_from-Tiles :
    (file_size n i k : ℕ)
    → i + k + 1 ≡ n
    → file_size + n < u64_mod
    → (n - 1) * chunk_size file_size n < file_size
    → Tiles i (i * chunk_size file_size n) (chunks_from file_size n i (suc k)) file_size
unfolding chunks_from
chunks_from-Tiles file_size n i zero e fits h =
    let last : n - 1 ≡ i = omega arith in
    last_chunk file_size n i (omega arith) (omega arith) (rw last at h)
chunks_from-Tiles file_size n i (suc k) e fits h =
    let size = chunk_size file_size n in
    let next : (i + 1) * size ≡ i * size + size = omega (arith, add-mul i 1 size, one-mul size) in
    let below : (i + 1) * size ≤ (n - 1) * size = mul-le-mul_right size (omega arith) in
    let (id, start, received, some_bytes, finish, total) =
      middle_chunk file_size n i (omega arith) next (omega arith)
        (chunk_size_lem file_size n (omega arith) fits (omega arith)).1 in
    let here : (i + 1) * size ≡ i * size + total_size (make_chunk file_size n i) =
      omega (arith, next, total) in
    (
      id,
      start,
      received,
      some_bytes,
      finish,
      rw here at (chunks_from-Tiles file_size n (i + 1) k (omega arith) fits h),
    )

-- With at least one chunk, and so few that the last one still begins inside the file, the chunks
-- of a new download lie end to end from the first byte of the file to its last, none is empty and
-- none has received a byte; their ids are 0, 1, and so on.
pub make_chunks-Tiles :
    (file_size n : ℕ)
    → 0 < n
    → file_size + n < u64_mod
    → (n - 1) * chunk_size file_size n < file_size
    → Tiles 0 0 (make_chunks file_size n) file_size
unfolding make_chunks
make_chunks-Tiles file_size zero h fits last = absurd (omega arith)
make_chunks-Tiles file_size (suc k) h fits last =
    rw zero-mul at (chunks_from-Tiles file_size (suc k) 0 k (omega arith) fits last)

-- An empty file: with one chunk, that chunk is finished before a byte has come.
pub make_chunks_empty_file :
    (c : ChunkInfo) (cs : List ChunkInfo)
    → make_chunks 0 1 ≡ c ∷ cs
    → (is_finished c ≡ true) × (total_size c ≡ 0) × (cs ≡ [])
unfolding make_chunks chunks_from make_chunk is_finished total_size chunk_size
make_chunks_empty_file c cs e = ground arith
