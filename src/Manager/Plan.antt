-- ===== src/Manager/Plan.antt =====
-- The connections and chunks that the dispatcher plans.
use native.Mathlib.Nat.{
  mul-div-le, lt-mul-div-succ, mul-le-mul_left, le-div_iff_mul-le, div-le_self, zero-mul, mul-suc,
  suc-mul, mul_comm, lt_of_mul-lt-mul_left,
}
use muld.Prelude.{
  ℕ, zero, suc, ◌+◌, ◌-◌, ◌*◌, ◌/◌, ◌≤◌, ◌<◌, ◌≡◌, ap, refl, ◌&&◌, ◌∙◌, ◌^◌, Bool, true, false,
  if◌then◌else◌, ltb, arith,
}
use muld.Prelude.Int.{ℤ, pos, negsuc, ◌≤ℤ◌}
use muld.Prelude.Bytes.{u64, u64_mod}
use muld.Chunk.{chunk_size, make_chunks}
use muld.Chunk.Layout.{Tiles, make_chunks-Tiles}
use muld.Manager.{
  FileInfo, compute_max_connections, compute_initial_desired_connections, actual_chunk_size,
  plan_chunks,
}

-- A chunk size `s` and the number of chunks of that size that a file takes: laid out evenly in that
-- number, the last chunk still begins inside the file.
ceiling_fits :
    (t s n q : ℕ)
    → 0 < t
    → 0 < s
    → n ≡ (t + s - 1) / s
    → q ≡ (t + n - 1) / n
    → (0 < n) × ((n - 1) * q < t)
ceiling_fits t s zero q some_bytes some_size en eq =
    let one : 1 ≤ (t + s - 1) / s = (le-div_iff_mul-le some_size).1 (omega arith) in
    absurd (omega (arith, en, one))
ceiling_fits t s (suc m) q some_bytes some_size en eq =
    let above : t + s - 1 < s * ((t + s - 1) / s + 1) = lt-mul-div-succ (t + s - 1) some_size in
    let below : s * ((t + s - 1) / s) ≤ t + s - 1 = mul-div-le (t + s - 1) s in
    let above' : t + s - 1 < s * (suc m + 1) = rw en above in
    let below' : s * suc m ≤ t + s - 1 = rw en below in
    let e1 : s * suc (suc m) ≡ s * suc m + s = mul-suc s (suc m) in
    let e2 : s * suc m ≡ s * m + s = mul-suc s m in
    let whole : suc m * q ≤ t + suc m - 1 = rw eq (mul-div-le (t + suc m - 1) (suc m)) in
    let swap : suc m * suc s ≡ s * suc m + suc m = mul_comm (suc m) (suc s) ∙ suc-mul s (suc m) in
    let less : suc m * q < suc m * suc s = omega arith in
    let small : q < suc s = lt_of_mul-lt-mul_left (suc m) less in
    let last : m * q ≤ m * s = mul-le-mul_left m (omega arith) in
    let swap' : m * s ≡ s * m = mul_comm m s in
    let fits : m * q < t = omega arith in
    let e3 : suc m - 1 ≡ m = omega arith in (omega arith, rw e3 fits)

-- The layout for a chunk size `s`, whose numbers do not wrap around.
layout_fits :
    (t s n : ℕ)
    → 0 < t
    → 0 < s
    → t < 2 ^ 50
    → s < 2 ^ 50
    → n ≡ u64 (t + s + u64_mod - 1) / s
    → (0 < n) × Tiles 0 0 (make_chunks t n) t
unfolding chunk_size
layout_fits t s n some_bytes some_size small small' en =
    let e : u64 (t + s + u64_mod - 1) ≡ t + s - 1 = omega arith in
    let en' : n ≡ (t + s - 1) / s = en ∙ ap (λ x. x / s) e in
    let few : n ≤ t + s - 1 = rw en' (div-le_self (t + s - 1) s) in
    let e' : u64 (t + n + u64_mod - 1) ≡ t + n - 1 = omega arith in
    let fit = ceiling_fits t s n (chunk_size t n) some_bytes some_size en' (ap (λ x. x / n) e') in
    (fit.0, make_chunks-Tiles t n fit.0 (omega arith) fit.1)

-- The number of chunks that the dispatcher chooses is positive, and the chunks of a new download of
-- that number lie end to end from the first byte of the file to its last, each with at least one byte,
-- for a non-empty file of less than 2 ^ 50 bytes and whatever number of connections.
pub plan_chunks-Tiles :
    (info : FileInfo) (max_connections : ℕ)
    → 0 < info.total_size
    → info.total_size < 2 ^ 50
    → let n = plan_chunks info max_connections in
      (0 < n) × Tiles 0 0 (make_chunks info.total_size n) info.total_size
unfolding plan_chunks actual_chunk_size
plan_chunks-Tiles info max_connections some_bytes small =
    go (info.supports_range && ltb 0 info.total_size)
  where
    size : ℕ
    size = actual_chunk_size info.total_size max_connections

    go :
        (several : Bool)
        → let n = if several then u64 (info.total_size + size + u64_mod - 1) / size else 1 in
          (0 < n) × Tiles 0 0 (make_chunks info.total_size n) info.total_size
    go true = layout_fits info.total_size size _ some_bytes (omega arith) small (omega arith) refl
    go false = (
      omega arith,
      make_chunks-Tiles info.total_size 1 (omega arith) (omega arith)
          (omega (arith, zero-mul (chunk_size info.total_size 1))),
    )

-- The connections of a job: at least one, at most eight, at most what the pool of threads has, and a
-- single one for a server without ranges; the first desired number is one or two and at most the maximum.
pub compute_connections_lem :
    (supports_range : Bool) (speed_limit_bps : ℕ) (global_capacity : ℤ)
    → pos 1 ≤ℤ global_capacity
    → let m = compute_max_connections supports_range speed_limit_bps global_capacity in
      let d = compute_initial_desired_connections speed_limit_bps m in
      (pos 1 ≤ℤ m)
      × (m ≤ℤ pos 8)
      × (m ≤ℤ global_capacity)
      × (supports_range ≡ false → m ≡ pos 1)
      × (pos 1 ≤ℤ d)
      × (d ≤ℤ pos 2)
      × (d ≤ℤ m)
unfolding compute_max_connections compute_initial_desired_connections
compute_connections_lem supports_range limit (pos c) h = ground arith
compute_connections_lem supports_range limit (negsuc c) h = absurd (omega arith)
