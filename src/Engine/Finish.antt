-- ===== src/Engine/Finish.antt =====
-- The count of finished chunks, and the completion of a job.
use muld.Prelude.{
  ℕ, ◌+◌, ◌-◌, ◌<◌, ◌≡◌, refl, sym, ap, ◌∙◌, Bool, true, false, ◌&&◌, Option, some, List, length,
  get_elem?, set, if◌then◌else◌, ◌==◌, arith, length-set, if_both,
}
use muld.Prelude.Bytes.{Bytes, u64, u64_mod}
use muld.Prelude.Floats.{Floats}
use muld.Types.{DownloadState, completed}
use muld.Outcome.{returns, or_throw, ◌>>=◌}
use muld.Disk.{Disk}
use muld.Chunk.{ChunkInfo, update_received, is_finished}
use muld.Chunk.Count.{count_finished-set, count_finished_lt}
use muld.Chunk.Work.{count_finished}
use muld.Engine.{Engine}
use muld.Engine.Storage.{store_at, cleanup}
use muld.Engine.Tally.{Kept, store_at-kept, store-returns, store_due_lem}
use muld.Engine.Receive.{
  add_bytes, report, measure, measures, finish_job, finish_stored, count_chunk, can_complete,
  count_if_finished, notify_chunk, notify_chunk_received,
}

-- The counter and the test of `NotifyChunkReceived` against the count after the update.
count_after :
    (cs : List ChunkInfo) (i n : ℕ) (old new : ChunkInfo)
    → length cs ≡ n
    → n < u64_mod
    → get_elem? cs i ≡ some old
    → is_finished old ≡ false
    → (if is_finished new then u64 (count_finished cs + 1) else count_finished cs)
      ≡ count_finished (set cs i new)
count_after cs i n old new sized bounded found open_chunk = ground (
  arith,
  count_finished-set cs i old new found open_chunk,
  count_finished_lt cs i old found open_chunk,
)

completed_after :
    (cs : List ChunkInfo) (i n : ℕ) (old new : ChunkInfo) (s : DownloadState)
    → length cs ≡ n
    → n < u64_mod
    → get_elem? cs i ≡ some old
    → is_finished old ≡ false
    → (if is_finished new
        then if count_finished cs == u64 (n + u64_mod - 1) && can_complete s then completed else s
        else s)
      ≡ (if count_finished (set cs i new) == n && can_complete s then completed else s)
completed_after cs i n old new s sized bounded found open_chunk = ground (
  arith,
  count_finished-set cs i old new found open_chunk,
  count_finished_lt cs i old found open_chunk,
)

-- What the count is about.
abbrev Tally : Type 0
Tally = DownloadState × ℕ × ℕ × List ChunkInfo × Option Bytes

abbrev tally : {F : Type 0} → Engine F → Tally
tally e = (e.state, e.n_chunks, e.downloaded_chunks, e.chunks, e.writer)

abbrev tally_of : {F : Type 0} → Kept F → Tally
tally_of k = (k.0, k.1, k.2, k.3, k.4)

module _ {F : Type 0} where
  -- The count, the chunks and the state after the artifacts are cleaned.
  abbrev rest : Engine F → DownloadState × ℕ × ℕ × List ChunkInfo
  rest e = (e.state, e.n_chunks, e.downloaded_chunks, e.chunks)

  finish_stored-rest : (e : Engine F) (d : Disk) → rest (finish_stored (e, d)).0 ≡ rest e
  unfolding finish_stored cleanup
  finish_stored-rest e d =
      if_both (λ (r : Engine F × Disk). rest r.0 ≡ rest e) e.artifacts_cleaned _ _ refl refl

  finish_job_lem :
      (e : Engine F) (d : Disk) (unix : ℕ) (path : Bytes)
      → e.writer ≡ some path
      → (r : Engine F × Disk) × (finish_job e d unix ≡ returns r)
        × (rest r.0 ≡ (completed, e.n_chunks, e.downloaded_chunks, e.chunks))
  unfolding finish_job
  finish_job_lem e d unix path open_file =
      let stored = store_at (record e { state = completed }) d unix path in
      let t = store_at-kept (record e { state = completed }) d unix path in
      (
        finish_stored stored,
        ap (λ m. m >>= λ s. returns (finish_stored s))
            (store-returns (record e { state = completed }) d unix path open_file),
        finish_stored-rest stored.0 stored.1 ∙ ap (λ t. (t.0, t.1, t.2, t.3)) t,
      )

  count_chunk_lem :
      (e : Engine F) (d : Disk) (unix : ℕ) (path : Bytes)
      → e.writer ≡ some path
      → let last = e.downloaded_chunks == u64 (e.n_chunks + u64_mod - 1) && can_complete e.state in
        (r : Engine F × Disk) × (count_chunk e d unix ≡ returns r)
        × (rest r.0 ≡ (
          if last then completed else e.state,
          e.n_chunks,
          u64 (e.downloaded_chunks + 1),
          e.chunks,
        ))
  unfolding count_chunk
  count_chunk_lem e d unix path open_file =
      let e' : Engine F = record e { downloaded_chunks = u64 (e.downloaded_chunks + 1) } in
      go (e.downloaded_chunks == u64 (e.n_chunks + u64_mod - 1) && can_complete e.state)
        (finish_job_lem e' d unix path open_file)
    where
      counted : Engine F
      counted = record e { downloaded_chunks = u64 (e.downloaded_chunks + 1) }

      go :
          (last : Bool)
          → ((r : Engine F × Disk) × (finish_job counted d unix ≡ returns r)
              × (rest r.0 ≡ (completed, e.n_chunks, u64 (e.downloaded_chunks + 1), e.chunks)))
          → (r : Engine F × Disk) × ((if last
                then finish_job counted d unix
                else returns (counted, d))
              ≡ returns r)
            × (rest r.0 ≡ (
              if last then completed else e.state,
              e.n_chunks,
              u64 (e.downloaded_chunks + 1),
              e.chunks,
            ))
      go true done = done
      go false done = ((counted, d), refl, refl)

-- The counter of finished chunks is what it counts.
pub record IsTallied {F : Type 0} (e : Engine F) : Type 0 where
  pub sized : length e.chunks ≡ e.n_chunks
  pub bounded : e.n_chunks < u64_mod
  pub counted : e.downloaded_chunks ≡ count_finished e.chunks

module _ (D : Floats) where
  open D use {F}

  report-tally :
      (e : Engine F) (now now' chunk_id : ℕ) (chunk : ChunkInfo)
      → tally (report D e now now' chunk_id chunk) ≡ tally e
  unfolding report measure
  report-tally e now now' chunk_id chunk =
      if_both (λ (e' : Engine F). tally e' ≡ tally e) (measures D e now now') _ _ refl refl

  -- The state, the number of chunks, the count and the chunks once a chunk has received bytes.
  abbrev counted : Bool → Tally → DownloadState × ℕ × ℕ × List ChunkInfo
  counted is_full (state, n_chunks, count, chunks, writer) = (
    if is_full
        then if count == u64 (n_chunks + u64_mod - 1) && can_complete state
          then completed
          else state
        else state,
    n_chunks,
    if is_full then u64 (count + 1) else count,
    chunks,
  )

  count_if_finished_lem :
      (e : Engine F) (d : Disk) (unix : ℕ) (chunk : ChunkInfo) (path : Bytes)
      → e.writer ≡ some path
      → (r : Engine F × Disk) × (count_if_finished D chunk unix (e, d) ≡ returns r)
        × (rest r.0 ≡ counted (is_finished chunk) (tally e))
  unfolding count_if_finished
  count_if_finished_lem e d unix chunk path open_file =
      go (is_finished chunk) (count_chunk_lem e d unix path open_file)
    where
      go :
          (is_full : Bool)
          → ((r : Engine F × Disk) × (count_chunk e d unix ≡ returns r)
              × (rest r.0 ≡ counted true (tally e)))
          → (r : Engine F × Disk) × ((if is_full then count_chunk e d unix else returns (e, d))
              ≡ returns r)
            × (rest r.0 ≡ counted is_full (tally e))
      go true done = done
      go false done = ((e, d), refl, refl)

  notify_chunk_lem :
      (e : Engine F) (d : Disk) (now now' unix unix' chunk_id bytes : ℕ) (chunk : ChunkInfo)
      (path : Bytes)
      → e.writer ≡ some path
      → (r : Engine F × Disk) × (notify_chunk D e d now now' unix unix' chunk_id bytes chunk
          ≡ returns r)
        × (rest r.0
            ≡ counted
                (is_finished chunk)
                (e.state, e.n_chunks, e.downloaded_chunks, set e.chunks chunk_id chunk, e.writer))
  unfolding notify_chunk add_bytes
  notify_chunk_lem e d now now' unix unix' chunk_id bytes chunk path open_file =
      let added = add_bytes e chunk_id chunk bytes in
      let reported = report D added now now' chunk_id chunk in
      let t = report-tally added now now' chunk_id chunk in
      let (s, stored, ks) =
        store_due_lem reported d unix bytes path (ap (λ t. t.4) t ∙ open_file) in
      let ts : tally s.0 ≡ tally reported = ap tally_of ks in
      let (r, done, tr) =
        count_if_finished_lem s.0 s.1 unix' chunk path (ap (λ t. t.4) (ts ∙ t) ∙ open_file) in
      (
        r,
        ap (λ m. m >>= λ saved. count_if_finished D chunk unix' saved) stored ∙ done,
        tr ∙ ap (counted (is_finished chunk)) (ts ∙ t),
      )

  -- Bytes for a chunk that is not finished, while the output file is open: the call returns, the chunk
  -- has received them, the counter of finished chunks is right again, and a job that was downloading,
  -- paused or failed is completed exactly when all its chunks are finished; no other state changes.
  pub notify_chunk_received_lem :
      (e : Engine F) (d : Disk) (now now' unix unix' chunk_id bytes : ℕ) (old : ChunkInfo)
      (path : Bytes)
      → IsTallied e
      → e.writer ≡ some path
      → get_elem? e.chunks chunk_id ≡ some old
      → is_finished old ≡ false
      → (r : Engine F × Disk) × (notify_chunk_received D e d now now' unix unix' chunk_id bytes
          ≡ returns r)
        × (r.0.chunks ≡ set e.chunks chunk_id (update_received old bytes))
        × IsTallied (r.0)
        × (r.0.state ≡ (
            if count_finished r.0.chunks == r.0.n_chunks && can_complete e.state
            then completed
            else e.state))
  unfolding notify_chunk_received add_bytes
  notify_chunk_received_lem e d now now' unix unix' chunk_id bytes old path t open_file found
        open_chunk =
      let new = update_received old bytes in
      let (r, done, tr) =
        notify_chunk_lem e d now now' unix unix' chunk_id bytes new path open_file in
      let chunks : r.0.chunks ≡ set e.chunks chunk_id new = ap (λ t. t.3) tr in
      let n : r.0.n_chunks ≡ e.n_chunks = ap (λ t. t.1) tr in
      let count = ap (λ t. t.2) tr in
      let now_counted : r.0.downloaded_chunks ≡ count_finished (set e.chunks chunk_id new) =
        count
        ∙ ap (λ k. if is_finished new then u64 (k + 1) else k) t.counted
        ∙ count_after e.chunks chunk_id e.n_chunks old new t.sized t.bounded found open_chunk in
      (
        r,
        ap
              (λ o. or_throw o >>= λ c.
                notify_chunk D e d now now' unix unix' chunk_id bytes (update_received c bytes))
              found
            ∙ done,
        chunks,
        record {
          sized = ap length chunks ∙ length-set e.chunks chunk_id new ∙ t.sized ∙ sym n;
          bounded = omega (arith, t.bounded, n);
          counted = now_counted ∙ sym (ap count_finished chunks);
        },
        ap (λ t. t.0) tr
            ∙ ap (completes (is_finished new)) t.counted
            ∙ completed_after e.chunks chunk_id e.n_chunks old new e.state t.sized t.bounded found
                open_chunk
            ∙ sym (ap (λ (p : ℕ × List ChunkInfo). all_done p.0 p.1) (ap (λ t. (t.1, t.3)) tr)),
      )
    where
      completes : Bool → ℕ → DownloadState
      completes is_full count =
          if is_full
          then if count == u64 (e.n_chunks + u64_mod - 1) && can_complete e.state
            then completed
            else e.state
          else e.state

      all_done : ℕ → List ChunkInfo → DownloadState
      all_done n cs = if count_finished cs == n && can_complete e.state then completed else e.state
