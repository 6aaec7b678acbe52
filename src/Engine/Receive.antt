-- ===== src/Engine/Receive.antt =====
-- `NotifyChunkReceived` of src/download_engine.cpp. `now` and `now'` are the two readings of the
-- steady clock, `unix` and `unix'` those of the system clock in the two calls of `Store`; `float`
-- and `double` are one type.
use muld.Prelude.{ℕ, ◌+◌, ◌-◌, Bool, true, false, ◌&&◌, get_elem?, set, if◌then◌else◌, ltb, ◌==◌}
use muld.Prelude.Bytes.{u64, u64_mod}
use muld.Prelude.Floats.{Floats}
use muld.Types.{
  DownloadState, downloading, completed, failed, paused, DownloadProgress, ChunkProgressEvent,
  on_progress, on_chunk_progress, on_finish,
}
use muld.Outcome.{Outcome, returns, or_throw, ◌>>=◌}
use muld.Disk.{Disk}
use muld.Chunk.{ChunkInfo, total_size, update_received, is_finished}
use muld.Engine.{Engine, emit}
use muld.Engine.Storage.{needs_store, store, cleanup}

-- The states from which the last chunk completes the job.
abbrev pub can_complete : DownloadState → Bool
can_complete downloading = true
can_complete paused = true
can_complete failed = true
can_complete _ = false

abbrev pub chunk_event : ℕ → ChunkInfo → ChunkProgressEvent
chunk_event chunk_id chunk = record {
  chunk_id = chunk_id;
  downloaded_bytes = chunk.received;
  total_bytes = total_size chunk;
  finished = is_finished chunk;
}

module _ {F : Type 0} where
  -- The chunk counts, the total and the bytes since the last measurement.
  unfoldable pub add_bytes : Engine F → ℕ → ChunkInfo → ℕ → Engine F
  add_bytes e chunk_id chunk bytes = record e {
    chunks = set e.chunks chunk_id chunk;
    total_received = u64 (e.total_received + bytes);
    speed = record (e.speed) { bytes_since_calc = u64 (e.speed.bytes_since_calc + bytes) };
  }

  -- The count towards the next store, and the store when it is due.
  unfoldable pub store_due : Engine F → Disk → ℕ → ℕ → Outcome (Engine F × Disk)
  store_due e d unix bytes =
      let e' = record e { received_since_store = u64 (e.received_since_store + bytes) } in
      if needs_store e' then store e' d unix else returns (e', d)

  -- What the last chunk does.
  unfoldable pub finish_stored : Engine F × Disk → Engine F × Disk
  finish_stored (stored, d) =
      let (cleaned, d') = cleanup stored d false in (emit cleaned on_finish, d')

  unfoldable pub finish_job : Engine F → Disk → ℕ → Outcome (Engine F × Disk)
  finish_job e d unix = do
    saved ← store (record e { state = completed }) d unix
    returns (finish_stored saved)

  unfoldable pub count_chunk : Engine F → Disk → ℕ → Outcome (Engine F × Disk)
  count_chunk e d unix =
      let e' = record e { downloaded_chunks = u64 (e.downloaded_chunks + 1) } in
      if e.downloaded_chunks == u64 (e.n_chunks + u64_mod - 1) && can_complete e.state
      then finish_job e' d unix
      else returns (e', d)

module _ (D : Floats) where
  open D use {F, add, sub, mul, div, ratio, truncate, ltb as fltb, leb as fleb}

  abbrev pub zero_float : F
  zero_float = ratio 0 1

  abbrev pub one_float : F
  one_float = ratio 1 1

  abbrev pub seconds : ℕ → F
  seconds ns = ratio ns 1_000_000_000

  -- `dt > 0.5` for the time since the last measurement.
  abbrev pub is_due : Engine F → ℕ → Bool
  is_due e now = fltb (ratio 5 10) (seconds (now - e.speed.last_calc_time))

  -- An exponential average, which starts with its first positive value.
  abbrev pub smooth : F → F → F → F
  smooth alpha old new =
      if fleb old zero_float then new else add (mul (sub one_float alpha) old) (mul alpha new)

  abbrev pub next_eta : ℕ → F → F → F
  next_eta remaining smoothed old =
      if remaining == 0
      then zero_float
      else if fltb one_float smoothed
      then smooth (ratio 30 100) old (div (ratio remaining 1) smoothed)
      else old

  -- The speed, the smoothed speed and the remaining time.
  unfoldable pub measure : Engine F → ℕ → Engine F
  measure e now = record e {
    speed = record {
      last_calc_time = now;
      last_progress_time = e.speed.last_progress_time;
      bytes_since_calc = 0;
      download_speed = instant;
      eta = next_eta (e.file_size - e.total_received) smoothed e.speed.eta;
      smoothed_speed = smoothed;
    };
  }
    where
      instant : F
      instant = div (ratio e.speed.bytes_since_calc 1) (seconds (now - e.speed.last_calc_time))

      smoothed : F
      smoothed = smooth (ratio 25 100) e.speed.smoothed_speed instant

  -- The two tests of the clock.
  unfoldable pub measures : Engine F → ℕ → ℕ → Bool
  measures e now now' = is_due e now && is_due e now'

  abbrev pub progress : Engine F → DownloadProgress F
  progress e = record {
    total_bytes = e.file_size;
    downloaded_bytes = e.total_received;
    speed_bytes_per_sec = truncate e.speed.download_speed;
    eta_seconds = truncate e.speed.eta;
    percentage =
        if ltb 0 e.file_size
        then mul (div (ratio e.total_received 1) (ratio e.file_size 1)) (ratio 100 1)
        else zero_float;
  }

  -- The measurement and the two progress callbacks.
  unfoldable pub report : Engine F → ℕ → ℕ → ℕ → ChunkInfo → Engine F
  report e now now' chunk_id chunk =
      let measured = emit (measure e now') (on_chunk_progress (chunk_event chunk_id chunk)) in
      let plain = emit e (on_chunk_progress (chunk_event chunk_id chunk)) in
      if measures e now now' then emit measured (on_progress (progress measured)) else plain

  unfoldable pub count_if_finished : ChunkInfo → ℕ → Engine F × Disk → Outcome (Engine F × Disk)
  count_if_finished chunk unix (e, d) =
      if is_finished chunk then count_chunk e d unix else returns (e, d)

  -- What follows the update of the chunk.
  unfoldable pub notify_chunk :
      Engine F → Disk → ℕ → ℕ → ℕ → ℕ → ℕ → ℕ → ChunkInfo → Outcome (Engine F × Disk)
  notify_chunk e d now now' unix unix' chunk_id bytes chunk = do
    let reported = report (add_bytes e chunk_id chunk bytes) now now' chunk_id chunk
    saved ← store_due reported d unix bytes
    count_if_finished chunk unix' saved

  unfoldable pub notify_chunk_received :
      Engine F → Disk → ℕ → ℕ → ℕ → ℕ → ℕ → ℕ → Outcome (Engine F × Disk)
  notify_chunk_received e d now now' unix unix' chunk_id bytes = do
    old ← or_throw (get_elem? e.chunks chunk_id)
    notify_chunk e d now now' unix unix' chunk_id bytes (update_received old bytes)
