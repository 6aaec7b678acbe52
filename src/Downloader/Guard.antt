-- ===== src/Downloader/Guard.antt =====
-- The calls of a worker on its job, from ConnectionGuard's first to its last.
use muld.Prelude.{◌⊎◌, ◌↔◌, ℕ, ◌≡◌, Bool, false, Option, none, some, List, [], ◌∷◌, ◌++◌, true}
use muld.Prelude.Bytes.{Bytes}
use muld.Types.{MuldError, Url}
use muld.Chunk.{WorkItem}
use muld.Manager.{is_supported}
use muld.Connections.{Connections, open_connection, close_connection}
use muld.Downloader.Request.{Exception}
use muld.Downloader.Worker.{
  caught_setup, unsupported, caught, chunk_finished, thrown, download_chunk, Turn, WorkerEnding,
  ends, goes_on, fails, JobCall, notify_open, notify_close, notify_received, fail_job,
  received_calls,
}

-- Bytes for chunks, and after them at most one failure.
abbrev pub IsMiddle : List JobCall → Type 0
IsMiddle [] = Unit {0}
IsMiddle (notify_received i n ∷ calls) = IsMiddle calls
IsMiddle (fail_job e ∷ calls) = calls ≡ []
IsMiddle (notify_open ∷ calls) = ⊥
IsMiddle (notify_close ∷ calls) = ⊥

-- What a call does to the counters of connections.
abbrev pub counted : JobCall → Connections → Connections
counted notify_open c = open_connection c
counted notify_close c = close_connection c
counted (notify_received i n) c = c
counted (fail_job e) c = c

unfoldable pub all_counted : List JobCall → Connections → Connections
all_counted [] c = c
all_counted (call ∷ calls) c = all_counted calls (counted call c)

-- A worker gets to an item whose download ends with an exception: it is not released before, and all
-- items before it are finished.
unfoldable pub Throws : Url → Bool → List Turn → Bool → Bytes → Exception → Type 0
Throws url ranged [] connected file e = ⊥
Throws url ranged (t ∷ turns) connected file e =
    (t.release ≡ false)
    × (w : WorkItem) × (t.item ≡ some w)
    × (let run = download_chunk url ranged w.range_end t.attempts w.range_start connected file in
        (run.ending ≡ thrown e)
        ⊎ ((run.ending ≡ chunk_finished) × Throws url ranged turns run.is_connected run.file e))

-- What a worker has to fail its job with.
abbrev pub Fails : Option Exception → Url → Bool → List Turn → Bytes → MuldError → Type 0
Fails (some e) url ranged turns file m = m ≡ caught_setup e
Fails none url ranged turns file m =
    ((is_supported url ≡ false) × (m ≡ unsupported url))
    ⊎ ((is_supported url ≡ true)
        × (e : Exception) × Throws url ranged turns false file e
        × (m ≡ caught e))

abbrev pub fail_of : Option MuldError → List JobCall
fail_of none = []
fail_of (some m) = fail_job m ∷ []

failure_of : WorkerEnding → Option MuldError
failure_of ends = none
failure_of goes_on = none
failure_of (fails e) = some (caught e)

-- The calls between the first and the last, and why they are so.
abbrev Explained : Option Exception → Url → Bool → List Turn → Bytes → List JobCall → Type 0
Explained setup url ranged turns file inner =
    (received : List (ℕ × ℕ)) × (failure : Option MuldError) × (inner
      ≡ received_calls received ++ fail_of failure)
    × ((m : MuldError) → (failure ≡ some m) ↔ Fails setup url ranged turns file m)
