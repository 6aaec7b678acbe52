-- ===== src/Downloader/Worker.antt =====
-- src/downloader.cpp: the loop of a worker over the items that it is handed, its exceptions, and the
-- worker as a whole. What it meets is a list: the answers of the job, the connection's failures, the
-- responses. What it does is the result: the requests, the file, the calls on the job. The inner loop
-- and the outer one end with their list only if nothing has answered yet.
use muld.Prelude.{
  ℕ, Bool, true, false, not, ◌||◌, Option, none, some, List, [], ◌∷◌, ◌++◌, map, if◌then◌else◌,
  eq_bytes,
}
use muld.Prelude.Int.{pos}
use muld.Prelude.Bytes.{Bytes, codes}
use muld.Prelude.Decimal.{decimal}
use muld.Types.{
  Url, MuldError, http_error, disk_error, network_error, system_error, not_supported, DownloadState,
}
use muld.Chunk.{WorkItem}
use muld.Rate.{is_downloading}
use muld.Downloader.{Piece, Ending, finished, stopped, raised, disk_failed, Streamed, stream_body}
use muld.Downloader.Request.{
  Request, build_request, Response, Exception, http_exception, disk_exception, system_exception,
  other_exception, validate_response,
}

-- One round of the inner loop. The exceptions are those of `connect_stream`, and of writing the
-- request and reading the header.
pub record Attempt : Type 0 where
  pub release : Bool
  pub state : DownloadState
  pub connecting : Option Exception
  pub exchange : Option Exception
  pub response : Response
  pub pieces : List Piece
  pub keep_alive : Bool

pub data ChunkEnding : Type 0 where
  chunk_finished returned waiting : ChunkEnding
  thrown : Exception → ChunkEnding

pub record ChunkRun : Type 0 where
  pub ending : ChunkEnding
  pub file : Bytes
  pub current_offset : ℕ
  pub is_connected : Bool
  pub requests : List Request
  -- The byte counts of the calls of NotifyChunkReceived.
  pub notified : List ℕ

abbrev pub run_ends : ChunkEnding → Bytes → ℕ → Bool → ChunkRun
run_ends ending file offset connected = record {
  ending = ending;
  file = file;
  current_offset = offset;
  is_connected = connected;
  requests = [];
  notified = [];
}

-- After `StreamBodyToDisk`; `again` is the next round, with a new connection.
abbrev pub after_body : Bool → Bool → Ending → Streamed → ChunkRun → ChunkRun
after_body ranged keep_alive finished s again =
    run_ends chunk_finished s.file s.current_offset keep_alive
after_body true keep_alive stopped s again = again
after_body false keep_alive stopped s again =
    run_ends
      (thrown (
        http_exception 0
          (codes "Connection interrupted and server does not support Range requests.")))
      s.file s.current_offset true
after_body ranged keep_alive disk_failed s again =
    run_ends
      (thrown (
        disk_exception
          (codes "Failed to write chunk data to disk at offset " ++ decimal s.current_offset)))
      s.file s.current_offset true
after_body ranged keep_alive (raised what) s again =
    run_ends (thrown (system_exception what)) s.file s.current_offset true

abbrev pub receive_body : Bool → Attempt → Streamed → ChunkRun → ChunkRun
receive_body ranged a s again =
    let after = after_body ranged a.keep_alive s.ending s again in
    record after { notified = s.notified ++ after.notified }

-- The steps that throw before there is a body.
abbrev pub unless_thrown : Option Exception → Bytes → ℕ → ChunkRun → ChunkRun
unless_thrown none file offset run = run
unless_thrown (some e) file offset run = run_ends (thrown e) file offset true

abbrev pub connect_first : Bool → Option Exception → Option Exception
connect_first true connecting = none
connect_first false connecting = connecting

module _ (url : Url) (ranged : Bool) where
  -- The inner loop, for a chunk up to `range_end`.
  unfoldable pub download_chunk : ℕ → List Attempt → ℕ → Bool → Bytes → ChunkRun
  download_chunk range_end [] offset connected file = run_ends waiting file offset connected
  download_chunk range_end (a ∷ rounds) offset connected file =
      let s = stream_body a.pieces offset file in
      let again = download_chunk range_end rounds s.current_offset false s.file in
      let run = unless_thrown a.exchange file offset (
        unless_thrown (validate_response a.response ranged) file offset
          (receive_body ranged a s again)) in
      let sent = record run {
        requests = build_request url offset range_end ranged ∷ run.requests;
      } in
      if a.release
      then run_ends returned file offset connected
      else if not (is_downloading a.state)
      then run_ends returned file offset connected
      else unless_thrown (connect_first connected a.connecting) file offset sent

-- One round of the outer loop.
pub record Turn : Type 0 where
  pub release : Bool
  pub item : Option WorkItem
  pub attempts : List Attempt

pub data WorkerEnding : Type 0 where
  ends goes_on : WorkerEnding
  fails : Exception → WorkerEnding

pub record WorkerRun : Type 0 where
  pub ending : WorkerEnding
  pub file : Bytes
  pub requests : List Request
  -- The calls of NotifyChunkReceived: the chunk and the count.
  pub received : List (ℕ × ℕ)

abbrev pub worker_ends : WorkerEnding → Bytes → WorkerRun
worker_ends ending file = record { ending = ending; file = file; requests = []; received = [] }

-- `next` is the rest of the outer loop.
abbrev pub after_chunk : ChunkEnding → Bytes → WorkerRun → WorkerRun
after_chunk chunk_finished file next = next
after_chunk returned file next = worker_ends ends file
after_chunk waiting file next = worker_ends goes_on file
after_chunk (thrown e) file next = worker_ends (fails e) file

abbrev pub add_chunk : ℕ → ChunkRun → WorkerRun → WorkerRun
add_chunk chunk_id run next =
    let after = after_chunk run.ending run.file next in
    record after {
      requests = run.requests ++ after.requests;
      received = map (λ n. (chunk_id, n)) run.notified ++ after.received;
    }

module _ (url : Url) (ranged : Bool) where
  abbrev pub take_item :
      Option WorkItem → List Attempt → Bool → Bytes → (ChunkRun → WorkerRun) → WorkerRun
  take_item none attempts connected file next = worker_ends ends file
  take_item (some w) attempts connected file next =
      let run = download_chunk url ranged w.range_end attempts w.range_start connected file in
      add_chunk w.chunk_id run (next run)

  -- The outer loop.
  unfoldable pub download_items : List Turn → Bool → Bytes → WorkerRun
  download_items [] connected file = worker_ends goes_on file
  download_items (t ∷ turns) connected file =
      let taken =
        take_item t.item t.attempts connected file
          (λ run. download_items turns run.is_connected run.file) in
      if t.release then worker_ends ends file else taken

-- The `catch` clauses of DownloadWorkerImpl.
unfoldable pub caught : Exception → MuldError
caught (http_exception status what) = record {
  code = http_error;
  http_status = pos status;
  detail = what;
}
caught (disk_exception what) = record { code = disk_error; http_status = pos 0; detail = what }
caught (system_exception what) = record {
  code = network_error;
  http_status = pos 0;
  detail = codes "Network interrupted: " ++ what;
}
caught (other_exception what) = record {
  code = system_error;
  http_status = pos 0;
  detail = codes "Unexpected system error: " ++ what;
}

-- The calls that a worker makes on its job.
pub data JobCall : Type 0 where
  notify_open notify_close : JobCall
  notify_received : ℕ → ℕ → JobCall
  fail_job : MuldError → JobCall

abbrev pub fail_call : WorkerEnding → List JobCall
fail_call ends = []
fail_call goes_on = []
fail_call (fails e) = fail_job (caught e) ∷ []

abbrev pub received_calls : List (ℕ × ℕ) → List JobCall
received_calls [] = []
received_calls ((i, n) ∷ r) = notify_received i n ∷ received_calls r

-- `DownloadWorkerImpl`: its calls, and the file.
unfoldable pub download_worker_impl : Url → Bool → List Turn → Bytes → List JobCall × Bytes
download_worker_impl url ranged turns file =
    let run = download_items url ranged turns false file in
    (received_calls run.received ++ fail_call run.ending, run.file)

-- The `catch` clauses of DownloadWorker, for what resolving the host or setting up TLS throws.
abbrev pub caught_setup : Exception → MuldError
caught_setup (system_exception what) = record {
  code = network_error;
  http_status = pos 0;
  detail = codes "DNS Resolution/Setup failed: " ++ what;
}
caught_setup (http_exception status what) = record {
  code = system_error;
  http_status = pos 0;
  detail = codes "Unexpected setup error: " ++ what;
}
caught_setup (disk_exception what) = record {
  code = system_error;
  http_status = pos 0;
  detail = codes "Unexpected setup error: " ++ what;
}
caught_setup (other_exception what) = record {
  code = system_error;
  http_status = pos 0;
  detail = codes "Unexpected setup error: " ++ what;
}

abbrev pub unsupported : Url → MuldError
unsupported url = record {
  code = not_supported;
  http_status = pos 0;
  detail = codes "Scheme " ++ (url.scheme ++ codes " is not supported");
}

abbrev pub run_scheme : Option Exception → Url → Bool → List Turn → Bytes → List JobCall × Bytes
run_scheme (some e) url ranged turns file = (fail_job (caught_setup e) ∷ [], file)
run_scheme none url ranged turns file =
    let run = download_worker_impl url ranged turns file in
    if eq_bytes url.scheme (codes "http") || eq_bytes url.scheme (codes "https")
    then run
    else (fail_job (unsupported url) ∷ [], file)

-- `DownloadWorker`, whose ConnectionGuard tells the job first and last.
unfoldable pub download_worker :
    Option Exception → Url → Bool → List Turn → Bytes → List JobCall × Bytes
download_worker setup url ranged turns file =
    let inner = run_scheme setup url ranged turns file in
    (notify_open ∷ inner.0 ++ notify_close ∷ [], inner.1)
