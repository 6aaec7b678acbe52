-- ===== src/Engine/Launch.antt =====
-- src/download_engine.cpp: the two constructors, `Start`, `Resume` and `SetSpeedLimit`.
use muld.Prelude.{ℕ, ◌+◌, Bool, true, false, some, List, [], ◌∷◌, length, if◌then◌else◌}
use muld.Prelude.Int.{ℤ, pos}
use muld.Prelude.Bytes.{Bytes, u64}
use muld.Prelude.Floats.{Floats}
use muld.Types.{Url, initialized, queued, DownloadCallbacks}
use muld.Outcome.{Outcome, returns, ◌>>=◌, or_throw}
use muld.Url.{parse_url}
use muld.Disk.{Disk, open_writer}
use muld.JobImage.{ChunkState, JobImage, empty_index}
use muld.Chunk.{ChunkInfo, make_chunks, build_pending_work}
use muld.Connections.{new_connections}
use muld.Rate.{new_rate, set_speed_limit}
use muld.Engine.{Engine, no_error, set_state}
use muld.Engine.Control.{build_work}

-- The chunks of an image, with the index in the image as id.
unfoldable pub load_chunks : ℕ → List ChunkState → List ChunkInfo
load_chunks i [] = []
load_chunks i (c ∷ cs) =
    record {
      chunk_id = i;
      start_range = c.start_range;
      end_range = c.end_range;
      received = u64 c.downloaded;
    }
    ∷ load_chunks (i + 1) cs

-- The sum that `already_downloaded` accumulates.
unfoldable pub already_downloaded : List ChunkState → ℕ
already_downloaded [] = 0
already_downloaded (c ∷ cs) = u64 (c.downloaded + already_downloaded cs)

module _ (D : Floats) where
  open D use {F, ratio}

  unfoldable pub reset_speed : Engine F → ℕ → Engine F
  reset_speed e now = record e {
    speed = record {
      last_calc_time = now;
      last_progress_time = now;
      bytes_since_calc = 0;
      download_speed = ratio 0 1;
      eta = ratio 0 1;
      smoothed_speed = ratio 0 1;
    };
  }

  -- What `Start` and `Resume` do once no connection is scheduled, up to `start_download_`.
  unfoldable pub prepare : Engine F → ℕ → Engine F
  prepare e now =
      reset_speed
        (build_work (record e { connections = record (e.connections) { release_budget = pos 0 } }))
        now

  -- `Start` and `Resume`, whose text is the same. `drained` is what other threads do to the job until
  -- no connection is scheduled, and `start_download` the callback.
  unfoldable pub start :
      (Engine F → Engine F) → (Engine F → Engine F) → ℕ → Engine F → Bool × Engine F
  start drained start_download now e =
      let (done, e') = set_state queued e in
      if done then (true, start_download (prepare (drained e') now)) else (false, e)

  unfoldable pub resume :
      (Engine F → Engine F) → (Engine F → Engine F) → ℕ → Engine F → Bool × Engine F
  resume drained start_download now e =
      let (done, e') = set_state queued e in
      if done then (true, start_download (prepare (drained e') now)) else (false, e)

  -- `SetSpeedLimit`.
  unfoldable pub set_limit : Engine F → ℕ → ℕ → Engine F
  set_limit e limit now = record e { rate = set_speed_limit D e.rate limit now }

  -- What the constructor of a new download sets.
  unfoldable pub fresh : Url → Bytes → ℤ → ℕ → Bool → ℕ → DownloadCallbacks → ℕ → ℕ → Engine F
  fresh url output_path max_connections file_size ranged n_chunks callbacks now unix = record {
    state = initialized;
    ranged = ranged;
    error = no_error;
    url = url;
    output_path = output_path;
    file_size = file_size;
    total_received = 0;
    writer = some output_path;
    etag = [];
    last_modified = [];
    created_at = unix;
    updated_at = unix;
    image_index = empty_index;
    image_stored = false;
    artifacts_cleaned = false;
    n_chunks = n_chunks;
    received_since_store = 0;
    downloaded_chunks = 0;
    chunks = make_chunks file_size n_chunks;
    pending_work = [];
    next_work_item = 0;
    connections = new_connections ranged max_connections;
    speed = record {
      last_calc_time = now;
      last_progress_time = now;
      bytes_since_calc = 0;
      download_speed = ratio 0 1;
      eta = ratio 0 1;
      smoothed_speed = ratio 0 1;
    };
    rate = new_rate D now;
    callbacks = callbacks;
    events = [];
  }

  -- The constructor of a new download: it throws when the output file cannot be opened.
  unfoldable pub new_engine :
      Url → Bytes → ℤ → ℕ → Bool → ℕ → DownloadCallbacks → ℕ → ℕ → Disk → Outcome (Engine F × Disk)
  new_engine url output_path max_connections file_size ranged n_chunks callbacks now unix d = do
    d' ← or_throw (open_writer d output_path file_size)
    returns (
      reset_speed
          (fresh url output_path max_connections file_size ranged n_chunks callbacks now unix) now,
      d',
    )

  unfoldable pub loaded : JobImage → DownloadCallbacks → ℕ → Url → Engine F
  loaded image callbacks now url = record {
    state = initialized;
    ranged = image.ranged;
    error = no_error;
    url = url;
    output_path = image.file_path;
    file_size = image.file_size;
    total_received = already_downloaded image.chunks;
    writer = some image.file_path;
    etag = image.etag;
    last_modified = image.last_modified;
    created_at = image.created_at;
    updated_at = image.updated_at;
    image_index = empty_index;
    image_stored = true;
    artifacts_cleaned = false;
    n_chunks = length image.chunks;
    received_since_store = already_downloaded image.chunks;
    downloaded_chunks = (build_pending_work (load_chunks 0 image.chunks)).1;
    chunks = load_chunks 0 image.chunks;
    pending_work = [];
    next_work_item = 0;
    connections = new_connections image.ranged image.max_connections;
    speed = record {
      last_calc_time = now;
      last_progress_time = now;
      bytes_since_calc = 0;
      download_speed = ratio 0 1;
      eta = ratio 0 1;
      smoothed_speed = ratio 0 1;
    };
    rate = new_rate D now;
    callbacks = callbacks;
    events = [];
  }

  -- The constructor of a download that an image describes: it throws when the address does not parse
  -- or the output file cannot be opened.
  unfoldable pub load_engine : JobImage → DownloadCallbacks → ℕ → Disk → Outcome (Engine F × Disk)
  load_engine image callbacks now d = do
    url ← or_throw (parse_url image.url)
    d' ← or_throw (open_writer d image.file_path image.file_size)
    returns (loaded image callbacks now url, d')
