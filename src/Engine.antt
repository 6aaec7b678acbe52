-- ===== src/Engine.antt =====
-- src/download_engine.h and src/download_engine.cpp: one download job. An atomic exchange in a loop
-- is one step; what other threads do between two steps is outside these functions. The clocks are
-- arguments: `now` of the steady clock in nanoseconds, `unix` of the system clock in seconds.
use muld.Prelude.{
  ℕ, zero, suc, ◌+◌, ◌-◌, ◌*◌, ◌≡◌, Bool, true, false, not, ◌&&◌, ◌||◌, Option, none, some, List,
  [], ◌∷◌, ◌++◌, map, length, get_elem?, set, if◌then◌else◌, leb, ltb, ◌==◌,
}
use muld.Prelude.Int.{ℤ, pos, ltb_ℤ}
use muld.Prelude.Bytes.{Bytes, codes, u64, u64_mod}
use muld.Prelude.Floats.{Floats}
use muld.Types.{
  Url, ErrorCode, ok, MuldError, DownloadState, initialized, queued, downloading, completed, failed,
  paused, canceled, CallbackEvent, on_state_change, on_error, DownloadCallbacks, calls,
}
use muld.Outcome.{Outcome, returns, throws, null_pointer, ◌>>=◌, or_throw, or_null}
use muld.Url.{url_string, parse_url}
use muld.Disk.{Disk, open_writer, remove_file}
use muld.JobImage.{ChunkState, JobImage, JobImageIndex, empty_index, write_image, update_image}
use muld.Chunk.{ChunkInfo, is_finished, make_chunks, update_received, WorkItem, build_pending_work}
use muld.Connections.{
  Connections, new_connections, set_desired, set_bounds, open_connection, close_connection,
}
use muld.Rate.{Rate, new_rate, set_speed_limit}
pub mod Storage
pub mod Control
pub mod Launch
pub mod Receive
pub mod States
pub mod Restart
pub mod Canceled
pub mod Idle
pub mod Tally
pub mod Follows
pub mod Once
pub mod Finish
pub mod Storing
pub mod Samples
mod Tests

-- The speed and the remaining time, as `NotifyChunkReceived` measures them.
pub record Speed (F : Type 0) : Type 0 where
  pub last_calc_time : ℕ
  pub last_progress_time : ℕ
  pub bytes_since_calc : ℕ
  pub download_speed : F
  pub eta : F
  pub smoothed_speed : F

pub record Engine (F : Type 0) : Type 0 where
  pub state : DownloadState
  pub ranged : Bool
  pub error : MuldError
  pub url : Url
  pub output_path : Bytes
  pub file_size : ℕ
  pub total_received : ℕ
  -- The path of the open output file; `none` once `writer_` was reset.
  pub writer : Option Bytes
  pub etag : Bytes
  pub last_modified : Bytes
  pub created_at : ℕ
  pub updated_at : ℕ
  pub image_index : JobImageIndex
  pub image_stored : Bool
  pub artifacts_cleaned : Bool
  pub n_chunks : ℕ
  pub received_since_store : ℕ
  pub downloaded_chunks : ℕ
  pub chunks : List ChunkInfo
  pub pending_work : List WorkItem
  pub next_work_item : ℕ
  pub connections : Connections
  pub speed : Speed F
  pub rate : Rate F
  pub callbacks : DownloadCallbacks
  -- The callbacks that were called, the latest last.
  pub events : List (CallbackEvent F)

abbrev pub no_error : MuldError
no_error = record { code = ok; http_status = pos 0; detail = [] }

abbrev pub image_suffix : Bytes
image_suffix = codes ".muld"

abbrev pub store_threshold : ℕ
store_threshold = 10 * 1024 * 1024

-- `SetState`: from which states each state is entered.
abbrev pub allows : DownloadState → DownloadState → Bool
allows queued initialized = true
allows queued paused = true
allows queued canceled = true
allows queued failed = true
allows queued _ = false
allows downloading queued = true
allows downloading _ = false
allows paused downloading = true
allows paused queued = true
allows paused _ = false
allows canceled downloading = true
allows canceled queued = true
allows canceled paused = true
allows canceled failed = true
allows canceled _ = false
allows failed downloading = true
allows failed queued = true
allows failed _ = false
allows initialized _ = true
allows completed _ = true

abbrev pub is_queued : DownloadState → Bool
is_queued queued = true
is_queued _ = false

abbrev pub is_canceled : DownloadState → Bool
is_canceled canceled = true
is_canceled _ = false

-- The states that `IsFinished` names.
abbrev pub is_settled : DownloadState → Bool
is_settled canceled = true
is_settled paused = true
is_settled completed = true
is_settled failed = true
is_settled _ = false

abbrev pub is_zero_ℤ : ℤ → Bool
is_zero_ℤ z = not (ltb_ℤ z (pos 0)) && not (ltb_ℤ (pos 0) z)

abbrev pub to_chunk_state : ChunkInfo → ChunkState
to_chunk_state c = record {
  start_range = c.start_range;
  end_range = c.end_range;
  downloaded = c.received;
}

module _ {F : Type 0} where
  abbrev pub emit : Engine F → CallbackEvent F → Engine F
  emit e event = record e { events = e.events ++ calls e.callbacks event }

  unfoldable pub set_state : DownloadState → Engine F → Bool × Engine F
  set_state next e =
      if allows next e.state
      then (true, emit (record e { state = next }) (on_state_change next))
      else (false, e)

  -- `SetValidators`, `AttachCallbacks`, `SetUrl`.
  unfoldable pub set_validators : Engine F → Bytes → Bytes → Engine F
  set_validators e etag last_modified = record e { etag = etag; last_modified = last_modified }

  unfoldable pub attach_callbacks : Engine F → DownloadCallbacks → Engine F
  attach_callbacks e callbacks = record e { callbacks = callbacks }

  unfoldable pub set_url : Engine F → Url → Engine F
  set_url e url = record e { url = url }

  -- `GetIdentityKey`.
  unfoldable pub identity_key : Engine F → Bytes
  identity_key e = e.output_path ++ (codes "\n" ++ url_string e.url)

  -- `SetConnectionBounds`, `SetDesiredConnections`.
  unfoldable pub set_connection_bounds : Engine F → ℤ → ℤ → Engine F
  set_connection_bounds e lo hi = record e { connections = set_bounds e.ranged e.connections lo hi }

  unfoldable pub set_desired_connections : Engine F → ℤ → Engine F
  set_desired_connections e desired = record e { connections = set_desired e.connections desired }

  -- `GetNextWorkItem`.
  unfoldable pub next_item : Engine F → Option WorkItem × Engine F
  next_item e = (
    get_elem? e.pending_work e.next_work_item,
    record e { next_work_item = e.next_work_item + 1 },
  )

  -- `GetChunkInfo`.
  unfoldable pub chunk_info : Engine F → ℕ → Outcome ChunkInfo
  chunk_info e index = if leb e.n_chunks index then throws else or_throw (get_elem? e.chunks index)

  -- `IsFinished`.
  unfoldable pub is_done : Engine F → Bool
  is_done e = e.downloaded_chunks == e.n_chunks || is_settled e.state
