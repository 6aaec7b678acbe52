-- ===== src/Handler.antt =====
-- src/download_handler.cpp: the handle of a download, which outlives and precedes its engine. The
-- engine it shares with the manager stands in it; what the engine tells its callbacks is delivered to
-- the handle before the operation that caused it returns.
use muld.Prelude.{
  ℕ, suc, ◌+◌, ◌-◌, Bool, true, false, not, Option, none, some, List, [], ◌∷◌, ◌++◌, map, length,
  set, replicate, if◌then◌else◌, leb,
}
use muld.Prelude.Int.{pos}
use muld.Prelude.Bytes.{Bytes}
use muld.Prelude.Floats.{Floats}
use muld.Types.{
  Url, ErrorCode, is_ok, MuldError, DownloadState, initialized, queued, downloading, completed,
  failed, paused, canceled, DownloadProgress, ChunkProgress, CallbackEvent, on_progress,
  on_chunk_progress, on_state_change, on_finish, on_error, DownloadCallbacks, calls,
}
use muld.Disk.{Disk}
use muld.Chunk.{ChunkInfo, total_size}
use muld.Connections.{Connections}
use muld.Engine.{Engine, is_done, no_error, attach_callbacks}
use muld.Engine.Control.{pause, cancel}
use muld.Engine.Launch.{resume, set_limit}
pub mod Before
pub mod Mirror
mod Tests

-- `IsTerminalState`.
abbrev pub is_terminal : DownloadState → Bool
is_terminal completed = true
is_terminal failed = true
is_terminal canceled = true
is_terminal paused = true
is_terminal _ = false

-- `SharedState`, and the calls of the user's callbacks.
pub record Handler (F : Type 0) : Type 0 where
  pub url : Url
  pub output_path : Bytes
  pub callbacks : DownloadCallbacks
  pub state : DownloadState
  pub desired_state : DownloadState
  pub desired_speed_limit_bps : ℕ
  pub error : MuldError
  pub engine : Option (Engine F)
  pub progress : DownloadProgress F
  pub chunks : List ChunkProgress
  pub told : List (CallbackEvent F)

abbrev pub all_callbacks : DownloadCallbacks
all_callbacks = record {
  has_progress = true;
  has_chunk_progress = true;
  has_state_change = true;
  has_finish = true;
  has_error = true;
}

abbrev chunk_progress : ChunkInfo → ChunkProgress
chunk_progress c = record { downloaded_bytes = c.received; total_bytes = total_size c }

-- `chunks.resize(id + 1)` where it is too short, and the assignment.
abbrev pub put_chunk : List ChunkProgress → ℕ → ChunkProgress → List ChunkProgress
put_chunk chunks i c =
    set
      (chunks
        ++ replicate (suc i - length chunks) (record { downloaded_bytes = 0; total_bytes = 0 }))
      i c

module _ {F : Type 0} where
  -- What the engine's callbacks note.
  abbrev pub note : Handler F → CallbackEvent F → Handler F
  note h (on_progress p) = record h { progress = p }
  note h (on_chunk_progress e) = record h {
    chunks =
        put_chunk h.chunks e.chunk_id
          (record { downloaded_bytes = e.downloaded_bytes; total_bytes = e.total_bytes });
  }
  note h (on_state_change s) = record h { state = s }
  note h on_finish = record h { state = completed }
  note h (on_error e) = record h { error = e; state = failed }

  -- One callback of the engine, and all that an operation called.
  unfoldable pub deliver : Handler F → CallbackEvent F → Handler F
  deliver h event =
      let noted = note h event in record noted { told = noted.told ++ calls noted.callbacks event }

  unfoldable pub deliver_all : Handler F → List (CallbackEvent F) → Handler F
  deliver_all h [] = h
  deliver_all h (event ∷ events) = deliver_all (deliver h event) events

  -- The handle after an operation left its engine with the events that are not delivered yet.
  unfoldable pub settle : Handler F → Engine F → Handler F
  settle h e = deliver_all (record h { engine = some (record e { events = [] }) }) e.events

  unfoldable pub fail_before_engine_start : Handler F → ErrorCode → Bytes → Handler F
  fail_before_engine_start h code detail = record h {
    error = err;
    state = failed;
    desired_state = failed;
    told = h.told ++ calls h.callbacks (on_error err);
  }
    where
      err : MuldError
      err = record { code = code; http_status = pos 0; detail = detail }

  unfoldable pub attach_handler_callbacks : Handler F → DownloadCallbacks → Handler F
  attach_handler_callbacks h callbacks = record h { callbacks = callbacks }

  -- `Pause` and `Cancel` without and with an engine.
  abbrev pub pause_engine : Handler F → Option (Engine F) → Handler F
  pause_engine h none = record h { state = paused }
  pause_engine h (some e) = settle h (pause e).1

  unfoldable pub pause_handler : Handler F → Handler F
  pause_handler h = pause_engine (record h { desired_state = paused }) h.engine

  abbrev pub cancel_engine : Handler F → Disk → Option (Engine F) → Handler F × Disk
  cancel_engine h d none = (record h { state = canceled }, d)
  cancel_engine h d (some e) = (settle h (cancel e d).1, (cancel e d).2)

  unfoldable pub cancel_handler : Handler F → Disk → Handler F × Disk
  cancel_handler h d = cancel_engine (record h { desired_state = canceled }) d h.engine

  -- `IsFinished`, `HasError`, and whether `WaitUntilFinished` returns without waiting.
  unfoldable pub is_finished_handler : Handler F → Bool
  is_finished_handler h = is_terminal h.state

  unfoldable pub has_error : Handler F → Bool
  has_error h = not (is_ok h.error.code)

  abbrev pub done_waiting : DownloadState → Option (Engine F) → Bool
  done_waiting s none = is_terminal s
  done_waiting s (some e) = is_done e

  unfoldable pub returns_at_once : Handler F → Bool
  returns_at_once h = done_waiting h.state h.engine

module _ (D : Floats) where
  open D use {F, ratio}

  unfoldable pub new_handler : Url → Bytes → DownloadCallbacks → Handler F
  new_handler url output_path callbacks = record {
    url = url;
    output_path = output_path;
    callbacks = callbacks;
    state = initialized;
    desired_state = initialized;
    desired_speed_limit_bps = 0;
    error = no_error;
    engine = none;
    progress = record {
      total_bytes = 0;
      downloaded_bytes = 0;
      speed_bytes_per_sec = 0;
      eta_seconds = 0;
      percentage = ratio 0 1;
    };
    chunks = [];
    told = [];
  }

  -- `Resume`: `drained` and `started` are those of the engine.
  module _ (drained started : Engine F → Engine F) (now : ℕ) where
    abbrev pub resume_engine : Handler F → Option (Engine F) → Handler F
    resume_engine h none = record h { state = queued }
    resume_engine h (some e) = settle h (resume D drained started now e).1

    unfoldable pub resume_handler : Handler F → Handler F
    resume_handler h = resume_engine (record h { desired_state = queued }) h.engine

    -- The request that was made before the engine was there.
    abbrev pub catch_up : DownloadState → Handler F → Disk → Engine F → Handler F × Disk
    catch_up canceled h d e = cancel_engine h d (some e)
    catch_up paused h d e = (pause_engine h (some e), d)
    catch_up queued h d e = (resume_engine h (some e), d)
    catch_up _ h d e = (h, d)

    -- `AttachEngine`.
    unfoldable pub attach_engine : Handler F → Disk → Engine F → Handler F × Disk
    attach_engine h d e = catch_up h.desired_state attached d engine
      where
        engine : Engine F
        engine = set_limit D (attach_callbacks e all_callbacks) h.desired_speed_limit_bps now

        attached : Handler F
        attached = record h {
          engine = some engine;
          url = engine.url;
          progress = record (h.progress) { total_bytes = engine.file_size };
          chunks = map chunk_progress engine.chunks;
        }

  abbrev pub limit_engine : Handler F → ℕ → ℕ → Option (Engine F) → Handler F
  limit_engine h limit now none = h
  limit_engine h limit now (some e) = record h { engine = some (set_limit D e limit now) }

  -- `SetSpeedLimit`.
  unfoldable pub set_speed_limit_handler : Handler F → ℕ → ℕ → Handler F
  set_speed_limit_handler h limit now =
      limit_engine (record h { desired_speed_limit_bps = limit }) limit now h.engine

abbrev pub limit_of : {F : Type 0} → ℕ → Option (Engine F) → ℕ
limit_of desired none = desired
limit_of desired (some e) = e.rate.speed_limit_bps

-- `GetSpeedLimit`.
unfoldable pub get_speed_limit : {F : Type 0} → Handler F → ℕ
get_speed_limit h = limit_of h.desired_speed_limit_bps h.engine
