-- ===== src/Manager/Requests.antt =====
-- src/muld_download_manager.cpp: Download and Load, the queue of requests, and the dispatcher's round for
-- one request. A handle is shared by the caller, the manager and the request: it stands in the list of
-- handles, and a request names its place there. The engine that a round makes stands in the handle from
-- then on; the list of jobs has it as it was registered.
use mathlib.Core.Option
use muld.Prelude.{
  ℕ, ◌+◌, ◌≡◌, Bool, true, false, Option, none, some, List, [], ◌∷◌, ◌++◌, length, get_elem?, set,
  if◌then◌else◌, is_empty,
}
use muld.Prelude.Int.{ℤ, pos, pos_part}
use muld.Prelude.Bytes.{Bytes, codes}
use muld.Prelude.Floats.{Floats}
use muld.Types.{Url, MuldError, ErrorCode, invalid_request, disk_write_failed, DownloadCallbacks}
use muld.Outcome.{Outcome, returns, throws, null_pointer, or_null, ◌>>=◌}
use muld.Url.{parse_url}
use muld.Disk.{Disk}
use muld.Engine.{
  Engine, no_error, identity_key, set_connection_bounds, set_desired_connections, set_validators,
}
use muld.Engine.Launch.{new_engine, set_limit}
use muld.Handler.{
  Handler, new_handler, resume_handler, set_speed_limit_handler, fail_before_engine_start,
  attach_engine,
}
use muld.Manager.{
  FileInfo, FetchResult, Probe, found, refused, probe, max_redirect_allow, compute_max_connections,
  compute_initial_desired_connections, plan_chunks,
}
use muld.Manager.Load.{Jobs, Loaded, attached, load_request}
pub mod Started
pub mod Served
pub mod Answered
mod Tests

-- `PendingDownloadRequest`: what the kinds use of it, and the place of the handle.
pub data RequestKind : Type 0 where
  load_image : Bytes → RequestKind
  download : Url → Bytes → ℕ → RequestKind

pub record PendingRequest : Type 0 where
  pub kind : RequestKind
  pub callbacks : DownloadCallbacks
  pub handler : ℕ

pub record Requests (F : Type 0) : Type 0 where
  pub pending : List PendingRequest
  pub handlers : List (Handler F)
  pub stop_dispatcher : Bool

abbrev pub error_with : ErrorCode → Bytes → MuldError
error_with code detail = record { code = code; http_status = pos 0; detail = detail }

abbrev pub no_callbacks : DownloadCallbacks
no_callbacks = record {
  has_progress = false;
  has_chunk_progress = false;
  has_state_change = false;
  has_finish = false;
  has_error = false;
}

-- The address and the place of the handle, or the error.
pub data DownloaderResp : Type 0 where
  error_response : MuldError → DownloaderResp
  handler_response : ℕ → DownloaderResp

abbrev pub put_request :
    {F : Type 0}
    → Requests F
    → RequestKind
    → DownloadCallbacks
    → Handler F
    → DownloaderResp × Requests F
put_request m kind callbacks h = (
  handler_response (length m.handlers),
  record m {
    pending =
        m.pending
        ++ record { kind = kind; callbacks = callbacks; handler = length m.handlers } ∷ [];
    handlers = m.handlers ++ h ∷ [];
  },
)

abbrev pub connections_for : {F : Type 0} → Jobs F → FileInfo → ℕ → ℤ
connections_for m info limit = compute_max_connections info.supports_range limit m.max_threads

module _ (D : Floats) (drained started : Engine D.F → Engine D.F) (now unix : ℕ) where
  open D use {F}

  abbrev pub download_parsed :
      Requests F → Bytes → ℕ → DownloadCallbacks → Option Url → DownloaderResp × Requests F
  download_parsed m destination limit callbacks none =
      (error_response (error_with invalid_request (codes "URL cannot be empty")), m)
  download_parsed m destination limit callbacks (some url) =
      put_request m (download url destination limit) callbacks (
        set_speed_limit_handler D
          (resume_handler D drained started now (new_handler D url destination callbacks)) limit
          now)

  -- `Download`, whose texts may be null pointers.
  unfoldable pub download_call :
      Requests F → Option Bytes → Option Bytes → ℕ → DownloadCallbacks → DownloaderResp × Requests F
  download_call m (some url) (some destination) limit callbacks =
      download_parsed m destination limit callbacks (parse_url url)
  download_call m none destination limit callbacks = (
    error_response (error_with invalid_request (codes "URL and destination must not be null")),
    m,
  )
  download_call m (some url) none limit callbacks = (
    error_response (error_with invalid_request (codes "URL and destination must not be null")),
    m,
  )

  -- `Load`.
  unfoldable pub load_call : Requests F → Bytes → DownloadCallbacks → DownloaderResp × Requests F
  load_call m path callbacks =
      if is_empty path
      then (error_response (error_with invalid_request (codes "Path must not be empty")), m)
      else put_request m (load_image path) callbacks
          (new_handler D (record { scheme = []; host = []; port = []; path = [] }) path callbacks)

  -- The engine of a new download, with its connections and its limit.
  unfoldable pub set_up_download : Jobs F → FileInfo → ℕ → Engine F → Engine F
  set_up_download m info limit e =
      set_limit D (set_desired_connections (set_connection_bounds e (pos 1) most) initial) limit now
    where
      most : ℤ
      most = compute_max_connections info.supports_range limit m.max_threads

      initial : ℤ
      initial = compute_initial_desired_connections limit most

  -- What the constructor gives; its exception is a `system_error`, of the text `what`.
  unfoldable pub make_download :
      Bytes
      → Jobs F
      → FileInfo
      → ℕ
      → Disk
      → Outcome (Engine F × Disk)
      → Outcome (Loaded F × Jobs F × Disk)
  make_download what m info limit d (returns (e, d')) =
      let job = set_up_download m info limit e in
      returns (
        attached job,
        record m { jobs = m.jobs ++ job ∷ []; identities = identity_key job ∷ m.identities },
        d',
      )
  make_download what m info limit d throws = returns (Loaded.refused disk_write_failed what, m, d)
  make_download what m info limit d null_pointer = null_pointer

  -- After the probe of the server.
  abbrev pub plan_download :
      Bytes → Jobs F → Bytes → ℕ → Disk → Probe → Outcome (Loaded F × Jobs F × Disk)
  plan_download what m destination limit d (refused code message) =
      returns (Loaded.refused code message, m, d)
  plan_download what m destination limit d (found info url) = make_download what m info limit d (
      new_engine D url destination (connections_for m info limit) info.total_size
        info.supports_range (plan_chunks info (pos_part (connections_for m info limit)))
        no_callbacks now unix d)

  -- How the handle learns of the end of its request; the engine is attached, which carries out what was
  -- asked for meanwhile.
  unfoldable pub answer_handler : Handler F → Disk → Loaded F → Handler F × Disk
  answer_handler h d (Loaded.refused code message) = (fail_before_engine_start h code message, d)
  answer_handler h d (attached e) = attach_engine D drained started now h d e

  abbrev pub validated : Probe → Handler F → Handler F
  validated (refused code message) h = h
  validated (found info url) h = record h {
    engine = Option.map (λ e. set_validators e info.etag info.last_modified) h.engine;
  }

  abbrev pub answer_download :
      Probe → Handler F → Loaded F × Jobs F × Disk → Outcome (Handler F × Jobs F × Disk)
  answer_download p h (l, m, d) =
      returns (validated p (answer_handler h d l).0, m, (answer_handler h d l).1)

  abbrev pub answer_load :
      Handler F → Loaded F × Jobs F × Disk → Outcome (Handler F × Jobs F × Disk)
  answer_load h (l, m, d) = returns ((answer_handler h d l).0, m, (answer_handler h d l).1)

  abbrev pub serve_kind :
      Bytes
      → ℕ
      → (ℕ → Url → FetchResult)
      → DownloadCallbacks
      → RequestKind
      → Handler F
      → Jobs F
      → Disk
      → Outcome (Handler F × Jobs F × Disk)
  serve_kind what limit fetch callbacks (load_image path) h m d =
      load_request D callbacks now limit fetch m d path >>= answer_load h
  serve_kind what limit fetch callbacks (download url destination speed_limit) h m d =
      probe fetch max_redirect_allow 0 url >>= λ p.
      plan_download what m destination speed_limit d p >>= answer_download p h

  -- A round of the dispatcher for one request. `limit` is what a `resize` can allocate.
  unfoldable pub serve :
      Bytes
      → ℕ
      → (ℕ → Url → FetchResult)
      → PendingRequest
      → Handler F
      → Jobs F
      → Disk
      → Outcome (Handler F × Jobs F × Disk)
  serve what limit fetch request h m d =
      serve_kind what limit fetch request.callbacks request.kind h m d

  -- The rounds for the requests of a queue, on the handles that they name.
  unfoldable pub serve_all :
      Bytes
      → ℕ
      → (ℕ → Url → FetchResult)
      → List PendingRequest
      → List (Handler F)
      → Jobs F
      → Disk
      → Outcome (List (Handler F) × Jobs F × Disk)
  serve_all what limit fetch [] handlers m d = returns (handlers, m, d)
  serve_all what limit fetch (request ∷ requests) handlers m d = do
    h ← or_null (get_elem? handlers request.handler)
    (h', m', d') ← serve what limit fetch request h m d
    serve_all what limit fetch requests (set handlers request.handler h') m' d'

-- The head of the dispatcher's loop: it waits, ends, or takes the first request. What is pending when
-- the manager stops is still served.
pub data Next (F : Type 0) : Type 0 where
  waits ends : Next F
  takes : PendingRequest → Requests F → Next F

abbrev pub next_of : {F : Type 0} → Requests F → List PendingRequest → Next F
next_of m [] = if m.stop_dispatcher then ends else waits
next_of m (r ∷ rs) = takes r (record m { pending = rs })

unfoldable pub next_request : {F : Type 0} → Requests F → Next F
next_request m = next_of m m.pending
