-- ===== src/Types.antt =====
-- include/muld/muld.h: addresses, errors, states and what the callbacks are told.
use muld.Prelude.{ℕ, Bool, true, false, List, [], ◌∷◌, ◌++◌, is_empty, if◌then◌else◌}
use muld.Prelude.Int.{ℤ}
use muld.Prelude.Bytes.{Bytes, codes}

pub record Url : Type 0 where
  pub scheme : Bytes
  pub host : Bytes
  pub port : Bytes
  pub path : Bytes

pub data ErrorCode : Type 0 where
  ok not_initialized invalid_state invalid_request http_error disk_error network_error : ErrorCode
  system_error duplicate_job fetch_file_info_failed connection_refused : ErrorCode
  disk_write_failed max_redirects_exceeded not_supported : ErrorCode

abbrev pub is_ok : ErrorCode → Bool
is_ok ok = true
is_ok _ = false

-- `GetErrorPrefix`.
unfoldable pub error_prefix : ErrorCode → Bytes
error_prefix ok = codes "Ok"
error_prefix not_initialized = codes "Component not initialized"
error_prefix invalid_state = codes "Invalid state"
error_prefix invalid_request = codes "Invalid request"
error_prefix http_error = codes "HTTP error"
error_prefix disk_error = codes "Disk error"
error_prefix network_error = codes "Network error"
error_prefix system_error = codes "System error"
error_prefix duplicate_job = codes "Duplicate job"
error_prefix fetch_file_info_failed = codes "Cannot fetch file head"
error_prefix connection_refused = codes "Connection refused"
error_prefix disk_write_failed = codes "Cannot write to destination disk"
error_prefix max_redirects_exceeded = codes "Exceeded maximum HTTP redirects"
error_prefix not_supported = codes "Not supported request"

pub record MuldError : Type 0 where
  pub code : ErrorCode
  pub http_status : ℤ
  pub detail : Bytes

-- `GetFormattedMessage`.
unfoldable pub formatted_message : MuldError → Bytes
formatted_message e =
    if is_ok e.code
    then codes "No error"
    else if is_empty e.detail
    then error_prefix e.code
    else error_prefix e.code ++ (codes ": " ++ e.detail)

pub data DownloadState : Type 0 where
  initialized queued downloading completed failed paused canceled : DownloadState

pub DownloadState-discrete : Discrete DownloadState
DownloadState-discrete = hlevel

pub record DownloadProgress (F : Type 0) : Type 0 where
  pub total_bytes : ℕ
  pub downloaded_bytes : ℕ
  pub speed_bytes_per_sec : ℕ
  pub eta_seconds : ℕ
  pub percentage : F

pub record ChunkProgressEvent : Type 0 where
  pub chunk_id : ℕ
  pub downloaded_bytes : ℕ
  pub total_bytes : ℕ
  pub finished : Bool

pub record ChunkProgress : Type 0 where
  pub downloaded_bytes : ℕ
  pub total_bytes : ℕ

-- The calls of `DownloadCallbacks`, and which of its functions are set.
pub data CallbackEvent (F : Type 0) : Type 0 where
  on_progress : DownloadProgress F → CallbackEvent F
  on_chunk_progress : ChunkProgressEvent → CallbackEvent F
  on_state_change : DownloadState → CallbackEvent F
  on_finish : CallbackEvent F
  on_error : MuldError → CallbackEvent F

pub record DownloadCallbacks : Type 0 where
  pub has_progress : Bool
  pub has_chunk_progress : Bool
  pub has_state_change : Bool
  pub has_finish : Bool
  pub has_error : Bool

-- `if (cb) cb(...)`: what a call site does with the callback that the event is for.
abbrev pub is_set : {F : Type 0} → DownloadCallbacks → CallbackEvent F → Bool
is_set cbs (on_progress p) = cbs.has_progress
is_set cbs (on_chunk_progress e) = cbs.has_chunk_progress
is_set cbs (on_state_change s) = cbs.has_state_change
is_set cbs on_finish = cbs.has_finish
is_set cbs (on_error e) = cbs.has_error

abbrev pub calls : {F : Type 0} → DownloadCallbacks → CallbackEvent F → List (CallbackEvent F)
calls cbs e = if is_set cbs e then e ∷ [] else []
