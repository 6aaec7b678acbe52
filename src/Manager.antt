-- ===== src/Manager.antt =====
-- src/muld_download_manager.cpp: what the dispatcher decides before it makes a job. The request to the
-- server (`FetchFileInfo`) is a parameter.
use muld.Prelude.{
  ℕ, zero, suc, ◌+◌, ◌-◌, ◌*◌, ◌/◌, Bool, true, false, not, ◌&&◌, ◌||◌, Option, none, some, List,
  ◌++◌, if◌then◌else◌, ltb, leb, ◌==◌, max, min, eq_bytes, is_empty,
}
use muld.Prelude.Int.{ℤ, pos, ltb_ℤ, max_ℤ, min_ℤ, clamp_ℤ}
use muld.Prelude.Bytes.{Bytes, codes, u64, u64_mod}
use muld.Types.{Url, ErrorCode, not_supported, max_redirects_exceeded}
use muld.Outcome.{Outcome, returns, throws, or_throw, ◌>>=◌}
use muld.Url.{parse_url}
use muld.JobImage.{JobImage}
pub mod Plan
pub mod Redirects
pub mod Control
pub mod Terminate
pub mod Requests
pub mod Load
mod Tests

-- src/file_info.h.
pub record FileInfo : Type 0 where
  pub total_size : ℕ
  pub supports_range : Bool
  pub is_valid : Bool
  pub etag : Bytes
  pub last_modified : Bytes

pub record FetchError : Type 0 where
  pub error_code : ErrorCode
  pub https_status_code : ℕ
  pub message : Bytes

pub data FetchResult : Type 0 where
  fetch_failed : FetchError → FetchResult
  redirect : Bytes → FetchResult
  successful : FileInfo → FetchResult

abbrev pub max_redirect_allow : ℕ
max_redirect_allow = 3

abbrev pub min_chunk_size : ℕ
min_chunk_size = 1 * 1024 * 1024

abbrev pub max_chunk_size : ℕ
max_chunk_size = 10 * 1024 * 1024

abbrev pub per_job_connection_cap : ℤ
per_job_connection_cap = pos 8

-- `MatchesStoredFile`.
unfoldable pub matches_stored_file : JobImage → FileInfo → Bool
matches_stored_file img info =
    if ltb 0 img.file_size && ltb 0 info.total_size && not (img.file_size == info.total_size)
    then false
    else if differ img.etag info.etag
    then false
    else not (differ img.last_modified info.last_modified)
  where
    differ : Bytes → Bytes → Bool
    differ a b = not (is_empty a) && not (is_empty b) && not (eq_bytes a b)

-- `ComputeMaxConnections`. The quotient of `double`s is exact for limits below 2 ^ 51, from where on
-- the conversion to `int` is undefined.
unfoldable pub compute_max_connections : Bool → ℕ → ℤ → ℤ
compute_max_connections supports_range speed_limit_bps global_capacity =
    if not supports_range || not (ltb_ℤ (pos 1) global_capacity)
    then pos 1
    else if speed_limit_bps == 0
    then cap
    else clamp_ℤ (pos (by_speed + 1)) (pos 1) cap
  where
    cap : ℤ
    cap = max_ℤ (pos 1) (min_ℤ global_capacity per_job_connection_cap)

    by_speed : ℕ
    by_speed = (speed_limit_bps + 1024 * 1024 - 1) / (1024 * 1024)

-- `ComputeInitialDesiredConnections`.
unfoldable pub compute_initial_desired_connections : ℕ → ℤ → ℤ
compute_initial_desired_connections speed_limit_bps max_connections =
    if not (ltb_ℤ (pos 1) max_connections)
    then pos 1
    else if ltb 0 speed_limit_bps && leb speed_limit_bps (512 * 1024)
    then pos 1
    else min_ℤ (pos 2) max_connections

-- The number of chunks that the dispatcher chooses, an `int`: exact below 2 ^ 31.
unfoldable pub actual_chunk_size : ℕ → ℕ → ℕ
actual_chunk_size total_size max_connections =
    max min_chunk_size (min max_chunk_size (total_size / (max_connections * 4)))

unfoldable pub plan_chunks : FileInfo → ℕ → ℕ
plan_chunks info max_connections =
    if info.supports_range && ltb 0 info.total_size
    then u64 (info.total_size + size + u64_mod - 1) / size
    else 1
  where
    size : ℕ
    size = actual_chunk_size info.total_size max_connections

-- `ResolveValidatedFileInfo`: the information and the address that it was found under. `fetch`
-- answers the request of an attempt.
abbrev pub resolve_answer :
    Url → FetchResult → (Url → Outcome (Option FileInfo × Url)) → Outcome (Option FileInfo × Url)
resolve_answer url (successful info) again = returns (some info, url)
resolve_answer url (fetch_failed e) again = returns (none, url)
resolve_answer url (redirect new_url) again = or_throw (parse_url new_url) >>= again

unfoldable pub resolve : (ℕ → Url → FetchResult) → ℕ → ℕ → Url → Outcome (Option FileInfo × Url)
resolve fetch zero attempt url = returns (none, url)
resolve fetch (suc left) attempt url =
    resolve_answer url (fetch attempt url) (λ url'. resolve fetch left (attempt + 1) url')

unfoldable pub resolve_validated_file_info :
    (ℕ → Url → FetchResult) → Url → Outcome (Option FileInfo × Url)
resolve_validated_file_info fetch url = resolve fetch max_redirect_allow 0 url

-- The loop of the dispatcher for a download: how it ends, and the address it ends with.
pub data Probe : Type 0 where
  found : FileInfo → Url → Probe
  refused : ErrorCode → Bytes → Probe

abbrev pub is_supported : Url → Bool
is_supported url = eq_bytes url.scheme (codes "http") || eq_bytes url.scheme (codes "https")

abbrev pub probe_answer : Url → FetchResult → (Url → Outcome Probe) → Outcome Probe
probe_answer url (successful info) again = returns (found info url)
probe_answer url (fetch_failed e) again = returns (refused e.error_code e.message)
probe_answer url (redirect new_url) again = or_throw (parse_url new_url) >>= again

unfoldable pub probe : (ℕ → Url → FetchResult) → ℕ → ℕ → Url → Outcome Probe
probe fetch zero attempt url =
    returns (refused max_redirects_exceeded (codes "Exceeded max redirects"))
probe fetch (suc left) attempt url =
    if is_supported url
    then probe_answer url (fetch attempt url) (λ url'. probe fetch left (attempt + 1) url')
    else returns (refused not_supported (url.scheme ++ codes " is not supported!"))
