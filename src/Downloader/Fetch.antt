-- ===== src/Downloader/Fetch.antt =====
-- src/downloader.cpp: the HEAD request for what the server tells about a file. The connection is not
-- under src/: what it throws, and the response, are arguments.
use muld.Prelude.{
  ℕ, ◌-◌, ◌%◌, Bool, true, ◌||◌, Option, none, some, [], ◌++◌, if◌then◌else◌, leb, ◌==◌, eq_bytes,
}
use muld.Prelude.Bytes.{Bytes, codes, u64_mod}
use muld.Prelude.Decimal.{signed_number}
use muld.Types.{Url, ErrorCode, http_error, network_error, system_error, not_supported}
use muld.Manager.{FileInfo, FetchResult, fetch_failed, redirect, successful, is_supported}
use muld.Downloader.Request.{
  Exception, http_exception, disk_exception, system_exception, other_exception,
}

abbrev in_range : Option (Bool × ℕ) → Option ℕ
in_range none = none
in_range (some (minus, n)) =
    if leb u64_mod n then none else if minus then some ((u64_mod - n) % u64_mod) else some n

-- `std::stoull`; none where it throws.
unfoldable pub stoull : Bytes → Option ℕ
stoull text = in_range (signed_number text)

-- The response, and of its fields those that the code reads.
pub record Head : Type 0 where
  pub status : ℕ
  pub reason : Bytes
  pub accept_ranges : Option Bytes
  pub content_length : Option Bytes
  pub etag : Option Bytes
  pub last_modified : Option Bytes
  pub location : Option Bytes

-- `resp[field]`.
abbrev pub text_of : Option Bytes → Bytes
text_of none = []
text_of (some text) = text

-- `createFileInfo`, for the size that `stoull` gives.
abbrev pub file_info : Head → ℕ → FileInfo
file_info head size = record {
  total_size = size;
  supports_range = eq_bytes (text_of head.accept_ranges) (codes "bytes");
  is_valid = true;
  etag = text_of head.etag;
  last_modified = text_of head.last_modified;
}

abbrev with_size : Head → Option ℕ → Option FileInfo
with_size head none = none
with_size head (some size) = some (file_info head size)

unfoldable pub create_file_info : Head → Option FileInfo
create_file_info head = with_size head (stoull (text_of head.content_length))

abbrev pub is_redirection : ℕ → Bool
is_redirection status =
    status == 301 || status == 302 || status == 303 || status == 307 || status == 308

abbrev pub failure : ErrorCode → ℕ → Bytes → FetchResult
failure code status message =
    fetch_failed (record { error_code = code; https_status_code = status; message = message })

-- The `catch` clauses of FetchFileInfoImpl.
unfoldable pub fetch_caught : Exception → FetchResult
fetch_caught (system_exception what) =
    failure network_error 0 (codes "Network failure during fetch: " ++ what)
fetch_caught (http_exception status what) =
    failure system_error 0 (codes "System error during fetch: " ++ what)
fetch_caught (disk_exception what) =
    failure system_error 0 (codes "System error during fetch: " ++ what)
fetch_caught (other_exception what) =
    failure system_error 0 (codes "System error during fetch: " ++ what)

-- What writing the request and reading the response lead to; and what closing the socket throws.
pub data Exchange : Type 0 where
  broken : Exception → Exchange
  replied : Head → Option Exception → Exchange

-- `what` is the text of the exception of `stoull`.
abbrev pub close_socket : Option Exception → FetchResult → FetchResult
close_socket none result = result
close_socket (some e) result = fetch_caught e

abbrev pub found_file : Bytes → Option FileInfo → Option Exception → FetchResult
found_file what none closing = fetch_caught (other_exception what)
found_file what (some info) closing = close_socket closing (successful info)

abbrev pub redirected : ℕ → Option Bytes → FetchResult
redirected status none =
    failure http_error status (codes "Redirect response missing Location header")
redirected status (some location) = redirect location

-- `FetchFileInfoImpl`.
unfoldable pub fetch_file_info_impl : Bytes → Exchange → FetchResult
fetch_file_info_impl what (broken e) = fetch_caught e
fetch_file_info_impl what (replied head closing) =
    if head.status == 200
    then found_file what (create_file_info head) closing
    else if is_redirection head.status
    then close_socket closing (redirected head.status head.location)
    else close_socket closing (failure http_error head.status (codes "HTTP Error: " ++ head.reason))

-- The `catch` clauses of FetchFileInfo.
unfoldable pub setup_caught : Exception → FetchResult
setup_caught (system_exception what) = failure network_error 0 what
setup_caught (http_exception status what) = failure system_error 0 what
setup_caught (disk_exception what) = failure system_error 0 what
setup_caught (other_exception what) = failure system_error 0 what

abbrev pub catch_setup : Option Exception → FetchResult → FetchResult
catch_setup none result = result
catch_setup (some e) result = setup_caught e

-- `FetchFileInfo`: what resolving the host throws, what connecting throws, and the exchange.
unfoldable pub fetch_file_info :
    Bytes → Url → Option Exception → Option Exception → Exchange → FetchResult
fetch_file_info what url resolving connecting exchange =
    let answer = catch_setup connecting (fetch_file_info_impl what exchange) in
    catch_setup resolving (
      if is_supported url
      then answer
      else failure not_supported 0 (codes "scheme " ++ (url.scheme ++ codes " is not supported!")))
