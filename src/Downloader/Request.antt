-- ===== src/Downloader/Request.antt =====
-- src/downloader.cpp: the request of a worker for the bytes of a chunk, and the test of the response's
-- status. Boost's request and parser are not under src/: a request is what the code sets in it, and
-- of a response there are its status and reason.
use mathlib.Core.List.{append-nil}
use muld.Prelude.{
  ℕ, ◌≡◌, ap, ◌∙◌, refl, Bool, true, false, Option, none, some, [], ◌∷◌, ◌++◌, drop, take,
  if◌then◌else◌, ◌==◌, eq_bytes,
}
use muld.Prelude.Bytes.{Bytes, codes}
use muld.Prelude.Decimal.{decimal, scan, scan-decimal}
use muld.Types.{Url}

-- The verb is GET and the version HTTP/1.1, whose connections are kept alive by default.
pub record Request : Type 0 where
  pub target : Bytes
  pub host : Bytes
  pub user_agent : Bytes
  pub range : Option Bytes

-- The value of the `Range` field.
unfoldable pub range_value : ℕ → ℕ → Bytes
range_value range_start range_end =
    codes "bytes=" ++ (decimal range_start ++ (b'-' ∷ decimal range_end))

-- `BuildRequest`.
unfoldable pub build_request : Url → ℕ → ℕ → Bool → Request
build_request url range_start range_end is_ranged = record {
  target = url.path;
  host = url.host;
  user_agent = codes "muld/0.1";
  range = if is_ranged then some (range_value range_start range_end) else none;
}

pub record Response : Type 0 where
  pub status : ℕ
  pub reason : Bytes

-- What a worker's functions throw, with the text that `what` gives.
pub data Exception : Type 0 where
  http_exception : ℕ → Bytes → Exception
  disk_exception : Bytes → Exception
  system_exception : Bytes → Exception
  other_exception : Bytes → Exception

-- `ValidateResponse`: none, or the exception.
unfoldable pub validate_response : Response → Bool → Option Exception
validate_response r true =
    if r.status == 206
    then none
    else if r.status == 200
    then some (
        http_exception r.status (codes "Server ignored Range header and want to sent entire file."))
    else some (http_exception r.status (codes "HTTP Error during chunk download: " ++ r.reason))
validate_response r false =
    if r.status == 200
    then none
    else some
        (http_exception r.status (codes "Unexpected HTTP status during download: " ++ r.reason))

-- The first and last byte that a `Range` field asks for, as RFC 7233 words a single range.
abbrev second_number : ℕ → ℕ × Bytes → Option (ℕ × ℕ)
second_number first (last, []) = some (first, last)
second_number first (last, c ∷ cs) = none

abbrev first_number : ℕ × Bytes → Option (ℕ × ℕ)
first_number (first, []) = none
first_number (first, c ∷ cs) = if c == b'-' then second_number first (scan 0 cs) else none

unfoldable pub asked_range : Bytes → Option (ℕ × ℕ)
asked_range value =
    if eq_bytes (take 6 value) (codes "bytes=") then first_number (scan 0 (drop 6 value)) else none

scan-end : (n : ℕ) → scan 0 (decimal n) ≡ (n, [])
unfolding scan
scan-end n = rw (← append-nil (decimal n)) (scan-decimal n [])

scan-dash : (n : ℕ) (cs : Bytes) → scan n (b'-' ∷ cs) ≡ (n, b'-' ∷ cs)
unfolding scan
scan-dash n cs = refl

-- The range that a request asks for is the range that it was built for.
pub asked_range-range_value : (a b : ℕ) → asked_range (range_value a b) ≡ some (a, b)
unfolding asked_range range_value eq_bytes
asked_range-range_value a b =
    ap first_number (scan-decimal a (b'-' ∷ decimal b) ∙ scan-dash a (decimal b))
    ∙ ap (second_number a) (scan-end b)
