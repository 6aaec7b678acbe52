-- ===== src/Url.antt =====
-- src/url.h and src/url.cpp: reading and printing addresses. A text is its bytes; `npos` is `none`.
use muld.Prelude.{
  ℕ, zero, suc, ◌+◌, ◌-◌, ◌≡◌, Bool, true, false, not, ◌&&◌, ◌||◌, Option, none, some, List, [],
  ◌∷◌, ◌++◌, length, take, drop, is_empty, eq_bytes, if◌then◌else◌, ltb, ◌==◌, min, get_elem?,
}
use muld.Prelude.Bytes.{Bytes, codes}
use muld.Types.{Url}
pub mod Find
pub mod RoundTrip
mod Tests
use Find.{find_char, find_text, char_at}

-- `substr(pos, len)` and `substr(pos)`.
abbrev pub substr : ℕ → ℕ → Bytes → Bytes
substr pos len s = take len (drop pos s)

-- The earlier of two positions, where `none` is no position.
abbrev pub earlier : Option ℕ → Option ℕ → Option ℕ
earlier none q = q
earlier (some p) none = some p
earlier (some p) (some q) = some (min p q)

pub record Parts : Type 0 where
  pub host_port : Bytes
  pub path : Bytes

-- Where the host and port end: at the first slash, question mark or hash.
unfoldable pub host_end : ℕ → Bytes → Option ℕ
host_end pos s =
    earlier (earlier (find_char b'/' pos s) (find_char b'?' pos s)) (find_char b'#' pos s)

unfoldable pub cut_host : ℕ → Bytes → Option ℕ → Parts
cut_host pos s none = record { host_port = drop pos s; path = codes "/" }
cut_host pos s (some stop) =
    if ltb pos stop
    then record {
      host_port = substr pos (stop - pos) s;
      path = if char_at s stop == b'/' then drop stop s else b'/' ∷ drop stop s;
    }
    else record { host_port = drop pos s; path = codes "/" }

abbrev pub split_path : ℕ → Bytes → Parts
split_path pos s = cut_host pos s (host_end pos s)

-- The default port of a scheme, as `ParseUrl` fills it in.
abbrev pub default_port : Bytes → Bytes
default_port scheme = if eq_bytes scheme (codes "https") then codes "443" else codes "80"

unfoldable pub cut_port : Bytes → Parts → Option ℕ → Url
cut_port scheme parts none = record {
  scheme = scheme;
  host = parts.host_port;
  port = default_port scheme;
  path = parts.path;
}
cut_port scheme parts (some colon) = record {
  scheme = scheme;
  host = substr 0 colon parts.host_port;
  port = drop (colon + 1) parts.host_port;
  path = parts.path;
}

abbrev pub split_port : Bytes → Parts → Url
split_port scheme parts = cut_port scheme parts (find_char b':' 0 parts.host_port)

unfoldable pub parse_from : Bytes → Option ℕ → Url
parse_from s none = split_port (codes "http") (split_path 0 s)
parse_from s (some scheme_end) = split_port (substr 0 scheme_end s) (split_path (scheme_end + 3) s)

abbrev pub parse_nonempty : Bytes → Url
parse_nonempty s = parse_from s (find_text (codes "://") s)

-- `ParseUrl`; `none` is the exception.
unfoldable pub parse_url : Bytes → Option Url
parse_url s = if is_empty s then none else some (parse_nonempty s)

abbrev pub is_default_port : Url → Bool
is_default_port url =
    (eq_bytes url.scheme (codes "http") && eq_bytes url.port (codes "80"))
    || (eq_bytes url.scheme (codes "https") && eq_bytes url.port (codes "443"))

abbrev pub scheme_prefix : Url → Bytes
scheme_prefix url = if is_empty url.scheme then [] else url.scheme ++ codes "://"

abbrev pub port_suffix : Url → Bytes
port_suffix url = if is_empty url.port || is_default_port url then [] else b':' ∷ url.port

abbrev pub path_suffix : Bytes → Bytes
path_suffix [] = []
path_suffix (c ∷ path) = if c == b'/' then c ∷ path else b'/' ∷ c ∷ path

-- `GetUrlString`.
unfoldable pub url_string : Url → Bytes
url_string url = scheme_prefix url ++ (url.host ++ (port_suffix url ++ path_suffix url.path))
