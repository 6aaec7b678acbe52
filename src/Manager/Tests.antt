-- ===== src/Manager/Tests.antt =====
-- A small plan, and a server that redirects once.
use muld.Prelude.{ℕ, zero, suc, ◌≡◌, ◌<◌, refl, true, some, [], arith, eq_bytes}
use muld.Prelude.Bytes.{codes}
use muld.Types.{Url}
use muld.Outcome.{returns}
use muld.Chunk.{make_chunks}
use muld.Chunk.Layout.{Tiles}
use muld.Url.{parse_url, parse_from, cut_port, cut_host, host_end}
use muld.Url.Find.{find_text, is_prefix, find_char}
use muld.Manager.{
  FileInfo, FetchResult, redirect, successful, plan_chunks, resolve_validated_file_info,
  is_supported,
}
use muld.Manager.Plan.{plan_chunks-Tiles}
use muld.Manager.Redirects.{Chain, last, hop, resolve_validated_file_info-Chain}

abbrev file : FileInfo
file = record {
  total_size = 5000000;
  supports_range = true;
  is_valid = true;
  etag = [];
  last_modified = [];
}

plan_chunks-Tiles_example :
    (0 < plan_chunks file 8) × Tiles 0 0 (make_chunks 5000000 (plan_chunks file 8)) 5000000
plan_chunks-Tiles_example = plan_chunks-Tiles file 8 (omega arith) (omega arith)

abbrev start_url : Url
start_url = record { scheme = codes "http"; host = codes "h"; port = codes "80"; path = codes "/" }

abbrev server : ℕ → Url → FetchResult
server zero url = redirect (codes "k")
server (suc attempt) url = successful file

abbrev next_url : Url
next_url = record { scheme = codes "http"; host = codes "k"; port = codes "80"; path = codes "/" }

next_url_parsed : parse_url (codes "k") ≡ some next_url
unfolding parse_url parse_from find_text is_prefix cut_port find_char cut_host host_end eq_bytes
next_url_parsed = refl

redirected_once : Chain server 3 0 start_url file next_url
redirected_once =
    hop 2 0 start_url next_url next_url file (codes "k") refl next_url_parsed
      (last 1 1 next_url file refl)

resolve_validated_file_info-Chain_example :
    resolve_validated_file_info server start_url ≡ returns (some file, next_url)
resolve_validated_file_info-Chain_example =
    (resolve_validated_file_info-Chain server start_url file next_url).1 redirected_once

abbrev empty_answer : ℕ → Url → FetchResult
empty_answer attempt url = redirect []

start_url_supported : is_supported start_url ≡ true
unfolding eq_bytes
start_url_supported = refl
