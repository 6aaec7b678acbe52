-- ===== src/Downloader/Tests.antt =====
-- Two reads into a small file, a chunk over two connections, and what can go wrong.
use mathlib.Core.Path.{subst}
use muld.Prelude.{◌↔◌, All, take, arith, ℕ, ◌≡◌, refl, sym, true, false, none, some, List, [], ◌∷◌}
use muld.Prelude.Bytes.{Bytes, codes}
use muld.Types.{downloading}
use muld.Chunk.{WorkItem, build_pending_work, pending_from, work_item, is_finished, total_size}
use muld.Engine.{Engine, next_item}
use muld.Engine.Samples.{job, first_chunk, second_chunk, file_url}
use muld.Downloader.{Piece, goes_on, interrupted, stream_body, with_bytes}
use muld.Downloader.Body.{received, stream_body_lem}
use muld.Downloader.Request.{build_request}
use muld.Downloader.Worker.{Attempt, download_chunk, ends, worker_ends, download_items}
use muld.Downloader.Segment.{served-build_request, Answers, IsHonest, served}
use muld.Prelude.Int.{pos}
use muld.Connections.{Connections, new_connections}
use muld.Chunk.{ChunkInfo}
use muld.Downloader.Request.{validate_response}
use muld.Downloader.Kept.{IsAt, IsWhole, Keeps, AreHonest, finished_items, download_items-Keeps}
use muld.Downloader.Whole.{Covers, HasReceived, download_items-whole}
use muld.Downloader.Worker.{Turn}
use muld.Downloader.Released.{download_items-released, download_chunk-unranged}
use muld.Downloader.Fetch.{stoull, Head, replied, fetch_file_info}
use muld.Prelude.Decimal.{decimal}
use muld.Manager.{FileInfo, successful, redirect}
use muld.Downloader.Told.{Finds, Moves, HasCode, fetch_file_info_lem}

abbrev reads : List Piece
reads =
    record {
      state = downloading;
      allowed_bytes = 8;
      bytes = 1 ∷ 2 ∷ [];
      read_end = goes_on;
      write_fails = none;
    }
    ∷ record {
      state = downloading;
      allowed_bytes = 8;
      bytes = 3 ∷ [];
      read_end = interrupted;
      write_fails = some 5;
    }
    ∷ []

stream_body_lem_example :
    (stream_body reads 1 (0 ∷ 0 ∷ 0 ∷ 0 ∷ 0 ∷ [])).file
    ≡ with_bytes 1 (received reads) (0 ∷ 0 ∷ 0 ∷ 0 ∷ 0 ∷ [])
stream_body_lem_example = (stream_body_lem reads 1 (0 ∷ 0 ∷ 0 ∷ 0 ∷ 0 ∷ [])).0

abbrev content : Bytes
content = 9 ∷ 1 ∷ 2 ∷ 3 ∷ 4 ∷ 8 ∷ []

abbrev last_reads : List Piece
last_reads =
    record {
      state = downloading;
      allowed_bytes = 8;
      bytes = 4 ∷ [];
      read_end = goes_on;
      write_fails = none;
    }
    ∷ []

abbrev attempt : ℕ → List Piece → Attempt
attempt status pieces = record {
  release = false;
  state = downloading;
  connecting = none;
  exchange = none;
  response = record { status = status; reason = [] };
  pieces = pieces;
  keep_alive = true;
}

abbrev rounds : List Attempt
rounds = attempt 206 reads ∷ attempt 206 last_reads ∷ []

abbrev blank_file : Bytes
blank_file = 0 ∷ 0 ∷ 0 ∷ 0 ∷ 0 ∷ 0 ∷ []

rounds-IsHonest : IsHonest content file_url true 4 1 rounds
unfolding IsHonest Answers received stream_body
rounds-IsHonest = (
  (4 ∷ [], sym (served-build_request content file_url 1 4), λ o f e. absurd (cc)),
  (([], sym (served-build_request content file_url 4 4), λ o f e. refl), tt),
)

abbrev chunk : ℕ → ℕ → ℕ → ℕ → ChunkInfo
chunk i first last got = record {
  chunk_id = i;
  start_range = first;
  end_range = last;
  received = got;
}

-- The first and the last chunk are there, and the four bytes between them are missing.
abbrev chunks : List ChunkInfo
chunks = chunk 0 0 0 1 ∷ chunk 1 1 4 0 ∷ chunk 2 5 5 1 ∷ []

abbrev half_file : Bytes
half_file = 9 ∷ 0 ∷ 0 ∷ 0 ∷ 0 ∷ 8 ∷ []

abbrev missing_item : WorkItem
missing_item = record { work_id = 0; chunk_id = 1; range_start = 1; range_end = 4 }

abbrev missing_turns : List Turn
missing_turns = record { release = false; item = some missing_item; attempts = rounds } ∷ []

missing_turns-AreHonest : AreHonest content file_url missing_turns
missing_turns-AreHonest = (rounds-IsHonest, tt)

chunks-Covers : Covers 0 chunks 6
unfolding Covers total_size
chunks-Covers = (
  refl,
  record { within = omega arith; ordered = omega arith; counted = omega arith },
  (
    refl,
    record { within = omega arith; ordered = omega arith; counted = omega arith },
    (refl, record { within = omega arith; ordered = omega arith; counted = omega arith }, refl),
  ),
)

chunks-HasReceived : All (HasReceived content half_file) chunks
chunks-HasReceived = (
  λ j above below. let e : 0 ≡ j = omega arith in subst (IsAt content half_file) e refl,
  (
    λ j above below. absurd (omega arith),
    (λ j above below. let e : 5 ≡ j = omega arith in subst (IsAt content half_file) e refl, tt),
  ),
)

all_finished :
    finished_items file_url true missing_turns false half_file ≡ (build_pending_work chunks).0
unfolding finished_items download_chunk stream_body validate_response build_pending_work
    pending_from work_item is_finished total_size
all_finished = refl

download_items-Keeps_example :
    let after = (download_items file_url true missing_turns false half_file).file in
    Keeps content half_file after
    × All (IsWhole content after) (finished_items file_url true missing_turns false half_file)
download_items-Keeps_example =
    download_items-Keeps content file_url missing_turns false half_file missing_turns-AreHonest

download_items-whole_example :
    take 6 (download_items file_url true missing_turns false half_file).file ≡ content
download_items-whole_example =
    download_items-whole content file_url chunks missing_turns false half_file (omega arith)
      missing_turns-AreHonest chunks-Covers chunks-HasReceived all_finished

abbrev whole_read : List Piece
whole_read =
    record {
      state = downloading;
      allowed_bytes = 8;
      bytes = content;
      read_end = goes_on;
      write_fails = none;
    }
    ∷ []

whole_answer :
    Answers content
      (record {
        target = codes "/f";
        host = codes "h";
        user_agent = codes "muld/0.1";
        range = none;
      })
      whole_read
unfolding Answers received served
whole_answer = ([], refl, λ o f e. refl)

-- The worker that resumes at byte 2 writes the whole file from there on.
download_chunk-unranged_example :
    (download_chunk file_url false 5 (attempt 200 whole_read ∷ []) 2 true blank_file).file
    ≡ with_bytes 2 content blank_file
unfolding build_request stream_body
download_chunk-unranged_example =
    (download_chunk-unranged content file_url 5 2 (attempt 200 whole_read) [] true blank_file refl
      refl refl refl refl whole_answer refl).1

abbrev item : WorkItem
item = record { work_id = 0; chunk_id = 0; range_start = 3; range_end = 3 }

abbrev started_job : Engine ℕ
started_job = record job { pending_work = item ∷ []; next_work_item = 0 }

one_item : started_job.pending_work ≡ (build_pending_work (first_chunk ∷ second_chunk ∷ [])).0
unfolding build_pending_work pending_from work_item is_finished total_size
one_item = refl

item_taken : (next_item started_job).0 ≡ some item
unfolding next_item
item_taken = refl

abbrev released : Attempt
released = record (attempt 206 []) { release = true }

download_items-released_example :
    download_items file_url true
      (record { release = false; item = some item; attempts = released ∷ [] } ∷ [])
      false
      blank_file
    ≡ worker_ends ends blank_file
download_items-released_example =
    (download_items-released started_job (first_chunk ∷ second_chunk ∷ []) item released [] []
      file_url true false blank_file one_item item_taken refl).0

abbrev head : Head
head = record {
  status = 200;
  reason = codes "OK";
  accept_ranges = some (codes "bytes");
  content_length = some (codes "6");
  etag = none;
  last_modified = none;
  location = none;
}

fetch_file_info_lem_example :
    let r = fetch_file_info (codes "stoull") file_url none none (replied head none) in
    ((info : FileInfo) → (r ≡ successful info) ↔ Finds file_url none none (replied head none) info)
    × ((location : Bytes)
        → (r ≡ redirect location) ↔ Moves file_url none none (replied head none) location)
    × HasCode r
    × (stoull (decimal 6) ≡ some 6)
fetch_file_info_lem_example =
    fetch_file_info_lem (codes "stoull") file_url none none (replied head none) 6 (omega arith)

abbrev one_scheduled : Connections
one_scheduled = record (new_connections true (pos 4)) { scheduled = pos 1 }

-- The server refuses the item.
abbrev failing_turns : List Turn
failing_turns = record { release = false; item = some item; attempts = attempt 404 [] ∷ [] } ∷ []
