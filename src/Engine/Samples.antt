-- ===== src/Engine/Samples.antt =====
-- A small job for the tests: two chunks of four and two bytes, the first with three received.
use muld.Prelude.{arith, eq_bytes, ℕ, true, false, some, List, [], ◌∷◌}
use muld.Prelude.Int.{pos}
use muld.Prelude.Bytes.{codes}
use muld.Types.{Url, DownloadState, downloading, DownloadCallbacks}
use muld.Disk.{Disk}
use muld.JobImage.{empty_index}
use muld.Chunk.{ChunkInfo}
use muld.Engine.{Engine, no_error}
use muld.JobImage.RoundTrip.{IsStorable}
use muld.Engine.Storage.{job_image}
use muld.Url.{url_string}

abbrev pub first_chunk : ChunkInfo
first_chunk = record { chunk_id = 0; start_range = 0; end_range = 3; received = 3 }

abbrev pub second_chunk : ChunkInfo
second_chunk = record { chunk_id = 1; start_range = 4; end_range = 5; received = 2 }

abbrev pub every_callback : DownloadCallbacks
every_callback = record {
  has_progress = true;
  has_chunk_progress = true;
  has_state_change = true;
  has_finish = true;
  has_error = true;
}

abbrev pub file_url : Url
file_url = record { scheme = codes "http"; host = codes "h"; port = codes "80"; path = codes "/f" }

abbrev pub job_in : DownloadState → List ChunkInfo → ℕ → Engine ℕ
job_in state chunks finished = record {
  state = state;
  ranged = true;
  error = no_error;
  url = file_url;
  output_path = codes "f";
  file_size = 6;
  total_received = 5;
  writer = some (codes "f");
  etag = [];
  last_modified = [];
  created_at = 1;
  updated_at = 1;
  image_index = empty_index;
  image_stored = false;
  artifacts_cleaned = false;
  n_chunks = 2;
  received_since_store = 5;
  downloaded_chunks = finished;
  chunks = chunks;
  pending_work = [];
  next_work_item = 0;
  connections = record {
    n_connections = pos 0;
    scheduled = pos 0;
    min_connections = pos 1;
    max_connections = pos 4;
    desired = pos 2;
    release_budget = pos 0;
  };
  speed = record {
    last_calc_time = 0;
    last_progress_time = 0;
    bytes_since_calc = 0;
    download_speed = 0;
    eta = 0;
    smoothed_speed = 0;
  };
  rate = record {
    speed_limit_bps = 0;
    tokens = 0;
    last_refill = 0;
    wait_ns_window = 0;
    samples_window = 0;
  };
  callbacks = every_callback;
  events = [];
}

abbrev pub job : Engine ℕ
job = job_in downloading (first_chunk ∷ second_chunk ∷ []) 1

abbrev pub empty_disk : Disk
empty_disk = record { files = []; writable = λ path. true }

pub job-IsStorable : (c : ℕ) → IsStorable 1000 (job_image job 9 (c ∷ []))
unfolding job_image url_string eq_bytes
job-IsStorable c = record {
  limit_fits = omega arith;
  file_size = omega arith;
  max_above = omega arith;
  max_below = omega arith;
  created_at = omega arith;
  updated_at = omega arith;
  file_path = omega arith;
  url = omega arith;
  etag = omega arith;
  last_modified = omega arith;
  chunk_count = omega arith;
  chunks = ((omega arith, omega arith, omega arith), ((omega arith, omega arith, omega arith), tt));
}
