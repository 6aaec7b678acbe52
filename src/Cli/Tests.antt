-- ===== src/Cli/Tests.antt =====
-- Small arguments, bars and events.
use muld.Prelude.{get_elem?, length, ℕ, ◌≡◌, false, none, some, List, [], ◌∷◌, arith}
use muld.Prelude.Bytes.{Bytes, codes}
use muld.Prelude.Table.{nat_eq, lookup}
use muld.Prelude.Floats.{milli}
use muld.Types.{ChunkProgress, ChunkProgressEvent}
use muld.Prelude.Decimal.{decimal}
use muld.Prelude.Int.{pos}
use muld.Cli.Text.{extract_filename, async_default}
use muld.Cli.Arguments.{accepted, async_options}
use muld.Cli.Arguments.Order.{async_options-IsComplete}
use muld.Cli.Bar.{build_global_progress_bar, build_progress_bar}
use muld.Cli.Bar.Within.{AreWithin, build_progress_bar-Draws}
use muld.Cli.Active.{on_chunks, no_chunks}
use muld.Cli.Active.Latest.{latest, shown, or_zero, bytes_of, width, on_chunks-latest}

async_options-IsComplete_example :
    async_options (λ text. none) (codes "-c" ∷ decimal 8 ∷ (b'h' ∷ codes "/f.zip") ∷ [])
    ≡ accepted (record {
      url = b'h' ∷ codes "/f.zip";
      out = extract_filename async_default (b'h' ∷ codes "/f.zip");
      max_threads = pos 8;
      speed_limit_bps = 0;
    })
async_options-IsComplete_example =
    (async_options-IsComplete (λ text. none) [] 8 b'h' (codes "/f.zip") (omega arith)
      (λ e. absurd (omega arith))).4

abbrev done_chunk : ℕ → ChunkProgress
done_chunk n = record { downloaded_bytes = n; total_bytes = n }

abbrev chunks : List ChunkProgress
chunks = done_chunk 3 ∷ done_chunk 4 ∷ []

chunks_within : AreWithin 7 0 chunks
unfolding AreWithin
chunks_within = omega arith

build_progress_bar-Draws_example :
    ((bar : Bytes) × (build_progress_bar chunks 7 10 ≡ some bar) × (length bar ≡ 10))
    × ((bar : Bytes) × (build_global_progress_bar milli chunks 7 10 ≡ some bar) × (length bar ≡ 10))
build_progress_bar-Draws_example =
    build_progress_bar-Draws milli chunks 7 10 chunks_within (omega arith) (omega arith)
      (omega arith) (omega arith)

abbrev event : ℕ → ChunkProgressEvent
event n = record { chunk_id = 2; downloaded_bytes = n; total_bytes = 9; finished = false }

abbrev events : List ChunkProgressEvent
events = event 3 ∷ event 5 ∷ []

on_chunks-latest_example :
    let v = on_chunks no_chunks events in
    (lookup 2 v.active ≡ shown (latest 2 events) none)
    × (or_zero (get_elem? v.all 2) ≡ bytes_of (latest 2 events) (or_zero none))
    × (length v.all ≡ width 0 events)
on_chunks-latest_example = on_chunks-latest events 2
