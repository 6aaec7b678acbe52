-- ===== src/Cli/Active.antt =====
-- The chunks that are running: the callback `on_chunk` and the line of active chunks in
-- src/muld_cli_async.cpp, and the line of src/muld_cli_polling.cpp. Ids of chunks fit an `int`; a map is
-- gone through in the order of its list.
use muld.Prelude.{
  ℕ, suc, ◌+◌, ◌-◌, ◌*◌, ◌/◌, ◌≡◌, Bool, true, false, Option, none, some, List, [], ◌∷◌, ◌++◌,
  length, if◌then◌else◌, ◌==◌, ltb, ◌&&◌,
}
use muld.Prelude.Bytes.{Bytes, codes, u64}
use muld.Prelude.Decimal.{decimal}
use muld.Prelude.Floats.{Floats}
use muld.Prelude.Table.{nat_eq, lookup, insert, erase}
use muld.Types.{ChunkProgress, ChunkProgressEvent}
use muld.Handler.{put_chunk}
use muld.Cli.Text.{cut_line}
use muld.Cli.Bar.{is_partial}
pub mod Latest

pub record View : Type 0 where
  pub all : List ChunkProgress
  pub active : List (ℕ × ChunkProgress)

abbrev pub progress_of : ChunkProgressEvent → ChunkProgress
progress_of e = record { downloaded_bytes = e.downloaded_bytes; total_bytes = e.total_bytes }

-- `on_chunk`.
unfoldable pub on_chunk : View → ChunkProgressEvent → View
on_chunk v e = record {
  all = put_chunk v.all e.chunk_id (progress_of e);
  active =
      if e.finished then erase e.chunk_id v.active else insert e.chunk_id (progress_of e) v.active;
}

unfoldable pub on_chunks : View → List ChunkProgressEvent → View
on_chunks v [] = v
on_chunks v (e ∷ events) = on_chunks (on_chunk v e) events

abbrev pub no_chunks : View
no_chunks = record { all = []; active = [] }

-- The percentages; none for the division by 0.
abbrev pub add_entry : ℕ → ℕ → ℕ → Option Bytes → Option Bytes
add_entry id percent total none = none
add_entry id percent total (some rest) =
    if total == 0
    then none
    else some (
        codes "["
        ++ (decimal id ++ (codes ":" ++ (decimal (percent / total) ++ (codes "%] " ++ rest)))))

unfoldable pub entries : List (ℕ × ChunkProgress) → Option Bytes
entries [] = some []
entries ((id, c) ∷ active) =
    add_entry id (u64 (c.downloaded_bytes * 100)) c.total_bytes (entries active)

abbrev pub cut_entries : ℕ → Option Bytes → Option Bytes
cut_entries n none = none
cut_entries n (some text) = some (cut_line 100 (decimal n ++ (codes " Active Chunks: " ++ text)))

-- The line of the asynchronous tool.
unfoldable pub active_line : View → Option Bytes
active_line v = cut_entries (length v.active) (entries v.active)

module _ (D : Floats) where
  unfoldable pub polling_entries : ℕ → List ChunkProgress → ℕ × Bytes
  polling_entries i [] = (0, [])
  polling_entries i (c ∷ chunks) =
      let rest = polling_entries (i + 1) chunks in
      let percent =
        D.truncate (
          D.mul (D.div (D.ratio c.downloaded_bytes 1) (D.ratio c.total_bytes 1)) (D.ratio 100 1)) in
      if is_partial c
      then (
        rest.0 + 1,
        codes "[" ++ (decimal i ++ (codes ": " ++ (decimal percent ++ (codes "%] " ++ rest.1)))),
      )
      else rest

  -- The line of the polling tool.
  unfoldable pub polling_line : List ChunkProgress → Bytes
  polling_line chunks =
      let (n, text) = polling_entries 0 chunks in
      cut_line 80 (decimal n ++ (codes " Active Chunks: " ++ text))

  -- The speed and the remaining time that the polling tool shows: the totals over the chunks, the
  -- smoothed speed and the time, from the time since the last tick.
  pub record Shown : Type 0 where
    pub smoothed_speed : D.F
    pub eta : D.F

  unfoldable pub smooth_shown : D.F → D.F → ℕ → D.F → D.F → ℕ → ℕ → Shown
  smooth_shown smoothed alpha delta elapsed zero_speed size downloaded =
      if D.ltb zero_speed elapsed
      then record {
        smoothed_speed = speed;
        eta =
            if D.ltb zero_speed speed && ltb downloaded size
            then D.div (D.ratio (size - downloaded) 1) speed
            else zero_speed;
      }
      else record { smoothed_speed = smoothed; eta = zero_speed }
    where
      instant : D.F
      instant = D.div (D.ratio delta 1) elapsed

      speed : D.F
      speed =
          if D.eqb smoothed zero_speed
          then instant
          else D.add (D.mul instant alpha) (D.mul smoothed (D.sub (D.ratio 1 1) alpha))

unfoldable pub chunk_totals : List ChunkProgress → ℕ × ℕ
chunk_totals [] = (0, 0)
chunk_totals (c ∷ chunks) =
    let (downloaded, size) = chunk_totals chunks in
    (u64 (c.downloaded_bytes + downloaded), u64 (c.total_bytes + size))
