-- ===== src/Downloader.antt =====
-- src/downloader.cpp: how a worker streams the body of a response to the output file. The reads from
-- the connection, the states of the job that are seen and the answers of AcquireReadBudget are a list;
-- the calls of NotifyChunkReceived are the byte counts that the result lists. Short writes are gone on
-- with, so a block is written as a whole or a write of it fails. Offsets are those of bytes in a file,
-- far below 2 ^ 64.
use muld.Prelude.{
  ℕ, ◌+◌, ◌-◌, Bool, true, false, not, Option, none, some, List, [], ◌∷◌, ◌++◌, length, take, drop,
  replicate, if◌then◌else◌, ltb, ◌==◌,
}
use muld.Prelude.Bytes.{Bytes}
use muld.Types.{DownloadState}
use muld.Rate.{is_downloading}
pub mod Request
pub mod Worker
pub mod Segment
pub mod Kept
pub mod Whole
pub mod Released
pub mod Fetch
pub mod Found
pub mod Told
pub mod Guard
pub mod Body
mod Tests

-- The error code after a read: none or a full buffer, an interruption, or another one.
pub data ReadEnd : Type 0 where
  goes_on interrupted : ReadEnd
  fatal : Bytes → ReadEnd

-- One round of the loop: what it sees and reads.
pub record Piece : Type 0 where
  pub state : DownloadState
  pub allowed_bytes : ℕ
  pub bytes : Bytes
  pub read_end : ReadEnd
  -- Where a write of the block fails: how many of its bytes were written before.
  pub write_fails : Option ℕ

-- How the call ends: `true`, `false`, a `system_error` with its text, or a `DiskException`.
pub data Ending : Type 0 where
  finished stopped disk_failed : Ending
  raised : Bytes → Ending

pub record Streamed : Type 0 where
  pub ending : Ending
  pub file : Bytes
  pub current_offset : ℕ
  pub notified : List ℕ

-- `pwrite`: a gap before the offset is filled with zeros.
unfoldable pub pwrite : ℕ → Bytes → Bytes → Bytes
pwrite offset bytes file =
    take offset (file ++ replicate (offset - length file) 0)
    ++ (bytes ++ drop (offset + length bytes) file)

abbrev pub notify : ℕ → List ℕ → List ℕ
notify n calls = if ltb 0 n then n ∷ calls else calls

abbrev pub ended : Ending → Bytes → ℕ → Streamed
ended ending file offset = record {
  ending = ending;
  file = file;
  current_offset = offset;
  notified = [];
}

abbrev pub go_on : ReadEnd → Bytes → ℕ → Streamed → Streamed
go_on goes_on file offset rest = rest
go_on interrupted file offset rest = ended stopped file offset
go_on (fatal what) file offset rest = ended (raised what) file offset

-- The file after some bytes, if any, were written from an offset on.
abbrev pub with_bytes : ℕ → Bytes → Bytes → Bytes
with_bytes offset bytes file = if ltb 0 (length bytes) then pwrite offset bytes file else file

-- Where a write of the block fails, if one does.
abbrev pub failing_write : Bytes → Option ℕ → Option ℕ
failing_write bytes none = none
failing_write bytes (some k) = if ltb k (length bytes) then some k else none

-- What follows the read of a block, for the way its writing goes.
abbrev pub unless_failed : Option ℕ → Piece → ℕ → Bytes → Streamed → Streamed
unless_failed none p offset file rest =
    let after = go_on p.read_end (with_bytes offset p.bytes file) (offset + length p.bytes) rest in
    record after { notified = notify (length p.bytes) after.notified }
unless_failed (some k) p offset file rest =
    ended disk_failed (with_bytes offset (take k p.bytes) file) (offset + length (take k p.bytes))

-- `StreamBodyToDisk`; the list ends when the parser is done.
unfoldable pub stream_body : List Piece → ℕ → Bytes → Streamed
stream_body [] offset file = ended finished file offset
stream_body (p ∷ ps) offset file =
    let after =
      unless_failed (failing_write p.bytes p.write_fails) p offset file
        (stream_body ps (offset + length p.bytes) (with_bytes offset p.bytes file)) in
    if not (is_downloading p.state)
    then ended stopped file offset
    else if p.allowed_bytes == 0
    then ended stopped file offset
    else after
