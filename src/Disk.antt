-- ===== src/Disk.antt =====
-- The file system as src/job_image.h, src/writer.h and the engine's cleanup use it: whole files
-- under their paths. Opening a file to write it can fail; a write to an open file does not (a full
-- disk is not modelled), and neither does reading.
use muld.Prelude.{
  ℕ, ◌-◌, ◌≡◌, Bool, Option, none, some, List, [], ◌++◌, length, take, replicate, if◌then◌else◌,
  leb, arith,
}
use muld.Prelude.Bytes.{Bytes}
use muld.Prelude.Table.{bytes_eq, lookup, insert, erase, lookup-insert, lookup-erase}
use muld.Prelude.{eq_bytes, eq_bytes_refl, if_true, true, ◌∙◌}

pub record Disk : Type 0 where
  pub files : List (Bytes × Bytes)
  -- Whether the path can be opened for writing.
  pub writable : Bytes → Bool

abbrev pub read_file : Disk → Bytes → Option Bytes
read_file d path = lookup path d.files

-- `std::ofstream` with `trunc`, and what is then written.
unfoldable pub write_file : Disk → Bytes → Bytes → Option Disk
write_file d path content =
    if d.writable path then some (record d { files = insert path content d.files }) else none

-- `std::filesystem::remove`.
unfoldable pub remove_file : Disk → Bytes → Disk
remove_file d path = record d { files = erase path d.files }

abbrev pub content_or : Option Bytes → Bytes
content_or none = []
content_or (some bytes) = bytes

-- `ftruncate`: cut off, or filled up with zeros.
unfoldable pub resize : ℕ → Bytes → Bytes
resize n bytes = take n bytes ++ replicate (n - length bytes) 0

-- `open` with `O_WRONLY | O_CREAT`, then `Truncate` if the size is not 0. `none`: the constructor
-- of `Writer` throws.
unfoldable pub open_writer : Disk → Bytes → ℕ → Option Disk
unfolding write_file resize
open_writer d path total_size =
    let old = content_or (read_file d path) in
    write_file d path (if leb total_size 0 then old else resize total_size old)

pub read-write_file :
    (d : Disk) (path content other : Bytes) (d' : Disk)
    → write_file d path content ≡ some d'
    → read_file d' other ≡ (if eq_bytes path other then some content else read_file d other)
unfolding write_file
read-write_file d path content other d' h = ground (arith, lookup-insert path other content d.files)

pub read-remove_file :
    (d : Disk) (path other : Bytes)
    → read_file (remove_file d path) other
      ≡ (if eq_bytes path other then none else read_file d other)
unfolding remove_file
read-remove_file d path other = lookup-erase path other d.files

pub write_file-reads :
    (d : Disk) (path content : Bytes)
    → d.writable path ≡ true
    → (d' : Disk) × (write_file d path content ≡ some d') × (read_file d' path ≡ some content)
unfolding write_file
write_file-reads d path content writable = (
  record d { files = insert path content d.files },
  if_true (d.writable path) _ _ writable,
  lookup-insert path path content d.files ∙ if_true (eq_bytes path path) _ _ (eq_bytes_refl path),
)
