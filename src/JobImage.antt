-- ===== src/JobImage.antt =====
-- src/job_image.h: the `.muld` file that a paused download is resumed from. Numbers are laid out as
-- on a little-endian machine with 64-bit `size_t` and 32-bit `int`.
use muld.Prelude.{
  ℕ, zero, suc, ◌+◌, ◌-◌, ◌*◌, ◌%◌, ◌≡◌, Bool, true, false, not, Option, none, some, List, [], ◌∷◌,
  ◌++◌, length, take, drop, if◌then◌else◌, ltb, ◌==◌,
}
use muld.Prelude.Int.{ℤ, pos, negsuc}
use muld.Prelude.Bytes.{Bytes, u32_mod, le_bytes, le_value}
use muld.Disk.{Disk, read_file, write_file}
pub mod Stream
pub mod RoundTrip
pub mod Update
mod Tests
use Stream.{InStream, read, read_value, ready}

pub record ChunkState : Type 0 where
  pub start_range : ℕ
  pub end_range : ℕ
  pub downloaded : ℕ

pub record JobImage : Type 0 where
  pub file_path : Bytes
  pub file_size : ℕ
  pub max_connections : ℤ
  pub ranged : Bool
  pub url : Bytes
  pub etag : Bytes
  pub last_modified : Bytes
  pub created_at : ℕ
  pub updated_at : ℕ
  pub chunks : List ChunkState

abbrev pub version : ℕ
version = 2

pub record JobImageIndex : Type 0 where
  pub file_path_offset : ℕ
  pub url_offset : ℕ
  pub etag_offset : ℕ
  pub last_modified_offset : ℕ
  pub updated_at_offset : ℕ
  pub chunks_offset : ℕ
  pub chunk_count : ℕ

abbrev pub empty_index : JobImageIndex
empty_index = record {
  file_path_offset = 0;
  url_offset = 0;
  etag_offset = 0;
  last_modified_offset = 0;
  updated_at_offset = 0;
  chunks_offset = 0;
  chunk_count = 0;
}

-- The bit pattern of an `int`, and the `int` of a bit pattern.
abbrev pub int_bits : ℤ → ℕ
int_bits (pos n) = n % u32_mod
int_bits (negsuc n) = u32_mod - 1 - n % u32_mod

abbrev pub int_value : ℕ → ℤ
int_value w = if ltb w (2147483648) then pos w else negsuc (u32_mod - w - 1)

abbrev pub bool_byte : Bool → ℕ
bool_byte true = 1
bool_byte false = 0

-- `WriteStringField`.
unfoldable pub string_field : Bytes → Bytes
string_field value = le_bytes 8 (length value) ++ value

unfoldable pub chunk_bytes : List ChunkState → Bytes
chunk_bytes [] = []
chunk_bytes (c ∷ cs) =
    le_bytes 8 c.start_range
    ++ (le_bytes 8 c.end_range ++ (le_bytes 8 c.downloaded ++ chunk_bytes cs))

-- What stands before the time of the last update, between it and the chunks, and the chunks.
unfoldable pub header_bytes : JobImage → Bytes
header_bytes img =
    le_bytes 4 version
    ++ (le_bytes 8 img.file_size
        ++ (le_bytes 4 (int_bits img.max_connections)
            ++ (le_bytes 1 (bool_byte img.ranged) ++ le_bytes 8 img.created_at)))

unfoldable pub strings_bytes : JobImage → Bytes
strings_bytes img =
    string_field img.file_path
    ++ (string_field img.url ++ (string_field img.etag ++ string_field img.last_modified))

unfoldable pub table_bytes : List ChunkState → Bytes
table_bytes chunks = le_bytes 8 (length chunks) ++ chunk_bytes chunks

-- What `WriteImageToDisk` writes.
unfoldable pub image_bytes : JobImage → Bytes
image_bytes img =
    header_bytes img ++ (le_bytes 8 img.updated_at ++ (strings_bytes img ++ table_bytes img.chunks))

-- The offsets that `tellp` gives on the way.
unfoldable pub image_index : JobImage → JobImageIndex
image_index img =
    let updated_at = length (header_bytes img) in
    let file_path = updated_at + 8 in
    let url = file_path + length (string_field img.file_path) in
    let etag = url + length (string_field img.url) in
    let last_modified = etag + length (string_field img.etag) in
    record {
      file_path_offset = file_path;
      url_offset = url;
      etag_offset = etag;
      last_modified_offset = last_modified;
      updated_at_offset = updated_at;
      chunks_offset = last_modified + length (string_field img.last_modified);
      chunk_count = length img.chunks;
    }

abbrev pub with_index : JobImage → Option Disk → Option (Disk × JobImageIndex)
with_index img none = none
with_index img (some d) = some (d, image_index img)

-- `WriteImageToDisk`: `none` for `false`.
unfoldable pub write_image : Disk → Bytes → JobImage → Option (Disk × JobImageIndex)
write_image d path img = with_index img (write_file d path (image_bytes img))

-- `ReadImageFromDisk` returns `true`, returns `false`, or throws.
pub data Read (A : Type 0) : Type 0 where
  ok : A → Read A
  failed : Read A
  thrown : Read A

infixl 5 ◌>>=◌ ◌>>◌
abbrev pub ◌>>=◌ : {A B : Type 0} → Read A → (A → Read B) → Read B
ok a >>= f = f a
failed >>= f = failed
thrown >>= f = thrown

abbrev pub ◌>>◌ : {B : Type 0} → Read (Unit {0}) → Read B → Read B
m >> k = m >>= λ _. k

-- `if (!in.good()) return false;`.
abbrev pub check : InStream → Read (Unit {0})
check s = if s.good then ok tt else failed

-- `resize(size)` throws above what the machine can hold.
abbrev pub check_size : ℕ → ℕ → Read (Unit {0})
check_size limit size = if ltb limit size then thrown else ok tt

abbrev pub read_some : ℕ → InStream → Bytes × InStream
read_some k s = if k == 0 then ([], s) else read k s

-- `ReadStringField`.
unfoldable pub read_string_field : ℕ → InStream → Read (Bytes × InStream)
read_string_field limit s = do
  let (size, s') = read_value 8 s
  check s'
  check_size limit size
  let (value, s'') = read_some size s'
  check s''
  ok (value, s'')

unfoldable pub parse_chunks : ℕ → Bytes → List ChunkState
parse_chunks zero bytes = []
parse_chunks (suc n) bytes =
    record {
      start_range = le_value (take 8 bytes);
      end_range = le_value (take 8 (drop 8 bytes));
      downloaded = le_value (take 8 (drop 16 bytes));
    }
    ∷ parse_chunks n (drop 24 bytes)

-- The chunk table at the end. Its size is not checked to have been read.
unfoldable pub read_chunks : ℕ → InStream → Read (List ChunkState)
read_chunks limit s = do
  let (size, s') = read_value 8 s
  check_size limit size
  let (bytes, s'') = read_some (size * 24) s'
  check s''
  ok (parse_chunks size bytes)

-- The branch for the current version.
unfoldable pub read_current : ℕ → InStream → Read JobImage
read_current limit s = do
  let (file_size, s1) = read_value 8 s
  let (max_connections, s2) = read_value 4 s1
  let (ranged, s3) = read_value 1 s2
  let (created_at, s4) = read_value 8 s3
  let (updated_at, s5) = read_value 8 s4
  check s5
  (file_path, s6) ← read_string_field limit s5
  (url, s7) ← read_string_field limit s6
  (etag, s8) ← read_string_field limit s7
  (last_modified, s9) ← read_string_field limit s8
  chunks ← read_chunks limit s9
  ok (record {
    file_path = file_path;
    file_size = file_size;
    max_connections = int_value max_connections;
    ranged = not (ranged == 0);
    url = url;
    etag = etag;
    last_modified = last_modified;
    created_at = created_at;
    updated_at = updated_at;
    chunks = chunks;
  })

-- The branch for files without a version: two strings and the chunks.
unfoldable pub read_legacy : ℕ → InStream → Read JobImage
read_legacy limit s = do
  (file_path, s1) ← read_string_field limit s
  (url, s2) ← read_string_field limit s1
  chunks ← read_chunks limit s2
  ok (record {
    file_path = file_path;
    file_size = 0;
    max_connections = pos 0;
    ranged = false;
    url = url;
    etag = [];
    last_modified = [];
    created_at = 0;
    updated_at = 0;
    chunks = chunks;
  })

unfoldable pub read_image : ℕ → Bytes → Read JobImage
read_image limit bytes = do
  let (v, s) = read_value 4 (ready bytes)
  check s
  if v == version then read_current limit s else read_legacy limit (ready bytes)

-- `ReadImageFromDisk`.
unfoldable pub read_image_file : ℕ → Disk → Bytes → Read JobImage
read_image_file limit d path = elim (read_file d path) [
  | none ↦ failed
  | some bytes ↦ read_image limit bytes
]

-- `seekp(offset)` and `write(bytes)` in an open file.
unfoldable pub overwrite : ℕ → Bytes → Bytes → Bytes
overwrite offset bytes file = take offset file ++ (bytes ++ drop (offset + length bytes) file)

unfoldable pub update_bytes : JobImageIndex → List ChunkState → ℕ → Bytes → Bytes
update_bytes index chunks updated_at file =
    overwrite index.chunks_offset (table_bytes chunks)
      (overwrite index.updated_at_offset (le_bytes 8 updated_at) file)

-- `UpdateImageChunksOnDisk`: `none` for `false`.
unfoldable pub update_image : Disk → Bytes → JobImageIndex → List ChunkState → ℕ → Option Disk
update_image d path index chunks updated_at =
    if index.chunk_count == length chunks
    then (elim (read_file d path) [
      | none ↦ none
      | some file ↦ write_file d path (update_bytes index chunks updated_at file)
    ])
    else none
