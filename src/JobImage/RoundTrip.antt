-- ===== src/JobImage/RoundTrip.antt =====
-- What `WriteImageToDisk` writes, `ReadImageFromDisk` reads back.
use mathlib.Core.List.{append-nil, append_assoc}
use muld.Prelude.{
  ℕ, ◌*◌, ◌^◌, ◌≤◌, ◌<◌, ◌≡◌, refl, sym, ap, Bool, true, false, some, List, [], ◌∷◌, ◌++◌, length,
  All, arith, length-append, Option-cases, inl, inr, eq_bytes, eq_bytes_refl,
}
use muld.Prelude.Int.{ℤ, pos, negsuc, pos_part, neg_part}
use muld.Prelude.Bytes.{Bytes, u64_mod, le_bytes, length-le_bytes, le_value-le_bytes}
use muld.Disk.{Disk, read_file, write_file, read-write_file}
use muld.JobImage.Stream.{ready, read-append, read_value-append}
use muld.JobImage.{
  ChunkState, JobImage, JobImageIndex, ok, version, int_bits, int_value, bool_byte, string_field,
  chunk_bytes, header_bytes, strings_bytes, table_bytes, image_bytes, write_image, read_some,
  read_string_field, parse_chunks, read_chunks, read_current, read_image, read_image_file,
}

abbrev FitsU64 : ChunkState → Type 0
FitsU64 c = (c.start_range < u64_mod) × (c.end_range < u64_mod) × (c.downloaded < u64_mod)

-- Values of the source's types, none of them larger than what `resize` can allocate.
pub record IsStorable (limit : ℕ) (img : JobImage) : Type 0 where
  pub limit_fits : limit < u64_mod
  pub file_size : img.file_size < u64_mod
  pub max_above : neg_part img.max_connections ≤ 2147483648
  pub max_below : pos_part img.max_connections < 2147483648
  pub created_at : img.created_at < u64_mod
  pub updated_at : img.updated_at < u64_mod
  pub file_path : length img.file_path ≤ limit
  pub url : length img.url ≤ limit
  pub etag : length img.etag ≤ limit
  pub last_modified : length img.last_modified ≤ limit
  pub chunk_count : length img.chunks ≤ limit
  pub chunks : All FitsU64 img.chunks

int_value-int_bits :
    (z : ℤ) → neg_part z ≤ 2147483648 → pos_part z < 2147483648 → int_value (int_bits z) ≡ z
int_value-int_bits (pos n) lo hi = ground arith
int_value-int_bits (negsuc n) lo hi = ground arith

int_bits-lt : (z : ℤ) → int_bits z < 256 ^ 4
int_bits-lt (pos n) = omega arith
int_bits-lt (negsuc n) = omega arith

bool_byte-lt : (b : Bool) → bool_byte b < 256 ^ 1
bool_byte-lt true = omega arith
bool_byte-lt false = omega arith

read_some-append :
    (xs ys : Bytes) (k : ℕ) → length xs ≡ k → read_some k (ready (xs ++ ys)) ≡ (xs, ready ys)
read_some-append [] ys k h = rw (← h)
read_some-append (x ∷ xs) ys k h = ground (arith, read-append (x ∷ xs) ys k)

read_string_field-append :
    (limit : ℕ) (v ys : Bytes)
    → limit < u64_mod
    → length v ≤ limit
    → read_string_field limit (ready (string_field v ++ ys)) ≡ ok (v, ready ys)
unfolding read_string_field string_field
read_string_field-append limit v ys l h =
    rw
      (
        append_assoc (le_bytes 8 (length v)) v ys,
        read_value-append 8 (length v) (v ++ ys) (omega arith),
        read_some-append v ys (length v) refl,
      )
      (ground arith)

pub length-chunk_bytes : (cs : List ChunkState) → length (chunk_bytes cs) ≡ length cs * 24
unfolding chunk_bytes
length-chunk_bytes [] = omega arith
length-chunk_bytes (c ∷ cs) = omega (
  arith,
  length-append (le_bytes 8 c.start_range)
      (le_bytes 8 c.end_range ++ (le_bytes 8 c.downloaded ++ chunk_bytes cs)),
  length-append (le_bytes 8 c.end_range) (le_bytes 8 c.downloaded ++ chunk_bytes cs),
  length-append (le_bytes 8 c.downloaded) (chunk_bytes cs),
  length-le_bytes 8 c.start_range,
  length-le_bytes 8 c.end_range,
  length-le_bytes 8 c.downloaded,
  length-chunk_bytes cs,
)

parse_chunks-chunk_bytes :
    (cs : List ChunkState) → All FitsU64 cs → parse_chunks (length cs) (chunk_bytes cs) ≡ cs
unfolding parse_chunks chunk_bytes le_bytes
parse_chunks-chunk_bytes [] h = refl
parse_chunks-chunk_bytes (c ∷ cs) h = λ i.
    record {
      start_range = le_value-le_bytes 8 c.start_range h.0.0 i;
      end_range = le_value-le_bytes 8 c.end_range h.0.1 i;
      downloaded = le_value-le_bytes 8 c.downloaded h.0.2 i;
    }
    ∷ parse_chunks-chunk_bytes cs h.1 i

read_chunks-table_bytes :
    (limit : ℕ) (cs : List ChunkState)
    → limit < u64_mod
    → length cs ≤ limit
    → All FitsU64 cs
    → read_chunks limit (ready (table_bytes cs)) ≡ ok cs
unfolding read_chunks table_bytes
read_chunks-table_bytes limit cs l n h =
    rw
      (
        read_value-append 8 (length cs) (chunk_bytes cs) (omega arith),
        sym (append-nil (chunk_bytes cs)),
        read_some-append (chunk_bytes cs) [] (length cs * 24) (length-chunk_bytes cs),
        parse_chunks-chunk_bytes cs h,
      )
      (ground arith)

read_current_lem :
    (limit : ℕ) (img : JobImage)
    → IsStorable limit img
    → read_current limit (
        ready (
          le_bytes 8 img.file_size
          ++ (le_bytes 4 (int_bits img.max_connections)
              ++ (le_bytes 1 (bool_byte img.ranged)
                  ++ (le_bytes 8 img.created_at
                      ++ (le_bytes 8 img.updated_at
                          ++ (string_field img.file_path
                              ++ (string_field img.url
                                  ++ (string_field img.etag
                                      ++ (string_field img.last_modified
                                          ++ table_bytes img.chunks))))))))))
      ≡ ok img
unfolding read_current
read_current_lem limit img h =
    let t = table_bytes img.chunks in
    let s4 = string_field img.last_modified ++ t in
    let s3 = string_field img.etag ++ s4 in
    let s2 = string_field img.url ++ s3 in
    let s1 = string_field img.file_path ++ s2 in
    let n5 = le_bytes 8 img.updated_at ++ s1 in
    let n4 = le_bytes 8 img.created_at ++ n5 in
    let n3 = le_bytes 1 (bool_byte img.ranged) ++ n4 in
    let n2 = le_bytes 4 (int_bits img.max_connections) ++ n3 in
    rw
      (
        read_value-append 8 img.file_size n2 h.file_size,
        read_value-append 4 (int_bits img.max_connections) n3 (int_bits-lt img.max_connections),
        read_value-append 1 (bool_byte img.ranged) n4 (bool_byte-lt img.ranged),
        read_value-append 8 img.created_at n5 h.created_at,
        read_value-append 8 img.updated_at s1 h.updated_at,
        read_string_field-append limit img.file_path s2 h.limit_fits h.file_path,
        read_string_field-append limit img.url s3 h.limit_fits h.url,
        read_string_field-append limit img.etag s4 h.limit_fits h.etag,
        read_string_field-append limit img.last_modified t h.limit_fits h.last_modified,
        read_chunks-table_bytes limit img.chunks h.limit_fits h.chunk_count h.chunks,
        int_value-int_bits img.max_connections h.max_above h.max_below,
      )
      (ground arith)

-- Reading an image that was written gives the image: every field, for values of the source's types
-- that fit the memory.
pub read-image_bytes :
    (limit : ℕ) (img : JobImage)
    → IsStorable limit img
    → read_image limit (image_bytes img) ≡ ok img
unfolding read_image image_bytes header_bytes strings_bytes
read-image_bytes limit img h =
    simp append_assoc
      (rw (read_value-append 4 version _ (omega arith)) (read_current_lem limit img h))

-- Whatever else is on the disk, an image file that `WriteImageToDisk` wrote is read back by
-- `ReadImageFromDisk` as the same image: every field, for values of the source's types that fit the
-- memory. No other file has changed.
pub read_image_file-write_image :
    (limit : ℕ) (d : Disk) (path other : Bytes) (img : JobImage) (d' : Disk) (index : JobImageIndex)
    → IsStorable limit img
    → write_image d path img ≡ some (d', index)
    → (read_image_file limit d' path ≡ ok img)
      × (eq_bytes path other ≡ false → read_file d' other ≡ read_file d other)
unfolding write_image read_image_file
read_image_file-write_image limit d path other img d' index h w =
    elim (Option-cases (write_file d path (image_bytes img))) [
      | inl e ↦ absurd (ground arith)
      | inr (d1, e) ↦ ground (
        arith,
        ap (λ x. read_file x path) {x = d1} {y = d'},
        ap (λ x. read_file x other) {x = d1} {y = d'},
        read-write_file d path (image_bytes img) path d1 e,
        read-write_file d path (image_bytes img) other d1 e,
        eq_bytes_refl path,
        read-image_bytes limit img h,
      )
    ]
