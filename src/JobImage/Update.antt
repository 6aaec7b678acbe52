-- ===== src/JobImage/Update.antt =====
-- `UpdateImageChunksOnDisk` in place against writing the whole image again.
use mathlib.Core.List.{append_assoc, append-nil}
use muld.Prelude.{
  ℕ, ◌≡◌, refl, sym, ap, ◌∙◌, none, some, List, [], ◌++◌, length, if◌then◌else◌, ◌==◌, arith,
  length-append, take-length-append, drop-append, drop-length-append, Bool-cases, inl, inr,
}
use mathlib.Core.Option
use muld.JobImage.RoundTrip.{length-chunk_bytes}
use muld.Prelude.Bytes.{Bytes, le_bytes, length-le_bytes}
use muld.Disk.{Disk, read_file, write_file}
use muld.JobImage.{
  ChunkState, JobImage, string_field, chunk_bytes, header_bytes, strings_bytes, table_bytes,
  image_bytes, image_index, write_image, overwrite, update_bytes, update_image,
}

-- Overwriting the middle of three parts.
overwrite-append :
    (xs old new ys : Bytes) (offset : ℕ)
    → length xs ≡ offset
    → length new ≡ length old
    → overwrite offset new (xs ++ (old ++ ys)) ≡ xs ++ (new ++ ys)
unfolding overwrite
overwrite-append xs old new ys offset e h = rw (
  ← e,
  take-length-append xs (old ++ ys),
  h,
  drop-append (length old) xs (old ++ ys),
  drop-length-append old ys,
)

image_chunks_offset :
    (img : JobImage)
    → length (header_bytes img ++ (le_bytes 8 img.updated_at ++ strings_bytes img))
      ≡ (image_index img).chunks_offset
unfolding image_index strings_bytes
image_chunks_offset img = omega (
  arith,
  length-append (header_bytes img) (le_bytes 8 img.updated_at ++ strings_bytes img),
  length-append (le_bytes 8 img.updated_at) (strings_bytes img),
  length-le_bytes 8 img.updated_at,
  length-append (string_field img.file_path)
      (string_field img.url ++ (string_field img.etag ++ string_field img.last_modified)),
  length-append (string_field img.url) (string_field img.etag ++ string_field img.last_modified),
  length-append (string_field img.etag) (string_field img.last_modified),
)

length-table_bytes :
    (cs ds : List ChunkState)
    → length cs ≡ length ds
    → length (table_bytes cs) ≡ length (table_bytes ds)
unfolding table_bytes
length-table_bytes cs ds h = omega (
  arith,
  length-append (le_bytes 8 (length cs)) (chunk_bytes cs),
  length-append (le_bytes 8 (length ds)) (chunk_bytes ds),
  length-le_bytes 8 (length cs),
  length-le_bytes 8 (length ds),
  length-chunk_bytes cs,
  length-chunk_bytes ds,
)

overwrite_twice :
    (h u u' s t t' : Bytes) (o1 o2 : ℕ)
    → length h ≡ o1
    → length u' ≡ length u
    → length (h ++ (u ++ s)) ≡ o2
    → length t' ≡ length t
    → overwrite o2 t' (overwrite o1 u' (h ++ (u ++ (s ++ t)))) ≡ h ++ (u' ++ (s ++ t'))
overwrite_twice h u u' s t t' o1 o2 e1 lu e2 lt =
    ap (overwrite o2 t') (overwrite-append h u u' (s ++ t) o1 e1 lu)
    ∙ ap (overwrite o2 t') regroup
    ∙ overwrite-append (h ++ (u' ++ s)) t t' [] o2 long lt
    ∙ simp (append_assoc, append-nil)
  where
    regroup : h ++ (u' ++ (s ++ t)) ≡ (h ++ (u' ++ s)) ++ (t ++ [])
    regroup = simp (append_assoc, append-nil)

    long : length (h ++ (u' ++ s)) ≡ o2
    long = omega (
      arith,
      length-append h (u' ++ s),
      length-append u' s,
      length-append h (u ++ s),
      length-append u s,
    )

pub update-image_bytes :
    (img : JobImage) (chunks : List ChunkState) (now : ℕ)
    → length chunks ≡ length img.chunks
    → update_bytes (image_index img) chunks now (image_bytes img)
      ≡ image_bytes (record img { chunks = chunks; updated_at = now })
unfolding update_bytes image_bytes image_index header_bytes strings_bytes
update-image_bytes img chunks now h =
    overwrite_twice (header_bytes img) (le_bytes 8 img.updated_at) (le_bytes 8 now)
      (strings_bytes img) (table_bytes img.chunks) (table_bytes chunks)
      (image_index img).updated_at_offset (image_index img).chunks_offset refl
      (length-le_bytes 8 now ∙ sym (length-le_bytes 8 img.updated_at)) (image_chunks_offset img)
      (length-table_bytes chunks img.chunks h)

-- Updating an image file in place, with the index that writing it gave and as many chunks, leaves
-- the disk as writing the whole image with the new chunks and the new time would leave it, the
-- failure to open the file included. With another number of chunks it is refused.
pub update_image-write_image :
    (d : Disk) (path : Bytes) (img : JobImage) (chunks : List ChunkState) (now : ℕ)
    → read_file d path ≡ some (image_bytes img)
    → update_image d path (image_index img) chunks now ≡ (
        if length img.chunks == length chunks
        then Option.map
            (λ r. r.0)
            (write_image d path (record img { chunks = chunks; updated_at = now }))
        else none)
unfolding update_image write_image image_index
update_image-write_image d path img chunks now e =
    elim (Bool-cases (length img.chunks == length chunks)) [
      | inl same ↦
          rw (same, e)
            (ground
              (arith, ap (write_file d path) (update-image_bytes img chunks now (ground arith))))
      | inr differ ↦ rw differ
    ]
