-- ===== src/Engine/Storing.antt =====
-- What `Store` leaves on the disk.
use mathlib.Core.Option
use muld.Prelude.{
  ℕ, ◌≡◌, refl, ap, ◌∙◌, true, false, Option, none, some, List, ◌++◌, map, length, ◌==◌, if_true,
  if_false, ==_iff,
}
use muld.Prelude.Bytes.{Bytes}
use muld.Disk.{Disk, read_file, write_file, write_file-reads}
use muld.JobImage.{
  Read, ok, failed, JobImage, image_bytes, image_index, with_index, header_bytes, ChunkState,
  write_image, read_image, read_image_file, update_image,
}
use muld.JobImage.RoundTrip.{IsStorable, read-image_bytes}
use muld.JobImage.Update.{update_image-write_image}
use muld.Engine.{Engine, image_suffix, to_chunk_state}
use muld.Engine.Storage.{store_at, after_write, after_update, updated_or, job_image}

abbrev pub read_or : ℕ → Option Bytes → Read JobImage
read_or limit none = failed
read_or limit (some bytes) = read_image limit bytes

-- The image file under a path, and the index of its parts.
pub record HasImage {F : Type 0} (e : Engine F) (d : Disk) (path : Bytes) (img : JobImage)
    : Type 0 where
  pub stored : e.image_stored ≡ true
  pub index : e.image_index ≡ image_index img
  pub file : read_file d (path ++ image_suffix) ≡ some (image_bytes img)

written :
    (d d' : Disk) (path : Bytes) (img : JobImage)
    → write_file d path (image_bytes img) ≡ some d'
    → write_image d path img ≡ some (d', image_index img)
unfolding write_image
written d d' path img h = ap (with_index img) h

image_index_same :
    (img : JobImage) (chunks : List ChunkState) (unix : ℕ)
    → length img.chunks ≡ length chunks
    → image_index img ≡ image_index (record img { chunks = chunks; updated_at = unix })
unfolding image_index header_bytes
image_index_same img chunks unix same = rw same refl

module _ {F : Type 0} where
  store_at_fresh :
      (e : Engine F) (d : Disk) (unix : ℕ) (path : Bytes) (d' : Disk)
      → e.image_stored ≡ false
      → write_file d (path ++ image_suffix) (image_bytes (job_image e unix path)) ≡ some d'
      → store_at e d unix path
        ≡ after_write e d unix (some (d', image_index (job_image e unix path)))
  unfolding store_at
  store_at_fresh e d unix path d' fresh wrote =
      if_false e.image_stored _ _ fresh
      ∙ ap (after_write e d unix)
          (written d d' (path ++ image_suffix) (job_image e unix path) wrote)

  store_at_again :
      (e : Engine F) (d : Disk) (unix : ℕ) (path : Bytes) (img : JobImage) (d' : Disk)
      → HasImage e d path img
      → length img.chunks ≡ length (map to_chunk_state e.chunks)
      → write_file d
          (path ++ image_suffix)
          (image_bytes (record img { chunks = map to_chunk_state e.chunks; updated_at = unix }))
        ≡ some d'
      → store_at e d unix path ≡ after_update e d' unix
  unfolding store_at
  store_at_again e d unix path img d' has same wrote =
      if_true e.image_stored _ _ has.stored
      ∙ ap (updated_or e unix _) (
          ap
            (λ index.
              update_image d (path ++ image_suffix) index (map to_chunk_state e.chunks) unix)
            has.index
          ∙ update_image-write_image d (path ++ image_suffix) img (map to_chunk_state e.chunks) unix
              has.file
          ∙ if_true (length img.chunks == length (map to_chunk_state e.chunks)) _ _
              ((==_iff (length img.chunks) (length (map to_chunk_state e.chunks))).1 same)
          ∙ ap (Option.map (λ r. r.0)) (
              written d d' (path ++ image_suffix)
                (record img { chunks = map to_chunk_state e.chunks; updated_at = unix }) wrote))

  -- The first store of a new job, where the file can be written, leaves an image file from which the
  -- job is read back, and its index; nothing is left to store.
  pub first_store_reads :
      (limit : ℕ) (e : Engine F) (d : Disk) (unix : ℕ) (path : Bytes)
      → IsStorable limit (job_image e unix path)
      → e.image_stored ≡ false
      → d.writable (path ++ image_suffix) ≡ true
      → let r = store_at e d unix path in
        HasImage r.0 r.1 path (job_image e unix path)
        × (read_image_file limit r.1 (path ++ image_suffix) ≡ ok (job_image e unix path))
        × (r.0.received_since_store ≡ 0)
  unfolding read_image_file after_write
  first_store_reads limit e d unix path fits fresh writable =
      let img = job_image e unix path in
      let (d', wrote, reads) =
        write_file-reads d (path ++ image_suffix) (image_bytes img) writable in
      let done = store_at_fresh e d unix path d' fresh wrote in
      rw (done) (
        record { stored = refl; index = refl; file = reads },
        ap (read_or limit) reads ∙ read-image_bytes limit img fits,
        refl,
      )

  -- A later store updates the file in place: the chunks and the time of the update are new, everything
  -- else is as the first store wrote it, also if the address or the bounds of the job have changed since.
  pub next_store_reads :
      (limit : ℕ) (e : Engine F) (d : Disk) (unix : ℕ) (path : Bytes) (img : JobImage)
      → HasImage e d path img
      → length img.chunks ≡ length (map to_chunk_state e.chunks)
      → d.writable (path ++ image_suffix) ≡ true
      → let r = store_at e d unix path in
        let img' : JobImage = record img {
          chunks = map to_chunk_state e.chunks;
          updated_at = unix;
        } in
        HasImage r.0 r.1 path img'
        × (IsStorable limit img' → read_image_file limit r.1 (path ++ image_suffix) ≡ ok img')
        × (r.0.received_since_store ≡ 0)
  unfolding read_image_file after_update
  next_store_reads limit e d unix path img has same writable =
      let img' : JobImage = record img {
        chunks = map to_chunk_state e.chunks;
        updated_at = unix;
      } in
      let (d', wrote, reads) =
        write_file-reads d (path ++ image_suffix) (image_bytes img') writable in
      let done = store_at_again e d unix path img d' has same wrote in
      rw (done) (
        record {
          stored = has.stored;
          index = has.index ∙ image_index_same img (map to_chunk_state e.chunks) unix same;
          file = reads;
        },
        (λ fits. ap (read_or limit) reads ∙ read-image_bytes limit img' fits),
        refl,
      )
