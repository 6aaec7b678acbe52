-- ===== src/JobImage/Tests.antt =====
-- A small image.
use mathlib.Core.Option
use muld.Prelude.{◌≡◌, refl, true, some, List, [], ◌∷◌, eq_bytes, arith}
use muld.Prelude.Int.{pos}
use muld.Prelude.Bytes.{codes}
use muld.Prelude.Table.{bytes_eq, insert, lookup}
use muld.Disk.{Disk, read_file, write_file}
use muld.JobImage.{
  ok, ChunkState, JobImage, image_bytes, image_index, write_image, read_image_file, update_image,
}
use muld.JobImage.RoundTrip.{IsStorable, read_image_file-write_image}
use muld.JobImage.Update.{update_image-write_image}

abbrev image : JobImage
image = record {
  file_path = codes "f";
  file_size = 10;
  max_connections = pos 4;
  ranged = true;
  url = codes "http://h/f";
  etag = [];
  last_modified = [];
  created_at = 7;
  updated_at = 8;
  chunks = record { start_range = 0; end_range = 9; downloaded = 3 } ∷ [];
}

image-IsStorable : IsStorable 1000 image
image-IsStorable = record {
  limit_fits = omega arith;
  file_size = omega arith;
  max_above = omega arith;
  max_below = omega arith;
  created_at = omega arith;
  updated_at = omega arith;
  file_path = omega arith;
  url = omega arith;
  etag = omega arith;
  last_modified = omega arith;
  chunk_count = omega arith;
  chunks = ((omega arith, omega arith, omega arith), tt);
}

abbrev empty_disk : Disk
empty_disk = record { files = []; writable = λ path. true }

abbrev written : Disk
written = record { files = insert (codes "f.muld") (image_bytes image) []; writable = λ path. true }

write_image-image :
    write_image empty_disk (codes "f.muld") image ≡ some (written, image_index image)
unfolding write_image write_file
write_image-image = refl

read_image_file-write_image_example : read_image_file 1000 written (codes "f.muld") ≡ ok image
read_image_file-write_image_example =
    (read_image_file-write_image 1000 empty_disk (codes "f.muld") (codes "f") image written
      (image_index image) image-IsStorable write_image-image).0

image_there : read_file written (codes "f.muld") ≡ some (image_bytes image)
unfolding eq_bytes lookup insert
image_there = refl

abbrev later : List ChunkState
later = record { start_range = 0; end_range = 9; downloaded = 5 } ∷ []

update_image-write_image_example :
    update_image written (codes "f.muld") (image_index image) later 9
    ≡ Option.map
        (λ r. r.0)
        (write_image written (codes "f.muld") (record image { chunks = later; updated_at = 9 }))
update_image-write_image_example =
    update_image-write_image written (codes "f.muld") image later 9 image_there
