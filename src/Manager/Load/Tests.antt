-- ===== src/Manager/Load/Tests.antt =====
-- Loading a small job.
use muld.Prelude.{ℕ, ◌≡◌, refl, true, false, some, none, ◌++◌, [], ◌∷◌, ap, ◌∙◌, arith, eq_bytes}
use muld.Prelude.Int.{pos}
use muld.Prelude.Bytes.{Bytes, codes}
use muld.Prelude.Table.{bytes_eq, lookup, insert, contains}
use muld.Prelude.Floats.{milli}
use muld.Types.{Url, disk_error}
use muld.Outcome.{returns}
use muld.Url.{parse_url, url_string, parse_from, cut_port, cut_host, host_end}
use muld.Url.Find.{find_text, is_prefix, find_char}
use muld.Disk.{Disk, read_file, write_file, open_writer, resize}
use muld.JobImage.{ok, JobImage, image_bytes, read_image_file}
use muld.JobImage.RoundTrip.{IsStorable, read-image_bytes}
use muld.Engine.{Engine, identity_key, set_connection_bounds, set_desired_connections}
use muld.Engine.Samples.{every_callback, file_url, empty_disk}
use muld.Engine.Launch.{loaded, load_engine, set_limit}
use muld.Manager.{
  FileInfo, FetchResult, successful, resolve, resolve_validated_file_info, matches_stored_file,
}
use muld.Manager.Load.{
  Jobs, refused, attached, load_request, load_image, resolve_stored, correct_image, set_up,
  register, check_image,
}
use muld.Manager.Load.Refusals.{load_request_refused}
use muld.Manager.Load.Accepted.{load_request_attached}

abbrev no_jobs : Jobs ℕ
no_jobs = record { max_threads = pos 4; loaded_images = []; jobs = []; identities = [] }

abbrev info : FileInfo
info = record {
  total_size = 2;
  supports_range = true;
  is_valid = true;
  etag = [];
  last_modified = [];
}

abbrev server : ℕ → Url → FetchResult
server attempt url = successful info

missing :
    load_request milli every_callback 5 1000 server no_jobs empty_disk (codes "j")
    ≡ returns (refused disk_error (codes "Can not load download"), no_jobs, empty_disk)
unfolding load_request read_image_file lookup
missing = refl

load_request_refused_example : (no_jobs ≡ no_jobs) × (empty_disk ≡ empty_disk)
load_request_refused_example =
    load_request_refused milli every_callback 5 no_jobs empty_disk (codes "j") 1000 server
      disk_error (codes "Can not load download") no_jobs empty_disk missing

abbrev image : JobImage
image = record {
  file_path = codes "f";
  file_size = 2;
  max_connections = pos 4;
  ranged = true;
  url = codes "http://h/f";
  etag = [];
  last_modified = [];
  created_at = 7;
  updated_at = 8;
  chunks = record { start_range = 0; end_range = 1; downloaded = 1 } ∷ [];
}

abbrev disk : Disk
disk = record empty_disk { files = (codes "f", 0 ∷ 0 ∷ []) ∷ (codes "j", image_bytes image) ∷ [] }

abbrev job : Engine ℕ
job = set_up milli no_jobs image 5 (loaded milli image every_callback 5 file_url)

image-IsStorable : IsStorable 1000 image
image-IsStorable = record {
  limit_fits = omega arith;
  file_size = omega arith;
  max_above = omega arith;
  max_below = omega arith;
  created_at = omega arith;
  updated_at = omega arith;
  file_path = omega arith;
  url = omega arith;
  etag = omega arith;
  last_modified = omega arith;
  chunk_count = omega arith;
  chunks = ((omega arith, omega arith, omega arith), tt);
}

image_read : read_image_file 1000 disk (codes "j") ≡ ok image
unfolding read_image_file lookup eq_bytes
image_read = read-image_bytes 1000 image image-IsStorable

abbrev with_job : Jobs ℕ
with_job = record no_jobs {
  loaded_images = codes "j" ∷ [];
  jobs = job ∷ [];
  identities = codes "f\nhttp://h/f" ∷ [];
}

accepted :
    load_request milli every_callback 5 1000 server no_jobs disk (codes "j")
    ≡ returns (attached job, with_job, disk)
unfolding load_request contains parse_url parse_from find_text is_prefix cut_port cut_host host_end
    find_char eq_bytes resolve_validated_file_info resolve check_image correct_image
    matches_stored_file url_string lookup load_engine open_writer write_file resize insert register
    identity_key set_up set_limit set_connection_bounds set_desired_connections loaded
accepted = ap (load_image milli every_callback 5 server no_jobs disk (codes "j")) image_read ∙ refl

load_request_attached_example : contains {K = Bytes} [] (codes "j") ≡ false
load_request_attached_example =
    (load_request_attached milli every_callback 5 no_jobs disk (codes "j") 1000 server job with_job
      disk accepted).0

abbrev read_only : Disk
read_only = record disk { writable = λ path. false }

image-read_only : read_image_file 1000 read_only (codes "j") ≡ ok image
unfolding read_image_file lookup eq_bytes
image-read_only = read-image_bytes 1000 image image-IsStorable

resolved :
    resolve_stored milli every_callback 5 server (parse_url image.url)
    ≡ returns (some info, file_url)
unfolding parse_url parse_from find_text is_prefix cut_port cut_host host_end find_char eq_bytes
    resolve_validated_file_info resolve
resolved = refl

matches : matches_stored_file image info ≡ true
unfolding matches_stored_file eq_bytes
matches = refl

unlisted : contains {K = Bytes} [] (codes "j") ≡ false
unfolding contains
unlisted = refl

unknown_job : contains {K = Bytes} [] (codes "f\nhttp://h/f") ≡ false
unfolding contains
unknown_job = refl

identity : codes "f" ++ (codes "\n" ++ url_string file_url) ≡ codes "f\nhttp://h/f"
unfolding url_string eq_bytes
identity = refl

content_read : read_file read_only (codes "f") ≡ some (0 ∷ 0 ∷ [])
unfolding lookup eq_bytes
content_read = refl

closed : open_writer read_only (codes "f") 2 ≡ none
unfolding open_writer write_file
closed = refl
