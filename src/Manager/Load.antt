-- ===== src/Manager/Load.antt =====
-- src/muld_download_manager.cpp: the dispatcher's branch for a job that is loaded from its image, up to
-- the engine that it then attaches to the handle. `loaded_images_` and `jobs_index_` are guarded by one
-- lock and touched by this thread alone; `jobs_` keeps every job, so no entry of the index expires.
use muld.Prelude.{
  ℕ, ◌+◌, ◌≡◌, Bool, true, false, not, ◌&&◌, Option, none, some, List, [], ◌∷◌, ◌++◌, map, length,
  if◌then◌else◌, ltb, ◌==◌, eq_bytes, eq_bytes_refl,
}
use muld.Prelude.Int.{ℤ, pos, max_ℤ, clamp_ℤ}
use muld.Prelude.Bytes.{Bytes, codes}
use muld.Prelude.Table.{bytes_eq, contains}
use muld.Prelude.Floats.{Floats}
use muld.Types.{
  Url, ErrorCode, disk_error, duplicate_job, invalid_request, fetch_file_info_failed,
  DownloadCallbacks,
}
use muld.Outcome.{Outcome, returns, throws, null_pointer, ◌>>=◌}
use muld.Url.{parse_url, url_string}
use muld.Disk.{Disk, read_file}
use muld.JobImage.{JobImage, Read, ok, failed, thrown, read_image_file}
use muld.Engine.{Engine, identity_key, set_connection_bounds, set_desired_connections}
use muld.Engine.Launch.{load_engine, set_limit}
use muld.Manager.{
  FileInfo, FetchResult, matches_stored_file, compute_max_connections, resolve_validated_file_info,
}
pub mod Refusals
pub mod Accepted
pub mod Unwritable
mod Tests

pub record Jobs (F : Type 0) : Type 0 where
  pub max_threads : ℤ
  pub loaded_images : List Bytes
  pub jobs : List (Engine F)
  -- The keys of `jobs_index_`.
  pub identities : List Bytes

-- How a request to load ends: the handle fails, or an engine is attached to it.
pub data Loaded (F : Type 0) : Type 0 where
  refused : ErrorCode → Bytes → Loaded F
  attached : Engine F → Loaded F

-- `loaded_images_.erase(path)`.
unfoldable pub remove_path : Bytes → List Bytes → List Bytes
remove_path path [] = []
remove_path path (p ∷ paths) =
    let rest = remove_path path paths in if eq_bytes p path then rest else p ∷ rest

-- `img.url`, `img.file_size` and the rest as the server has them now.
unfoldable pub correct_image : JobImage → FileInfo → Url → JobImage
correct_image img info url = record img {
  url = url_string url;
  file_size = info.total_size;
  ranged = info.supports_range;
  etag = info.etag;
  last_modified = info.last_modified;
}

module _ (D : Floats) where
  open D use {F}

  abbrev pub Result : Type 0
  Result = Outcome (Loaded F × Jobs F × Disk)

  unfoldable pub refuse : Jobs F → Disk → Bytes → ErrorCode → Bytes → Result
  refuse m d path code detail =
      returns
        (refused code detail, record m { loaded_images = remove_path path m.loaded_images }, d)

  unfoldable pub set_up : Jobs F → JobImage → ℕ → Engine F → Engine F
  set_up m img now e =
      set_limit D (set_desired_connections (set_connection_bounds e (pos 1) most) initial) 0 now
    where
      most : ℤ
      most = compute_max_connections img.ranged 0 m.max_threads

      initial : ℤ
      initial = clamp_ℤ (max_ℤ (pos 1) img.max_connections) (pos 1) most

  unfoldable pub register : Jobs F → JobImage → ℕ → Engine F × Disk → Loaded F × Jobs F × Disk
  register m img now (e, d) =
      let job = set_up m img now e in
      (
        attached job,
        record m { jobs = m.jobs ++ job ∷ []; identities = identity_key job ∷ m.identities },
        d,
      )

  module _ (callbacks : DownloadCallbacks) (now : ℕ) where
    -- The test of the file on the disk.
    abbrev pub check_file : Jobs F → Disk → Bytes → JobImage → Option Bytes → Result
    check_file m d path img none =
        refuse m d path disk_error (codes "Target file is missing on disk")
    check_file m d path img (some content) =
        if ltb 0 img.file_size && not (length content == img.file_size)
        then refuse m d path disk_error (codes "Target file size does not match stored job image")
        else (load_engine D img callbacks now d >>= λ made. returns (register m img now made))

    unfoldable pub check_image : Jobs F → Disk → Bytes → JobImage → FileInfo → Url → Result
    check_image m d path img info url =
        let img' = correct_image img info url in
        let checked = check_file m d path img' (read_file d img'.file_path) in
        if not (matches_stored_file img info)
        then refuse m d path fetch_file_info_failed
            (codes "Attachment does not match with current content")
        else if contains m.identities (img'.file_path ++ (codes "\n" ++ img'.url))
        then refuse m d path fetch_file_info_failed
            (codes "Attachment does not match with current content")
        else checked

    -- What `ResolveValidatedFileInfo` gave, or the exception that is caught.
    abbrev pub check_info :
        Jobs F → Disk → Bytes → JobImage → Outcome (Option FileInfo × Url) → Result
    check_info m d path img (returns (some info, url)) = check_image m d path img info url
    check_info m d path img (returns (none, url)) =
        refuse m d path fetch_file_info_failed (codes "Failed to fetch URL")
    check_info m d path img throws = refuse m d path invalid_request (codes "URL cannot be empty")
    check_info m d path img null_pointer = null_pointer

    abbrev pub resolve_stored :
        (ℕ → Url → FetchResult) → Option Url → Outcome (Option FileInfo × Url)
    resolve_stored fetch none = throws
    resolve_stored fetch (some url) = resolve_validated_file_info fetch url

    abbrev pub load_image : (ℕ → Url → FetchResult) → Jobs F → Disk → Bytes → Read JobImage → Result
    load_image fetch m d path failed =
        returns (refused disk_error (codes "Can not load download"), m, d)
    load_image fetch m d path thrown = throws
    load_image fetch m d path (ok img) =
        let noted : Jobs F = record m { loaded_images = path ∷ m.loaded_images } in
        let checked = check_info noted d path img (resolve_stored fetch (parse_url img.url)) in
        if contains m.loaded_images path
        then returns (refused duplicate_job (codes "Job already loaded"), m, d)
        else checked

    -- `limit` is what a `resize` can allocate.
    unfoldable pub load_request : ℕ → (ℕ → Url → FetchResult) → Jobs F → Disk → Bytes → Result
    load_request limit fetch m d path = load_image fetch m d path (read_image_file limit d path)
