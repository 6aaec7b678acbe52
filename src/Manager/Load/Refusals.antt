-- ===== src/Manager/Load/Refusals.antt =====
-- A request to load that is refused.
use muld.Prelude.{
  ℕ, ◌≡◌, refl, sym, ap, ◌∙◌, false, not, ◌&&◌, Option, none, some, List, [], ◌∷◌, ◌++◌, length,
  if_both, if_either, ltb, ◌==◌, eq_bytes, eq_bytes_refl, if_true, arith,
}
use muld.Prelude.Bytes.{Bytes, codes}
use muld.Prelude.Table.{bytes_eq, contains}
use muld.Prelude.Floats.{Floats}
use muld.Types.{Url, ErrorCode, DownloadCallbacks}
use muld.Outcome.{Outcome, returns, throws, null_pointer, ◌>>=◌, >>=-eq-returns, returns-eq}
use muld.Url.{parse_url}
use muld.Disk.{Disk, read_file}
use muld.JobImage.{JobImage, Read, ok, failed, thrown, read_image_file}
use muld.Engine.{Engine}
use muld.Engine.Launch.{load_engine}
use muld.Manager.{FileInfo, FetchResult, matches_stored_file}
use muld.Manager.Load.{
  Jobs, refused, attached, remove_path, correct_image, Result, refuse, register, set_up, check_file,
  check_image, check_info, resolve_stored, load_image, load_request,
}

remove_path-fresh :
    (path : Bytes) (paths : List Bytes)
    → contains paths path ≡ false
    → remove_path path paths ≡ paths
unfolding remove_path contains
remove_path-fresh path [] h = refl
remove_path-fresh path (p ∷ paths) h = ground (arith, remove_path-fresh path paths)

remove_path-added :
    (path : Bytes) (paths : List Bytes)
    → contains paths path ≡ false
    → remove_path path (path ∷ paths) ≡ paths
unfolding remove_path
remove_path-added path paths h =
    if_true (eq_bytes path path) _ _ (eq_bytes_refl path) ∙ remove_path-fresh path paths h

attached-refused :
    {F : Type 0} (job : Engine F) (code : ErrorCode) (detail : Bytes)
    → attached job ≡ refused code detail
    → ⊥
attached-refused job code detail h = cc

module _ (D : Floats) where
  open D use {F}

  -- Whoever is refused finds the manager and the disk as they were.
  Restores : Jobs F → Disk → Result D → Type 0
  Restores m d o =
      (code : ErrorCode) (detail : Bytes) (m' : Jobs F) (d' : Disk)
      → o ≡ returns (refused code detail, m', d')
      → (m' ≡ m) × (d' ≡ d)

  refuse-Restores :
      (m : Jobs F) (d : Disk) (path : Bytes) (code : ErrorCode) (detail : Bytes)
      → contains m.loaded_images path ≡ false
      → Restores m d
          (refuse D (record m { loaded_images = path ∷ m.loaded_images }) d path code detail)
  unfolding Restores refuse
  refuse-Restores m d path code detail fresh code' detail' m' d' h =
      let p = returns-eq _ _ h in
      (
        sym (ap (λ r. r.1) p)
            ∙ ap (λ paths. record m { loaded_images = paths })
                (remove_path-added path m.loaded_images fresh),
        sym (ap (λ r. r.2) p),
      )

  attached-Restores :
      (m n : Jobs F) (d d0 : Disk) (img : JobImage) (callbacks : DownloadCallbacks) (now : ℕ)
      → Restores m d
          (load_engine D img callbacks now d0 >>= λ made. returns (register D n img now made))
  unfolding Restores register
  attached-Restores m n d d0 img callbacks now code detail m' d' h =
      let (made, found, q) = >>=-eq-returns (load_engine D img callbacks now d0) _ _ h in
      let p = ap (λ r. r.0) (returns-eq _ _ q) in
      absurd (attached-refused (set_up D n img now made.0) code detail p)

  module _ (callbacks : DownloadCallbacks) (now : ℕ) (m : Jobs F) (d : Disk) (path : Bytes) where
    noted : Jobs F
    noted = record m { loaded_images = path ∷ m.loaded_images }

    check_file-Restores :
        (img : JobImage) (file : Option Bytes)
        → contains m.loaded_images path ≡ false
        → Restores m d (check_file D callbacks now noted d path img file)
    unfolding noted
    check_file-Restores img none fresh = refuse-Restores m d path _ _ fresh
    check_file-Restores img (some content) fresh =
        if_both (Restores m d) (ltb 0 img.file_size && not (length content == img.file_size)) _ _
          (refuse-Restores m d path _ _ fresh) (attached-Restores m noted d d img callbacks now)

    check_image-Restores :
        (img : JobImage) (info : FileInfo) (url : Url)
        → contains m.loaded_images path ≡ false
        → Restores m d (check_image D callbacks now noted d path img info url)
    unfolding check_image noted
    check_image-Restores img info url fresh =
        let img' = correct_image img info url in
        if_both (Restores m d) (not (matches_stored_file img info)) _ _
          (refuse-Restores m d path _ _ fresh)
          (if_both (Restores m d)
            (contains m.identities (img'.file_path ++ (codes "\n" ++ img'.url))) _ _
            (refuse-Restores m d path _ _ fresh)
            (check_file-Restores img' (read_file d img'.file_path) fresh))

    check_info-Restores :
        (img : JobImage) (found : Outcome (Option FileInfo × Url))
        → contains m.loaded_images path ≡ false
        → Restores m d (check_info D callbacks now noted d path img found)
    unfolding noted Restores
    check_info-Restores img (returns (some info, url)) fresh =
        check_image-Restores img info url fresh
    check_info-Restores img (returns (none, url)) fresh = refuse-Restores m d path _ _ fresh
    check_info-Restores img throws fresh = refuse-Restores m d path _ _ fresh
    check_info-Restores img null_pointer fresh = λ code detail m' d' h. absurd (cc)

    load_image-Restores :
        (fetch : ℕ → Url → FetchResult) (found : Read JobImage)
        → Restores m d (load_image D callbacks now fetch m d path found)
    unfolding noted Restores
    load_image-Restores fetch failed = λ code detail m' d' h.
        let p = returns-eq _ _ h in (sym (ap (λ r. r.1) p), sym (ap (λ r. r.2) p))
    load_image-Restores fetch thrown = λ code detail m' d' h. absurd (cc)
    load_image-Restores fetch (ok img) =
        if_either (Restores m d) (contains m.loaded_images path) _ _
          (λ listed code detail m' d' h.
            let p = returns-eq _ _ h in (sym (ap (λ r. r.1) p), sym (ap (λ r. r.2) p)))
          (λ fresh.
            check_info-Restores img (resolve_stored D callbacks now fetch (parse_url img.url))
              fresh)

    -- A request to load that is refused, for whatever reason, leaves no trace: the loaded images, the
    -- jobs, their index and the disk are as before.
    pub load_request_refused :
        (limit : ℕ) (fetch : ℕ → Url → FetchResult) (code : ErrorCode) (detail : Bytes)
        (m' : Jobs F) (d' : Disk)
        → load_request D callbacks now limit fetch m d path ≡ returns (refused code detail, m', d')
        → (m' ≡ m) × (d' ≡ d)
    unfolding load_request Restores
    load_request_refused limit fetch code detail m' d' h =
        load_image-Restores fetch (read_image_file limit d path) code detail m' d' h
