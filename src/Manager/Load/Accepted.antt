-- ===== src/Manager/Load/Accepted.antt =====
-- A request to load that is accepted.
use muld.Prelude.{
  ℕ, ◌≡◌, sym, ap, ◌∙◌, false, not, ◌&&◌, Option, none, some, [], ◌∷◌, ◌++◌, length, if_both,
  if_either, ltb, ◌==◌,
}
use muld.Prelude.Bytes.{Bytes, codes}
use muld.Prelude.Table.{bytes_eq, contains}
use muld.Prelude.Floats.{Floats}
use muld.Types.{Url, ErrorCode, DownloadCallbacks}
use muld.Outcome.{Outcome, returns, throws, null_pointer, ◌>>=◌, >>=-eq-returns, returns-eq}
use muld.Url.{parse_url}
use muld.Disk.{Disk, read_file}
use muld.JobImage.{JobImage, Read, ok, failed, thrown, read_image_file}
use muld.Engine.{Engine, identity_key}
use muld.Engine.Launch.{load_engine}
use muld.Manager.{FileInfo, FetchResult, matches_stored_file}
use muld.Manager.Load.{
  Jobs, refused, attached, correct_image, Result, refuse, register, set_up, check_file, check_image,
  check_info, resolve_stored, load_image, load_request,
}

refused-attached :
    {F : Type 0} (job : Engine F) (code : ErrorCode) (detail : Bytes)
    → refused code detail ≡ attached job
    → ⊥
refused-attached job code detail h = cc

attached-eq : {F : Type 0} (a b : Engine F) → attached a ≡ attached b → a ≡ b
attached-eq a b h = cc

module _ (D : Floats) where
  open D use {F}

  -- What is registered for the job that is made.
  Registers : Jobs F → Result D → Type 0
  Registers n o =
      (job : Engine F) (m' : Jobs F) (d' : Disk)
      → o ≡ returns (attached job, m', d')
      → m' ≡ record n { jobs = n.jobs ++ job ∷ []; identities = identity_key job ∷ n.identities }

  refuse-Registers :
      (n m : Jobs F) (d : Disk) (code : ErrorCode) (detail : Bytes)
      → Registers n (returns (refused code detail, m, d))
  unfolding Registers
  refuse-Registers n m d code detail job m' d' h =
      absurd (refused-attached job code detail (ap (λ r. r.0) (returns-eq _ _ h)))

  attached-Registers :
      (n : Jobs F) (d : Disk) (img : JobImage) (callbacks : DownloadCallbacks) (now : ℕ)
      → Registers n
          (load_engine D img callbacks now d >>= λ made. returns (register D n img now made))
  unfolding Registers register
  attached-Registers n d img callbacks now job m' d' h =
      let (made, found, q) = >>=-eq-returns (load_engine D img callbacks now d) _ _ h in
      let p = returns-eq _ _ q in
      let same : set_up D n img now made.0 ≡ job = attached-eq _ _ (ap (λ r. r.0) p) in
      sym (ap (λ r. r.1) p)
      ∙ ap
          (λ (j : Engine F). record n {
            jobs = n.jobs ++ j ∷ [];
            identities = identity_key j ∷ n.identities;
          })
          same

  module _ (callbacks : DownloadCallbacks) (now : ℕ) (n : Jobs F) (d : Disk) (path : Bytes) where
    check_file-Registers :
        (img : JobImage) (file : Option Bytes)
        → Registers n (check_file D callbacks now n d path img file)
    unfolding refuse
    check_file-Registers img none = refuse-Registers n _ d _ _
    check_file-Registers img (some content) =
        if_both (Registers n) (ltb 0 img.file_size && not (length content == img.file_size)) _ _
          (refuse-Registers n _ d _ _) (attached-Registers n d img callbacks now)

    check_image-Registers :
        (img : JobImage) (info : FileInfo) (url : Url)
        → Registers n (check_image D callbacks now n d path img info url)
    unfolding check_image refuse
    check_image-Registers img info url =
        let img' = correct_image img info url in
        if_both (Registers n) (not (matches_stored_file img info)) _ _ (refuse-Registers n _ d _ _)
          (if_both (Registers n)
            (contains n.identities (img'.file_path ++ (codes "\n" ++ img'.url))) _ _
            (refuse-Registers n _ d _ _) (check_file-Registers img' (read_file d img'.file_path)))

    check_info-Registers :
        (img : JobImage) (found : Outcome (Option FileInfo × Url))
        → Registers n (check_info D callbacks now n d path img found)
    unfolding Registers refuse
    check_info-Registers img (returns (some info, url)) = check_image-Registers img info url
    check_info-Registers img (returns (none, url)) = refuse-Registers n _ d _ _
    check_info-Registers img throws = refuse-Registers n _ d _ _
    check_info-Registers img null_pointer = λ job m' d' h. absurd (cc)

  module _ (callbacks : DownloadCallbacks) (now : ℕ) (m : Jobs F) (d : Disk) (path : Bytes) where
    Accepts : Result D → Type 0
    Accepts o =
        (job : Engine F) (m' : Jobs F) (d' : Disk)
        → o ≡ returns (attached job, m', d')
        → (contains m.loaded_images path ≡ false)
          × (m' ≡ record m {
            loaded_images = path ∷ m.loaded_images;
            jobs = m.jobs ++ job ∷ [];
            identities = identity_key job ∷ m.identities;
          })

    load_image-Accepts :
        (fetch : ℕ → Url → FetchResult) (found : Read JobImage)
        → Accepts (load_image D callbacks now fetch m d path found)
    unfolding Accepts Registers
    load_image-Accepts fetch failed =
        λ job m' d' h. absurd (refused-attached job _ _ (ap (λ r. r.0) (returns-eq _ _ h)))
    load_image-Accepts fetch thrown = λ job m' d' h. absurd (cc)
    load_image-Accepts fetch (ok img) =
        let noted : Jobs F = record m { loaded_images = path ∷ m.loaded_images } in
        if_either Accepts (contains m.loaded_images path) _ _
          (λ listed job m' d' h.
            absurd (refused-attached job _ _ (ap (λ r. r.0) (returns-eq _ _ h))))
          (λ fresh job m' d' h. (
            fresh,
            check_info-Registers callbacks now noted d path img
                (resolve_stored D callbacks now fetch (parse_url img.url)) job m' d' h,
          ))

    -- A request to load that is accepted was for an image that was not loaded yet; it notes the image, adds
    -- the job that is attached to the handle at the end of the jobs and its identity to their index, and
    -- changes nothing else of the manager.
    pub load_request_attached :
        (limit : ℕ) (fetch : ℕ → Url → FetchResult) (job : Engine F) (m' : Jobs F) (d' : Disk)
        → load_request D callbacks now limit fetch m d path ≡ returns (attached job, m', d')
        → (contains m.loaded_images path ≡ false)
          × (m' ≡ record m {
            loaded_images = path ∷ m.loaded_images;
            jobs = m.jobs ++ job ∷ [];
            identities = identity_key job ∷ m.identities;
          })
    unfolding load_request Accepts
    load_request_attached limit fetch job m' d' h =
        load_image-Accepts fetch (read_image_file limit d path) job m' d' h
