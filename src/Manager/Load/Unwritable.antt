-- ===== src/Manager/Load/Unwritable.antt =====
-- A request to load a job whose output file cannot be opened for writing.
use muld.Prelude.{
  ℕ, ◌≡◌, refl, ap, ◌∙◌, true, false, not, ◌&&◌, Option, none, some, ◌∷◌, ◌++◌, length, if_false,
  ltb, ◌==◌,
}
use muld.Prelude.Bytes.{Bytes, codes}
use muld.Prelude.Table.{bytes_eq, contains}
use muld.Prelude.Floats.{Floats}
use muld.Types.{Url, DownloadCallbacks}
use muld.Outcome.{Outcome, returns, throws, ◌>>=◌, or_throw}
use muld.Url.{parse_url, url_string}
use muld.Disk.{Disk, read_file, open_writer}
use muld.JobImage.{JobImage, ok, read_image_file}
use muld.Engine.{Engine}
use muld.Engine.Launch.{load_engine, loaded}
use muld.Manager.{FileInfo, FetchResult, matches_stored_file}
use muld.Manager.Load.{
  Jobs, correct_image, check_file, check_image, check_info, resolve_stored, load_image,
  load_request, register,
}

module _ (D : Floats) (callbacks : DownloadCallbacks) (now : ℕ) where
  open D use {F}

  load_engine-throws :
      (img : JobImage) (d : Disk)
      → open_writer d img.file_path img.file_size ≡ none
      → load_engine D img callbacks now d ≡ throws
  unfolding load_engine
  load_engine-throws img d closed = go (parse_url img.url)
    where
      rest : Url → Outcome (Engine F × Disk)
      rest url = or_throw (open_writer d img.file_path img.file_size) >>= λ d'.
          returns (loaded D img callbacks now url, d')

      go : (o : Option Url) → (or_throw o >>= rest) ≡ throws
      go none = refl
      go (some url) =
          ap
            (λ o. or_throw o >>= λ d'.
              let made : Outcome (Engine F × Disk) = returns (loaded D img callbacks now url, d') in
              made)
            closed

  -- The bug of a job that is loaded although its output file cannot be opened for writing: with an image
  -- that is read, is new and belongs to the file that the server has, and an output file of the right
  -- size, the exception of the engine's constructor leaves the dispatcher's thread.
  pub load_request-throws :
      (limit : ℕ) (fetch : ℕ → Url → FetchResult) (m : Jobs F) (d : Disk) (path content : Bytes)
      (img : JobImage) (info : FileInfo) (url : Url)
      → read_image_file limit d path ≡ ok img
      → contains m.loaded_images path ≡ false
      → resolve_stored D callbacks now fetch (parse_url img.url) ≡ returns (some info, url)
      → matches_stored_file img info ≡ true
      → contains m.identities (img.file_path ++ (codes "\n" ++ url_string url)) ≡ false
      → read_file d img.file_path ≡ some content
      → (ltb 0 info.total_size && not (length content == info.total_size)) ≡ false
      → open_writer d img.file_path info.total_size ≡ none
      → load_request D callbacks now limit fetch m d path ≡ throws
  unfolding load_request check_image correct_image
  load_request-throws limit fetch m d path content img info url read new_path resolved same new_job
        there fits closed =
      let noted : Jobs F = record m { loaded_images = path ∷ m.loaded_images } in
      let img' = correct_image img info url in
      ap (load_image D callbacks now fetch m d path) read
      ∙ if_false (contains m.loaded_images path) _ _ new_path
      ∙ ap (check_info D callbacks now noted d path img) resolved
      ∙ if_false (not (matches_stored_file img info)) _ _ (ap not same)
      ∙ if_false (contains m.identities (img.file_path ++ (codes "\n" ++ url_string url))) _ _
          new_job
      ∙ ap (check_file D callbacks now noted d path img') there
      ∙ if_false (ltb 0 info.total_size && not (length content == info.total_size)) _ _ fits
      ∙ ap (λ o. o >>= λ made. returns (register D noted img' now made))
          (load_engine-throws img' d closed)
