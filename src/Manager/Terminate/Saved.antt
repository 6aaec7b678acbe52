-- ===== src/Manager/Terminate/Saved.antt =====
-- The images on the disk after Terminate.
use mathlib.Core.Path.{subst}
use muld.Prelude.{
  ℕ, ◌≡◌, ◌≢◌, ◌⊎◌, inl, inr, refl, sym, ap, ◌∙◌, true, false, Option, none, some, List, [], ◌∷◌,
  ◌++◌, length, map, All, if_both, if_false, if_true, Bool-cases, eq_bytes, arith, ◌==◌,
}
use muld.Prelude.Bytes.{Bytes}
use muld.Prelude.Table.{eq_bytes_iff, bytes_eq}
use muld.Outcome.{returns, returns-eq, ◌>>=◌}
use muld.Disk.{Disk, read_file, write_file, read-write_file}
use muld.JobImage.{
  JobImage, JobImageIndex, ChunkState, ok, read_image_file, write_image, update_image, with_index,
  image_bytes, update_bytes,
}
use muld.JobImage.RoundTrip.{IsStorable}
use muld.Engine.{Engine, is_done, image_suffix, to_chunk_state}
use muld.Engine.Storage.{job_image, store_at, after_write, after_update, updated_or}
use muld.Engine.Storing.{HasImage, first_store_reads, next_store_reads, read_or}
use muld.Engine.Control.{pause}
use muld.Engine.Tally.{store-returns}
use muld.Manager.Terminate.{terminate_job, terminate}
use muld.Manager.Terminate.Stopped.{AllStopped, IsOpen, terminate-AllStopped}

-- Writing elsewhere leaves a file alone.
abbrev pub Same : Bytes → Disk → Disk → Type 0
Same other d d' = (read_file d' other ≡ read_file d other) × (d'.writable ≡ d.writable)

write_file-writable :
    (d d' : Disk) (path content : Bytes)
    → write_file d path content ≡ some d'
    → d'.writable ≡ d.writable
unfolding write_file
write_file-writable d d' path content h = ground arith

write_file-Same :
    (d d' : Disk) (path content other : Bytes)
    → path ≢ other
    → write_file d path content ≡ some d'
    → Same other d d'
write_file-Same d d' path content other apart h =
    let no : eq_bytes path other ≡ false = elim (Bool-cases (eq_bytes path other)) [
      | inl e ↦ absurd (apart ((eq_bytes_iff path other).0 e))
      | inr e ↦ e
    ] in
    (
      read-write_file d path content other d' h ∙ if_false (eq_bytes path other) _ _ no,
      write_file-writable d d' path content h,
    )

read_image_file-Same :
    (limit : ℕ) (d d' : Disk) (path : Bytes)
    → Same path d d'
    → read_image_file limit d' path ≡ read_image_file limit d path
unfolding read_image_file
read_image_file-Same limit d d' path same = ap (read_or limit) same.0

module _ {F : Type 0} where
  written-Same :
      (e : Engine F) (d : Disk) (unix : ℕ) (path other : Bytes) (img : JobImage)
      → path ≢ other
      → Same other d (after_write e d unix (write_image d path img)).1
  unfolding write_image after_write
  written-Same e d unix path other img apart = go (write_file d path (image_bytes img)) refl
    where
      go :
          (o : Option Disk)
          → write_file d path (image_bytes img) ≡ o
          → Same other d (after_write e d unix (with_index img o)).1
      go none h = (refl, refl)
      go (some d') h = write_file-Same d d' path (image_bytes img) other apart h

  updated-Same :
      (e : Engine F) (d : Disk) (unix : ℕ) (path other : Bytes) (index : JobImageIndex)
      (chunks : List ChunkState) (w : Engine F × Disk)
      → path ≢ other
      → Same other d w.1
      → Same other d (updated_or e unix w (update_image d path index chunks unix)).1
  unfolding update_image after_update
  updated-Same e d unix path other index chunks w apart written =
      if_both (λ (o : Option Disk). Same other d (updated_or e unix w o).1)
        (index.chunk_count == length chunks) _ none (go (read_file d path)) written
    where
      wrote :
          (content : Bytes) (o : Option Disk)
          → write_file d path content ≡ o
          → Same other d (updated_or e unix w o).1
      wrote content none h = written
      wrote content (some d') h = write_file-Same d d' path content other apart h

      go :
          (r : Option Bytes)
          → Same other d
              (updated_or e unix w (elim r [
                | none ↦ none
                | some file ↦ write_file d path (update_bytes index chunks unix file)
              ])).1
      go none = written
      go (some file) = wrote (update_bytes index chunks unix file) _ refl

  store_at-Same :
      (e : Engine F) (d : Disk) (unix : ℕ) (path other : Bytes)
      → (path ++ image_suffix) ≢ other
      → Same other d (store_at e d unix path).1
  unfolding store_at
  store_at-Same e d unix path other apart =
      let w = written-Same e d unix (path ++ image_suffix) other (job_image e unix path) apart in
      if_both (λ (r : Engine F × Disk). Same other d r.1) e.image_stored _ _
        (updated-Same e d unix (path ++ image_suffix) other e.image_index
          (map to_chunk_state e.chunks) _ apart w)
        w

  -- The image of a job can be saved: the output file is open, and the image file can be written; and
  -- the job has no image yet, or one whose index it has.
  abbrev pub IsSaveable : ℕ → ℕ → Disk → Engine F → Type 0
  IsSaveable limit unix d e =
      (path : Bytes) × (e.writer ≡ some path)
      × (d.writable (path ++ image_suffix) ≡ true)
      × (((e.image_stored ≡ false) × IsStorable limit (job_image e unix path))
          ⊎ ((img : JobImage) × HasImage e d path img
              × (length img.chunks ≡ length (map to_chunk_state e.chunks))
              × IsStorable limit
                  (record img { chunks = map to_chunk_state e.chunks; updated_at = unix })))

  -- The image file of a job is read back, with the present chunks and the time of the store.
  abbrev pub HasSaved : ℕ → ℕ → Disk → Engine F → Type 0
  HasSaved limit unix d e =
      (path : Bytes) × (img : JobImage) × (e.writer ≡ some path)
      × (read_image_file limit d (path ++ image_suffix) ≡ ok img)
      × (img.chunks ≡ map to_chunk_state e.chunks)
      × (img.updated_at ≡ unix)

  -- The image file of a job is another.
  abbrev pub IsElsewhere : Bytes → Engine F → Type 0
  IsElsewhere other e = (path : Bytes) → e.writer ≡ some path → (path ++ image_suffix) ≢ other

  abbrev pub IsApart : Engine F → Engine F → Type 0
  IsApart e k = (path : Bytes) → e.writer ≡ some path → IsElsewhere (path ++ image_suffix) k

  abbrev pub AreApart : List (Engine F) → Type 0
  AreApart [] = Unit {0}
  AreApart (e ∷ jobs) = All (IsApart e) jobs × AreApart jobs

  store_at-saves :
      (limit : ℕ) (e : Engine F) (d : Disk) (unix : ℕ)
      → (s : IsSaveable limit unix d e) → HasSaved limit unix (store_at e d unix s.0).1 e
  unfolding job_image
  store_at-saves limit e d unix (path, open_file, writable, inl (fresh, fits)) =
      let (_, reads, _) = first_store_reads limit e d unix path fits fresh writable in
      (path, job_image e unix path, open_file, reads, refl, refl)
  store_at-saves limit e d unix (path, open_file, writable, inr (img, has, same, fits)) =
      let (_, reads, _) = next_store_reads limit e d unix path img has same writable in
      (
        path,
        record img { chunks = map to_chunk_state e.chunks; updated_at = unix },
        open_file,
        reads fits,
        refl,
        refl,
      )

  HasSaved-Same :
      (limit unix : ℕ) (d d' : Disk) (e : Engine F)
      → ((path : Bytes) → e.writer ≡ some path → Same (path ++ image_suffix) d d')
      → HasSaved limit unix d e
      → HasSaved limit unix d' e
  HasSaved-Same limit unix d d' e same (path, img, open_file, reads, chunks, time) =
      let kept = read_image_file-Same limit d d' (path ++ image_suffix) (same path open_file) in
      (path, img, open_file, kept ∙ reads, chunks, time)

  IsSaveable-Same :
      (limit unix : ℕ) (d d' : Disk) (e : Engine F)
      → ((path : Bytes) → e.writer ≡ some path → Same (path ++ image_suffix) d d')
      → IsSaveable limit unix d e
      → IsSaveable limit unix d' e
  IsSaveable-Same limit unix d d' e same (path, open_file, writable, inl fresh) =
      let (_, allowed) = same path open_file in
      (path, open_file, ap (λ w. w (path ++ image_suffix)) allowed ∙ writable, inl fresh)
  IsSaveable-Same limit unix d d' e same (path, open_file, writable, inr (img, has, long, fits)) =
      let (read_, allowed) = same path open_file in
      (
        path,
        open_file,
        ap (λ w. w (path ++ image_suffix)) allowed ∙ writable,
        inr (
          img,
          record { stored = has.stored; index = has.index; file = read_ ∙ has.file },
          long,
          fits,
        ),
      )

  abbrev pub DoneOr : (Engine F → Type 0) → Engine F → Type 0
  DoneOr P e = (is_done e ≡ true) ⊎ P e

  apart-Saveable :
      (limit unix : ℕ) (d d' : Disk) (e : Engine F) (jobs : List (Engine F))
      → ((other : Bytes) → IsElsewhere other e → Same other d d')
      → All (IsApart e) jobs
      → All (DoneOr (IsSaveable limit unix d)) jobs
      → All (DoneOr (IsSaveable limit unix d')) jobs
  apart-Saveable limit unix d d' e [] same apart h = tt
  apart-Saveable limit unix d d' e (k ∷ jobs) same (apart, more) (inl done, h) =
      (inl done, apart-Saveable limit unix d d' e jobs same more h)
  apart-Saveable limit unix d d' e (k ∷ jobs) same (apart, more) (inr s, h) = (
    inr (
        IsSaveable-Same limit unix d d' k
          (λ q k_open. same (q ++ image_suffix) (λ p e_open eq. apart p e_open q k_open (sym eq)))
          s),
    apart-Saveable limit unix d d' e jobs same more h,
  )

  terminate_job-saves :
      (limit : ℕ) (e : Engine F) (d : Disk) (unix : ℕ)
      → DoneOr (IsSaveable limit unix d) e
      → (e' : Engine F) × (d' : Disk) × (terminate_job e d unix ≡ returns (e', d'))
        × DoneOr (HasSaved limit unix d') e
        × ((other : Bytes) → IsElsewhere other e → Same other d d')
  unfolding terminate_job
  terminate_job-saves limit e d unix (inl done) =
      (e, d, if_true (is_done e) _ _ done, inl done, λ other away. (refl, refl))
  terminate_job-saves limit e d unix (inr s) = elim (Bool-cases (is_done e)) [
    | inl done ↦ (e, d, if_true (is_done e) _ _ done, inl done, λ other away. (refl, refl))
    | inr left ↦
        let saved = store_at e d unix s.0 in
        (
          (pause saved.0).1,
          saved.1,
          if_false (is_done e) _ _ left
              ∙ ap (λ m. m >>= λ saved. returns ((pause saved.0).1, saved.1))
                  (store-returns e d unix s.0 s.1),
          inr (store_at-saves limit e d unix s),
          λ other away. store_at-Same e d unix s.0 other (away s.0 s.1),
        )
  ]

  terminate-saves :
      (limit : ℕ) (jobs : List (Engine F)) (d : Disk) (unix : ℕ)
      → All (DoneOr (IsSaveable limit unix d)) jobs
      → AreApart jobs
      → (jobs' : List (Engine F)) × (d' : Disk) × (terminate jobs d unix ≡ returns (jobs', d'))
        × All (DoneOr (HasSaved limit unix d')) jobs
        × ((other : Bytes) → All (IsElsewhere other) jobs → Same other d d')
  unfolding terminate
  terminate-saves limit [] d unix h apart = ([], d, refl, tt, λ other away. (refl, refl))
  terminate-saves limit (e ∷ jobs) d unix (s, h) (apart, more) =
      let (e', d1, one, saved, same) = terminate_job-saves limit e d unix s in
      let (jobs', d2, rest, all, same') =
        terminate-saves limit jobs d1 unix (apart-Saveable limit unix d d1 e jobs same apart h)
          more in
      let still : DoneOr (HasSaved limit unix d2) e = elim saved [
        | inl done ↦ inl done
        | inr has ↦ inr (
            HasSaved-Same limit unix d1 d2 e
              (λ p e_open. same' (p ++ image_suffix) (all-elsewhere p e_open jobs apart)) has)
      ] in
      (
        e' ∷ jobs',
        d2,
        rw (one) (rw (rest) refl),
        (still, all),
        λ other away.
            let (r1, w1) = same other away.0 in
            let (r2, w2) = same' other away.1 in (r2 ∙ r1, w2 ∙ w1),
      )
    where
      all-elsewhere :
          (p : Bytes)
          → e.writer ≡ some p
          → (ks : List (Engine F)) → All (IsApart e) ks
          → All (IsElsewhere (p ++ image_suffix)) ks
      all-elsewhere p e_open [] a = tt
      all-elsewhere p e_open (k ∷ ks) a = (a.0 p e_open, all-elsewhere p e_open ks a.1)

  AllOpen :
      (limit unix : ℕ) (d : Disk) (jobs : List (Engine F))
      → All (DoneOr (IsSaveable limit unix d)) jobs
      → All IsOpen jobs
  AllOpen limit unix d [] h = tt
  AllOpen limit unix d (e ∷ jobs) (inl done, h) = (λ left. absurd (cc), AllOpen limit unix d jobs h)
  AllOpen limit unix d (e ∷ jobs) (inr s, h) = (λ left. (s.0, s.1), AllOpen limit unix d jobs h)

  -- For jobs with different image files, each of which is finished or can be saved: Terminate returns,
  -- leaves the chunks of all jobs as they are, pauses the unfinished jobs that were queued or
  -- downloading and keeps the state of all others. On the disk it leaves, the image of every unfinished
  -- job is read back with the present chunks and the time of the call; every file that is not the image
  -- file of a job is as it was.
  pub terminate-AllSaved :
      (limit : ℕ) (jobs : List (Engine F)) (d : Disk) (unix : ℕ)
      → All (DoneOr (IsSaveable limit unix d)) jobs
      → AreApart jobs
      → (jobs' : List (Engine F)) × (d' : Disk) × (terminate jobs d unix ≡ returns (jobs', d'))
        × AllStopped jobs jobs'
        × All (DoneOr (HasSaved limit unix d')) jobs
        × ((other : Bytes) → All (IsElsewhere other) jobs → Same other d d')
  terminate-AllSaved limit jobs d unix h apart =
      let (jobs', d', done, saved, same) = terminate-saves limit jobs d unix h apart in
      let (ks, k, done', stopped) =
        terminate-AllStopped jobs d unix (AllOpen limit unix d jobs h) in
      let eq : (ks, k) ≡ (jobs', d') = returns-eq (ks, k) (jobs', d') (sym done' ∙ done) in
      (
        jobs',
        d',
        done,
        subst (λ (r : List (Engine F) × Disk). AllStopped jobs r.0) eq stopped,
        saved,
        same,
      )
