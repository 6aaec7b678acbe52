-- ===== src/Engine/Tally.antt =====
-- What `Store` and the store that is due leave as it was.
use muld.Prelude.{ℕ, ◌+◌, ◌≡◌, refl, Option, none, some, List, ◌++◌, if_both, arith}
use muld.Prelude.Bytes.{Bytes, u64}
use muld.Types.{DownloadCallbacks, CallbackEvent, DownloadState}
use muld.Outcome.{Outcome, returns, or_null, >>=-eq-returns}
use muld.Disk.{Disk}
use muld.JobImage.{JobImageIndex, write_image}
use muld.Chunk.{ChunkInfo}
use muld.Engine.{Engine, image_suffix}
use muld.Engine.Storage.{
  store_at, store, after_update, after_write, updated_or, job_image, needs_store,
}
use muld.Engine.Receive.{store_due}

abbrev pub Kept : Type 0 → Type 0
Kept F =
    DownloadState
    × ℕ
    × ℕ
    × List ChunkInfo
    × Option Bytes
    × DownloadCallbacks
    × List (CallbackEvent F)

-- What storing the image leaves as it was.
abbrev pub kept : {F : Type 0} → Engine F → Kept F
kept e = (e.state, e.n_chunks, e.downloaded_chunks, e.chunks, e.writer, e.callbacks, e.events)

module _ {F : Type 0} where
  after_write-kept :
      (e : Engine F) (d : Disk) (unix : ℕ) (r : Option (Disk × JobImageIndex))
      → kept (after_write e d unix r).0 ≡ kept e
  unfolding after_write
  after_write-kept e d unix none = refl
  after_write-kept e d unix (some r) = refl

  updated_or-kept :
      (e : Engine F) (unix : ℕ) (w : Engine F × Disk) (r : Option Disk)
      → kept w.0 ≡ kept e
      → kept (updated_or e unix w r).0 ≡ kept e
  unfolding after_update
  updated_or-kept e unix w none h = h
  updated_or-kept e unix w (some d) h = refl

  pub store_at-kept :
      (e : Engine F) (d : Disk) (unix : ℕ) (path : Bytes) → kept (store_at e d unix path).0 ≡ kept e
  unfolding store_at
  store_at-kept e d unix path =
      let w =
        after_write-kept e d unix (write_image d (path ++ image_suffix) (job_image e unix path)) in
      if_both (λ (r : Engine F × Disk). kept r.0 ≡ kept e) e.image_stored _ _
        (updated_or-kept e unix _ _ w) w

  pub store-returns :
      (e : Engine F) (d : Disk) (unix : ℕ) (path : Bytes)
      → e.writer ≡ some path
      → store e d unix ≡ returns (store_at e d unix path)
  unfolding store
  store-returns e d unix path open_file = simp open_file

  pub store_due_lem :
      (e : Engine F) (d : Disk) (unix bytes : ℕ) (path : Bytes)
      → e.writer ≡ some path
      → (r : Engine F × Disk) × (store_due e d unix bytes ≡ returns r) × (kept r.0 ≡ kept e)
  unfolding store_due
  store_due_lem e d unix bytes path open_file =
      let e' : Engine F = record e {
        received_since_store = u64 (e.received_since_store + bytes);
      } in
      if_both
        (λ (m : Outcome (Engine F × Disk)).
          (r : Engine F × Disk) × (m ≡ returns r) × (kept r.0 ≡ kept e))
        (needs_store e') _ _
        (
          store_at e' d unix path,
          store-returns e' d unix path open_file,
          store_at-kept e' d unix path,
        )
        ((e', d), refl, refl)

  pub store-kept :
      (e : Engine F) (d : Disk) (unix : ℕ) (r : Engine F × Disk)
      → store e d unix ≡ returns r
      → kept r.0 ≡ kept e
  unfolding store
  store-kept e d unix r h =
      let (path, found, done) =
        >>=-eq-returns (or_null e.writer) (λ path. returns (store_at e d unix path)) r h in
      ground (arith, store_at-kept e d unix path)

  pub store_due-kept :
      (e : Engine F) (d : Disk) (unix bytes : ℕ) (r : Engine F × Disk)
      → store_due e d unix bytes ≡ returns r
      → kept r.0 ≡ kept e
  unfolding store_due
  store_due-kept e d unix bytes r h = ground (
    arith,
    store-kept (record e { received_since_store = u64 (e.received_since_store + bytes) }) d unix r,
  )
