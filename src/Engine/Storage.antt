-- ===== src/Engine/Storage.antt =====
-- src/download_engine.cpp: `StoreUnlocked`, `Store`, `NeedsStore` and `CleanupArtifacts`.
use muld.Prelude.{ℕ, Bool, true, false, Option, none, some, ◌++◌, map, if◌then◌else◌, leb}
use muld.Prelude.Bytes.{Bytes}
use muld.Outcome.{Outcome, returns, ◌>>=◌, or_null}
use muld.Url.{url_string}
use muld.Disk.{Disk, remove_file}
use muld.JobImage.{JobImage, JobImageIndex, write_image, update_image}
use muld.Engine.{Engine, image_suffix, store_threshold, to_chunk_state}

module _ {F : Type 0} where
  unfoldable pub needs_store : Engine F → Bool
  needs_store e = leb store_threshold e.received_since_store

  unfoldable pub job_image : Engine F → ℕ → Bytes → JobImage
  job_image e unix path = record {
    file_path = path;
    file_size = e.file_size;
    max_connections = e.connections.max_connections;
    ranged = e.ranged;
    url = url_string e.url;
    etag = e.etag;
    last_modified = e.last_modified;
    created_at = e.created_at;
    updated_at = unix;
    chunks = map to_chunk_state e.chunks;
  }

  -- What `StoreUnlocked` notes after it has updated the image, or written it anew.
  unfoldable pub after_update : Engine F → Disk → ℕ → Engine F × Disk
  after_update e d unix = (record e { updated_at = unix; received_since_store = 0 }, d)

  unfoldable pub after_write : Engine F → Disk → ℕ → Option (Disk × JobImageIndex) → Engine F × Disk
  after_write e d unix none =
      (record e { updated_at = unix; received_since_store = 0; image_stored = false }, d)
  after_write e d unix (some (d', index)) = (
    record e {
      updated_at = unix;
      received_since_store = 0;
      image_stored = true;
      image_index = index;
    },
    d',
  )

  abbrev pub updated_or : Engine F → ℕ → Engine F × Disk → Option Disk → Engine F × Disk
  updated_or e unix written none = written
  updated_or e unix written (some d') = after_update e d' unix

  unfoldable pub store_at : Engine F → Disk → ℕ → Bytes → Engine F × Disk
  store_at e d unix path =
      let image_path = path ++ image_suffix in
      let updated = update_image d image_path e.image_index (map to_chunk_state e.chunks) unix in
      let written = after_write e d unix (write_image d image_path (job_image e unix path)) in
      if e.image_stored then updated_or e unix written updated else written

  -- `Store`: the path comes from the writer.
  unfoldable pub store : Engine F → Disk → ℕ → Outcome (Engine F × Disk)
  store e d unix = do path ← or_null e.writer; returns (store_at e d unix path)

  -- `CleanupArtifacts`.
  unfoldable pub cleanup : Engine F → Disk → Bool → Engine F × Disk
  cleanup e d remove_output = if e.artifacts_cleaned then (e, d) else (
    record e { writer = none; artifacts_cleaned = true },
    if remove_output then remove_file without_image e.output_path else without_image,
  )
    where
      without_image : Disk
      without_image = remove_file d (e.output_path ++ image_suffix)
