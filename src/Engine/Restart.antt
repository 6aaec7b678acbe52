-- ===== src/Engine/Restart.antt =====
-- Restarting a job: the work of a start, what the workers get of it, and the job that its own image
-- describes.
use muld.Prelude.{
  ℕ, zero, suc, ◌+◌, ◌<◌, ◌≡◌, refl, ap, ◌∙◌, Option, some, List, [], ◌∷◌, map, get_elem?, arith,
}
use muld.Prelude.Bytes.{Bytes, u64_mod}
use muld.Prelude.Floats.{Floats}
use muld.Outcome.{returns}
use muld.Types.{DownloadCallbacks}
use muld.Url.RoundTrip.{IsPlain, parse_url-url_string}
use muld.Disk.{Disk, open_writer}
use muld.Chunk.Work.{count_finished, build_pending_work-count}
use muld.Chunk.{ChunkInfo, WorkItem, build_pending_work}
use muld.Engine.{Engine, next_item, to_chunk_state}
use muld.Engine.Control.{build_work}
use muld.Engine.Launch.{load_chunks, loaded, load_engine}
use muld.Engine.Storage.{job_image}

module _ {F : Type 0} where
  -- What `k` calls of `GetNextWorkItem` give, by whichever workers.
  unfoldable pub hand_out : ℕ → Engine F → List (Option WorkItem)
  hand_out zero e = []
  hand_out (suc k) e = (next_item e).0 ∷ hand_out k (next_item e).1

  pub hand_out-from :
      (k i : ℕ) (e : Engine F)
      → i < k
      → get_elem? (hand_out k e) i ≡ some (get_elem? e.pending_work (e.next_work_item + i))
  unfolding hand_out next_item
  hand_out-from zero i e h = absurd (omega arith)
  hand_out-from (suc k) zero e h = ground arith
  hand_out-from (suc k) (suc i) e h =
      hand_out-from k i (next_item e).1 (omega arith)
      ∙ ap (λ n. some (get_elem? e.pending_work n)) (omega arith)

  -- After a start the first call of `GetNextWorkItem`, by whichever worker, gets the first pending
  -- item, the second call the second item, and so on; every call after the last item gets none.
  pub hand_out-build_work :
      (k i : ℕ) (e : Engine F)
      → i < k
      → get_elem? (hand_out k (build_work e)) i ≡ some (get_elem? (build_pending_work e.chunks).0 i)
  unfolding build_work
  hand_out-build_work k i e h =
      hand_out-from k i (build_work e) h
      ∙ ap (λ n. some (get_elem? (build_pending_work e.chunks).0 n)) (omega arith)

-- Chunks whose ids are their places from `i` on and whose counts are 64-bit numbers.
unfoldable pub AreNumbered : ℕ → List ChunkInfo → Type 0
AreNumbered i [] = Unit {0}
AreNumbered i (c ∷ cs) = (c.chunk_id ≡ i) × (c.received < u64_mod) × AreNumbered (i + 1) cs

load_chunks-map :
    (i : ℕ) (cs : List ChunkInfo) → AreNumbered i cs → load_chunks i (map to_chunk_state cs) ≡ cs
unfolding load_chunks AreNumbered
load_chunks-map i [] h = refl
load_chunks-map i (c ∷ cs) (id, small, h) = rw (load_chunks-map (i + 1) cs h) (ground arith)

module _ (D : Floats) where
  open D use {F}

  -- A job and a later one made from its image: for an address of proper form, and chunks numbered in
  -- order, the constructor gives a job with the same address, output path, size, chunks, validators and
  -- time of creation, which has counted the finished chunks and, once started, has the same work.
  pub load_engine-job_image :
      (e : Engine F) (unix now : ℕ) (path : Bytes) (callbacks : DownloadCallbacks) (d d' : Disk)
      → IsPlain e.url
      → AreNumbered 0 e.chunks
      → open_writer d path e.file_size ≡ some d'
      → (r : Engine F) × (load_engine D (job_image e unix path) callbacks now d ≡ returns (r, d'))
        × (r.url ≡ e.url)
        × (r.output_path ≡ path)
        × (r.writer ≡ some path)
        × (r.file_size ≡ e.file_size)
        × (r.ranged ≡ e.ranged)
        × (r.chunks ≡ e.chunks)
        × (r.etag ≡ e.etag)
        × (r.last_modified ≡ e.last_modified)
        × (r.created_at ≡ e.created_at)
        × (r.downloaded_chunks ≡ count_finished e.chunks)
        × ((build_work r).pending_work ≡ (build_work e).pending_work)
  unfolding load_engine loaded job_image build_work
  load_engine-job_image e unix now path callbacks d d' plain numbered opened =
      let same = load_chunks-map 0 e.chunks numbered in
      (
        loaded D (job_image e unix path) callbacks now e.url,
        rw (parse_url-url_string e.url plain, opened) refl,
        refl,
        refl,
        refl,
        refl,
        refl,
        same,
        refl,
        refl,
        refl,
        ap (λ cs. (build_pending_work cs).1) same ∙ build_pending_work-count e.chunks,
        ap (λ cs. (build_pending_work cs).0) same,
      )
