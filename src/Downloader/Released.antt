-- ===== src/Downloader/Released.antt =====
-- A worker that is told to release its connection while it holds a work item, and a job without ranges
-- that is resumed.
use mathlib.Core.List.{append-nil}
use muld.Prelude.{
  ℕ, zero, suc, ◌+◌, ◌≡◌, ◌≢◌, ◌<◌, inl, inr, refl, sym, ap, ◌∙◌, Bool, true, false, not, Option,
  none, some, List, [], ◌∷◌, ◌++◌, ◌==◌, get_elem?, if◌then◌else◌, Bool-cases, if_true, arith,
}
use muld.Prelude.Bytes.{Bytes}
use muld.Types.{Url}
use muld.Rate.{is_downloading}
use muld.Chunk.{ChunkInfo, WorkItem, work_item, is_finished, pending_from, build_pending_work}
use muld.Engine.{Engine, next_item}
use muld.Engine.Restart.{hand_out, hand_out-from}
use muld.Downloader.{
  Ending, finished, stopped, disk_failed, raised, Streamed, stream_body, with_bytes,
}
use muld.Downloader.Body.{received, stream_body_lem}
use muld.Downloader.Request.{Request, build_request, Exception, validate_response, Response}
use muld.Downloader.Segment.{Answers, served}
use muld.Downloader.Worker.{
  Attempt, chunk_finished, ChunkRun, unless_thrown, after_body, returned, run_ends, download_chunk,
  connect_first, Turn, ends, worker_ends, add_chunk, download_items,
}

pending_from-work_id :
    (i work_id : ℕ) (cs : List ChunkInfo) (k : ℕ) (x : WorkItem)
    → get_elem? (pending_from i work_id cs).0 k ≡ some x
    → x.work_id ≡ work_id + k
unfolding pending_from work_item
pending_from-work_id i work_id [] k x h = absurd (cc)
pending_from-work_id i work_id (c ∷ cs) zero x h = elim (Bool-cases (is_finished c)) [
  | inl f ↦ pending_from-work_id (i + 1) work_id cs zero x (rw f at h)
  | inr f ↦ let e = rw f at h in ground arith
]
pending_from-work_id i work_id (c ∷ cs) (suc k) x h = elim (Bool-cases (is_finished c)) [
  | inl f ↦ pending_from-work_id (i + 1) work_id cs (suc k) x (rw f at h)
  | inr f ↦ omega (arith, pending_from-work_id (i + 1) (work_id + 1) cs k x (rw f at h))
]

some-eq : (o p : Option WorkItem) → some o ≡ some p → o ≡ p
some-eq o p h = cc

chunk_released :
    (url : Url) (ranged : Bool) (last first : ℕ) (a : Attempt) (rounds : List Attempt)
    (connected : Bool) (file : Bytes)
    → a.release ≡ true
    → download_chunk url ranged last (a ∷ rounds) first connected file
      ≡ run_ends returned file first connected
unfolding download_chunk
chunk_released url ranged last first a rounds connected file told = if_true a.release _ _ told

module _ {F : Type 0} where
  -- The bug of a released worker: one that has taken an item and is then told to release its
  -- connection ends without a request and without a byte received, and no later call of GetNextWorkItem
  -- before the next start hands the item out again.
  pub download_items-released :
      (e : Engine F) (cs : List ChunkInfo) (w : WorkItem) (a : Attempt) (rounds : List Attempt)
      (turns : List Turn) (url : Url) (ranged connected : Bool) (file : Bytes)
      → e.pending_work ≡ (build_pending_work cs).0
      → (next_item e).0 ≡ some w
      → a.release ≡ true
      → let turn : Turn = record { release = false; item = some w; attempts = a ∷ rounds } in
        (download_items url ranged (turn ∷ turns) connected file ≡ worker_ends ends file)
        × ((k i : ℕ) (x : WorkItem)
            → i < k
            → get_elem? (hand_out k (next_item e).1) i ≡ some (some x)
            → x.work_id ≢ w.work_id)
  unfolding download_items next_item build_pending_work
  download_items-released e cs w a rounds turns url ranged connected file made taken told = (
    ap (λ run. add_chunk w.chunk_id run (download_items url ranged turns run.is_connected run.file))
        (chunk_released url ranged w.range_end w.range_start a rounds connected file told),
    λ k i x h later same.
        let place : get_elem? e.pending_work (e.next_work_item + 1 + i) ≡ some x =
          some-eq _ _ (sym (hand_out-from k i (next_item e).1 h) ∙ later) in
        let id =
          pending_from-work_id 0 0 cs (e.next_work_item + 1 + i) x
            (ap (λ ws. get_elem? ws (e.next_work_item + 1 + i)) (sym made) ∙ place) in
        let id' =
          pending_from-work_id 0 0 cs e.next_work_item w
            (ap (λ ws. get_elem? ws e.next_work_item) (sym made) ∙ taken) in
        absurd (omega arith),
  )

accepted : (r : Response) → r.status ≡ 200 → validate_response r false ≡ none
unfolding validate_response
accepted r h = if_true (r.status == 200) _ _ (ground arith)

-- A round in which nothing is thrown and the body ends.
whole_round :
    (leaving stopped_ : Bool) (x y z : Option Exception) (en : Ending) (keep_alive connected : Bool)
    (offset : ℕ) (file : Bytes) (request : Request) (s : Streamed) (again : ChunkRun)
    → leaving ≡ false
    → stopped_ ≡ false
    → x ≡ none
    → y ≡ none
    → z ≡ none
    → en ≡ finished
    → let run = unless_thrown y file offset (
        unless_thrown z file offset (
          let after = after_body false keep_alive en s again in
          record after { notified = s.notified ++ after.notified })) in
      let sent = record run { requests = request ∷ run.requests } in
      let whole =
        if leaving
        then run_ends returned file offset connected
        else if stopped_
        then run_ends returned file offset connected
        else unless_thrown x file offset sent in
      (whole.ending ≡ chunk_finished) × (whole.file ≡ s.file)
whole_round true st x y z en k c o f r s again h1 h2 h3 h4 h5 h6 = absurd (cc)
whole_round false true x y z en k c o f r s again h1 h2 h3 h4 h5 h6 = absurd (cc)
whole_round false false (some x) y z en k c o f r s again h1 h2 h3 h4 h5 h6 = absurd (cc)
whole_round false false none (some y) z en k c o f r s again h1 h2 h3 h4 h5 h6 = absurd (cc)
whole_round false false none none (some z) en k c o f r s again h1 h2 h3 h4 h5 h6 = absurd (cc)
whole_round false false none none none finished k c o f r s again h1 h2 h3 h4 h5 h6 = (refl, refl)
whole_round false false none none none stopped k c o f r s again h1 h2 h3 h4 h5 h6 = absurd (cc)
whole_round false false none none none disk_failed k c o f r s again h1 h2 h3 h4 h5 h6 = absurd (cc)
whole_round false false none none none (raised w) k c o f r s again h1 h2 h3 h4 h5 h6 = absurd (cc)

-- The bug of a resumed job without ranges: the server sends the whole file, and the worker writes it
-- from the offset that the job had reached, and counts the chunk as finished.
pub download_chunk-unranged :
    (content : Bytes) (url : Url) (last first : ℕ) (a : Attempt) (rounds : List Attempt)
    (connected : Bool) (file : Bytes)
    → a.release ≡ false
    → is_downloading a.state ≡ true
    → connect_first connected a.connecting ≡ none
    → a.exchange ≡ none
    → a.response.status ≡ 200
    → Answers content (build_request url first last false) a.pieces
    → (stream_body a.pieces first file).ending ≡ finished
    → let run = download_chunk url false last (a ∷ rounds) first connected file in
      (run.ending ≡ chunk_finished) × (run.file ≡ with_bytes first content file)
unfolding download_chunk Answers served build_request
download_chunk-unranged content url last first a rounds connected file stay loading joined sent
      status (rest, cut, all) done =
    let s = stream_body a.pieces first file in
    let written = (stream_body_lem a.pieces first file).0 in
    let whole : received a.pieces ≡ content =
      sym (append-nil (received a.pieces))
      ∙ ap (λ t. received a.pieces ++ t) (sym (all first file done))
      ∙ cut in
    let same : s.file ≡ with_bytes first content file =
      written ∙ ap (λ t. with_bytes first t file) whole in
    let round =
      whole_round a.release (not (is_downloading a.state)) (connect_first connected a.connecting)
        a.exchange (validate_response a.response false) s.ending a.keep_alive connected first file
        (build_request url first last false) s
        (download_chunk url false last rounds s.current_offset false s.file) stay (ap not loading)
        joined sent (accepted a.response status) done in
    (round.0, round.1 ∙ same)
