-- ===== src/Engine/Once.antt =====
-- `on_finish` is called once, and a completed job stays completed.
use muld.Prelude.{
  ℕ, ◌≡◌, refl, sym, ap, Bool, true, false, ◌+◌, ◌⊎◌, inl, inr, Bool-cases, if◌then◌else◌, arith,
  if_both, get_elem?,
}
use muld.Prelude.Floats.{Floats}
use muld.Types.{queued, completed, paused, CallbackEvent, on_progress, on_chunk_progress}
use muld.Outcome.{returns, or_throw, >>=-eq-returns, returns-eq}
use muld.Disk.{Disk}
use muld.Chunk.{ChunkInfo, update_received, is_finished}
use muld.Connections.{Connections}
use muld.Engine.{
  next_item, set_connection_bounds, set_desired_connections, set_validators, set_url,
  attach_callbacks, Engine, emit, set_state,
}
use muld.Engine.Control.{build_work, pause}
use muld.Engine.Launch.{prepare, start, resume, set_limit, reset_speed}
use muld.Engine.Tally.{store_due-kept}
use muld.Engine.Receive.{
  store_due, progress, chunk_event, count_chunk, count_if_finished, report, measure, measures,
  add_bytes, notify_chunk, notify_chunk_received,
}
use muld.Engine.States.{
  finishes, is_completed, on_connections, Step, Reach, start_step, resume_step, pause_step,
  cancel_step, fail_step, open_step, close_step, receive_step, store_step, item_step, limit_step,
  bounds_step, desired_step, validators_step, url_step, attach_step, connections_step, rate_step,
  here, then_,
}
use muld.Engine.Follows.{
  Follows, told_in, Follows-log, Follows-trans, emit-Follows, log, log_of, set_state-Follows,
}
use muld.Engine.Follows.Operations.{
  cancel-Follows, close-Follows, count-Follows, fail-Follows, open-Follows, store-Follows,
}

module _ (D : Floats) where
  open D use {F}

  report-Follows :
      (e : Engine F) (now now' chunk_id : ℕ) (chunk : ChunkInfo)
      → Follows e (report D e now now' chunk_id chunk)
  unfolding report measure
  report-Follows e now now' chunk_id chunk =
      if_both (λ (x : Engine F). Follows e x) (measures D e now now') _ _
        (Follows-trans e measured _ (Follows-log e measured refl) (
          Follows-trans measured told _ (emit-Follows measured event refl)
            (emit-Follows told (on_progress (progress D told)) refl)))
        (emit-Follows e event refl)
    where
      event : CallbackEvent F
      event = on_chunk_progress (chunk_event chunk_id chunk)

      measured : Engine F
      measured = measure D e now'

      told : Engine F
      told = emit measured event

  receive-Follows :
      (e : Engine F) (d : Disk) (now now' unix unix' chunk_id bytes : ℕ) (r : Engine F × Disk)
      → notify_chunk_received D e d now now' unix unix' chunk_id bytes ≡ returns r
      → Follows e r.0
  unfolding notify_chunk_received notify_chunk add_bytes count_if_finished
  receive-Follows e d now now' unix unix' chunk_id bytes r h =
      let (old, found, h1) = >>=-eq-returns (or_throw (get_elem? e.chunks chunk_id)) _ r h in
      let chunk = update_received old bytes in
      let added = add_bytes e chunk_id chunk bytes in
      let reported = report D added now now' chunk_id chunk in
      let (saved, stored, h2) =
        >>=-eq-returns (store_due reported d unix bytes) (λ s. count_if_finished D chunk unix' s) r
          h1 in
      Follows-trans e added r.0 (Follows-log e added refl) (
        Follows-trans added reported r.0 (report-Follows added now now' chunk_id chunk) (
          Follows-trans reported saved.0 r.0
            (Follows-log reported saved.0
              (ap log_of (store_due-kept reported d unix bytes saved stored)))
            (counted saved (is_finished chunk) h2)))
    where
      counted :
          (saved : Engine F × Disk) (is_full : Bool)
          → (if is_full then count_chunk saved.0 saved.1 unix' else returns (saved.0, saved.1))
            ≡ returns r
          → Follows saved.0 r.0
      counted saved true q = count-Follows saved.0 saved.1 unix' r q
      counted saved false q =
          Follows-log saved.0 r.0
            (ap (λ (s : Engine F × Disk). log s.0) (sym (returns-eq (saved.0, saved.1) r q)))

  start-Follows :
      (e : Engine F) (drained started : Connections → Connections) (now : ℕ)
      → Follows e (start D (on_connections drained) (on_connections started) now e).1
  unfolding start prepare build_work reset_speed
  start-Follows e drained started now =
      if_both (λ (r : Bool × Engine F). Follows e r.1) (set_state queued e).0 _ _
        (Follows-trans e (set_state queued e).1 _ (set_state-Follows queued e refl refl)
          (Follows-log (set_state queued e).1 _ refl))
        (Follows-log e e refl)

  resume-Follows :
      (e : Engine F) (drained started : Connections → Connections) (now : ℕ)
      → Follows e (resume D (on_connections drained) (on_connections started) now e).1
  unfolding resume start
  resume-Follows e drained started now = start-Follows e drained started now

  -- What a step does to the calls of `on_finish`, and that a completed job stays completed.
  record Counts (a b : Engine F) : Type 0 where
    count : finishes b.events ≡ finishes a.events + told_in a b
    final : is_completed a.state ≡ true → is_completed b.state ≡ true

  Follows-Counts : (a b : Engine F) → Follows a b → Counts a b
  Follows-Counts a b f = record { count = f.count; final = f.final }

  Step-Counts : (s t : Engine F × Disk) → Step D s t → Counts s.0 t.0
  unfolding pause next_item set_limit set_connection_bounds set_desired_connections set_validators
      set_url attach_callbacks
  Step-Counts _ _ (start_step e d drained started now) =
      Follows-Counts _ _ (start-Follows e drained started now)
  Step-Counts _ _ (resume_step e d drained started now) =
      Follows-Counts _ _ (resume-Follows e drained started now)
  Step-Counts _ _ (pause_step e d) = Follows-Counts _ _ (set_state-Follows paused e refl refl)
  Step-Counts _ _ (cancel_step e d) = Follows-Counts _ _ (cancel-Follows e d)
  Step-Counts _ _ (fail_step e d unix error r h) =
      Follows-Counts _ _ (fail-Follows e d unix error r h)
  Step-Counts _ _ (open_step e d) = Follows-Counts _ _ (open-Follows e)
  Step-Counts _ _ (close_step e d) = Follows-Counts _ _ (close-Follows e d)
  Step-Counts _ _ (receive_step e d now now' unix unix' i bytes r h) =
      Follows-Counts _ _ (receive-Follows e d now now' unix unix' i bytes r h)
  Step-Counts _ _ (store_step e d unix r h) = Follows-Counts _ _ (store-Follows e d unix r h)
  Step-Counts _ _ (item_step e d) = Follows-Counts _ _ (Follows-log e _ refl)
  Step-Counts _ _ (limit_step e d limit now) = Follows-Counts _ _ (Follows-log e _ refl)
  Step-Counts _ _ (bounds_step e d lo hi) = Follows-Counts _ _ (Follows-log e _ refl)
  Step-Counts _ _ (desired_step e d n) = Follows-Counts _ _ (Follows-log e _ refl)
  Step-Counts _ _ (validators_step e d etag last_modified) =
      Follows-Counts _ _ (Follows-log e _ refl)
  Step-Counts _ _ (url_step e d url) = Follows-Counts _ _ (Follows-log e _ refl)
  Step-Counts _ _ (connections_step e d f) = Follows-Counts _ _ (Follows-log e _ refl)
  Step-Counts _ _ (rate_step e d r) = Follows-Counts _ _ (Follows-log e _ refl)
  Step-Counts _ _ (attach_step e d callbacks) = record { count = ground arith; final = λ h. h }

  -- A sequence in which one step completes the job, with as many calls of `on_finish` as that step has
  -- to make.
  abbrev pub Completes : Engine F × Disk → Engine F × Disk → Type 0
  Completes s t =
      (a : Engine F × Disk) × (b : Engine F × Disk) × Reach D s a
      × Step D a b
      × Reach D b t
      × (is_completed a.0.state ≡ false)
      × (is_completed b.0.state ≡ true)
      × (is_completed t.0.state ≡ true)
      × (finishes t.0.events ≡ (if a.0.callbacks.has_finish then 1 else 0))

  -- After any sequence of operations that return, on a job that was not completed and whose
  -- `on_finish` was not called before: the job is not completed and the callback was not called; or
  -- one of the operations completed it, the job has stayed completed since, and the callback was
  -- called exactly once if there was one when that operation began, and not at all if there was none.
  pub finishes_once :
      (s t : Engine F × Disk)
      → is_completed s.0.state ≡ false
      → finishes s.0.events ≡ 0
      → Reach D s t
      → ((is_completed t.0.state ≡ false) × (finishes t.0.events ≡ 0)) ⊎ Completes s t
  finishes_once s _ open_job unfinished (here _) = inl (open_job, unfinished)
  finishes_once s u open_job unfinished (then_ _ t _ r step) =
      let c = Step-Counts t u step in
      let count = c.count in
      elim (finishes_once s t open_job unfinished r) [
        | inl (still_open, none_yet) ↦ elim (Bool-cases (is_completed u.0.state)) [
          | inl done ↦ inr (t, u, r, step, here u, still_open, done, done, ground arith)
          | inr not_yet ↦ inl (not_yet, ground arith)
        ]
        | inr (a, b, before, completing, after, open_before, done, stays, told) ↦ inr (
          a,
          b,
          before,
          completing,
          then_ b t u after step,
          open_before,
          done,
          c.final stays,
          ground arith,
        )
      ]

  -- A completed job stays completed, after any sequence of operations that return.
  pub completed_stays :
      (s t : Engine F × Disk) → s.0.state ≡ completed → Reach D s t → is_completed t.0.state ≡ true
  completed_stays s _ done (here _) = ap is_completed done
  completed_stays s u done (then_ _ t _ r step) =
      (Step-Counts t u step).final (completed_stays s t done r)
