-- ===== src/Engine/Follows.antt =====
-- What the operations of the engine keep of the state, the callbacks and the events.
use muld.Prelude.{
  ℕ, zero, suc, ◌+◌, ◌≡◌, refl, sym, ap, ◌∙◌, Bool, true, false, ◌&&◌, not, Option, none, some,
  List, [], ◌∷◌, ◌++◌, ◌-◌, ◌==◌, if◌then◌else◌, arith, if_both, Bool-cases, inl, inr, get_elem?,
}
use muld.Prelude.Bytes.{Bytes, u64, u64_mod}
use muld.Prelude.Floats.{Floats}
use muld.Types.{
  MuldError, DownloadState, initialized, queued, downloading, completed, failed, paused, canceled,
  CallbackEvent, on_progress, on_chunk_progress, on_state_change, on_finish, on_error,
  DownloadCallbacks, is_set, calls,
}
use muld.Outcome.{Outcome, returns, or_throw, or_null, ◌>>=◌, >>=-eq-returns, returns-eq}
use muld.Disk.{Disk}
use muld.Chunk.{ChunkInfo, update_received, is_finished}
use muld.Connections.{Connections, open_connection, close_connection}
use muld.Engine.{
  next_item, set_connection_bounds, set_desired_connections, set_validators, set_url, Engine, emit,
  allows, set_state, is_zero_ℤ, is_queued, is_canceled,
}
use muld.Engine.Storage.{store_at, store, cleanup}
use muld.Engine.Control.{
  build_work, pause, cancel, notify_connection_open, notify_connection_close, fail, fail_stored,
}
use muld.Engine.Launch.{prepare, start, resume, set_limit, reset_speed}
use muld.Engine.Tally.{Kept, kept, store_at-kept, store-kept, store_due-kept}
use muld.Engine.Receive.{
  store_due, progress, chunk_event, can_complete, finish_job, finish_stored, count_chunk,
  count_if_finished, report, measure, measures, add_bytes, notify_chunk, notify_chunk_received,
}
use muld.Engine.States.{
  finishes, is_completed, on_connections, Step, Reach, start_step, resume_step, pause_step,
  cancel_step, fail_step, open_step, close_step, receive_step, store_step, item_step, limit_step,
  bounds_step, desired_step, validators_step, url_step, here, then_,
}
pub mod Operations

pub allows-open :
    (next s : DownloadState)
    → allows next completed ≡ false
    → allows next s ≡ true
    → is_completed s ≡ false
allows-open next completed a h = absurd (cc)
allows-open next initialized a h = refl
allows-open next queued a h = refl
allows-open next downloading a h = refl
allows-open next failed a h = refl
allows-open next paused a h = refl
allows-open next canceled a h = refl

pub finishes-finish :
    (F : Type 0) (cbs : DownloadCallbacks)
    → finishes {F = F} (calls cbs on_finish) ≡ (if cbs.has_finish then 1 else 0)
unfolding finishes
finishes-finish F cbs = ground arith

abbrev pub Log : Type 0 → Type 0
Log F = DownloadState × DownloadCallbacks × List (CallbackEvent F)

module _ {F : Type 0} where
  pub finishes-append :
      (xs ys : List (CallbackEvent F)) → finishes (xs ++ ys) ≡ finishes xs + finishes ys
  unfolding finishes
  finishes-append [] ys = omega arith
  finishes-append (on_finish ∷ xs) ys = omega (arith, finishes-append xs ys)
  finishes-append (on_progress p ∷ xs) ys = finishes-append xs ys
  finishes-append (on_chunk_progress p ∷ xs) ys = finishes-append xs ys
  finishes-append (on_state_change p ∷ xs) ys = finishes-append xs ys
  finishes-append (on_error p ∷ xs) ys = finishes-append xs ys

  abbrev pub is_finish : CallbackEvent F → Bool
  is_finish on_finish = true
  is_finish (on_progress p) = false
  is_finish (on_chunk_progress p) = false
  is_finish (on_state_change p) = false
  is_finish (on_error p) = false

  pub finishes-calls :
      (cbs : DownloadCallbacks) (event : CallbackEvent F)
      → is_finish event ≡ false
      → finishes (calls cbs event) ≡ 0
  unfolding finishes
  finishes-calls cbs on_finish h = absurd (cc)
  finishes-calls cbs (on_progress p) h = ground arith
  finishes-calls cbs (on_chunk_progress p) h = ground arith
  finishes-calls cbs (on_state_change p) h = ground arith
  finishes-calls cbs (on_error p) h = ground arith

  abbrev pub log : Engine F → Log F
  log e = (e.state, e.callbacks, e.events)

  -- The calls of `on_finish` in a step: one if the step completes the job and there is the callback.
  abbrev pub told_in : Engine F → Engine F → ℕ
  told_in a b =
      if not (is_completed a.state) && is_completed b.state && a.callbacks.has_finish then 1 else 0

  -- What an operation that attaches no callbacks does.
  pub record Follows (a b : Engine F) : Type 0 where
    pub count : finishes b.events ≡ finishes a.events + told_in a b
    pub final : is_completed a.state ≡ true → is_completed b.state ≡ true
    pub same : b.callbacks ≡ a.callbacks

  pub Follows-log : (a b : Engine F) → log b ≡ log a → Follows a b
  Follows-log a b e = record {
    count = ground (arith, ap (λ l. l.0) e, ap (λ l. l.2) e);
    final = λ c. ap is_completed (ap (λ l. l.0) e) ∙ c;
    same = ap (λ l. l.1) e;
  }

  pub Follows-trans : (a b c : Engine F) → Follows a b → Follows b c → Follows a c
  Follows-trans a b c f g = record {
    count = ground (
      arith,
      f.count,
      g.count,
      f.final,
      g.final,
      ap (λ (k : DownloadCallbacks). k.has_finish) f.same,
    );
    final = λ h. g.final (f.final h);
    same = g.same ∙ f.same;
  }

  pub emit-Follows :
      (e : Engine F) (event : CallbackEvent F) → is_finish event ≡ false → Follows e (emit e event)
  emit-Follows e event h = record {
    count = ground (
      arith,
      finishes-append e.events (calls e.callbacks event),
      finishes-calls e.callbacks event h,
    );
    final = λ c. c;
    same = refl;
  }

  -- From a state that is not completed to one that is not.
  pub state-Follows :
      (next : DownloadState) (e : Engine F)
      → is_completed next ≡ false
      → is_completed e.state ≡ false
      → Follows e ((record e { state = next }))
  state-Follows next e h open_job = record {
    count = ground arith;
    final = λ c. absurd (cc);
    same = refl;
  }

  pub set_state-Follows :
      (next : DownloadState) (e : Engine F)
      → is_completed next ≡ false
      → allows next completed ≡ false
      → Follows e ((set_state next e).1)
  unfolding set_state
  set_state-Follows next e h a = go (allows next e.state) (allows-open next e.state a)
    where
      pick : Bool → Bool × Engine F
      pick b =
          if b then (true, emit (record e { state = next }) (on_state_change next)) else (false, e)

      go : (b : Bool) → (b ≡ true → is_completed e.state ≡ false) → Follows e ((pick b).1)
      go true open_job =
          Follows-trans _ _ _ (state-Follows next e h (open_job refl))
            (emit-Follows (record e { state = next }) (on_state_change next) refl)
      go false open_job = Follows-log _ _ refl

  pub cleanup-log : (e : Engine F) (d : Disk) (b : Bool) → log (cleanup e d b).0 ≡ log e
  unfolding cleanup
  cleanup-log e d b =
      if_both (λ (r : Engine F × Disk). log r.0 ≡ log e) e.artifacts_cleaned _ _ refl refl

  abbrev pub log_of : Kept F → Log F
  log_of k = (k.0, k.5, k.6)
