-- ===== src/Engine/States.antt =====
-- The life of a job: the operations of the engine as steps, and what no sequence of them breaks.
use muld.Prelude.{ℕ, suc, ◌≡◌, Bool, true, false, List, [], ◌∷◌}
use muld.Prelude.Int.{ℤ}
use muld.Prelude.Bytes.{Bytes}
use muld.Prelude.Floats.{Floats}
use muld.Types.{
  Url, MuldError, DownloadState, DownloadCallbacks, completed, CallbackEvent, on_progress,
  on_chunk_progress, on_state_change, on_finish, on_error,
}
use muld.Outcome.{returns}
use muld.Disk.{Disk}
use muld.Connections.{Connections}
use muld.Rate.{Rate}
use muld.Engine.{
  Engine, set_validators, attach_callbacks, set_url, set_connection_bounds, set_desired_connections,
  next_item,
}
use muld.Engine.Storage.{store}
use muld.Engine.Control.{pause, cancel, notify_connection_open, notify_connection_close, fail}
use muld.Engine.Launch.{start, resume, set_limit}
use muld.Engine.Receive.{notify_chunk_received}

-- The calls of `on_finish` among the events.
unfoldable pub finishes : {F : Type 0} → List (CallbackEvent F) → ℕ
finishes [] = 0
finishes (on_finish ∷ events) = suc (finishes events)
finishes (on_progress p ∷ events) = finishes events
finishes (on_chunk_progress c ∷ events) = finishes events
finishes (on_state_change s ∷ events) = finishes events
finishes (on_error m ∷ events) = finishes events

abbrev pub is_completed : DownloadState → Bool
is_completed completed = true
is_completed _ = false

-- Work of other threads on the counters of connections alone.
abbrev pub on_connections : {F : Type 0} → (Connections → Connections) → Engine F → Engine F
on_connections f e = record e { connections = f e.connections }

module _ (D : Floats) where
  open D use {F}

  -- The operations of a job, each with the disk it works on. `drained` and `started` are what other
  -- threads do to the connections while `Start` waits, and the workers that it schedules.
  pub data Step : Engine F × Disk → Engine F × Disk → Type 0 where
    start_step :
        (e : Engine F) (d : Disk) (drained started : Connections → Connections) (now : ℕ)
        → Step (e, d) ((start D (on_connections drained) (on_connections started) now e).1, d)
    resume_step :
        (e : Engine F) (d : Disk) (drained started : Connections → Connections) (now : ℕ)
        → Step (e, d) ((resume D (on_connections drained) (on_connections started) now e).1, d)
    pause_step : (e : Engine F) (d : Disk) → Step (e, d) ((pause e).1, d)
    cancel_step : (e : Engine F) (d : Disk) → Step (e, d) ((cancel e d).1, (cancel e d).2)
    fail_step :
        (e : Engine F) (d : Disk) (unix : ℕ) (error : MuldError) (r : Engine F × Disk)
        → fail e d unix error ≡ returns r
        → Step (e, d) r
    open_step : (e : Engine F) (d : Disk) → Step (e, d) (notify_connection_open e, d)
    close_step : (e : Engine F) (d : Disk) → Step (e, d) (notify_connection_close e d)
    receive_step :
        (e : Engine F) (d : Disk) (now now' unix unix' chunk_id bytes : ℕ) (r : Engine F × Disk)
        → notify_chunk_received D e d now now' unix unix' chunk_id bytes ≡ returns r
        → Step (e, d) r
    store_step :
        (e : Engine F) (d : Disk) (unix : ℕ) (r : Engine F × Disk)
        → store e d unix ≡ returns r
        → Step (e, d) r
    item_step : (e : Engine F) (d : Disk) → Step (e, d) ((next_item e).1, d)
    limit_step :
        (e : Engine F) (d : Disk) (limit now : ℕ) → Step (e, d) (set_limit D e limit now, d)
    bounds_step :
        (e : Engine F) (d : Disk) (lo hi : ℤ) → Step (e, d) (set_connection_bounds e lo hi, d)
    desired_step : (e : Engine F) (d : Disk) (n : ℤ) → Step (e, d) (set_desired_connections e n, d)
    validators_step :
        (e : Engine F) (d : Disk) (etag last_modified : Bytes)
        → Step (e, d) (set_validators e etag last_modified, d)
    attach_step :
        (e : Engine F) (d : Disk) (callbacks : DownloadCallbacks)
        → Step (e, d) (attach_callbacks e callbacks, d)
    -- PlanNewWorkers, ShouldReleaseConnection, AcquireReadBudget and ConsumeTokenWaitRatio, whatever
    -- they make of the counters and of the rate.
    connections_step :
        (e : Engine F) (d : Disk) (f : Connections → Connections)
        → Step (e, d) (on_connections f e, d)
    rate_step : (e : Engine F) (d : Disk) (r : Rate F) → Step (e, d) (record e { rate = r }, d)
    url_step : (e : Engine F) (d : Disk) (url : Url) → Step (e, d) (set_url e url, d)

  pub data Reach : Engine F × Disk → Engine F × Disk → Type 0 where
    here : (s : Engine F × Disk) → Reach s s
    then_ : (s t u : Engine F × Disk) → Reach s t → Step t u → Reach s u
