-- ===== src/Engine/Control.antt =====
-- src/download_engine.cpp: `Pause`, `Cancel`, `Fail`, `BuildPendingWork` and the notifications of
-- connections.
use muld.Prelude.{ℕ, Bool, true, false, not, ◌&&◌, if◌then◌else◌}
use muld.Types.{MuldError, downloading, failed, paused, canceled, on_state_change, on_error}
use muld.Outcome.{Outcome, returns, ◌>>=◌}
use muld.Disk.{Disk}
use muld.Chunk.{build_pending_work}
use muld.Connections.{open_connection, close_connection}
use muld.Engine.{Engine, is_queued, is_canceled, is_zero_ℤ, emit, set_state}
use muld.Engine.Storage.{store, cleanup}

module _ {F : Type 0} where
  -- `BuildPendingWork`.
  unfoldable pub build_work : Engine F → Engine F
  build_work e = record e {
    pending_work = (build_pending_work e.chunks).0;
    next_work_item = 0;
    downloaded_chunks = (build_pending_work e.chunks).1;
  }

  unfoldable pub pause : Engine F → Bool × Engine F
  pause e = set_state paused e

  unfoldable pub cancel : Engine F → Disk → Bool × Engine F × Disk
  cancel e d =
      let (done, e') = set_state canceled e in
      let (cleaned, d') = cleanup e' d true in
      if not done
      then (false, e, d)
      else if is_zero_ℤ e'.connections.n_connections
      then (true, cleaned, d')
      else (true, e', d)

  -- `NotifyConnectionOpen`, `NotifyConnectionClose`.
  unfoldable pub notify_connection_open : Engine F → Engine F
  notify_connection_open e =
      let e' = record e { connections = open_connection e.connections } in
      if is_queued e.state
      then emit (record e' { state = downloading }) (on_state_change downloading)
      else e'

  unfoldable pub notify_connection_close : Engine F → Disk → Engine F × Disk
  notify_connection_close e d =
      let e' = record e { connections = close_connection e.connections } in
      if is_zero_ℤ e'.connections.n_connections && is_canceled e.state
      then cleanup e' d true
      else (e', d)

  -- `Fail`.
  unfoldable pub fail_stored : MuldError → Engine F × Disk → Engine F × Disk
  fail_stored error (stored, d) = (emit (record stored { error = error }) (on_error error), d)

  unfoldable pub fail : Engine F → Disk → ℕ → MuldError → Outcome (Engine F × Disk)
  fail e d unix error =
      let (done, e') = set_state failed e in
      let failing = store e' d unix >>= λ saved. returns (fail_stored error saved) in
      if done then failing else returns (e, d)
