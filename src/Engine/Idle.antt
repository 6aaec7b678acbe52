-- ===== src/Engine/Idle.antt =====
-- A start of a job that has nothing left to receive.
use muld.Prelude.{
  ℕ, ◌≡◌, refl, ap, Bool, true, false, if◌then◌else◌, none, [], length, get_elem?, if_true,
}
use muld.Prelude.Floats.{Floats}
use muld.Types.{on_state_change, queued, downloading}
use muld.Chunk.Work.{count_finished, build_pending_work-finished}
use muld.Connections.{Connections}
use muld.Engine.{Engine, emit, allows, set_state, next_item}
use muld.Engine.Control.{build_work, notify_connection_open}
use muld.Engine.Launch.{reset_speed, prepare, start}
use muld.Engine.States.{on_connections}

module _ (D : Floats) where
  open D use {F}

  -- A job all of whose chunks are finished when it is started is not completed by the start: it is
  -- queued with no work, and a worker that opens a connection makes it downloading and finds no item.
  pub start_with_nothing_left :
      (e : Engine F) (drained started : Connections → Connections) (now : ℕ)
      → allows queued e.state ≡ true
      → count_finished e.chunks ≡ length e.chunks
      → let e' = (start D (on_connections drained) (on_connections started) now e).1 in
        (e'.state ≡ queued)
        × (e'.pending_work ≡ [])
        × ((notify_connection_open e').state ≡ downloading)
        × ((next_item (notify_connection_open e')).0 ≡ none)
  unfolding start prepare reset_speed build_work set_state notify_connection_open next_item
  start_with_nothing_left e drained started now allowed finished =
      let none_left = build_pending_work-finished e.chunks finished in
      let queue : set_state queued e ≡ (true, queued_job) =
        if_true (allows queued e.state) (true, queued_job) (false, e) allowed in
      let run : (start D (on_connections drained) (on_connections started) now e).1 ≡ ready =
        ap (λ (r : Bool × Engine F). (launched r).1) queue in
      rw run (refl, none_left, refl, ap (λ ws. get_elem? ws 0) none_left)
    where
      queued_job : Engine F
      queued_job = emit (record e { state = queued }) (on_state_change queued)

      launched : Bool × Engine F → Bool × Engine F
      launched r =
          if r.0
          then (true, on_connections started (prepare D (on_connections drained r.1) now))
          else (false, e)

      ready : Engine F
      ready = on_connections started (prepare D (on_connections drained queued_job) now)
