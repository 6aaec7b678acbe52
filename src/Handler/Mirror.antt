-- ===== src/Handler/Mirror.antt =====
-- The state of a handle against the state of its engine.
use mathlib.Core.Path.{subst}
use muld.Prelude.{
  ◌⊎◌, inl, inr, ℕ, ◌≡◌, refl, ap, sym, ◌∙◌, Bool, true, some, [], ◌∷◌, if_both, not,
}
use muld.Prelude.Floats.{Floats}
use muld.Types.{DownloadState, queued, canceled, paused, on_state_change}
use muld.Disk.{Disk}
use muld.Connections.{Connections}
use muld.Engine.{Engine, allows, set_state, is_zero_ℤ}
use muld.Engine.Storage.{cleanup}
use muld.Engine.Control.{build_work, pause, cancel}
use muld.Engine.Launch.{prepare, reset_speed, resume}
use muld.Engine.States.{on_connections}
use muld.Engine.Follows.{Log, log, cleanup-log}
use muld.Handler.{
  Handler, all_callbacks, settle, deliver_all, deliver, pause_handler, pause_engine, cancel_handler,
  cancel_engine, resume_handler, resume_engine,
}

-- A handle whose engine is `e`: it was told everything, and has the engine's state.
pub record Mirrors {F : Type 0} (h : Handler F) (e : Engine F) : Type 0 where
  pub engine : h.engine ≡ some e
  pub state : h.state ≡ e.state
  pub quiet : e.events ≡ []
  pub callbacks : e.callbacks ≡ all_callbacks

-- What is still to be told is at most the present state.
Pending : {F : Type 0} → DownloadState → Log F → Type 0
Pending s l = (((s ≡ l.0) × (l.2 ≡ [])) ⊎ (l.2 ≡ on_state_change l.0 ∷ [])) × (l.1 ≡ all_callbacks)

module _ {F : Type 0} where
  Mirrors-settle :
      (h : Handler F) (e : Engine F)
      → Pending h.state (log e)
      → Mirrors (settle h e) (record e { events = [] })
  unfolding settle deliver_all deliver Pending
  Mirrors-settle h e (inl (s, q), c) =
      let same = ap (deliver_all (record h { engine = some (record e { events = [] }) })) q in
      record {
        engine = ap (λ (h : Handler F). h.engine) same;
        state = ap (λ (h : Handler F). h.state) same ∙ s;
        quiet = refl;
        callbacks = c;
      }
  Mirrors-settle h e (inr q, c) =
      let same = ap (deliver_all (record h { engine = some (record e { events = [] }) })) q in
      record {
        engine = ap (λ (h : Handler F). h.engine) same;
        state = ap (λ (h : Handler F). h.state) same;
        quiet = refl;
        callbacks = c;
      }

  Mirrors-eq : (h h' : Handler F) (e : Engine F) → h ≡ h' → Mirrors h' e → Mirrors h e
  Mirrors-eq h h' e same m = rw same m

  Pending-log :
      (s : DownloadState) (e e' : Engine F)
      → log e' ≡ log e
      → Pending s (log e)
      → Pending s (log e')
  Pending-log s e e' same p = subst (λ l. Pending s l) (sym same) p

  Mirrors-Pending : (h : Handler F) (e : Engine F) → Mirrors h e → Pending h.state (log e)
  unfolding Pending
  Mirrors-Pending h e m = (inl (m.state, m.quiet), m.callbacks)

  set_state-Pending :
      (h : Handler F) (e : Engine F) (next : DownloadState)
      → Mirrors h e
      → Pending h.state (log (set_state next e).1)
  unfolding set_state Pending
  set_state-Pending h e next m =
      if_both (λ (r : Bool × Engine F). Pending h.state (log r.1)) (allows next e.state) _ _
        (inr (rw (m.quiet, m.callbacks) refl), m.callbacks) (Mirrors-Pending h e m)

  cancel-Pending :
      (h : Handler F) (e : Engine F) (d : Disk) → Mirrors h e → Pending h.state (log (cancel e d).1)
  unfolding cancel
  cancel-Pending h e d m =
      let changed = set_state canceled e in
      let p = set_state-Pending h e canceled m in
      if_both (λ (r : Bool × Engine F × Disk). Pending h.state (log r.1)) (not changed.0) _ _
        (Mirrors-Pending h e m)
        (if_both (λ (r : Bool × Engine F × Disk). Pending h.state (log r.1))
          (is_zero_ℤ changed.1.connections.n_connections) _ _
          (Pending-log h.state changed.1 (cleanup changed.1 d true).0 (cleanup-log changed.1 d true)
            p)
          p)

module _ (D : Floats) where
  open D use {F}

  resume-Pending :
      (h : Handler F) (e : Engine F) (drained started : Connections → Connections) (now : ℕ)
      → Mirrors h e
      → Pending h.state (log (resume D (on_connections drained) (on_connections started) now e).1)
  unfolding resume prepare build_work reset_speed
  resume-Pending h e drained started now m =
      if_both (λ (r : Bool × Engine F). Pending h.state (log r.1)) (set_state queued e).0 _ _
        (set_state-Pending h e queued m) (Mirrors-Pending h e m)

  -- A handle that has its engine's state still has it after each of the three operations on it, accepted
  -- by the engine or not.
  pub control-Mirrors :
      (h : Handler F) (e : Engine F) (d : Disk) (drained started : Connections → Connections)
      (now : ℕ)
      → Mirrors h e
      → let p = pause_handler h in
        let c = (cancel_handler h d).0 in
        let r = resume_handler D (on_connections drained) (on_connections started) now h in
        ((e' : Engine F) × Mirrors p e')
        × ((e' : Engine F) × Mirrors c e')
        × ((e' : Engine F) × Mirrors r e')
  unfolding pause_handler cancel_handler resume_handler pause
  control-Mirrors h e d drained started now m =
      let hp : Handler F = record h { desired_state = paused } in
      let hc : Handler F = record h { desired_state = canceled } in
      let hr : Handler F = record h { desired_state = queued } in
      let after_resume = (resume D (on_connections drained) (on_connections started) now e).1 in
      (
        (
          _,
          Mirrors-eq _ _ _ (ap (pause_engine hp) m.engine)
              (Mirrors-settle hp (pause e).1 (set_state-Pending h e paused m)),
        ),
        (
          _,
          Mirrors-eq _ _ _ (ap (λ o. (cancel_engine hc d o).0) m.engine)
              (Mirrors-settle hc (cancel e d).1 (cancel-Pending h e d m)),
        ),
        (
          _,
          Mirrors-eq _ _ _
              (ap (resume_engine D (on_connections drained) (on_connections started) now hr)
                m.engine)
              (Mirrors-settle hr after_resume (resume-Pending h e drained started now m)),
        ),
      )
