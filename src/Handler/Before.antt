-- ===== src/Handler/Before.antt =====
-- Requests that come before the engine.
use muld.Prelude.{ℕ, ◌≡◌, refl, true, false, none, [], ◌==◌}
use muld.Prelude.Floats.{Floats}
use muld.Types.{initialized}
use muld.Disk.{Disk}
use muld.Engine.{Engine, is_done, set_state, attach_callbacks}
use muld.Engine.Control.{cancel}
use muld.Engine.Launch.{set_limit}
use muld.Handler.{
  Handler, attach_engine, cancel_handler, settle, deliver_all, is_finished_handler, returns_at_once,
}

module _ (D : Floats) where
  open D use {F}

  -- A download that is canceled before its engine is there counts as finished, and waiting for it
  -- returns at once. When a new engine with unfinished chunks is then attached, the disk stays as the
  -- engine's constructor left it, and the handle still counts as finished, but waiting for it no
  -- longer returns at once.
  pub cancel_before_attach :
      (h : Handler F) (d d' : Disk) (e : Engine F) (drained started : Engine F → Engine F) (now : ℕ)
      → h.engine ≡ none
      → e.state ≡ initialized
      → e.events ≡ []
      → (e.downloaded_chunks == e.n_chunks) ≡ false
      → let c = (cancel_handler h d).0 in
        let a = attach_engine D drained started now c d' e in
        (is_finished_handler c ≡ true)
        × (returns_at_once c ≡ true)
        × (a.1 ≡ d')
        × (is_finished_handler a.0 ≡ true)
        × (returns_at_once a.0 ≡ false)
  unfolding cancel_handler attach_engine attach_callbacks set_limit cancel set_state settle
      deliver_all is_finished_handler returns_at_once is_done
  cancel_before_attach h d d' e drained started now no_engine fresh quiet more =
      rw (no_engine, fresh, quiet, more) (refl, refl, refl, refl, refl)
