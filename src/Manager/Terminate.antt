-- ===== src/Manager/Terminate.antt =====
-- src/muld_download_manager.cpp: Terminate, which stores and pauses the jobs that are not finished. A
-- job is whole between the operations of other threads.
use muld.Prelude.{
  ℕ, ◌≡◌, refl, ap, Bool, true, false, Option, none, some, List, [], ◌∷◌, All, if◌then◌else◌,
  Bool-cases, if_true, if_false, inl, inr, ◌==◌, ◌||◌, arith,
}
use muld.Types.{
  DownloadState, initialized, queued, downloading, completed, failed, paused, canceled,
}
use muld.Connections.{is_active}
use muld.Outcome.{Outcome, returns, ◌>>=◌}
use muld.Disk.{Disk}
use muld.Engine.{Engine, is_done, is_settled, set_state}
use muld.Engine.Storage.{store}
use muld.Engine.Control.{pause}
pub mod Stopped
pub mod Saved

module _ {F : Type 0} where
  unfoldable pub terminate_job : Engine F → Disk → ℕ → Outcome (Engine F × Disk)
  terminate_job e d unix =
      let stopped = store e d unix >>= λ saved. returns ((pause saved.0).1, saved.1) in
      if is_done e then returns (e, d) else stopped

  -- `Terminate`.
  unfoldable pub terminate : List (Engine F) → Disk → ℕ → Outcome (List (Engine F) × Disk)
  terminate [] d unix = returns ([], d)
  terminate (e ∷ jobs) d unix = do
    (e', d') ← terminate_job e d unix
    (jobs', d'') ← terminate jobs d' unix
    returns (e' ∷ jobs', d'')
