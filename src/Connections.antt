-- ===== src/Connections.antt =====
-- The connection counters of `DownloadEngine` (src/download_engine.h and src/download_engine.cpp).
-- Each is an atomic; an exchange in a loop that retries until it succeeds is one step.
use muld.Prelude.{ℕ, ◌≡◌, Bool, true, false, if◌then◌else◌, not, ◌||◌, ◌&&◌}
use muld.Prelude.Int.{ℤ, pos, ◌+ℤ◌, ◌-ℤ◌, ltb_ℤ, max_ℤ, min_ℤ, clamp_ℤ}
use muld.Types.{
  DownloadState, initialized, queued, downloading, completed, failed, paused, canceled,
}
pub mod Bounds
pub mod Budget
pub mod Workers
mod Tests

pub record Connections : Type 0 where
  pub n_connections : ℤ
  pub scheduled : ℤ
  pub min_connections : ℤ
  pub max_connections : ℤ
  pub desired : ℤ
  pub release_budget : ℤ

-- As a constructor of `DownloadEngine` sets them.
unfoldable pub new_connections : Bool → ℤ → Connections
new_connections ranged max_connections = record {
  n_connections = pos 0;
  scheduled = pos 0;
  min_connections = pos 1;
  max_connections = effective_max;
  desired = min_ℤ (pos 2) effective_max;
  release_budget = pos 0;
}
  where
    effective_max : ℤ
    effective_max = if ranged then max_ℤ (pos 1) max_connections else pos 1

-- `SetDesiredConnections`.
unfoldable pub set_desired : Connections → ℤ → Connections
set_desired c desired_connections = record c {
  desired = clamped;
  release_budget =
      if ltb_ℤ clamped c.desired
      then c.release_budget +ℤ (c.desired -ℤ clamped)
      else c.release_budget;
}
  where
    clamped : ℤ
    clamped = clamp_ℤ desired_connections c.min_connections c.max_connections

-- `SetConnectionBounds`.
unfoldable pub set_bounds : Bool → Connections → ℤ → ℤ → Connections
set_bounds ranged c min_connections max_connections =
    set_desired (record c { min_connections = lo; max_connections = hi }) c.desired
  where
    lo : ℤ
    lo = max_ℤ (pos 1) (if ranged then min_connections else pos 1)

    hi : ℤ
    hi = max_ℤ lo (if ranged then max_connections else pos 1)

abbrev pub is_active : DownloadState → Bool
is_active queued = true
is_active downloading = true
is_active _ = false

-- `PlanNewWorkers`: how many workers to start.
unfoldable pub plan_new_workers : DownloadState → Connections → ℤ → ℤ × Connections
plan_new_workers state c max_new_workers =
    if not (ltb_ℤ (pos 0) max_new_workers) || not (is_active state)
    then (pos 0, c)
    else if not (ltb_ℤ c.scheduled c.desired)
    then (pos 0, c)
    else if not (ltb_ℤ (pos 0) to_add)
    then (pos 0, c)
    else (to_add, record c { scheduled = c.scheduled +ℤ to_add })
  where
    to_add : ℤ
    to_add = min_ℤ (c.desired -ℤ c.scheduled) max_new_workers

-- `ShouldReleaseConnection`.
unfoldable pub should_release : Connections → Bool × Connections
should_release c =
    if ltb_ℤ (pos 0) c.release_budget
    then (true, record c { release_budget = c.release_budget -ℤ pos 1 })
    else (false, c)

-- The counters in `NotifyConnectionOpen` and `NotifyConnectionClose`.
unfoldable pub open_connection : Connections → Connections
open_connection c = record c { n_connections = c.n_connections +ℤ pos 1 }

unfoldable pub close_connection : Connections → Connections
close_connection c = record c {
  scheduled = if ltb_ℤ remaining (pos 0) then pos 0 else remaining;
  n_connections = c.n_connections -ℤ pos 1;
}
  where
    remaining : ℤ
    remaining = c.scheduled -ℤ pos 1
