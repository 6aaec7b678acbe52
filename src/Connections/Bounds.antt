-- ===== src/Connections/Bounds.antt =====
-- Bounds of the connection counters.
use muld.Prelude.{◌≡◌, Bool, false, arith, if◌then◌else◌, ◌&&◌}
use muld.Prelude.Int.{
  ℤ, pos, ◌+ℤ◌, ◌-ℤ◌, ◌≤ℤ◌, ltb_ℤ, max_ℤ, min_ℤ, clamp_ℤ, +ℤ_parts, -ℤ_parts, +ℤ-zero,
}
use muld.Types.{DownloadState}
use muld.Connections.{
  Connections, new_connections, set_desired, set_bounds, is_active, plan_new_workers,
}

-- The wish lies between the bounds, which are at least one; nothing is owed a negative release.
pub record IsBounded (c : Connections) : Type 0 where
  pub min_pos : pos 1 ≤ℤ c.min_connections
  pub min_le_desired : c.min_connections ≤ℤ c.desired
  pub desired_le_max : c.desired ≤ℤ c.max_connections
  pub budget_nonneg : pos 0 ≤ℤ c.release_budget

pub new_connections-IsBounded :
    (ranged : Bool) (max_connections : ℤ) → IsBounded (new_connections ranged max_connections)
unfolding new_connections
new_connections-IsBounded ranged max_connections = ground arith

pub set_desired-IsBounded :
    (c : Connections) (desired : ℤ)
    → pos 1 ≤ℤ c.min_connections
    → c.min_connections ≤ℤ c.max_connections
    → pos 0 ≤ℤ c.release_budget
    → IsBounded (set_desired c desired)
unfolding set_desired
set_desired-IsBounded c desired lo hi budget =
    let d = clamp_ℤ desired c.min_connections c.max_connections in
    ground (arith, -ℤ_parts c.desired d, +ℤ_parts c.release_budget (c.desired -ℤ d))

-- Whatever bounds are asked for, `SetConnectionBounds` leaves a minimum of at least one, a wish
-- between the bounds and no negative release budget; a job without ranges keeps to one connection.
pub set_bounds-IsBounded :
    (ranged : Bool) (c : Connections) (lo hi : ℤ)
    → pos 0 ≤ℤ c.release_budget
    → IsBounded (set_bounds ranged c lo hi)
      × (ranged ≡ false → (set_bounds ranged c lo hi).desired ≡ pos 1)
unfolding set_bounds
set_bounds-IsBounded ranged c lo hi budget =
    (set_desired-IsBounded _ _ (ground arith) (ground arith) budget, unranged ranged)
  where
    unranged : (r : Bool) → r ≡ false → (set_bounds r c lo hi).desired ≡ pos 1
    unranged r e = unfold set_desired in ground arith

-- `PlanNewWorkers` starts workers only for a queued or running job that wants more than it has
-- scheduled: then the difference, but at most as many as it is allowed. It counts those it starts
-- as scheduled, changes nothing else, and never schedules more than are wanted.
pub plan_new_workers_lem :
    (state : DownloadState) (c : Connections) (allowed : ℤ)
    → let (started, c') = plan_new_workers state c allowed in
      (started ≡ (
        if is_active state && ltb_ℤ (pos 0) allowed && ltb_ℤ c.scheduled c.desired
        then min_ℤ (c.desired -ℤ c.scheduled) allowed
        else pos 0))
      × (c' ≡ record c { scheduled = c.scheduled +ℤ started })
      × (c'.scheduled ≤ℤ max_ℤ c.scheduled c.desired)
unfolding plan_new_workers
plan_new_workers_lem state c allowed =
    let gap = -ℤ_parts c.desired c.scheduled in
    let sum = +ℤ_parts c.scheduled (min_ℤ (c.desired -ℤ c.scheduled) allowed) in
    (ground (arith, gap), ground (arith, +ℤ-zero c.scheduled), ground (arith, gap, sum))
