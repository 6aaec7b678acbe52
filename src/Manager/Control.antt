-- ===== src/Manager/Control.antt =====
-- src/muld_download_manager.cpp: EnqueueTasks and a round of ConnectionControlLoop, over all jobs. A job
-- stands with its address, which is its identity for the controller.
use muld.Prelude.{
  ℕ, ◌+◌, ◌≡◌, Bool, true, false, Option, none, some, List, [], ◌∷◌, ◌++◌, replicate, if◌then◌else◌,
}
use muld.Prelude.Int.{ℤ, pos, pos_part}
use muld.Prelude.Table.{nat_eq, lookup, insert}
use muld.Prelude.Floats.{Floats}
use muld.Connections.{is_active, plan_new_workers}
use muld.Rate.{consume_token_wait_ratio}
use muld.Engine.{Engine, set_desired_connections}
use muld.Controller.{
  ConnectionControlInput, ConnectionControlDecision, ConnectionController, tick, remove,
}
mod Wishes
mod Collects
pub mod Rounds
pub mod Total

-- Milliseconds between two rounds.
abbrev pub connection_control_tick : ℕ
connection_control_tick = 2000

-- `desired_by_job`.
unfoldable pub desired_by_job : List (ℕ × ℤ) → List ConnectionControlDecision → List (ℕ × ℤ)
desired_by_job wishes [] = wishes
desired_by_job wishes (d ∷ ds) = desired_by_job (insert d.job_id d.desired_connections wishes) ds

module _ {F : Type 0} where
  -- `EnqueueTasks`: how many tasks of the job it queues.
  unfoldable pub enqueue_tasks : ℤ → Engine F → ℕ × Engine F
  enqueue_tasks max_threads e =
      let (started, c) = plan_new_workers e.state e.connections max_threads in
      (pos_part started, record e { connections = c })

  abbrev pub follow : ℤ → ℕ → Engine F → Option ℤ → Engine F × List ℕ
  follow max_threads id e none = (e, [])
  follow max_threads id e (some desired) =
      let (n, e') = enqueue_tasks max_threads (set_desired_connections e desired) in
      (e', replicate n id)

  -- The last loop: the jobs, and the queued tasks as the jobs they are of.
  unfoldable pub apply_wishes :
      ℤ → List (ℕ × ℤ) → List (ℕ × Engine F) → List (ℕ × Engine F) × List ℕ
  apply_wishes max_threads wishes [] = ([], [])
  apply_wishes max_threads wishes ((id, e) ∷ jobs) =
      let (e', tasks) = follow max_threads id e (lookup id wishes) in
      let rest = apply_wishes max_threads wishes jobs in ((id, e') ∷ rest.0, tasks ++ rest.1)

module _ (D : Floats) where
  open D use {F, ratio, truncate}

  unfoldable pub control_input : ℕ → Engine F → ConnectionControlInput F
  control_input id e = record {
    job_id = id;
    active = true;
    desired_connections = e.connections.desired;
    active_connections = e.connections.n_connections;
    min_connections = e.connections.min_connections;
    max_connections = e.connections.max_connections;
    speed_limit_bps = e.rate.speed_limit_bps;
    throughput_bps = ratio (truncate e.speed.download_speed) 1;
    token_wait_ratio = (consume_token_wait_ratio D e.rate connection_control_tick).0;
  }

  abbrev pub after_sample : Engine F → Engine F
  after_sample e = record e { rate = (consume_token_wait_ratio D e.rate connection_control_tick).1 }

  pub record Collected : Type 0 where
    pub controller : ConnectionController F
    pub inputs : List (ConnectionControlInput F)
    pub jobs : List (ℕ × Engine F)

  -- The first loop.
  unfoldable pub collect : ConnectionController F → List (ℕ × Engine F) → Collected
  collect c [] = record { controller = c; inputs = []; jobs = [] }
  collect c ((id, e) ∷ jobs) =
      let kept = collect c jobs in
      let dropped = collect (remove D c id) jobs in
      if is_active e.state
      then record {
        controller = kept.controller;
        inputs = control_input id e ∷ kept.inputs;
        jobs = (id, after_sample e) ∷ kept.jobs;
      }
      else record {
        controller = dropped.controller;
        inputs = dropped.inputs;
        jobs = (id, e) ∷ dropped.jobs;
      }

  pub record Controlled : Type 0 where
    pub controller : ConnectionController F
    pub jobs : List (ℕ × Engine F)
    pub tasks : List ℕ

  abbrev pub act :
      ℤ → Collected → ConnectionController F → List ConnectionControlDecision → Controlled
  act max_threads s c [] = record { controller = c; jobs = s.jobs; tasks = [] }
  act max_threads s c (d ∷ ds) =
      let (jobs, tasks) = apply_wishes max_threads (desired_by_job [] (d ∷ ds)) s.jobs in
      record { controller = c; jobs = jobs; tasks = tasks }

  abbrev pub use_inputs : ℤ → Collected → List (ConnectionControlInput F) → Controlled
  use_inputs max_threads s [] = record { controller = s.controller; jobs = s.jobs; tasks = [] }
  use_inputs max_threads s (i ∷ is) =
      let (c, decisions) = tick D s.controller (i ∷ is) in act max_threads s c decisions

  -- A round of the loop.
  unfoldable pub control_round : ℤ → ConnectionController F → List (ℕ × Engine F) → Controlled
  control_round max_threads c jobs = let s = collect c jobs in use_inputs max_threads s s.inputs
