-- ===== src/Connections/Tests.antt =====
-- The counters of one job.
use muld.Prelude.{◌≡◌, true, min, ◌+◌, arith}
use muld.Prelude.Int.{pos, ◌-ℤ◌, ◌+ℤ◌, pos_part}
use muld.Types.{downloading}
use muld.Connections.{Connections, new_connections, set_desired, plan_new_workers}
use muld.Connections.Budget.{releases, releases-set_desired}
use muld.Connections.Workers.{Job, new_job, Reach, here, next, plan, job_counters_exact}

abbrev four : Connections
four = record {
  n_connections = pos 3;
  scheduled = pos 3;
  min_connections = pos 1;
  max_connections = pos 8;
  desired = pos 4;
  release_budget = pos 1;
}

releases-set_desired_example :
    releases 5 (set_desired four (pos 2))
    ≡ min 5 (pos_part (pos 1) + pos_part (pos 4 -ℤ (set_desired four (pos 2)).desired))
releases-set_desired_example = releases-set_desired 5 four (pos 2) (omega arith)

abbrev planned_two : Job
planned_two = record {
  counters = record (new_connections true (pos 4)) { scheduled = pos 2 };
  planned = 2;
  enqueued = 0;
  popped = 0;
  running = 0;
}

Reach-planned_two : Reach (new_job true (pos 4)) planned_two
unfolding plan_new_workers new_connections ◌-ℤ◌ ◌+ℤ◌
Reach-planned_two = next here (plan downloading (pos 4))

job_counters_exact_example : planned_two.counters.n_connections ≡ pos 0
job_counters_exact_example = (job_counters_exact true (pos 4) planned_two Reach-planned_two).1

Reach-new_job : Reach (new_job true (pos 4)) (new_job true (pos 4))
Reach-new_job = here
