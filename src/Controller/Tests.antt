-- ===== src/Controller/Tests.antt =====
-- Ticks of a controller with two jobs.
use muld.Prelude.{ℕ, true, [], ◌∷◌}
use muld.Prelude.Int.{pos}
use muld.Prelude.Table.{nat_eq}
use muld.Prelude.Floats.{milli}
use muld.Controller.{ConnectionControlInput, MutableDecision, tick, new_controller}
use muld.Controller.Decisions.{actives, AllDecided, tick_decisions}

abbrev input : ℕ → ℕ → ℕ → ConnectionControlInput ℕ
input id desired wait = record {
  job_id = id;
  active = true;
  desired_connections = pos desired;
  active_connections = pos desired;
  min_connections = pos 1;
  max_connections = pos 8;
  speed_limit_bps = 0;
  throughput_bps = 1000000;
  token_wait_ratio = wait;
}

abbrev item : ℕ → ℕ → MutableDecision ℕ
item id desired = record {
  decision = record { job_id = id; desired_connections = pos desired };
  min_connections = pos 1;
  ema_wait_ratio = 0;
}

tick_decisions_example :
    AllDecided
      (actives (input 1 4 0 ∷ input 2 3 0 ∷ []))
      (tick milli (new_controller milli (pos 5)) (input 1 4 0 ∷ input 2 3 0 ∷ [])).1
tick_decisions_example =
    (tick_decisions milli (new_controller milli (pos 5)) (input 1 4 0 ∷ input 2 3 0 ∷ [])).0
