-- ===== src/Rate/Tests.antt =====
-- A bucket of a thousand bytes a second.
use muld.Prelude.{ℕ, ◌≡◌, ◌≤◌, refl, some, [], ◌∷◌, arith}
use muld.Prelude.Floats.{milli}
use muld.Types.{paused, downloading}
use muld.Rate.{Rate, Round, refill, sample, take_tokens, acquire_rounds, acquire_read_budget}
use muld.Rate.Budget.{acquire_read_budget_lem}

abbrev slow : Rate ℕ
slow = record {
  speed_limit_bps = 1000;
  tokens = 0;
  last_refill = 0;
  wait_ns_window = 0;
  samples_window = 0;
}

abbrev paused_round : Round ℕ
paused_round = record { now = 0; state = paused; wait_ns = 5; others = λ r. r }

abbrev later_round : Round ℕ
later_round = record { now = 100000000; state = downloading; wait_ns = 0; others = λ r. r }

abbrev taken : Rate ℕ
taken = record slow { last_refill = 100000000; samples_window = 1 }

hundred_bytes : acquire_read_budget milli 4096 (later_round ∷ []) slow ≡ some (100, taken)
unfolding acquire_read_budget acquire_rounds refill sample take_tokens
hundred_bytes = refl

acquire_read_budget_lem_example : 100 ≤ 4096
acquire_read_budget_lem_example =
    (acquire_read_budget_lem milli 4096 (later_round ∷ []) slow 100 taken (omega arith)
      hundred_bytes).0
