-- ===== src/Rate.antt =====
-- The speed limit of `DownloadEngine` (src/download_engine.cpp): a bucket of tokens, one for each
-- byte, that fills at the limit's rate. Times are nanoseconds of the steady clock, which never goes
-- back.
use muld.Prelude.{
  ℕ, zero, suc, ◌+◌, ◌-◌, ◌*◌, ◌≡◌, Bool, true, false, not, ◌||◌, ◌&&◌, Option, none, some, List,
  [], ◌∷◌, if◌then◌else◌, leb, ltb, ◌==◌, min,
}
use muld.Prelude.Floats.{Floats, fmax, fclamp}
use muld.Types.{DownloadState, downloading}
pub mod Budget
mod Tests

pub record Rate (F : Type 0) : Type 0 where
  pub speed_limit_bps : ℕ
  pub tokens : F
  pub last_refill : ℕ
  pub wait_ns_window : ℕ
  pub samples_window : ℕ

abbrev pub is_downloading : DownloadState → Bool
is_downloading downloading = true
is_downloading _ = false

-- One round of the loop in `AcquireReadBudget`: the clock, the state of the job, how long the wait at
-- the end of the round took, and what other threads did to the bucket meanwhile.
pub record Round (F : Type 0) : Type 0 where
  pub now : ℕ
  pub state : DownloadState
  pub wait_ns : ℕ
  pub others : Rate F → Rate F

module _ (D : Floats) where
  open D use {F, add, sub, mul, div, leb as fleb, ltb as fltb, ratio, truncate}

  unfoldable pub new_rate : ℕ → Rate F
  new_rate now = record {
    speed_limit_bps = 0;
    tokens = ratio 0 1;
    last_refill = now;
    wait_ns_window = 0;
    samples_window = 0;
  }

  abbrev pub max_burst : ℕ → F
  max_burst limit = fmax D (ratio 32768 1) (mul (ratio limit 1) (ratio 20 100))

  abbrev pub at_most : F → F → F
  at_most bound x = if fltb bound x then bound else x

  -- `RefillRateTokens`.
  unfoldable pub refill : Rate F → ℕ → Rate F
  refill r now =
      if r.speed_limit_bps == 0
      then record r { tokens = ratio 0 1; last_refill = now }
      else if fltb (ratio 0 1) dt
      then record r {
        tokens =
            at_most (max_burst r.speed_limit_bps)
              (add r.tokens (mul (ratio r.speed_limit_bps 1) dt));
        last_refill = now;
      }
      else r
    where
      dt : F
      dt = ratio (now - r.last_refill) 1_000_000_000

  -- `SetSpeedLimit`.
  unfoldable pub set_speed_limit : Rate F → ℕ → ℕ → Rate F
  set_speed_limit r limit now = record r {
    speed_limit_bps = limit;
    last_refill = now;
    tokens = if limit == 0 then ratio 0 1 else at_most (max_burst limit) r.tokens;
  }

  -- The two counters that every return of the loop updates.
  unfoldable pub sample : Rate F → ℕ → Rate F
  sample r total_wait = record r {
    samples_window = r.samples_window + 1;
    wait_ns_window = r.wait_ns_window + total_wait;
  }

  abbrev pub allowed_bytes : ℕ → F → ℕ
  allowed_bytes requested tokens =
      let allowed = min requested (truncate tokens) in if allowed == 0 then 1 else allowed

  unfoldable pub take_tokens : Rate F → ℕ → Rate F
  take_tokens r allowed = record r { tokens = sub r.tokens (ratio allowed 1) }

  -- The loop: `none` while it still waits when the rounds end.
  unfoldable pub acquire_rounds : ℕ → ℕ → List (Round F) → Rate F → Option (ℕ × Rate F)
  acquire_rounds requested total_wait [] r = none
  acquire_rounds requested total_wait (round ∷ rounds) r =
      let r' = refill r round.now in
      let allowed = allowed_bytes requested r'.tokens in
      let again = acquire_rounds requested (total_wait + round.wait_ns) rounds (round.others r') in
      if fleb (ratio 1 1) r'.tokens
      then some (allowed, sample (take_tokens r' allowed) total_wait)
      else if not (is_downloading round.state)
      then some (0, sample r' total_wait)
      else again

  -- `AcquireReadBudget`.
  unfoldable pub acquire_read_budget : ℕ → List (Round F) → Rate F → Option (ℕ × Rate F)
  acquire_read_budget requested rounds r =
      if r.speed_limit_bps == 0 || requested == 0
      then some (requested, r)
      else acquire_rounds requested 0 rounds r

  -- `ConsumeTokenWaitRatio` for a window of milliseconds.
  unfoldable pub consume_token_wait_ratio : Rate F → ℕ → F × Rate F
  consume_token_wait_ratio r window_ms = if window_ms == 0 then (ratio 0 1, r) else (
    if r.samples_window == 0 || fleb denom (ratio 0 1)
        then ratio 0 1
        else fclamp D (div (ratio r.wait_ns_window 1) denom) (ratio 0 1) (ratio 1 1),
    record r { wait_ns_window = 0; samples_window = 0 },
  )
    where
      denom : F
      denom = mul (ratio r.samples_window 1) (mul (ratio window_ms 1) (ratio 1_000_000 1))
