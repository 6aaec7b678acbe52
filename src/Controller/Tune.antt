-- ===== src/Controller/Tune.antt =====
-- What `Tick` decides for one job: its bounds, its step and when it may grow.
use muld.Prelude.{◌≤◌, ◌≡◌, ◌≢◌, ◌⊎◌, true, false, arith}
use muld.Prelude.Int.{ℤ, pos, ◌+ℤ◌, ◌-ℤ◌, ◌≤ℤ◌, max_ℤ, +ℤ_parts, -ℤ_parts, clamp_ℤ_bounds}
use muld.Prelude.Floats.{Floats}
use muld.Controller.{
  ConnectionControlInput, JobState, lower_bound, upper_bound, start_desired, update_averages,
  cool_down, high_wait, low_wait, decide, tick_active,
}

abbrev pub IsWithin : ℤ → ℤ → ℤ → Type 0
IsWithin lo hi d = (lo ≤ℤ d) × (d ≤ℤ hi)

pub start_desired-IsWithin :
    {F : Type 0} (input : ConnectionControlInput F)
    → IsWithin (lower_bound input) (upper_bound input) (start_desired input)
start_desired-IsWithin input =
    clamp_ℤ_bounds input.desired_connections (lower_bound input) (upper_bound input) (ground arith)

module _ (D : Floats) where
  open D use {F}

  decide_bounds :
      (s : JobState F) (d lo hi : ℤ)
      → IsWithin lo hi d
      → IsWithin lo hi (decide D s d lo hi).1
        × IsWithin (d -ℤ pos 1) (d +ℤ pos 1) (decide D s d lo hi).1
  unfolding decide
  decide_bounds s d lo hi h = ground (arith, +ℤ_parts d (pos 1), -ℤ_parts d (pos 1))

  -- A job's decision lies between its normalised bounds and at most one connection from where it
  -- stood.
  pub tick_active_bounds :
      (s : JobState F) (input : ConnectionControlInput F)
      → IsWithin (lower_bound input) (upper_bound input) (tick_active D s input).1
        × IsWithin
            (start_desired input -ℤ pos 1)
            (start_desired input +ℤ pos 1)
            (tick_active D s input).1
  unfolding tick_active
  tick_active_bounds s input = decide_bounds _ _ _ _ (start_desired-IsWithin input)

  -- What a change of the decision leaves behind: a long cooldown, or a probe under way.
  abbrev IsResting : JobState F → Type 0
  IsResting s = (2 ≤ s.cooldown_ticks) ⊎ (s.probe_active ≡ true)

  decide_changed :
      (s : JobState F) (d lo hi : ℤ) → (decide D s d lo hi).1 ≢ d → IsResting (decide D s d lo hi).0
  unfolding decide
  decide_changed s d lo hi h = ground arith

  decide_resting :
      (s : JobState F) (d lo hi : ℤ) → IsResting s → (decide D (cool_down D s) d lo hi).1 ≤ℤ d
  unfolding decide cool_down
  decide_resting s d lo hi h = ground (arith, +ℤ_parts d (pos 1), -ℤ_parts d (pos 1))

  update_averages-IsResting :
      (s : JobState F) (input : ConnectionControlInput F)
      → IsResting s
      → IsResting (update_averages D s input)
  unfolding update_averages
  update_averages-IsResting s input h = h

  -- A job whose decision moved in one tick, up or down, does not grow in its next tick, whatever is
  -- then measured and whatever its bounds then are.
  pub tick_active_no_growth_after_change :
      (s : JobState F) (input next : ConnectionControlInput F)
      → (tick_active D s input).1 ≢ start_desired input
      → (tick_active D (tick_active D s input).0 next).1 ≤ℤ start_desired next
  unfolding tick_active
  tick_active_no_growth_after_change s input next h =
      decide_resting (update_averages D (tick_active D s input).0 next) (start_desired next)
        (lower_bound next) (upper_bound next)
        (update_averages-IsResting (tick_active D s input).0 next (
          decide_changed (cool_down D (update_averages D s input)) (start_desired input)
            (lower_bound input) (upper_bound input) h))

  decide-high_wait :
      (s : JobState F) (d lo hi : ℤ)
      → IsWithin lo hi d
      → high_wait D s ≡ true
      → low_wait D s ≡ false
      → (decide D (cool_down D s) d lo hi).1 ≡ max_ℤ lo (d -ℤ pos 1)
  unfolding decide cool_down ◌-ℤ◌
  decide-high_wait s d lo hi within high low = ground arith

  -- Where no number is both at least 0.55 and at most 0.20, a job whose averaged token wait reaches
  -- the high threshold loses exactly one connection, or stays at its minimum.
  pub tick_active-high_wait :
      (s : JobState F) (input : ConnectionControlInput F)
      → ((w : F) → D.leb (D.ratio 55 100) w ≡ true → D.leb w (D.ratio 20 100) ≡ false)
      → high_wait D (update_averages D s input) ≡ true
      → (tick_active D s input).1 ≡ max_ℤ (lower_bound input) (start_desired input -ℤ pos 1)
  unfolding tick_active
  tick_active-high_wait s input apart h =
      decide-high_wait (update_averages D s input) (start_desired input) (lower_bound input)
        (upper_bound input) (start_desired-IsWithin input) h (apart _ h)
