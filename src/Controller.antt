-- ===== src/Controller.antt =====
-- src/connection_controller.h and src/connection_controller.cpp: how many connections each job
-- should have, from the throughput and the token wait that were measured.
use muld.Prelude.{
  ℕ, zero, suc, ◌+◌, ◌-◌, ◌≡◌, Bool, true, false, ◌&&◌, not, Option, none, some, List, [], ◌∷◌,
  ◌++◌, map, ltb, ◌==◌, if◌then◌else◌, length, get_elem?, set,
}
use muld.Prelude.Int.{ℤ, pos, ◌+ℤ◌, ◌-ℤ◌, ltb_ℤ, max_ℤ, clamp_ℤ, pos_part}
use muld.Prelude.Table.{nat_eq, lookup, insert, erase, contains}
use muld.Prelude.Floats.{Floats, fmax, fclamp}
pub mod Tune
pub mod States
pub mod Shrink
pub mod Capacity
pub mod Decisions
mod Tests

pub record ConnectionControlInput (F : Type 0) : Type 0 where
  pub job_id : ℕ
  pub active : Bool
  pub desired_connections : ℤ
  pub active_connections : ℤ
  pub min_connections : ℤ
  pub max_connections : ℤ
  pub speed_limit_bps : ℕ
  pub throughput_bps : F
  pub token_wait_ratio : F

pub record ConnectionControlDecision : Type 0 where
  pub job_id : ℕ
  pub desired_connections : ℤ

-- `cooldown_ticks` is set to constants and lowered only above 0, so it is a natural number.
pub record JobState (F : Type 0) : Type 0 where
  pub ema_throughput : F
  pub ema_wait_ratio : F
  pub cooldown_ticks : ℕ
  pub probe_active : Bool
  pub probe_baseline : F

pub record MutableDecision (F : Type 0) : Type 0 where
  pub decision : ConnectionControlDecision
  pub min_connections : ℤ
  pub ema_wait_ratio : F

pub record ConnectionController (F : Type 0) : Type 0 where
  pub global_capacity : ℤ
  pub states : List (ℕ × JobState F)

abbrev pub up_cooldown_ticks : ℕ
up_cooldown_ticks = 1

abbrev pub down_cooldown_ticks : ℕ
down_cooldown_ticks = 2

-- The bounds as `Tick` normalises them.
abbrev pub lower_bound : {F : Type 0} → ConnectionControlInput F → ℤ
lower_bound input = max_ℤ (pos 1) input.min_connections

abbrev pub upper_bound : {F : Type 0} → ConnectionControlInput F → ℤ
upper_bound input = max_ℤ (lower_bound input) input.max_connections

abbrev pub start_desired : {F : Type 0} → ConnectionControlInput F → ℤ
start_desired input = clamp_ℤ input.desired_connections (lower_bound input) (upper_bound input)

-- Lowering one job's wish by a connection, if it is above its minimum.
abbrev pub is_reducible : {F : Type 0} → Option (MutableDecision F) → Bool
is_reducible none = false
is_reducible (some item) = ltb_ℤ item.min_connections item.decision.desired_connections

pub lower : {F : Type 0} → MutableDecision F → MutableDecision F
lower item = record item {
  decision = record {
    job_id = item.decision.job_id;
    desired_connections = item.decision.desired_connections -ℤ pos 1;
  };
}

pub lower_at : {F : Type 0} → List (MutableDecision F) → ℕ → List (MutableDecision F)
unfolding lower
lower_at [] i = []
lower_at (item ∷ items) zero = lower item ∷ items
lower_at (item ∷ items) (suc i) = item ∷ lower_at items i

-- What the `for` loop over `order` leaves: the items, the excess, and whether an item was reduced.
pub record Pass (F : Type 0) : Type 0 where
  pub items : List (MutableDecision F)
  pub excess : ℕ
  pub reduced : Bool

pub reduce_pass : {F : Type 0} → List ℕ → List (MutableDecision F) → ℕ → Pass F
reduce_pass [] items excess = record { items = items; excess = excess; reduced = false }
reduce_pass (idx ∷ order) items excess =
    let skip = reduce_pass order items excess in
    let after = reduce_pass order (lower_at items idx) (excess - 1) in
    if is_reducible (get_elem? items idx)
    then (if excess - 1 == 0
        then record { items = lower_at items idx; excess = 0; reduced = true }
        else record after { reduced = true })
    else skip

-- `while (excess > 0)`, with the excess as fuel: a round that reduces nothing leaves the loop.
pub shrink : {F : Type 0} → ℕ → List ℕ → List (MutableDecision F) → ℕ → List (MutableDecision F)
unfolding reduce_pass
shrink zero order items excess = items
shrink (suc fuel) order items excess =
    let pass = reduce_pass order items excess in
    let next = shrink fuel order pass.items pass.excess in
    if excess == 0 then items else if pass.reduced then next else pass.items

pub desired_total : {F : Type 0} → List (MutableDecision F) → ℤ
desired_total [] = pos 0
desired_total (item ∷ items) = item.decision.desired_connections +ℤ desired_total items

-- The indices 0, ..., n - 1 from `i` on.
pub indices : ℕ → ℕ → List ℕ
indices i zero = []
indices i (suc n) = i ∷ indices (i + 1) n

module _ (D : Floats) where
  open D use {F, add, sub, mul, div, leb, ratio}

  abbrev pub fresh_state : JobState F
  fresh_state = record {
    ema_throughput = ratio 0 1;
    ema_wait_ratio = ratio 0 1;
    cooldown_ticks = 0;
    probe_active = false;
    probe_baseline = ratio 0 1;
  }

  pub update_averages : JobState F → ConnectionControlInput F → JobState F
  update_averages state input = record state {
    ema_throughput =
        if leb state.ema_throughput (ratio 0 1)
        then throughput
        else add (mul (sub (ratio 1 1) (ratio 35 100)) state.ema_throughput)
            (mul (ratio 35 100) throughput);
    ema_wait_ratio =
        add (mul (sub (ratio 1 1) (ratio 50 100)) state.ema_wait_ratio)
          (mul (ratio 50 100) (fclamp D input.token_wait_ratio (ratio 0 1) (ratio 1 1)));
  }
    where
      throughput : F
      throughput = fmax D (ratio 0 1) input.throughput_bps

  pub cool_down : JobState F → JobState F
  cool_down state = record state { cooldown_ticks = state.cooldown_ticks - 1 }

  abbrev pub high_wait : JobState F → Bool
  high_wait state = leb (ratio 55 100) state.ema_wait_ratio

  abbrev pub low_wait : JobState F → Bool
  low_wait state = leb state.ema_wait_ratio (ratio 20 100)

  abbrev pub baseline : JobState F → F
  baseline state = fmax D (ratio 1 1) state.probe_baseline

  abbrev pub gain : JobState F → F
  gain state = div (sub state.ema_throughput (baseline state)) (fmax D (ratio 1 1) (baseline state))

  -- The branches for one job whose averages and cooldown are up to date.
  pub decide : JobState F → ℤ → ℤ → ℤ → JobState F × ℤ
  decide state desired lo hi =
      if high_wait state && ltb_ℤ lo desired
      then (record state { cooldown_ticks = down_cooldown_ticks; probe_active = false }, fewer)
      else if state.cooldown_ticks == 0 && low_wait state && ltb_ℤ desired hi
      then (if not state.probe_active
          then (
            record state {
              probe_active = true;
              probe_baseline = fmax D (ratio 1 1) state.ema_throughput;
              cooldown_ticks = up_cooldown_ticks;
            },
            desired +ℤ pos 1,
          )
          else if D.ltb (gain state) (ratio 8 100) && ltb_ℤ lo desired
          then (record state { cooldown_ticks = down_cooldown_ticks; probe_active = false }, fewer)
          else (record state { probe_active = false }, desired))
      else if not (low_wait state)
      then (record state { probe_active = false }, desired)
      else (state, desired)
    where
      fewer : ℤ
      fewer = desired -ℤ pos 1

  abbrev pub or_fresh : Option (JobState F) → JobState F
  or_fresh none = fresh_state
  or_fresh (some state) = state

  pub tick_active : JobState F → ConnectionControlInput F → JobState F × ℤ
  unfolding update_averages cool_down decide
  tick_active state input =
      decide (cool_down (update_averages state input)) (start_desired input) (lower_bound input)
        (upper_bound input)

  pub tick_input :
      List (ℕ × JobState F)
      → ConnectionControlInput F
      → List (ℕ × JobState F) × List (MutableDecision F)
  unfolding tick_active lookup insert erase
  tick_input states input =
      if not input.active
      then (erase input.job_id states, [])
      else let (state, desired) = tick_active (or_fresh (lookup input.job_id states)) input in
        (
          insert input.job_id state states,
          record {
            decision = record { job_id = input.job_id; desired_connections = desired };
            min_connections = lower_bound input;
            ema_wait_ratio = state.ema_wait_ratio;
          }
              ∷ [],
        )

  pub tick_inputs :
      List (ℕ × JobState F)
      → List (ConnectionControlInput F)
      → List (ℕ × JobState F) × List (MutableDecision F)
  unfolding tick_input
  tick_inputs states [] = (states, [])
  tick_inputs states (input ∷ inputs) =
      let (states', items) = tick_input states input in
      let (states'', rest) = tick_inputs states' inputs in (states'', items ++ rest)

  -- States of jobs that the inputs do not name are dropped.
  pub prune : List ℕ → List (ℕ × JobState F) → List (ℕ × JobState F)
  unfolding contains
  prune seen [] = []
  prune seen ((id, state) ∷ states) =
      let rest = prune seen states in if contains seen id then (id, state) ∷ rest else rest

  -- The comparison of `std::sort`: more wait first, and at equal wait more connections first.
  abbrev pub waits_more : MutableDecision F → MutableDecision F → Bool
  waits_more lhs rhs =
      if D.eqb lhs.ema_wait_ratio rhs.ema_wait_ratio
      then ltb_ℤ rhs.decision.desired_connections lhs.decision.desired_connections
      else D.ltb rhs.ema_wait_ratio lhs.ema_wait_ratio

  abbrev pub goes_first : Option (MutableDecision F) → Option (MutableDecision F) → Bool
  goes_first (some lhs) (some rhs) = waits_more lhs rhs
  goes_first (some lhs) none = true
  goes_first none rhs = false

  -- `std::sort` of indices. Its order among equal items is not specified; here it is stable.
  pub insert_sorted : List (MutableDecision F) → ℕ → List ℕ → List ℕ
  insert_sorted items i [] = i ∷ []
  insert_sorted items i (j ∷ order) =
      let rest = insert_sorted items i order in
      if goes_first (get_elem? items j) (get_elem? items i) then j ∷ rest else i ∷ j ∷ order

  pub sort : List (MutableDecision F) → List ℕ → List ℕ
  unfolding insert_sorted
  sort items [] = []
  sort items (i ∷ is) = insert_sorted items i (sort items is)

  pub fit_capacity : ℤ → List (MutableDecision F) → List (MutableDecision F)
  unfolding sort shrink desired_total indices
  fit_capacity capacity items =
      if ltb_ℤ capacity (desired_total items)
      then shrink excess (sort items (indices 0 (length items))) items excess
      else items
    where
      excess : ℕ
      excess = pos_part (desired_total items -ℤ capacity)

  -- `ConnectionController(int global_capacity)`.
  pub new_controller : ℤ → ConnectionController F
  new_controller capacity = record { global_capacity = max_ℤ (pos 1) capacity; states = [] }

  unfoldable pub tick :
      ConnectionController F
      → List (ConnectionControlInput F)
      → ConnectionController F × List ConnectionControlDecision
  unfolding tick_inputs prune fit_capacity
  tick c inputs =
      let (states, items) = tick_inputs c.states inputs in
      (
        record c { states = prune (map (λ i. i.job_id) inputs) states },
        map (λ item. item.decision) (fit_capacity c.global_capacity items),
      )

  -- `Remove`.
  unfoldable pub remove : ConnectionController F → ℕ → ConnectionController F
  unfolding erase
  remove c id = record c { states = erase id c.states }
