-- ===== src/Manager/Control/Total.antt =====
-- The jobs after a round of the control loop, together.
use mathlib.Core.Path.{subst}
use muld.Prelude.{
  ℕ, ◌≡◌, ◌⊎◌, inl, inr, refl, sym, ap, ◌∙◌, none, List, [], ◌∷◌, if_true, if_both, Bool-cases, All,
}
use muld.Prelude.Int.{ℤ, ◌≤ℤ◌}
use muld.Prelude.Table.{nat_eq, lookup}
use muld.Prelude.Floats.{Floats}
use muld.Connections.{is_active}
use muld.Engine.{Engine}
use muld.Controller.{
  ConnectionControlInput, ConnectionControlDecision, ConnectionController, tick, remove,
}
use muld.Controller.Decisions.{decided_total, actives, AllDecided, AllAtLower, tick_decisions}
use muld.Manager.Control.{
  desired_by_job, apply_wishes, control_input, Collected, collect, act, use_inputs, control_round,
}
use muld.Manager.Control.Collects.{AreDistinct}
use muld.Manager.Control.Rounds.{
  AllTurned, wished_total, IsLeast, AreBounded, Follows, apply_wishes-Follows,
}

apply_wishes-nil :
    {F : Type 0} (max_threads : ℤ) (jobs : List (ℕ × Engine F))
    → (apply_wishes max_threads [] jobs).0 ≡ jobs
unfolding apply_wishes lookup
apply_wishes-nil max_threads [] = refl
apply_wishes-nil max_threads ((id, e) ∷ jobs) =
    ap (λ js. (id, e) ∷ js) (apply_wishes-nil max_threads jobs)

nothing-AreFresh :
    {F : Type 0} (jobs : List (ℕ × Engine F)) → All (λ j. lookup {V = ℤ} j.0 [] ≡ none) jobs
unfolding lookup
nothing-AreFresh [] = tt
nothing-AreFresh (j ∷ jobs) = (refl, nothing-AreFresh jobs)

module _ (D : Floats) where
  open D use {F}

  collect-actives :
      (c : ConnectionController F) (jobs : List (ℕ × Engine F))
      → actives (collect D c jobs).inputs ≡ (collect D c jobs).inputs
  unfolding collect control_input actives
  collect-actives c [] = refl
  collect-actives c ((id, e) ∷ jobs) = elim (Bool-cases (is_active e.state)) [
    | inl a ↦
        rw (if_true (is_active e.state) _ _ a)
          (ap (λ is. control_input D id e ∷ is) (collect-actives c jobs))
    | inr a ↦ rw a (collect-actives (remove D c id) jobs)
  ]

  collect-capacity :
      (c : ConnectionController F) (jobs : List (ℕ × Engine F))
      → (collect D c jobs).controller.global_capacity ≡ c.global_capacity
  unfolding collect remove
  collect-capacity c [] = refl
  collect-capacity c ((id, e) ∷ jobs) =
      if_both (λ (s : Collected D). s.controller.global_capacity ≡ c.global_capacity)
        (is_active e.state) _ _ (collect-capacity c jobs) (collect-capacity (remove D c id) jobs)

  -- The jobs after a round, for the inputs that were collected and the decisions on them.
  abbrev IsShared : ℤ → List (ℕ × Engine F) → List (ℕ × Engine F) → Type 0
  IsShared capacity jobs after =
      AllTurned jobs after × ((wished_total after ≤ℤ capacity) ⊎ All IsLeast after)

  Follows-IsShared :
      (capacity : ℤ) (jobs after : List (ℕ × Engine F)) (inputs : List (ConnectionControlInput F))
      (ds : List ConnectionControlDecision)
      → Follows D jobs inputs ds after
      → (decided_total ds ≤ℤ capacity) ⊎ AllAtLower inputs ds
      → IsShared capacity jobs after
  Follows-IsShared capacity jobs after inputs ds (turned, total, least) (inl fits) =
      (turned, inl (subst (λ t. t ≤ℤ capacity) (sym total) fits))
  Follows-IsShared capacity jobs after inputs ds (turned, total, least) (inr l) =
      (turned, inr (least l))

  act-IsShared :
      (capacity max_threads : ℤ) (s : Collected D) (c : ConnectionController F)
      (jobs : List (ℕ × Engine F)) (i : ConnectionControlInput F)
      (is : List (ConnectionControlInput F)) (ds : List ConnectionControlDecision)
      → AllDecided (i ∷ is) ds
      → (decided_total ds ≤ℤ capacity) ⊎ AllAtLower (i ∷ is) ds
      → Follows D jobs (i ∷ is) ds (apply_wishes max_threads (desired_by_job [] ds) s.jobs).0
      → IsShared capacity jobs (act D max_threads s c ds).jobs
  act-IsShared capacity max_threads s c jobs i is [] h t f = absurd h
  act-IsShared capacity max_threads s c jobs i is (d ∷ ds) h t f =
      Follows-IsShared capacity jobs _ (i ∷ is) (d ∷ ds) f t

  -- The jobs of a round.
  round-IsShared :
      (max_threads : ℤ) (c : ConnectionController F) (jobs : List (ℕ × Engine F))
      → AreBounded jobs
      → AreDistinct jobs
      → let after = (control_round D max_threads c jobs).jobs in
        AllTurned jobs after × ((wished_total after ≤ℤ c.global_capacity) ⊎ All IsLeast after)
  unfolding control_round
  round-IsShared max_threads c jobs b o = go (collect D c jobs).inputs refl
    where
      follow_all :
          (ds : List ConnectionControlDecision)
          → AllDecided (collect D c jobs).inputs ds
          → Follows D jobs
              (collect D c jobs).inputs
              ds
              (apply_wishes max_threads (desired_by_job [] ds) (collect D c jobs).jobs).0
      follow_all ds = apply_wishes-Follows D max_threads c jobs ds [] b o (nothing-AreFresh jobs)

      go :
          (is : List (ConnectionControlInput F))
          → (collect D c jobs).inputs ≡ is
          → IsShared c.global_capacity jobs (use_inputs D max_threads (collect D c jobs) is).jobs
      go [] e =
          let none_active : AllDecided (collect D c jobs).inputs [] =
            subst (λ is. AllDecided is []) (sym e) tt in
          let all = follow_all [] none_active in
          let least : AllAtLower (collect D c jobs).inputs [] =
            subst (λ is. AllAtLower is []) (sym e) tt in
          Follows-IsShared c.global_capacity jobs (collect D c jobs).jobs (collect D c jobs).inputs
            []
            (subst (λ js. Follows D jobs (collect D c jobs).inputs [] js)
              (apply_wishes-nil max_threads (collect D c jobs).jobs) (unfold desired_by_job in all))
            (inr least)
      go (i ∷ is) e =
          let k = (collect D c jobs).controller in
          let same : actives (i ∷ is) ≡ i ∷ is =
            subst (λ is'. actives is' ≡ is') e (collect-actives c jobs) in
          let ds = (tick D k (i ∷ is)).1 in
          let (decided, total) = tick_decisions D k (i ∷ is) in
          let decided' : AllDecided (i ∷ is) ds = subst (λ x. AllDecided x ds) same decided in
          let total' : (decided_total ds ≤ℤ c.global_capacity) ⊎ AllAtLower (i ∷ is) ds =
            subst (λ g. (decided_total ds ≤ℤ g) ⊎ AllAtLower (i ∷ is) ds) (collect-capacity c jobs)
              (subst (λ x. (decided_total ds ≤ℤ k.global_capacity) ⊎ AllAtLower x ds) same total) in
          act-IsShared c.global_capacity max_threads (collect D c jobs) (tick D k (i ∷ is)).0 jobs i
            is ds decided' total'
            (subst
              (λ x.
                Follows D jobs x ds
                  (apply_wishes max_threads (desired_by_job [] ds) (collect D c jobs).jobs).0)
              e (follow_all ds (subst (λ x. AllDecided x ds) (sym e) decided')))

  act-capacity :
      (max_threads : ℤ) (s : Collected D) (c : ConnectionController F)
      (ds : List ConnectionControlDecision)
      → (act D max_threads s c ds).controller ≡ c
  act-capacity max_threads s c [] = refl
  act-capacity max_threads s c (d ∷ ds) = refl

  use_inputs-capacity :
      (max_threads : ℤ) (s : Collected D) (is : List (ConnectionControlInput F))
      → (use_inputs D max_threads s is).controller.global_capacity ≡ s.controller.global_capacity
  unfolding tick
  use_inputs-capacity max_threads s [] = refl
  use_inputs-capacity max_threads s (i ∷ is) =
      ap (λ (c : ConnectionController F). c.global_capacity)
        (act-capacity max_threads s (tick D s.controller (i ∷ is)).0
          (tick D s.controller (i ∷ is)).1)

  -- For jobs at different addresses whose counters are in their bounds, a round of the control loop
  -- keeps all jobs with their states, leaves the idle ones alone, and gives each a wish in its bounds;
  -- none has more connections scheduled than it had or wishes. The wishes of the queued and downloading
  -- jobs together are within the controller's capacity, unless each of them already is at its minimum,
  -- whatever the capacity. The controller keeps its capacity for the next round.
  pub control_round-IsShared :
      (max_threads : ℤ) (c : ConnectionController F) (jobs : List (ℕ × Engine F))
      → AreBounded jobs
      → AreDistinct jobs
      → let r = control_round D max_threads c jobs in
        AllTurned jobs r.jobs
        × ((wished_total r.jobs ≤ℤ c.global_capacity) ⊎ All IsLeast r.jobs)
        × (r.controller.global_capacity ≡ c.global_capacity)
  unfolding control_round
  control_round-IsShared max_threads c jobs b o =
      let (turned, total) = round-IsShared max_threads c jobs b o in
      (
        turned,
        total,
        use_inputs-capacity max_threads (collect D c jobs) (collect D c jobs).inputs
            ∙ collect-capacity c jobs,
      )
