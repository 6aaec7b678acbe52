-- ===== src/Controller/Decisions.antt =====
-- The decisions of a whole tick, against its inputs.
use muld.Prelude.{ℕ, ◌≡◌, refl, ap, ◌⊎◌, inl, inr, List, [], ◌∷◌, map, arith, All, if◌then◌else◌}
use muld.Prelude.Int.{ℤ, pos, ◌+ℤ◌, ◌≤ℤ◌}
use muld.Prelude.Table.{nat_eq, lookup}
use muld.Prelude.Floats.{Floats}
use muld.Controller.{
  ConnectionControlInput, ConnectionControlDecision, ConnectionController, JobState,
  MutableDecision, desired_total, fit_capacity, tick_input, tick_inputs, tick, or_fresh,
  lower_bound, upper_bound,
}
use muld.Controller.Tune.{tick_active_bounds}
use muld.Controller.Shrink.{AllLowered}
use muld.Controller.Capacity.{IsFit, fit_capacity_lem}

-- The sum of the decisions.
unfoldable pub decided_total : List ConnectionControlDecision → ℤ
decided_total [] = pos 0
decided_total (d ∷ ds) = d.desired_connections +ℤ decided_total ds

module _ {F : Type 0} where
  -- The inputs of jobs that run.
  unfoldable pub actives : List (ConnectionControlInput F) → List (ConnectionControlInput F)
  actives [] = []
  actives (i ∷ inputs) = if i.active then i ∷ actives inputs else actives inputs

  abbrev IsFor : ConnectionControlInput F → MutableDecision F → Type 0
  IsFor i item =
      (item.decision.job_id ≡ i.job_id)
      × (item.min_connections ≡ lower_bound i)
      × (lower_bound i ≤ℤ item.decision.desired_connections)
      × (item.decision.desired_connections ≤ℤ upper_bound i)

  abbrev AllFor : List (ConnectionControlInput F) → List (MutableDecision F) → Type 0
  AllFor [] [] = Unit {0}
  AllFor [] (y ∷ ys) = ⊥
  AllFor (i ∷ is) [] = ⊥
  AllFor (i ∷ is) (y ∷ ys) = IsFor i y × AllFor is ys

  -- One decision for each input, in order: for its job and between its bounds.
  abbrev pub AllDecided : List (ConnectionControlInput F) → List ConnectionControlDecision → Type 0
  AllDecided [] [] = Unit {0}
  AllDecided [] (d ∷ ds) = ⊥
  AllDecided (i ∷ is) [] = ⊥
  AllDecided (i ∷ is) (d ∷ ds) =
      ((d.job_id ≡ i.job_id)
        × (lower_bound i ≤ℤ d.desired_connections)
        × (d.desired_connections ≤ℤ upper_bound i))
      × AllDecided is ds

  -- No decision is above its input's lower bound.
  abbrev pub AllAtLower : List (ConnectionControlInput F) → List ConnectionControlDecision → Type 0
  AllAtLower [] [] = Unit {0}
  AllAtLower [] (d ∷ ds) = ⊥
  AllAtLower (i ∷ is) [] = ⊥
  AllAtLower (i ∷ is) (d ∷ ds) = (d.desired_connections ≤ℤ lower_bound i) × AllAtLower is ds

  abbrev decisions : List (MutableDecision F) → List ConnectionControlDecision
  decisions = map λ item. item.decision

  decided_total-decisions :
      (xs : List (MutableDecision F)) → decided_total (decisions xs) ≡ desired_total xs
  unfolding decided_total desired_total
  decided_total-decisions [] = refl
  decided_total-decisions (x ∷ xs) =
      ap (λ t. x.decision.desired_connections +ℤ t) (decided_total-decisions xs)

  lowered_decided :
      (is : List (ConnectionControlInput F)) (xs ys : List (MutableDecision F))
      → AllFor is xs
      → AllLowered xs ys
      → AllDecided is (decisions ys)
  lowered_decided [] [] [] h l = tt
  lowered_decided [] [] (y ∷ ys) h l = absurd l
  lowered_decided [] (x ∷ xs) ys h l = absurd h
  lowered_decided (i ∷ is) [] ys h l = absurd h
  lowered_decided (i ∷ is) (x ∷ xs) [] h l = absurd l
  lowered_decided (i ∷ is) (x ∷ xs) (y ∷ ys) h l = (ground arith, lowered_decided is xs ys h.1 l.1)

  lowered_least :
      (is : List (ConnectionControlInput F)) (xs ys : List (MutableDecision F))
      → AllFor is xs
      → AllLowered xs ys
      → All (λ y. y.decision.desired_connections ≤ℤ y.min_connections) ys
      → AllAtLower is (decisions ys)
  lowered_least [] [] [] h l m = tt
  lowered_least [] [] (y ∷ ys) h l m = absurd l
  lowered_least [] (x ∷ xs) ys h l m = absurd h
  lowered_least (i ∷ is) [] ys h l m = absurd h
  lowered_least (i ∷ is) (x ∷ xs) [] h l m = absurd l
  lowered_least (i ∷ is) (x ∷ xs) (y ∷ ys) h l m =
      (ground arith, lowered_least is xs ys h.1 l.1 m.1)

module _ (D : Floats) where
  open D use {F}

  tick_inputs-AllFor :
      (states : List (ℕ × JobState F)) (inputs : List (ConnectionControlInput F))
      → AllFor (actives inputs) (tick_inputs D states inputs).1
  unfolding tick_inputs tick_input actives
  tick_inputs-AllFor states [] = tt
  tick_inputs-AllFor states (i ∷ inputs) = ground (
    arith,
    tick_inputs-AllFor (tick_input D states i).0 inputs,
    tick_active_bounds D (or_fresh D (lookup i.job_id states)) i,
  )

  AllFor-IsFit :
      (is : List (ConnectionControlInput F)) (xs : List (MutableDecision F))
      → AllFor is xs
      → All (IsFit D) xs
  AllFor-IsFit [] [] h = tt
  AllFor-IsFit [] (x ∷ xs) h = absurd h
  AllFor-IsFit (i ∷ is) [] h = absurd h
  AllFor-IsFit (i ∷ is) (x ∷ xs) h = (ground arith, AllFor-IsFit is xs h.1)

  -- A tick makes one decision for each active input, in their order, for its job and within its
  -- normalised bounds; and the decisions together are within the global capacity, unless each of
  -- them already is its job's minimum.
  pub tick_decisions :
      (c : ConnectionController F) (inputs : List (ConnectionControlInput F))
      → AllDecided (actives inputs) (tick D c inputs).1
        × ((decided_total (tick D c inputs).1 ≤ℤ c.global_capacity)
            ⊎ AllAtLower (actives inputs) (tick D c inputs).1)
  unfolding tick
  tick_decisions c inputs =
      let items = (tick_inputs D c.states inputs).1 in
      let for_all = tick_inputs-AllFor c.states inputs in
      let (lowered, total, _) =
        fit_capacity_lem D c.global_capacity items (AllFor-IsFit (actives inputs) items for_all) in
      let out = fit_capacity D c.global_capacity items in
      (
        lowered_decided (actives inputs) items out for_all lowered,
        elim total [
          | inl fits ↦ inl (rw (decided_total-decisions out) fits)
          | inr least ↦ inr (lowered_least (actives inputs) items out for_all lowered least)
        ],
      )
