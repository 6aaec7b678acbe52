-- ===== src/Controller/States.antt =====
-- The controller's memory of each job.
use muld.Prelude.{
  ℕ, ◌≡◌, refl, ◌∙◌, true, false, Option, none, some, List, [], ◌∷◌, ◌++◌, map, arith,
  if◌then◌else◌,
}
use muld.Prelude.Table.{nat_eq, lookup, lookup-insert, lookup-erase, contains}
use muld.Prelude.Floats.{Floats}
use muld.Controller.{
  ConnectionControlInput, ConnectionController, JobState, or_fresh, tick_active, tick_input,
  tick_inputs, prune, tick,
}

abbrev job_ids : {F : Type 0} → List (ConnectionControlInput F) → List ℕ
job_ids = map (λ i. i.job_id)

module _ (D : Floats) where
  open D use {F}

  lookup-prune :
      (seen : List ℕ) (id : ℕ) (states : List (ℕ × JobState F))
      → lookup id (prune D seen states) ≡ (if contains seen id then lookup id states else none)
  unfolding prune lookup
  lookup-prune seen id [] = ground arith
  lookup-prune seen id ((j, s) ∷ states) = ground (arith, lookup-prune seen id states)

  tick_input_other :
      (states : List (ℕ × JobState F)) (input : ConnectionControlInput F) (id : ℕ)
      → nat_eq.beq input.job_id id ≡ false
      → lookup id (tick_input D states input).0 ≡ lookup id states
  unfolding tick_input
  tick_input_other states input id h = ground (
    arith,
    lookup-insert input.job_id id (tick_active D (or_fresh D (lookup input.job_id states)) input).0
        states,
    lookup-erase input.job_id id states,
  )

  tick_inputs_other :
      (states : List (ℕ × JobState F)) (inputs : List (ConnectionControlInput F)) (id : ℕ)
      → contains (job_ids inputs) id ≡ false
      → lookup id (tick_inputs D states inputs).0 ≡ lookup id states
  unfolding tick_inputs contains
  tick_inputs_other states [] id h = refl
  tick_inputs_other states (i ∷ inputs) id h =
      ground
        (arith, tick_inputs_other (tick_input D states i).0 inputs id, tick_input_other states i id)

  tick_inputs_append :
      (states : List (ℕ × JobState F)) (xs ys : List (ConnectionControlInput F))
      → (tick_inputs D states (xs ++ ys)).0 ≡ (tick_inputs D (tick_inputs D states xs).0 ys).0
  unfolding tick_inputs
  tick_inputs_append states [] ys = refl
  tick_inputs_append states (x ∷ xs) ys = tick_inputs_append (tick_input D states x).0 xs ys

  contains-append :
      (xs : List (ConnectionControlInput F)) (i : ConnectionControlInput F)
      (ys : List (ConnectionControlInput F))
      → contains (job_ids (xs ++ i ∷ ys)) i.job_id ≡ true
  unfolding contains
  contains-append [] i ys = ground arith
  contains-append (x ∷ xs) i ys = ground (arith, contains-append xs i ys)

  abbrev pub state_after : ConnectionControlInput F → List (ℕ × JobState F) → Option (JobState F)
  state_after i states =
      if i.active then some (tick_active D (or_fresh D (lookup i.job_id states)) i).0 else none

  tick_input_self :
      (states : List (ℕ × JobState F)) (i : ConnectionControlInput F)
      → lookup i.job_id (tick_input D states i).0 ≡ state_after i states
  unfolding tick_input
  tick_input_self states i = ground (
    arith,
    lookup-insert i.job_id i.job_id (tick_active D (or_fresh D (lookup i.job_id states)) i).0
        states,
    lookup-erase i.job_id i.job_id states,
  )

  tick_inputs_first :
      (states : List (ℕ × JobState F)) (i : ConnectionControlInput F)
      (ys : List (ConnectionControlInput F))
      → contains (job_ids ys) i.job_id ≡ false
      → lookup i.job_id (tick_inputs D states (i ∷ ys)).0 ≡ state_after i states
  unfolding tick_inputs
  tick_inputs_first states i ys h =
      tick_inputs_other (tick_input D states i).0 ys i.job_id h ∙ tick_input_self states i

  -- After a tick in which a job stands once, its state is what its own input made of its own state,
  -- and is gone if the job was inactive: no other job of the tick has a say.
  pub tick_states_own :
      (c : ConnectionController F) (xs ys : List (ConnectionControlInput F))
      (i : ConnectionControlInput F)
      → contains (job_ids xs) i.job_id ≡ false
      → contains (job_ids ys) i.job_id ≡ false
      → lookup i.job_id (tick D c (xs ++ i ∷ ys)).0.states ≡ state_after i c.states
  unfolding tick
  tick_states_own c xs ys i hx hy = rw (
    lookup-prune (job_ids (xs ++ i ∷ ys)) i.job_id _,
    contains-append xs i ys,
    tick_inputs_append c.states xs (i ∷ ys),
    tick_inputs_first (tick_inputs D c.states xs).0 i ys hy,
    tick_inputs_other c.states xs i.job_id hx,
  )

  -- A job that a tick does not name has no state after it, whatever state it had.
  pub tick_states_pruned :
      (c : ConnectionController F) (inputs : List (ConnectionControlInput F)) (id : ℕ)
      → contains (job_ids inputs) id ≡ false
      → lookup id (tick D c inputs).0.states ≡ none
  unfolding tick
  tick_states_pruned c inputs id h = rw (lookup-prune (job_ids inputs) id _, h)
