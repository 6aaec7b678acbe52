-- ===== src/Manager/Control/Rounds.antt =====
-- A whole round of the control loop, against the jobs that it sees.
use mathlib.Core.Path.{subst}
use muld.Prelude.{
  ℕ, ◌≡◌, inl, inr, refl, sym, ap, ◌∙◌, true, false, none, some, List, [], ◌∷◌, if◌then◌else◌,
  Bool-cases, if_true, if_false, arith, All,
}
use muld.Prelude.Int.{ℤ, pos, ◌+ℤ◌, ◌≤ℤ◌, max_ℤ}
use muld.Prelude.Table.{nat_eq, lookup, insert, lookup-insert}
use muld.Prelude.Floats.{Floats}
use muld.Connections.{set_desired, is_active, plan_new_workers}
use muld.Connections.Bounds.{IsBounded}
use muld.Engine.{Engine, set_desired_connections}
use muld.Controller.{
  ConnectionControlInput, ConnectionControlDecision, ConnectionController, remove, lower_bound,
  upper_bound,
}
use muld.Controller.Decisions.{decided_total, AllDecided, AllAtLower}
use muld.Manager.Control.Collects.{
  IsOther, AreDistinct, collect-active, collect-idle, IsOther-IsMissing,
}
use muld.Manager.Control.Wishes.{lookup-desired_by_job, at_most, follow_counters}
use muld.Manager.Control.{
  enqueue_tasks, desired_by_job, follow, apply_wishes, control_input, after_sample, collect,
}

module _ {F : Type 0} where
  -- What a round does to a job: a job that is neither queued nor downloading is left alone.
  abbrev pub Turned : ℕ × Engine F → ℕ × Engine F → Type 0
  Turned (id, e) (id', e') =
      (id' ≡ id)
      × (e'.state ≡ e.state)
      × IsBounded e'.connections
      × (is_active e.state ≡ false → e' ≡ e)
      × (e'.connections.scheduled ≤ℤ max_ℤ e.connections.scheduled e'.connections.desired)

  abbrev pub AllTurned : List (ℕ × Engine F) → List (ℕ × Engine F) → Type 0
  AllTurned [] [] = Unit {0}
  AllTurned [] (k ∷ ks) = ⊥
  AllTurned (j ∷ js) [] = ⊥
  AllTurned (j ∷ js) (k ∷ ks) = Turned j k × AllTurned js ks

  -- The wishes of the queued and downloading jobs together.
  unfoldable pub wished_total : List (ℕ × Engine F) → ℤ
  wished_total [] = pos 0
  wished_total ((id, e) ∷ jobs) =
      if is_active e.state then e.connections.desired +ℤ wished_total jobs else wished_total jobs

  abbrev pub IsLeast : ℕ × Engine F → Type 0
  IsLeast (id, e) =
      is_active e.state ≡ true → e.connections.desired ≤ℤ e.connections.min_connections

  abbrev pub AreBounded : List (ℕ × Engine F) → Type 0
  AreBounded jobs = All (λ j. IsBounded j.1.connections) jobs

module _ (D : Floats) where
  open D use {F}

  abbrev pub AreFresh : List (ℕ × ℤ) → List (ℕ × Engine F) → Type 0
  AreFresh wishes jobs = All (λ j. lookup j.0 wishes ≡ none) jobs

  insert-AreFresh :
      (id : ℕ) (w : ℤ) (wishes : List (ℕ × ℤ)) (jobs : List (ℕ × Engine F))
      → IsOther id jobs
      → AreFresh wishes jobs
      → AreFresh (insert id w wishes) jobs
  insert-AreFresh id w wishes [] o h = tt
  insert-AreFresh id w wishes ((k, e) ∷ jobs) o h = (
    ground (arith, lookup-insert id k w wishes, h.0, o.0),
    insert-AreFresh id w wishes jobs o.1 h.1,
  )

  -- What the last loop leaves of the collected jobs, for decisions that are for the active ones.
  abbrev pub Follows :
      List (ℕ × Engine F)
      → List (ConnectionControlInput F)
      → List ConnectionControlDecision
      → List (ℕ × Engine F)
      → Type 0
  Follows jobs inputs ds after =
      AllTurned jobs after
      × (wished_total after ≡ decided_total ds)
      × (AllAtLower inputs ds → All IsLeast after)

  -- A job that no decision is for, in front of jobs that are done.
  idle-Follows :
      (max_threads : ℤ) (wishes : List (ℕ × ℤ)) (id : ℕ) (e : Engine F)
      (jobs collected : List (ℕ × Engine F)) (inputs : List (ConnectionControlInput F))
      (ds : List ConnectionControlDecision)
      → lookup id wishes ≡ none
      → is_active e.state ≡ false
      → IsBounded e.connections
      → Follows jobs inputs ds (apply_wishes max_threads wishes collected).0
      → Follows ((id, e) ∷ jobs) inputs ds (apply_wishes max_threads wishes ((id, e) ∷ collected)).0
  unfolding apply_wishes wished_total
  idle-Follows max_threads wishes id e jobs collected inputs ds missing idle b
        (turned, total, least) =
      let rest = (apply_wishes max_threads wishes collected).0 in
      subst (λ m. Follows ((id, e) ∷ jobs) inputs ds ((id, (follow max_threads id e m).0) ∷ rest))
        (sym missing)
        (
          ((refl, refl, b, λ _. refl, ground arith), turned),
          if_false (is_active e.state) _ _ idle ∙ total,
          λ l. (λ a. absurd (cc), least l),
        )

  -- A job with a decision, in front of jobs that are done.
  active-Follows :
      (max_threads : ℤ) (wishes : List (ℕ × ℤ)) (id : ℕ) (e : Engine F)
      (jobs collected : List (ℕ × Engine F)) (inputs : List (ConnectionControlInput F))
      (d : ConnectionControlDecision) (ds : List ConnectionControlDecision)
      → lookup id wishes ≡ some d.desired_connections
      → is_active e.state ≡ true
      → IsBounded e.connections
      → lower_bound (control_input D id e) ≤ℤ d.desired_connections
      → d.desired_connections ≤ℤ upper_bound (control_input D id e)
      → Follows jobs inputs ds (apply_wishes max_threads wishes collected).0
      → Follows
          ((id, e) ∷ jobs)
          (control_input D id e ∷ inputs)
          (d ∷ ds)
          (apply_wishes max_threads wishes ((id, after_sample D e) ∷ collected)).0
  unfolding apply_wishes wished_total decided_total control_input enqueue_tasks
      set_desired_connections
  active-Follows max_threads wishes id e jobs collected inputs d ds found active b lo hi
        (turned, total, least) =
      let rest = (apply_wishes max_threads wishes collected).0 in
      let w = d.desired_connections in
      let c' = (plan_new_workers e.state (set_desired e.connections w) max_threads).1 in
      let (bounded, wish, min_same, few) =
        follow_counters e.state e.connections w max_threads b lo hi in
      subst
        (λ m.
          Follows ((id, e) ∷ jobs) (control_input D id e ∷ inputs) (d ∷ ds)
            ((id, (follow max_threads id (after_sample D e) m).0) ∷ rest))
        (sym found)
        (
          ((refl, refl, bounded, λ i. absurd (cc), few), turned),
          if_true (is_active e.state) _ _ active
              ∙ ap (λ x. x +ℤ wished_total rest) wish
              ∙ ap (λ x. w +ℤ x) total,
          λ l. (
            λ a.
                subst (λ x. x ≤ℤ c'.min_connections) (sym wish)
                  (subst (λ y. w ≤ℤ y) (sym min_same)
                    (at_most w e.connections.min_connections b.min_pos l.0)),
            least l.1,
          ),
        )

  decided-Follows :
      (max_threads : ℤ) (c : ConnectionController F) (id : ℕ) (e : Engine F)
      (jobs : List (ℕ × Engine F)) (ds : List ConnectionControlDecision) (wishes : List (ℕ × ℤ))
      → is_active e.state ≡ true
      → IsBounded e.connections
      → ((ds' : List ConnectionControlDecision) (wishes' : List (ℕ × ℤ))
          → AreFresh wishes' jobs
          → AllDecided (collect D c jobs).inputs ds'
          → Follows jobs
              (collect D c jobs).inputs
              ds'
              (apply_wishes max_threads (desired_by_job wishes' ds') (collect D c jobs).jobs).0)
      → IsOther id jobs
      → AreFresh wishes ((id, e) ∷ jobs)
      → AllDecided (control_input D id e ∷ (collect D c jobs).inputs) ds
      → Follows
          ((id, e) ∷ jobs)
          (control_input D id e ∷ (collect D c jobs).inputs)
          ds
          (apply_wishes max_threads
            (desired_by_job wishes ds)
            ((id, after_sample D e) ∷ (collect D c jobs).jobs)).0
  unfolding desired_by_job control_input
  decided-Follows max_threads c id e jobs [] wishes a b ih o f h = absurd h
  decided-Follows max_threads c id e jobs (d ∷ ds) wishes a b ih o f ((same, lo, hi), h) =
      let wishes' = insert d.job_id d.desired_connections wishes in
      let missing = IsOther-IsMissing D id c jobs ds o h in
      let found : lookup id (desired_by_job wishes' ds) ≡ some d.desired_connections =
        lookup-desired_by_job id wishes' ds missing
        ∙ ground (arith, lookup-insert d.job_id id d.desired_connections wishes) in
      let fresh =
        insert-AreFresh d.job_id d.desired_connections wishes jobs
          (subst (λ k. IsOther k jobs) (sym same) o) f.1 in
      active-Follows max_threads (desired_by_job wishes' ds) id e jobs (collect D c jobs).jobs
        (collect D c jobs).inputs d ds found a b lo hi (ih ds wishes' fresh h)

  pub apply_wishes-Follows :
      (max_threads : ℤ) (c : ConnectionController F) (jobs : List (ℕ × Engine F))
      (ds : List ConnectionControlDecision) (wishes : List (ℕ × ℤ))
      → AreBounded jobs
      → AreDistinct jobs
      → AreFresh wishes jobs
      → AllDecided (collect D c jobs).inputs ds
      → Follows jobs
          (collect D c jobs).inputs
          ds
          (apply_wishes max_threads (desired_by_job wishes ds) (collect D c jobs).jobs).0
  apply_wishes-Follows max_threads c [] ds wishes b o f h = none_left ds h
    where
      none_left :
          (ds : List ConnectionControlDecision)
          → AllDecided (collect D c []).inputs ds
          → Follows []
              (collect D c []).inputs
              ds
              (apply_wishes max_threads (desired_by_job wishes ds) (collect D c []).jobs).0
      none_left [] h =
          unfold collect in
          unfold apply_wishes in unfold wished_total in unfold decided_total in (tt, refl, λ _. tt)
      none_left (d ∷ ds) h = absurd (unfold collect in h)
  apply_wishes-Follows max_threads c ((id, e) ∷ jobs) ds wishes b o f h =
      elim (Bool-cases (is_active e.state)) [
        | inl a ↦
            subst
              (λ s.
                AllDecided s.inputs ds
                → Follows ((id, e) ∷ jobs) s.inputs ds
                    (apply_wishes max_threads (desired_by_job wishes ds) s.jobs).0)
              (sym (collect-active D c id e jobs a))
              (decided-Follows max_threads c id e jobs ds wishes a b.0
                (λ ds' wishes' f'. apply_wishes-Follows max_threads c jobs ds' wishes' b.1 o.1 f')
                o.0 f)
              h
        | inr a ↦
            subst
              (λ s.
                AllDecided s.inputs ds
                → Follows ((id, e) ∷ jobs) s.inputs ds
                    (apply_wishes max_threads (desired_by_job wishes ds) s.jobs).0)
              (sym (collect-idle D c id e jobs a))
              (λ h'.
                idle-Follows max_threads (desired_by_job wishes ds) id e jobs
                  (collect D (remove D c id) jobs).jobs (collect D (remove D c id) jobs).inputs ds
                  (lookup-desired_by_job id wishes ds
                      (IsOther-IsMissing D id (remove D c id) jobs ds o.0 h')
                    ∙ f.0)
                  a b.0
                  (apply_wishes-Follows max_threads (remove D c id) jobs ds wishes b.1 o.1 f.1 h'))
              h
      ]
