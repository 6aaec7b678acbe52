-- ===== src/Manager/Control/Collects.antt =====
-- The first loop of a round of the control loop, and the jobs that decisions are for.
use mathlib.Core.Path.{subst}
use muld.Prelude.{
  ℕ, ◌≡◌, ◌≢◌, inl, inr, sym, ◌∙◌, true, false, List, [], ◌∷◌, Bool-cases, if_true, if_false, All,
}
use muld.Prelude.Table.{nat_eq}
use muld.Prelude.Floats.{Floats}
use muld.Connections.{is_active}
use muld.Engine.{Engine}
use muld.Controller.{
  ConnectionControlInput, ConnectionControlDecision, ConnectionController, remove,
}
use muld.Controller.Decisions.{AllDecided}
use muld.Manager.Control.Wishes.{IsMissing}
use muld.Manager.Control.{control_input, after_sample, collect}

module _ {F : Type 0} where
  abbrev pub IsOther : ℕ → List (ℕ × Engine F) → Type 0
  IsOther id jobs = All (λ j. j.0 ≢ id) jobs

  -- Different jobs are at different addresses.
  abbrev pub AreDistinct : List (ℕ × Engine F) → Type 0
  AreDistinct [] = Unit
  AreDistinct (j ∷ jobs) = IsOther j.0 jobs × AreDistinct jobs

module _ (D : Floats) where
  open D use {F}

  pub collect-active :
      (c : ConnectionController F) (id : ℕ) (e : Engine F) (jobs : List (ℕ × Engine F))
      → is_active e.state ≡ true
      → collect D c ((id, e) ∷ jobs) ≡ record {
        controller = (collect D c jobs).controller;
        inputs = control_input D id e ∷ (collect D c jobs).inputs;
        jobs = (id, after_sample D e) ∷ (collect D c jobs).jobs;
      }
  unfolding collect
  collect-active c id e jobs h = if_true (is_active e.state) _ _ h

  pub collect-idle :
      (c : ConnectionController F) (id : ℕ) (e : Engine F) (jobs : List (ℕ × Engine F))
      → is_active e.state ≡ false
      → collect D c ((id, e) ∷ jobs) ≡ record {
        controller = (collect D (remove D c id) jobs).controller;
        inputs = (collect D (remove D c id) jobs).inputs;
        jobs = (id, e) ∷ (collect D (remove D c id) jobs).jobs;
      }
  unfolding collect
  collect-idle c id e jobs h = if_false (is_active e.state) _ _ h

  -- A decision is for one of the jobs.
  cons-IsMissing :
      (k id : ℕ) (e : Engine F) (inputs : List (ConnectionControlInput F))
      (ds : List ConnectionControlDecision)
      → id ≢ k
      → ((rest : List ConnectionControlDecision) → AllDecided inputs rest → IsMissing k rest)
      → AllDecided (control_input D id e ∷ inputs) ds
      → IsMissing k ds
  unfolding control_input
  cons-IsMissing k id e inputs [] o f h = absurd h
  cons-IsMissing k id e inputs (d ∷ ds) o f h = (λ same. o (sym h.0.0 ∙ same), f ds h.1)

  pub IsOther-IsMissing :
      (k : ℕ) (c : ConnectionController F) (jobs : List (ℕ × Engine F))
      (ds : List ConnectionControlDecision)
      → IsOther k jobs
      → AllDecided (collect D c jobs).inputs ds
      → IsMissing k ds
  unfolding collect
  IsOther-IsMissing k c [] [] o h = tt
  IsOther-IsMissing k c [] (d ∷ ds) o h = absurd h
  IsOther-IsMissing k c ((id, e) ∷ jobs) ds o h = elim (Bool-cases (is_active e.state)) [
    | inl a ↦
        cons-IsMissing k id e (collect D c jobs).inputs ds o.0
          (λ rest. IsOther-IsMissing k c jobs rest o.1)
          (subst (λ s. AllDecided s.inputs ds) (collect-active c id e jobs a) h)
    | inr a ↦
        IsOther-IsMissing k (remove D c id) jobs ds o.1
          (subst (λ s. AllDecided s.inputs ds) (collect-idle c id e jobs a) h)
  ]
