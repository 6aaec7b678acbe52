-- ===== src/Manager/Control/Wishes.antt =====
-- What the decision for one job does to its counters of connections.
use mathlib.Core.Path.{subst}
use muld.Prelude.{ℕ, ◌≡◌, ◌≢◌, refl, sym, ap, ◌∙◌, List, [], ◌∷◌, if_false, arith, All}
use muld.Prelude.Int.{ℤ, pos, ◌+ℤ◌, ◌≤ℤ◌, max_ℤ, ltb_ℤ}
use muld.Prelude.Table.{nat_eq, lookup, insert, lookup-insert}
use muld.Types.{DownloadState}
use muld.Connections.{Connections, set_desired, plan_new_workers}
use muld.Connections.Bounds.{IsBounded, set_desired-IsBounded, plan_new_workers_lem}
use muld.Controller.{ConnectionControlDecision}
use muld.Manager.Control.{desired_by_job}

-- No decision is for a job.
abbrev pub IsMissing : ℕ → List ConnectionControlDecision → Type 0
IsMissing k ds = All (λ d. d.job_id ≢ k) ds

pub lookup-desired_by_job :
    (k : ℕ) (wishes : List (ℕ × ℤ)) (ds : List ConnectionControlDecision)
    → IsMissing k ds
    → lookup k (desired_by_job wishes ds) ≡ lookup k wishes
unfolding desired_by_job
lookup-desired_by_job k wishes [] h = refl
lookup-desired_by_job k wishes (d ∷ ds) h =
    lookup-desired_by_job k (insert d.job_id d.desired_connections wishes) ds h.1
    ∙ ground (arith, lookup-insert d.job_id k d.desired_connections wishes, h.0)

set_desired-desired :
    (c : Connections) (desired : ℤ)
    → IsBounded c
    → max_ℤ (pos 1) c.min_connections ≤ℤ desired
    → desired ≤ℤ max_ℤ (max_ℤ (pos 1) c.min_connections) c.max_connections
    → (set_desired c desired).desired ≡ desired
unfolding set_desired
set_desired-desired c desired b lo hi =
    if_false (ltb_ℤ desired c.min_connections) _ _ (ground arith)
    ∙ if_false (ltb_ℤ c.max_connections desired) _ _ (ground arith)

scheduled-IsBounded :
    (c : Connections) (n : ℤ) → IsBounded c → IsBounded (record c { scheduled = n })
scheduled-IsBounded c n b = record {
  min_pos = b.min_pos;
  min_le_desired = b.min_le_desired;
  desired_le_max = b.desired_le_max;
  budget_nonneg = b.budget_nonneg;
}

pub at_most : (w lo : ℤ) → pos 1 ≤ℤ lo → w ≤ℤ max_ℤ (pos 1) lo → w ≤ℤ lo
at_most w lo h k = ground arith

-- What a decision in its job's bounds does to the job's counters.
pub follow_counters :
    (state : DownloadState) (c : Connections) (desired max_threads : ℤ)
    → IsBounded c
    → max_ℤ (pos 1) c.min_connections ≤ℤ desired
    → desired ≤ℤ max_ℤ (max_ℤ (pos 1) c.min_connections) c.max_connections
    → let c' = (plan_new_workers state (set_desired c desired) max_threads).1 in
      IsBounded c'
      × (c'.desired ≡ desired)
      × (c'.min_connections ≡ c.min_connections)
      × (c'.scheduled ≤ℤ max_ℤ c.scheduled c'.desired)
follow_counters state c desired max_threads b lo hi =
    let c1 = set_desired c desired in
    let c' = (plan_new_workers state c1 max_threads).1 in
    let (_, same, few) = plan_new_workers_lem state c1 max_threads in
    let bounded = set_desired-IsBounded c desired b.min_pos (ground arith) b.budget_nonneg in
    let n = c1.scheduled +ℤ (plan_new_workers state c1 max_threads).0 in
    let wish : c'.desired ≡ c1.desired = ap (λ (x : Connections). x.desired) same in
    (
      subst IsBounded (sym same) (scheduled-IsBounded c1 n bounded),
      wish ∙ set_desired-desired c desired b lo hi,
      ap (λ (x : Connections). x.min_connections) same ∙ kept_min,
      subst (λ w. c'.scheduled ≤ℤ max_ℤ c.scheduled w) (sym wish)
          (subst (λ w. c'.scheduled ≤ℤ max_ℤ w c1.desired) kept_scheduled few),
    )
  where
    kept_min : (set_desired c desired).min_connections ≡ c.min_connections
    kept_min = unfold set_desired in refl

    kept_scheduled : (set_desired c desired).scheduled ≡ c.scheduled
    kept_scheduled = unfold set_desired in refl
