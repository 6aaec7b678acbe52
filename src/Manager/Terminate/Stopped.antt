-- ===== src/Manager/Terminate/Stopped.antt =====
-- The jobs after Terminate.
use muld.Prelude.{
  ℕ, ◌≡◌, refl, sym, ap, ◌∙◌, Bool, false, some, List, [], ◌∷◌, All, if◌then◌else◌, Bool-cases,
  if_both, if_true, if_false, inl, inr, arith,
}
use muld.Prelude.Bytes.{Bytes}
use muld.Types.{
  DownloadState, initialized, queued, downloading, completed, failed, paused, canceled,
}
use muld.Connections.{is_active}
use muld.Outcome.{returns, ◌>>=◌}
use muld.Disk.{Disk}
use muld.Engine.{Engine, is_done, set_state, allows}
use muld.Engine.Storage.{store_at}
use muld.Engine.Control.{pause}
use muld.Engine.Tally.{store_at-kept, store-returns}
use muld.Manager.Terminate.{terminate_job, terminate}

allows-paused : (s : DownloadState) → allows paused s ≡ is_active s
allows-paused initialized = refl
allows-paused queued = refl
allows-paused downloading = refl
allows-paused completed = refl
allows-paused failed = refl
allows-paused paused = refl
allows-paused canceled = refl

module _ {F : Type 0} where
  pause-state : (e : Engine F) → (pause e).1.state ≡ (if is_active e.state then paused else e.state)
  unfolding pause set_state
  pause-state e = ground (arith, allows-paused e.state)

  pause-chunks : (e : Engine F) → (pause e).1.chunks ≡ e.chunks
  unfolding pause set_state
  pause-chunks e =
      if_both (λ (r : Bool × Engine F). r.1.chunks ≡ e.chunks) (allows paused e.state) _ _ refl refl

  -- What Terminate makes of a job.
  abbrev pub Stopped : Engine F → Engine F → Type 0
  Stopped e e' =
      (e'.chunks ≡ e.chunks)
      × (e'.state ≡ (if is_done e then e.state else if is_active e.state then paused else e.state))

  abbrev pub AllStopped : List (Engine F) → List (Engine F) → Type 0
  AllStopped [] [] = Unit {0}
  AllStopped [] (k ∷ ks) = ⊥
  AllStopped (e ∷ es) [] = ⊥
  AllStopped (e ∷ es) (k ∷ ks) = Stopped e k × AllStopped es ks

  -- A job that is not finished has its output file open.
  abbrev pub IsOpen : Engine F → Type 0
  IsOpen e = is_done e ≡ false → (path : Bytes) × (e.writer ≡ some path)

  terminate_job-Stopped :
      (e : Engine F) (d : Disk) (unix : ℕ)
      → IsOpen e
      → (e' : Engine F) × (d' : Disk) × (terminate_job e d unix ≡ returns (e', d')) × Stopped e e'
  unfolding terminate_job
  terminate_job-Stopped e d unix h = elim (Bool-cases (is_done e)) [
    | inl done ↦ (e, d, if_true (is_done e) _ _ done, (refl, sym (if_true (is_done e) _ _ done)))
    | inr left ↦
        let (path, writer) = h left in
        let saved = store_at e d unix path in
        let same = store_at-kept e d unix path in
        (
          (pause saved.0).1,
          saved.1,
          if_false (is_done e) _ _ left
              ∙ ap (λ m. m >>= λ saved. returns ((pause saved.0).1, saved.1))
                  (store-returns e d unix path writer),
          (
            pause-chunks saved.0 ∙ ap (λ k. k.3) same,
            pause-state saved.0
                ∙ ap (λ k. if is_active k.0 then paused else k.0) same
                ∙ sym (if_false (is_done e) _ _ left),
          ),
        )
  ]

  -- Terminate returns if every unfinished job has its output file open. It leaves the chunks of all jobs
  -- as they are; an unfinished job that was queued or downloading is paused, and every other keeps its
  -- state.
  pub terminate-AllStopped :
      (jobs : List (Engine F)) (d : Disk) (unix : ℕ)
      → All IsOpen jobs
      → (jobs' : List (Engine F)) × (d' : Disk) × (terminate jobs d unix ≡ returns (jobs', d'))
        × AllStopped jobs jobs'
  unfolding terminate
  terminate-AllStopped [] d unix h = ([], d, refl, tt)
  terminate-AllStopped (e ∷ jobs) d unix h =
      let (e', d', one, stopped) = terminate_job-Stopped e d unix h.0 in
      let (jobs', d'', rest, all) = terminate-AllStopped jobs d' unix h.1 in
      (e' ∷ jobs', d'', rw (one) (rw (rest) refl), (stopped, all))
