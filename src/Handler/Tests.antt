-- ===== src/Handler/Tests.antt =====
-- A handle and a small job.
use muld.Prelude.{ℕ, ◌≡◌, refl, false, some, none, [], ◌∷◌}
use muld.Prelude.Bytes.{codes}
use muld.Prelude.Floats.{milli}
use muld.Types.{initialized}
use muld.Engine.{Engine}
use muld.Engine.Samples.{
  first_chunk, second_chunk, job_in, job, empty_disk, file_url, every_callback,
}
use muld.Handler.{
  Handler, new_handler, pause_handler, cancel_handler, attach_engine, returns_at_once,
}
use muld.Handler.Before.{cancel_before_attach}
use muld.Handler.Mirror.{Mirrors, control-Mirrors}

abbrev new_job : Engine ℕ
new_job = job_in initialized (first_chunk ∷ second_chunk ∷ []) 1

fresh_handler : Handler ℕ
fresh_handler = new_handler milli file_url (codes "f") every_callback

fresh_no_engine : fresh_handler.engine ≡ none
unfolding fresh_handler new_handler
fresh_no_engine = refl

cancel_before_attach_example :
    returns_at_once
      (attach_engine milli
        (λ e. e)
        (λ e. e)
        5
        (cancel_handler fresh_handler empty_disk).0
        empty_disk
        new_job).0
    ≡ false
cancel_before_attach_example =
    (cancel_before_attach milli fresh_handler empty_disk empty_disk new_job (λ e. e) (λ e. e) 5
      fresh_no_engine refl refl refl).4

abbrev handler : Handler ℕ
handler = record fresh_handler { engine = some job; state = job.state }

handler-Mirrors : Mirrors handler job
handler-Mirrors = record { engine = refl; state = refl; quiet = refl; callbacks = refl }

control-Mirrors_example : (e : Engine ℕ) × Mirrors (pause_handler handler) e
control-Mirrors_example =
    (control-Mirrors milli handler job empty_disk (λ c. c) (λ c. c) 5 handler-Mirrors).0
