-- ===== src/Manager/Requests/Tests.antt =====
-- A download from the call on, the control loop over two jobs, and what stops jobs.
use muld.Prelude.{
  inl, inr, sym, ap, ◌∙◌, ◌++◌, ℕ, ◌≡◌, ◌⊎◌, refl, true, some, List, [], ◌∷◌, All, arith, eq_bytes,
}
use muld.Prelude.Int.{pos, ◌≤ℤ◌}
use muld.Prelude.Bytes.{Bytes, codes}
use muld.Prelude.Table.{bytes_eq, lookup, insert}
use muld.Prelude.Floats.{milli}
use muld.Types.{Url, queued, paused}
use muld.Outcome.{returns}
use muld.Disk.{Disk, open_writer, write_file, resize}
use muld.Engine.{Engine}
use muld.Engine.Samples.{
  job, job_in, first_chunk, second_chunk, file_url, every_callback, empty_disk,
}
use muld.Handler.{Handler}
use muld.Controller.{new_controller}
use muld.Manager.{FileInfo, FetchResult, successful, found, probe}
use muld.Manager.Load.{Jobs}
use muld.Manager.Control.{control_round}
use muld.Manager.Control.Rounds.{AllTurned, wished_total, IsLeast}
use muld.Manager.Control.Total.{control_round-IsShared}
use muld.Engine.{image_suffix}
use muld.Engine.Storage.{job_image}
use muld.Engine.Samples.{job-IsStorable}
use muld.Manager.Terminate.{terminate}
use muld.Manager.Terminate.Stopped.{AllStopped}
use muld.Manager.Terminate.Saved.{
  Same, IsSaveable, HasSaved, IsElsewhere, AreApart, DoneOr, terminate-AllSaved,
}
use muld.Manager.Requests.{PendingRequest, download}
use muld.Manager.Requests.Started.{serve-download, queued_handler}
use muld.Manager.Requests.Served.{AnsweredAt}
use muld.Manager.Requests.Answered.{serve_all-AnswersAll}

abbrev file : FileInfo
file = record {
  total_size = 5;
  supports_range = true;
  is_valid = true;
  etag = [];
  last_modified = [];
}

abbrev server : ℕ → Url → FetchResult
server attempt url = successful file

abbrev no_jobs : Jobs ℕ
no_jobs = record { max_threads = pos 4; loaded_images = []; jobs = []; identities = [] }

probed : probe server 3 0 file_url ≡ returns (found file file_url)
unfolding probe eq_bytes
probed = refl

abbrev with_file : Disk
with_file = record empty_disk { files = (codes "f", 0 ∷ 0 ∷ 0 ∷ 0 ∷ 0 ∷ []) ∷ [] }

opened : open_writer empty_disk (codes "f") 5 ≡ some with_file
unfolding open_writer write_file resize lookup insert
opened = refl

serve-download_example : (h : Handler ℕ) × (h.state ≡ queued)
serve-download_example =
    let r =
      serve-download milli 5 7 (codes "no") 1000 server every_callback file_url file_url (codes "f")
        0 0 no_jobs empty_disk with_file file (omega arith) probed opened in
    (r.0, r.5)

abbrev request : PendingRequest
request = record { kind = download file_url (codes "f") 0; callbacks = every_callback; handler = 0 }

abbrev handle : Handler ℕ
handle = queued_handler milli 5 7 (pos 4) file_url (codes "f") 0 every_callback

serve_all-AnswersAll_example :
    (hs : List (Handler ℕ)) × All (λ (r : PendingRequest). AnsweredAt hs r.handler) (request ∷ [])
serve_all-AnswersAll_example =
    let r =
      serve_all-AnswersAll milli (λ e. e) (λ e. e) 5 7 (codes "no") 1000 server (request ∷ [])
        (handle ∷ []) no_jobs empty_disk (λ attempt url e. absurd (cc))
        (((file_url, codes "f", 0, refl), omega arith), tt) in
    (r.0, r.6)

abbrev idle_job : Engine ℕ
idle_job = job_in paused (first_chunk ∷ second_chunk ∷ []) 1

abbrev two_jobs : List (ℕ × Engine ℕ)
two_jobs = (7, job) ∷ (8, idle_job) ∷ []

control_round-IsShared_example :
    let r = control_round milli (pos 4) (new_controller milli (pos 4)) two_jobs in
    AllTurned two_jobs r.jobs
    × ((wished_total r.jobs ≤ℤ (new_controller milli (pos 4)).global_capacity) ⊎ All IsLeast r.jobs)
    × (r.controller.global_capacity ≡ (new_controller milli (pos 4)).global_capacity)
control_round-IsShared_example =
    control_round-IsShared milli (pos 4) (new_controller milli (pos 4)) two_jobs (omega arith)
      (omega arith)

-- The same download into another file.
abbrev other_job : Engine ℕ
other_job = record job { output_path = codes "g"; writer = some (codes "g") }

jobs-AreSaveable : All (DoneOr (IsSaveable 1000 9 empty_disk)) (job ∷ other_job ∷ [])
unfolding job_image
jobs-AreSaveable = (
  inr (codes "f", refl, refl, inl (refl, job-IsStorable b'f')),
  (inr (codes "g", refl, refl, inl (refl, job-IsStorable b'g')), tt),
)

first_of : Bytes → ℕ
first_of [] = 0
first_of (c ∷ cs) = c

jobs-AreApart : AreApart (job ∷ other_job ∷ [])
unfolding first_of
jobs-AreApart = (
  (
    λ path open_file other open_other same.
        let f : path ≡ codes "f" = cc in
        let g : other ≡ codes "g" = cc in
        let e : 103 ≡ 102 =
          ap (λ p. first_of (p ++ image_suffix)) (sym g)
          ∙ ap first_of same
          ∙ ap (λ p. first_of (p ++ image_suffix)) f in
        absurd (omega (arith, e)),
    tt,
  ),
  (tt, tt),
)

terminate-AllSaved_example :
    (jobs : List (Engine ℕ)) × (d : Disk) × (terminate (job ∷ other_job ∷ []) empty_disk 9
      ≡ returns (jobs, d))
    × AllStopped (job ∷ other_job ∷ []) jobs
    × All (DoneOr (HasSaved 1000 9 d)) (job ∷ other_job ∷ [])
    × ((other : Bytes) → All (IsElsewhere other) (job ∷ other_job ∷ []) → Same other empty_disk d)
terminate-AllSaved_example =
    terminate-AllSaved 1000 (job ∷ other_job ∷ []) empty_disk 9 jobs-AreSaveable jobs-AreApart
