-- ===== src/Engine/Tests.antt =====
-- Operations on a small job.
use muld.Prelude.{
  ◌⊎◌, ℕ, ◌≡◌, refl, true, false, some, none, [], ◌∷◌, ◌++◌, length, get_elem?, map, if◌then◌else◌,
  ◌==◌, ◌&&◌, arith,
}
use muld.Prelude.Bytes.{codes}
use muld.Prelude.Floats.{milli}
use muld.Types.{downloading, completed, paused}
use muld.Outcome.{returns, null_pointer}
use muld.Disk.{Disk, read_file, write_file, open_writer, resize}
use muld.JobImage.{ok, read_image_file, image_index, image_bytes}
use muld.Prelude.Table.{bytes_eq, lookup, insert}
use muld.Prelude.{eq_bytes}
use muld.Url.RoundTrip.{IsPlain}
use muld.Chunk.{total_size, is_finished, update_received, build_pending_work}
use muld.Chunk.Work.{count_finished}
use muld.Engine.{Engine, image_suffix, to_chunk_state}
use muld.Engine.Storage.{job_image, store_at, store}
use muld.Engine.Control.{build_work, cancel}
use muld.Engine.Launch.{start, resume, load_engine}
use muld.Engine.Receive.{notify_chunk_received}
use muld.Engine.Finish.{IsTallied, notify_chunk_received_lem}
use muld.Engine.States.{Reach, here, then_, receive_step, finishes, is_completed, on_connections}
use muld.Engine.Once.{Completes, finishes_once}
use muld.Engine.Restart.{hand_out, hand_out-build_work, AreNumbered, load_engine-job_image}
use muld.Engine.Storing.{HasImage, first_store_reads, next_store_reads}
use muld.Engine.Canceled.{cancel-removes, resume_canceled}
use muld.Engine.Idle.{start_with_nothing_left}
use muld.Engine.Samples.{
  job-IsStorable, first_chunk, second_chunk, job_in, job, empty_disk, file_url,
}

job-IsTallied : IsTallied job
unfolding count_finished is_finished total_size
job-IsTallied = record { sized = refl; bounded = omega arith; counted = refl }

first_chunk_open : is_finished first_chunk ≡ false
unfolding is_finished total_size
first_chunk_open = refl

-- The last byte of the first chunk arrives.
notify_chunk_received_lem_example :
    (r : Engine ℕ × Disk) × (notify_chunk_received milli job empty_disk 5 5 9 9 0 1 ≡ returns r)
    × (r.0.chunks ≡ update_received first_chunk 1 ∷ second_chunk ∷ [])
    × IsTallied (r.0)
    × (r.0.state
        ≡ (if count_finished r.0.chunks == r.0.n_chunks && true then completed else downloading))
notify_chunk_received_lem_example =
    notify_chunk_received_lem milli job empty_disk 5 5 9 9 0 1 first_chunk (codes "f") job-IsTallied
      refl refl first_chunk_open

no_finish_yet : finishes {F = ℕ} [] ≡ 0
unfolding finishes
no_finish_yet = refl

-- The job after its last byte.
abbrev last_received : Engine ℕ × Disk
last_received = notify_chunk_received_lem_example.0

last_received-Reach : Reach milli (job, empty_disk) last_received
last_received-Reach =
    then_ (job, empty_disk) (job, empty_disk) last_received (here (job, empty_disk))
      (receive_step job empty_disk 5 5 9 9 0 1 last_received notify_chunk_received_lem_example.1)

finishes_once_example :
    ((is_completed last_received.0.state ≡ false) × (finishes last_received.0.events ≡ 0))
    ⊎ Completes milli (job, empty_disk) last_received
finishes_once_example =
    finishes_once milli (job, empty_disk) last_received refl no_finish_yet last_received-Reach

hand_out-build_work_example :
    get_elem? (hand_out 3 (build_work job)) 1 ≡ some (get_elem? (build_pending_work job.chunks).0 1)
hand_out-build_work_example = hand_out-build_work 3 1 job (omega arith)

file_url-IsPlain : IsPlain file_url
file_url-IsPlain = record {
  scheme_some = refl;
  scheme_colon = (refl, (refl, (refl, (refl, tt))));
  host_some = refl;
  host_colon = (refl, tt);
  host_slash = (refl, tt);
  host_query = (refl, tt);
  host_fragment = (refl, tt);
  port_some = refl;
  port_slash = (refl, (refl, tt));
  port_query = (refl, (refl, tt));
  port_fragment = (refl, (refl, tt));
  path_root = refl;
}

job_numbered : AreNumbered 0 job.chunks
unfolding AreNumbered
job_numbered = (refl, omega arith, (refl, omega arith, tt))

abbrev opened : Disk
opened = record empty_disk { files = (codes "f", 0 ∷ 0 ∷ 0 ∷ 0 ∷ 0 ∷ 0 ∷ []) ∷ [] }

job_opened : open_writer empty_disk (codes "f") 6 ≡ some opened
unfolding open_writer write_file resize lookup insert
job_opened = refl

load_engine-job_image_example :
    (r : Engine ℕ) × (load_engine milli (job_image job 9 (codes "f")) job.callbacks 5 empty_disk
      ≡ returns (r, opened))
    × (r.url ≡ job.url)
    × (r.output_path ≡ codes "f")
    × (r.writer ≡ some (codes "f"))
    × (r.file_size ≡ 6)
    × (r.ranged ≡ true)
    × (r.chunks ≡ job.chunks)
    × (r.etag ≡ [])
    × (r.last_modified ≡ [])
    × (r.created_at ≡ 1)
    × (r.downloaded_chunks ≡ count_finished job.chunks)
    × ((build_work r).pending_work ≡ (build_work job).pending_work)
load_engine-job_image_example =
    load_engine-job_image milli job 9 5 (codes "f") job.callbacks empty_disk opened file_url-IsPlain
      job_numbered job_opened

first_store_reads_example :
    read_image_file 1000 (store_at job empty_disk 9 (codes "f")).1 (codes "f" ++ image_suffix)
    ≡ ok (job_image job 9 (codes "f"))
first_store_reads_example =
    (first_store_reads 1000 job empty_disk 9 (codes "f") (job-IsStorable b'f') refl refl).1

abbrev stored_job : Engine ℕ
stored_job = record job {
  image_stored = true;
  image_index = image_index (job_image job 9 (codes "f"));
}

abbrev stored_disk : Disk
stored_disk = record empty_disk {
  files = (codes "f.muld", image_bytes (job_image job 9 (codes "f"))) ∷ [];
}

stored_image : HasImage stored_job stored_disk (codes "f") (job_image job 9 (codes "f"))
unfolding lookup eq_bytes
stored_image = record { stored = refl; index = refl; file = refl }

same_chunks :
    length (job_image job 9 (codes "f")).chunks ≡ length (map to_chunk_state stored_job.chunks)
unfolding job_image
same_chunks = refl

next_store_reads_example :
    (store_at stored_job stored_disk 10 (codes "f")).0.received_since_store ≡ 0
next_store_reads_example =
    (next_store_reads 1000 stored_job stored_disk 10 (codes "f") (job_image job 9 (codes "f"))
      stored_image same_chunks refl).2

cancel-removes_example : read_file (cancel job empty_disk).2 (codes "f") ≡ none
cancel-removes_example = (cancel-removes job empty_disk (codes "g") refl refl refl).2

resume_canceled_example :
    store
      (resume milli
        (on_connections (λ c. c))
        (on_connections (λ c. c))
        5
        (cancel job empty_disk).1).1
      (cancel job empty_disk).2
      9
    ≡ null_pointer
resume_canceled_example =
    (resume_canceled milli job empty_disk (λ c. c) (λ c. c) 5 9 refl refl refl).3

abbrev all_received : Engine ℕ
all_received = job_in paused (second_chunk ∷ second_chunk ∷ []) 2

all_received_counted : count_finished all_received.chunks ≡ 2
unfolding count_finished is_finished total_size
all_received_counted = refl

start_with_nothing_left_example :
    (start milli (on_connections (λ c. c)) (on_connections (λ c. c)) 5 all_received).1.pending_work
    ≡ []
start_with_nothing_left_example =
    (start_with_nothing_left milli all_received (λ c. c) (λ c. c) 5 refl all_received_counted).1
