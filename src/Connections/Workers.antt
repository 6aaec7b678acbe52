-- ===== src/Connections/Workers.antt =====
-- The counters of one job against the workers that exist: `EnqueueTasks`
-- (src/muld_download_manager.cpp), the queue of src/threadpool.h and `ConnectionGuard`
-- (src/downloader.cpp), interleaved in any order.
use muld.Prelude.{ℕ, ◌+◌, ◌-◌, ◌<◌, ◌≡◌, Bool, arith}
use muld.Prelude.Int.{ℤ, pos, pos_part, ◌+ℤ◌, ◌-ℤ◌}
use muld.Types.{DownloadState}
use muld.Connections.{
  Connections, new_connections, set_desired, set_bounds, plan_new_workers, should_release,
  open_connection, close_connection,
}

-- Workers of the job, by how far they are: planned and not yet enqueued, in the task queue, popped
-- by a thread, and inside `DownloadWorker`.
pub record Job : Type 0 where
  pub counters : Connections
  pub planned : ℕ
  pub enqueued : ℕ
  pub popped : ℕ
  pub running : ℕ

abbrev pub new_job : Bool → ℤ → Job
new_job ranged max_connections = record {
  counters = new_connections ranged max_connections;
  planned = 0;
  enqueued = 0;
  popped = 0;
  running = 0;
}

pub data Step (j : Job) : Job → Type 0 where
  plan :
      (state : DownloadState) (allowed : ℤ)
      → Step j (record j {
        counters = (plan_new_workers state j.counters allowed).1;
        planned = j.planned + pos_part (plan_new_workers state j.counters allowed).0;
      })
  enqueue : 0 < j.planned → Step j (record j { planned = j.planned - 1; enqueued = j.enqueued + 1 })
  pop : 0 < j.enqueued → Step j (record j { enqueued = j.enqueued - 1; popped = j.popped + 1 })
  enter :
      0 < j.popped
      → Step j (record j {
        counters = open_connection j.counters;
        popped = j.popped - 1;
        running = j.running + 1;
      })
  leave :
      0 < j.running
      → Step j (record j { counters = close_connection j.counters; running = j.running - 1 })
  wish : (desired : ℤ) → Step j (record j { counters = set_desired j.counters desired })
  bound :
      (ranged : Bool) (lo hi : ℤ)
      → Step j (record j { counters = set_bounds ranged j.counters lo hi })
  release : Step j (record j { counters = (should_release j.counters).1 })

pub data Reach (j : Job) : Job → Type 0 where
  here : Reach j j
  next : {k l : Job} → Reach j k → Step k l → Reach j l

-- The counters count the workers.
pub record IsCounted (j : Job) : Type 0 where
  pub scheduled : j.counters.scheduled ≡ pos (j.planned + j.enqueued + j.popped + j.running)
  pub connected : j.counters.n_connections ≡ pos j.running

plan_counts :
    (state : DownloadState) (c : Connections) (allowed : ℤ) (s : ℕ)
    → c.scheduled ≡ pos s
    → let (started, c') = plan_new_workers state c allowed in
      (c'.scheduled ≡ pos (s + pos_part started)) × (c'.n_connections ≡ c.n_connections)
unfolding plan_new_workers ◌+ℤ◌ ◌-ℤ◌
plan_counts state c allowed s h = ground arith

enter_counts :
    (c : Connections) (n : ℕ)
    → c.n_connections ≡ pos n
    → ((open_connection c).scheduled ≡ c.scheduled)
      × ((open_connection c).n_connections ≡ pos (n + 1))
unfolding open_connection ◌+ℤ◌
enter_counts c n h = ground arith

-- The repair of a negative count never changes anything here.
leave_counts :
    (c : Connections) (s n : ℕ)
    → c.scheduled ≡ pos s
    → c.n_connections ≡ pos n
    → 0 < s
    → 0 < n
    → ((close_connection c).scheduled ≡ pos (s - 1))
      × ((close_connection c).n_connections ≡ pos (n - 1))
unfolding close_connection ◌-ℤ◌
leave_counts c s n hs hn ps pn = ground arith

Step-IsCounted : {j k : Job} → Step j k → IsCounted j → IsCounted k
Step-IsCounted {j} (plan state allowed) h =
    ground (arith, plan_counts state j.counters allowed _ h.scheduled)
Step-IsCounted (enqueue p) h = ground arith
Step-IsCounted (pop p) h = ground arith
Step-IsCounted {j} (enter p) h = ground (arith, enter_counts j.counters _ h.connected)
Step-IsCounted {j} (leave p) h =
    ground (arith, leave_counts j.counters _ _ h.scheduled h.connected (omega arith) p)
Step-IsCounted {j} (wish d) h = unfold set_desired in ground arith
Step-IsCounted {j} (bound ranged lo hi) h = unfold set_bounds set_desired in ground arith
Step-IsCounted {j} release h = unfold should_release in ground arith

Reach-IsCounted : {j k : Job} → IsCounted j → Reach j k → IsCounted k
Reach-IsCounted h here = h
Reach-IsCounted h (next r s) = Step-IsCounted s (Reach-IsCounted h r)

new_job-IsCounted :
    (ranged : Bool) (max_connections : ℤ) → IsCounted (new_job ranged max_connections)
unfolding new_connections
new_job-IsCounted ranged max_connections = ground arith

-- In every interleaving of planning, queueing, running and changing the wish, the counter of
-- scheduled connections is the number of workers that are planned, queued, popped or running, and
-- the counter of connections is the number of workers that run.
pub job_counters_exact :
    (ranged : Bool) (max_connections : ℤ) (j : Job)
    → Reach (new_job ranged max_connections) j
    → (j.counters.scheduled ≡ pos (j.planned + j.enqueued + j.popped + j.running))
      × (j.counters.n_connections ≡ pos j.running)
job_counters_exact ranged max_connections j r =
    let h = Reach-IsCounted (new_job-IsCounted ranged max_connections) r in
    (h.scheduled, h.connected)

-- So when `Start` or `Resume` sees no scheduled connection, no worker of the job is left anywhere:
-- not planned, not in the queue, not popped and not running.
pub drained_job :
    (ranged : Bool) (max_connections : ℤ) (j : Job)
    → Reach (new_job ranged max_connections) j
    → j.counters.scheduled ≡ pos 0
    → (j.planned ≡ 0) × (j.enqueued ≡ 0) × (j.popped ≡ 0) × (j.running ≡ 0)
drained_job ranged max_connections j r e =
    ground (arith, job_counters_exact ranged max_connections j r)
