-- ===== src/ThreadPool.antt =====
-- src/threadpool.h: the queue of tasks. A worker's wait, its test and its removal of the front task are
-- one step, since they hold the lock. `started` are the tasks that workers have run or are running.
use muld.Prelude.{◌≡◌, Bool, true, false, List, [], ◌∷◌, ◌++◌, if◌then◌else◌}
pub mod Order
mod Tests

pub record ThreadPool (T : Type 0) : Type 0 where
  pub tasks : List T
  pub stop : Bool
  pub started : List T

-- What a worker does when it looks at the queue.
pub data Wake (T : Type 0) : Type 0 where
  waits : Wake T
  leaves : Wake T
  runs : T → Wake T

module _ {T : Type 0} where
  abbrev pub new_pool : ThreadPool T
  new_pool = record { tasks = []; stop = false; started = [] }

  unfoldable pub enqueue : ThreadPool T → T → ThreadPool T
  enqueue p task = record p { tasks = p.tasks ++ task ∷ [] }

  unfoldable pub terminate : ThreadPool T → ThreadPool T
  terminate p = record p { stop = true }

  abbrev pub take_front : ThreadPool T → List T → Wake T × ThreadPool T
  take_front p [] = (waits, p)
  take_front p (task ∷ tasks) =
      (runs task, record p { tasks = tasks; started = p.started ++ task ∷ [] })

  unfoldable pub wake : ThreadPool T → Wake T × ThreadPool T
  wake p = let front = take_front p p.tasks in if p.stop then (leaves, p) else front
