-- ===== src/ThreadPool/Tests.antt =====
-- Two tasks, one of them started.
use muld.Prelude.{ℕ, ◌≡◌, [], ◌∷◌, ◌++◌}
use muld.ThreadPool.{ThreadPool, new_pool, enqueue, wake}
use muld.ThreadPool.Order.{Run, begin, put, look, started-tasks}

abbrev pool : ThreadPool ℕ
pool = enqueue (enqueue new_pool 7) 8

pool-Run : Run (7 ∷ 8 ∷ []) ((wake pool).1)
pool-Run = look (7 ∷ 8 ∷ []) pool (put (7 ∷ []) (enqueue new_pool 7) 8 (put [] new_pool 7 begin))

started-tasks_example : (wake pool).1.started ++ (wake pool).1.tasks ≡ 7 ∷ 8 ∷ []
started-tasks_example = started-tasks (7 ∷ 8 ∷ []) ((wake pool).1) pool-Run
