-- ===== src/ThreadPool/Order.antt =====
-- In which order tasks are started.
use mathlib.Core.List.{append_assoc}
use muld.Prelude.{◌≡◌, refl, sym, ap, ◌∙◌, List, [], ◌∷◌, ◌++◌, if_both}
use muld.ThreadPool.{ThreadPool, Wake, new_pool, enqueue, terminate, take_front, wake}

module _ {T : Type 0} where
  -- A pool after some steps, with the tasks that were enqueued, the last one last.
  pub data Run : List T → ThreadPool T → Type 0 where
    begin : Run [] new_pool
    put :
        (tasks : List T) (p : ThreadPool T) (task : T)
        → Run tasks p
        → Run (tasks ++ task ∷ []) (enqueue p task)
    look : (tasks : List T) (p : ThreadPool T) → Run tasks p → Run tasks ((wake p).1)
    stop : (tasks : List T) (p : ThreadPool T) → Run tasks p → Run tasks (terminate p)

  take_front-order :
      (p : ThreadPool T) (tasks : List T)
      → p.tasks ≡ tasks
      → (take_front p tasks).1.started ++ (take_front p tasks).1.tasks ≡ p.started ++ tasks
  take_front-order p [] e = ap (λ ts. p.started ++ ts) e
  take_front-order p (task ∷ tasks) e = simp append_assoc

  -- However workers wake up, and whether the pool was terminated or not, the tasks that were started and
  -- then those still queued are the tasks that were enqueued, in their order: none is lost, run twice or
  -- overtaken.
  pub started-tasks :
      (tasks : List T) (p : ThreadPool T) → Run tasks p → p.started ++ p.tasks ≡ tasks
  unfolding enqueue terminate wake
  started-tasks _ _ begin = refl
  started-tasks _ _ (put tasks p task r) =
      sym (append_assoc p.started p.tasks (task ∷ []))
      ∙ ap (λ ts. ts ++ task ∷ []) (started-tasks tasks p r)
  started-tasks _ _ (look tasks p r) =
      if_both (λ (w : Wake T × ThreadPool T). w.1.started ++ w.1.tasks ≡ tasks) p.stop _ _
        (started-tasks tasks p r) (take_front-order p p.tasks refl ∙ started-tasks tasks p r)
  started-tasks _ _ (stop tasks p r) = started-tasks tasks p r
