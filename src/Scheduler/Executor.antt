-- ===== src/Scheduler/Executor.antt =====
-- What Scheduler of scheduler.hpp posts to its io_service and to the workers of
-- ParallelExecutionService, and when tasks are made.
use otservpp.Base.{
  ℕ, zero, suc, ◌≡◌, sym, ap, ◌∙◌, List, [], ◌∷◌, ◌++◌, length, append_assoc, append-nil,
}
use otservpp.Scheduler.{Task, create, start_deferred, start_interval}

-- A job of the workers: a function, or one with a callback that is posted when it returns.
pub data Job : Type 0 where
  job : ℕ → Job
  job_then : ℕ → ℕ → Job

-- The two queues, and the functions that were run, in order.
pub record Scheduler : Type 0 where
  pub io_service : List ℕ
  pub parallel_service : List Job
  pub done : List ℕ

unfoldable pub call_later : ℕ → Scheduler → Scheduler
call_later fn s = record s { io_service = s.io_service ++ fn ∷ [] }

unfoldable pub call_in_parallel : ℕ → Scheduler → Scheduler
call_in_parallel fn s = record s { parallel_service = s.parallel_service ++ job fn ∷ [] }

unfoldable pub call_in_parallel_then : ℕ → ℕ → Scheduler → Scheduler
call_in_parallel_then fn callback s = record s {
  parallel_service = s.parallel_service ++ job_then fn callback ∷ [];
}

-- A worker takes a job, runs it, and posts its callback.
unfoldable pub work : Scheduler → Scheduler
work s = elim s.parallel_service [
  | [] ↦ s
  | job fn ∷ jobs ↦ record s { parallel_service = jobs; done = s.done ++ fn ∷ [] }
  | job_then fn callback ∷ jobs ↦ record s {
    io_service = s.io_service ++ callback ∷ [];
    parallel_service = jobs;
    done = s.done ++ fn ∷ [];
  }
]

-- The caller's thread runs what was posted.
unfoldable pub run_one : Scheduler → Scheduler
run_one s = elim s.io_service [
  | [] ↦ s
  | fn ∷ fns ↦ record s { io_service = fns; done = s.done ++ fn ∷ [] }
]

-- `makeDeferredTask` and `makeIntervalTask`: the task is made and started.
unfoldable pub call_after : ℕ → Task
call_after millisec = start_deferred millisec (create millisec)

unfoldable pub call_every : ℕ → Task
call_every millisec = start_interval (create millisec)

-- So many jobs are taken by a worker.
abbrev pub works : ℕ → Scheduler → Scheduler
works zero s = s
works (suc n) s = works n (work s)

-- The functions and the callbacks of jobs, in order.
abbrev pub functions : List Job → List ℕ
functions [] = []
functions (job fn ∷ jobs) = fn ∷ functions jobs
functions (job_then fn callback ∷ jobs) = fn ∷ functions jobs

abbrev pub callbacks : List Job → List ℕ
callbacks [] = []
callbacks (job fn ∷ jobs) = callbacks jobs
callbacks (job_then fn callback ∷ jobs) = callback ∷ callbacks jobs

abbrev pub state : List ℕ → List Job → List ℕ → Scheduler
state io jobs done = record { io_service = io; parallel_service = jobs; done = done }

-- When the workers have taken as many jobs as waited, every function was run, in order, and the
-- callbacks wait in the same order for the caller's thread, behind what waited there.
pub works_lem :
    (io : List ℕ) (jobs : List Job) (done : List ℕ)
    → works (length jobs) (state io jobs done)
      ≡ state (io ++ callbacks jobs) [] (done ++ functions jobs)
unfolding work
works_lem io [] done =
    ap (λ x. state x [] done) (sym (append-nil io))
    ∙ ap (state (io ++ []) []) (sym (append-nil done))
works_lem io (job fn ∷ jobs) done =
    works_lem io jobs (done ++ fn ∷ [])
    ∙ ap (state (io ++ callbacks jobs) []) (append_assoc done (fn ∷ []) (functions jobs))
works_lem io (job_then fn callback ∷ jobs) done =
    works_lem (io ++ callback ∷ []) jobs (done ++ fn ∷ [])
    ∙ ap (λ x. state x [] ((done ++ fn ∷ []) ++ functions jobs))
        (append_assoc io (callback ∷ []) (callbacks jobs))
    ∙ ap (state (io ++ callback ∷ callbacks jobs) []) (append_assoc done (fn ∷ []) (functions jobs))
