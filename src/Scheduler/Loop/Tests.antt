-- ===== src/Scheduler/Loop/Tests.antt =====
-- A program of three tasks, in the manner of otservpptest/script/scripts/dispatchertest.lua: an interval task
-- that cancels itself when it was called twice, one that is cancelled at once, and a deferred task that
-- cannot cancel itself.
use otservpp.Base.{
  ℕ, suc, ◌+◌, ◌-◌, ◌≤◌, ◌≡◌, ◌≢◌, refl, [], ◌∷◌, Bool, true, false, some, leb, if◌then◌else◌,
  arith, ◌*◌,
}
use otservpp.Base.Positions.{get_elem?, modify}
use otservpp.Scheduler.{
  no_error, operation_aborted, create, schedule, end_waits, expires_from_now, reschedule,
  start_interval, run_interval, interval_logic, call, cancel,
}
use otservpp.Scheduler.Laws.{IsAccounted}
use otservpp.Scheduler.Loop.{
  Body, ends, reads, writes, cancels, calls_every, calls_after, Entry, Loop, exec, run_handler,
  call_function, run_entry, end_wait, cancel_entry, reschedule_entry, answer, Steps, here,
  then_step, acts, passes, expires, runs, make_interval, make_deferred,
}
use otservpp.Scheduler.Loop.Kept.{Within}
use otservpp.Scheduler.Loop.Laws.{empty, Any, Steps-IsAccounted}
use otservpp.Scheduler.Loop.Spent.{count_calls}
use otservpp.Scheduler.Loop.Pace.{Steps-paced}
use otservpp.Scheduler.Loop.Progress.{Called, comes_to_call}
use otservpp.Scheduler.Loop.Cancel.{cancel_stays, own_cancel, cancel_revived}

data Function : Type 0 where
  counts : Function
  fails_if_called : Function
  asks_itself : Function

-- `Memory` is how often `counts` was called. The interval task is the first one, the deferred the third.
abbrev body : Function → Body Function ℕ
body counts =
    reads (λ n. if leb 1 n then cancels 0 (λ done. writes (suc n) ends) else writes (suc n) ends)
body fails_if_called = writes 99 ends
body asks_itself = cancels 2 (λ done. if done then writes 99 ends else ends)

abbrev main : Body Function ℕ
main = calls_every 3 counts (λ i.
    calls_every 5 fails_if_called (λ j. cancels j (λ done. calls_after 20 asks_itself (λ k. ends))))

abbrev started : Loop Function ℕ
started = (exec main (empty 0)).0

-- What is left after three units of time, when the interval task was called once.
abbrev waited : Loop Function ℕ
waited = record started { now = 3 }

abbrev ended : Loop Function ℕ
ended = record waited { tasks = modify 0 (end_wait no_error) waited.tasks }

-- The interval task whose first wait has ended.
abbrev ended_task : Entry Function
ended_task = record {
  is_interval = true;
  task = record { ms = 3; expires = 3; waits = 0; ended = no_error ∷ []; calls = []; started = 1 };
  func = counts;
  deadline = 3;
  created = 0;
}

ended_task_there : get_elem? ended.tasks 0 ≡ some ended_task
unfolding exec answer make_interval make_deferred cancel_entry end_wait end_waits schedule
    expires_from_now reschedule start_interval create
ended_task_there = refl

abbrev called : Loop Function ℕ
called =
    (call_function body no_error counts
      (record ended { tasks = modify 0 (run_entry 3) ended.tasks })).0

-- The interval task after its first call, and the one that was cancelled at once.
abbrev first_task : Entry Function
first_task = record {
  is_interval = true;
  task = record { ms = 3; expires = 3; waits = 1; ended = []; calls = no_error ∷ []; started = 2 };
  func = counts;
  deadline = 6;
  created = 0;
}

abbrev second_task : Entry Function
second_task = record {
  is_interval = true;
  task = record {
    ms = 5;
    expires = 5;
    waits = 0;
    ended = operation_aborted ∷ [];
    calls = [];
    started = 1;
  };
  func = fails_if_called;
  deadline = 5;
  created = 0;
}

Within-if :
    (Ok : ℕ → Type 0) (m : ℕ) (b : Bool) (x y : Body Function ℕ)
    → Within Ok m x
    → Within Ok m y
    → Within Ok m (if b then x else y)
Within-if Ok m true x y h k = h
Within-if Ok m false x y h k = k

body-Within : (Ok : ℕ → Type 0) (m : ℕ) (fn : Function) → Within Ok m (body fn)
body-Within Ok m counts = λ n. Within-if Ok m (leb 1 n) _ _ (λ x. tt) tt
body-Within Ok m fails_if_called = tt
body-Within Ok m asks_itself = λ x. Within-if Ok m x _ _ tt tt

steps : (m : ℕ) → Within Any m main → Steps body (Within Any m) (empty 0) called
unfolding exec answer make_interval make_deferred cancel_entry end_wait run_entry run_handler
    call_function end_waits schedule expires_from_now reschedule
steps m w =
    then_step
      (then_step (then_step (then_step here (acts (empty 0) main w)) (passes started 3))
        (expires waited 0 (make_interval 0 3 counts) refl (omega arith)))
      (runs ended 0 (called, false) refl)

first_task_there : get_elem? called.tasks 0 ≡ some first_task
unfolding exec answer make_interval make_deferred cancel_entry end_wait run_entry run_interval
    interval_logic call call_function end_waits schedule expires_from_now reschedule start_interval
    create
first_task_there = refl

Steps-IsAccounted_example : IsAccounted 0 first_task.task
Steps-IsAccounted_example =
    Steps-IsAccounted body 0 called (steps 0 (omega arith)) 0 first_task first_task_there

Steps-paced_example : 0 + count_calls (no_error ∷ []) * 3 ≤ called.now
Steps-paced_example =
    Steps-paced 3 body 0 called (body-Within Any 3) (steps 3 (omega arith)) 0 first_task
      first_task_there

-- After its first call the interval task is cancelled, and ten units of time pass.
abbrev stopped : Loop Function ℕ
stopped = record called { tasks = modify 0 cancel_entry called.tasks }

abbrev stopped_task : Entry Function
stopped_task = record first_task {
  task = record first_task.task { waits = 0; ended = operation_aborted ∷ [] };
}

stopped_task_there : get_elem? stopped.tasks 0 ≡ some stopped_task
unfolding exec answer make_interval make_deferred cancel_entry end_wait run_entry run_interval
    interval_logic call call_function end_waits schedule expires_from_now reschedule start_interval
    create cancel
stopped_task_there = refl

cancel_stays_example :
    (count_calls (no_error ∷ []) ≡ count_calls (no_error ∷ [])) × (stopped_task.task.waits ≡ 0)
cancel_stays_example =
    cancel_stays body 0 called (record stopped { now = stopped.now + 10 }) first_task stopped_task
      first_task_there tt (body-Within (λ j. j ≢ 0) 0) (then_step here (passes stopped 10))
      stopped_task_there

own_cancel_example : answer 0 (record ended { tasks = modify 0 (run_entry 3) ended.tasks }) ≡ true
own_cancel_example = own_cancel 0 ended ended_task [] ended_task_there refl refl

cancel_revived_example :
    let e1 = reschedule_entry 3 (end_wait no_error first_task) in
    ((cancel e1.task).1 ≡ true) × ((run_entry 9 (cancel_entry e1)).task.waits ≡ 1)
cancel_revived_example = cancel_revived first_task 3 9 refl refl refl

-- After its first call the interval task waits until the time is 6.
comes_to_call_example :
    (u : Loop Function ℕ) × (Steps body (Within Any 0) called (exec (body counts) u).0)
    × (u.memory ≡ called.memory)
    × ((exec (body counts) u).0.now ≡ called.now + (6 - called.now))
    × Called 0 (no_error ∷ no_error ∷ []) (exec (body counts) u).0.tasks
comes_to_call_example =
    comes_to_call body (Within Any 0) 0 called first_task first_task_there (omega arith) refl
