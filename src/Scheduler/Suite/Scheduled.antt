-- ===== src/Scheduler/Suite/Scheduled.antt =====
-- otservpptest/schedulertest.cpp. EvaluatesTo is converted to a truth value, and its copies share it: it is the `Check`
-- of each run.
use otservpp.Base.{
  ℕ, zero, suc, ◌≡◌, refl, List, [], ◌∷◌, ◌++◌, Bool, true, false, not, Option, none, some, ◌&&◌,
  if◌then◌else◌, length, ltb,
}
use otservpp.Base.Options.{◌>>=◌}
use otservpp.Scheduler.{
  Code, no_error, create, cancel, end_waits, schedule, expires_from_now, call, start_deferred,
  start_interval, reschedule, interval_logic, run_deferred, run_interval, Check,
}
use otservpp.Scheduler.Executor.{Scheduler, call_later, call_after, call_every}
use otservpp.Scheduler.Executor
use otservpp.Scheduler.Suite.{
  Fixture, set_up, assert, scheduled_impl, run_one, call_times, interval_times, idle_times, Passes,
  call_times-Passes,
}
use otservpp.Scheduler.Suite.Interval.{waits, Intervals, refl-eq}

abbrev pub evaluates_to : Bool → Check
evaluates_to v = record { as_bool = v; returned = v }

unfoldable pub run_deferred_one : Bool → Fixture → Option Fixture
unfolding run_one run_deferred scheduled_impl
run_deferred_one check = run_one run_deferred (scheduled_impl (evaluates_to check))

unfoldable pub run_interval_one : Bool → Fixture → Option Fixture
unfolding run_one run_interval scheduled_impl
run_interval_one check = run_one run_interval (scheduled_impl (evaluates_to check))

-- The posted function is the one with the number 0.
unfoldable pub executes_task_later : Option Scheduler
unfolding Executor.call_later Executor.run_one
executes_task_later =
    let s =
      Executor.run_one
        (call_later 0 (record { io_service = []; parallel_service = []; done = [] })) in
    if ltb 0 (length s.done) then some s else none

unfoldable pub executes_task_after : ℕ → Option Fixture
unfolding set_up call_after run_deferred_one
executes_task_after call_time = do
  f ← run_deferred_one true (set_up (call_after call_time))
  assert f.task_called f

unfoldable pub does_not_execute_task_after_if_condition_false : ℕ → Option Fixture
unfolding set_up call_after run_deferred_one
does_not_execute_task_after_if_condition_false call_time = do
  f ← run_deferred_one false (set_up (call_after call_time))
  assert (not f.task_called) f

unfoldable pub executes_task_every : ℕ → ℕ → Option Fixture
unfolding set_up call_every run_interval_one interval_times cancel
executes_task_every iterations call_time = do
  f ← interval_times (run_interval_one true) iterations 1 (set_up (call_every call_time))
  run_interval_one true (record f { task = (cancel f.task).0 })

unfoldable pub executes_task_every_if_it_goes_out_of_scope : ℕ → ℕ → Option Fixture
unfolding set_up call_every run_interval_one interval_times
executes_task_every_if_it_goes_out_of_scope iterations base_time =
    interval_times (run_interval_one true) iterations 1 (set_up (call_every base_time))

unfoldable pub executes_or_not_task_every_if_stateful_condition : ℕ → ℕ → Option Fixture
unfolding set_up call_every run_interval_one interval_times idle_times cancel
executes_or_not_task_every_if_stateful_condition iterations call_time = do
  f ← interval_times (run_interval_one true) iterations 1 (set_up (call_every call_time))
  g ← idle_times (run_interval_one false) iterations (record f { task_called = false })
  h ← interval_times (run_interval_one true) iterations 1 (record g { task_calls = 0 })
  run_interval_one true (record h { task = (cancel h.task).0 })

interval_times-waits :
    (n k ms : ℕ) (called aborted : Bool) (codes : List Code) (started : ℕ)
    → Intervals
        (λ n f. interval_times (run_interval_one true) n (suc k) f)
        aborted
        ms
        n
        (waits called aborted k ms codes started)
unfolding interval_times run_interval_one interval_logic call reschedule schedule expires_from_now
    end_waits
interval_times-waits zero k ms called aborted codes started = (called, k, codes, started, refl)
interval_times-waits (suc n) k ms called aborted codes started =
    let (called', k', codes', started', e) =
      interval_times-waits n (suc k) ms true aborted (codes ++ no_error ∷ []) (suc started) in
    (called', k', codes', started', rw (refl-eq (suc k)) e)

idle_times-waits :
    (n k ms : ℕ) (aborted : Bool) (codes : List Code) (started : ℕ)
    → Intervals
        (idle_times (run_interval_one false))
        aborted
        ms
        n
        (waits false aborted k ms codes started)
unfolding idle_times run_interval_one interval_logic call reschedule schedule expires_from_now
    end_waits
idle_times-waits zero k ms aborted codes started = (false, k, codes, started, refl)
idle_times-waits (suc n) k ms aborted codes started =
    idle_times-waits n k ms aborted (codes ++ no_error ∷ []) (suc started)

after-Passes : Passes executes_task_after
unfolding executes_task_after start_deferred create call schedule expires_from_now end_waits
after-Passes ms = refl

after_if_false-Passes : Passes does_not_execute_task_after_if_condition_false
unfolding does_not_execute_task_after_if_condition_false start_deferred create call schedule
    expires_from_now end_waits
after_if_false-Passes ms = refl

every-Passes : (n : ℕ) → Passes (executes_task_every n)
unfolding executes_task_every run_interval_one start_interval create interval_logic call reschedule
    schedule expires_from_now end_waits
every-Passes n ms =
    let (called, k, codes, started, e) = interval_times-waits n 0 ms false false [] 1 in rw e refl

every_out_of_scope-Passes : (n : ℕ) → Passes (executes_task_every_if_it_goes_out_of_scope n)
unfolding executes_task_every_if_it_goes_out_of_scope start_interval create reschedule schedule
    expires_from_now end_waits
every_out_of_scope-Passes n ms =
    let (called, k, codes, started, e) = interval_times-waits n 0 ms false false [] 1 in rw e refl

every_if-Passes : (n : ℕ) → Passes (executes_or_not_task_every_if_stateful_condition n)
unfolding executes_or_not_task_every_if_stateful_condition run_interval_one start_interval create
    interval_logic call reschedule schedule expires_from_now end_waits
every_if-Passes n ms =
    let (called, k, codes, started, e) = interval_times-waits n 0 ms false false [] 1 in
    let (idle, j, codes', started', e') = idle_times-waits n k ms false codes started in
    let (called', i, codes'', started'', e'') =
      interval_times-waits n 0 ms idle false codes' started' in
    rw (e, e', e'') refl

unfoldable pub scheduler_tests : ℕ → ℕ → ℕ → Bool
unfolding call_times executes_task_later
scheduler_tests iterations intervals base_time =
    elim executes_task_later [ none ↦ false | some s ↦ true ]
    && call_times iterations 0 base_time executes_task_after
    && call_times iterations 0 base_time does_not_execute_task_after_if_condition_false
    && call_times iterations 0 base_time (executes_task_every intervals)
    && call_times iterations 0 base_time
        (executes_or_not_task_every_if_stateful_condition intervals)
    && call_times 1 1 base_time (executes_task_every_if_it_goes_out_of_scope intervals)

-- The tests of the scheduler pass, whatever their base time and numbers of iterations are.
pub scheduler_tests_lem :
    (iterations intervals base_time : ℕ) → scheduler_tests iterations intervals base_time ≡ true
unfolding scheduler_tests
scheduler_tests_lem iterations intervals base_time =
    rw
      (
        call_times-Passes iterations 0 base_time executes_task_after after-Passes,
        call_times-Passes iterations 0 base_time does_not_execute_task_after_if_condition_false
            after_if_false-Passes,
        call_times-Passes iterations 0 base_time (executes_task_every intervals)
            (every-Passes intervals),
        call_times-Passes iterations 0 base_time
            (executes_or_not_task_every_if_stateful_condition intervals)
            (every_if-Passes intervals),
        call_times-Passes 1 1 base_time (executes_task_every_if_it_goes_out_of_scope intervals)
            (every_out_of_scope-Passes intervals),
      )
      refl
