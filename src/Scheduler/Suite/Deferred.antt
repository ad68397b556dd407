-- ===== src/Scheduler/Suite/Deferred.antt =====
-- otservpptest/deferredtasktest.cpp. The tests are for six types of functions, which Lambdas/Traits tells apart, and a
-- task that goes out of scope is kept by its wait.
use otservpp.Base.{ℕ, ◌≡◌, refl, Bool, true, false, Option, ◌&&◌}
use otservpp.Base.Options.{◌>>=◌}
use otservpp.Scheduler.{
  create, end_waits, schedule, expires_from_now, call, start_deferred, run_deferred,
}
use otservpp.Scheduler.Suite.{
  Fixture, set_up, assert, task_impl, run_one, call_times, cancel_task, Passes, call_times-Passes,
}

unfoldable pub make_task : ℕ → Fixture
unfolding set_up start_deferred create
make_task call_time = set_up (start_deferred call_time (create call_time))

unfoldable pub run_once : Fixture → Option Fixture
unfolding run_one run_deferred task_impl
run_once = run_one run_deferred task_impl

unfoldable pub executes_task : ℕ → Option Fixture
unfolding make_task run_once
executes_task call_time = do f ← run_once (make_task call_time); assert f.task_called f

unfoldable pub aborts_task_if_canceled_before_deadline : ℕ → Option Fixture
unfolding make_task run_once cancel_task
aborts_task_if_canceled_before_deadline call_time = do
  f ← cancel_task true (make_task call_time)
  g ← run_once f
  assert g.task_aborted g

unfoldable pub executes_task_if_canceled_after_deadline : ℕ → Option Fixture
unfolding make_task run_once cancel_task
executes_task_if_canceled_after_deadline call_time = do
  f ← run_once (make_task call_time)
  g ← cancel_task false f
  assert g.task_called g

unfoldable pub executes_new_task_if_start_is_called_after_deadline : ℕ → Option Fixture
unfolding make_task run_once start_deferred
executes_new_task_if_start_is_called_after_deadline call_time = do
  f ← run_once (make_task call_time)
  g ← assert f.task_called f
  h ← run_once (record g { task_called = false; task = start_deferred call_time g.task })
  assert h.task_called h

unfoldable pub executes_new_task_and_aborts_old : ℕ → Option Fixture
unfolding make_task run_once start_deferred
executes_new_task_and_aborts_old call_time = do
  let f = make_task call_time
  g ← run_once (record f { task = start_deferred call_time f.task })
  h ← assert g.task_aborted g
  k ← run_once h
  assert k.task_called k

executes_task-Passes : Passes executes_task
unfolding executes_task call schedule expires_from_now end_waits
executes_task-Passes call_time = refl

aborts_task-Passes : Passes aborts_task_if_canceled_before_deadline
unfolding aborts_task_if_canceled_before_deadline call schedule expires_from_now end_waits
aborts_task-Passes call_time = refl

executes_canceled_task-Passes : Passes executes_task_if_canceled_after_deadline
unfolding executes_task_if_canceled_after_deadline call schedule expires_from_now end_waits
executes_canceled_task-Passes call_time = refl

executes_new_task-Passes : Passes executes_new_task_if_start_is_called_after_deadline
unfolding executes_new_task_if_start_is_called_after_deadline call schedule expires_from_now
    end_waits
executes_new_task-Passes call_time = refl

aborts_old-Passes : Passes executes_new_task_and_aborts_old
unfolding executes_new_task_and_aborts_old call schedule expires_from_now end_waits
aborts_old-Passes call_time = refl

-- All tests, for so many times.
unfoldable pub deferred_tests : ℕ → ℕ → Bool
unfolding call_times
deferred_tests iterations base_time =
    call_times iterations 0 base_time executes_task
    && call_times iterations 0 base_time aborts_task_if_canceled_before_deadline
    && call_times iterations 0 base_time executes_task_if_canceled_after_deadline
    && call_times iterations 0 base_time executes_new_task_if_start_is_called_after_deadline
    && call_times iterations 0 base_time executes_new_task_and_aborts_old

-- The tests of deferred tasks pass, whatever their base time and number of iterations are.
pub deferred_tests_lem : (iterations base_time : ℕ) → deferred_tests iterations base_time ≡ true
unfolding deferred_tests
deferred_tests_lem iterations base_time =
    rw
      (
        call_times-Passes iterations 0 base_time executes_task executes_task-Passes,
        call_times-Passes iterations 0 base_time aborts_task_if_canceled_before_deadline
            aborts_task-Passes,
        call_times-Passes iterations 0 base_time executes_task_if_canceled_after_deadline
            executes_canceled_task-Passes,
        call_times-Passes iterations 0 base_time executes_new_task_if_start_is_called_after_deadline
            executes_new_task-Passes,
        call_times-Passes iterations 0 base_time executes_new_task_and_aborts_old aborts_old-Passes,
      )
      refl
