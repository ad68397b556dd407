-- ===== src/Scheduler/Suite.antt =====
-- The program's own tests of its tasks: otservpptest/deferredtasktest.cpp, intervaltasktest.cpp and
-- schedulertest.cpp, as functions of their times and numbers of iterations. `none` is a test that fails.
pub mod Deferred
pub mod Interval
pub mod Scheduled
pub mod Laws
use otservpp.Base.{
  ◌≡◌, refl, ℕ, zero, suc, ◌+◌, ◌*◌, List, [], ◌∷◌, Bool, true, false, not, Option, none, some, ltb,
  ◌==◌, if◌then◌else◌,
}
use otservpp.Base.Options.{◌>>=◌}
use otservpp.Scheduler.{
  Code, no_error, operation_aborted, other_error, Task, create, end_waits, cancel, start_deferred,
  start_interval, reschedule, run_deferred, run_interval, Wrapped, calls_func, returns,
  throws_system_error, wrapper, Check, if_check,
}
use otservpp.Scheduler.Executor.{Scheduler, call_later, call_after, call_every}
use otservpp.Scheduler.Executor as Executor

-- The variables that the functions of the tests set, and the one task.
pub record Fixture : Type 0 where
  pub task_called : Bool
  pub task_aborted : Bool
  pub task_calls : ℕ
  pub task : Task

unfoldable pub set_up : Task → Fixture
set_up task = record { task_called = false; task_aborted = false; task_calls = 0; task = task }

abbrev pub assert : Bool → Fixture → Option Fixture
assert true f = some f
assert false f = none

-- `taskImpl` of the tasks, which throws any other code, and of the scheduler, whose wrapper calls it.
unfoldable pub task_impl : Code → Fixture → Option Fixture
task_impl no_error f = some (record f { task_called = true; task_calls = suc f.task_calls })
task_impl operation_aborted f = some (record f { task_aborted = true })
task_impl other_error f = none

unfoldable pub scheduled_impl : Check → Code → Fixture → Option Fixture
unfolding wrapper if_check
scheduled_impl check c f = elim (wrapper c) [
  | calls_func ↦
      if if_check check
      then some (record f { task_called = true; task_calls = suc f.task_calls })
      else some f
  | returns ↦ some f
  | throws_system_error ↦ none
]

-- The io_service has one timer: `run_one` runs the handler of a wait that has ended, and waits for the end
-- of one before, if there is none. It returns 1 when it has run a handler.
unfoldable pub run_one :
    (Task → Task) → (Code → Fixture → Option Fixture) → Fixture → Option Fixture
run_one run impl f = elim f.task.ended [
  | c ∷ cs ↦ impl c (record f { task = run f.task })
  | [] ↦ elim (end_waits no_error f.task).ended [
    | [] ↦ none
    | c ∷ cs ↦ impl c (record f { task = run (end_waits no_error f.task) })
  ]
]

abbrev pub passed : Option Fixture → Bool
passed none = false
passed (some f) = true

-- CALL_TIMES: the test passes at each of the times.
unfoldable pub call_times : ℕ → ℕ → ℕ → (ℕ → Option Fixture) → Bool
call_times zero i base_time test = true
call_times (suc n) i base_time test =
    let rest = call_times n (suc i) base_time test in
    if passed (test (base_time * i)) then rest else false

-- INTERVAL_TIMES, with what the loop has in its body in both of the tests' forms.
unfoldable pub interval_times : (Fixture → Option Fixture) → ℕ → ℕ → Fixture → Option Fixture
interval_times body zero interval f = some f
interval_times body (suc n) interval f =
    body f >>= λ f'. assert (interval == f'.task_calls) f' >>= interval_times body n (suc interval)

unfoldable pub idle_times : (Fixture → Option Fixture) → ℕ → Fixture → Option Fixture
idle_times body zero f = some f
idle_times body (suc n) f = body f >>= λ f'. assert (not f'.task_called) f' >>= idle_times body n

-- Cancelling, with the answer that the test asks for.
unfoldable pub cancel_task : Bool → Fixture → Option Fixture
unfolding cancel
cancel_task expected f =
    let f' : Fixture = record f { task = (cancel f.task).0 } in
    let done = (cancel f.task).1 in assert (if expected then done else not done) f'

-- The test passes at a time.
abbrev pub Passes : (ℕ → Option Fixture) → Type 0
Passes test = (call_time : ℕ) → passed (test call_time) ≡ true

pub call_times-Passes :
    (n i base_time : ℕ) (test : ℕ → Option Fixture)
    → Passes test
    → call_times n i base_time test ≡ true
unfolding call_times
call_times-Passes zero i base_time test h = refl
call_times-Passes (suc n) i base_time test h =
    rw (h (base_time * i), call_times) (call_times-Passes n (suc i) base_time test h)
