-- ===== src/Scheduler/Suite/Interval.antt =====
-- otservpptest/intervaltasktest.cpp.
use otservpp.Base.{
  ℕ, zero, suc, ◌≡◌, refl, List, [], ◌∷◌, ◌++◌, Bool, true, false, Option, some, ◌&&◌, ◌==◌, arith,
}
use otservpp.Base.Options.{◌>>=◌}
use otservpp.Scheduler.{
  Code, no_error, operation_aborted, create, cancel, end_waits, schedule, expires_from_now, call,
  start_interval, reschedule, interval_logic, run_interval,
}
use otservpp.Scheduler.Laws.{waiting}
use otservpp.Scheduler.Suite.{
  Fixture, set_up, assert, task_impl, run_one, call_times, interval_times, cancel_task, Passes,
  call_times-Passes,
}

unfoldable pub make_task : ℕ → Fixture
unfolding set_up start_interval create
make_task interval = set_up (start_interval (create interval))

unfoldable pub run_once : Fixture → Option Fixture
unfolding run_one run_interval task_impl
run_once = run_one run_interval task_impl

unfoldable pub executes_interval : ℕ → ℕ → Option Fixture
unfolding make_task run_once cancel_task interval_times
executes_interval iterations interval_time = do
  f ← interval_times run_once iterations 1 (make_task interval_time)
  g ← cancel_task true f
  h ← run_once g
  assert h.task_aborted h

unfoldable pub executes_interval_if_it_goes_out_of_scope : ℕ → ℕ → Option Fixture
unfolding make_task run_once interval_times
executes_interval_if_it_goes_out_of_scope iterations base_time =
    interval_times run_once iterations 1 (make_task base_time)

unfoldable pub can_reschedule_task_after_being_canceled : ℕ → ℕ → Option Fixture
unfolding make_task run_once cancel interval_times reschedule
can_reschedule_task_after_being_canceled iterations interval_time = do
  f ← run_once (make_task interval_time)
  g ← assert (f.task_calls == 1) f
  h ← run_once (record g { task = (cancel g.task).0 })
  i ← assert h.task_aborted h
  j ←
      interval_times run_once iterations 1
        (record i { task_aborted = false; task_calls = 0; task = reschedule i.task })
  k ← run_once (record j { task = (cancel j.task).0 })
  assert k.task_aborted k

-- A fixture whose task waits.
abbrev pub waits : Bool → Bool → ℕ → ℕ → List Code → ℕ → Fixture
waits called aborted n ms codes started = record {
  task_called = called;
  task_aborted = aborted;
  task_calls = n;
  task = waiting ms codes started;
}

-- So many intervals leave a task that waits, and the flag that it was aborted as it was.
abbrev pub Intervals : (ℕ → Fixture → Option Fixture) → Bool → ℕ → ℕ → Fixture → Type 0
Intervals times aborted ms n f =
    (called : Bool) × (k : ℕ) × (codes : List Code) × (started : ℕ) × (times n f
      ≡ some (waits called aborted k ms codes started))

pub refl-eq : (n : ℕ) → (n == n) ≡ true
refl-eq n = ground arith

interval_times-waits :
    (n k ms : ℕ) (called aborted : Bool) (codes : List Code) (started : ℕ)
    → Intervals
        (λ n f. interval_times run_once n (suc k) f)
        aborted
        ms
        n
        (waits called aborted k ms codes started)
unfolding interval_times run_once interval_logic call reschedule schedule expires_from_now end_waits
interval_times-waits zero k ms called aborted codes started = (called, k, codes, started, refl)
interval_times-waits (suc n) k ms called aborted codes started =
    let (called', k', codes', started', e) =
      interval_times-waits n (suc k) ms true aborted (codes ++ no_error ∷ []) (suc started) in
    (called', k', codes', started', rw (refl-eq (suc k)) e)

executes-Passes : (n : ℕ) → Passes (executes_interval n)
unfolding executes_interval run_once interval_logic call reschedule schedule expires_from_now
    end_waits
executes-Passes n ms =
    let (called, k, codes, started, e) = interval_times-waits n 0 ms false false [] 1 in rw e refl

out_of_scope-Passes : (n : ℕ) → Passes (executes_interval_if_it_goes_out_of_scope n)
unfolding executes_interval_if_it_goes_out_of_scope reschedule schedule expires_from_now end_waits
out_of_scope-Passes n ms =
    let (called, k, codes, started, e) = interval_times-waits n 0 ms false false [] 1 in rw e refl

reschedules-Passes : (n : ℕ) → Passes (can_reschedule_task_after_being_canceled n)
unfolding can_reschedule_task_after_being_canceled run_once interval_logic call reschedule schedule
    expires_from_now end_waits
reschedules-Passes n ms =
    let (called, k, codes, started, e) =
      interval_times-waits n 0 ms true false (no_error ∷ operation_aborted ∷ []) 3 in
    rw e refl

unfoldable pub interval_tests : ℕ → ℕ → ℕ → Bool
unfolding call_times
interval_tests iterations intervals base_time =
    call_times iterations 0 base_time (executes_interval intervals)
    && call_times iterations 0 base_time (can_reschedule_task_after_being_canceled intervals)
    && call_times 1 1 base_time (executes_interval_if_it_goes_out_of_scope intervals)

-- The tests of interval tasks pass, whatever their base time and numbers of iterations are.
pub interval_tests_lem :
    (iterations intervals base_time : ℕ) → interval_tests iterations intervals base_time ≡ true
unfolding interval_tests
interval_tests_lem iterations intervals base_time =
    rw
      (
        call_times-Passes iterations 0 base_time (executes_interval intervals)
            (executes-Passes intervals),
        call_times-Passes iterations 0 base_time
            (can_reschedule_task_after_being_canceled intervals) (reschedules-Passes intervals),
        call_times-Passes 1 1 base_time (executes_interval_if_it_goes_out_of_scope intervals)
            (out_of_scope-Passes intervals),
      )
      refl
