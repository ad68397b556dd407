-- ===== src/Scheduler/Suite/Laws.antt =====
-- The tests of tasks and of the scheduler, together.
use otservpp.Base.{ℕ, ◌≡◌, refl, true, ◌&&◌}
use otservpp.Scheduler.Suite.Deferred.{deferred_tests, deferred_tests_lem}
use otservpp.Scheduler.Suite.Interval.{interval_tests, interval_tests_lem}
use otservpp.Scheduler.Suite.Scheduled.{scheduler_tests, scheduler_tests_lem}

-- The tests of deferred tasks, of interval tasks and of the scheduler pass, whatever their base time and
-- their numbers of iterations and of intervals are: tasks are called once when their time has come, aborted where
-- they are cancelled or started again before, called at each interval until they are cancelled, called again after
-- they were rescheduled, and only where their condition holds at that time.
pub scheduling_tests_lem :
    (iterations intervals base_time : ℕ)
    → (deferred_tests iterations base_time
        && interval_tests iterations intervals base_time
        && scheduler_tests iterations intervals base_time)
      ≡ true
scheduling_tests_lem iterations intervals base_time =
    rw
      (
        deferred_tests_lem iterations base_time,
        interval_tests_lem iterations intervals base_time,
        scheduler_tests_lem iterations intervals base_time,
      )
      refl
