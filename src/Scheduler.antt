-- ===== src/Scheduler.antt =====
-- The tasks of scheduler.hpp: BaseDeferredTask, DeferredTask, IntervalTask and Scheduler.
pub mod Laws
pub mod Executor
pub mod Loop
pub mod Suite
use otservpp.Base.{
  ℕ, suc, ◌+◌, List, [], ◌∷◌, ◌++◌, Bool, true, false, not, ltb, if◌then◌else◌, replicate,
}

-- The error code that a wait ends with.
pub data Code : Type 0 where
  no_error : Code
  operation_aborted : Code
  other_error : Code

-- A task with its timer: the interval, the time last set, the waits on the timer, the waits that have
-- ended and whose handlers are still to be run, and the codes that the function of the client was
-- called with. `started` counts the waits that were begun.
pub record Task : Type 0 where
  pub ms : ℕ
  pub expires : ℕ
  pub waits : ℕ
  pub ended : List Code
  pub calls : List Code
  pub started : ℕ

unfoldable pub create : ℕ → Task
create ms = record { ms = ms; expires = 0; waits = 0; ended = []; calls = []; started = 0 }

-- The end of every wait of the timer, with one code.
unfoldable pub end_waits : Code → Task → Task
end_waits e t = record t { waits = 0; ended = t.ended ++ replicate t.waits e }

-- `timer.cancel() > 0`, which ends the waits.
unfoldable pub cancel : Task → Task × Bool
cancel t = (end_waits operation_aborted t, ltb 0 t.waits)

-- Setting the time of a timer ends its waits.
unfoldable pub expires_from_now : ℕ → Task → Task
expires_from_now ms t = record (end_waits operation_aborted t) { expires = ms }

unfoldable pub schedule : ℕ → Task → Task
schedule ms t =
    let t' = expires_from_now ms t in record t' { waits = suc t'.waits; started = suc t'.started }

-- DeferredTask::start.
unfoldable pub start_deferred : ℕ → Task → Task
start_deferred millisec t = schedule millisec t

unfoldable pub reschedule : Task → Task
reschedule t = schedule t.ms t

unfoldable pub reschedule_every : ℕ → Task → Task
reschedule_every millisec t = reschedule (record t { ms = millisec })

-- IntervalTask::start.
unfoldable pub start_interval : Task → Task
start_interval t = reschedule t

abbrev pub is_aborted : Code → Bool
is_aborted no_error = false
is_aborted operation_aborted = true
is_aborted other_error = false

unfoldable pub call : Code → Task → Task
call e t = record t { calls = t.calls ++ e ∷ [] }

-- The handler of a wait that ended, of a DeferredTask and of an IntervalTask.
unfoldable pub run_deferred : Task → Task
run_deferred t = elim t.ended [ [] ↦ t | e ∷ es ↦ call e (record t { ended = es }) ]

unfoldable pub interval_logic : Code → Task → Task
interval_logic e t = if not (is_aborted e) then call e (reschedule t) else call e t

unfoldable pub run_interval : Task → Task
run_interval t = elim t.ended [ [] ↦ t | e ∷ es ↦ interval_logic e (record t { ended = es }) ]

-- What the wrapper of Scheduler makes of a code.
pub data Wrapped : Type 0 where
  calls_func : Wrapped
  returns : Wrapped
  throws_system_error : Wrapped

unfoldable pub wrapper : Code → Wrapped
wrapper no_error = calls_func
wrapper operation_aborted = returns
wrapper other_error = throws_system_error

-- Whether the task of `callAfterIf` and `callEveryIf` calls `fn`: `check` is converted to a truth value,
-- and is not called. What it would return is the second number.
pub record Check : Type 0 where
  pub as_bool : Bool
  pub returned : Bool

unfoldable pub if_check : Check → Bool
if_check check = if check.as_bool then true else false
