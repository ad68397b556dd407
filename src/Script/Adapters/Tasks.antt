-- ===== src/Script/Adapters/Tasks.antt =====
-- What scripts see of the scheduler: SchedulerAdapter of script/adapter/scheduler.cpp, and the methods of
-- tasks that script/static_adapter/schedulertask.cpp defines.
use Prim.Native.String.{String}
use package.text.Mathlib.Text.{◌==◌}
use otservpp.Base.{
  ℕ, zero, suc, ◌+◌, ◌≡◌, refl, sym, ap, ◌∙◌, List, [], ◌∷◌, ◌++◌, Bool, true, Option, none, some,
  if◌then◌else◌, replicate, append-nil, subst,
}
use otservpp.Scheduler.{
  Task, Code, no_error, operation_aborted, calls_func, returns, throws_system_error, wrapper,
  cancel, schedule, expires_from_now, reschedule, reschedule_every, run_interval, create,
  start_interval, end_waits,
}
use otservpp.Scheduler.Executor.{call_after, call_every}
use otservpp.Scheduler.Laws.{waiting, rounds, rounds_lem, cancel_lem}

-- A task that a script holds: the lambda in it calls the function of the script.
pub record ScriptTask (Function : Type 0) : Type 0 where
  pub task : Task
  pub func : Function

start_interval-waiting : (ms : ℕ) → start_interval (create ms) ≡ waiting ms [] 1
unfolding start_interval create reschedule schedule expires_from_now end_waits
start_interval-waiting ms = refl

module _ {Function : Type 0} where
  unfoldable pub script_call_after : ℕ → Function → ScriptTask Function
  unfolding call_after
  script_call_after ms func = record { task = call_after ms; func = func }

  unfoldable pub script_call_every : ℕ → Function → ScriptTask Function
  unfolding call_every
  script_call_every ms func = record { task = call_every ms; func = func }

  -- The calls of the script's function: those that `Scheduler::Wrapper` makes of the codes that the task's
  -- function was called with, up to the first that throws.
  unfoldable pub calls_of : List Code → Function → List Function
  unfolding wrapper
  calls_of [] func = []
  calls_of (e ∷ es) func =
      let rest = calls_of es func in
      elim (wrapper e) [ calls_func ↦ func ∷ rest | returns ↦ rest | throws_system_error ↦ [] ]

  -- The methods by name and arguments; `none` where no overload is defined. The answer of `cancel` goes to
  -- the script.
  unfoldable pub deferred_method :
      String → List ℕ → ScriptTask Function → Option (ScriptTask Function × Option Bool)
  unfolding cancel
  deferred_method name [] t =
      if name == "cancel"
      then some (record t { task = (cancel t.task).0 }, some (cancel t.task).1)
      else none
  deferred_method name (a ∷ as_) t = none

  unfoldable pub interval_method :
      String → List ℕ → ScriptTask Function → Option (ScriptTask Function × Option Bool)
  unfolding cancel reschedule reschedule_every
  interval_method name [] t =
      if name == "cancel"
      then some (record t { task = (cancel t.task).0 }, some (cancel t.task).1)
      else if name == "reschedule"
      then some (record t { task = reschedule t.task }, none)
      else none
  interval_method name (ms ∷ []) t =
      if name == "reschedule"
      then some (record t { task = reschedule_every ms t.task }, none)
      else none
  interval_method name (ms ∷ a ∷ as_) t = none

  calls_of-append :
      (n : ℕ) (es : List Code) (func : Function)
      → calls_of (replicate n no_error ++ es) func ≡ replicate n func ++ calls_of es func
  unfolding calls_of
  calls_of-append zero es func = refl
  calls_of-append (suc n) es func = ap (◌∷◌ func) (calls_of-append n es func)

  -- The task of a script whose interval has passed so many times, each time with the run of its handler.
  abbrev pub passes : ℕ → ScriptTask Function → ScriptTask Function
  passes n t = record t { task = rounds n t.task }

  passes-call_every :
      (n ms : ℕ) (func : Function)
      → passes n (script_call_every ms func)
        ≡ record { task = waiting ms (replicate n no_error) (1 + n); func = func }
  unfolding script_call_every
  passes-call_every n ms func =
      ap (λ t. record { task = t; func = func })
        (ap (rounds n) (start_interval-waiting ms) ∙ rounds_lem n ms [] 1)

  -- What a script has that cancels a task, when the handler of the task's wait has run.
  abbrev pub Cancelled : ScriptTask Function → List Function → Type 0
  Cancelled t called =
      (t' : ScriptTask Function) × ((interval_method "cancel" [] t ≡ some (t', some true))
        × ((calls_of (run_interval t'.task).calls t'.func ≡ called)
            × ((run_interval t'.task).waits ≡ 0)))

  cancelled_lem :
      (n ms : ℕ) (func : Function)
      → Cancelled
          (record { task = waiting ms (replicate n no_error) (1 + n); func = func })
          (replicate n func)
  unfolding interval_method calls_of
  cancelled_lem n ms func =
      let c = cancel_lem ms (replicate n no_error) (1 + n) in
      (
        record { task = (cancel (waiting ms (replicate n no_error) (1 + n))).0; func = func },
        (
          ap
              (λ b. some (
                record {
                  task = (cancel (waiting ms (replicate n no_error) (1 + n))).0;
                  func = func;
                },
                some b,
              ))
              c.0,
          (
            ap (λ (t : Task). calls_of t.calls func) c.1
                ∙ calls_of-append n (operation_aborted ∷ []) func
                ∙ append-nil (replicate n func),
            ap (λ (t : Task). t.waits) c.1,
          ),
        ),
      )

  -- A function that a script passes to callEvery is called once for each time that the interval passes. When
  -- the script then cancels the task, it is told that it did, the function is not called again, and the
  -- task does not wait any more.
  pub script_call_every_lem :
      (n ms : ℕ) (func : Function)
      → (calls_of (passes n (script_call_every ms func)).task.calls func ≡ replicate n func)
        × Cancelled (passes n (script_call_every ms func)) (replicate n func)
  unfolding calls_of
  script_call_every_lem n ms func = (
    ap (λ (t : ScriptTask Function). calls_of t.task.calls func) (passes-call_every n ms func)
        ∙ ap (λ es. calls_of es func) (sym (append-nil (replicate n no_error)))
        ∙ calls_of-append n [] func
        ∙ append-nil (replicate n func),
    subst (λ t. Cancelled t (replicate n func)) (sym (passes-call_every n ms func))
        (cancelled_lem n ms func),
  )
