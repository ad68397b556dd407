-- ===== src/Scheduler/Loop.antt =====
-- The tasks of a program on one io_service: what its functions do with tasks, their own included, while
-- the handlers of scheduler.hpp run them.
pub mod Kept
pub mod Laws
pub mod Spent
pub mod Pace
pub mod Cancel
pub mod Progress
mod Tests
use otservpp.Base.{
  ℕ, ◌+◌, ◌≤◌, ◌<◌, ◌≡◌, List, [], ◌∷◌, ◌++◌, Bool, true, false, Option, none, some, if◌then◌else◌,
  length,
}
use otservpp.Base.Positions.{get_elem?, modify}
use otservpp.Scheduler.{
  Code, no_error, operation_aborted, other_error, Task, create, cancel, end_waits, schedule,
  start_deferred, start_interval, reschedule, reschedule_every, is_aborted, run_deferred,
  run_interval, calls_func, returns, throws_system_error, wrapper,
}

-- The rest of a run of a function, as far as the scheduler sees it. A task is named by its position
-- among those that were made; `Memory` is what the functions share.
pub data Body (Function Memory : Type 0) : Type 0 where
  ends : Body Function Memory
  throws : Body Function Memory
  reads : (Memory → Body Function Memory) → Body Function Memory
  writes : Memory → Body Function Memory → Body Function Memory
  cancels : ℕ → (Bool → Body Function Memory) → Body Function Memory
  reschedules : ℕ → Body Function Memory → Body Function Memory
  reschedules_every : ℕ → ℕ → Body Function Memory → Body Function Memory
  calls_after : ℕ → Function → (ℕ → Body Function Memory) → Body Function Memory
  calls_every : ℕ → Function → (ℕ → Body Function Memory) → Body Function Memory

-- A task that was made at `created`, with the time at which its timer is to end.
pub record Entry (Function : Type 0) : Type 0 where
  pub is_interval : Bool
  pub task : Task
  pub func : Function
  pub deadline : ℕ
  pub created : ℕ

-- The io_service, with the time, what the functions share, and the tasks.
pub record Loop (Function Memory : Type 0) : Type 0 where
  pub now : ℕ
  pub memory : Memory
  pub tasks : List (Entry Function)

module _ {Function : Type 0} where
  unfoldable pub make_deferred : ℕ → ℕ → Function → Entry Function
  unfolding start_deferred create
  make_deferred now ms fn = record {
    is_interval = false;
    task = start_deferred ms (create ms);
    func = fn;
    deadline = now + ms;
    created = now;
  }

  unfoldable pub make_interval : ℕ → ℕ → Function → Entry Function
  unfolding start_interval create
  make_interval now ms fn = record {
    is_interval = true;
    task = start_interval (create ms);
    func = fn;
    deadline = now + ms;
    created = now;
  }

  unfoldable pub cancel_entry : Entry Function → Entry Function
  cancel_entry e = record e { task = (cancel e.task).0 }

  unfoldable pub reschedule_entry : ℕ → Entry Function → Entry Function
  reschedule_entry now e = record e { task = reschedule e.task; deadline = now + e.task.ms }

  unfoldable pub reschedule_entry_every : ℕ → ℕ → Entry Function → Entry Function
  reschedule_entry_every ms now e = record e {
    task = reschedule_every ms e.task;
    deadline = now + ms;
  }

  -- What the handler of a wait does with its task, before it calls the function.
  unfoldable pub run_entry : ℕ → Entry Function → Entry Function
  run_entry now e = elim e.task.ended [
    | [] ↦ e
    | c ∷ cs ↦
        if e.is_interval
        then record e {
          task = run_interval e.task;
          deadline = if is_aborted c then e.deadline else now + e.task.ms;
        }
        else record e { task = run_deferred e.task }
  ]

  unfoldable pub end_wait : Code → Entry Function → Entry Function
  end_wait c e = record e { task = end_waits c e.task }

module _ {Function Memory : Type 0} where
  -- The answer of `cancel`.
  unfoldable pub answer : ℕ → Loop Function Memory → Bool
  unfolding cancel
  answer i s = elim (get_elem? s.tasks i) [ none ↦ false | some e ↦ (cancel e.task).1 ]

  -- The body is run to its end, or until it throws, which the second part tells.
  unfoldable pub exec : Body Function Memory → Loop Function Memory → Loop Function Memory × Bool
  exec ends s = (s, false)
  exec throws s = (s, true)
  exec (reads k) s = exec (k s.memory) s
  exec (writes m b) s = exec b (record s { memory = m })
  exec (cancels i k) s = exec (k (answer i s)) (record s { tasks = modify i cancel_entry s.tasks })
  exec (reschedules i b) s = exec b (record s { tasks = modify i (reschedule_entry s.now) s.tasks })
  exec (reschedules_every i ms b) s =
      exec b (record s { tasks = modify i (reschedule_entry_every ms s.now) s.tasks })
  exec (calls_after ms fn k) s =
      exec (k (length s.tasks)) (record s { tasks = s.tasks ++ make_deferred s.now ms fn ∷ [] })
  exec (calls_every ms fn k) s =
      exec (k (length s.tasks)) (record s { tasks = s.tasks ++ make_interval s.now ms fn ∷ [] })

  module _ (body : Function → Body Function Memory) where
    -- The function is called by the wrapper of Scheduler, with the code that the wait ended with.
    unfoldable pub call_function :
        Code → Function → Loop Function Memory → Loop Function Memory × Bool
    unfolding wrapper
    call_function c fn s = elim (wrapper c) [
      | calls_func ↦ exec (body fn) s
      | returns ↦ (s, false)
      | throws_system_error ↦ (s, true)
    ]

    -- The handler of task `i` is run; `none` where it has none to be run.
    unfoldable pub run_handler : ℕ → Loop Function Memory → Option (Loop Function Memory × Bool)
    run_handler i s = elim (get_elem? s.tasks i) [
      | none ↦ none
      | some e ↦ elim e.task.ended [
        | [] ↦ none
        | c ∷ cs ↦
            some (call_function c e.func (record s { tasks = modify i (run_entry s.now) s.tasks }))
      ]
    ]

    -- What happens to the io_service: code outside of its handlers runs, of which `Fine` holds, time passes, a
    -- timer whose time has come or that fails ends its waits, and a handler runs.
    module _ (Fine : Body Function Memory → Type 0) where
      pub data Step : Loop Function Memory → Loop Function Memory → Type 0 where
        acts : (s : Loop Function Memory) (b : Body Function Memory) → Fine b → Step s (exec b s).0
        passes : (s : Loop Function Memory) (d : ℕ) → Step s (record s { now = s.now + d })
        expires :
            (s : Loop Function Memory) (i : ℕ) (e : Entry Function)
            → get_elem? s.tasks i ≡ some e
            → e.deadline ≤ s.now
            → Step s (record s { tasks = modify i (end_wait no_error) s.tasks })
        fails :
            (s : Loop Function Memory) (i : ℕ)
            → Step s (record s { tasks = modify i (end_wait other_error) s.tasks })
        runs :
            (s : Loop Function Memory) (i : ℕ) (r : Loop Function Memory × Bool)
            → run_handler i s ≡ some r
            → Step s r.0

      pub data Steps (s : Loop Function Memory) : Loop Function Memory → Type 0 where
        here : Steps s s
        then_step : {t u : Loop Function Memory} → Steps s t → Step t u → Steps s u
