-- ===== src/Scheduler/Loop/Laws.antt =====
-- What tasks promise to functions that make, cancel and reschedule tasks while they run.
use otservpp.Base.{ℕ, ◌≡◌, refl, List, [], ◌∷◌, Bool, true, false, some, arith}
use otservpp.Base.Positions.{get_elem?}
use otservpp.Scheduler.{
  Code, no_error, operation_aborted, other_error, Task, create, cancel, reschedule,
  reschedule_every, start_deferred, start_interval, run_deferred,
}
use otservpp.Scheduler.Laws.{
  IsAccounted, end_waits-IsAccounted, schedule-IsAccounted, call-IsAccounted,
  run_interval-IsAccounted,
}
use otservpp.Scheduler.Loop.{
  Body, ends, throws, reads, writes, cancels, reschedules, reschedules_every, calls_after,
  calls_every, Entry, Loop, make_deferred, make_interval, cancel_entry, reschedule_entry,
  reschedule_entry_every, run_entry, end_wait, Steps,
}
use otservpp.Scheduler.Loop.Kept.{Within, IsKept, Steps-Everywhere}

-- The loop before anything was done.
abbrev pub empty : {F M : Type 0} → M → Loop F M
empty m = record { now = 0; memory = m; tasks = [] }

-- Any task may be rescheduled.
abbrev pub Any : ℕ → Type 0
Any i = Unit

run_deferred-IsAccounted :
    (es : List Code) (t : Task)
    → IsAccounted 0 (record t { ended = es })
    → IsAccounted 0 (run_deferred (record t { ended = es }))
unfolding run_deferred
run_deferred-IsAccounted [] t h = h
run_deferred-IsAccounted (e ∷ es) t (one, all) =
    call-IsAccounted e (record t { ended = es }) (one, omega (arith, all))

run_entry-IsAccounted :
    {F : Type 0} (interval : Bool) (es : List Code) (t : Task) (n : ℕ) (e : Entry F)
    → IsAccounted 0 (record t { ended = es })
    → IsAccounted 0
        (run_entry n (record e { is_interval = interval; task = record t { ended = es } })).task
unfolding run_entry
run_entry-IsAccounted interval [] t n e h = h
run_entry-IsAccounted true (c ∷ cs) t n e h = run_interval-IsAccounted (c ∷ cs) t h
run_entry-IsAccounted false (c ∷ cs) t n e h = run_deferred-IsAccounted (c ∷ cs) t h

IsAccounted-IsKept : {F : Type 0} → IsKept {F = F} Any 0 0 (λ i n e. IsAccounted 0 e.task)
unfolding make_deferred make_interval cancel_entry reschedule_entry reschedule_entry_every end_wait
    cancel reschedule reschedule_every start_deferred start_interval create
IsAccounted-IsKept = record {
  made_deferred = λ i n ms fn b w. schedule-IsAccounted 0 ms (create ms) (omega arith, refl);
  made_interval = λ i n ms fn b w. schedule-IsAccounted 0 ms (create ms) (omega arith, refl);
  cancelled = λ i n e h. end_waits-IsAccounted 0 operation_aborted e.task h;
  rescheduled = λ i n e ok h. schedule-IsAccounted 0 e.task.ms e.task h;
  rescheduled_every = λ i n ms e ok w h. schedule-IsAccounted 0 ms (record e.task { ms = ms }) h;
  waited = λ i n d e h. h;
  expired = λ i n e due h. end_waits-IsAccounted 0 no_error e.task h;
  failed = λ i n e h. end_waits-IsAccounted 0 other_error e.task h;
  ran = λ i n e h. run_entry-IsAccounted e.is_interval e.task.ended e.task n e h;
}

-- Every body is within the bound 0, where any task may be rescheduled.
pub Within-Any : {F M : Type 0} (b : Body F M) → Within Any 0 b
Within-Any ends = tt
Within-Any throws = tt
Within-Any (reads k) = λ x. Within-Any (k x)
Within-Any (writes x b) = Within-Any b
Within-Any (cancels i k) = λ x. Within-Any (k x)
Within-Any (reschedules i b) = (tt, Within-Any b)
Within-Any (reschedules_every i ms b) = (tt, omega arith, Within-Any b)
Within-Any (calls_after ms fn k) = (omega arith, λ i. Within-Any (k i))
Within-Any (calls_every ms fn k) = (omega arith, λ i. Within-Any (k i))

-- On every run, whatever the functions do with tasks while they run, their own included, each task has
-- at most one wait under way, and its function is called exactly once for each wait that was begun,
-- when the wait has ended and its handler was run.
pub Steps-IsAccounted :
    {F M : Type 0} (body : F → Body F M) (m : M) (t : Loop F M)
    → Steps body (Within Any 0) (empty m) t
    → (i : ℕ) (e : Entry F) → get_elem? t.tasks i ≡ some e
    → IsAccounted 0 e.task
Steps-IsAccounted body m t run =
    (Steps-Everywhere 0 _ IsAccounted-IsKept body (λ fn. Within-Any (body fn)) run
      (omega arith, λ i e there. cc)).1
