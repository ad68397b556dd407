-- ===== src/Scheduler/Loop/Pace.antt =====
-- How often tasks call their functions, as the time passes.
use otservpp.Base.{
  ℕ, zero, suc, ◌+◌, ◌*◌, ◌≤◌, ◌<◌, ◌≡◌, refl, List, [], ◌∷◌, ◌++◌, Bool, true, false, some,
  replicate, arith,
}
use otservpp.Base.Positions.{get_elem?}
use otservpp.Scheduler.{
  Code, no_error, operation_aborted, other_error, Task, create, end_waits, cancel, expires_from_now,
  schedule, reschedule, reschedule_every, start_deferred, start_interval, call, interval_logic,
  run_interval, run_deferred,
}
use otservpp.Scheduler.Loop.{
  Body, Entry, Loop, make_deferred, make_interval, cancel_entry, reschedule_entry,
  reschedule_entry_every, run_entry, end_wait, Steps,
}
use otservpp.Scheduler.Loop.Kept.{Within, IsKept, Steps-Everywhere}
use otservpp.Scheduler.Loop.Laws.{empty, Any}
use otservpp.Scheduler.Loop.Spent.{
  count_calls, spent, spent-append, spent_lem, spent-replicate_aborted, spent-replicate_error,
}

-- The calls that were made or are to be made took their intervals, and a wait under way takes one more.
record IsPaced {F : Type 0} (m now : ℕ) (e : Entry F) : Type 0 where
  one : e.task.waits ≤ 1
  slow : m ≤ e.task.ms
  so_far : e.created + spent m e.task.calls + spent m e.task.ended ≤ now
  next : 0 < e.task.waits → e.created + spent m e.task.calls + spent m e.task.ended + m ≤ e.deadline

spent_due :
    (m k now from deadline : ℕ)
    → k ≤ 1
    → from ≤ now
    → (0 < k → from + m ≤ deadline)
    → deadline ≤ now
    → from + spent m (replicate k no_error) ≤ now
unfolding spent
spent_due m zero now from deadline one so_far next due = omega arith
spent_due m (suc zero) now from deadline one so_far next due = omega (arith, next (omega arith))
spent_due m (suc (suc k)) now from deadline one so_far next due = absurd (omega arith)

module _ {F : Type 0} {m n : ℕ} where
  cancelled_lem : (e : Entry F) → IsPaced m n e → IsPaced m n (cancel_entry e)
  unfolding cancel_entry cancel end_waits
  cancelled_lem e h =
      let none_spent : spent m (e.task.ended ++ replicate e.task.waits operation_aborted)
          ≡ spent m e.task.ended =
        omega (
          arith,
          spent-append m e.task.ended (replicate e.task.waits operation_aborted),
          spent-replicate_aborted m e.task.waits,
        ) in
      record {
        one = omega arith;
        slow = h.slow;
        so_far = omega (arith, h.so_far, none_spent);
        next = λ k. absurd (omega (arith, k));
      }

  scheduled_lem :
      (ms : ℕ) (e : Entry F) (t : Task)
      → m ≤ ms
      → IsPaced m n e
      → t.ms ≡ ms
      → t.calls ≡ e.task.calls
      → t.ended ≡ e.task.ended
      → t.waits ≡ e.task.waits
      → IsPaced m n (record e { task = schedule ms t; deadline = n + ms })
  unfolding schedule expires_from_now end_waits
  scheduled_lem ms e t w h ems ec ee ew =
      let none_spent : spent m (t.ended ++ replicate t.waits operation_aborted) ≡ spent m t.ended =
        omega (
          arith,
          spent-append m t.ended (replicate t.waits operation_aborted),
          spent-replicate_aborted m t.waits,
        ) in
      let c : spent m t.calls ≡ spent m e.task.calls = rw ec in
      let d : spent m t.ended ≡ spent m e.task.ended = rw ee in
      record {
        one = omega arith;
        slow = omega (arith, ems);
        so_far = omega (arith, h.so_far, none_spent, c, d);
        next = λ k. omega (arith, h.so_far, none_spent, c, d);
      }

  expired_lem : (e : Entry F) → e.deadline ≤ n → IsPaced m n e → IsPaced m n (end_wait no_error e)
  unfolding end_wait end_waits
  expired_lem e due h =
      let joined = spent-append m e.task.ended (replicate e.task.waits no_error) in
      record {
        one = omega arith;
        slow = h.slow;
        so_far = omega (
          arith,
          joined,
          spent_due m e.task.waits n (e.created + spent m e.task.calls + spent m e.task.ended)
              e.deadline h.one h.so_far h.next due,
        );
        next = λ k. absurd (omega (arith, k));
      }

  failed_lem : (e : Entry F) → IsPaced m n e → IsPaced m n (end_wait other_error e)
  unfolding end_wait end_waits
  failed_lem e h =
      let joined = spent-append m e.task.ended (replicate e.task.waits other_error) in
      let none_spent = spent-replicate_error m e.task.waits in
      record {
        one = omega arith;
        slow = h.slow;
        so_far = omega (arith, h.so_far, joined, none_spent);
        next = λ k. absurd (omega (arith, k));
      }

  -- The function is called with the code of a wait that had ended.
  called_lem :
      (c : Code) (cs : List Code) (e : Entry F)
      → IsPaced m n (record e { task = record e.task { ended = c ∷ cs } })
      → IsPaced m n
          (record e { task = record e.task { ended = cs; calls = e.task.calls ++ c ∷ [] } })
  unfolding spent
  called_lem no_error cs e h =
      let joined = spent-append m e.task.calls (no_error ∷ []) in
      record {
        one = h.one;
        slow = h.slow;
        so_far = omega (arith, h.so_far, joined);
        next = λ k. omega (arith, h.next k, joined);
      }
  called_lem operation_aborted cs e h =
      let joined = spent-append m e.task.calls (operation_aborted ∷ []) in
      record {
        one = h.one;
        slow = h.slow;
        so_far = omega (arith, h.so_far, joined);
        next = λ k. omega (arith, h.next k, joined);
      }
  called_lem other_error cs e h =
      let joined = spent-append m e.task.calls (other_error ∷ []) in
      record {
        one = h.one;
        slow = h.slow;
        so_far = omega (arith, h.so_far, joined);
        next = λ k. omega (arith, h.next k, joined);
      }

  logic_lem :
      (c : Code) (cs : List Code) (e : Entry F)
      → IsPaced m n (record e { is_interval = true; task = record e.task { ended = c ∷ cs } })
      → IsPaced m n
          (run_entry n (record e { is_interval = true; task = record e.task { ended = c ∷ cs } }))
  unfolding run_entry run_interval interval_logic call reschedule schedule expires_from_now
      end_waits
  logic_lem operation_aborted cs e h =
      called_lem operation_aborted cs (record e { is_interval = true }) h
  logic_lem no_error cs e h =
      let called = called_lem no_error cs (record e { is_interval = true }) h in
      scheduled_lem e.task.ms _
        (record e.task { ended = cs; calls = e.task.calls ++ no_error ∷ [] }) h.slow called refl
        refl refl refl
  logic_lem other_error cs e h =
      let called = called_lem other_error cs (record e { is_interval = true }) h in
      scheduled_lem e.task.ms _
        (record e.task { ended = cs; calls = e.task.calls ++ other_error ∷ [] }) h.slow called refl
        refl refl refl

  ran_lem :
      (interval : Bool) (es : List Code) (e : Entry F)
      → IsPaced m n (record e { is_interval = interval; task = record e.task { ended = es } })
      → IsPaced m n
          (run_entry n (record e { is_interval = interval; task = record e.task { ended = es } }))
  unfolding run_entry run_deferred call
  ran_lem interval [] e h = h
  ran_lem true (c ∷ cs) e h = logic_lem c cs e h
  ran_lem false (c ∷ cs) e h = called_lem c cs (record e { is_interval = false }) h

IsPaced-IsKept : {F : Type 0} (m : ℕ) → IsKept {F = F} Any m 0 (λ i n e. IsPaced m n e)
unfolding make_deferred make_interval reschedule_entry reschedule_entry_every reschedule
    reschedule_every start_deferred start_interval create schedule expires_from_now end_waits spent
IsPaced-IsKept m = record {
  made_deferred = λ i n ms fn b w. record {
    one = omega arith;
    slow = w;
    so_far = omega arith;
    next = λ k. omega arith;
  };
  made_interval = λ i n ms fn b w. record {
    one = omega arith;
    slow = w;
    so_far = omega arith;
    next = λ k. omega arith;
  };
  cancelled = λ i n e h. cancelled_lem e h;
  rescheduled = λ i n e ok h. scheduled_lem e.task.ms e e.task h.slow h refl refl refl refl;
  rescheduled_every =
      λ i n ms e ok w h. scheduled_lem ms e (record e.task { ms = ms }) w h refl refl refl refl;
  waited = λ i n d e h. record {
    one = h.one;
    slow = h.slow;
    so_far = omega (arith, h.so_far);
    next = h.next;
  };
  expired = λ i n e due h. expired_lem e due h;
  failed = λ i n e h. failed_lem e h;
  ran = λ i n e h. ran_lem e.is_interval e.task.ended e h;
}

-- On every run in which no interval is below `m`, whatever the functions do with tasks while they run, a
-- task has by the time `now` called its function so often at most that the time since it was made has
-- room for an interval `m` before each call.
pub Steps-paced :
    {F M : Type 0} (m : ℕ) (body : F → Body F M) (x : M) (t : Loop F M)
    → ((fn : F) → Within Any m (body fn))
    → Steps body (Within Any m) (empty x) t
    → (i : ℕ) (e : Entry F) → get_elem? t.tasks i ≡ some e
    → e.created + count_calls e.task.calls * m ≤ t.now
Steps-paced m body x t fine run i e there =
    let paced =
      (Steps-Everywhere 0 _ (IsPaced-IsKept m) body fine run (omega arith, λ j d is. cc)).1 i e
        there in
    omega (arith, paced.so_far, spent_lem m e.task.calls)
