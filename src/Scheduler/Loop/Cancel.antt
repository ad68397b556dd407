-- ===== src/Scheduler/Loop/Cancel.antt =====
-- What `cancel` promises, in the body of the task's own function and elsewhere.
use otservpp.Base.{
  ℕ, zero, suc, ◌≡◌, ◌≢◌, refl, sym, ◌∙◌, subst, List, [], ◌∷◌, ◌++◌, Bool, true, false, some, All,
  All-append, All-replicate, replicate, append-nil, arith,
}
use otservpp.Base.Positions.{
  get_elem?, modify, lt_of_get_elem?, length-modify, get_elem?-modify_self,
}
use otservpp.Scheduler.{
  Code, no_error, operation_aborted, other_error, end_waits, cancel, expires_from_now, schedule,
  reschedule, call, interval_logic, run_interval, run_deferred,
}
use otservpp.Scheduler.Loop.{
  Body, Entry, Loop, cancel_entry, reschedule_entry, reschedule_entry_every, run_entry, end_wait,
  answer, Steps,
}
use otservpp.Scheduler.Loop.Kept.{Within, IsKept, OfTasks, some_injective, Steps-Everywhere}
use otservpp.Scheduler.Loop.Spent.{count_calls, count_calls-append}

abbrev pub IsAborted : Code → Type 0
IsAborted c = c ≡ operation_aborted

-- Nothing is left of a task that would call its function with no error, or make it wait again; the function
-- was called so often.
record IsQuiet {F : Type 0} (k : ℕ) (e : Entry F) : Type 0 where
  idle : e.task.waits ≡ 0
  aborted : All IsAborted e.task.ended
  called : count_calls e.task.calls ≡ k

no_error-ne-aborted : no_error ≡ operation_aborted → ⊥
no_error-ne-aborted e = cc

other_error-ne-aborted : other_error ≡ operation_aborted → ⊥
other_error-ne-aborted e = cc

module _ {F : Type 0} {k : ℕ} where
  end_wait-IsQuiet :
      (c : Code) (e : Entry F) → IsQuiet k e → IsQuiet k (record e { task = end_waits c e.task })
  unfolding end_waits
  end_wait-IsQuiet c e h = record {
    idle = refl;
    aborted =
        subst (λ n. All IsAborted (e.task.ended ++ replicate n c)) (sym h.idle)
          (subst (All IsAborted) (sym (append-nil e.task.ended)) h.aborted);
    called = h.called;
  }

  run_entry-IsQuiet :
      (interval : Bool) (es : List Code) (n : ℕ) (e : Entry F)
      → IsQuiet k (record e { is_interval = interval; task = record e.task { ended = es } })
      → IsQuiet k
          (run_entry n (record e { is_interval = interval; task = record e.task { ended = es } }))
  unfolding run_entry run_deferred run_interval interval_logic call
  run_entry-IsQuiet interval [] n e h = h
  run_entry-IsQuiet true (operation_aborted ∷ cs) n e h = record {
    idle = h.idle;
    aborted = h.aborted.1;
    called = omega (arith, count_calls-append e.task.calls (operation_aborted ∷ []), h.called);
  }
  run_entry-IsQuiet false (operation_aborted ∷ cs) n e h = record {
    idle = h.idle;
    aborted = h.aborted.1;
    called = omega (arith, count_calls-append e.task.calls (operation_aborted ∷ []), h.called);
  }
  run_entry-IsQuiet interval (no_error ∷ cs) n e h = absurd (no_error-ne-aborted h.aborted.0)
  run_entry-IsQuiet interval (other_error ∷ cs) n e h = absurd (other_error-ne-aborted h.aborted.0)

  cancel_entry-IsQuiet : (e : Entry F) → IsQuiet k e → IsQuiet k (cancel_entry e)
  unfolding cancel_entry cancel
  cancel_entry-IsQuiet e h = end_wait-IsQuiet operation_aborted e h

IsQuiet-IsKept :
    {F : Type 0} (i k : ℕ) → IsKept {F = F} (λ j. j ≢ i) 0 (suc i) (λ j n e. j ≡ i → IsQuiet k e)
unfolding reschedule_entry reschedule_entry_every end_wait
IsQuiet-IsKept i k = record {
  made_deferred = λ j n ms fn b w same. absurd (omega (arith, b, same));
  made_interval = λ j n ms fn b w same. absurd (omega (arith, b, same));
  cancelled = λ j n e h same. cancel_entry-IsQuiet e (h same);
  rescheduled = λ j n e ok h same. absurd (ok same);
  rescheduled_every = λ j n ms e ok w h same. absurd (ok same);
  waited = λ j n d e h. h;
  expired = λ j n e due h same. end_wait-IsQuiet no_error e (h same);
  failed = λ j n e h same. end_wait-IsQuiet other_error e (h same);
  ran = λ j n e h same. run_entry-IsQuiet e.is_interval e.task.ended n e (h same);
}

-- The task is cancelled while it waits.
cancelled-IsQuiet :
    {F : Type 0} (e : Entry F)
    → All IsAborted e.task.ended
    → IsQuiet (count_calls e.task.calls) (cancel_entry e)
unfolding cancel_entry cancel end_waits
cancelled-IsQuiet e h = record {
  idle = refl;
  aborted =
      All-append IsAborted e.task.ended (replicate e.task.waits operation_aborted) h
        (All-replicate IsAborted e.task.waits operation_aborted refl);
  called = refl;
}

cancelled-OfTasks :
    {F M : Type 0} (i : ℕ) (s : Loop F M) (e : Entry F)
    → get_elem? s.tasks i ≡ some e
    → All IsAborted e.task.ended
    → OfTasks
        (suc i)
        (λ j n d. j ≡ i → IsQuiet (count_calls e.task.calls) d)
        s.now
        (modify i cancel_entry s.tasks)
cancelled-OfTasks i s e there h =
    let here = get_elem?-modify_self s.tasks i cancel_entry e there in
    (
      omega (arith, length-modify i cancel_entry s.tasks, lt_of_get_elem? s.tasks i there),
      λ j d is same.
          subst (IsQuiet (count_calls e.task.calls))
            (some_injective (
              sym here ∙ subst (λ x. get_elem? (modify i cancel_entry s.tasks) x ≡ some d) same is))
            (cancelled-IsQuiet e h),
    )

-- Where a task is cancelled and no handler of it is left to be run but for waits that were aborted, then
-- on every run after that in which it is not rescheduled, whatever else is done, its function is not
-- called any more and it does not wait.
pub cancel_stays :
    {F M : Type 0} (body : F → Body F M) (i : ℕ) (s t : Loop F M) (e e' : Entry F)
    → get_elem? s.tasks i ≡ some e
    → All IsAborted e.task.ended
    → ((fn : F) → Within (λ j. j ≢ i) 0 (body fn))
    → Steps body (Within (λ j. j ≢ i) 0) (record s { tasks = modify i cancel_entry s.tasks }) t
    → get_elem? t.tasks i ≡ some e'
    → (count_calls e'.task.calls ≡ count_calls e.task.calls) × (e'.task.waits ≡ 0)
cancel_stays body i s t e e' there h fine run is =
    let quiet =
      (Steps-Everywhere (suc i) _ (IsQuiet-IsKept i (count_calls e.task.calls)) body fine run
          (cancelled-OfTasks i s e there h)).1
        i e' is refl in
    (quiet.called, quiet.idle)

own_cancel_entry :
    {F : Type 0} (interval : Bool) (es cs : List Code) (waits n : ℕ) (e : Entry F)
    → es ≡ no_error ∷ cs
    → waits ≡ 0
    → let e1 = record e {
      is_interval = interval;
      task = record e.task { ended = es; waits = waits };
    } in
      (cancel (run_entry n e1).task).1 ≡ interval
unfolding cancel run_entry run_interval run_deferred interval_logic call reschedule schedule
    expires_from_now end_waits
own_cancel_entry interval [] cs waits n e ended idle = cc
own_cancel_entry true (no_error ∷ es) cs waits n e ended idle = refl
own_cancel_entry false (no_error ∷ es) cs waits n e ended idle = rw idle
own_cancel_entry interval (operation_aborted ∷ es) cs waits n e ended idle = cc
own_cancel_entry interval (other_error ∷ es) cs waits n e ended idle = cc

-- In the body of its own function, which is called when its one wait has ended, an interval task can be
-- cancelled, since it waits again already, and a deferred task cannot.
pub own_cancel :
    {F M : Type 0} (i : ℕ) (s : Loop F M) (e : Entry F) (cs : List Code)
    → get_elem? s.tasks i ≡ some e
    → e.task.ended ≡ no_error ∷ cs
    → e.task.waits ≡ 0
    → answer i (record s { tasks = modify i (run_entry s.now) s.tasks }) ≡ e.is_interval
unfolding answer
own_cancel i s e cs there ended idle =
    rw (get_elem?-modify_self s.tasks i (run_entry s.now) e there, answer)
      (own_cancel_entry e.is_interval e.task.ended cs e.task.waits s.now e ended idle)

revived_entry :
    {F : Type 0} (interval : Bool) (es : List Code) (waits n n' : ℕ) (e : Entry F)
    → interval ≡ true
    → es ≡ []
    → waits ≡ 1
    → let e0 = record e {
      is_interval = interval;
      task = record e.task { ended = es; waits = waits };
    } in
      let e1 = reschedule_entry n (end_wait no_error e0) in
      ((cancel e1.task).1 ≡ true) × ((run_entry n' (cancel_entry e1)).task.waits ≡ 1)
unfolding end_wait reschedule_entry cancel cancel_entry run_entry run_interval interval_logic call
    reschedule schedule expires_from_now end_waits
revived_entry false es waits n n' e interval quiet one = cc
revived_entry true [] zero n n' e interval quiet one = absurd (omega (arith, one))
revived_entry true [] (suc zero) n n' e interval quiet one = (refl, refl)
revived_entry true [] (suc (suc k)) n n' e interval quiet one = absurd (omega (arith, one))
revived_entry true (c ∷ es) waits n n' e interval quiet one = cc

-- Where the wait of an interval task has ended and it is rescheduled before its handler is run, `cancel`
-- then reports that the task was cancelled, and yet the handler makes it wait again.
pub cancel_revived :
    {F : Type 0} (e : Entry F) (n n' : ℕ)
    → e.is_interval ≡ true
    → e.task.ended ≡ []
    → e.task.waits ≡ 1
    → let e1 = reschedule_entry n (end_wait no_error e) in
      ((cancel e1.task).1 ≡ true) × ((run_entry n' (cancel_entry e1)).task.waits ≡ 1)
cancel_revived e n n' interval quiet one =
    revived_entry e.is_interval e.task.ended e.task.waits n n' e interval quiet one
