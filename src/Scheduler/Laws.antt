-- ===== src/Scheduler/Laws.antt =====
-- What the tasks of a scheduler promise.
use otservpp.Base.{
  ℕ, zero, suc, ◌+◌, ◌≡◌, ◌≤◌, refl, sym, ap, ◌∙◌, List, [], ◌∷◌, ◌++◌, true, false, replicate,
  length, arith, length-append, length-replicate, append_assoc, append-nil,
}
use otservpp.Scheduler.{
  Code, no_error, operation_aborted, other_error, Task, create, end_waits, cancel, expires_from_now,
  schedule, reschedule, reschedule_every, start_interval, call, interval_logic, run_interval,
}

-- What happens to an IntervalTask: its operations, the end of its waits, and the runs of its handlers.
pub data Event : Type 0 where
  starts : Event
  reschedules : Event
  reschedules_every : ℕ → Event
  cancels : Event
  waits_end : Code → Event
  handler_runs : Event

abbrev pub happen : Event → Task → Task
happen starts t = start_interval t
happen reschedules t = reschedule t
happen (reschedules_every ms) t = reschedule_every ms t
happen cancels t = (cancel t).0
happen (waits_end e) t = end_waits e t
happen handler_runs t = run_interval t

abbrev pub happens : List Event → Task → Task
happens [] t = t
happens (e ∷ es) t = happens es (happen e t)

-- At most one wait is under way, and every wait that was begun is under way, or has ended and its
-- handler is still to be run, or the function was called for it; `k` of them are none of these.
abbrev pub IsAccounted : ℕ → Task → Type 0
IsAccounted k t = (t.waits ≤ 1) × (k + t.waits + length t.ended + length t.calls ≡ t.started)

pub end_waits-IsAccounted :
    (k : ℕ) (e : Code) (t : Task) → IsAccounted k t → IsAccounted k (end_waits e t)
unfolding end_waits
end_waits-IsAccounted k e t (one, all) = (
  omega arith,
  omega (arith, all, length-append t.ended (replicate t.waits e), length-replicate t.waits e),
)

pub schedule-IsAccounted :
    (k : ℕ) (ms : ℕ) (t : Task) → IsAccounted k t → IsAccounted k (schedule ms t)
unfolding schedule expires_from_now end_waits
schedule-IsAccounted k ms t h =
    let ended = (end_waits-IsAccounted k operation_aborted t h).1 in
    (omega arith, omega (arith, ended))

pub call-IsAccounted : (e : Code) (t : Task) → IsAccounted 1 t → IsAccounted 0 (call e t)
unfolding call
call-IsAccounted e t (one, all) = (one, omega (arith, all, length-append t.calls (e ∷ [])))

interval_logic-IsAccounted :
    (e : Code) (t : Task) → IsAccounted 1 t → IsAccounted 0 (interval_logic e t)
unfolding interval_logic reschedule
interval_logic-IsAccounted operation_aborted t h = call-IsAccounted operation_aborted t h
interval_logic-IsAccounted no_error t h =
    call-IsAccounted no_error (schedule t.ms t) (schedule-IsAccounted 1 t.ms t h)
interval_logic-IsAccounted other_error t h =
    call-IsAccounted other_error (schedule t.ms t) (schedule-IsAccounted 1 t.ms t h)

pub run_interval-IsAccounted :
    (es : List Code) (t : Task)
    → IsAccounted 0 (record t { ended = es })
    → IsAccounted 0 (run_interval (record t { ended = es }))
unfolding run_interval
run_interval-IsAccounted [] t h = h
run_interval-IsAccounted (e ∷ es) t (one, all) =
    interval_logic-IsAccounted e (record t { ended = es }) (one, omega (arith, all))

happen-IsAccounted : (e : Event) (t : Task) → IsAccounted 0 t → IsAccounted 0 (happen e t)
unfolding cancel reschedule reschedule_every start_interval
happen-IsAccounted starts t h = schedule-IsAccounted 0 t.ms t h
happen-IsAccounted reschedules t h = schedule-IsAccounted 0 t.ms t h
happen-IsAccounted (reschedules_every ms) t h = schedule-IsAccounted 0 ms (record t { ms = ms }) h
happen-IsAccounted cancels t h = end_waits-IsAccounted 0 operation_aborted t h
happen-IsAccounted (waits_end e) t h = end_waits-IsAccounted 0 e t h
happen-IsAccounted handler_runs t h = run_interval-IsAccounted t.ended t h

happens-IsAccounted : (es : List Event) (t : Task) → IsAccounted 0 t → IsAccounted 0 (happens es t)
happens-IsAccounted [] t h = h
happens-IsAccounted (e ∷ es) t h = happens-IsAccounted es (happen e t) (happen-IsAccounted e t h)

-- Whatever happens to an IntervalTask, at most one wait of it is under way, and its function is called
-- exactly once for each wait that was begun, when the wait has ended and its handler was run.
pub create-IsAccounted : (ms : ℕ) (es : List Event) → IsAccounted 0 (happens es (create ms))
unfolding create
create-IsAccounted ms es = happens-IsAccounted es (create ms) (omega arith, refl)

-- So many times, the time passes and the handler is run.
abbrev pub rounds : ℕ → Task → Task
rounds zero t = t
rounds (suc n) t = rounds n (run_interval (end_waits no_error t))

replicate-append : (n : ℕ) (e : Code) → e ∷ replicate n e ≡ replicate n e ++ e ∷ []
replicate-append zero e = refl
replicate-append (suc n) e = ap (◌∷◌ e) (replicate-append n e)

-- An IntervalTask that waits, and for which nothing else is to be done.
abbrev pub waiting : ℕ → List Code → ℕ → Task
waiting ms calls started = record {
  ms = ms;
  expires = ms;
  waits = 1;
  ended = [];
  calls = calls;
  started = started;
}

-- An IntervalTask that waits, and for which nothing else is to be done, has its function called once
-- with no error each time the time passes, and then waits again for its interval.
pub rounds_lem :
    (n ms : ℕ) (calls : List Code) (started : ℕ)
    → rounds n (waiting ms calls started) ≡ waiting ms (calls ++ replicate n no_error) (started + n)
unfolding run_interval interval_logic call reschedule schedule expires_from_now end_waits
rounds_lem zero ms calls started =
    let same : started ≡ started + 0 = omega arith in
    ap (λ c. waiting ms c started) (sym (append-nil calls)) ∙ ap (waiting ms (calls ++ [])) same
rounds_lem (suc n) ms calls started =
    let same : suc started + n ≡ started + suc n = omega arith in
    rounds_lem n ms (calls ++ no_error ∷ []) (suc started)
    ∙ ap (λ c. waiting ms c (suc started + n))
        (append_assoc calls (no_error ∷ []) (replicate n no_error))
    ∙ ap (waiting ms (calls ++ replicate (suc n) no_error)) same

-- Cancelling an IntervalTask that waits reports that it was cancelled; its function is then called
-- once more, with `operation_aborted`, and it does not wait any more. Cancelling it between the end of
-- its wait and the run of its handler reports that it was not, and it goes on.
pub cancel_lem :
    (ms : ℕ) (calls : List Code) (started : ℕ)
    → ((cancel (waiting ms calls started)).1 ≡ true)
      × (run_interval (cancel (waiting ms calls started)).0
          ≡ record (waiting ms (calls ++ operation_aborted ∷ []) started) { waits = 0 })
      × ((cancel (end_waits no_error (waiting ms calls started))).1 ≡ false)
      × (run_interval (cancel (end_waits no_error (waiting ms calls started))).0
          ≡ waiting ms (calls ++ no_error ∷ []) (suc started))
unfolding cancel run_interval interval_logic call reschedule schedule expires_from_now end_waits
cancel_lem ms calls started = (refl, refl, refl, refl)

-- A wait that ends with an error other than `operation_aborted` does not end the task either: its
-- function is called with the error after the task was made to wait again.
pub other_error_lem :
    (ms : ℕ) (calls : List Code) (started : ℕ)
    → run_interval (end_waits other_error (waiting ms calls started))
      ≡ waiting ms (calls ++ other_error ∷ []) (suc started)
unfolding run_interval interval_logic call reschedule schedule expires_from_now end_waits
other_error_lem ms calls started = refl
