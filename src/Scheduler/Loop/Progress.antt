-- ===== src/Scheduler/Loop/Progress.antt =====
-- A task that waits can always come to a call of its function.
use otservpp.Base.{
  ℕ, zero, suc, ◌+◌, ◌-◌, ◌<◌, ◌≡◌, refl, sym, ap, ◌∙◌, subst, List, [], ◌∷◌, ◌++◌, Bool, true,
  false, some, length, replicate, arith,
}
use otservpp.Base.Positions.{get_elem?, modify, get_elem?-modify_self, get_elem?-append}
use otservpp.Scheduler.{
  Code, no_error, end_waits, cancel, expires_from_now, schedule, reschedule, reschedule_every, call,
  interval_logic, run_interval, run_deferred, wrapper,
}
use otservpp.Scheduler.Loop.{
  Body, ends, throws, reads, writes, cancels, reschedules, reschedules_every, calls_after,
  calls_every, Entry, Loop, make_deferred, make_interval, cancel_entry, reschedule_entry,
  reschedule_entry_every, run_entry, end_wait, answer, exec, call_function, run_handler, passes,
  expires, runs, Steps, here, then_step,
}

-- The task `i` was called with these codes.
abbrev pub Called : {F : Type 0} → ℕ → List Code → List (Entry F) → Type 0
Called {F = F} i cs es = (e : Entry F) × (get_elem? es i ≡ some e) × (e.task.calls ≡ cs)

modify-Called :
    {F : Type 0} (i j : ℕ) (cs : List Code) (f : Entry F → Entry F) (es : List (Entry F))
    → ((e : Entry F) → (f e).task.calls ≡ e.task.calls)
    → Called i cs es
    → Called i cs (modify j f es)
modify-Called i zero cs f [] same h = h
modify-Called i (suc j) cs f [] same h = h
modify-Called zero zero cs f (x ∷ es) same (e, there, called) = (f x, refl, same x ∙ cc)
modify-Called (suc i) zero cs f (x ∷ es) same h = h
modify-Called zero (suc j) cs f (x ∷ es) same h = h
modify-Called (suc i) (suc j) cs f (x ∷ es) same h = modify-Called i j cs f es same h

append-Called :
    {F : Type 0} (i : ℕ) (cs : List Code) (es new : List (Entry F))
    → Called i cs es
    → Called i cs (es ++ new)
append-Called i cs es new (e, there, called) = (e, get_elem?-append es new i there, called)

module _ {F M : Type 0} (i : ℕ) (cs : List Code) where
  exec-Called : (b : Body F M) (s : Loop F M) → Called i cs s.tasks → Called i cs (exec b s).0.tasks
  unfolding exec cancel_entry cancel reschedule_entry reschedule reschedule_entry_every
      reschedule_every schedule expires_from_now end_waits
  exec-Called ends s h = h
  exec-Called throws s h = h
  exec-Called (reads k) s h = exec-Called (k s.memory) s h
  exec-Called (writes x b) s h = exec-Called b (record s { memory = x }) h
  exec-Called (cancels j k) s h =
      exec-Called (k (answer j s)) (record s { tasks = modify j cancel_entry s.tasks })
        (modify-Called i j cs cancel_entry s.tasks (λ e. refl) h)
  exec-Called (reschedules j b) s h =
      exec-Called b (record s { tasks = modify j (reschedule_entry s.now) s.tasks })
        (modify-Called i j cs _ s.tasks (λ e. refl) h)
  exec-Called (reschedules_every j ms b) s h =
      exec-Called b (record s { tasks = modify j (reschedule_entry_every ms s.now) s.tasks })
        (modify-Called i j cs _ s.tasks (λ e. refl) h)
  exec-Called (calls_after ms fn k) s h =
      exec-Called (k (length s.tasks))
        (record s { tasks = s.tasks ++ make_deferred s.now ms fn ∷ [] })
        (append-Called i cs s.tasks _ h)
  exec-Called (calls_every ms fn k) s h =
      exec-Called (k (length s.tasks))
        (record s { tasks = s.tasks ++ make_interval s.now ms fn ∷ [] })
        (append-Called i cs s.tasks _ h)

  -- No time passes while a body is run.
  exec-now : (b : Body F M) (s : Loop F M) → (exec b s).0.now ≡ s.now
  unfolding exec
  exec-now ends s = refl
  exec-now throws s = refl
  exec-now (reads k) s = exec-now (k s.memory) s
  exec-now (writes x b) s = exec-now b (record s { memory = x })
  exec-now (cancels j k) s = exec-now (k (answer j s)) _
  exec-now (reschedules j b) s = exec-now b _
  exec-now (reschedules_every j ms b) s = exec-now b _
  exec-now (calls_after ms fn k) s = exec-now (k (length s.tasks)) _
  exec-now (calls_every ms fn k) s = exec-now (k (length s.tasks)) _

run_entry-calls :
    {F : Type 0} (interval : Bool) (cs : List Code) (n : ℕ) (e : Entry F)
    → (run_entry n (record e {
      is_interval = interval;
      task = record e.task { waits = 0; ended = no_error ∷ cs };
    })).task.calls
      ≡ e.task.calls ++ no_error ∷ []
unfolding run_entry run_interval run_deferred interval_logic call reschedule schedule
    expires_from_now end_waits
run_entry-calls true cs n e = refl
run_entry-calls false cs n e = refl

ended-first :
    (w : ℕ) (es : List Code)
    → 0 < w
    → es ≡ []
    → (cs : List Code) × (es ++ replicate w no_error ≡ no_error ∷ cs)
ended-first zero es h e = absurd (omega (arith, h))
ended-first (suc w) es h e = (replicate w no_error, ap (λ x. x ++ replicate (suc w) no_error) e)

module _ {F : Type 0} where
  due_entry-calls :
      (cs : List Code) (n : ℕ) (e : Entry F)
      → e.task.ended ++ replicate e.task.waits no_error ≡ no_error ∷ cs
      → (run_entry n (end_wait no_error e)).task.calls ≡ e.task.calls ++ no_error ∷ []
  unfolding end_wait end_waits
  due_entry-calls cs n e first =
      subst
        (λ es.
          (run_entry n (record e { task = record e.task { waits = 0; ended = es } })).task.calls
          ≡ e.task.calls ++ no_error ∷ [])
        (sym first) (run_entry-calls e.is_interval cs n e)

module _ {F M : Type 0} (body : F → Body F M) where
  run_handler-first :
      (i : ℕ) (s : Loop F M) (e : Entry F) (cs : List Code)
      → get_elem? s.tasks i ≡ some e
      → e.task.ended ≡ no_error ∷ cs
      → run_handler body i s
        ≡ some (exec (body e.func) (record s { tasks = modify i (run_entry s.now) s.tasks }))
  unfolding run_handler call_function wrapper
  run_handler-first i s e cs there first = rw (there, first, run_handler) refl

  -- Wherever a task waits and no handler of it is left to be run, the loop can go on so that its function is
  -- called with no error: as soon as its time has come, and at once where it has come already, the
  -- function's body is run on what the functions share then, and the wrapper has been called once more.
  pub comes_to_call :
      (Fine : Body F M → Type 0) (i : ℕ) (s : Loop F M) (e : Entry F)
      → get_elem? s.tasks i ≡ some e
      → 0 < e.task.waits
      → e.task.ended ≡ []
      → (u : Loop F M) × (Steps body Fine s (exec (body e.func) u).0)
        × (u.memory ≡ s.memory)
        × ((exec (body e.func) u).0.now ≡ s.now + (e.deadline - s.now))
        × Called i (e.task.calls ++ no_error ∷ []) (exec (body e.func) u).0.tasks
  unfolding end_wait end_waits
  comes_to_call Fine i s e there waits quiet =
      let (cs, first) = ended-first e.task.waits e.task.ended waits quiet in
      let s1 : Loop F M = record s { now = s.now + (e.deadline - s.now) } in
      let s2 : Loop F M = record s1 { tasks = modify i (end_wait no_error) s.tasks } in
      let there2 = get_elem?-modify_self s.tasks i (end_wait no_error) e there in
      let u : Loop F M = record s2 { tasks = modify i (run_entry s1.now) s2.tasks } in
      let ran = run_handler-first i s2 (end_wait no_error e) cs there2 first in
      (
        u,
        then_step
            (then_step (then_step here (passes s (e.deadline - s.now)))
              (expires s1 i e there (omega arith)))
            (runs s2 i (exec (body e.func) u) ran),
        refl,
        exec-now i cs (body e.func) u,
        exec-Called i (e.task.calls ++ no_error ∷ []) (body e.func) u (
          run_entry s1.now (end_wait no_error e),
          get_elem?-modify_self s2.tasks i (run_entry s1.now) (end_wait no_error e) there2,
          due_entry-calls cs s1.now e first,
        ),
      )
