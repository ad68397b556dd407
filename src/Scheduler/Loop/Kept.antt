-- ===== src/Scheduler/Loop/Kept.antt =====
-- What every operation on a task keeps holds of all tasks on every run.
use otservpp.Base.{
  ℕ, ◌+◌, ◌≤◌, ◌≡◌, refl, sym, subst, List, [], ◌∷◌, ◌++◌, Bool, some, none, Option, ◌⊎◌, ◌∙◌,
  Option-cases, inl, inr, length, length-append, arith,
}
use otservpp.Base.Positions.{get_elem?, modify, of_modify, of_append_one, length-modify}
use otservpp.Scheduler.{Code, no_error, operation_aborted, other_error, wrapper}
use otservpp.Scheduler.Loop.{
  Body, ends, throws, reads, writes, cancels, reschedules, reschedules_every, calls_after,
  calls_every, Entry, Loop, make_deferred, make_interval, cancel_entry, reschedule_entry,
  reschedule_entry_every, run_entry, end_wait, answer, exec, call_function, run_handler, Step, acts,
  passes, expires, fails, runs, Steps, here, then_step,
}

-- The body asks for no interval below `m`, and reschedules only tasks of which `Ok` holds.
abbrev pub Within : {F M : Type 0} → (ℕ → Type 0) → ℕ → Body F M → Type 0
Within Ok m ends = Unit
Within Ok m throws = Unit
Within {M = M} Ok m (reads k) = (x : M) → Within Ok m (k x)
Within Ok m (writes x b) = Within Ok m b
Within Ok m (cancels i k) = (x : Bool) → Within Ok m (k x)
Within Ok m (reschedules i b) = Ok i × Within Ok m b
Within Ok m (reschedules_every i ms b) = Ok i × (m ≤ ms) × Within Ok m b
Within Ok m (calls_after ms fn k) = (m ≤ ms) × ((i : ℕ) → Within Ok m (k i))
Within Ok m (calls_every ms fn k) = (m ≤ ms) × ((i : ℕ) → Within Ok m (k i))

-- `P` of a position, the time and a task is kept by all that is done to the task; tasks from `base` on may
-- be made.
pub record IsKept {F : Type 0} (Ok : ℕ → Type 0) (m base : ℕ) (P : ℕ → ℕ → Entry F → Type 0)
    : Type 0 where
  pub made_deferred : (i n ms : ℕ) (fn : F) → base ≤ i → m ≤ ms → P i n (make_deferred n ms fn)
  pub made_interval : (i n ms : ℕ) (fn : F) → base ≤ i → m ≤ ms → P i n (make_interval n ms fn)
  pub cancelled : (i n : ℕ) (e : Entry F) → P i n e → P i n (cancel_entry e)
  pub rescheduled : (i n : ℕ) (e : Entry F) → Ok i → P i n e → P i n (reschedule_entry n e)
  pub rescheduled_every :
      (i n ms : ℕ) (e : Entry F) → Ok i → m ≤ ms → P i n e → P i n (reschedule_entry_every ms n e)
  pub waited : (i n d : ℕ) (e : Entry F) → P i n e → P i (n + d) e
  pub expired : (i n : ℕ) (e : Entry F) → e.deadline ≤ n → P i n e → P i n (end_wait no_error e)
  pub failed : (i n : ℕ) (e : Entry F) → P i n e → P i n (end_wait other_error e)
  pub ran : (i n : ℕ) (e : Entry F) → P i n e → P i n (run_entry n e)

none-ne-some : {A : Type 0} {a : A} → ◌≡◌ {A = Option A} none (some a) → ⊥
none-ne-some e = cc

pub some_injective : {A : Type 0} {a b : A} → some a ≡ some b → a ≡ b
some_injective e = cc

List-cases : {A : Type 0} (xs : List A) → (xs ≡ []) ⊎ ((x : A) × (ys : List A) × (xs ≡ x ∷ ys))
List-cases [] = inl refl
List-cases (x ∷ xs) = inr (x, xs, refl)

run_handler_cases :
    {F M : Type 0} (body : F → Body F M) (i : ℕ) (s : Loop F M) (r : Loop F M × Bool)
    → run_handler body i s ≡ some r
    → (e : Entry F) × (c : Code) × (get_elem? s.tasks i ≡ some e)
      × (r ≡ call_function body c e.func (record s { tasks = modify i (run_entry s.now) s.tasks }))
unfolding run_handler
run_handler_cases body i s r h = elim (Option-cases (get_elem? s.tasks i)) [
  | inl no_task ↦ absurd (none-ne-some (rw (no_task, run_handler) at h))
  | inr (e, is) ↦ elim (List-cases e.task.ended) [
    | inl quiet ↦ absurd (none-ne-some (rw (is, run_handler, quiet) at h))
    | inr (c, cs, ended) ↦ (e, c, is, sym (some_injective (rw (is, run_handler, ended) at h)))
  ]
]

module _ {F : Type 0} (base : ℕ) (P : ℕ → ℕ → Entry F → Type 0) where
  abbrev pub OfTasks : ℕ → List (Entry F) → Type 0
  OfTasks n es = (base ≤ length es) × ((i : ℕ) (e : Entry F) → get_elem? es i ≡ some e → P i n e)

  modify-OfTasks :
      (n i : ℕ) (f : Entry F → Entry F) (es : List (Entry F))
      → ((e : Entry F) → get_elem? es i ≡ some e → P i n e → P i n (f e))
      → OfTasks n es
      → OfTasks n (modify i f es)
  modify-OfTasks n i f es keep (many, all) = (
    omega (arith, length-modify i f es),
    λ j e there.
        let (a, was, from) = of_modify es i j f e there in
        elim from [
          | inl (same, changed) ↦ subst (P j n) (sym changed) (
              subst (λ k. (b : Entry F) → get_elem? es k ≡ some b → P k n b → P k n (f b)) same keep
                a was (all j a was))
          | inr (other, kept) ↦ subst (P j n) (sym kept) (all j a was)
        ],
  )

  append-OfTasks :
      (n : ℕ) (e : Entry F) (es : List (Entry F))
      → (base ≤ length es → P (length es) n e)
      → OfTasks n es
      → OfTasks n (es ++ e ∷ [])
  append-OfTasks n e es new (many, all) = (
    omega (arith, length-append es (e ∷ [])),
    λ j a there. elim (of_append_one es e j there) [
      | inl old ↦ all j a old
      | inr (last, same) ↦ subst (P j n) (sym same) (subst (λ k. P k n e) (sym last) (new many))
    ],
  )

  module _ {M : Type 0} {Ok : ℕ → Type 0} {m : ℕ} (kept : IsKept Ok m base P) where
    abbrev pub Everywhere : Loop F M → Type 0
    Everywhere s = OfTasks s.now s.tasks

    exec-Everywhere :
        (b : Body F M) (s : Loop F M) → Within Ok m b → Everywhere s → Everywhere (exec b s).0
    unfolding exec
    exec-Everywhere ends s w h = h
    exec-Everywhere throws s w h = h
    exec-Everywhere (reads k) s w h = exec-Everywhere (k s.memory) s (w s.memory) h
    exec-Everywhere (writes x b) s w h = exec-Everywhere b (record s { memory = x }) w h
    exec-Everywhere (cancels i k) s w h =
        exec-Everywhere (k (answer i s)) (record s { tasks = modify i cancel_entry s.tasks })
          (w (answer i s))
          (modify-OfTasks s.now i cancel_entry s.tasks (λ e is. kept.cancelled i s.now e) h)
    exec-Everywhere (reschedules i b) s w h =
        exec-Everywhere b (record s { tasks = modify i (reschedule_entry s.now) s.tasks }) w.1
          (modify-OfTasks s.now i _ s.tasks (λ e is. kept.rescheduled i s.now e w.0) h)
    exec-Everywhere (reschedules_every i ms b) s w h =
        exec-Everywhere b (record s { tasks = modify i (reschedule_entry_every ms s.now) s.tasks })
          w.2
          (modify-OfTasks s.now i _ s.tasks (λ e is. kept.rescheduled_every i s.now ms e w.0 w.1) h)
    exec-Everywhere (calls_after ms fn k) s w h =
        exec-Everywhere (k (length s.tasks))
          (record s { tasks = s.tasks ++ make_deferred s.now ms fn ∷ [] }) (w.1 (length s.tasks))
          (append-OfTasks s.now _ s.tasks
            (λ many. kept.made_deferred (length s.tasks) s.now ms fn many w.0) h)
    exec-Everywhere (calls_every ms fn k) s w h =
        exec-Everywhere (k (length s.tasks))
          (record s { tasks = s.tasks ++ make_interval s.now ms fn ∷ [] }) (w.1 (length s.tasks))
          (append-OfTasks s.now _ s.tasks
            (λ many. kept.made_interval (length s.tasks) s.now ms fn many w.0) h)

    module _ (body : F → Body F M) (fine : (fn : F) → Within Ok m (body fn)) where
      call_function-Everywhere :
          (c : Code) (fn : F) (s : Loop F M)
          → Everywhere s
          → Everywhere (call_function body c fn s).0
      unfolding call_function wrapper
      call_function-Everywhere no_error fn s h = exec-Everywhere (body fn) s (fine fn) h
      call_function-Everywhere operation_aborted fn s h = h
      call_function-Everywhere other_error fn s h = h

      run_handler-Everywhere :
          (i : ℕ) (s : Loop F M) (r : Loop F M × Bool)
          → run_handler body i s ≡ some r
          → Everywhere s
          → Everywhere r.0
      run_handler-Everywhere i s r e h =
          let (a, c, is, same) = run_handler_cases body i s r e in
          subst (λ (x : Loop F M × Bool). Everywhere x.0) (sym same)
            (call_function-Everywhere c a.func
              (record s { tasks = modify i (run_entry s.now) s.tasks })
              (modify-OfTasks s.now i (run_entry s.now) s.tasks (λ e' is'. kept.ran i s.now e') h))

      Step-Everywhere : {s t : Loop F M} → Step body (Within Ok m) s t → Everywhere s → Everywhere t
      Step-Everywhere (acts s b w) h = exec-Everywhere b s w h
      Step-Everywhere (passes s d) h = (h.0, λ i e there. kept.waited i s.now d e (h.1 i e there))
      Step-Everywhere (expires s i e there due) h =
          modify-OfTasks s.now i (end_wait no_error) s.tasks
            (λ e' there'. kept.expired i s.now e' (
              subst (λ (x : Entry F). x.deadline ≤ s.now) (some_injective (sym there ∙ there'))
                due))
            h
      Step-Everywhere (fails s i) h =
          modify-OfTasks s.now i (end_wait other_error) s.tasks (λ e is. kept.failed i s.now e) h
      Step-Everywhere (runs s i r ran) h = run_handler-Everywhere i s r ran h

      -- On every run, what the operations keep holds of all tasks.
      pub Steps-Everywhere :
          {s t : Loop F M} → Steps body (Within Ok m) s t → Everywhere s → Everywhere t
      Steps-Everywhere here h = h
      Steps-Everywhere (then_step r st) h = Step-Everywhere st (Steps-Everywhere r h)
