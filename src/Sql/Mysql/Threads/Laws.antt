-- ===== src/Sql/Mysql/Threads/Laws.antt =====
-- The threads of mysql::Service: one for each connection, and how they end.
use otservpp.Base.{
  ℕ, suc, ◌+◌, ◌≤◌, ◌<◌, ◌≡◌, refl, ap, List, [], ◌∷◌, ◌++◌, Bool, true, false, none, some, ltb,
  ◌==◌, if◌then◌else◌, length, arith, inl, inr, Bool-cases, lt→ltb,
}
use otservpp.Base.Options.{Always, Always-bind, Always-if, Always-map}
use otservpp.Base.Counting.{
  count, remove, count-append, count-remove-le, count-remove_ne, length-remove,
}
use otservpp.Sql.Mysql.Threads.{
  Workers, begin, with_threads, new_connection, shutdown_service, run_one, Event, constructs,
  destroys, posts, shuts_down, runs, or_same, next, run, turns, IsStaffed,
}

abbrev pub workers : ℕ → List ℕ → List ℕ → List ℕ → Bool → List ℕ → Workers
workers i ts js cs b d = record {
  service = record { conn_id_factory = i; threads = ts };
  jobs = js;
  connections = cs;
  stopped = b;
  done = d;
}

-- A thread of no connection leaves the threads of connections.
remove-staffs :
    (t : ℕ) (ts cs : List ℕ)
    → ltb 0 (count t cs) ≡ false
    → ((c : ℕ) → count c cs ≤ count c ts)
    → (c : ℕ) → count c cs ≤ count c (remove t ts)
remove-staffs t ts cs e h c = elim (Bool-cases (c == t)) [
  | inl s ↦ ground (arith, e, s)
  | inr d ↦ omega (arith, h c, count-remove_ne c t ts (ground (arith, d)))
]

run_one-IsStaffed :
    (t : ℕ) (i : ℕ) (ts js cs : List ℕ) (b : Bool) (d : List ℕ)
    → IsStaffed (workers i ts js cs b d)
    → IsStaffed (or_same (run_one t (workers i ts js cs b d)) (workers i ts js cs b d))
unfolding run_one
run_one-IsStaffed t i ts js cs true d h e c = cc e
run_one-IsStaffed t i ts [] cs false d h e c = h e c
run_one-IsStaffed t i ts (j ∷ js) cs false d h e c = elim (Bool-cases (ltb 0 (count t cs))) [
  | inl y ↦ rw y (h refl c)
  | inr n ↦ rw n (remove-staffs t ts cs n (h refl) c)
]

construct-IsStaffed :
    (ok : Bool) (i : ℕ) (ts js cs : List ℕ) (b : Bool) (d : List ℕ)
    → IsStaffed (workers i ts js cs b d)
    → IsStaffed (or_same (new_connection ok (workers i ts js cs b d)) (workers i ts js cs b d))
unfolding new_connection
construct-IsStaffed false i ts js cs b d h e c = h e c
construct-IsStaffed true i ts js cs b d h e c =
    omega (arith, h e c, count-append c cs (i ∷ []), count-append c ts (i ∷ []))

runs-IsStaffed : (t : ℕ) (s : Workers) → IsStaffed s → IsStaffed (next (runs t) s)
unfolding next
runs-IsStaffed t s h = elim (Bool-cases (ltb 0 (count t s.service.threads))) [
  | inl y ↦ rw y (
      run_one-IsStaffed t s.service.conn_id_factory s.service.threads s.jobs s.connections s.stopped
        s.done h)
  | inr n ↦ rw n h
]

next-IsStaffed : (e : Event) (s : Workers) → IsStaffed s → IsStaffed (next e s)
unfolding next
next-IsStaffed (constructs ok) s h e c =
    construct-IsStaffed ok s.service.conn_id_factory s.service.threads s.jobs s.connections
      s.stopped s.done h e c
next-IsStaffed (destroys x) s h e c = omega (arith, h e c, count-remove-le c x s.connections)
next-IsStaffed (posts j) s h e c = h e c
next-IsStaffed shuts_down s h e c = cc e
next-IsStaffed (runs t) s h e c = runs-IsStaffed t s h e c

-- On every run of the service, until it stops, each connection that is alive has a thread.
pub run-IsStaffed : (es : List Event) (s : Workers) → IsStaffed s → IsStaffed (run es s)
run-IsStaffed [] s h = h
run-IsStaffed (e ∷ es) s h = run-IsStaffed es (next e s) (next-IsStaffed e s h)

runs_job :
    (c j : ℕ) (js : List ℕ) (s : Workers)
    → s.stopped ≡ false
    → 0 < count c s.connections
    → s.jobs ≡ j ∷ js
    → run_one c s ≡ some (record s { jobs = js; done = s.done ++ j ∷ [] })
unfolding run_one
runs_job c j js s a b d = ground (arith, a, b, d)

-- On every run of the service, until it stops, the thread of any connection that is alive runs the first
-- job that waits, and goes on.
pub runs_lem :
    (es : List Event) (c j : ℕ) (js : List ℕ)
    → (run es begin).stopped ≡ false
    → 0 < count c (run es begin).connections
    → (run es begin).jobs ≡ j ∷ js
    → next (runs c) (run es begin)
      ≡ record (run es begin) { jobs = js; done = (run es begin).done ++ j ∷ [] }
unfolding next begin
runs_lem es c j js a b d =
    let s = run es begin in
    let staffed = run-IsStaffed es begin (λ e x. omega arith) a c in
    rw (lt→ltb 0 (count c s.service.threads) (omega arith))
      (ap (λ x. or_same x s) (runs_job c j js s a b d))

-- The number of jobs and threads.
abbrev size : Workers → ℕ
size s = length s.jobs + length s.service.threads

-- A round takes a job or ends a thread.
run_one-size :
    (t : ℕ) (i : ℕ) (ts js cs : List ℕ) (b : Bool) (d : List ℕ)
    → 0 < count t ts
    → Always (λ s. suc (size s) ≤ length js + length ts) (run_one t (workers i ts js cs b d))
unfolding run_one
run_one-size t i ts js cs true d h = omega (arith, length-remove t ts h)
run_one-size t i ts [] cs false d h = tt
run_one-size t i ts (j ∷ js) cs false d h = elim (Bool-cases (ltb 0 (count t cs))) [
  | inl y ↦ rw y (omega arith)
  | inr n ↦ rw n (omega (arith, length-remove t ts h))
]

-- However the threads take turns, they make at most as many rounds as there are jobs and threads.
pub turns_lem :
    (us : List ℕ) (s : Workers)
    → Always
        (λ s'.
          length us + (length s'.jobs + length s'.service.threads)
          ≤ length s.jobs + length s.service.threads)
        (turns us s)
turns_lem [] s = omega arith
turns_lem (u ∷ us) s =
    Always-bind (λ m. suc (size m) ≤ size s) (λ e. suc (length us) + size e ≤ size s)
      (if ltb 0 (count u s.service.threads) then run_one u s else none) (turns us)
      (Always-if _ (ltb 0 (count u s.service.threads)) (run_one u s) none
        (λ y.
          run_one-size u s.service.conn_id_factory s.service.threads s.jobs s.connections s.stopped
            s.done (ground (arith, y)))
        (λ n. tt))
      (λ m h. Always-map _ _ (turns us m) (λ e g. omega (arith, g, h)) (turns_lem us m))

head-remove : (t : ℕ) (ts : List ℕ) → remove t (t ∷ ts) ≡ ts
head-remove t ts = ground arith

stopped_rounds :
    (i : ℕ) (ts js cs d : List ℕ)
    → turns ts (workers i ts js cs true d) ≡ some (workers i [] js cs true d)
unfolding run_one
stopped_rounds i [] js cs d = refl
stopped_rounds i (t ∷ ts) js cs d =
    let y : ltb 0 (count t (t ∷ ts)) ≡ true = ground arith in
    rw (y, head-remove t ts) (stopped_rounds i ts js cs d)

-- After the stop, a round of each thread ends them all, and no job is run any more: the threads can be joined.
pub shutdown_service_lem :
    (s : Workers)
    → turns s.service.threads (shutdown_service s) ≡ some (with_threads [] (shutdown_service s))
unfolding shutdown_service
shutdown_service_lem s =
    stopped_rounds s.service.conn_id_factory s.service.threads s.jobs s.connections s.done
