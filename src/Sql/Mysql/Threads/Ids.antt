-- ===== src/Sql/Mysql/Threads/Ids.antt =====
-- The threads of mysql::Service of sql/mysqlservice.cpp whose connections are gone.
use otservpp.Base.{
  ℕ, ◌≤◌, ◌<◌, ◌≡◌, refl, List, [], ◌∷◌, ◌++◌, Bool, true, false, none, some, ltb, arith, inl, inr,
  Bool-cases, le→ltb,
}
use otservpp.Base.Counting.{count, remove, count-append, count-remove-le, count-remove_self}
use otservpp.Sql.Mysql.Threads.{
  Workers, begin, with_threads, new_connection, destroy, run_one, Event, constructs, destroys,
  posts, shuts_down, runs, or_same, next, run,
}
use otservpp.Sql.Mysql.Threads.Laws.{workers}

-- No two connections have one id, and the ids are those that the factory gave.
abbrev pub HasFreshIds : Workers → Type 0
HasFreshIds s =
    (c : ℕ)
    → (count c s.connections ≤ 1) × (0 < count c s.connections → c < s.service.conn_id_factory)

construct-HasFreshIds :
    (ok : Bool) (i : ℕ) (ts js cs : List ℕ) (b : Bool) (d : List ℕ)
    → HasFreshIds (workers i ts js cs b d)
    → HasFreshIds (or_same (new_connection ok (workers i ts js cs b d)) (workers i ts js cs b d))
unfolding new_connection
construct-HasFreshIds false i ts js cs b d h c = h c
construct-HasFreshIds true i ts js cs b d h c = (
  ground (arith, h c, count-append c cs (i ∷ [])),
  λ p. ground (arith, h c, p, count-append c cs (i ∷ [])),
)

run_one-HasFreshIds :
    (t i : ℕ) (ts js cs : List ℕ) (b : Bool) (d : List ℕ)
    → HasFreshIds (workers i ts js cs b d)
    → HasFreshIds (or_same (run_one t (workers i ts js cs b d)) (workers i ts js cs b d))
unfolding run_one
run_one-HasFreshIds t i ts js cs true d h c = h c
run_one-HasFreshIds t i ts [] cs false d h c = h c
run_one-HasFreshIds t i ts (j ∷ js) cs false d h c = elim (Bool-cases (ltb 0 (count t cs))) [
  | inl y ↦ rw y (h c)
  | inr n ↦ rw n (h c)
]

runs-HasFreshIds : (t : ℕ) (s : Workers) → HasFreshIds s → HasFreshIds (next (runs t) s)
unfolding next
runs-HasFreshIds t s h = elim (Bool-cases (ltb 0 (count t s.service.threads))) [
  | inl y ↦ rw y (
      run_one-HasFreshIds t s.service.conn_id_factory s.service.threads s.jobs s.connections
        s.stopped s.done h)
  | inr n ↦ rw n h
]

next-HasFreshIds : (e : Event) (s : Workers) → HasFreshIds s → HasFreshIds (next e s)
unfolding next
next-HasFreshIds (constructs ok) s h c =
    construct-HasFreshIds ok s.service.conn_id_factory s.service.threads s.jobs s.connections
      s.stopped s.done h c
next-HasFreshIds (destroys x) s h c = (
  omega (arith, (h c).0, count-remove-le c x s.connections),
  λ p. (h c).1 (omega (arith, p, count-remove-le c x s.connections)),
)
next-HasFreshIds (posts j) s h c = h c
next-HasFreshIds shuts_down s h c = h c
next-HasFreshIds (runs t) s h c = runs-HasFreshIds t s h c

run-HasFreshIds : (es : List Event) (s : Workers) → HasFreshIds s → HasFreshIds (run es s)
run-HasFreshIds [] s h = h
run-HasFreshIds (e ∷ es) s h = run-HasFreshIds es (next e s) (next-HasFreshIds e s h)

run_one-gone :
    (t i : ℕ) (ts js cs : List ℕ) (d : List ℕ) (j : ℕ)
    → count t cs ≡ 1
    → (run_one t (destroy t (workers i ts [] cs false d)) ≡ none)
      × (run_one t (destroy t (workers i ts (j ∷ js) cs false d))
          ≡ some (workers i (remove t ts) js (remove t cs) false (d ++ j ∷ [])))
unfolding run_one destroy
run_one-gone t i ts js cs d j h =
    (refl, rw (le→ltb 0 (count t (remove t cs)) (omega (arith, count-remove_self t cs h))) refl)

-- On every run of the service, until it stops: after a connection is destroyed, its thread waits as long
-- as no job is posted, and with the next job that it takes it runs the job and ends.
pub run_one-destroyed :
    (es : List Event) (c j : ℕ) (js : List ℕ)
    → (run es begin).stopped ≡ false
    → 0 < count c (run es begin).connections
    → ((run es begin).jobs ≡ [] → run_one c (destroy c (run es begin)) ≡ none)
      × ((run es begin).jobs ≡ j ∷ js
          → run_one c (destroy c (run es begin))
            ≡ some (
                with_threads
                  (remove c (run es begin).service.threads)
                  (record (destroy c (run es begin)) {
                    jobs = js;
                    done = (run es begin).done ++ j ∷ [];
                  })))
unfolding begin destroy
run_one-destroyed es c j js a alive =
    let s = run es begin in
    let fresh = run-HasFreshIds es begin (λ x. (omega arith, λ p. absurd (omega arith))) c in
    let gone =
      run_one-gone c s.service.conn_id_factory s.service.threads js s.connections s.done j
        (omega (arith, fresh.0, alive)) in
    ((λ e. rw (a, e) gone.0), λ e. rw (a, e) gone.1)
