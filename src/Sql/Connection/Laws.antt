-- ===== src/Sql/Connection/Laws.antt =====
-- Which handlers of a connection are called.
use otservpp.Base.{
  ℕ, zero, suc, ◌≡◌, refl, sym, ap, ◌∙◌, subst, List, [], ◌∷◌, ◌++◌, Option, none, some, Bool, true,
  false, map, length, append_assoc, append-nil, map-append,
}
use otservpp.Base.Options.{◌>>=◌}
use otservpp.Sql.Mysql.{Row, Statement}
use otservpp.Sql.Mysql.Connections.{prepare_query}
use otservpp.Sql.Connection.{
  Called, Job, connects, executes_nothing, prepares, runs_row, runs_rows, BasicConnection, Work,
  connect_to, execute_query, prepare, run_prepared, run_prepared_set, post_work, perform, take_job,
  end_job,
}

-- A call of some connection by its client.
pub data Operation : Type 0 where
  connecting : ℕ → Bool → ℕ → Operation
  executing : ℕ → Operation
  preparing : ℕ → Bool → ℕ → Operation
  running : ℕ → Statement → Row → Operation
  running_set : ℕ → ℕ → Bool → Statement → Row → List Row → Operation

-- A statement that is prepared is there to be prepared.
abbrev pub invoke : BasicConnection × Operation → Work → Work
invoke (c, connecting h connected errno) w = connect_to c h connected errno w
invoke (c, executing h) w = execute_query c h w
invoke (c, preparing h prepared errno) w = prepare c h true prepared errno w
invoke (c, running h stmt out) w = run_prepared c h stmt out w
invoke (c, running_set h max_size reserves stmt columns out) w =
    run_prepared_set c h max_size reserves stmt columns out w

abbrev pub invokes : List (BasicConnection × Operation) → Work → Work
invokes [] w = w
invokes (o ∷ os) w = invokes os (invoke o w)

abbrev operations : List (BasicConnection × Operation) → List Operation
operations os = map (λ o. o.1) os

-- The handlers of the operations but executeQuery.
abbrev pub answered : List Operation → List ℕ
answered [] = []
answered (connecting h connected errno ∷ os) = h ∷ answered os
answered (executing h ∷ os) = answered os
answered (preparing h prepared errno ∷ os) = h ∷ answered os
answered (running h stmt out ∷ os) = h ∷ answered os
answered (running_set h max_size reserves stmt columns out ∷ os) = h ∷ answered os

abbrev pub handlers : Work → List ℕ
handlers w = map (λ p. p.handler) w.io_service

-- A thread takes a job and ends it, where no other is under way, and so on.
abbrev pub works : ℕ → Work → Option Work
works zero w = some w
works (suc n) w = take_job w >>= λ w1. end_job 0 w1 >>= works n

job_of : Operation → Job
job_of (connecting h connected errno) = connects h connected errno
job_of (executing h) = executes_nothing
job_of (preparing h prepared errno) = prepares h true prepared errno
job_of (running h stmt out) = runs_row h stmt out
job_of (running_set h max_size reserves stmt columns out) =
    runs_rows h max_size reserves stmt columns out

invoke-job_of :
    (o : BasicConnection × Operation) (w : Work)
    → invoke o w ≡ record w { work_io_service = w.work_io_service ++ job_of o.1 ∷ [] }
unfolding job_of connect_to execute_query prepare run_prepared run_prepared_set post_work
invoke-job_of (c, connecting h connected errno) w = refl
invoke-job_of (c, executing h) w = refl
invoke-job_of (c, preparing h prepared errno) w = refl
invoke-job_of (c, running h stmt out) w = refl
invoke-job_of (c, running_set h max_size reserves stmt columns out) w = refl

invokes-job_of :
    (os : List (BasicConnection × Operation)) (w : Work)
    → invokes os w ≡ record w { work_io_service = w.work_io_service ++ map job_of (operations os) }
invokes-job_of [] w =
    ap (λ js. record w { work_io_service = js }) (sym (append-nil w.work_io_service))
invokes-job_of (o ∷ os) w =
    ap (invokes os) (invoke-job_of o w)
    ∙ invokes-job_of os (record w { work_io_service = w.work_io_service ++ job_of o.1 ∷ [] })
    ∙ ap (λ js. record w { work_io_service = js })
        (append_assoc w.work_io_service (job_of o.1 ∷ []) (map job_of (operations os)))

-- What an operation's job posts.
perform_lem :
    (o : Operation)
    → (posted : List Called) × (perform (job_of o) ≡ some posted)
      × (map (λ p. p.handler) posted ≡ answered (o ∷ []))
unfolding perform job_of prepare_query
perform_lem (connecting h connected errno) = (_, refl, refl)
perform_lem (executing h) = (_, refl, refl)
perform_lem (preparing h true errno) = (_, refl, refl)
perform_lem (preparing h false errno) = (_, refl, refl)
perform_lem (running h stmt out) = (_, refl, refl)
perform_lem (running_set h max_size reserves stmt columns out) = (_, refl, refl)

answered-cons :
    (o : Operation) (os : List Operation) → answered (o ∷ os) ≡ answered (o ∷ []) ++ answered os
answered-cons (connecting h connected errno) os = refl
answered-cons (executing h) os = refl
answered-cons (preparing h prepared errno) os = refl
answered-cons (running h stmt out) os = refl
answered-cons (running_set h max_size reserves stmt columns out) os = refl

-- So many jobs are run from `start`, where the handlers of `w` had been posted.
abbrev pub Answers : ℕ → List Operation → Work → Work → Type 0
Answers n os w start =
    (w' : Work) × (works n start ≡ some w')
    × (w'.work_io_service ≡ [])
    × (w'.running ≡ [])
    × (handlers w' ≡ handlers w ++ answered os)

works-jobs :
    (os : List Operation) (w : Work)
    → Answers (length os) os w (record w { work_io_service = map job_of os; running = [] })
unfolding take_job end_job
works-jobs [] w = (_, refl, refl, refl, sym (append-nil (handlers w)))
works-jobs (o ∷ os) w =
    let (posted, done, named) = perform_lem o in
    let (w', ran, left, idle, called) =
      works-jobs os (record w { io_service = w.io_service ++ posted }) in
    (
      w',
      rw (done, ◌>>=◌) ran,
      left,
      idle,
      called
          ∙ ap (λ hs. hs ++ answered os)
              (map-append (λ (p : Called). p.handler) w.io_service posted)
          ∙ append_assoc (handlers w) (map (λ p. p.handler) posted) (answered os)
          ∙ ap (λ hs. handlers w ++ (hs ++ answered os)) named
          ∙ ap (◌++◌ (handlers w)) (sym (answered-cons o os)),
    )

length-operations : (os : List (BasicConnection × Operation)) → length (operations os) ≡ length os
length-operations [] = refl
length-operations (o ∷ os) = ap suc (length-operations os)

-- After any operations of any connections of a service with no job left and none under way, as many jobs as
-- there were operations can be run. Then none is left, and the handlers that were posted are those of the
-- operations, in order, each once, but for executeQuery, whose handler is never posted. This holds where
-- `mysql_stmt_init` gives no null pointer.
pub invokes-answered :
    (os : List (BasicConnection × Operation)) (w : Work)
    → w.work_io_service ≡ []
    → w.running ≡ []
    → Answers (length os) (map (λ o. o.1) os) w (invokes os w)
invokes-answered os w quiet idle =
    subst (λ n. Answers n (operations os) w (invokes os w)) (length-operations os)
      (subst (Answers (length (operations os)) (operations os) w)
        (ap (λ js. record w { work_io_service = js ++ map job_of (operations os); running = [] })
            (sym quiet)
          ∙ ap
              (λ js. record w {
                work_io_service = w.work_io_service ++ map job_of (operations os);
                running = js;
              })
              (sym idle)
          ∙ sym (invokes-job_of os w))
        (works-jobs (operations os) w))

-- Where `mysql_stmt_init` gives a null pointer, the job of `prepareQuery` uses it.
pub prepare-undefined :
    (c : BasicConnection) (h errno : ℕ) (prepared : Bool) (w : Work)
    → w.work_io_service ≡ []
    → w.running ≡ []
    → works 1 (prepare c h false prepared errno w) ≡ none
unfolding take_job end_job prepare post_work perform prepare_query
prepare-undefined c h errno prepared w quiet idle = rw (quiet, idle) refl
