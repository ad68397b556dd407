-- ===== src/Sql/Mysql/Threads.antt =====
-- The threads of mysql::Service of sql/mysqlservice.cpp: each takes jobs of `workIoService` until it sees
-- that the connection it was made with is gone, or that the service has stopped.
pub mod Laws
pub mod Ids
use otservpp.Base.{
  ℕ, ◌≤◌, ◌≡◌, List, [], ◌∷◌, ◌++◌, Bool, true, false, Option, none, some, ltb, if◌then◌else◌,
}
use otservpp.Base.Options.{◌>>=◌}
use otservpp.Base.Counting.{count, remove}
use otservpp.Sql.Mysql.Connections.{Service, ConnectionImpl, create, construct}

-- The service with the jobs that were posted, the connections that are alive, by their ids, and the jobs
-- that were run. A copy of `threadEndFlag` is unique once the connection with it is destroyed.
pub record Workers : Type 0 where
  pub service : Service
  pub jobs : List ℕ
  pub connections : List ℕ
  pub stopped : Bool
  pub done : List ℕ

unfoldable pub begin : Workers
unfolding create
begin = record { service = create; jobs = []; connections = []; stopped = false; done = [] }

abbrev pub with_threads : List ℕ → Workers → Workers
with_threads ts s = record s { service = record s.service { threads = ts } }

-- `construct`, where `mysql_init` may fail.
unfoldable pub new_connection : Bool → Workers → Option Workers
unfolding construct
new_connection initialises s = construct initialises s.service >>= λ made.
    some (record s { service = made.1; connections = s.connections ++ made.0.conn_id ∷ [] })

unfoldable pub destroy : ℕ → Workers → Workers
destroy c s = record s { connections = remove c s.connections }

unfoldable pub post : ℕ → Workers → Workers
post job s = record s { jobs = s.jobs ++ job ∷ [] }

unfoldable pub shutdown_service : Workers → Workers
shutdown_service s = record s { stopped = true }

-- One round of the loop of a thread: `none` while `run_one` waits, since `dummyWork` is work, too. It
-- returns 0 when the service has stopped.
unfoldable pub run_one : ℕ → Workers → Option Workers
run_one t s =
    if s.stopped then some (with_threads (remove t s.service.threads) s) else elim s.jobs [
      | [] ↦ none
      | j ∷ js ↦
          let s' : Workers = record s { jobs = js; done = s.done ++ j ∷ [] } in
          some (
            if ltb 0 (count t s.connections)
            then s'
            else with_threads (remove t s.service.threads) s')
    ]

pub data Event : Type 0 where
  constructs : Bool → Event
  destroys : ℕ → Event
  posts : ℕ → Event
  shuts_down : Event
  runs : ℕ → Event

-- The state after an event; one that cannot happen leaves it as it is.
abbrev pub or_same : Option Workers → Workers → Workers
or_same none s = s
or_same (some s') s = s'

unfoldable pub next : Event → Workers → Workers
unfolding new_connection destroy post shutdown_service run_one
next (constructs ok) s = or_same (new_connection ok s) s
next (destroys c) s = destroy c s
next (posts j) s = post j s
next shuts_down s = shutdown_service s
next (runs t) s = if ltb 0 (count t s.service.threads) then or_same (run_one t s) s else s

abbrev pub run : List Event → Workers → Workers
run [] s = s
run (e ∷ es) s = run es (next e s)

-- A thread for each connection that is alive, until the service stops.
abbrev pub IsStaffed : Workers → Type 0
IsStaffed s = s.stopped ≡ false → (c : ℕ) → count c s.connections ≤ count c s.service.threads

-- Rounds of threads of the service, one after the other, of which none waits.
abbrev pub turns : List ℕ → Workers → Option Workers
turns [] s = some s
turns (t ∷ ts) s = (if ltb 0 (count t s.service.threads) then run_one t s else none) >>= turns ts
