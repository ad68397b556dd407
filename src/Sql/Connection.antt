-- ===== src/Sql/Connection.antt =====
-- BasicConnection of sql/connection.hpp over mysql::Service: what it posts to `workIoService`, and what the
-- jobs post to the io_service of the handlers.
pub mod Laws
mod Tests
use otservpp.Base.{ℕ, zero, suc, List, [], ◌∷◌, ◌++◌, Option, none, some, Bool}
use otservpp.Base.Options.{◌>>=◌}
use otservpp.Base.Positions.{get_elem?}
use otservpp.Sql.Mysql.{Row, Post, Statement, run_prepared_row, run_prepared_rows}
use otservpp.Sql.Mysql.Connections.{
  ConnectionImpl, Service, connect, prepare_query, construct, get_id,
}

-- A handler of the client by its name, with the values that its call gets, and the row or rows that it finds
-- in the place that was given for the result.
pub record Called : Type 0 where
  pub handler : ℕ
  pub post : Post
  pub row : Row
  pub rows : List Row

-- The lambdas that Service posts, with what the calls of the client library in them give: whether
-- `mysql_real_connect` connects, `mysql_stmt_init` and `mysql_stmt_prepare` succeed, and the error.
pub data Job : Type 0 where
  connects : (handler : ℕ) (connected : Bool) (errno : ℕ) → Job
  executes_nothing : Job
  prepares : (handler : ℕ) (initialises prepared : Bool) (errno : ℕ) → Job
  runs_row : (handler : ℕ) (stmt : Statement) (out : Row) → Job
  runs_rows :
      (handler max_size : ℕ) (reserves : Bool) (stmt : Statement) (columns : Row) (out : List Row)
      → Job

pub record BasicConnection : Type 0 where
  pub implementation : ConnectionImpl

-- What all connections and threads of the Service share: the jobs of `workIoService` that were posted, those
-- that threads have taken and not ended, and the handlers that were posted to the io_service.
pub record Work : Type 0 where
  pub work_io_service : List Job
  pub running : List Job
  pub io_service : List Called

unfoldable pub create : Bool → Service → Option (BasicConnection × Service)
unfolding construct
create initialises s =
    construct initialises s >>= λ made. some (record { implementation = made.0 }, made.1)

unfoldable pub get_connection_id : BasicConnection → ℕ
unfolding get_id
get_connection_id c = get_id c.implementation

unfoldable pub post_work : Job → Work → Work
post_work job w = record w { work_io_service = w.work_io_service ++ job ∷ [] }

-- `connect` of the connection.
unfoldable pub connect_to : BasicConnection → ℕ → Bool → ℕ → Work → Work
unfolding post_work
connect_to c handler connected errno w = post_work (connects handler connected errno) w

-- The assertion is of a text, which is a pointer that is not null, and the lambda is empty: the handler
-- goes nowhere.
unfoldable pub execute_query : BasicConnection → ℕ → Work → Work
unfolding post_work
execute_query c handler w = post_work executes_nothing w

unfoldable pub prepare : BasicConnection → ℕ → Bool → Bool → ℕ → Work → Work
unfolding post_work
prepare c handler initialises prepared errno w =
    post_work (prepares handler initialises prepared errno) w

unfoldable pub run_prepared : BasicConnection → ℕ → Statement → Row → Work → Work
unfolding post_work
run_prepared c handler stmt out w = post_work (runs_row handler stmt out) w

unfoldable pub run_prepared_set :
    BasicConnection → ℕ → ℕ → Bool → Statement → Row → List Row → Work → Work
unfolding post_work
run_prepared_set c handler max_size reserves stmt columns out w =
    post_work (runs_rows handler max_size reserves stmt columns out) w

-- What a job posts; `none` is the use of a null pointer by `prepareQuery`.
unfoldable pub perform : Job → Option (List Called)
unfolding connect prepare_query run_prepared_row run_prepared_rows
perform (connects handler connected errno) =
    some (record { handler = handler; post = connect connected errno; row = []; rows = [] } ∷ [])
perform executes_nothing = some []
perform (prepares handler initialises prepared errno) =
    prepare_query initialises prepared errno >>= λ post.
    some (record { handler = handler; post = post; row = []; rows = [] } ∷ [])
perform (runs_row handler stmt out) =
    let ran = run_prepared_row stmt out in
    some (record { handler = handler; post = ran.0; row = ran.1; rows = [] } ∷ [])
perform (runs_rows handler max_size reserves stmt columns out) =
    let ran = run_prepared_rows stmt max_size reserves columns out in
    some (record { handler = handler; post = ran.0; row = []; rows = ran.1 } ∷ [])

abbrev pub remove_at : ℕ → List Job → List Job
remove_at i [] = []
remove_at zero (job ∷ jobs) = jobs
remove_at (suc i) (job ∷ jobs) = job ∷ remove_at i jobs

-- A thread that is free takes the first job.
unfoldable pub take_job : Work → Option Work
take_job w = elim w.work_io_service [
  | [] ↦ none
  | job ∷ jobs ↦ some (record w { work_io_service = jobs; running = w.running ++ job ∷ [] })
]

-- One of the jobs that are under way, at this position, comes to its end.
unfoldable pub end_job : ℕ → Work → Option Work
unfolding perform
end_job i w = elim (get_elem? w.running i) [
  | none ↦ none
  | some job ↦ perform job >>= λ posted.
      some (record w { running = remove_at i w.running; io_service = w.io_service ++ posted })
]
