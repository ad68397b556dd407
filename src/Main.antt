-- ===== src/Main.antt =====
-- `work` of otservpp.cpp, which `main` calls: a connection is made, a query is prepared and run, and the texts
-- of its rows are printed.
pub mod Laws
mod Tests
use otservpp.Base.{ℕ, List, [], ◌∷◌, ◌++◌, Bool, true, Option, none, some, map}
use otservpp.Base.Options.{◌>>=◌}
use otservpp.Sql.Mysql.{Row, Cell, number, text, Error, Post, Statement, run_prepared_rows}
use otservpp.Sql.Mysql.Connections.{connect, prepare_query}

-- A line of the output.
pub data Line : Type 0 where
  connect_error : Error → Line
  connected : Line
  prepare_error : Error → Line
  query_prepared : Line
  execute_error : Error → Line
  query_executed : Line
  password : List ℕ → Line

-- What the calls of the client library give: the connection, its error, `mysql_stmt_init`,
-- `mysql_stmt_prepare` and its error, and then the calls on the statement.
pub record Library : Type 0 where
  pub connects : Bool
  pub connect_errno : ℕ
  pub initialises : Bool
  pub prepares : Bool
  pub prepare_errno : ℕ
  pub statement : Statement

-- `std::get<0>` of a row, which is a text.
abbrev pub first_text : Row → List ℕ
first_text [] = []
first_text (text s ∷ cs) = s
first_text (number n ∷ cs) = []

-- The handler of `runPrepared`.
unfoldable pub on_executed : Post × List Row → List Line
on_executed (post, out) = elim post.error [
  | some e ↦ execute_error e ∷ []
  | none ↦ query_executed ∷ map (λ row. password (first_text row)) out
]

-- The handler of `prepareQuery`, with `max_size()` of a vector, which has room for the rows.
unfoldable pub on_prepared : ℕ → Statement → Post → List Line
unfolding on_executed run_prepared_rows
on_prepared max_size statement post = elim post.error [
  | some e ↦ prepare_error e ∷ []
  | none ↦
      query_prepared ∷ on_executed (run_prepared_rows statement max_size true (text [] ∷ []) [])
]

-- The handler of `connect`; `none` is the use of a null pointer by `prepareQuery`.
unfoldable pub on_connected : ℕ → Library → Post → Option (List Line)
unfolding on_prepared prepare_query
on_connected max_size lib post = elim post.error [
  | some e ↦ some (connect_error e ∷ [])
  | none ↦ prepare_query lib.initialises lib.prepares lib.prepare_errno >>= λ p.
      some (connected ∷ on_prepared max_size lib.statement p)
]

unfoldable pub work : ℕ → Library → Option (List Line)
unfolding on_connected connect
work max_size lib = on_connected max_size lib (connect lib.connects lib.connect_errno)
