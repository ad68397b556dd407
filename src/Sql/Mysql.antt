-- ===== src/Sql/Mysql.antt =====
-- The run of a prepared statement: the storing of results of sql/mysqltypes.hpp, and startExecStmt,
-- bindStmtInput and bindStmtOutput of mysql::Service in sql/mysqlservice.h. Results are made of numbers
-- and texts. The client library is what it returns, in the record `Statement`.
pub mod Laws
pub mod Types
pub mod Connections
pub mod Threads
pub mod Handlers
mod Tests
use otservpp.Base.{
  ℕ, zero, suc, ◌+◌, List, [], ◌∷◌, ◌++◌, Option, none, some, Bool, true, false, not, ◌&&◌, ◌||◌,
  ltb, ◌==◌, if◌then◌else◌, length,
}

-- A column of a tuple: a number, or a `std::string`.
pub data Cell : Type 0 where
  number : ℕ → Cell
  text : List ℕ → Cell

abbrev pub Row : Type 0
Row = List Cell

-- What a member of a tuple is made as.
abbrev pub blank : Cell → Cell
blank (number n) = number 0
blank (text s) = text []

-- BindOutReg.
pub record BindOutReg : Type 0 where
  pub error : Bool
  pub null : Bool
  pub length : ℕ

-- What a fetch brings of a column: the register, what it writes to the buffer of a number, and what
-- `mysql_stmt_fetch_column` then returns, where `none` is an error.
pub record Fetched : Type 0 where
  pub reg : BindOutReg
  pub value : ℕ
  pub column : Option (List ℕ)

-- The error that is posted: of the statement, or one of the service.
pub data Error : Type 0 where
  statement_error : ℕ → Error
  bad_field_count : Error
  result_is_too_big : Error
  out_of_memory : Error

-- What the handler is posted with: an error, if any, and the number of rows, if any is given.
pub record Post : Type 0 where
  pub error : Option Error
  pub rows : Option ℕ

-- The calls of the library on a statement: whether they fail, the rows that are fetched, and whether
-- the fetch behind the last one returns 1, which is an error.
pub record Statement : Type 0 where
  pub field_count : ℕ
  pub bind_param_fails : Bool
  pub execute_fails : Bool
  pub bind_result_fails : Bool
  pub store_result_fails : Bool
  pub fetches : List (List Fetched)
  pub ends_with_error : Bool
  pub num_rows : ℕ
  pub errno : ℕ

-- `storeOneResult`: whether it succeeds, and the member after it.
unfoldable pub store_one_result : Fetched → Cell → Bool × Cell
store_one_result f (number n) = (not f.reg.null && not f.reg.error, number n)
store_one_result f (text s) =
    if ltb 0 f.reg.length
    then elim f.column [ none ↦ (false, text s) | some bytes ↦ (true, text bytes) ]
    else (true, text s)

-- `storeResult`, which begins with the last column; a missing column is an access out of bounds, which
-- `validateStmtParamCount` excludes.
unfoldable pub store_result : List Fetched → Row → Bool × Row
store_result [] row = (true, row)
store_result (f ∷ fs) [] = (true, [])
store_result (f ∷ fs) (c ∷ cs) =
    let (ok, cs') = store_result fs cs in
    let (ok', c') = store_one_result f c in if ok then (ok', c' ∷ cs') else (false, c ∷ cs')

-- What a fetch writes to the numbers of the row that was bound.
unfoldable pub fetch_into : List Fetched → Row → Row
fetch_into [] row = row
fetch_into (f ∷ fs) [] = []
fetch_into (f ∷ fs) (number n ∷ cs) = number f.value ∷ fetch_into fs cs
fetch_into (f ∷ fs) (text s ∷ cs) = text s ∷ fetch_into fs cs

unfoldable pub post_handler : Option ℕ → Post
post_handler rows = record { error = none; rows = rows }

unfoldable pub post_error : Error → Option ℕ → Post
post_error e rows = record { error = some e; rows = rows }

unfoldable pub post_handler_or_error : Statement → Bool → Option ℕ → Post
post_handler_or_error stmt e rows =
    if e then post_error (statement_error stmt.errno) rows else post_handler rows

-- `bindStmtOutput` for one row: the handler's call, and the row.
unfoldable pub bind_stmt_output_row : Statement → Row → Post × Row
bind_stmt_output_row stmt out =
    if stmt.bind_result_fails
    then (post_error (statement_error stmt.errno) none, out)
    else elim stmt.fetches [
      | [] ↦ (post_handler_or_error stmt stmt.ends_with_error none, out)
      | fs ∷ more ↦
          let (ok, row) = store_result fs (fetch_into fs out) in
          (post_handler_or_error stmt (not ok) (some 1), row)
    ]

-- The loop over the rows, with the types of the columns as a blank row. The library keeps a copy of the
-- buffers that were bound, which are those of `holder`: a fetch writes no number to the new row.
unfoldable pub store_rows : Statement → Row → List (List Fetched) → List Row → Post × List Row
store_rows stmt columns [] out = (post_handler_or_error stmt stmt.ends_with_error none, out)
store_rows stmt columns (fs ∷ more) out =
    let (ok, row) = store_result fs columns in
    let rest = store_rows stmt columns more (out ++ row ∷ []) in
    if ok then rest else (post_error (statement_error stmt.errno) none, out ++ row ∷ [])

-- `bindStmtOutput` for a set of rows; `reserves` is whether `reserve` gets the memory.
unfoldable pub bind_stmt_output_rows : Statement → ℕ → Bool → Row → List Row → Post × List Row
bind_stmt_output_rows stmt max_size reserves columns out =
    if stmt.bind_result_fails || stmt.store_result_fails
    then (post_error (statement_error stmt.errno) none, out)
    else (if ltb max_size (length out + stmt.num_rows)
        then (post_error result_is_too_big none, out)
        else (if reserves
            then store_rows stmt columns stmt.fetches out
            else (post_error out_of_memory none, out)))

-- `bindAndExecStmt`.
unfoldable pub bind_and_exec_stmt : Statement → Bool
bind_and_exec_stmt stmt = not (stmt.bind_param_fails || stmt.execute_fails)

-- `startExecStmt` and `bindStmtInput`, for a row and for a set of rows.
unfoldable pub run_prepared_row : Statement → Row → Post × Row
run_prepared_row stmt out =
    if stmt.field_count == length out
    then (if bind_and_exec_stmt stmt
        then bind_stmt_output_row stmt out
        else (post_error (statement_error stmt.errno) none, out))
    else (post_error bad_field_count none, out)

unfoldable pub run_prepared_rows : Statement → ℕ → Bool → Row → List Row → Post × List Row
run_prepared_rows stmt max_size reserves columns out =
    if stmt.field_count == length columns
    then (if bind_and_exec_stmt stmt
        then bind_stmt_output_rows stmt max_size reserves columns out
        else (post_error (statement_error stmt.errno) none, out))
    else (post_error bad_field_count none, out)
