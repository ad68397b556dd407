-- ===== src/Sql/Mysql/Laws.antt =====
-- What a client gets of the rows that the server sends.
use otservpp.Base.{
  ℕ, suc, ◌+◌, ◌≡◌, ◌≤◌, refl, sym, ap, ◌∙◌, List, [], ◌∷◌, ◌++◌, none, some, true, false, ◌==◌,
  length, map, All, arith, append_assoc, append-nil, le→ltb,
}
use otservpp.Sql.Mysql.{
  Cell, number, text, Row, blank, Fetched, statement_error, Statement, store_one_result,
  store_result, fetch_into, post_handler, post_error, post_handler_or_error, bind_stmt_output_row,
  store_rows, bind_stmt_output_rows, bind_and_exec_stmt, run_prepared_row, run_prepared_rows,
}

-- What is fetched where the server sends this value and nothing goes wrong.
abbrev pub sent : Cell → Fetched
sent (number n) = record {
  reg = record { error = false; null = false; length = 8 };
  value = n;
  column = none;
}
sent (text s) = record {
  reg = record { error = false; null = false; length = length s };
  value = 0;
  column = some s;
}

-- A statement that runs, and after whose rows the fetch ends.
pub record Runs (stmt : Statement) (columns : ℕ) : Type 0 where
  pub counted : stmt.field_count ≡ columns
  pub binds_param : stmt.bind_param_fails ≡ false
  pub executes : stmt.execute_fails ≡ false
  pub binds_result : stmt.bind_result_fails ≡ false
  pub stores : stmt.store_result_fails ≡ false
  pub ends : stmt.ends_with_error ≡ false

-- A text as it is, and 0 for a number.
abbrev pub only_text : Cell → Cell
only_text (number n) = number 0
only_text (text s) = text s

store_one_result-sent : (c : Cell) → store_one_result (sent c) (blank c) ≡ (true, only_text c)
unfolding store_one_result
store_one_result-sent (number v) = refl
store_one_result-sent (text []) = refl
store_one_result-sent (text (x ∷ xs)) = ground arith

store_result-sent :
    (cs : Row) → store_result (map sent cs) (map blank cs) ≡ (true, map only_text cs)
unfolding store_result
store_result-sent [] = refl
store_result-sent (c ∷ cs) = rw (store_result-sent cs, store_one_result-sent c) refl

-- A member is filled by the fetch where it is a number.
abbrev filled : Cell → Cell
filled (number n) = number n
filled (text s) = text []

fetch_into-sent : (cs : Row) → fetch_into (map sent cs) (map blank cs) ≡ map filled cs
unfolding fetch_into
fetch_into-sent [] = refl
fetch_into-sent (number n ∷ cs) = ap (◌∷◌ (number n)) (fetch_into-sent cs)
fetch_into-sent (text s ∷ cs) = ap (◌∷◌ (text [])) (fetch_into-sent cs)

store_one_result-filled : (c : Cell) → store_one_result (sent c) (filled c) ≡ (true, c)
unfolding store_one_result
store_one_result-filled (number v) = refl
store_one_result-filled (text []) = refl
store_one_result-filled (text (x ∷ xs)) = ground arith

store_result-filled : (cs : Row) → store_result (map sent cs) (map filled cs) ≡ (true, cs)
unfolding store_result
store_result-filled [] = refl
store_result-filled (c ∷ cs) = rw (store_result-filled cs, store_one_result-filled c) refl

length-map : {A B : Type 0} (f : A → B) (xs : List A) → length (map f xs) ≡ length xs
length-map f [] = refl
length-map f (x ∷ xs) = ap suc (length-map f xs)

equal : (a b : ℕ) → a ≡ b → (a == b) ≡ true
equal a b h = ground (arith, h)

-- A statement that runs and whose first row the server sends whole: the handler is called with no error
-- and one row, and a result that was blank is the row, numbers and texts.
pub run_prepared_row_lem :
    (stmt : Statement) (cs : Row) (more : List (List Fetched))
    → Runs stmt (length cs)
    → stmt.fetches ≡ map sent cs ∷ more
    → run_prepared_row stmt (map blank cs) ≡ (record { error = none; rows = some 1 }, cs)
unfolding run_prepared_row bind_and_exec_stmt bind_stmt_output_row post_handler_or_error
    post_handler
run_prepared_row_lem stmt cs more runs fetched =
    let counted =
      equal stmt.field_count (length (map blank cs)) (runs.counted ∙ sym (length-map blank cs)) in
    rw
      (
        counted,
        runs.binds_param,
        runs.executes,
        runs.binds_result,
        fetched,
        fetch_into-sent cs,
        store_result-filled cs,
      )
      refl

store_rows-sent :
    (stmt : Statement) (columns : Row) (rows out : List Row)
    → stmt.ends_with_error ≡ false
    → All (λ cs. map blank cs ≡ columns) rows
    → store_rows stmt columns (map (map sent) rows) out
      ≡ (record { error = none; rows = none }, out ++ map (map only_text) rows)
unfolding store_rows post_handler_or_error post_handler
store_rows-sent stmt columns [] out ends same =
    rw ends (ap (λ o. (record { error = none; rows = none }, o)) (sym (append-nil out)))
store_rows-sent stmt columns (cs ∷ rows) out ends same =
    let stored : store_result (map sent cs) columns ≡ (true, map only_text cs) =
      ap (store_result (map sent cs)) (sym same.0) ∙ store_result-sent cs in
    rw stored (
      store_rows-sent stmt columns rows (out ++ map only_text cs ∷ []) ends same.1
      ∙ ap (λ o. (record { error = none; rows = none }, o))
          (append_assoc out (map only_text cs ∷ []) (map (map only_text) rows)))

-- A statement that runs and whose rows the server sends whole, for a set of rows that has room for them:
-- the handler is called with no error and no number of rows, and a row is added for each one that was
-- sent, with its texts, and with 0 for each of its numbers.
pub run_prepared_rows_lem :
    (stmt : Statement) (max_size : ℕ) (columns : Row) (rows out : List Row)
    → Runs stmt (length columns)
    → stmt.fetches ≡ map (map sent) rows
    → All (λ cs. map blank cs ≡ columns) rows
    → length out + stmt.num_rows ≤ max_size
    → run_prepared_rows stmt max_size true columns out
      ≡ (record { error = none; rows = none }, out ++ map (map only_text) rows)
unfolding run_prepared_rows bind_and_exec_stmt bind_stmt_output_rows store_rows
    post_handler_or_error
run_prepared_rows_lem stmt max_size columns rows out runs fetched same room =
    let counted = equal stmt.field_count (length columns) runs.counted in
    rw
      (
        counted,
        runs.binds_param,
        runs.executes,
        runs.binds_result,
        runs.stores,
        le→ltb max_size (length out + stmt.num_rows) room,
        fetched,
      )
      (store_rows-sent stmt columns rows out runs.ends same)

-- Where the rows before are sent whole and the storing of a row fails, the handler is called with the
-- error of the statement, and the rows before and what was stored of that row have been added.
pub store_rows-fails :
    (stmt : Statement) (columns : Row) (rows : List Row) (bad : List Fetched)
    (more : List (List Fetched)) (out : List Row) (row : Row)
    → All (λ cs. map blank cs ≡ columns) rows
    → store_result bad columns ≡ (false, row)
    → store_rows stmt columns (map (map sent) rows ++ bad ∷ more) out ≡ (
      record { error = some (statement_error stmt.errno); rows = none },
      out ++ (map (map only_text) rows ++ row ∷ []),
    )
unfolding store_rows post_error
store_rows-fails stmt columns [] bad more out row same fails = rw fails refl
store_rows-fails stmt columns (cs ∷ rows) bad more out row same fails =
    let stored : store_result (map sent cs) columns ≡ (true, map only_text cs) =
      ap (store_result (map sent cs)) (sym same.0) ∙ store_result-sent cs in
    rw stored (
      store_rows-fails stmt columns rows bad more (out ++ map only_text cs ∷ []) row same.1 fails
      ∙ ap (λ o. (record { error = some (statement_error stmt.errno); rows = none }, o))
          (append_assoc out (map only_text cs ∷ []) (map (map only_text) rows ++ row ∷ [])))
