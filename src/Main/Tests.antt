-- ===== src/Main/Tests.antt =====
-- A run of the program against a server with two accounts.
use otservpp.Base.{◌≡◌, refl, [], ◌∷◌, true, false, some, map}
use otservpp.Sql.Mysql.{
  post_handler, post_handler_or_error, bind_and_exec_stmt, bind_stmt_output_rows, store_rows,
  store_result, store_one_result,
}
use otservpp.Sql.Mysql.Laws.{sent}
use otservpp.Main.{connected, query_prepared, query_executed, password, Library, work}
use otservpp.Main.Laws.{row_of}

abbrev library : Library
library = record {
  connects = true;
  connect_errno = 0;
  initialises = true;
  prepares = true;
  prepare_errno = 0;
  statement = record {
    field_count = 1;
    bind_param_fails = false;
    execute_fails = false;
    bind_result_fails = false;
    store_result_fails = false;
    fetches = map (map sent) (map row_of ((65 ∷ 66 ∷ []) ∷ (67 ∷ []) ∷ []));
    ends_with_error = false;
    num_rows = 2;
    errno = 0;
  };
}

printed :
    work 1000 library
    ≡ some (
        connected
        ∷ query_prepared
        ∷ query_executed
        ∷ password (65 ∷ 66 ∷ [])
        ∷ password (67 ∷ [])
        ∷ [])
unfolding work post_handler post_handler_or_error bind_and_exec_stmt bind_stmt_output_rows
    store_rows store_result store_one_result
printed = refl
