-- ===== src/Sql/Mysql/Handlers/Tests.antt =====
-- A handler of an error and a number, by reference, for a set of rows of which one is stored.
use otservpp.Base.{ℕ, ◌≡◌, refl, [], ◌∷◌, none, some, Bool, true, false, ◌==◌}
use otservpp.Lambdas.Traits.{CppType, closure, reference, function_traits}
use otservpp.Sql.Mysql.{
  Statement, number, run_prepared_rows, store_rows, store_result, store_one_result,
  bind_stmt_output_rows, bind_and_exec_stmt,
}
use otservpp.Sql.Mysql.Handlers.{
  Kind, of_error, of_number, of_numbers, of_handle, Value, rows_posts, row_count, takes,
  do_post_handler, is_called, compiles_post, compiles,
}
use otservpp.Sql.Mysql.Handlers.Laws.{rows_told}

-- The types are numbered: an error code is 0, and an unsigned number 1.
abbrev converts : Kind → ℕ → Bool
converts of_error a = a == 0
converts of_number a = a == 1
converts of_numbers a = false
converts of_handle a = false

abbrev handler : CppType ℕ
handler = reference (closure true 9 (0 ∷ 1 ∷ []))

abbrev one_number : Statement
one_number = record {
  field_count = 1;
  bind_param_fails = false;
  execute_fails = false;
  bind_result_fails = false;
  store_result_fails = false;
  fetches =
      (record { reg = record { error = false; null = false; length = 8 }; value = 5; column = none }
        ∷ [])
      ∷ [];
  ends_with_error = false;
  num_rows = 1;
  errno = 0;
}

compiled : compiles converts handler rows_posts ≡ true
unfolding compiles compiles_post do_post_handler takes is_called function_traits
compiled = refl

number_taken : takes converts of_number handler ≡ true
unfolding takes function_traits
number_taken = refl

-- The row is stored.
stored : (run_prepared_rows one_number 10 true (number 0 ∷ []) []).1 ≡ (number 0 ∷ []) ∷ []
unfolding run_prepared_rows bind_and_exec_stmt bind_stmt_output_rows store_rows store_result
    store_one_result
stored = refl

rows_told_example :
    do_post_handler converts handler
      (row_count (run_prepared_rows one_number 10 true (number 0 ∷ []) []).0)
    ≡ some (some (Value.number 0))
rows_told_example =
    rows_told converts handler one_number 10 true (number 0 ∷ []) [] compiled number_taken
