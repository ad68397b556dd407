-- ===== src/Sql/Mysql/Tests.antt =====
-- Instances of the laws of prepared statements.
use otservpp.Base.{◌≡◌, refl, List, [], ◌∷◌, none, true, false, map, arith}
use otservpp.Sql.Mysql.{number, text, Row, Fetched, Statement, run_prepared_rows}
use otservpp.Sql.Mysql.Types.{Bind, null_type}
use otservpp.Base.{◌+◌, ◌≤◌, ◌++◌, length}
use otservpp.Base.Options.{Always}
use otservpp.Sql.Mysql.Threads.{Event, constructs, destroys, posts, runs, next, run, begin, turns}
use otservpp.Sql.Mysql.Threads.Laws.{runs_lem, turns_lem}
use otservpp.Sql.Mysql.Laws.{sent, Runs, run_prepared_rows_lem}

-- Two connections are made, the first is destroyed, and two jobs are posted.
abbrev events : List Event
events = constructs true ∷ constructs true ∷ destroys 1 ∷ posts 5 ∷ posts 6 ∷ []

runs_lem_example :
    next (runs 2) (run events begin)
    ≡ record (run events begin) { jobs = 6 ∷ []; done = (run events begin).done ++ 5 ∷ [] }
unfolding next begin
runs_lem_example = runs_lem events 2 5 (6 ∷ []) refl (omega arith) refl

turns_lem_example :
    Always
      (λ s'. 2 + (length s'.jobs + length s'.service.threads) ≤ 4)
      (turns (1 ∷ 2 ∷ []) (run events begin))
unfolding next begin
turns_lem_example = turns_lem (1 ∷ 2 ∷ []) (run events begin)

abbrev unbound : Bind
unbound = record {
  buffer_type = null_type;
  buffer = none;
  buffer_length = 0;
  is_unsigned = false;
  has_registers = false;
}

abbrev account : Row
account = number 42 ∷ text (65 ∷ 66 ∷ []) ∷ []

abbrev columns : Row
columns = number 0 ∷ text [] ∷ []

abbrev statement : Statement
statement = record {
  field_count = 2;
  bind_param_fails = false;
  execute_fails = false;
  bind_result_fails = false;
  store_result_fails = false;
  fetches = map sent account ∷ [];
  ends_with_error = false;
  num_rows = 1;
  errno = 2013;
}

abbrev statement-Runs : Runs statement 2
statement-Runs = record {
  counted = refl;
  binds_param = refl;
  executes = refl;
  binds_result = refl;
  stores = refl;
  ends = refl;
}

-- The number of the account is lost.
run_prepared_rows_lem_example :
    run_prepared_rows statement 1000 true columns []
    ≡ (record { error = none; rows = none }, (number 0 ∷ text (65 ∷ 66 ∷ []) ∷ []) ∷ [])
run_prepared_rows_lem_example =
    run_prepared_rows_lem statement 1000 columns (account ∷ []) [] statement-Runs refl (refl, tt)
      (omega arith)

abbrev truncated : List Fetched
truncated =
    record { reg = record { error = true; null = false; length = 8 }; value = 7; column = none }
    ∷ sent (text (67 ∷ []))
    ∷ []
