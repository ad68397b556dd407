-- ===== src/Sql/Connection/Tests.antt =====
-- Two connections of a service: one connects and asks a query that is never answered, the other prepares a
-- statement.
use otservpp.Base.{refl, List, [], ◌∷◌, true}
use otservpp.Sql.Connection.{BasicConnection, Work}
use otservpp.Sql.Connection.Laws.{
  Operation, connecting, executing, preparing, Answers, invokes, invokes-answered,
}

abbrev first : BasicConnection
first = record { implementation = record { conn_id = 1; thread_end_flag_is_shared = true } }

abbrev second : BasicConnection
second = record { implementation = record { conn_id = 2; thread_end_flag_is_shared = true } }

abbrev idle : Work
idle = record { work_io_service = []; running = []; io_service = [] }

abbrev calls : List (BasicConnection × Operation)
calls = (first, connecting 7 true 0) ∷ (first, executing 8) ∷ (second, preparing 9 true 0) ∷ []

invokes-answered_example :
    Answers 3
      (connecting 7 true 0 ∷ executing 8 ∷ preparing 9 true 0 ∷ [])
      idle
      (invokes calls idle)
invokes-answered_example = invokes-answered calls idle refl refl
