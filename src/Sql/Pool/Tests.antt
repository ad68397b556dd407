-- ===== src/Sql/Pool/Tests.antt =====
-- Instances of the laws of the pool.
use otservpp.Base.{◌+◌, ◌≡◌, [], ◌∷◌, arith}
use otservpp.Sql.Pool.{create, get_connection, return_to_pool}
use otservpp.Base.Counting.{count}
use otservpp.Sql.Pool.Trace.{request, give_back, System, run, Reachable, started, step}
use otservpp.Sql.Pool.Laws.{Reachable-conserved}
use otservpp.Sql.Pool.Spec.{Implements, Reachable-Implements}

-- Two connections, three requests, and a connection given back.
abbrev busy : System
busy = record {
  state = record { pool = []; request_queue = [] };
  leased = 7 ∷ 8 ∷ [];
  calls =
      record { handler = 1; conn = 7 }
      ∷ record { handler = 2; conn = 8 }
      ∷ record { handler = 3; conn = 7 }
      ∷ [];
}

busy-Reachable : Reachable (7 ∷ 8 ∷ []) (request 1 ∷ request 2 ∷ request 3 ∷ give_back 7 ∷ []) busy
unfolding run create get_connection return_to_pool
busy-Reachable =
    step (give_back 7) (step (request 3) (step (request 2) (step (request 1) started tt) tt) tt)
      (omega arith)

Reachable-Implements_example :
    Implements busy (record { demands = 1 ∷ 2 ∷ 3 ∷ []; offers = 7 ∷ 8 ∷ 7 ∷ [] })
Reachable-Implements_example = Reachable-Implements busy-Reachable

Reachable-conserved_example : 0 + count 7 busy.leased ≡ count 7 (7 ∷ 8 ∷ [])
Reachable-conserved_example = Reachable-conserved 7 busy-Reachable
