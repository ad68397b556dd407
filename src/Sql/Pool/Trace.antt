-- ===== src/Sql/Pool/Trace.antt =====
-- Runs of the pool with its clients, who give back only what they hold.
use otservpp.Base.{ℕ, ◌+◌, List, [], ◌∷◌, ◌++◌, ◌<◌, Option, none, some}
use otservpp.Base.Counting.{count, remove}
use otservpp.Sql.Pool.{Conn, Handler, ConnectionPool, Call, create, get_connection, return_to_pool}

pub data Event : Type 0 where
  request : Handler → Event
  give_back : Conn → Event

-- The pool, what the clients hold, and the calls of handlers so far.
pub record System : Type 0 where
  pub state : ConnectionPool
  pub leased : List Conn
  pub calls : List Call

abbrev pub add_call : ConnectionPool × Option Call → List Conn → List Call → System
add_call (s, none) leased calls = record { state = s; leased = leased; calls = calls }
add_call (s, some c) leased calls = record {
  state = s;
  leased = c.conn ∷ leased;
  calls = calls ++ c ∷ [];
}

unfoldable pub run : Event → System → System
run (request h) s = add_call (get_connection h s.state) s.leased s.calls
run (give_back c) s = add_call (return_to_pool c s.state) (remove c s.leased) s.calls

-- Whether the clients may do this.
abbrev pub Allowed : Event → System → Type 0
Allowed (request h) s = Unit
Allowed (give_back c) s = 0 < count c s.leased

abbrev pub start : List Conn → System
start conns = record { state = create conns; leased = []; calls = [] }

pub data Reachable (conns : List Conn) : List Event → System → Type 0 where
  started : Reachable conns [] (start conns)
  step :
      {es : List Event} {s : System} (e : Event)
      → Reachable conns es s
      → Allowed e s
      → Reachable conns (es ++ e ∷ []) (run e s)

-- The handlers of the requests, in order; and how many connections came back.
abbrev pub requests : List Event → List Handler
requests [] = []
requests (request h ∷ es) = h ∷ requests es
requests (give_back c ∷ es) = requests es

abbrev pub returns : List Event → ℕ
returns [] = 0
returns (request h ∷ es) = returns es
returns (give_back c ∷ es) = 1 + returns es

-- A system by its parts.
abbrev pub system : List Conn → List Handler → List Conn → List Call → System
system p q l k = record { state = record { pool = p; request_queue = q }; leased = l; calls = k }
