-- ===== src/Sql/Pool.antt =====
-- ConnectionPool of sql/connectionpool.h and sql/connectionpool.cpp: what its strand runs.
pub mod Trace
pub mod Laws
pub mod Spec
mod Tests
use otservpp.Base.{ℕ, List, [], ◌∷◌, ◌++◌, Option, none, some}

-- A connection and a handler are what the program knows of them: which one it is.
abbrev pub Conn : Type 0
Conn = ℕ

abbrev pub Handler : Type 0
Handler = ℕ

pub record ConnectionPool : Type 0 where
  pub pool : List Conn
  pub request_queue : List Handler

-- `handler(makeConnectionPtr(conn))`: from here on the connection is the handler's.
pub record Call : Type 0 where
  pub handler : Handler
  pub conn : Conn

-- The constructor with the connections it makes.
unfoldable pub create : List Conn → ConnectionPool
create conns = record { pool = conns; request_queue = [] }

-- The call of the handler is the last thing each of the two does, so that what the handler calls in
-- its turn is the next operation on the state that was left.
unfoldable pub get_connection : Handler → ConnectionPool → ConnectionPool × Option Call
get_connection h s = elim s.pool [
  | [] ↦ (record s { request_queue = s.request_queue ++ h ∷ [] }, none)
  | c ∷ cs ↦ (record s { pool = cs }, some (record { handler = h; conn = c }))
]

unfoldable pub return_to_pool : Conn → ConnectionPool → ConnectionPool × Option Call
return_to_pool c s = elim s.request_queue [
  | [] ↦ (record s { pool = s.pool ++ c ∷ [] }, none)
  | h ∷ hs ↦ (record s { request_queue = hs }, some (record { handler = h; conn = c }))
]
