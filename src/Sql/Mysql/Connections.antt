-- ===== src/Sql/Mysql/Connections.antt =====
-- The connections of mysql::Service of sql/mysqlservice.h and sql/mysqlservice.cpp.
use otservpp.Base.{ℕ, suc, List, [], ◌∷◌, ◌++◌, Option, none, some, Bool, true, not, if◌then◌else◌}
use otservpp.Sql.Mysql.{Post, post_handler, post_error, statement_error}

-- A connection: its id, and whether the thread that was made with it is to go on.
pub record ConnectionImpl : Type 0 where
  pub conn_id : ℕ
  pub thread_end_flag_is_shared : Bool

-- The service: the next id, and its threads, each made with the connection of that id.
pub record Service : Type 0 where
  pub conn_id_factory : ℕ
  pub threads : List ℕ

unfoldable pub create : Service
create = record { conn_id_factory = 1; threads = [] }

-- `none` is a bad_alloc of `mysql_init`; `fetch_add` returns the value before.
unfoldable pub construct : Bool → Service → Option (ConnectionImpl × Service)
construct initialises s =
    if initialises
    then some (
      record { conn_id = s.conn_id_factory; thread_end_flag_is_shared = true },
      record {
        conn_id_factory = suc s.conn_id_factory;
        threads = s.threads ++ s.conn_id_factory ∷ [];
      },
    )
    else none

unfoldable pub get_id : ConnectionImpl → ℕ
get_id c = c.conn_id

-- What is posted at the end of `connect`: `connects` is whether `mysql_real_connect` gives a handle.
unfoldable pub connect : Bool → ℕ → Post
connect connects errno =
    if not connects then post_error (statement_error errno) none else post_handler none

-- What is posted at the end of `prepareQuery`, and `none` where the error is asked of the null pointer
-- that `mysql_stmt_init` gave.
unfoldable pub prepare_query : Bool → Bool → ℕ → Option Post
prepare_query initialises prepares errno =
    if initialises
    then some (if not prepares then post_error (statement_error errno) none else post_handler none)
    else none
