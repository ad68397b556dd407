-- ===== src/Protocol/Connection/Trace.antt =====
-- Runs of a connection: what its owners call, and how asio completes what it was given.
use otservpp.Base.{◌≡◌, ◌≢◌, List, Option, some, Bool, false}
use otservpp.Protocol.Connection.{
  Traits, Connection, Call, ErrorCode, operation_aborted, other_error, ProtocolHandler, no_read,
  header, body, create, start, call, on_written, on_write_error, on_header_read, on_body_read,
  on_read_error, on_timer,
}

pub data Event (Message : Type 0) : Type 0 where
  owner_calls : Call Message → Event Message
  written : Event Message
  write_fails : ErrorCode → Event Message
  header_arrives : ProtocolHandler → Bool → Event Message
  body_arrives : ProtocolHandler → List (Call Message) → Bool → Event Message
  read_fails : ErrorCode → Event Message
  timer_ends : ErrorCode → Event Message
  peer_leaves : Event Message

module _ {T : Traits} where
  unfoldable pub run : Event T.OutgoingMessage → Connection T → Option (Connection T)
  run (owner_calls c) s = call c s
  run written s = on_written s
  run (write_fails e) s = on_write_error e s
  run (header_arrives h parsed) s = on_header_read h parsed s
  run (body_arrives h cs throws) s = on_body_read h cs throws s
  run (read_fails e) s = on_read_error e s
  run (timer_ends e) s = on_timer e s
  run peer_leaves s = some (record s { peer_is_connected = false })

  -- When asio completes what. A write is aborted by nothing but the close of the socket.
  abbrev pub Allowed : Event T.OutgoingMessage → Connection T → Type 0
  Allowed (owner_calls c) s = Unit
  Allowed written s = Unit
  Allowed (write_fails operation_aborted) s = s.peer_is_open ≡ false
  Allowed (write_fails other_error) s = Unit
  Allowed (header_arrives h parsed) s = s.read ≡ header h
  Allowed (body_arrives h cs throws) s = s.read ≡ body h
  Allowed (read_fails e) s = s.read ≢ no_read
  Allowed (timer_ends e) s = Unit
  Allowed peer_leaves s = Unit

module _ (T : Traits) where
  -- The states of a connection that was started, in the runs that use no null pointer and throw nothing.
  pub data Reachable : Connection T → Type 0 where
    started : Reachable (start create)
    step :
        {s s' : Connection T} (e : Event T.OutgoingMessage)
        → Reachable s
        → Allowed e s
        → run e s ≡ some s'
        → Reachable s'
