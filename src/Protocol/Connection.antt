-- ===== src/Protocol/Connection.antt =====
-- Connection of protocol/connection.hpp: what its strand runs, one handler at a time. What asio does is
-- the events of Connection/Trace.antt. `shutdown` throws where the socket has no peer, and so does the
-- `remote_endpoint` that the logged lines ask for. The exception leaves the strand, since every handler
-- that catches one calls `stop` again, which throws then, too: the result is `none`, as for a null pointer.
mod State
pub mod Trace
pub mod Writing
pub mod Sending
pub mod Kept
pub mod Receiving
pub mod Closing
pub mod Channel
mod Tests
pub use State.*
use otservpp.Base.{
  ℕ, suc, ◌+◌, List, [], ◌∷◌, ◌++◌, Option, none, some, Bool, true, false, not, ◌||◌, ◌&&◌,
  if◌then◌else◌,
}
use otservpp.Base.Options.{◌>>=◌}

module _ {T : Traits} where
  unfoldable pub create : Connection T
  create = record {
    close_status = record { read_closed = false; write_closed = false };
    out_msg_queue = [];
    protocol = false;
    attached = true;
    peer_is_open = true;
    peer_is_connected = true;
    read_timer = false;
    write_timer = false;
    read = no_read;
    writes = [];
    accepted = [];
    written = [];
    handled = [];
  }

  unfoldable pub is_receiving : Connection T → Bool
  is_receiving s = not s.close_status.read_closed

  unfoldable pub is_sending : Connection T → Bool
  is_sending s = not s.close_status.write_closed

  unfoldable pub is_stopped : Connection T → Bool
  is_stopped s = s.close_status.read_closed || s.close_status.write_closed

  unfoldable pub is_alive : Connection T → Bool
  is_alive s = not (is_stopped s) && s.peer_is_open

  -- What a stop leaves that does not throw.
  unfoldable pub closed : Connection T → Connection T
  closed s = record s {
    close_status = record { read_closed = true; write_closed = true };
    read_timer = false;
    write_timer = false;
    peer_is_open = false;
    peer_is_connected = false;
    protocol = false;
  }

  unfoldable pub stop : Connection T → Option (Connection T)
  stop s = if s.peer_is_connected then some (closed s) else none

  unfoldable pub stop_receiving : Connection T → Option (Connection T)
  stop_receiving s =
      if s.peer_is_connected
      then some (record s { close_status = record s.close_status { read_closed = true } })
      else none

  unfoldable pub stop_sending : Connection T → Option (Connection T)
  stop_sending s =
      if s.peer_is_connected
      then some (record s { close_status = record s.close_status { write_closed = true } })
      else none

  -- `protocol->connectionLost()`, which is BasicProtocol's: it lets the connection go.
  unfoldable pub connection_lost : Connection T → Connection T
  connection_lost s = record s { attached = false }

  -- `abort()`, where the pointer to the protocol may be null.
  unfoldable pub abort : Connection T → Option (Connection T)
  abort s = if s.protocol then stop (connection_lost s) else none

  unfoldable pub abort_on : ErrorCode → Connection T → Option (Connection T)
  abort_on operation_aborted s = some s
  abort_on other_error s = abort s

  unfoldable pub update_read_timer : Connection T → Connection T
  update_read_timer s = record s { read_timer = true }

  unfoldable pub update_write_timer : Connection T → Connection T
  update_write_timer s = record s { write_timer = true }

  -- `none` is `front()` of an empty queue.
  unfoldable pub do_send : AfterSend → Connection T → Option (Connection T)
  do_send after s = elim s.out_msg_queue [
    | [] ↦ none
    | msg ∷ msgs ↦ elim (T.encode msg) [
      | none ↦ abort (update_write_timer s)
      | some bytes ↦ some (record (update_write_timer s) {
        writes = s.writes ++ record { bytes = bytes; after = after } ∷ [];
      })
    ]
  ]

  unfoldable pub emplace_back : T.OutgoingMessage → Connection T → Connection T
  emplace_back msg s = record s {
    out_msg_queue = s.out_msg_queue ++ msg ∷ [];
    accepted = s.accepted ++ msg ∷ [];
  }

  unfoldable pub try_send_or_enqueue_then :
      T.OutgoingMessage → AfterSend → Connection T → Option (Connection T)
  try_send_or_enqueue_then msg after s =
      if is_sending s
      then elim s.out_msg_queue [
        | [] ↦ do_send after (emplace_back msg s)
        | m ∷ ms ↦ some (emplace_back msg s)
      ]
      else some s

  unfoldable pub send : T.OutgoingMessage → Connection T → Option (Connection T)
  send msg s = try_send_or_enqueue_then msg keeps_sending s

  unfoldable pub send_and_stop : T.OutgoingMessage → Connection T → Option (Connection T)
  send_and_stop msg s = try_send_or_enqueue_then msg stops s

  unfoldable pub keep_sending : Connection T → Option (Connection T)
  keep_sending s = elim s.out_msg_queue [
    | [] ↦ some (record s { write_timer = false })
    | m ∷ ms ↦ do_send keeps_sending s
  ]

  unfoldable pub run_after : AfterSend → Connection T → Option (Connection T)
  run_after keeps_sending s = keep_sending s
  run_after stops s = stop s

  -- The handler of `async_write` where it is given no error; `none` where no write was made or
  -- `pop_front()` is called on an empty queue.
  unfoldable pub on_written : Connection T → Option (Connection T)
  on_written s = elim s.writes [
    | [] ↦ none
    | w ∷ ws ↦ elim s.out_msg_queue [
      | [] ↦ none
      | msg ∷ msgs ↦
          run_after w.after
            (record s { out_msg_queue = msgs; writes = ws; written = s.written ++ w.bytes ∷ [] })
    ]
  ]

  -- The same handler with an error.
  unfoldable pub on_write_error : ErrorCode → Connection T → Option (Connection T)
  on_write_error e s = elim s.writes [ [] ↦ none | w ∷ ws ↦ abort_on e (record s { writes = ws }) ]

  unfoldable pub parse_incoming_message : ProtocolHandler → Connection T → Connection T
  parse_incoming_message handler s = record (update_read_timer s) { read = header handler }

  unfoldable pub start : Connection T → Connection T
  start s = parse_incoming_message first_message (record s { protocol = true })

  unfoldable pub call : Call T.OutgoingMessage → Connection T → Option (Connection T)
  call (calls_send msg) s = send msg s
  call (calls_send_and_stop msg) s = send_and_stop msg s
  call calls_stop s = stop s
  call calls_stop_receiving s = stop_receiving s
  call calls_stop_sending s = stop_sending s

  unfoldable pub calls : List (Call T.OutgoingMessage) → Connection T → Option (Connection T)
  calls [] s = some s
  calls (c ∷ cs) s = call c s >>= calls cs

  -- The handler of the read of a header, with whether `parseHeaderAndGetBodyBuffer` takes what stands at
  -- the position of the message.
  unfoldable pub on_header_read : ProtocolHandler → Bool → Connection T → Option (Connection T)
  on_header_read handler parsed s =
      if is_receiving s
      then if parsed
        then some (record (update_read_timer s) { read = body handler })
        else abort (record (update_read_timer s) { read = no_read })
      else some (record s { read = no_read })

  -- The handler of the read of a body, with what the protocol's handler does and whether it throws;
  -- `none` is the use of a null pointer.
  unfoldable pub on_body_read :
      ProtocolHandler → List (Call T.OutgoingMessage) → Bool → Connection T → Option (Connection T)
  on_body_read handler cs throws s =
      if is_receiving s
      then if s.protocol
        then (calls cs
              (record s { read = no_read; read_timer = false; handled = s.handled ++ handler ∷ [] })
            >>= λ s1.
                if throws
                then abort s1
                else if is_receiving s1
                then some (parse_incoming_message message s1)
                else some s1)
        else none
      else some (record s { read = no_read })

  -- The handler of both where it is given an error, and that of the timers.
  unfoldable pub on_read_error : ErrorCode → Connection T → Option (Connection T)
  on_read_error e s = abort_on e (record s { read = no_read })

  unfoldable pub on_timer : ErrorCode → Connection T → Option (Connection T)
  on_timer e s = abort_on e s
