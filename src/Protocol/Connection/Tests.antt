-- ===== src/Protocol/Connection/Tests.antt =====
-- Instances of the laws of the connection: its messages are lists of bytes, and an empty one cannot
-- be encoded.
use otservpp.Base.{ℕ, ◌≡◌, refl, List, [], ◌∷◌, Option, none, some, true, false}
use otservpp.Protocol.Connection
use otservpp.Protocol.Connection.{
  Traits, Connection, Call, calls_send, calls_stop_receiving, AfterSend, keeps_sending, Write,
  create, start, send, send_and_stop, on_written, is_stopped, is_alive, stop, on_read_error,
  on_timer, on_write_error, other_error,
}
use otservpp.Protocol.Connection.Trace
use otservpp.Protocol.Connection.Trace.{owner_calls, written, Reachable, started, step}
use otservpp.Protocol.Connection.Receiving.{sequence, Reachable-handled}
use otservpp.Protocol.Connection.{first_message, message, header}
use otservpp.Protocol.Connection.Trace.{header_arrives, body_arrives}
use otservpp.Protocol.Connection.Channel.{Steps, channel, channel_of, Reachable-Follows}
use otservpp.Protocol.Connection.Writing.{InOrder}
use otservpp.Protocol.Connection.Sending.{Reachable-OneWrite, Reachable-InOrder}
use otservpp.Protocol.Connection.Closing.{writes_succeed, drain_lem, encodes, encodes_none}

abbrev encode_bytes : List ℕ → Option (List ℕ)
encode_bytes [] = none
encode_bytes (x ∷ xs) = some (x ∷ xs)

abbrev traits : Traits
traits = record { OutgoingMessage = List ℕ; encode = encode_bytes }

abbrev ready : Connection traits
ready = start create

-- Two messages were sent; the first is being written.
abbrev busy : Connection traits
busy = record ready {
  out_msg_queue = (1 ∷ 2 ∷ []) ∷ (3 ∷ []) ∷ [];
  writes = record { bytes = 1 ∷ 2 ∷ []; after = keeps_sending } ∷ [];
  accepted = (1 ∷ 2 ∷ []) ∷ (3 ∷ []) ∷ [];
  write_timer = true;
}

busy-Reachable : Reachable traits busy
unfolding Trace.run Connection.call send Connection.try_send_or_enqueue_then Connection.emplace_back
    Connection.do_send Connection.update_write_timer Connection.is_sending start create
    Connection.parse_incoming_message Connection.update_read_timer
busy-Reachable =
    step (owner_calls (calls_send (3 ∷ [])))
      (step (owner_calls (calls_send (1 ∷ 2 ∷ []))) started tt refl) tt refl

Reachable-OneWrite_example : encode_bytes (1 ∷ 2 ∷ []) ≡ some (1 ∷ 2 ∷ [])
Reachable-OneWrite_example = Reachable-OneWrite traits busy-Reachable

Reachable-InOrder_example :
    InOrder traits busy.written ((1 ∷ 2 ∷ []) ∷ (3 ∷ []) ∷ []) ((1 ∷ 2 ∷ []) ∷ (3 ∷ []) ∷ [])
Reachable-InOrder_example = Reachable-InOrder traits busy-Reachable

Reachable-Follows_example : Steps traits (channel traits [] [] false) (channel_of traits busy)
Reachable-Follows_example = Reachable-Follows traits busy-Reachable

drain_lem_example :
    (s' : Connection traits) × (writes_succeed 2 busy ≡ some s')
    × (s'.out_msg_queue ≡ [])
    × (s'.writes ≡ [])
    × (s'.write_timer ≡ false)
    × (s'.written ≡ (1 ∷ 2 ∷ []) ∷ (3 ∷ []) ∷ [])
unfolding start create Connection.parse_incoming_message Connection.update_read_timer
drain_lem_example = drain_lem busy refl refl (encodes refl encodes_none)

-- Two messages were handed to the protocol.
abbrev met : Connection traits
met = record ready { read = header message; handled = first_message ∷ message ∷ [] }

met-Reachable : Reachable traits met
unfolding Trace.run start create Connection.calls Connection.parse_incoming_message
    Connection.update_read_timer Connection.on_header_read Connection.on_body_read
    Connection.is_receiving
met-Reachable =
    step (body_arrives message [] false)
      (step (header_arrives message true)
        (step (body_arrives first_message [] false)
          (step (header_arrives first_message true) started refl refl) refl refl)
        refl refl)
      refl refl

Reachable-handled_example : first_message ∷ message ∷ [] ≡ sequence 2
Reachable-handled_example = Reachable-handled traits met-Reachable
