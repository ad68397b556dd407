-- ===== src/Protocol/Connection/State.antt =====
-- The members of Connection of protocol/connection.hpp, and what asio and the protocol are given.
use otservpp.Base.{ℕ, List, Option, Bool}

-- ProtocolTraits: the messages of a protocol. `encode` is `encode()` and then `getBuffer()`, or
-- `none` where `encode()` throws.
pub record Traits : Type 1 where
  pub OutgoingMessage : Type 0
  pub encode : OutgoingMessage → Option (List ℕ)

-- The bits of `closeStatus`.
pub record CloseStatus : Type 0 where
  pub read_closed : Bool
  pub write_closed : Bool

-- What is called when a message was written: the lambdas of `send` and `sendAndStop`.
pub data AfterSend : Type 0 where
  keeps_sending : AfterSend
  stops : AfterSend

-- A `boost::system::error_code`, as far as `abort` looks at it: it may be any but `operation_aborted`.
-- The end of a timer comes with no error, which is such a code.
pub data ErrorCode : Type 0 where
  operation_aborted : ErrorCode
  other_error : ErrorCode

-- ProtocolFirstMessageHandler and ProtocolMessageHandler.
pub data ProtocolHandler : Type 0 where
  first_message : ProtocolHandler
  message : ProtocolHandler

-- The read that asio was given.
pub data Read : Type 0 where
  no_read : Read
  header : ProtocolHandler → Read
  body : ProtocolHandler → Read

-- What a handler of the protocol does with its connection.
pub data Call (Message : Type 0) : Type 0 where
  calls_send : Message → Call Message
  calls_send_and_stop : Message → Call Message
  calls_stop : Call Message
  calls_stop_receiving : Call Message
  calls_stop_sending : Call Message

pub record Write : Type 0 where
  pub bytes : List ℕ
  pub after : AfterSend

module _ (T : Traits) where
  -- The members; `protocol` is whether the pointer is set, `attached` whether the protocol still has
  -- its pointer to the connection, `peer_is_connected` whether the socket has a peer still, and `writes` the writes that asio was given and has not completed.
  -- The last three are a log: the messages put in the queue, what was written, and the calls of the
  -- protocol's handlers.
  pub record Connection : Type 0 where
    pub close_status : CloseStatus
    pub out_msg_queue : List T.OutgoingMessage
    pub protocol : Bool
    pub attached : Bool
    pub peer_is_open : Bool
    pub peer_is_connected : Bool
    pub read_timer : Bool
    pub write_timer : Bool
    pub read : Read
    pub writes : List Write
    pub accepted : List T.OutgoingMessage
    pub written : List (List ℕ)
    pub handled : List ProtocolHandler
