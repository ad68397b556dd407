-- ===== src/Protocol/Tests.antt =====
-- Instances of the laws of the protocols.
use otservpp.Base.{
  ℕ, ◌≡◌, refl, List, [], ◌∷◌, Option, none, some, Bool, true, false, length, map, replicate, arith,
}
use otservpp.Message.In
use otservpp.Message.In.{InMessage, Region, ok, packet_exception}
use otservpp.Message.Out
use otservpp.Message.Out.{OutMessage, get_buffer}
use otservpp.Message.Out.Standard.{with_type}
use otservpp.Message.Fields.{Reads, read_fields, kind}
use otservpp.Protocol.Connection.{Connection, create, stop_receiving}
use otservpp.Protocol.Standard.{Session, done, standard_traits}
use otservpp.Protocol.Standard.Laws.{stopped}
use otservpp.Protocol.Login
use otservpp.Protocol.Login.{
  Data, Character, SucceedResult, LoginHandler, on_first_message, on_decrypted, on_account,
  send_character_list, character_list_message,
}
use otservpp.Protocol.Login.Laws.{
  character_list_fields, read_fields-character_list_message, login-stops,
}

abbrev somebody : Character
somebody = record { name = 65 ∷ []; world = 66 ∷ []; ip = 16777343; port = 7172 }

abbrev everybody : SucceedResult
everybody = record {
  motd_id = 49 ∷ [];
  motd = 72 ∷ [];
  character_list = replicate 256 somebody;
  premium_end = 0;
}

abbrev nearly_nobody : SucceedResult
nearly_nobody = record everybody { character_list = somebody ∷ [] }

abbrev data_used : Data
data_used = record {
  succeed_hook = λ account. some everybody;
  error_hook = λ e. none;
  trim = λ s. s;
  rsa = λ bytes. some bytes;
  encode = λ m. some (get_buffer m);
}

abbrev message_of : List ℕ → InMessage
message_of bytes = record { buffer = bytes; pos = 0; size = length bytes }

abbrev session : List ℕ → Session (standard_traits data_used.encode)
session bytes = record {
  connection = create;
  msg = message_of bytes;
  xtea = record { k0 = 1; k1 = 2; k2 = 3; k3 = 4 };
}

abbrev listed : List ℕ
listed =
    20 ∷ 3 ∷ 0 ∷ 49 ∷ 10 ∷ 72 ∷ 100 ∷ 1 ∷ 1 ∷ 0 ∷ 65 ∷ 1 ∷ 0 ∷ 66 ∷ 127 ∷ 0 ∷ 0 ∷ 1 ∷ 4 ∷ 28 ∷ []

read_fields-character_list_message_example :
    Reads
      (read_fields (map kind (character_list_fields nearly_nobody)))
      (message_of listed)
      (character_list_fields nearly_nobody)
      []
unfolding character_list_message Login.add_characters Login.add_character get_buffer Out.create
    Out.add Out.add_string with_type
read_fields-character_list_message_example =
    read_fields-character_list_message nearly_nobody (message_of listed) [] (omega arith)
      (omega arith) refl

-- The connection that receives no more.
abbrev receiving_stopped : Connection (standard_traits data_used.encode)
receiving_stopped = record create {
  close_status = record { read_closed = true; write_closed = false };
}

abbrev request : List ℕ
request = replicate 145 0

-- The session behind onFirstMessage, where the first message was `request`.
abbrev waiting : Session (standard_traits data_used.encode)
waiting = record (session request) {
  connection = receiving_stopped;
  msg = record { buffer = request; pos = 17; size = 145 };
}

login-stops_example :
    ((name_first success : Bool)
      → on_decrypted data_used name_first success waiting ≡ done (stopped waiting))
    × ((account : Option ℕ) → on_account data_used account waiting ≡ done (stopped waiting))
unfolding create on_first_message Login.after_validation Login.validate_ip_and_version In.skip_bytes
    In.get_number In.get_raw_chunk In.move_pos In.peek_raw_chunk In.get_remaining_size
    stop_receiving
login-stops_example = login-stops data_used (session request) waiting refl refl
