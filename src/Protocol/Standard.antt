-- ===== src/Protocol/Standard.antt =====
-- BasicProtocol of protocol/basicprotocol.hpp and StandardProtocol of protocol/standardprotocol.hpp.
pub mod Laws
use otservpp.Base.{ℕ, List, Option, none, some, Bool, true, false, if◌then◌else◌}
use otservpp.Base.Options.{◌>>=◌}
use otservpp.Crypto.Xtea.{Key}
use otservpp.Message.In.{InMessage, Reader, Outcome, ok, packet_exception, fault}
use otservpp.Message.In.Standard.{do_checksum, xtea_decrypt}
use otservpp.Message.Out.{OutMessage}
use otservpp.Message.Out.Standard.{add_header, xtea_encrypt}
use otservpp.Protocol.Connection.{Traits, Connection, is_alive, stop}
use otservpp.Protocol.Connection.{
  send as connection_send, send_and_stop as connection_send_and_stop,
}

-- The connection of a protocol, the message that it is handed, and its key.
pub record Session (T : Traits) : Type 0 where
  pub connection : Connection T
  pub msg : InMessage
  pub xtea : Key

-- How a member function ends: with a PacketException, another `std::exception`, or, as `undefined`, the
-- use of a null pointer or of memory out of bounds, or an exception of a socket that has no peer. Where the
-- latter is caught, the `droppingLogInfo()` that is logged and the `stop()` that follows throw again, so
-- that it leaves the handler.
pub data Result (T : Traits) : Type 0 where
  done : Session T → Result T
  bad_packet : Session T → Result T
  exception : Session T → Result T
  undefined : Result T

abbrev pub Handler : Traits → Type 0
Handler T = Session T → Result T

-- One function after another.
infixl 5 ◌>=>◌
abbrev pub ◌>=>◌ : {T : Traits} → Handler T → Handler T → Handler T
◌>=>◌ f g s = elim (f s) [
  | done s' ↦ g s'
  | bad_packet s' ↦ bad_packet s'
  | exception s' ↦ exception s'
  | undefined ↦ undefined
]

-- A read of the message, and what is done with the value.
abbrev pub reads : {T : Traits} {A : Type 0} → Reader A → (A → Handler T) → Handler T
reads r f s = elim (r s.msg) [
  | ok a m ↦ f a (record s { msg = m })
  | packet_exception m ↦ bad_packet (record s { msg = m })
  | fault ↦ undefined
]

-- A call of the connection through the protocol's pointer, which connectionLost resets.
abbrev pub on_connection : {T : Traits} → (Connection T → Option (Connection T)) → Handler T
on_connection f s =
    if s.connection.attached
    then elim (f s.connection) [ none ↦ undefined | some c ↦ done (record s { connection = c }) ]
    else undefined

unfoldable pub stop_connection : {T : Traits} → Handler T
stop_connection = on_connection stop

unfoldable pub handle_packet_exception : {T : Traits} → Handler T
handle_packet_exception = stop_connection

-- `catch(PacketException&)`.
abbrev pub catch_packet : {T : Traits} → Result T → Result T
catch_packet (done s) = done s
catch_packet (bad_packet s) = handle_packet_exception s
catch_packet (exception s) = exception s
catch_packet undefined = undefined

-- `catch(std::exception&)`.
abbrev pub catch_all : {T : Traits} → Result T → Result T
catch_all (done s) = done s
catch_all (bad_packet s) = stop_connection s
catch_all (exception s) = stop_connection s
catch_all undefined = undefined

-- WrappedHandler.
unfoldable pub wrap_handler : {T : Traits} → Handler T → Handler T
wrap_handler h s =
    if s.connection.attached
    then if is_alive s.connection then catch_all (catch_packet (h s)) else stop_connection s
    else undefined

-- `fast` is the modulus of `uint_fast32_t`, and `on_message` the derived class's function.
unfoldable pub handle_first_message : {T : Traits} → ℕ → Handler T → Handler T
handle_first_message fast on_first_message s =
    catch_packet (reads (do_checksum fast) (λ _. on_first_message) s)

unfoldable pub handle_message : {T : Traits} → ℕ → Handler T → Handler T
handle_message fast on_message s =
    catch_packet
      (reads (do_checksum fast) (λ _ s. reads (xtea_decrypt s.xtea) (λ _. on_message) s) s)

unfoldable pub set_xtea : {T : Traits} → Key → Handler T
set_xtea key s = done (record s { xtea = key })

-- `addHeader()` and then `xteaEncrypt(xtea)`.
unfoldable pub seal : Key → OutMessage → Option OutMessage
seal key msg = add_header msg >>= xtea_encrypt key

-- The connection of a standard protocol takes StandardOutMessages.
abbrev pub standard_traits : (OutMessage → Option (List ℕ)) → Traits
standard_traits encode = record { OutgoingMessage = OutMessage; encode = encode }

module _ {encode : OutMessage → Option (List ℕ)} where
  unfoldable pub send_unencrypted : OutMessage → Handler (standard_traits encode)
  send_unencrypted msg s = elim (add_header msg) [
    | none ↦ undefined
    | some m ↦ on_connection (connection_send m) s
  ]

  unfoldable pub send : OutMessage → Handler (standard_traits encode)
  send msg s = elim (seal s.xtea msg) [
    | none ↦ undefined
    | some m ↦ on_connection (connection_send m) s
  ]

  unfoldable pub send_and_stop : OutMessage → Handler (standard_traits encode)
  send_and_stop msg s = elim (seal s.xtea msg) [
    | none ↦ undefined
    | some m ↦ on_connection (connection_send_and_stop m) s
  ]
