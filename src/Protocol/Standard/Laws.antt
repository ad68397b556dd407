-- ===== src/Protocol/Standard/Laws.antt =====
-- What a protocol does with packets that are wrong, and with handlers that come late.
use otservpp.Base.{ℕ, ◌≡◌, refl, ◌∙◌, inl, inr, Bool, true, if◌then◌else◌, Bool-cases}
use otservpp.Message.In.{InMessage, Reader, Outcome, ok, packet_exception, fault}
use otservpp.Message.In.Standard.{do_checksum}
use otservpp.Protocol.Connection.{Traits, is_stopped, is_alive, stop, closed, stop_receiving}
use otservpp.Protocol.Standard.{
  Session, Result, done, bad_packet, exception, undefined, Handler, ◌>=>◌, reads, on_connection,
  stop_connection, handle_packet_exception, catch_packet, wrap_handler, handle_first_message,
}

abbrev pub stopped : {T : Traits} → Session T → Session T
stopped s = record s { connection = closed s.connection }

if_true : {A : Type 0} (b : Bool) (x y : A) → b ≡ true → (if b then x else y) ≡ x
if_true b x y e = rw e refl

pub stop_connection_lem :
    {T : Traits} (s : Session T)
    → s.connection.attached ≡ true
    → s.connection.peer_is_connected ≡ true
    → stop_connection s ≡ done (stopped s)
unfolding stop_connection stop
stop_connection_lem s e there = if_true s.connection.attached _ _ e ∙ rw there refl

-- Once a direction of its connection is closed, a wrapped handler is not called: in its place the
-- connection is stopped.
pub wrap_handler-stopped :
    {T : Traits} (h : Handler T) (s : Session T)
    → s.connection.attached ≡ true
    → s.connection.peer_is_connected ≡ true
    → is_stopped s.connection ≡ true
    → wrap_handler h s ≡ done (stopped s)
unfolding wrap_handler is_alive
wrap_handler-stopped h s e there ended =
    if_true s.connection.attached _ _ e ∙ rw ended (stop_connection_lem s e there)

-- A predicate on the state that a function ends in, if it ends without an exception.
abbrev pub Ends : {T : Traits} → (Session T → Type 0) → Result T → Type 0
Ends P (done s) = P s
Ends P (bad_packet s) = Unit
Ends P (exception s) = Unit
Ends P undefined = Unit

-- Receiving is stopped, and the protocol has its connection, which has its peer.
abbrev pub IsDeaf : {T : Traits} → Session T → Type 0
IsDeaf s =
    (s.connection.close_status.read_closed ≡ true)
    × (s.connection.attached ≡ true)
    × (s.connection.peer_is_connected ≡ true)

pub reads-IsDeaf :
    {T : Traits} {A : Type 0} (r : Reader A) (f : A → Handler T) (s : Session T)
    → ((a : A) (s' : Session T) → r s.msg ≡ ok a s'.msg → IsDeaf s' → Ends IsDeaf (f a s'))
    → IsDeaf s
    → Ends IsDeaf (reads r f s)
reads-IsDeaf r f s h deaf = go (r s.msg) refl
  where
    go :
        (o : Outcome _)
        → r s.msg ≡ o
        → Ends IsDeaf (elim o [
          | ok a m ↦ f a (record s { msg = m })
          | packet_exception m ↦ bad_packet (record s { msg = m })
          | fault ↦ undefined
        ])
    go (ok a m) e = h a (record s { msg = m }) e deaf
    go (packet_exception m) e = tt
    go fault e = tt

pub and_then-Ends :
    {T : Traits} (P : Session T → Type 0) (f g : Handler T) (s : Session T)
    → Ends P (f s)
    → ((s' : Session T) → P s' → Ends P (g s'))
    → Ends P ((f >=> g) s)
and_then-Ends P f g s h k = go (f s) h
  where
    go :
        (r : Result _)
        → Ends P r
        → Ends P (elim r [
          | done s' ↦ g s'
          | bad_packet s' ↦ bad_packet s'
          | exception s' ↦ exception s'
          | undefined ↦ undefined
        ])
    go (done s') h = k s' h
    go (bad_packet s') h = tt
    go (exception s') h = tt
    go undefined h = tt

pub stop_receiving-IsDeaf :
    {T : Traits} (s : Session T)
    → s.connection.attached ≡ true
    → Ends IsDeaf (on_connection stop_receiving s)
unfolding stop_receiving
stop_receiving-IsDeaf s attached = elim (Bool-cases s.connection.peer_is_connected) [
  | inl there ↦ rw (attached, there) (refl, refl, refl)
  | inr gone ↦ rw (attached, gone) tt
]

-- A first message whose checksum is wrong or which is too short for one stops the connection that has its
-- peer, and the protocol does not get to see it.
pub handle_first_message-bad :
    {T : Traits} (fast : ℕ) (on_first_message : Handler T) (s : Session T) (m : InMessage)
    → s.connection.attached ≡ true
    → s.connection.peer_is_connected ≡ true
    → do_checksum fast s.msg ≡ packet_exception m
    → handle_first_message fast on_first_message s ≡ done (stopped (record s { msg = m }))
unfolding handle_first_message handle_packet_exception
handle_first_message-bad fast on_first_message s m e there bad =
    rw (catch_packet, bad) (stop_connection_lem (record s { msg = m }) e there)
