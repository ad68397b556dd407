-- ===== src/Protocol/Connection/Closing.antt =====
-- How a connection ends: what is closed stays closed, and what sendAndStop does.
use otservpp.Base.{
  ℕ, zero, suc, ◌≡◌, refl, sym, ap, ◌∙◌, subst, List, [], ◌∷◌, ◌++◌, Option, none, some, true,
  false, length, append_assoc,
}
use otservpp.Base.Options.{◌>>=◌}
use otservpp.Protocol.Connection.{
  Traits, Connection, keeps_sending, Write, other_error, stop, closed, abort, do_send, emplace_back,
  try_send_or_enqueue_then, send, send_and_stop, keep_sending, run_after, on_written, on_read_error,
  on_timer, on_write_error, abort_on, is_sending, is_stopped, is_alive, update_write_timer,
}

-- A state by its queue and its writes.
abbrev with : {T : Traits} → Connection T → List T.OutgoingMessage → List Write → Connection T
with s q w = record s { out_msg_queue = q; writes = w }

with_same :
    {T : Traits} (s : Connection T) {q : List T.OutgoingMessage} {w : List Write}
    → s.out_msg_queue ≡ q
    → s.writes ≡ w
    → with s q w ≡ s
with_same s {w = w} queue busy =
    ap (λ q. with s q w) (sym queue) ∙ ap (with s s.out_msg_queue) (sym busy)

abbrev after_last : {T : Traits} → Connection T → T.OutgoingMessage → List ℕ → Connection T
after_last s m bytes = record s {
  out_msg_queue = [];
  writes = [];
  write_timer = true;
  accepted = s.accepted ++ m ∷ [];
  written = s.written ++ bytes ∷ [];
}

idle_lem :
    {T : Traits} (s : Connection T) (m : T.OutgoingMessage) (bytes : List ℕ)
    → is_sending s ≡ true
    → T.encode m ≡ some bytes
    → s.peer_is_connected ≡ true
    → (send_and_stop m (with s [] []) >>= on_written) ≡ some (closed (after_last s m bytes))
unfolding send_and_stop try_send_or_enqueue_then emplace_back do_send update_write_timer on_written
    run_after is_sending stop
idle_lem s m bytes sending e there = rw (sending, ◌>>=◌, e, ◌>>=◌, there) refl

-- On a connection that has a peer, sends and has nothing in its queue, `sendAndStop` writes the message, and when
-- it is written the connection is stopped: both directions and the socket are closed, and the
-- protocol is let go.
pub send_and_stop-idle :
    {T : Traits} (s : Connection T) (m : T.OutgoingMessage) (bytes : List ℕ)
    → is_sending s ≡ true
    → s.out_msg_queue ≡ []
    → s.writes ≡ []
    → T.encode m ≡ some bytes
    → s.peer_is_connected ≡ true
    → (s' : Connection T) × ((send_and_stop m s >>= on_written) ≡ some s')
      × (s'.written ≡ s.written ++ bytes ∷ [])
      × (is_stopped s' ≡ true)
      × (is_alive s' ≡ false)
      × (s'.protocol ≡ false)
unfolding closed is_stopped is_alive
send_and_stop-idle s m bytes sending empty idle e there = (
  closed (after_last s m bytes),
  subst (λ x. (send_and_stop m x >>= on_written) ≡ some (closed (after_last s m bytes)))
      (with_same s empty idle) (idle_lem s m bytes sending e there),
  refl,
  refl,
  refl,
  refl,
)

-- Behind a message that is being written, `sendAndStop` does what `send` does: the call that would
-- stop the connection is dropped.
pub send_and_stop-waiting :
    {T : Traits} (s : Connection T) (m n : T.OutgoingMessage) (ms : List T.OutgoingMessage)
    → s.out_msg_queue ≡ n ∷ ms
    → send_and_stop m s ≡ send m s
unfolding send_and_stop send try_send_or_enqueue_then
send_and_stop-waiting s m n ms waiting = rw waiting refl

-- A connection that lost its protocol, as a stop leaves it, meets a read, a write or a timer that
-- ends with an error other than `operation_aborted` by the use of a null pointer.
pub stop-on_error :
    {T : Traits} (s : Connection T) (w : Write) (ws : List Write)
    → s.writes ≡ w ∷ ws
    → (on_read_error other_error (closed s) ≡ none)
      × (on_timer other_error (closed s) ≡ none)
      × (on_write_error other_error (closed s) ≡ none)
unfolding on_read_error on_timer on_write_error abort_on abort closed
stop-on_error s w ws busy = (refl, refl, rw busy refl)

-- What happens in the success of so many writes, one after another.
abbrev pub writes_succeed : {T : Traits} → ℕ → Connection T → Option (Connection T)
writes_succeed zero s = some s
writes_succeed (suc n) s = on_written s >>= writes_succeed n

-- The bytes of a queue every message of which can be encoded.
pub data Encodes (T : Traits) : List T.OutgoingMessage → List (List ℕ) → Type 0 where
  encodes_none : Encodes T [] []
  encodes :
      {m : T.OutgoingMessage} {ms : List T.OutgoingMessage} {bytes : List ℕ} {rest : List (List ℕ)}
      → T.encode m ≡ some bytes
      → Encodes T ms rest
      → Encodes T (m ∷ ms) (bytes ∷ rest)

drain_first :
    {T : Traits} (s : Connection T) (m : T.OutgoingMessage) {ms : List T.OutgoingMessage}
    (bytes : List ℕ) {rest : List (List ℕ)}
    → Encodes T ms rest
    → (s' : Connection T) × (writes_succeed (suc (length ms)) (record s {
      out_msg_queue = m ∷ ms;
      writes = record { bytes = bytes; after = keeps_sending } ∷ [];
    })
        ≡ some s')
      × (s'.out_msg_queue ≡ [])
      × (s'.writes ≡ [])
      × (s'.write_timer ≡ false)
      × (s'.written ≡ s.written ++ bytes ∷ rest)
unfolding on_written run_after keep_sending do_send update_write_timer
drain_first s m bytes encodes_none = (_, refl, refl, refl, refl, refl)
drain_first s m bytes (encodes {m = n} {ms = ns} {bytes = b} {rest = rest} e es) =
    let (s', runs, queue, idle, timer, done) =
      drain_first (record s { write_timer = true; written = s.written ++ bytes ∷ [] }) n b es in
    (
      s',
      rw (◌>>=◌, e, ◌>>=◌) runs,
      queue,
      idle,
      timer,
      done ∙ append_assoc s.written (bytes ∷ []) (b ∷ rest),
    )

-- Where the first message is being written for `send` and the others can be encoded, the success of as
-- many writes as messages wait is enough: every message is written, in order, nothing is left to
-- write, and the write timer is cancelled.
pub drain_lem :
    {T : Traits} (s : Connection T) {m : T.OutgoingMessage} {ms : List T.OutgoingMessage}
    {bytes : List ℕ} {rest : List (List ℕ)}
    → s.out_msg_queue ≡ m ∷ ms
    → s.writes ≡ record { bytes = bytes; after = keeps_sending } ∷ []
    → Encodes T ms rest
    → (s' : Connection T) × (writes_succeed (length (m ∷ ms)) s ≡ some s')
      × (s'.out_msg_queue ≡ [])
      × (s'.writes ≡ [])
      × (s'.write_timer ≡ false)
      × (s'.written ≡ s.written ++ bytes ∷ rest)
drain_lem {T = T} s {m = m} {ms = ms} {bytes = bytes} queue busy es =
    let (s', runs, empty, idle, timer, done) = drain_first s m bytes es in
    (
      s',
      subst (λ x. writes_succeed (length (m ∷ ms)) x ≡ some s') (with_same s queue busy) runs,
      empty,
      idle,
      timer,
      done,
    )
