-- ===== src/Protocol/Connection/Channel.antt =====
-- What the sending side of Connection of protocol/connection.hpp is to its protocol: a channel that takes
-- messages while it is open, and delivers them in order.
use otservpp.Base.{
  ℕ, ◌≡◌, subst, List, [], ◌∷◌, ◌++◌, some, Bool, true, false, Option-cases, inl, inr,
}
use otservpp.Base.Options.{Always, Always-bind, Always-if}
use otservpp.Protocol.Connection.{
  Traits, Connection, Call, calls_send, calls_send_and_stop, calls_stop, calls_stop_receiving,
  calls_stop_sending, ErrorCode, operation_aborted, other_error, AfterSend, keeps_sending, stops,
  Write, create, start, stop, closed, abort, abort_on, connection_lost, do_send, emplace_back,
  try_send_or_enqueue_then, send, send_and_stop, keep_sending, run_after, on_written,
  on_write_error, call, calls, on_header_read, on_body_read, on_read_error, on_timer, is_sending,
  is_receiving, update_write_timer, update_read_timer, parse_incoming_message, stop_receiving,
  stop_sending,
}
use otservpp.Protocol.Connection.Trace.{
  Event, owner_calls, written, write_fails, header_arrives, body_arrives, read_fails, timer_ends,
  peer_leaves, run, Reachable, started, step,
}
use otservpp.Protocol.Connection.Writing.{OneWrite}
use otservpp.Protocol.Connection.Sending.{Reachable-OneWrite}

module _ (T : Traits) where
  -- The specification: what was delivered, what waits, and whether the channel is closed.
  pub record Channel : Type 0 where
    pub delivered : List (List ℕ)
    pub waiting : List T.OutgoingMessage
    pub closed : Bool

  abbrev pub channel : List (List ℕ) → List T.OutgoingMessage → Bool → Channel
  channel d q b = record { delivered = d; waiting = q; closed = b }

  -- It takes a message while it is open, it delivers the encoding of the first one that waits, and it is
  -- closed for good.
  pub data Steps (c : Channel) : Channel → Type 0 where
    stays : Steps c c
    takes :
        {d : List (List ℕ)} {q : List T.OutgoingMessage} (m : T.OutgoingMessage)
        → Steps c (channel d q false)
        → Steps c (channel d (q ++ m ∷ []) false)
    delivers :
        {d : List (List ℕ)} {q : List T.OutgoingMessage} {b : Bool} (m : T.OutgoingMessage)
        (bytes : List ℕ)
        → T.encode m ≡ some bytes
        → Steps c (channel d (m ∷ q) b)
        → Steps c (channel (d ++ bytes ∷ []) q b)
    closes :
        {d : List (List ℕ)} {q : List T.OutgoingMessage} {b : Bool}
        → Steps c (channel d q b)
        → Steps c (channel d q true)

  -- The channel that a connection is.
  abbrev pub channel_of : Connection T → Channel
  channel_of s = channel s.written s.out_msg_queue s.close_status.write_closed

  module _ (c : Channel) where
    abbrev pub Follows : Connection T → Type 0
    Follows s = Steps c (channel_of s)

    abort-Follows : (s : Connection T) → Follows s → Always Follows (abort s)
    unfolding abort connection_lost stop closed
    abort-Follows s h =
        Always-if Follows s.protocol _ _
          (λ e. Always-if Follows s.peer_is_connected _ _ (λ k. closes h) (λ k. tt)) (λ e. tt)

    abort_on-Follows :
        (e : ErrorCode) (s : Connection T) → Follows s → Always Follows (abort_on e s)
    unfolding abort_on
    abort_on-Follows operation_aborted s h = h
    abort_on-Follows other_error s h = abort-Follows s h

    do_send-Follows :
        (after : AfterSend) (q : List T.OutgoingMessage) (s : Connection T)
        → Follows (record s { out_msg_queue = q })
        → Always Follows (do_send after (record s { out_msg_queue = q }))
    unfolding do_send update_write_timer
    do_send-Follows after [] s h = tt
    do_send-Follows after (m ∷ ms) s h = elim (Option-cases (T.encode m)) [
      | inl e ↦
          rw (Always, e)
            (abort-Follows (record (update_write_timer s) { out_msg_queue = m ∷ ms }) h)
      | inr (bytes, e) ↦ rw (Always, e) h
    ]

    run_after-Follows :
        (after : AfterSend) (q : List T.OutgoingMessage) (s : Connection T)
        → Follows (record s { out_msg_queue = q })
        → Always Follows (run_after after (record s { out_msg_queue = q }))
    unfolding run_after stop closed keep_sending
    run_after-Follows stops q s h =
        Always-if Follows s.peer_is_connected _ _ (λ e. closes h) (λ e. tt)
    run_after-Follows keeps_sending [] s h = h
    run_after-Follows keeps_sending (m ∷ ms) s h = do_send-Follows keeps_sending (m ∷ ms) s h

    on_written-Follows :
        (q : List T.OutgoingMessage) (w : List Write) (s : Connection T)
        → OneWrite T q w s.close_status.write_closed
        → Follows (record s { out_msg_queue = q; writes = w })
        → Always Follows (on_written (record s { out_msg_queue = q; writes = w }))
    unfolding on_written
    on_written-Follows q [] s one h = tt
    on_written-Follows [] (w ∷ ws) s one h = tt
    on_written-Follows (m ∷ ms) (w ∷ []) s one h =
        run_after-Follows w.after ms (record s { written = s.written ++ w.bytes ∷ []; writes = [] })
          (delivers m w.bytes one h)
    on_written-Follows (m ∷ ms) (w ∷ v ∷ ws) s one h = absurd one

    on_write_error-Follows :
        (e : ErrorCode) (w : List Write) (s : Connection T)
        → Follows s
        → Always Follows (on_write_error e (record s { writes = w }))
    unfolding on_write_error
    on_write_error-Follows e [] s h = tt
    on_write_error-Follows e (w ∷ ws) s h = abort_on-Follows e (record s { writes = ws }) h

    try_send-Follows :
        (msg : T.OutgoingMessage) (after : AfterSend) (q : List T.OutgoingMessage) (closed : Bool)
        (s : Connection T)
        → Follows (record s {
          out_msg_queue = q;
          close_status = record s.close_status { write_closed = closed };
        })
        → Always Follows (
            try_send_or_enqueue_then msg after (record s {
              out_msg_queue = q;
              close_status = record s.close_status { write_closed = closed };
            }))
    unfolding try_send_or_enqueue_then emplace_back is_sending
    try_send-Follows msg after q true s h = h
    try_send-Follows msg after [] false s h =
        do_send-Follows after (msg ∷ [])
          (record s {
            accepted = s.accepted ++ msg ∷ [];
            close_status = record s.close_status { write_closed = false };
          })
          (takes msg h)
    try_send-Follows msg after (m ∷ ms) false s h = takes msg h

    call-Follows :
        (x : Call T.OutgoingMessage) (s : Connection T) → Follows s → Always Follows (call x s)
    unfolding call send send_and_stop stop_receiving stop_sending stop closed
    call-Follows (calls_send m) s h =
        try_send-Follows m keeps_sending s.out_msg_queue s.close_status.write_closed s h
    call-Follows (calls_send_and_stop m) s h =
        try_send-Follows m stops s.out_msg_queue s.close_status.write_closed s h
    call-Follows calls_stop s h =
        Always-if Follows s.peer_is_connected _ _ (λ e. closes h) (λ e. tt)
    call-Follows calls_stop_receiving s h =
        Always-if Follows s.peer_is_connected _ _ (λ e. h) (λ e. tt)
    call-Follows calls_stop_sending s h =
        Always-if Follows s.peer_is_connected _ _ (λ e. closes h) (λ e. tt)

    calls-Follows :
        (xs : List (Call T.OutgoingMessage)) (s : Connection T)
        → Follows s
        → Always Follows (calls xs s)
    unfolding calls
    calls-Follows [] s h = h
    calls-Follows (x ∷ xs) s h =
        Always-bind Follows Follows (call x s) (calls xs) (call-Follows x s h)
          (λ s' h'. calls-Follows xs s' h')

    run-Follows :
        (e : Event T.OutgoingMessage) (s : Connection T)
        → OneWrite T s.out_msg_queue s.writes s.close_status.write_closed
        → Follows s
        → Always Follows (run e s)
    unfolding run on_header_read on_body_read on_read_error on_timer update_read_timer
        parse_incoming_message
    run-Follows (owner_calls x) s one h = call-Follows x s h
    run-Follows written s one h = on_written-Follows s.out_msg_queue s.writes s one h
    run-Follows (write_fails e) s one h = on_write_error-Follows e s.writes s h
    run-Follows (header_arrives p parsed) s one h =
        Always-if Follows (is_receiving s) _ _
          (λ e. Always-if Follows parsed _ _ (λ e'. h) (λ e'. abort-Follows _ h)) (λ e. h)
    run-Follows (body_arrives p xs throws) s one h =
        Always-if Follows (is_receiving s) _ _
          (λ e.
            Always-if Follows s.protocol _ _
              (λ e'. Always-bind Follows Follows (calls xs _) _ (calls-Follows xs _ h) (λ s1 h1.
                Always-if Follows throws _ _ (λ e''. abort-Follows s1 h1)
                  (λ e''. Always-if Follows (is_receiving s1) _ _ (λ k. h1) (λ k. h1))))
              (λ e'. tt))
          (λ e. h)
    run-Follows (read_fails e) s one h = abort_on-Follows e _ h
    run-Follows (timer_ends e) s one h = abort_on-Follows e s h
    run-Follows peer_leaves s one h = h

  -- Every run of a connection is a run of the channel that starts empty and open: messages are taken only
  -- while it is open, and delivered in the order in which they were taken.
  pub Reachable-Follows : {s : Connection T} → Reachable T s → Follows (channel [] [] false) s
  unfolding create start parse_incoming_message update_read_timer
  Reachable-Follows started = stays
  Reachable-Follows (step {s = s} e r ok ran) =
      subst (Always (Follows _)) ran
        (run-Follows _ e s (Reachable-OneWrite T r) (Reachable-Follows r))

  -- Each event is some steps of the channel.
  pub run-Steps :
      {s s' : Connection T} (e : Event T.OutgoingMessage)
      → Reachable T s
      → run e s ≡ some s'
      → Steps (channel_of s) (channel_of s')
  run-Steps {s} e r ran =
      subst (Always (Follows (channel_of s))) ran
        (run-Follows (channel_of s) e s (Reachable-OneWrite T r) stays)
