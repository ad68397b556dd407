-- ===== src/Protocol/Connection/Sending.antt =====
-- The outgoing messages of a connection: one write at a time, in the order of the calls.
use otservpp.Base.{refl, sym, subst, List, [], ◌∷◌}
use otservpp.Base.Options.{Always, Always-bind, Always-if}
use otservpp.Protocol.Connection.{
  Traits, Connection, Call, calls_send, calls_send_and_stop, calls_stop, calls_stop_receiving,
  calls_stop_sending, keeps_sending, stops, create, start, send, send_and_stop, call, calls,
  on_header_read, on_body_read, on_read_error, on_timer, is_receiving, update_read_timer,
  parse_incoming_message, stop_receiving, stop_sending,
}
use otservpp.Protocol.Connection.Trace.{
  Event, owner_calls, written, write_fails, header_arrives, body_arrives, read_fails, timer_ends,
  peer_leaves, run, Allowed, Reachable, started, step,
}
use otservpp.Protocol.Connection.Writing.{
  OneWrite, OneWrite-closed, InOrder, IsSound, stop-IsSound, IsSound-abort, abort_on-IsSound,
  on_written-IsSound, on_write_error-IsSound, try_send-IsSound,
}

module _ (T : Traits) where
  call-IsSound :
      (c : Call T.OutgoingMessage) (s : Connection T) → IsSound T s → Always (IsSound T) (call c s)
  unfolding call send send_and_stop stop_receiving stop_sending
  call-IsSound (calls_send m) s h = try_send-IsSound T m keeps_sending s.out_msg_queue s.writes s h
  call-IsSound (calls_send_and_stop m) s h = try_send-IsSound T m stops s.out_msg_queue s.writes s h
  call-IsSound calls_stop s h = stop-IsSound T s h
  call-IsSound calls_stop_receiving s h =
      Always-if (IsSound T) s.peer_is_connected _ _ (λ e. h) (λ e. tt)
  call-IsSound calls_stop_sending s (one, order, ended) =
      Always-if (IsSound T) s.peer_is_connected _ _
        (λ e. (
          OneWrite-closed T s.out_msg_queue s.writes s.close_status.write_closed one,
          order,
          λ h. refl,
        ))
        (λ e. tt)

  calls-IsSound :
      (cs : List (Call T.OutgoingMessage)) (s : Connection T)
      → IsSound T s
      → Always (IsSound T) (calls cs s)
  unfolding calls
  calls-IsSound [] s h = h
  calls-IsSound (c ∷ cs) s h =
      Always-bind (IsSound T) (IsSound T) (call c s) (calls cs) (call-IsSound c s h)
        (λ s' h'. calls-IsSound cs s' h')

  run-IsSound :
      (e : Event T.OutgoingMessage) (s : Connection T)
      → Allowed e s
      → IsSound T s
      → Always (IsSound T) (run e s)
  unfolding run on_header_read on_body_read on_read_error on_timer update_read_timer
      parse_incoming_message
  run-IsSound (owner_calls c) s ok h = call-IsSound c s h
  run-IsSound written s ok h = on_written-IsSound T s.out_msg_queue s.writes s h
  run-IsSound (write_fails e) s ok h = on_write_error-IsSound T e s.out_msg_queue s.writes s ok h
  run-IsSound (header_arrives p parsed) s ok h =
      Always-if (IsSound T) (is_receiving s) _ _
        (λ e. Always-if (IsSound T) parsed _ _ (λ e'. h) (λ e'. IsSound-abort T _ h)) (λ e. h)
  run-IsSound (body_arrives p cs throws) s ok h =
      Always-if (IsSound T) (is_receiving s) _ _
        (λ e.
          Always-if (IsSound T) s.protocol _ _
            (λ e'.
              Always-bind (IsSound T) (IsSound T) (calls cs _) _ (calls-IsSound cs _ h) (λ s1 h1.
                Always-if (IsSound T) throws _ _ (λ e''. IsSound-abort T s1 h1)
                  (λ e''. Always-if (IsSound T) (is_receiving s1) _ _ (λ k. h1) (λ k. h1))))
            (λ e'. tt))
        (λ e. h)
  run-IsSound (read_fails e) s ok h = abort_on-IsSound T e _ h
  run-IsSound (timer_ends e) s ok h = abort_on-IsSound T e s h
  run-IsSound peer_leaves s ok h = h

  Reachable-IsSound : {s : Connection T} → Reachable T s → IsSound T s
  unfolding create start parse_incoming_message update_read_timer
  Reachable-IsSound started = (tt, refl, λ h. sym h)
  Reachable-IsSound (step {s = s} e r ok ran) =
      subst (Always (IsSound T)) ran (run-IsSound e s ok (Reachable-IsSound r))

  -- In every state that is reached, at most one write is under way. While more is sent, one is
  -- exactly when a message is in the queue, and its bytes are those of the first message.
  pub Reachable-OneWrite :
      {s : Connection T}
      → Reachable T s
      → OneWrite T s.out_msg_queue s.writes s.close_status.write_closed
  Reachable-OneWrite r = (Reachable-IsSound r).0

  -- In every state that is reached, what was written and then what is in the queue are the encodings
  -- of all messages that were put in the queue, in that order.
  pub Reachable-InOrder :
      {s : Connection T} → Reachable T s → InOrder T s.written s.out_msg_queue s.accepted
  Reachable-InOrder r = (Reachable-IsSound r).1
