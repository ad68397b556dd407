-- ===== src/Protocol/Connection/Kept.antt =====
-- What sending and closing do not touch: the read under way, and the handlers that were called.
use otservpp.Base.{List, [], ◌∷◌, ◌++◌, Option-cases, inl, inr}
use otservpp.Base.Options.{Always, Always-bind, Always-if}
use otservpp.Protocol.Connection.{
  Traits, Connection, Call, calls_send, calls_send_and_stop, calls_stop, calls_stop_receiving,
  calls_stop_sending, ErrorCode, operation_aborted, other_error, AfterSend, keeps_sending, stops,
  Write, ProtocolHandler, Read, stop, closed, abort, abort_on, connection_lost, do_send,
  emplace_back, try_send_or_enqueue_then, send, send_and_stop, keep_sending, run_after, on_written,
  on_write_error, call, calls, is_sending, update_write_timer, stop_receiving, stop_sending,
}

module _ (T : Traits) (F : Read → List ProtocolHandler → Type 0) where
  unfoldable pub Kept : Connection T → Type 0
  Kept s = F s.read s.handled

  pub abort-Kept : (s : Connection T) → Kept s → Always Kept (abort s)
  unfolding Kept abort connection_lost stop closed
  abort-Kept s h =
      Always-if Kept s.protocol _ _ (λ e. Always-if Kept s.peer_is_connected _ _ (λ k. h) (λ k. tt))
        (λ e. tt)

  pub abort_on-Kept : (e : ErrorCode) (s : Connection T) → Kept s → Always Kept (abort_on e s)
  unfolding abort_on
  abort_on-Kept operation_aborted s h = h
  abort_on-Kept other_error s h = abort-Kept s h

  do_send-Kept :
      (after : AfterSend) (q : List T.OutgoingMessage) (s : Connection T)
      → Kept s
      → Always Kept (do_send after (record s { out_msg_queue = q }))
  unfolding Kept do_send update_write_timer
  do_send-Kept after [] s h = tt
  do_send-Kept after (m ∷ ms) s h = elim (Option-cases (T.encode m)) [
    | inl e ↦
        rw (Always, e) (abort-Kept (record (update_write_timer s) { out_msg_queue = m ∷ ms }) h)
    | inr (bytes, e) ↦ rw (Always, e) h
  ]

  run_after-Kept :
      (after : AfterSend) (q : List T.OutgoingMessage) (s : Connection T)
      → Kept s
      → Always Kept (run_after after (record s { out_msg_queue = q }))
  unfolding Kept run_after keep_sending stop closed
  run_after-Kept keeps_sending [] s h = h
  run_after-Kept keeps_sending (m ∷ ms) s h = do_send-Kept keeps_sending (m ∷ ms) s h
  run_after-Kept stops q s h = Always-if Kept s.peer_is_connected _ _ (λ e. h) (λ e. tt)

  pub on_written-Kept :
      (q : List T.OutgoingMessage) (w : List Write) (s : Connection T)
      → Kept s
      → Always Kept (on_written (record s { out_msg_queue = q; writes = w }))
  unfolding Kept on_written
  on_written-Kept q [] s h = tt
  on_written-Kept [] (w ∷ ws) s h = tt
  on_written-Kept (m ∷ ms) (w ∷ ws) s h =
      run_after-Kept w.after ms (record s { writes = ws; written = s.written ++ w.bytes ∷ [] }) h

  pub on_write_error-Kept :
      (e : ErrorCode) (w : List Write) (s : Connection T)
      → Kept s
      → Always Kept (on_write_error e (record s { writes = w }))
  unfolding Kept on_write_error
  on_write_error-Kept e [] s h = tt
  on_write_error-Kept e (w ∷ ws) s h = abort_on-Kept e (record s { writes = ws }) h

  try_send-Kept :
      (msg : T.OutgoingMessage) (after : AfterSend) (q : List T.OutgoingMessage) (s : Connection T)
      → Kept s
      → Always Kept (try_send_or_enqueue_then msg after (record s { out_msg_queue = q }))
  unfolding Kept try_send_or_enqueue_then emplace_back is_sending do_send
  try_send-Kept msg after [] s h =
      Always-if Kept (is_sending s) _ _
        (λ e. do_send-Kept after (msg ∷ []) (record s { accepted = s.accepted ++ msg ∷ [] }) h)
        (λ e. h)
  try_send-Kept msg after (m ∷ ms) s h = Always-if Kept (is_sending s) _ _ (λ e. h) (λ e. h)

  pub call-Kept : (c : Call T.OutgoingMessage) (s : Connection T) → Kept s → Always Kept (call c s)
  unfolding Kept call send send_and_stop stop closed stop_receiving stop_sending
  call-Kept (calls_send m) s h = try_send-Kept m keeps_sending s.out_msg_queue s h
  call-Kept (calls_send_and_stop m) s h = try_send-Kept m stops s.out_msg_queue s h
  call-Kept calls_stop s h = Always-if Kept s.peer_is_connected _ _ (λ e. h) (λ e. tt)
  call-Kept calls_stop_receiving s h = Always-if Kept s.peer_is_connected _ _ (λ e. h) (λ e. tt)
  call-Kept calls_stop_sending s h = Always-if Kept s.peer_is_connected _ _ (λ e. h) (λ e. tt)

  pub calls-Kept :
      (cs : List (Call T.OutgoingMessage)) (s : Connection T) → Kept s → Always Kept (calls cs s)
  unfolding calls
  calls-Kept [] s h = h
  calls-Kept (c ∷ cs) s h =
      Always-bind Kept Kept (call c s) (calls cs) (call-Kept c s h) (λ s' h'. calls-Kept cs s' h')
