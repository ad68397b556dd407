-- ===== src/Protocol/Connection/Writing.antt =====
-- What a connection does with its queue and its write keeps both in order.
use otservpp.Base.{
  map-append, ℕ, ◌≡◌, refl, sym, ap, ◌∙◌, List, [], ◌∷◌, ◌++◌, some, Bool, true, false, map,
  Option-cases, inl, inr, append_assoc,
}
use otservpp.Base.Options.{Always, Always-if}
use otservpp.Protocol.Connection.{
  Traits, Connection, ErrorCode, operation_aborted, other_error, AfterSend, keeps_sending, stops,
  Write, stop, closed, abort, abort_on, connection_lost, do_send, emplace_back,
  try_send_or_enqueue_then, keep_sending, run_after, on_written, on_write_error, is_sending,
  update_write_timer,
}
use otservpp.Protocol.Connection.Trace.{write_fails, Allowed}

module _ (T : Traits) where
  -- One write is under way exactly when a message waits, and it is of the first one; or no more is
  -- sent.
  abbrev pub OneWrite : List T.OutgoingMessage → List Write → Bool → Type 0
  OneWrite [] [] closed = Unit
  OneWrite [] (w ∷ ws) closed = ⊥
  OneWrite (m ∷ ms) [] closed = closed ≡ true
  OneWrite (m ∷ ms) (w ∷ []) closed = T.encode m ≡ some w.bytes
  OneWrite (m ∷ ms) (w ∷ v ∷ ws) closed = ⊥

  -- What was written, and the encodings of what waits, are those of the messages put in the queue.
  abbrev pub InOrder : List (List ℕ) → List T.OutgoingMessage → List T.OutgoingMessage → Type 0
  InOrder done queue accepted = map some done ++ map T.encode queue ≡ map T.encode accepted

  abbrev pub IsSound : Connection T → Type 0
  IsSound s =
      OneWrite s.out_msg_queue s.writes s.close_status.write_closed
      × InOrder s.written s.out_msg_queue s.accepted
      × (s.peer_is_open ≡ false → s.close_status.write_closed ≡ true)

  pub OneWrite-closed :
      (q : List T.OutgoingMessage) (w : List Write) (closed : Bool)
      → OneWrite q w closed
      → OneWrite q w true
  OneWrite-closed [] [] closed h = h
  OneWrite-closed [] (w ∷ ws) closed h = h
  OneWrite-closed (m ∷ ms) [] closed h = refl
  OneWrite-closed (m ∷ ms) (w ∷ []) closed h = h
  OneWrite-closed (m ∷ ms) (w ∷ v ∷ ws) closed h = h

  pub stop-IsSound : (s : Connection T) → IsSound s → Always IsSound (stop s)
  unfolding stop closed
  stop-IsSound s (one, order, ended) =
      Always-if IsSound s.peer_is_connected _ _
        (λ e. (
          OneWrite-closed s.out_msg_queue s.writes s.close_status.write_closed one,
          order,
          λ h. refl,
        ))
        (λ e. tt)

  OneWrite-none : (q : List T.OutgoingMessage) → OneWrite q [] true
  OneWrite-none [] = tt
  OneWrite-none (m ∷ ms) = refl

  abort-IsSound :
      (s : Connection T)
      → OneWrite s.out_msg_queue s.writes true
      → InOrder s.written s.out_msg_queue s.accepted
      → Always IsSound (abort s)
  unfolding abort connection_lost stop closed
  abort-IsSound s one order =
      Always-if IsSound s.protocol _ _
        (λ e. Always-if IsSound s.peer_is_connected _ _ (λ k. (one, order, λ h. refl)) (λ k. tt))
        (λ e. tt)

  pub IsSound-abort : (s : Connection T) → IsSound s → Always IsSound (abort s)
  IsSound-abort s (one, order, ended) =
      abort-IsSound s (OneWrite-closed s.out_msg_queue s.writes s.close_status.write_closed one)
        order

  pub abort_on-IsSound :
      (e : ErrorCode) (s : Connection T) → IsSound s → Always IsSound (abort_on e s)
  unfolding abort_on
  abort_on-IsSound operation_aborted s h = h
  abort_on-IsSound other_error s h = IsSound-abort s h

  -- A message is first in the queue and no write is under way.
  do_send-IsSound :
      (after : AfterSend) (m : T.OutgoingMessage) (ms : List T.OutgoingMessage) (s : Connection T)
      → InOrder s.written (m ∷ ms) s.accepted
      → (s.peer_is_open ≡ false → s.close_status.write_closed ≡ true)
      → Always IsSound (do_send after (record s { out_msg_queue = m ∷ ms; writes = [] }))
  unfolding do_send update_write_timer
  do_send-IsSound after m ms s order ended = elim (Option-cases (T.encode m)) [
    | inl e ↦
        rw (Always, e)
          (abort-IsSound (record (update_write_timer s) { out_msg_queue = m ∷ ms; writes = [] })
            refl order)
    | inr (bytes, e) ↦ rw (Always, e) (e, order, ended)
  ]

  keep_sending-IsSound :
      (q : List T.OutgoingMessage) (s : Connection T)
      → InOrder s.written q s.accepted
      → (s.peer_is_open ≡ false → s.close_status.write_closed ≡ true)
      → Always IsSound (keep_sending (record s { out_msg_queue = q; writes = [] }))
  unfolding keep_sending
  keep_sending-IsSound [] s order ended = (tt, order, ended)
  keep_sending-IsSound (m ∷ ms) s order ended = do_send-IsSound keeps_sending m ms s order ended

  run_after-IsSound :
      (after : AfterSend) (q : List T.OutgoingMessage) (s : Connection T)
      → InOrder s.written q s.accepted
      → (s.peer_is_open ≡ false → s.close_status.write_closed ≡ true)
      → Always IsSound (run_after after (record s { out_msg_queue = q; writes = [] }))
  unfolding run_after stop closed
  run_after-IsSound keeps_sending q s order ended = keep_sending-IsSound q s order ended
  run_after-IsSound stops q s order ended =
      Always-if IsSound s.peer_is_connected _ _ (λ e. (OneWrite-none q, order, λ h. refl)) (λ e. tt)

  written-InOrder :
      (done : List (List ℕ)) (m : T.OutgoingMessage) (ms accepted : List T.OutgoingMessage)
      (bytes : List ℕ)
      → T.encode m ≡ some bytes
      → InOrder done (m ∷ ms) accepted
      → InOrder (done ++ bytes ∷ []) ms accepted
  written-InOrder done m ms accepted bytes e order =
      ap (λ xs. xs ++ map T.encode ms) (map-append some done (bytes ∷ []))
      ∙ append_assoc (map some done) (some bytes ∷ []) (map T.encode ms)
      ∙ ap (λ x. map some done ++ x ∷ map T.encode ms) (sym e)
      ∙ order

  pub on_written-IsSound :
      (q : List T.OutgoingMessage) (w : List Write) (s : Connection T)
      → IsSound (record s { out_msg_queue = q; writes = w })
      → Always IsSound (on_written (record s { out_msg_queue = q; writes = w }))
  unfolding on_written
  on_written-IsSound q [] s h = tt
  on_written-IsSound [] (w ∷ ws) s h = tt
  on_written-IsSound (m ∷ ms) (w ∷ []) s (one, order, ended) =
      run_after-IsSound w.after ms (record s { written = s.written ++ w.bytes ∷ [] })
        (written-InOrder s.written m ms s.accepted w.bytes one order) ended
  on_written-IsSound (m ∷ ms) (w ∷ v ∷ ws) s (one, order, ended) = absurd one

  pub on_write_error-IsSound :
      (e : ErrorCode) (q : List T.OutgoingMessage) (w : List Write) (s : Connection T)
      → Allowed (write_fails e) s
      → IsSound (record s { out_msg_queue = q; writes = w })
      → Always IsSound (on_write_error e (record s { out_msg_queue = q; writes = w }))
  unfolding on_write_error abort_on
  on_write_error-IsSound e q [] s ok h = tt
  on_write_error-IsSound e [] (w ∷ ws) s ok (one, order, ended) = absurd one
  on_write_error-IsSound operation_aborted (m ∷ ms) (w ∷ []) s ok (one, order, ended) =
      (ended ok, order, ended)
  on_write_error-IsSound other_error (m ∷ ms) (w ∷ []) s ok (one, order, ended) =
      abort-IsSound (record s { out_msg_queue = m ∷ ms; writes = [] }) refl order
  on_write_error-IsSound e (m ∷ ms) (w ∷ v ∷ ws) s ok (one, order, ended) = absurd one

  accepted-InOrder :
      (done : List (List ℕ)) (q accepted : List T.OutgoingMessage) (m : T.OutgoingMessage)
      → InOrder done q accepted
      → InOrder done (q ++ m ∷ []) (accepted ++ m ∷ [])
  accepted-InOrder done q accepted m order =
      ap (◌++◌ (map some done)) (map-append T.encode q (m ∷ []))
      ∙ sym (append_assoc (map some done) (map T.encode q) (T.encode m ∷ []))
      ∙ ap (λ xs. xs ++ T.encode m ∷ []) order
      ∙ sym (map-append T.encode accepted (m ∷ []))

  OneWrite-append :
      (m n : T.OutgoingMessage) (ms : List T.OutgoingMessage) (w : List Write) (closed : Bool)
      → OneWrite (m ∷ ms) w closed
      → OneWrite ((m ∷ ms) ++ n ∷ []) w closed
  OneWrite-append m n ms [] closed h = h
  OneWrite-append m n ms (w ∷ []) closed h = h
  OneWrite-append m n ms (w ∷ v ∷ ws) closed h = h

  pub try_send-IsSound :
      (msg : T.OutgoingMessage) (after : AfterSend) (q : List T.OutgoingMessage) (w : List Write)
      (s : Connection T)
      → IsSound (record s { out_msg_queue = q; writes = w })
      → Always IsSound
          (try_send_or_enqueue_then msg after (record s { out_msg_queue = q; writes = w }))
  unfolding try_send_or_enqueue_then emplace_back is_sending do_send
  try_send-IsSound msg after [] [] s (one, order, ended) =
      Always-if IsSound (is_sending s) _ _
        (λ e.
          do_send-IsSound after msg [] (record s { accepted = s.accepted ++ msg ∷ [] })
            (accepted-InOrder s.written [] s.accepted msg order) ended)
        (λ e. (one, order, ended))
  try_send-IsSound msg after [] (w ∷ ws) s (one, order, ended) = absurd one
  try_send-IsSound msg after (m ∷ ms) w s (one, order, ended) =
      Always-if IsSound (is_sending s) _ _
        (λ e. (
          OneWrite-append m msg ms w s.close_status.write_closed one,
          accepted-InOrder s.written (m ∷ ms) s.accepted msg order,
          ended,
        ))
        (λ e. (one, order, ended))
