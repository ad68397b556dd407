-- ===== src/Protocol/Connection/Receiving.antt =====
-- The incoming messages of a connection: which handler of the protocol is called for them.
use otservpp.Base.{
  ℕ, zero, suc, ◌≡◌, refl, sym, ap, ◌∙◌, subst, List, [], ◌∷◌, ◌++◌, some, Bool, false,
  if◌then◌else◌, length, replicate,
}
use otservpp.Base.Options.{Always, Always-bind, Always-if}
use otservpp.Protocol.Connection.{
  Traits, Connection, ProtocolHandler, first_message, message, Read, no_read, header, body, create,
  start, abort, calls, on_header_read, on_body_read, on_read_error, on_timer, is_receiving,
  update_read_timer, parse_incoming_message,
}
use otservpp.Protocol.Connection.Trace.{
  Event, owner_calls, written, write_fails, header_arrives, body_arrives, read_fails, timer_ends,
  peer_leaves, run, Allowed, Reachable, started, step,
}
use otservpp.Protocol.Connection.Kept.{
  Kept, abort-Kept, abort_on-Kept, on_written-Kept, on_write_error-Kept, call-Kept, calls-Kept,
}

-- So many calls: of the handler of first messages once, and then of the other one.
abbrev pub sequence : ℕ → List ProtocolHandler
sequence zero = []
sequence (suc n) = first_message ∷ replicate n message

abbrev next : List ProtocolHandler → ProtocolHandler
next [] = first_message
next (h ∷ hs) = message

abbrev IsSequence : List ProtocolHandler → Type 0
IsSequence hs = hs ≡ sequence (length hs)

-- A read under way is for the handler that is next.
abbrev InSequence : Read → List ProtocolHandler → Type 0
InSequence no_read hs = IsSequence hs
InSequence (header k) hs = (k ≡ next hs) × IsSequence hs
InSequence (body k) hs = (k ≡ next hs) × IsSequence hs

InSequence-IsSequence : (r : Read) (hs : List ProtocolHandler) → InSequence r hs → IsSequence hs
InSequence-IsSequence no_read hs h = h
InSequence-IsSequence (header k) hs h = h.1
InSequence-IsSequence (body k) hs h = h.1

replicate-append : (n : ℕ) → replicate n message ++ message ∷ [] ≡ replicate (suc n) message
replicate-append zero = refl
replicate-append (suc n) = ap (◌∷◌ message) (replicate-append n)

length-append_one :
    (hs : List ProtocolHandler) (k : ProtocolHandler) → length (hs ++ k ∷ []) ≡ suc (length hs)
length-append_one [] k = refl
length-append_one (h ∷ hs) k = ap suc (length-append_one hs k)

IsSequence-append :
    (hs : List ProtocolHandler) (k : ProtocolHandler)
    → k ≡ next hs
    → IsSequence hs
    → IsSequence (hs ++ k ∷ [])
IsSequence-append [] k e h = ap (λ x. x ∷ []) e
IsSequence-append (x ∷ hs) k e h =
    ap (λ y. (x ∷ hs) ++ y ∷ []) e
    ∙ ap (λ l. l ++ message ∷ []) h
    ∙ ap (◌∷◌ first_message) (replicate-append (length hs))
    ∙ ap (λ n. first_message ∷ replicate n message) (sym (length-append_one hs k))

next-append : (hs : List ProtocolHandler) (k : ProtocolHandler) → next (hs ++ k ∷ []) ≡ message
next-append [] k = refl
next-append (h ∷ hs) k = refl

-- What holds while a handler of the protocol runs.
abbrev Handling : Read → List ProtocolHandler → Type 0
Handling r hs = (r ≡ no_read) × IsSequence hs × (next hs ≡ message)

Handling-InSequence : (r : Read) (hs : List ProtocolHandler) → Handling r hs → InSequence r hs
Handling-InSequence r hs (e, h, n) = subst (λ x. InSequence x hs) (sym e) h

module _ (T : Traits) where
  after_handler :
      (throws : Bool) (s : Connection T)
      → Handling s.read s.handled
      → Always (Kept T InSequence) (
          if throws
          then abort s
          else if is_receiving s
          then some (parse_incoming_message message s)
          else some s)
  unfolding Kept parse_incoming_message update_read_timer
  after_handler throws s h =
      let quiet = Handling-InSequence s.read s.handled h in
      Always-if (Kept T InSequence) throws _ _ (λ e. abort-Kept T InSequence s quiet)
        (λ e. Always-if (Kept T InSequence) (is_receiving s) _ _ (λ k. (sym h.2, h.1)) (λ k. quiet))

  run-InSequence :
      (e : Event T.OutgoingMessage) (s : Connection T)
      → Allowed e s
      → InSequence s.read s.handled
      → Always (Kept T InSequence) (run e s)
  unfolding Kept run on_header_read on_body_read on_read_error on_timer update_read_timer
  run-InSequence (owner_calls c) s ok h = call-Kept T InSequence c s h
  run-InSequence written s ok h = on_written-Kept T InSequence s.out_msg_queue s.writes s h
  run-InSequence (write_fails e) s ok h = on_write_error-Kept T InSequence e s.writes s h
  run-InSequence (header_arrives k parsed) s ok h =
      let here : InSequence (header k) s.handled = subst (λ r. InSequence r s.handled) ok h in
      Always-if (Kept T InSequence) (is_receiving s) _ _
        (λ e.
          Always-if (Kept T InSequence) parsed _ _ (λ e'. here)
            (λ e'.
              abort-Kept T InSequence (record (update_read_timer s) { read = no_read }) here.1))
        (λ e. here.1)
  run-InSequence (body_arrives k cs throws) s ok h =
      let here : InSequence (body k) s.handled = subst (λ r. InSequence r s.handled) ok h in
      let s0 : Connection T = record s {
        read = no_read;
        read_timer = false;
        handled = s.handled ++ k ∷ [];
      } in
      Always-if (Kept T InSequence) (is_receiving s) _ _
        (λ e.
          Always-if (Kept T InSequence) s.protocol _ _
            (λ e'.
              Always-bind (Kept T Handling) (Kept T InSequence) (calls cs s0) _
                (calls-Kept T Handling cs s0
                  (refl, IsSequence-append s.handled k here.0 here.1, next-append s.handled k))
                (λ s1 h1. after_handler throws s1 h1))
            (λ e'. tt))
        (λ e. here.1)
  run-InSequence (read_fails e) s ok h =
      abort_on-Kept T InSequence e (record s { read = no_read })
        (InSequence-IsSequence s.read s.handled h)
  run-InSequence (timer_ends e) s ok h = abort_on-Kept T InSequence e s h
  run-InSequence peer_leaves s ok h = h

  Reachable-InSequence : {s : Connection T} → Reachable T s → InSequence s.read s.handled
  unfolding Kept create start parse_incoming_message update_read_timer
  Reachable-InSequence started = (refl, refl)
  Reachable-InSequence (step {s = s} e r ok ran) =
      subst (Always (Kept T InSequence)) ran (run-InSequence e s ok (Reachable-InSequence r))

  -- On every run of a connection, whatever the protocol's handlers do and whatever fails, the first
  -- message that is handed to the protocol is handed to its handler of first messages, and every later
  -- one to the other handler.
  pub Reachable-handled :
      {s : Connection T} → Reachable T s → s.handled ≡ sequence (length s.handled)
  Reachable-handled {s = s} r = InSequence-IsSequence s.read s.handled (Reachable-InSequence r)
