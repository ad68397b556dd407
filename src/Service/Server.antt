-- ===== src/Service/Server.antt =====
-- BasicService::incomingConnection of service/service.hpp: a service with the connections that it makes
-- for its peers, each of which runs on its own.
use otservpp.Base.{
  ℕ, suc, ◌≡◌, refl, ap, sym, ◌∙◌, List, [], ◌∷◌, ◌++◌, some, length, length-append, arith,
}
use otservpp.Service.{PrivateService, Result, done, throws, on_accept, accept_more}
use otservpp.Protocol.Connection.{Traits, Connection, create, start}
use otservpp.Protocol.Connection.Trace.{Event, run, Allowed}

abbrev peers_of : Result PrivateService → List ℕ
peers_of (done s) = s.connections
peers_of (throws s) = s.connections

module _ (T : Traits) where
  -- A new connection, with a protocol for it, that was started.
  unfoldable pub incoming_connection : Connection T
  unfolding create start
  incoming_connection = start create

  -- The service, and its connections in the order of the peers.
  pub record Server : Type 0 where
    pub service : PrivateService
    pub connections : List (Connection T)

  pub data Running (s0 : PrivateService) : Server → Type 0 where
    begun : Running s0 (record { service = s0; connections = [] })
    accepted :
        {p : PrivateService} {cs : List (Connection T)} (peer : ℕ) (p' : PrivateService)
        → Running s0 (record { service = p; connections = cs })
        → on_accept (some peer) p ≡ done p'
        → Running s0 (record { service = p'; connections = cs ++ incoming_connection ∷ [] })
    worked :
        {p : PrivateService} (before after : List (Connection T)) (c c' : Connection T)
        (e : Event T.OutgoingMessage)
        → Running s0 (record { service = p; connections = before ++ c ∷ after })
        → Allowed e c
        → run e c ≡ some c'
        → Running s0 (record { service = p; connections = before ++ c' ∷ after })

  length-replace :
      (before after : List (Connection T)) (c c' : Connection T)
      → length (before ++ c' ∷ after) ≡ length (before ++ c ∷ after)
  length-replace [] after c c' = refl
  length-replace (b ∷ bs) after c c' = ap suc (length-replace bs after c c')

  -- A service that has no peer at first makes one connection for each peer that it is given.
  pub Running-one_each :
      {s0 : PrivateService} {s : Server}
      → Running s0 s
      → s0.connections ≡ []
      → length s.connections ≡ length s.service.connections
  unfolding on_accept accept_more
  Running-one_each begun h = ap length (sym h)
  Running-one_each (accepted {p = p} {cs = cs} peer p' r e) h = omega (
    arith,
    Running-one_each r h,
    length-append cs (incoming_connection ∷ []),
    length-append p.connections (peer ∷ []),
    ap (λ x. length (peers_of x)) e,
  )
  Running-one_each (worked before after c c' e r a f) h =
      length-replace before after c c' ∙ Running-one_each r h
