-- ===== src/Service.antt =====
-- Service and BasicService of service/service.hpp, and ServiceManager of service/servicemanager.h and
-- service/servicemanager.cpp.
pub mod Laws
pub mod Server
use otservpp.Base.{
  ℕ, List, [], ◌∷◌, ◌++◌, Option, none, some, Bool, true, false, ltb, ◌==◌, if◌then◌else◌,
}

-- PrivateService: a service, which is its port, whether its acceptor listens, whether a call of
-- `async_accept` is under way, and the peers that the service was given.
pub record PrivateService : Type 0 where
  pub port : ℕ
  pub listening : Bool
  pub accepting : Bool
  pub connections : List ℕ

-- `std::map`, in the order of the ports.
abbrev pub PortServiceMap : Type 0
PortServiceMap = List PrivateService

-- How a member function ends: as it should, or with a `runtime_error` or a `system_error`.
pub data Result (A : Type 0) : Type 0 where
  done : A → Result A
  throws : A → Result A

-- A service and its acceptor, which is not open.
unfoldable pub private_service : ℕ → PrivateService
private_service port = record {
  port = port;
  listening = false;
  accepting = false;
  connections = [];
}

unfoldable pub lookup : ℕ → PortServiceMap → Option PrivateService
lookup p [] = none
lookup p (s ∷ ss) = let rest = lookup p ss in if p == s.port then some s else rest

-- `map::insert`, which leaves the map as it is where it has the key.
unfoldable pub insert : PrivateService → PortServiceMap → PortServiceMap
insert s [] = s ∷ []
insert s (x ∷ xs) =
    let rest = insert s xs in
    if ltb s.port x.port then s ∷ x ∷ xs else (if s.port == x.port then x ∷ xs else x ∷ rest)

unfoldable pub register_service : ℕ → PortServiceMap → Result PortServiceMap
register_service port map = elim (lookup port map) [
  | none ↦ done (insert (private_service port) map)
  | some s ↦ throws (insert (private_service port) map)
]

unfoldable pub accept_more : PrivateService → PrivateService
accept_more s = record s { accepting = true }

-- The calls on the acceptor of one service; `listens` is whether the system lets it listen on its port.
unfoldable pub start_service : PrivateService → PrivateService
start_service s = accept_more (record s { listening = true })

unfoldable pub start : (ℕ → Bool) → PortServiceMap → Result PortServiceMap
start listens [] = done []
start listens (s ∷ ss) =
    let rest = start listens ss in
    if listens s.port
    then elim rest [
      | done ss' ↦ done (start_service s ∷ ss')
      | throws ss' ↦ throws (start_service s ∷ ss')
    ]
    else throws (s ∷ ss)

-- The handler of `async_accept`: with a peer, or with an error.
unfoldable pub on_accept : Option ℕ → PrivateService → Result PrivateService
on_accept (some peer) s =
    done (accept_more (record s { accepting = false; connections = s.connections ++ peer ∷ [] }))
on_accept none s = throws (record s { accepting = false })
