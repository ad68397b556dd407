-- ===== src/Service/Laws.antt =====
-- What the manager of the services promises.
use otservpp.Base.{
  ℕ, ◌≡◌, ◌<◌, refl, sym, ap, ◌∙◌, List, [], ◌∷◌, ◌++◌, none, some, Bool, true, false, ltb, ◌==◌,
  if◌then◌else◌, arith, Bool-cases, inl, inr, All, map, append-nil, append_assoc,
}
use otservpp.Service.{
  PrivateService, PortServiceMap, Result, done, throws, private_service, lookup, insert,
  register_service, accept_more, start_service, start, on_accept,
}

-- The ports stand in order, and none of them twice.
abbrev pub IsSorted : PortServiceMap → Type 0
IsSorted [] = Unit
IsSorted (s ∷ ss) = All (λ x. s.port < x.port) ss × IsSorted ss

not_first :
    (p : ℕ) (x : PrivateService) (xs : PortServiceMap)
    → lookup p (x ∷ xs) ≡ none
    → ((p == x.port) ≡ false) × (lookup p xs ≡ none)
unfolding lookup
not_first p x xs h = elim (Bool-cases (p == x.port)) [
  | inl e ↦ absurd (cc (rw e at h))
  | inr e ↦ (e, rw e at h)
]

lookup-insert :
    (p : ℕ) (s : PrivateService) (m : PortServiceMap)
    → lookup s.port m ≡ none
    → lookup p (insert s m) ≡ (if p == s.port then some s else lookup p m)
unfolding lookup insert
lookup-insert p s [] h = refl
lookup-insert p s (x ∷ xs) h =
    let (other, absent) = not_first s.port x xs h in
    let rest = lookup-insert p s xs absent in
    elim (Bool-cases (ltb s.port x.port)) [
      | inl before ↦ rw before refl
      | inr behind ↦ rw (behind, other) (ground (arith, rest, other))
    ]

insert-All :
    (P : PrivateService → Type 0) (s : PrivateService) (m : PortServiceMap)
    → P s
    → All P m
    → All P (insert s m)
unfolding insert
insert-All P s [] h k = (h, tt)
insert-All P s (x ∷ xs) h k = elim (Bool-cases (ltb s.port x.port)) [
  | inl before ↦ rw before (h, k)
  | inr behind ↦ rw behind (elim (Bool-cases (s.port == x.port)) [
    | inl same ↦ rw same k
    | inr other ↦ rw other (k.0, insert-All P s xs h k.1)
  ])
]

All-imp :
    {P Q : PrivateService → Type 0} (m : PortServiceMap)
    → ((x : PrivateService) → P x → Q x)
    → All P m
    → All Q m
All-imp [] f h = tt
All-imp (x ∷ xs) f h = (f x h.0, All-imp xs f h.1)

insert-IsSorted : (s : PrivateService) (m : PortServiceMap) → IsSorted m → IsSorted (insert s m)
unfolding insert
insert-IsSorted s [] h = (tt, tt)
insert-IsSorted s (x ∷ xs) h = elim (Bool-cases (ltb s.port x.port)) [
  | inl before ↦
      let less : s.port < x.port = ground (arith, before) in
      rw before ((less, All-imp xs (λ y later. omega (arith, less, later)) h.0), h)
  | inr behind ↦ rw behind (elim (Bool-cases (s.port == x.port)) [
    | inl same ↦ rw same h
    | inr other ↦
        let more : x.port < s.port = ground (arith, behind, other) in
        rw other (insert-All (λ y. x.port < y.port) s xs more h.0, insert-IsSorted s xs h.1)
  ])
]

lookup-less : (p : ℕ) (m : PortServiceMap) → All (λ x. p < x.port) m → lookup p m ≡ none
unfolding lookup
lookup-less p [] h = refl
lookup-less p (x ∷ xs) h = ground (arith, h.0, lookup-less p xs h.1)

insert-present :
    (s y : PrivateService) (m : PortServiceMap)
    → IsSorted m
    → lookup s.port m ≡ some y
    → insert s m ≡ m
unfolding insert lookup
insert-present s y [] h found = absurd (cc found)
insert-present s y (x ∷ xs) h found = elim (Bool-cases (ltb s.port x.port)) [
  | inl before ↦
      let less : s.port < x.port = ground (arith, before) in
      let absent =
        lookup-less s.port (x ∷ xs)
          (less, All-imp xs (λ y later. omega (arith, less, later)) h.0) in
      absurd (cc (found, absent))
  | inr behind ↦ rw behind (elim (Bool-cases (s.port == x.port)) [
    | inl same ↦ rw same refl
    | inr other ↦ rw other (ap (◌∷◌ x) (insert-present s y xs h.1 (rw other at found)))
  ])
]

-- In a map in the order of the ports, a service whose port is not taken is registered: the map keeps
-- its order, the service is found under its port, and what is found under the other ports stays. One
-- whose port is taken is refused, and what is found under every port stays.
pub register_service_lem :
    (port : ℕ) (m : PortServiceMap)
    → IsSorted m
    → (lookup port m ≡ none
        → (m' : PortServiceMap) × (register_service port m ≡ done m')
          × IsSorted m'
          × ((p : ℕ)
              → lookup p m' ≡ (if p == port then some (private_service port) else lookup p m)))
      × ((s : PrivateService) → lookup port m ≡ some s → register_service port m ≡ throws m)
unfolding register_service private_service
register_service_lem port m sorted = (
  λ free. (
    insert (private_service port) m,
    rw (register_service, free) refl,
    insert-IsSorted (private_service port) m sorted,
    λ p. lookup-insert p (private_service port) m free,
  ),
  λ s taken.
      rw (register_service, taken)
        (ap throws (insert-present (private_service port) s m sorted taken)),
)

-- A service whose acceptor listens and accepts.
abbrev pub at_work : PrivateService → PrivateService
at_work s = record s { listening = true; accepting = true }

-- Where the system lets every service listen on its port, all of them listen and accept after the
-- start, in the order of the map, with their ports and connections as they were.
pub start_lem :
    (listens : ℕ → Bool) (m : PortServiceMap)
    → All (λ s. listens s.port ≡ true) m
    → start listens m ≡ done (map at_work m)
unfolding start start_service accept_more
start_lem listens [] h = refl
start_lem listens (s ∷ ss) h = rw (h.0, start_lem listens ss h.1) refl

-- Where the system lets the services before one of them listen, and not that one, the start throws:
-- those before it listen and accept, and it and those behind it are as they were.
pub start-fails :
    (listens : ℕ → Bool) (before : PortServiceMap) (s : PrivateService) (behind : PortServiceMap)
    → All (λ x. listens x.port ≡ true) before
    → listens s.port ≡ false
    → start listens (before ++ s ∷ behind) ≡ throws (map at_work before ++ s ∷ behind)
unfolding start start_service accept_more
start-fails listens [] s behind h bad = rw bad refl
start-fails listens (x ∷ xs) s behind h bad = rw (h.0, start-fails listens xs s behind h.1 bad) refl

-- So many accepts with the peers given.
abbrev pub accepts : List ℕ → PrivateService → Result PrivateService
accepts [] s = done s
accepts (p ∷ ps) s = elim (on_accept (some p) s) [ done s' ↦ accepts ps s' | throws s' ↦ throws s' ]

-- A service that accepts is given every peer, in order, and goes on accepting.
pub accepts_lem :
    (peers : List ℕ) (s : PrivateService)
    → s.accepting ≡ true
    → accepts peers s ≡ done (record s { accepting = true; connections = s.connections ++ peers })
unfolding on_accept accept_more
accepts_lem [] s accepting =
    let given : List ℕ → Bool → PrivateService =
      λ c b. record s { accepting = b; connections = c } in
    ap (λ b. done (given s.connections b)) accepting
    ∙ ap (λ c. done (given c true)) (sym (append-nil s.connections))
accepts_lem (p ∷ ps) s accepting =
    accepts_lem ps (record s { accepting = true; connections = s.connections ++ p ∷ [] }) refl
    ∙ ap (λ c. done (record s { accepting = true; connections = c }))
        (append_assoc s.connections (p ∷ []) ps)
