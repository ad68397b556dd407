-- ===== src/Sql/Pool/Laws.antt =====
-- What the pool promises, on every run of it with its clients.
use otservpp.Base.{
  ℕ, ◌+◌, ◌≡◌, refl, sym, ap, ◌∙◌, List, [], ◌∷◌, ◌++◌, map, arith, length, append-nil,
  append_assoc, length-append, map-append,
}
use otservpp.Sql.Pool.{Conn, Handler, Call, create, get_connection, return_to_pool}
use otservpp.Base.Counting.{count, count-append, count-remove}
use otservpp.Sql.Pool.Trace.{
  Event, request, give_back, System, run, Allowed, Reachable, started, step, requests, returns,
  system,
}
use Prim.Native.Nat.{min}

requests-append : (es fs : List Event) → requests (es ++ fs) ≡ requests es ++ requests fs
requests-append [] fs = refl
requests-append (request h ∷ es) fs = ap (◌∷◌ h) (requests-append es fs)
requests-append (give_back c ∷ es) fs = requests-append es fs

returns-append : (es fs : List Event) → returns (es ++ fs) ≡ returns es + returns fs
returns-append [] fs = omega arith
returns-append (request h ∷ es) fs = returns-append es fs
returns-append (give_back c ∷ es) fs = omega (arith, returns-append es fs)

-- No request waits while there is a connection.
abbrev pub IsServing : List Conn → List Handler → Type 0
IsServing [] q = Unit
IsServing (c ∷ cs) [] = Unit
IsServing (c ∷ cs) (h ∷ hs) = ⊥

IsServing-none : (p : List Conn) → IsServing p []
IsServing-none [] = tt
IsServing-none (c ∷ cs) = tt

IsServing-drop : (c : Conn) (p : List Conn) (q : List Handler) → IsServing (c ∷ p) q → IsServing p q
IsServing-drop c [] q v = tt
IsServing-drop c (d ∷ ds) [] v = tt
IsServing-drop c (d ∷ ds) (g ∷ gs) v = v

IsServing-serve :
    (g : Handler) (p : List Conn) (q : List Handler) → IsServing p (g ∷ q) → IsServing p q
IsServing-serve g [] q v = tt
IsServing-serve g (c ∷ cs) q v = absurd v

run-IsServing :
    (e : Event) (p : List Conn) (q : List Handler) (l : List Conn) (k : List Call)
    → IsServing p q
    → IsServing (run e (system p q l k)).state.pool (run e (system p q l k)).state.request_queue
unfolding run get_connection return_to_pool
run-IsServing (request h) [] q l k v = tt
run-IsServing (request h) (c ∷ cs) q l k v = IsServing-drop c cs q v
run-IsServing (give_back c) p [] l k v = IsServing-none (p ++ c ∷ [])
run-IsServing (give_back c) p (g ∷ gs) l k v = IsServing-serve g p gs v

-- Whatever the clients request and give back, a request waits only while every connection is leased.
pub Reachable-IsServing :
    {conns : List Conn} {es : List Event} {s : System}
    → Reachable conns es s
    → IsServing s.state.pool s.state.request_queue
unfolding create
Reachable-IsServing {conns = conns} started = IsServing-none conns
Reachable-IsServing (step {s = s} e r ok) =
    run-IsServing e s.state.pool s.state.request_queue s.leased s.calls (Reachable-IsServing r)

abbrev handlers : List Call → List Handler
handlers = map (λ c. c.handler)

run-fifo :
    (e : Event) (p : List Conn) (q : List Handler) (l : List Conn) (k : List Call)
    {hs : List Handler}
    → IsServing p q
    → handlers k ++ q ≡ hs
    → handlers (run e (system p q l k)).calls ++ (run e (system p q l k)).state.request_queue
      ≡ hs ++ requests (e ∷ [])
unfolding run get_connection return_to_pool
run-fifo (request h) [] q l cs v e =
    sym (append_assoc (handlers cs) q (h ∷ [])) ∙ ap (λ xs. xs ++ h ∷ []) e
run-fifo (request h) (c ∷ p) [] l k v e =
    append-nil _
    ∙ map-append (λ c. c.handler) k (record { handler = h; conn = c } ∷ [])
    ∙ ap (λ xs. xs ++ h ∷ []) (sym (append-nil (handlers k)) ∙ e)
run-fifo (request h) (c ∷ p) (g ∷ gs) l k v e = absurd v
run-fifo (give_back c) p [] l k v e = e ∙ sym (append-nil _)
run-fifo (give_back c) p (g ∷ gs) l k v e =
    ap (λ xs. xs ++ gs) (map-append (λ c. c.handler) k (record { handler = g; conn = c } ∷ []))
    ∙ append_assoc (handlers k) (g ∷ []) gs
    ∙ e
    ∙ sym (append-nil _)

run-conserved :
    (x : Conn) (e : Event) (p : List Conn) (q : List Handler) (l : List Conn) (k : List Call)
    → Allowed e (system p q l k)
    → count x (run e (system p q l k)).state.pool + count x (run e (system p q l k)).leased
      ≡ count x p + count x l
unfolding run get_connection return_to_pool
run-conserved x (request h) [] q l k ok = refl
run-conserved x (request h) (c ∷ p) q l k ok = omega arith
run-conserved x (give_back c) p [] l k ok =
    omega (arith, count-append x p (c ∷ []), count-remove x c l ok)
run-conserved x (give_back c) p (g ∷ gs) l k ok = omega (arith, count-remove x c l ok)

-- Every call and every waiting handler is a request, in the order of the requests.
pub Reachable-fifo :
    {conns : List Conn} {es : List Event} {s : System}
    → Reachable conns es s
    → map (λ c. c.handler) s.calls ++ s.state.request_queue ≡ requests es
unfolding create
Reachable-fifo started = refl
Reachable-fifo (step {es = es} {s = s} e r ok) =
    run-fifo e s.state.pool s.state.request_queue s.leased s.calls (Reachable-IsServing r)
      (Reachable-fifo r)
    ∙ sym (requests-append es (e ∷ []))

-- A connection is in the pool or with the clients, as often as it was made.
pub Reachable-conserved :
    {conns : List Conn} {es : List Event} {s : System} (x : Conn)
    → Reachable conns es s
    → count x s.state.pool + count x s.leased ≡ count x conns
unfolding create
Reachable-conserved x started = omega arith
Reachable-conserved x (step {s = s} e r ok) =
    run-conserved x e s.state.pool s.state.request_queue s.leased s.calls ok
    ∙ Reachable-conserved x r

run-balance :
    (e : Event) (p : List Conn) (q : List Handler) (l : List Conn) (k : List Call)
    → (length (run e (system p q l k)).calls + length (run e (system p q l k)).state.request_queue
        ≡ length k + length q + length (requests (e ∷ [])))
      × (length (run e (system p q l k)).calls + length (run e (system p q l k)).state.pool
          ≡ length k + length p + returns (e ∷ []))
unfolding run get_connection return_to_pool
run-balance (request h) [] q l k = (omega (arith, length-append q (h ∷ [])), omega arith)
run-balance (request h) (c ∷ p) q l k =
    let called = length-append k (record { handler = h; conn = c } ∷ []) in
    (omega (arith, called), omega (arith, called))
run-balance (give_back c) p [] l k = (omega arith, omega (arith, length-append p (c ∷ [])))
run-balance (give_back c) p (g ∷ gs) l k =
    let called = length-append k (record { handler = g; conn = c } ∷ []) in
    (omega (arith, called), omega (arith, called))

Reachable-balance :
    {conns : List Conn} {es : List Event} {s : System}
    → Reachable conns es s
    → (length s.calls + length s.state.request_queue ≡ length (requests es))
      × (length s.calls + length s.state.pool ≡ length conns + returns es)
unfolding create
Reachable-balance started = (refl, omega arith)
Reachable-balance (step {es = es} {s = s} e r ok) =
    let (waiting, free) = Reachable-balance r in
    let (waiting', free') = run-balance e s.state.pool s.state.request_queue s.leased s.calls in
    (
      omega (
        arith,
        waiting,
        waiting',
        ap length (requests-append es (e ∷ [])),
        length-append (requests es) (requests (e ∷ [])),
      ),
      omega (arith, free, free', returns-append es (e ∷ [])),
    )

IsServing-balance :
    (p : List Conn) (q : List Handler) {calls asked free : ℕ}
    → IsServing p q
    → calls + length q ≡ asked
    → calls + length p ≡ free
    → calls ≡ min asked free
IsServing-balance [] q v h k = omega (arith, h, k)
IsServing-balance (c ∷ cs) [] v h k = omega (arith, h, k)
IsServing-balance (c ∷ cs) (g ∷ gs) v h k = absurd v

-- After any run, the number of handlers called is the number of requests, or the number of
-- connections made and given back where that is less.
pub Reachable-progress :
    {conns : List Conn} {es : List Event} {s : System}
    → Reachable conns es s
    → length s.calls ≡ min (length (requests es)) (length conns + returns es)
Reachable-progress {s = s} r =
    let (waiting, free) = Reachable-balance r in
    IsServing-balance s.state.pool s.state.request_queue (Reachable-IsServing r) waiting free
