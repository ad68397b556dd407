-- ===== src/Sql/Pool/Spec.antt =====
-- What ConnectionPool of sql/connectionpool.h is to its clients: two streams, of requests and of
-- connections, the first ones and those that come back, which are matched one by one.
use otservpp.Base.{
  ℕ, zero, suc, ◌≤◌, ◌<◌, ◌≡◌, refl, sym, ap, subst, ◌∙◌, List, [], ◌∷◌, ◌++◌, arith, length, drop,
  length-append, length-drop, drop-drop, drop-append,
}
use otservpp.Sql.Pool.{Conn, Handler, Call, create, get_connection, return_to_pool}
use otservpp.Sql.Pool.Trace.{
  Event, request, give_back, System, run, Reachable, started, step, system,
}

-- The specification: what was asked for and what was offered.
pub record Matching : Type 0 where
  pub demands : List Handler
  pub offers : List Conn

abbrev pub pair : Handler → Conn → Call
pair h c = record { handler = h; conn = c }

abbrev pub matched : List Handler → List Conn → List Call
matched [] cs = []
matched (h ∷ hs) [] = []
matched (h ∷ hs) (c ∷ cs) = pair h c ∷ matched hs cs

-- A step of it extends one of the streams.
abbrev pub extend : Event → Matching → Matching
extend (request h) m = record m { demands = m.demands ++ h ∷ [] }
extend (give_back c) m = record m { offers = m.offers ++ c ∷ [] }

abbrev pub extend_all : List Event → Matching → Matching
extend_all [] m = m
extend_all (e ∷ es) m = extend_all es (extend e m)

-- What clients see of the specification is what they see of the pool: the calls are the pairs, the pool
-- has the offers that are left over, and the queue the demands.
pub record Implements (s : System) (m : Matching) : Type 0 where
  pub calls : s.calls ≡ matched m.demands m.offers
  pub pool : s.state.pool ≡ drop (length m.demands) m.offers
  pub queue : s.state.request_queue ≡ drop (length m.offers) m.demands

module _ {A : Type 0} where
  drop_all : (n : ℕ) (xs : List A) → length xs ≤ n → drop n xs ≡ []
  drop_all zero [] h = refl
  drop_all zero (x ∷ xs) h = absurd (omega arith)
  drop_all (suc n) [] h = refl
  drop_all (suc n) (x ∷ xs) h = drop_all n xs (omega arith)

  drop-nil : (n : ℕ) (xs : List A) → [] ≡ drop n xs → length xs ≤ n
  drop-nil n xs h = omega (arith, length-drop n xs, ap length h)

  drop-cons : (n : ℕ) (x : A) (ys xs : List A) → x ∷ ys ≡ drop n xs → n < length xs
  drop-cons n x ys xs h = omega (arith, length-drop n xs, ap length h)

  drop-cons_next :
      (n : ℕ) (x y : A) (ys zs xs : List A)
      → x ∷ ys ≡ drop n xs
      → length zs ≡ n
      → ys ≡ drop (length (zs ++ y ∷ [])) xs
  drop-cons_next n x y ys zs xs h e =
      ap (drop 1) h
      ∙ drop-drop n 1 xs
      ∙ ap (λ k. drop k xs) (omega (arith, length-append zs (y ∷ [])))

matched-none : (d : List Handler) → matched d [] ≡ []
matched-none [] = refl
matched-none (h ∷ hs) = refl

matched-more_demands :
    (h : Handler) (d : List Handler) (o : List Conn)
    → length o ≤ length d
    → matched (d ++ h ∷ []) o ≡ matched d o
matched-more_demands h [] [] p = refl
matched-more_demands h [] (c ∷ cs) p = absurd (omega arith)
matched-more_demands h (g ∷ gs) [] p = refl
matched-more_demands h (g ∷ gs) (c ∷ cs) p =
    ap (◌∷◌ (pair g c)) (matched-more_demands h gs cs (omega arith))

matched-more_offers :
    (c : Conn) (d : List Handler) (o : List Conn)
    → length d ≤ length o
    → matched d (o ++ c ∷ []) ≡ matched d o
matched-more_offers c [] o p = refl
matched-more_offers c (g ∷ gs) [] p = absurd (omega arith)
matched-more_offers c (g ∷ gs) (b ∷ bs) p =
    ap (◌∷◌ (pair g b)) (matched-more_offers c gs bs (omega arith))

matched-demand :
    (h : Handler) (c : Conn) (cs : List Conn) (d : List Handler) (o : List Conn)
    → c ∷ cs ≡ drop (length d) o
    → matched (d ++ h ∷ []) o ≡ matched d o ++ pair h c ∷ []
matched-demand h c cs [] [] e = cc e
matched-demand h c cs [] (b ∷ bs) e = ap (λ x. pair h x ∷ []) (cc e)
matched-demand h c cs (g ∷ gs) [] e = cc e
matched-demand h c cs (g ∷ gs) (b ∷ bs) e = ap (◌∷◌ (pair g b)) (matched-demand h c cs gs bs e)

matched-offer :
    (h : Handler) (c : Conn) (hs : List Handler) (d : List Handler) (o : List Conn)
    → h ∷ hs ≡ drop (length o) d
    → matched d (o ++ c ∷ []) ≡ matched d o ++ pair h c ∷ []
matched-offer h c hs [] [] e = cc e
matched-offer h c hs [] (b ∷ bs) e = cc e
matched-offer h c hs (g ∷ gs) [] e =
    ap (λ x. pair x c ∷ matched gs []) (cc e) ∙ ap (◌∷◌ (pair h c)) (matched-none gs)
matched-offer h c hs (g ∷ gs) (b ∷ bs) e = ap (◌∷◌ (pair g b)) (matched-offer h c hs gs bs e)

-- Each operation does what the specification does.
request-Implements :
    (h : Handler) (p : List Conn) (q : List Handler) (l : List Conn) (k : List Call) (m : Matching)
    → Implements (system p q l k) m
    → Implements (run (request h) (system p q l k)) (extend (request h) m)
unfolding run get_connection
request-Implements h [] q l k m v =
    let shorter = drop-nil (length m.demands) m.offers v.pool in
    record {
      calls = v.calls ∙ sym (matched-more_demands h m.demands m.offers shorter);
      pool = sym (
          drop_all (length (m.demands ++ h ∷ [])) m.offers
            (omega (arith, length-append m.demands (h ∷ []))));
      queue =
          ap (λ x. x ++ h ∷ []) v.queue
          ∙ sym (drop-append (length m.offers) m.demands (h ∷ []) shorter);
    }
request-Implements h (c ∷ cs) q l k m v =
    let longer = drop-cons (length m.demands) c cs m.offers v.pool in
    record {
      calls =
          ap (λ x. x ++ pair h c ∷ []) v.calls
          ∙ sym (matched-demand h c cs m.demands m.offers v.pool);
      pool = drop-cons_next (length m.demands) c h cs m.demands m.offers v.pool refl;
      queue =
          v.queue
          ∙ drop_all (length m.offers) m.demands (omega arith)
          ∙ sym (
              drop_all (length m.offers) (m.demands ++ h ∷ [])
                (omega (arith, length-append m.demands (h ∷ []))));
    }

give_back-Implements :
    (c : Conn) (p : List Conn) (q : List Handler) (l : List Conn) (k : List Call) (m : Matching)
    → Implements (system p q l k) m
    → Implements (run (give_back c) (system p q l k)) (extend (give_back c) m)
unfolding run return_to_pool
give_back-Implements c p [] l k m v =
    let shorter = drop-nil (length m.offers) m.demands v.queue in
    record {
      calls = v.calls ∙ sym (matched-more_offers c m.demands m.offers shorter);
      pool =
          ap (λ x. x ++ c ∷ []) v.pool
          ∙ sym (drop-append (length m.demands) m.offers (c ∷ []) shorter);
      queue = sym (
          drop_all (length (m.offers ++ c ∷ [])) m.demands
            (omega (arith, length-append m.offers (c ∷ []))));
    }
give_back-Implements c p (h ∷ hs) l k m v =
    let longer = drop-cons (length m.offers) h hs m.demands v.queue in
    record {
      calls =
          ap (λ x. x ++ pair h c ∷ []) v.calls
          ∙ sym (matched-offer h c hs m.demands m.offers v.queue);
      pool =
          v.pool
          ∙ drop_all (length m.demands) m.offers (omega arith)
          ∙ sym (
              drop_all (length m.demands) (m.offers ++ c ∷ [])
                (omega (arith, length-append m.offers (c ∷ []))));
      queue = drop-cons_next (length m.offers) h c hs m.offers m.demands v.queue refl;
    }

run-Implements :
    (e : Event) (s : System) (m : Matching) → Implements s m → Implements (run e s) (extend e m)
run-Implements (request h) s m v =
    request-Implements h s.state.pool s.state.request_queue s.leased s.calls m v
run-Implements (give_back c) s m v =
    give_back-Implements c s.state.pool s.state.request_queue s.leased s.calls m v

extend_all-append :
    (es : List Event) (e : Event) (m : Matching)
    → extend_all (es ++ e ∷ []) m ≡ extend e (extend_all es m)
extend_all-append [] e m = refl
extend_all-append (f ∷ es) e m = extend_all-append es e (extend f m)

-- On every run of the pool with its clients, the handlers called so far are those of the requests, each with
-- the connection that was offered at the same place in the order, the first ones in the order of the pool
-- and then each that came back; the pool and the queue have what is left over of the two.
pub Reachable-Implements :
    {conns : List Conn} {es : List Event} {s : System}
    → Reachable conns es s
    → Implements s (extend_all es (record { demands = []; offers = conns }))
unfolding create
Reachable-Implements {conns = conns} started = record {
  calls = refl;
  pool = refl;
  queue = sym (drop_all (length conns) [] (omega arith));
}
Reachable-Implements (step {es} {s} e r p) =
    subst (Implements (run e s)) (sym (extend_all-append es e _))
      (run-Implements e s _ (Reachable-Implements r))
