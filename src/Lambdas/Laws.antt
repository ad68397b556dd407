-- ===== src/Lambdas/Laws.antt =====
-- What lambdaBind gives, called once and again, and how nested scoped operations end.
use mathlib.Core.Path.{ap₂}
use otservpp.Base.{
  map-append, ℕ, ◌≡◌, refl, sym, ap, ◌∙◌, List, [], ◌∷◌, ◌++◌, false, map, All, if◌then◌else◌,
  append_assoc, append-nil,
}
use otservpp.Lambdas.{Capture, Lambda, forward, lambda_bind, call, Ended, leaves, throws, scoped}

map-forward :
    {A : Type 0} (moved_from : A → A) (cs : List (Capture A))
    → All (λ c. c.is_rvalue ≡ false) cs
    → map (forward moved_from) cs ≡ cs
unfolding forward
map-forward moved_from [] h = refl
map-forward moved_from (c ∷ cs) h =
    ap₂ ◌∷◌ (ap (λ b. if b then record c { value = moved_from c.value } else c) h.0)
      (map-forward moved_from cs h.1)

module _ {A R : Type 0} (moved_from : A → A) where
  -- To bind a bound function is to bind it once: the captures that are bound first come first.
  pub call-lambda_bind :
      (f : List A → R) (first second : List (Capture A)) (args : List A)
      → (call moved_from
          (lambda_bind (λ xs. (call moved_from (lambda_bind f first) xs).0) second)
          args).0
        ≡ (call moved_from (lambda_bind f (first ++ second)) args).0
  unfolding call lambda_bind
  call-lambda_bind f first second args = ap f (
      sym (append_assoc (map (λ c. c.value) first) (map (λ c. c.value) second) args)
      ∙ ap (λ xs. xs ++ args) (sym (map-append (λ (c : Capture A). c.value) first second)))

  -- A function object whose captures were all given as lvalues is as it was after a call.
  pub call-reusable :
      (l : Lambda A R) (args : List A)
      → All (λ c. c.is_rvalue ≡ false) l.captures
      → (call moved_from l args).1 ≡ l
  unfolding call
  call-reusable l args h =
      ap (λ cs. record l { captures = cs }) (map-forward moved_from l.captures h)

-- What a block of nested scoped operations writes down.
pub data Mark : Type 0 where
  entered : ℕ → Mark
  left : ℕ → Mark
  done : ℕ → Mark

abbrev pub nested : List ℕ → (List Mark → Ended (List Mark)) → List Mark → Ended (List Mark)
nested [] body log = body log
nested (i ∷ is) body log =
    scoped (λ s. leaves (s ++ entered i ∷ [])) (λ s. s ++ left i ∷ []) (nested is body) log

-- The same way to end, with more in the log.
abbrev pub extend : List Mark → Ended (List Mark) → Ended (List Mark)
extend ms (leaves s) = leaves (s ++ ms)
extend ms (throws s) = throws (s ++ ms)

abbrev pub exits : List ℕ → List Mark
exits [] = []
exits (i ∷ is) = exits is ++ left i ∷ []

extend-nil : (e : Ended (List Mark)) → e ≡ extend [] e
extend-nil (leaves s) = ap leaves (sym (append-nil s))
extend-nil (throws s) = ap throws (sym (append-nil s))

close : (i : ℕ) (ms : List Mark) → Ended (List Mark) → Ended (List Mark)
close i ms e = extend (left i ∷ []) (extend ms e)

close-extend :
    (i : ℕ) (ms : List Mark) (e : Ended (List Mark)) → close i ms e ≡ extend (ms ++ left i ∷ []) e
unfolding close
close-extend i ms (leaves s) = ap leaves (append_assoc s ms (left i ∷ []))
close-extend i ms (throws s) = ap throws (append_assoc s ms (left i ∷ []))

scoped-extend :
    (i : ℕ) (body : List Mark → Ended (List Mark)) (log : List Mark)
    → scoped (λ s. leaves (s ++ entered i ∷ [])) (λ s. s ++ left i ∷ []) body log
      ≡ extend (left i ∷ []) (body (log ++ entered i ∷ []))
unfolding scoped
scoped-extend i body log = go (body (log ++ entered i ∷ []))
  where
    go :
        (e : Ended (List Mark))
        → elim e [ leaves t ↦ leaves (t ++ left i ∷ []) | throws t ↦ throws (t ++ left i ∷ []) ]
          ≡ extend (left i ∷ []) e
    go (leaves t) = refl
    go (throws t) = refl

-- Nested scoped operations are left in the reverse order, whether the block is left or throws.
pub nested_lem :
    (is : List ℕ) (body : List Mark → Ended (List Mark)) (log : List Mark)
    → nested is body log ≡ extend (exits is) (body (log ++ map entered is))
unfolding close
nested_lem [] body log = ap body (sym (append-nil log)) ∙ extend-nil (body (log ++ []))
nested_lem (i ∷ is) body log =
    scoped-extend i (nested is body) log
    ∙ ap (extend (left i ∷ [])) (nested_lem is body (log ++ entered i ∷ []))
    ∙ close-extend i (exits is) (body ((log ++ entered i ∷ []) ++ map entered is))
    ∙ ap (λ l. extend (exits is ++ left i ∷ []) (body l))
        (append_assoc log (entered i ∷ []) (map entered is))
