-- ===== src/Lambdas/Traits.antt =====
-- function_traits and LambdaTraits of lambdautil.hpp, and the overloads of scheduler.hpp that they choose
-- between. A program that the compiler refuses is `none`.
use otservpp.Base.{
  ℕ, ◌≤◌, ◌≡◌, refl, List, [], ◌∷◌, Option, none, some, Bool, false, ◌==◌, if◌then◌else◌, length,
  arith,
}
use otservpp.Base.Options.{◌>>=◌}

-- The types that are called, with results and parameters by name: a class with one call operator that is no
-- template, and Lambda, whose call operator is one. `is_const` is that of the call operator.
pub data CppType (Name : Type 0) : Type 0 where
  scalar : Name → CppType Name
  function : Name → List Name → CppType Name
  function_pointer : Name → List Name → CppType Name
  member_pointer : (class_ : Name) (is_const : Bool) → Name → List Name → CppType Name
  closure : (is_const : Bool) → Name → List Name → CppType Name
  std_function : CppType Name → CppType Name
  reference : CppType Name → CppType Name
  lambda : CppType Name → CppType Name

-- `arg1_type` and so on are the elements of `arg_types`.
pub record Traits (Name : Type 0) : Type 0 where
  pub result_type : Name
  pub arity : ℕ
  pub arg_types : List Name

module _ {Name : Type 0} where
  -- `def_arg` is defined for one, two and three types.
  unfoldable pub def_arg : List Name → Option (List Name)
  def_arg [] = none
  def_arg (t1 ∷ []) = some (t1 ∷ [])
  def_arg (t1 ∷ t2 ∷ []) = some (t1 ∷ t2 ∷ [])
  def_arg (t1 ∷ t2 ∷ t3 ∷ []) = some (t1 ∷ t2 ∷ t3 ∷ [])
  def_arg (t1 ∷ t2 ∷ t3 ∷ t4 ∷ ts) = none

  -- The specialisation for `Ret(Args...)`.
  unfoldable pub traits_of : Name → List Name → Option (Traits Name)
  unfolding def_arg
  traits_of ret args = def_arg args >>= λ ts.
      some (record { result_type = ret; arity = length args; arg_types = ts })

  unfoldable pub function_traits : CppType Name → Option (Traits Name)
  unfolding traits_of
  function_traits (scalar t) = none
  function_traits (function ret args) = traits_of ret args
  function_traits (function_pointer ret args) = traits_of ret args
  function_traits (member_pointer t is_const ret args) = traits_of ret args
  function_traits (closure is_const ret args) = traits_of ret args
  function_traits (std_function t) = function_traits t
  function_traits (reference t) = function_traits t
  function_traits (lambda t) = none

  unfoldable pub lambda_traits : CppType Name → Option (Traits Name)
  unfolding function_traits
  lambda_traits (lambda t) = lambda_traits t
  lambda_traits (scalar t) = function_traits (scalar t)
  lambda_traits (function ret args) = function_traits (function ret args)
  lambda_traits (function_pointer ret args) = function_traits (function_pointer ret args)
  lambda_traits (member_pointer t is_const ret args) =
      function_traits (member_pointer t is_const ret args)
  lambda_traits (closure is_const ret args) = function_traits (closure is_const ret args)
  lambda_traits (std_function t) = function_traits (std_function t)
  lambda_traits (reference t) = function_traits (reference t)

  -- `enable_if` of an overload on an arity.
  unfoldable pub has_arity : ℕ → CppType Name → Bool
  unfolding function_traits
  has_arity n t = elim (function_traits t) [ none ↦ false | some traits ↦ traits.arity == n ]

  -- The overloads of `schedule`, and the constructors of IntervalTask, that are left of two, by the arity
  -- that they are for.
  unfoldable pub overloads : CppType Name → List ℕ
  unfolding has_arity
  overloads t =
      if has_arity 1 t
      then (if has_arity 2 t then 1 ∷ 2 ∷ [] else 1 ∷ [])
      else (if has_arity 2 t then 2 ∷ [] else [])

  -- What a type is called with, Lambda left aside, whose call operator is a template.
  pub data CallsAs : CppType Name → Name → List Name → Type 0 where
    of_function : {ret : Name} {args : List Name} → CallsAs (function ret args) ret args
    of_pointer : {ret : Name} {args : List Name} → CallsAs (function_pointer ret args) ret args
    of_member :
        {t ret : Name} {is_const : Bool} {args : List Name}
        → CallsAs (member_pointer t is_const ret args) ret args
    of_closure :
        {ret : Name} {is_const : Bool} {args : List Name}
        → CallsAs (closure is_const ret args) ret args
    of_std_function :
        {t : CppType Name} {ret : Name} {args : List Name}
        → CallsAs t ret args
        → CallsAs (std_function t) ret args
    of_reference :
        {t : CppType Name} {ret : Name} {args : List Name}
        → CallsAs t ret args
        → CallsAs (reference t) ret args

  -- So many parameters have traits.
  abbrev pub IsCounted : List Name → Type 0
  IsCounted args = (1 ≤ length args) × (length args ≤ 3)

  abbrev pub signature : Name → List Name → Traits Name
  signature ret args = record { result_type = ret; arity = length args; arg_types = args }

  traits_of-signature :
      (ret : Name) (args : List Name)
      → IsCounted args
      → traits_of ret args ≡ some (signature ret args)
  unfolding traits_of
  traits_of-signature ret [] h = absurd (omega (arith, h.0))
  traits_of-signature ret (t1 ∷ []) h = refl
  traits_of-signature ret (t1 ∷ t2 ∷ []) h = refl
  traits_of-signature ret (t1 ∷ t2 ∷ t3 ∷ []) h = refl
  traits_of-signature ret (t1 ∷ t2 ∷ t3 ∷ t4 ∷ ts) h = absurd (omega (arith, h.1))

  -- The traits are those of a call with one, two or three parameters.
  abbrev pub AreTraits : CppType Name → Traits Name → Type 0
  AreTraits t traits =
      (ret : Name) × (args : List Name) × CallsAs t ret args
      × IsCounted args
      × (traits ≡ signature ret args)

  signature-traits_of :
      (t : CppType Name) (ret : Name) (args : List Name) (traits : Traits Name)
      → CallsAs t ret args
      → traits_of ret args ≡ some traits
      → AreTraits t traits
  unfolding traits_of
  signature-traits_of t ret [] traits c e = cc
  signature-traits_of t ret (t1 ∷ []) traits c e = (ret, t1 ∷ [], c, omega arith, cc)
  signature-traits_of t ret (t1 ∷ t2 ∷ []) traits c e = (ret, t1 ∷ t2 ∷ [], c, omega arith, cc)
  signature-traits_of t ret (t1 ∷ t2 ∷ t3 ∷ []) traits c e =
      (ret, t1 ∷ t2 ∷ t3 ∷ [], c, omega arith, cc)
  signature-traits_of t ret (t1 ∷ t2 ∷ t3 ∷ t4 ∷ ts) traits c e = cc

  function_traits_of :
      (t : CppType Name) (ret : Name) (args : List Name)
      → CallsAs t ret args
      → IsCounted args
      → function_traits t ≡ some (signature ret args)
  unfolding function_traits
  function_traits_of _ ret args of_function h = traits_of-signature ret args h
  function_traits_of _ ret args of_pointer h = traits_of-signature ret args h
  function_traits_of _ ret args of_member h = traits_of-signature ret args h
  function_traits_of _ ret args of_closure h = traits_of-signature ret args h
  function_traits_of _ ret args (of_std_function c) h = function_traits_of _ ret args c h
  function_traits_of _ ret args (of_reference c) h = function_traits_of _ ret args c h

  function_traits-AreTraits :
      (t : CppType Name) (traits : Traits Name)
      → function_traits t ≡ some traits
      → AreTraits t traits
  unfolding function_traits
  function_traits-AreTraits (scalar t) traits e = cc
  function_traits-AreTraits (function ret args) traits e =
      signature-traits_of _ ret args traits of_function e
  function_traits-AreTraits (function_pointer ret args) traits e =
      signature-traits_of _ ret args traits of_pointer e
  function_traits-AreTraits (member_pointer t is_const ret args) traits e =
      signature-traits_of _ ret args traits of_member e
  function_traits-AreTraits (closure is_const ret args) traits e =
      signature-traits_of _ ret args traits of_closure e
  function_traits-AreTraits (std_function t) traits e =
      let (ret, args, c, counted, same) = function_traits-AreTraits t traits e in
      (ret, args, of_std_function c, counted, same)
  function_traits-AreTraits (reference t) traits e =
      let (ret, args, c, counted, same) = function_traits-AreTraits t traits e in
      (ret, args, of_reference c, counted, same)
  function_traits-AreTraits (lambda t) traits e = cc

  -- A type other than a Lambda has traits exactly if it is called with one, two or three parameters, through
  -- references and std::function as it may be, and they are then the result and the parameters of that call.
  pub function_traits_lem :
      (t : CppType Name)
      → ((ret : Name) (args : List Name)
          → CallsAs t ret args
          → IsCounted args
          → function_traits t ≡ some (signature ret args))
        × ((traits : Traits Name) → function_traits t ≡ some traits → AreTraits t traits)
  function_traits_lem t = (
    λ ret args c h. function_traits_of t ret args c h,
    λ traits e. function_traits-AreTraits t traits e,
  )

  has_arity-signature :
      (n : ℕ) (t : CppType Name) (ret : Name) (args : List Name)
      → CallsAs t ret args
      → IsCounted args
      → has_arity n t ≡ (length args == n)
  unfolding has_arity
  has_arity-signature n t ret args c h = rw (function_traits_of t ret args c h, has_arity) refl

  -- A task is started by one overload, that for its number of parameters, if it is called with one or two
  -- parameters; with three there is no overload.
  pub overloads_lem :
      (t : CppType Name) (ret : Name) (args : List Name)
      → CallsAs t ret args
      → IsCounted args
      → overloads t ≡ (if length args == 3 then [] else length args ∷ [])
  unfolding overloads
  overloads_lem t ret args c h =
      rw (has_arity-signature 1 t ret args c h, has_arity-signature 2 t ret args c h, overloads)
        (ground (arith, h.0, h.1))
