-- ===== src/Sql/Mysql/Handlers.antt =====
-- Which handlers the operations of mysql::Service in sql/mysqlservice.h take, by the overloads of
-- doPostHandler, and what they are called with behind the error. A program that the compiler refuses is
-- `none` or `false`. Handlers take their values by value or by constant reference.
pub mod Laws
mod Tests
use otservpp.Base.{ℕ, List, [], ◌∷◌, Option, none, some, Bool, true, false, ◌&&◌, if◌then◌else◌}
use otservpp.Sql.Mysql.{Post}
use otservpp.Lambdas.Traits.{CppType, function_traits}

-- A boost::system::error_code, a std::uint64_t, a std::vector of these and a PreparedHandle.
pub data Kind : Type 0 where
  of_error : Kind
  of_number : Kind
  of_numbers : Kind
  of_handle : Kind

pub data Value : Type 0 where
  number : ℕ → Value
  numbers : List ℕ → Value
  prepared_handle : Value

abbrev pub kind : Value → Kind
kind (number n) = of_number
kind (numbers ns) = of_numbers
kind prepared_handle = of_handle

-- `arg2_type`, where there is one.
abbrev pub arg2_type : {Name : Type 0} → List Name → Option Name
arg2_type [] = none
arg2_type (a ∷ []) = none
arg2_type (a ∷ b ∷ ts) = some b

-- What the templates post to a handler behind the error: those of `connect`, of `prepareQuery`, and of
-- `runPrepared` for a row and for a set of rows, in which that of the error is instantiated too.
abbrev pub connect_posts : List (Option Value)
connect_posts = none ∷ []

abbrev pub prepare_posts : List (Option Value)
prepare_posts = some prepared_handle ∷ []

abbrev pub row_posts : List (Option Value)
row_posts = none ∷ some (number 1) ∷ []

abbrev pub rows_posts : List (Option Value)
rows_posts = none ∷ []

-- The number of rows of a post, if any, as the argument behind the error.
abbrev pub row_count : Post → Option Value
row_count p = elim p.rows [ none ↦ none | some n ↦ some (number n) ]

-- `converts` is `std::is_convertible` of the kinds, to a type that is decayed.
module _ {Name : Type 0} (converts : Kind → Name → Bool) where
  -- `enable_if` on `arg2_type`.
  unfoldable pub takes : Kind → CppType Name → Bool
  takes k t = elim (function_traits t) [
    | none ↦ false
    | some traits ↦ elim (arg2_type traits.arg_types) [ none ↦ false | some b ↦ converts k b ]
  ]

  -- What is bound to the handler behind the error; `none` where two overloads fit equally. That for
  -- handlers of one parameter takes a reference to no temporary, and all calls give one.
  unfoldable pub do_post_handler : CppType Name → Option Value → Option (Option Value)
  do_post_handler t (some v) = some (some v)
  do_post_handler t none =
      if takes of_number t
      then (if takes of_numbers t then none else some (some (number 0)))
      else (if takes of_numbers t then some (some (numbers [])) else some none)

  -- The call operator of the Lambda that is posted.
  abbrev pub fits : List Name → Option Value → Bool
  fits (a ∷ []) none = converts of_error a
  fits (a ∷ b ∷ []) (some v) = converts of_error a && converts (kind v) b
  fits ts v = false

  unfoldable pub is_called : CppType Name → Option Value → Bool
  is_called t v = elim (function_traits t) [ none ↦ false | some traits ↦ fits traits.arg_types v ]

  unfoldable pub compiles_post : CppType Name → Option Value → Bool
  compiles_post t v = elim (do_post_handler t v) [ none ↦ false | some bound ↦ is_called t bound ]

  unfoldable pub compiles : CppType Name → List (Option Value) → Bool
  compiles t [] = true
  compiles t (v ∷ vs) = compiles_post t v && compiles t vs
