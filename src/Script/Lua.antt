-- ===== src/Script/Lua.antt =====
-- Exceptions of script/scriptexcep.hpp and exception.hpp, and the checks of Lua values there. Lua and
-- luabind are the record `Luabind`.
pub mod Laws
use Prim.Native.String.{String, ◌++◌}
use otservpp.Base.{ℕ, Bool, true, false, not, List, Option, none, some, ◌==◌, if◌then◌else◌}

-- `luabind::object_cast`, whose exception has a text.
pub data Cast (A : Type 0) : Type 0 where
  converted : A → Cast A
  cast_failed : String → Cast A

-- What is used of Lua and luabind: the objects, the types that convert, the type of an object, its
-- value at a key, the values that an iterator gives in turn, the names of types, and the text on top of
-- the stack, if it is one.
pub record Luabind : Type 1 where
  pub Object : Type 0
  pub Native : Type 0
  pub Value : Native → Type 0
  pub lua_type : Object → ℕ
  pub index : Object → String → Object
  pub iterate : Object → List Object
  pub cast : (T : Native) → Object → Cast (Value T)
  pub typename : ℕ → String
  pub stack_top : Object → Option String

-- The infos that an exception carries.
pub record Exception : Type 0 where
  pub invalid_argument : Option String
  pub translation_key : Option String
  pub value_translation : Option String

-- A call returns, throws an Exception or a `luabind::error`, or makes a `std::string` of a null
-- pointer or a call of no function.
pub data Result {ℓ} (A : Type ℓ) : Type ℓ where
  ok : A → Result A
  throws : Exception → Result A
  luabind_error : Result A
  undefined : Result A

infixl 5 ◌>>=◌ ◌>>◌
abbrev pub ◌>>=◌ {ℓ κ} : {A : Type ℓ} {B : Type κ} → Result A → (A → Result B) → Result B
ok a >>= f = f a
throws e >>= f = throws e
luabind_error >>= f = luabind_error
undefined >>= f = undefined

abbrev pub ◌>>◌ {ℓ} : {B : Type ℓ} → Result (Unit {0}) → Result B → Result B
r >> s = r >>= λ _. s

-- `catch(Exception& e){ ...; throw; }`, where the handler adds to the exception.
abbrev pub rethrow {ℓ} : {A : Type ℓ} → (Exception → Exception) → Result A → Result A
rethrow f (ok a) = ok a
rethrow f (throws e) = throws (f e)
rethrow f luabind_error = luabind_error
rethrow f undefined = undefined

-- `InvalidScriptArgument() << ErrorInfoInvalidArgument(text)`
unfoldable pub invalid_script_argument : String → Exception
invalid_script_argument text = record {
  invalid_argument = some text;
  translation_key = none;
  value_translation = none;
}

abbrev pub lua_table : ℕ
lua_table = 5

abbrev pub lua_function : ℕ
lua_function = 6

unfoldable pub is_any_of_type : ℕ → ℕ → Bool
is_any_of_type given expected = given == expected

module _ (L : Luabind) where
  unfoldable pub object_cast : (T : L.Native) → L.Object → Result (L.Value T)
  unfolding invalid_script_argument
  object_cast T obj = elim (L.cast T obj) [
    | converted v ↦ ok v
    | cast_failed what ↦ elim (L.stack_top obj) [
      | none ↦ undefined
      | some text ↦ throws (invalid_script_argument ("[from objectCast] " ++ what ++ "  " ++ text))
    ]
  ]

  -- With one expected type, as it is called.
  unfoldable pub expect_any_of : L.Object → ℕ → Result (Unit {0})
  unfolding is_any_of_type invalid_script_argument
  expect_any_of obj expected =
      if not (is_any_of_type (L.lua_type obj) expected)
      then throws (
          invalid_script_argument (
            "value of type ["
            ++ L.typename expected
            ++ "] expected; given value is of type ["
            ++ L.typename (L.lua_type obj)
            ++ "]"))
      else ok tt

  unfoldable pub expect_function : L.Object → Result (Unit {0})
  unfolding expect_any_of
  expect_function given = expect_any_of given lua_function

  unfoldable pub expect_table : L.Object → Result (Unit {0})
  unfolding expect_any_of
  expect_table given = expect_any_of given lua_table

  unfoldable pub is_table : L.Object → Bool
  unfolding is_any_of_type
  is_table obj = is_any_of_type (L.lua_type obj) lua_table
