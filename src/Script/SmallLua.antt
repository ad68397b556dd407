-- ===== src/Script/SmallLua.antt =====
-- A small Lua for tests: numbers, texts, tables, and functions that ignore their arguments.
use Prim.Native.String.{String}
use package.text.Mathlib.Text.{◌==◌}
use otservpp.Base.{ℕ, List, [], ◌∷◌, Option, none, some, if◌then◌else◌}
use otservpp.Script.Lua.{Luabind, Cast, converted, cast_failed, lua_table}
use otservpp.Script.Hook.Calls.{ScriptHook, hook_up}

mutual
  pub data Object : Type 0 where
    nil : Object
    number : ℕ → Object
    text : String → Object
    function : Object → Object
    table : Entries → Object

  pub data Entries : Type 0 where
    end : Entries
    entry : String → Object → Entries → Entries

abbrev pub lookup : String → Entries → Object
lookup k end = nil
lookup k (entry j o es) = if j == k then o else lookup k es

abbrev pub values : Entries → List Object
values end = []
values (entry j o es) = o ∷ values es

abbrev pub type_of : Object → ℕ
type_of nil = 0
type_of (number n) = 3
type_of (text s) = 4
type_of (function o) = 6
type_of (table es) = lua_table

abbrev pub at : Object → String → Object
at (table es) k = lookup k es
at _ k = nil

abbrev pub elements : Object → List Object
elements (table es) = values es
elements _ = []

pub data Native : Type 0 where
  int : Native
  str : Native

abbrev pub Value : Native → Type 0
Value int = ℕ
Value str = String

abbrev pub convert : (T : Native) → Object → Cast (Value T)
convert int (number n) = converted n
convert str (text s) = converted s
convert int _ = cast_failed "no number"
convert str _ = cast_failed "no string"

abbrev pub small_lua : Luabind
small_lua = record {
  Object = Object;
  Native = Native;
  Value = Value;
  lua_type = type_of;
  index = at;
  iterate = elements;
  cast = convert;
  typename = λ n. "table";
  stack_top = λ o. some "top";
}

-- A script's function that ignores its arguments.
abbrev pub call : Object → ℕ → Option Object
call (function o) args = some o
call _ args = none

abbrev pub hooked : Object → ScriptHook small_lua
hooked o = hook_up small_lua (function o) (record { func = none; log = [] })
