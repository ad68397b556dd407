-- ===== src/Script/Hook/Calls.antt =====
-- Hook of hook/hook.hpp, and the script hooks of script/hook/hook.hpp with their keys of
-- script/hook/hookutil.hpp: BaseBasicHook over the `translate` of BasicHook or BasicKeyedHook.
pub mod Laws
use Prim.Native.String.{String, ◌++◌}
use mathlib.Core.List.{◌++◌ as append}
use otservpp.Base.{List, [], ◌∷◌, Option, none, some}
use otservpp.Script.Lua.{
  Luabind, Exception, Result, ok, throws, luabind_error, undefined, ◌>>=◌, rethrow, object_cast,
}
use otservpp.Script.Hook.Translation.{Members, KeyOf, tuples, Keys, Tuple, translate}

-- `hook::Hook<R(P)>`, a `std::function`.
pub record Hook (P R : Type 0) : Type 0 where
  pub hook : P → R

unfoldable pub assign : {P R : Type 0} → (P → R) → Hook P R → Hook P R
assign h self = record self { hook = h }

unfoldable pub call_hook : {P R : Type 0} → Hook P R → P → R
call_hook self arg = self.hook arg

-- `HookKeys`: its constructor stores the keys, the call gives them for every object.
pub record HookKeys {N : Type 0} (ms : Members N) : Type 0 where
  pub keys : Keys ms

unfoldable pub keys_of : {N O : Type 0} {ms : Members N} → HookKeys ms → O → Keys ms
keys_of self obj = self.keys

-- `v(vkey, ekey...)`
unfoldable pub v : {N : Type 0} (ms : Members N) → String → Keys ms → KeyOf (tuples ms)
v ms vkey ekeys = (vkey, ekeys)

-- The function that a script hook stands for, and the lines of the log.
pub record ScriptHook (L : Luabind) : Type 0 where
  pub func : Option L.Object
  pub log : List String

abbrev pub optional : Option String → String
optional none = ""
optional (some s) = s

unfoldable pub error_at_key : Option String → String
error_at_key none = ""
error_at_key (some key) = "\"\nerror at key \"" ++ key ++ "\" "

unfoldable pub expected_structure : Exception → String
unfolding error_at_key
expected_structure e =
    "expected a return value with the following the structure \n\""
    ++ ">>error<<"
    ++ error_at_key e.translation_key

unfoldable pub log_line : Exception → String
log_line e =
    "in execution of script hook \"<todo>\"\n"
    ++ optional e.value_translation
    ++ optional e.invalid_argument

module _ (L : Luabind) where
  -- `attach()` and `detach()` do nothing in the classes here.
  unfoldable pub hook_up : L.Object → ScriptHook L → ScriptHook L
  hook_up f self = record self { func = some f }

  unfoldable pub unhook : ScriptHook L → ScriptHook L
  unhook self = record self { func = none }

  unfoldable pub get_script_function : ScriptHook L → Option L.Object
  get_script_function self = self.func

  -- `BasicHook::translate`
  unfoldable pub translate_value : (T : L.Native) → L.Object → Result (L.Value T)
  unfolding object_cast
  translate_value T obj = object_cast L T obj

  -- `BasicKeyedHook::translate`
  unfoldable pub translate_keyed :
      (ms : Members L.Native) → HookKeys ms → L.Object → Result (Tuple L.Value ms)
  unfolding keys_of translate expected_structure
  translate_keyed ms keys obj =
      rethrow (λ (e : Exception). record e { value_translation = some (expected_structure e) })
        (translate L ms obj (keys_of keys obj))

  -- The end of the call: the handler logs an exception and throws it again.
  unfoldable pub log_exception : {R : Type 0} → ScriptHook L → Result R → Result R × ScriptHook L
  unfolding log_line
  log_exception self (throws e) =
      (throws e, record self { log = append self.log (log_line e ∷ []) })
  log_exception self r = (r, self)

  -- `luabind::call_function` is `call`, which gives an object or throws a `luabind::error`.
  module _ (Args : Type 0) (call : L.Object → Args → Option L.Object) where
    unfoldable pub call_script_function : Option L.Object → Args → Result L.Object
    call_script_function none args = undefined
    call_script_function (some f) args = elim (call f args) [
      | none ↦ luabind_error
      | some obj ↦ ok obj
    ]

    -- The function call operator: the result and the hook by then.
    unfoldable pub call_operator :
        (R : Type 0) → (L.Object → Result R) → ScriptHook L → Args → Result R × ScriptHook L
    unfolding call_script_function log_exception
    call_operator R derived self args =
        log_exception self (call_script_function self.func args >>= derived)
