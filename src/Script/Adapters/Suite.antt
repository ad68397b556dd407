-- ===== src/Script/Adapters/Suite.antt =====
-- otservpptest/script/adaptersettest.cpp, with the names that `typeid` gives as arguments.
use Prim.Native.String.{String}
use package.text.Mathlib.Text.{◌==◌}
use package.text.Mathlib.TextEquality.{eq_iff}
use otservpp.Base.{
  ◌≡◌, ◌≢◌, refl, [], ◌∷◌, Bool, true, false, not, ◌&&◌, none, some, if◌then◌else◌, arith,
}
use otservpp.Script.Adapters.{
  Adapter, type_adapter, basic_adapter, global_instance_adapter, equal_adaptee, contains, insert,
  static_insert, static_inserts, apply,
}

-- The flags that the adapters set, and the function that one of them defines in Lua.
pub record Flags : Type 0 where
  pub adapter1_ran : Bool
  pub adapter2_ran : Bool
  pub flag : Bool
  pub defines_test_func : Bool

unfoldable pub set_up : Flags
set_up = record {
  adapter1_ran = false;
  adapter2_ran = false;
  flag = false;
  defines_test_func = false;
}

unfoldable pub test_adapter1 : String → Adapter Flags
unfolding type_adapter
test_adapter1 name = type_adapter name (λ L. record L { adapter1_ran = true })

unfoldable pub test_adapter2 : String → Adapter Flags
unfolding type_adapter
test_adapter2 name = type_adapter name (λ L. record L { adapter2_ran = true })

unfoldable pub function_adapter : String → Adapter Flags
unfolding global_instance_adapter
function_adapter name =
    global_instance_adapter name "testFunc" (λ L. record L { defines_test_func = true })

-- `luaL_dostring(L, "testFunc()")`, whose result the test does not look at.
unfoldable pub do_test_func : Flags → Flags
do_test_func L = if L.defines_test_func then record L { flag = not L.flag } else L

-- The static adapters are those of the test's file.
unfoldable pub applies_type_static_adapters : String → String → Bool
unfolding static_insert apply set_up test_adapter1 test_adapter2
applies_type_static_adapters name1 name2 =
    elim (static_inserts (test_adapter1 name1 ∷ test_adapter2 name2 ∷ []) []) [
      | none ↦ false
      | some set ↦ (apply set set_up).adapter1_ran && (apply set set_up).adapter2_ran
    ]

unfoldable pub applies_global_instance_adapters : String → Bool
unfolding insert apply set_up function_adapter do_test_func
applies_global_instance_adapters name =
    let L = do_test_func (apply (insert (function_adapter name) []).0 set_up) in
    L.flag && not (do_test_func L).flag

unfoldable pub does_not_allow_duplicated_adapters : String → Bool
unfolding insert function_adapter
does_not_allow_duplicated_adapters name =
    let first = insert (function_adapter name) [] in
    first.1 && not (insert (function_adapter name) first.0).1

text_self : (s : String) → (s == s) ≡ true
text_self s = (eq_iff s s).1 refl

text_ne : (s t : String) → s ≢ t → (t == s) ≡ false
text_ne s t differ = ground (arith, eq_iff t s)

static-passes :
    (name1 name2 : String) → name1 ≢ name2 → applies_type_static_adapters name1 name2 ≡ true
unfolding applies_type_static_adapters contains equal_adaptee basic_adapter
static-passes name1 name2 differ = ground (arith, text_ne name1 name2 differ)

duplicated-passes : (name : String) → does_not_allow_duplicated_adapters name ≡ true
unfolding does_not_allow_duplicated_adapters contains equal_adaptee basic_adapter
duplicated-passes name = rw (text_self (function_adapter name).adaptee) refl

-- The tests of adapter sets pass, if the names of the two dummy types differ.
pub adapter_tests_lem :
    (name1 name2 name : String)
    → name1 ≢ name2
    → (applies_type_static_adapters name1 name2
        && applies_global_instance_adapters name
        && does_not_allow_duplicated_adapters name)
      ≡ true
unfolding applies_global_instance_adapters contains basic_adapter
adapter_tests_lem name1 name2 name differ =
    rw (static-passes name1 name2 differ, duplicated-passes name) refl
