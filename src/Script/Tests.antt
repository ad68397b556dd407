-- ===== src/Script/Tests.antt =====
-- Runs of hooks over a small model of Lua, and instances of what is proved of them.
use mathlib.Core.Logic.{◌≢◌, ◌⊎◌}
use otservpp.Base.{ℕ, ◌≡◌, refl, [], ◌∷◌, none, some}
use otservpp.Script.SmallLua.{
  Object, nil, number, text, table, end, entry, type_of, Native, int, str, Value, small_lua, call,
  hooked,
}
use otservpp.Script.Lua.{Exception, ok, throws, lua_table}
use otservpp.Script.Hook.Translation.{single, tuples, Members, last, more, Keys, Tuple, translate}
use otservpp.Script.Hook.Translation.Spec.{HoldsAll}
use otservpp.Script.Hook.Translation.Laws.{translate_lem}
use otservpp.Script.Hook.Translation.Faults.{FaultIn, translate-throws}
use otservpp.Script.Hook.Calls.{HookKeys, hook_up, call_operator, translate_keyed}
use otservpp.Script.Hook.Calls.Laws.{structure_text, logged_text, Returned, call_operator-throws}

-- A result (motd, characters, end) with its keys.
abbrev row : Members Native
row = more (single str) (last (single int))

abbrev shape : Members Native
shape = more (single str) (more (tuples row) (last (single int)))

abbrev shape_keys : Keys shape
shape_keys = ("motd", (("characters", ("name", "port")), "end"))

abbrev character : Object → Object → Object
character name port = table (entry "name" name (entry "port" port end))

abbrev answer : Object → Object
answer port = table (
    entry "motd" (text "hi") (
      entry "characters"
        (table (
          entry "1" (character (text "Ann") (number 7171))
            (entry "2" (character (text "Bob") port) end)))
        (entry "end" (number 3) end)))

abbrev answer_tuple : Tuple Value shape
answer_tuple = ("hi", ((("Ann", 7171) ∷ ("Bob", 7172) ∷ []), 3))

answer_translated : translate small_lua shape (answer (number 7172)) shape_keys ≡ ok answer_tuple
unfolding translate
answer_translated = refl

abbrev port_error : Exception
port_error = record {
  invalid_argument = some "[from objectCast] no number  top";
  translation_key = some "characters[2].port";
  value_translation = none;
}

bad_port_translated : translate small_lua shape (answer (text "x")) shape_keys ≡ throws port_error
unfolding translate
bad_port_translated = refl

translate_lem_example :
    translate small_lua shape (answer (number 7172)) shape_keys ≡ ok answer_tuple
unfolding HoldsAll
translate_lem_example =
    (translate_lem small_lua shape (answer (number 7172)) shape_keys answer_tuple).1
      (refl, ((refl, (refl, (((refl, (refl, refl)), ((refl, (refl, refl)), tt))))), refl))

translate-throws_example :
    (type_of (answer (text "x")) ≢ lua_table)
    ⊎ FaultIn small_lua shape shape_keys (λ key. key) port_error (answer (text "x"))
unfolding translate
translate-throws_example =
    translate-throws small_lua shape (answer (text "x")) shape_keys port_error refl

abbrev answer_keys : HookKeys shape
answer_keys = record { keys = shape_keys }

-- What a script that returns nil causes.
abbrev hook_error : Exception
hook_error = record {
  invalid_argument = some "value of type [table] expected; given value is of type [table]";
  translation_key = none;
  value_translation = some "expected a return value with the following the structure \n\">>error<<";
}

call_operator-throws_example :
    (obj : Object) × (Returned small_lua ℕ call (hooked nil) 0 obj
      × ((x : Exception) × ((hook_error
              ≡ record x { value_translation = some (structure_text x.translation_key) })
            × (((type_of obj ≢ lua_table) ⊎ FaultIn small_lua shape shape_keys (λ key. key) x obj)
                × ((call_operator small_lua ℕ call
                      (Tuple Value shape)
                      (translate_keyed small_lua shape answer_keys)
                      (hooked nil)
                      0).1.log
                    ≡ (logged_text x.translation_key x.invalid_argument ∷ []))))))
unfolding call_operator translate_keyed hook_up
call_operator-throws_example =
    call_operator-throws small_lua ℕ call shape answer_keys (hooked nil) 0 hook_error refl
