-- ===== src/Script/Hook/Suite.antt =====
-- The tests of otservpptest/script/hooktest.cpp, for all values, and for every Lua in which the scripts that
-- they load do what they say.
use otservpp.Base.{◌≡◌, refl, ap, List, [], ◌∷◌, Option, none, some}
use otservpp.Script.Lua.{Luabind, Result, ok, converted, lua_table, object_cast}
use otservpp.Script.Hook.Translation.{Members, last, more, single, tuples, Tuple}
use otservpp.Script.Hook.Translation.Spec.{Holds, HoldsAll, Each}
use otservpp.Script.Hook.Calls.{
  call_hook, HookKeys, v, ScriptHook, hook_up, call_operator, call_script_function, translate_value,
  translate_keyed, log_exception,
}
use otservpp.Script.Hook.Calls.Laws.{call_operator_lem}

-- `str`, `int` and `object` are std::string, int and luabind::object.
module _ (L : Luabind) (str int object : L.Native) where
  abbrev pub TupleResult : Members L.Native
  TupleResult = more (single str) (more (single int) (last (single object)))

  abbrev pub scripted_tuple_keys : HookKeys TupleResult
  scripted_tuple_keys = record { keys = ("str", ("num", "obj")) }

  abbrev pub TupleVectorResult : Members L.Native
  TupleVectorResult = more (single str) (more (tuples TupleResult) (last (single int)))

  unfoldable pub scripted_tuple_vector_keys : HookKeys TupleVectorResult
  unfolding v
  scripted_tuple_vector_keys = record {
    keys = ("str", (v TupleResult "tuples" ("str", ("num", "obj")), "num"));
  }

  -- A hook that was made and hooked up to the function of a script.
  abbrev pub scripted : L.Object → ScriptHook L
  scripted f = hook_up L f (record { func = none; log = [] })

  module _ (Args : Type 0) (call : L.Object → Args → Option L.Object) where
    -- `SimpleHook(s)(...)` and so on: what the copy of the script hook returns or throws.
    unfoldable pub simple_hook : L.Object → Args → Result (L.Value str)
    unfolding call_hook
    simple_hook f = call_hook (record {
      hook = λ args.
          (call_operator L Args call (L.Value str) (translate_value L str) (scripted f) args).0;
    })

    unfoldable pub tuple_hook : L.Object → Args → Result (Tuple L.Value TupleResult)
    unfolding call_hook
    tuple_hook f = call_hook (record {
      hook = λ args.
          (call_operator L Args call (Tuple L.Value TupleResult)
            (translate_keyed L TupleResult scripted_tuple_keys) (scripted f) args).0;
    })

    unfoldable pub tuple_vector_hook : L.Object → Args → Result (Tuple L.Value TupleVectorResult)
    unfolding call_hook
    tuple_vector_hook f = call_hook (record {
      hook = λ args.
          (call_operator L Args call (Tuple L.Value TupleVectorResult)
            (translate_keyed L TupleVectorResult scripted_tuple_vector_keys) (scripted f) args).0;
    })

  -- What the scripts make: an object that luabind converts to a value, the table of the function `tuple`,
  -- and that of `vectorTuple`, whose vector has such tables.
  abbrev pub IsValue : (T : L.Native) → L.Value T → L.Object → Type 0
  IsValue T x o = L.cast T o ≡ converted x

  pub record IsTuple (r : Tuple L.Value TupleResult) (o : L.Object) : Type 0 where
    pub has_str : IsValue str r.0 (L.index o "str")
    pub has_num : IsValue int r.1.0 (L.index o "num")
    pub has_obj : IsValue object r.1.1 (L.index o "obj")

  pub record IsTupleVector (r : Tuple L.Value TupleVectorResult) (o : L.Object) : Type 0 where
    pub has_str : IsValue str r.0 (L.index o "str")
    pub has_tuples : L.lua_type (L.index o "tuples") ≡ lua_table
    pub each : Each L (Tuple L.Value TupleResult) IsTuple r.1.0 (L.iterate (L.index o "tuples"))
    pub has_num : IsValue int r.1.1 (L.index o "num")

  IsTuple-HoldsAll :
      (r : Tuple L.Value TupleResult) (o : L.Object)
      → IsTuple r o
      → HoldsAll L TupleResult ("str", ("num", "obj")) r o
  unfolding HoldsAll Holds
  IsTuple-HoldsAll r o h = ((h.has_obj, h.has_num), h.has_str)

  Each-HoldsAll :
      (rs : List (Tuple L.Value TupleResult)) (os : List L.Object)
      → Each L (Tuple L.Value TupleResult) IsTuple rs os
      → Each L (Tuple L.Value TupleResult) (HoldsAll L TupleResult ("str", ("num", "obj"))) rs os
  Each-HoldsAll [] [] h = h
  Each-HoldsAll [] (o ∷ os) h = h
  Each-HoldsAll (r ∷ rs) [] h = h
  Each-HoldsAll (r ∷ rs) (o ∷ os) h = ((h.0.0, IsTuple-HoldsAll r o h.0.1), Each-HoldsAll rs os h.1)

  module _ {Args : Type 0} (call : L.Object → Args → Option L.Object) where
    -- ReturnsTrivialValue: the hook returns the value that luabind makes of what the function returned.
    simple_hook-returns :
        (f o : L.Object) (args : Args) (x : L.Value str)
        → call f args ≡ some o
        → IsValue str x o
        → simple_hook Args call f args ≡ ok x
    unfolding simple_hook call_hook call_operator call_script_function translate_value object_cast
        log_exception hook_up
    simple_hook-returns f o args x called is = rw (called, is) refl

    -- TranslatesLuaTableIntoTuple.
    tuple_hook-returns :
        (f o : L.Object) (args : Args) (r : Tuple L.Value TupleResult)
        → call f args ≡ some o
        → L.lua_type o ≡ lua_table
        → IsTuple r o
        → tuple_hook Args call f args ≡ ok r
    unfolding tuple_hook call_hook hook_up
    tuple_hook-returns f o args r called is_table is =
        ap (λ p. p.0)
          ((call_operator_lem L Args call TupleResult scripted_tuple_keys (scripted f) args r).1
            (o, ((f, (refl, called)), (is_table, IsTuple-HoldsAll r o is))))

    -- TranslatesLuaTableIntoVectorTuple.
    tuple_vector_hook-returns :
        (f o : L.Object) (args : Args) (r : Tuple L.Value TupleVectorResult)
        → call f args ≡ some o
        → L.lua_type o ≡ lua_table
        → IsTupleVector r o
        → tuple_vector_hook Args call f args ≡ ok r
    unfolding tuple_vector_hook call_hook hook_up HoldsAll Holds scripted_tuple_vector_keys v
    tuple_vector_hook-returns f o args r called is_table is =
        ap (λ p. p.0)
          ((call_operator_lem L Args call TupleVectorResult scripted_tuple_vector_keys (scripted f)
              args r).1
            (
              o,
              (
                (f, (refl, called)),
                (is_table, ((is.has_num, (is.has_tuples, Each-HoldsAll _ _ is.each)), is.has_str)),
              ),
            ))
