-- ===== src/Script/Hook/Calls/Laws.antt =====
-- What the call of a scripted hook gives, and what it logs.
use Prim.Native.String.{String, ◌++◌}
use mathlib.Core.Logic.{◌↔◌, ◌≢◌, ◌⊎◌}
use mathlib.Core.List.{◌++◌ as append}
use otservpp.Base.{◌≡◌, ◌∙◌, refl, ap, arith, [], ◌∷◌, Option, none, some, inl, inr}
use otservpp.Script.Lua.{
  Luabind, Exception, Result, ok, throws, luabind_error, undefined, ◌>>=◌, lua_table,
}
use otservpp.Script.Lua.Laws.{bind-ok, bind-throws, rethrow-ok, rethrow-throws}
use otservpp.Script.Hook.Translation.{Members, Tuple, translate}
use otservpp.Script.Hook.Translation.Spec.{HoldsAll}
use otservpp.Script.Hook.Translation.Laws.{translate_lem}
use otservpp.Script.Hook.Translation.Faults.{FaultIn, translate-throws}
use otservpp.Script.Hook.Calls.{
  log_exception, HookKeys, ScriptHook, call_operator, call_script_function, translate_keyed,
  log_line, expected_structure, error_at_key, optional,
}

-- The text about what a hook returned, by the key at which it is faulty, and the line that is logged.
abbrev pub structure_text : Option String → String
structure_text none = "expected a return value with the following the structure \n\">>error<<"
structure_text (some key) =
    "expected a return value with the following the structure \n\"" ++ ">>error<<"
    ++ "\"\nerror at key \"" ++ key ++ "\" "

abbrev pub logged_text : Option String → Option String → String
logged_text key none = "in execution of script hook \"<todo>\"\n" ++ structure_text key ++ ""
logged_text key (some argument) =
    "in execution of script hook \"<todo>\"\n" ++ structure_text key ++ argument

error_at_key-text :
    (key : Option String)
    → "expected a return value with the following the structure \n\""
        ++ ">>error<<"
        ++ error_at_key key
      ≡ structure_text key
unfolding error_at_key
error_at_key-text none = refl
error_at_key-text (some key) = refl

expected_structure-text : (e : Exception) → expected_structure e ≡ structure_text e.translation_key
unfolding expected_structure
expected_structure-text e = error_at_key-text e.translation_key

logged_text_lem :
    (key argument : Option String)
    → "in execution of script hook \"<todo>\"\n" ++ structure_text key ++ optional argument
      ≡ logged_text key argument
logged_text_lem key none = refl
logged_text_lem key (some argument) = refl

log_line-text :
    (e x : Exception)
    → e ≡ record x { value_translation = some (expected_structure x) }
    → log_line e ≡ logged_text x.translation_key x.invalid_argument
unfolding log_line
log_line-text e x same =
    ap log_line same
    ∙ ap (λ t. "in execution of script hook \"<todo>\"\n" ++ t ++ optional x.invalid_argument)
        (expected_structure-text x)
    ∙ logged_text_lem x.translation_key x.invalid_argument

module _ (L : Luabind) (Args : Type 0) (call : L.Object → Args → Option L.Object) where
  -- The script's function is there, and it returned this object.
  abbrev pub Returned : ScriptHook L → Args → L.Object → Type 0
  Returned self args obj = (f : L.Object) × ((self.func ≡ some f) × (call f args ≡ some obj))

  call_script_function-returns :
      (func : Option L.Object) (args : Args) (obj : L.Object)
      → call_script_function L Args call func args ≡ ok obj
      → (f : L.Object) × ((func ≡ some f) × (call f args ≡ some obj))
  unfolding call_script_function
  call_script_function-returns none args obj h = cc h
  call_script_function-returns (some f) args obj h = (f, (refl, ground (arith, h)))

  call_script_function-ok :
      (func : Option L.Object) (args : Args) (obj f : L.Object)
      → func ≡ some f
      → call f args ≡ some obj
      → call_script_function L Args call func args ≡ ok obj
  unfolding call_script_function
  call_script_function-ok func args obj f e h = rw (e, call_script_function, h) refl

  call_script_function-no_throw :
      (func : Option L.Object) (args : Args) (e : Exception)
      → call_script_function L Args call func args ≢ throws e
  unfolding call_script_function
  call_script_function-no_throw func args e h = ground arith

  log_exception-ok :
      {R : Type 0} (self : ScriptHook L) (x : Result R) (r : R)
      → (log_exception L self x).0 ≡ ok r
      → (x ≡ ok r) × ((log_exception L self x).1 ≡ self)
  unfolding log_exception
  log_exception-ok self (ok a) r h = (h, refl)
  log_exception-ok self (throws e) r h = cc h
  log_exception-ok self luabind_error r h = cc h
  log_exception-ok self undefined r h = cc h

  log_exception-throws :
      {R : Type 0} (self : ScriptHook L) (x : Result R) (e : Exception)
      → (log_exception L self x).0 ≡ throws e
      → (x ≡ throws e) × ((log_exception L self x).1.log ≡ append self.log (log_line e ∷ []))
  unfolding log_exception
  log_exception-throws self (ok a) e h = cc h
  log_exception-throws self (throws x) e h = (h, cc h)
  log_exception-throws self luabind_error e h = cc h
  log_exception-throws self undefined e h = cc h

  module _ (ms : Members L.Native) (keys : HookKeys ms) where
    -- The call of a script hook with keys.
    abbrev pub keyed_call : ScriptHook L → Args → Result (Tuple L.Value ms) × ScriptHook L
    keyed_call = call_operator L Args call (Tuple L.Value ms) (translate_keyed L ms keys)

    abbrev pub HookHolds : ScriptHook L → Args → Tuple L.Value ms → Type 0
    HookHolds self args r =
        (obj : L.Object) × (Returned self args obj
          × ((L.lua_type obj ≡ lua_table) × HoldsAll L ms keys.keys r obj))

    pub call_operator-returns :
        (self : ScriptHook L) (args : Args) (r : Tuple L.Value ms)
        → (keyed_call self args).0 ≡ ok r
        → HookHolds self args r
    unfolding call_operator translate_keyed
    call_operator-returns self args r h =
        let out = call_script_function L Args call self.func args >>= translate_keyed L ms keys in
        let got =
          bind-ok (call_script_function L Args call self.func args) (translate_keyed L ms keys) r
            (log_exception-ok self out r h).0 in
        (
          got.0,
          (
            call_script_function-returns self.func args got.0 got.1,
            (translate_lem L ms got.0 keys.keys r).0
                (rethrow-ok _ (translate L ms got.0 keys.keys) r got.2),
          ),
        )

    -- A script hook with keys returns a tuple exactly if its function is there and returns a table that
    -- holds the tuple at the keys; it logs nothing then.
    pub call_operator_lem :
        (self : ScriptHook L) (args : Args) (r : Tuple L.Value ms)
        → (keyed_call self args ≡ (ok r, self)) ↔ HookHolds self args r
    unfolding call_operator translate_keyed
    call_operator_lem self args r = (
      λ h. call_operator-returns self args r (ap (λ p. p.0) h),
      λ h.
          let back = call_script_function-ok self.func args h.0 h.1.0.0 h.1.0.1.0 h.1.0.1.1 in
          let done = (translate_lem L ms h.0 keys.keys r).1 h.1.1 in rw (back, done) refl,
    )

    -- Where such a call throws an Exception, the function returned an object that is no table or in which
    -- the named member is faulty, and the exception is that of the fault with a text that quotes its key,
    -- if it has one. The one line that is logged has that text and what was wrong with the value.
    pub call_operator-throws :
        (self : ScriptHook L) (args : Args) (e : Exception)
        → (keyed_call self args).0 ≡ throws e
        → (obj : L.Object) × (Returned self args obj
            × ((x : Exception) × ((e
                    ≡ record x { value_translation = some (structure_text x.translation_key) })
                  × (((L.lua_type obj ≢ lua_table) ⊎ FaultIn L ms keys.keys (λ key. key) x obj)
                      × ((keyed_call self args).1.log
                          ≡ append self.log
                              (logged_text x.translation_key x.invalid_argument ∷ []))))))
    unfolding call_operator translate_keyed
    call_operator-throws self args e h =
        let out = call_script_function L Args call self.func args >>= translate_keyed L ms keys in
        let thrown = log_exception-throws self out e h in
        elim (bind-throws (call_script_function L Args call self.func args)
          (translate_keyed L ms keys) e thrown.0) [
            | inl t ↦ absurd (call_script_function-no_throw self.func args e t)
            | inr (obj, got, t) ↦
                let x = rethrow-throws _ (translate L ms obj keys.keys) e t in
                (
                  obj,
                  (
                    call_script_function-returns self.func args obj got,
                    (
                      x.0,
                      (
                        x.2
                            ∙ ap (λ text. record x.0 { value_translation = some text })
                                (expected_structure-text x.0),
                        (
                          translate-throws L ms obj keys.keys x.0 x.1,
                          thrown.1
                              ∙ ap (λ line. append self.log (line ∷ [])) (log_line-text e x.0 x.2),
                        ),
                      ),
                    ),
                  ),
                )
          ]
