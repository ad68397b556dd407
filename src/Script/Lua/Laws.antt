-- ===== src/Script/Lua/Laws.antt =====
-- When the calls of scriptexcep.hpp return, and what they throw.
use Prim.Native.String.{String}
use mathlib.Core.Logic.{◌≢◌, ◌⊎◌}
use otservpp.Base.{◌≡◌, refl, none, arith, inl, inr}
use otservpp.Script.Lua.{
  Luabind, converted, cast_failed, Exception, Result, ok, throws, luabind_error, undefined, ◌>>=◌,
  rethrow, object_cast, expect_table, lua_table,
}

module _ {ℓ κ} {A : Type ℓ} {B : Type κ} where
  pub bind-ok :
      (r : Result A) (f : A → Result B) (b : B)
      → (r >>= f) ≡ ok b
      → (a : A) × (r ≡ ok a) × (f a ≡ ok b)
  bind-ok (ok a) f b h = (a, refl, h)
  bind-ok (throws e) f b h = cc h
  bind-ok luabind_error f b h = cc h
  bind-ok undefined f b h = cc h

  pub bind-throws :
      (r : Result A) (f : A → Result B) (e : Exception)
      → (r >>= f) ≡ throws e
      → (r ≡ throws e) ⊎ ((a : A) × (r ≡ ok a) × (f a ≡ throws e))
  bind-throws (ok a) f e h = inr (a, refl, h)
  bind-throws (throws x) f e h = inl (cc h)
  bind-throws luabind_error f e h = cc h
  bind-throws undefined f e h = cc h

module _ {ℓ} {A : Type ℓ} where
  pub Result-cases :
      (r : Result A)
      → ((a : A) × (r ≡ ok a))
        ⊎ (((e : Exception) × (r ≡ throws e)) ⊎ ((r ≡ luabind_error) ⊎ (r ≡ undefined)))
  Result-cases (ok a) = inl (a, refl)
  Result-cases (throws e) = inr (inl (e, refl))
  Result-cases luabind_error = inr (inr (inl refl))
  Result-cases undefined = inr (inr (inr refl))

  pub ok-inj : (a b : A) → ok a ≡ ok b → a ≡ b
  ok-inj a b h = cc h

  pub rethrow-ok :
      (f : Exception → Exception) (r : Result A) (a : A) → (rethrow f r ≡ ok a) → r ≡ ok a
  rethrow-ok f (ok x) a h = h
  rethrow-ok f (throws e) a h = cc h
  rethrow-ok f luabind_error a h = cc h
  rethrow-ok f undefined a h = cc h

  pub rethrow-throws :
      (f : Exception → Exception) (r : Result A) (e : Exception)
      → rethrow f r ≡ throws e
      → (x : Exception) × (r ≡ throws x) × (e ≡ f x)
  rethrow-throws f (ok x) e h = cc h
  rethrow-throws f (throws x) e h = (x, refl, cc h)
  rethrow-throws f luabind_error e h = cc h
  rethrow-throws f undefined e h = cc h

module _ (L : Luabind) where
  pub expect_table-ok : (obj : L.Object) → L.lua_type obj ≡ lua_table → expect_table L obj ≡ ok tt
  unfolding expect_table
  expect_table-ok obj h = ground arith

  pub expect_table-returns :
      (obj : L.Object) (u : Unit {0}) → expect_table L obj ≡ ok u → L.lua_type obj ≡ lua_table
  unfolding expect_table
  expect_table-returns obj u h = ground arith

  pub expect_table-throws :
      (obj : L.Object) (e : Exception) → expect_table L obj ≡ throws e → L.lua_type obj ≢ lua_table
  unfolding expect_table
  expect_table-throws obj e h = ground arith

  pub object_cast-ok :
      (T : L.Native) (obj : L.Object) (v : L.Value T)
      → L.cast T obj ≡ converted v
      → object_cast L T obj ≡ ok v
  unfolding object_cast
  object_cast-ok T obj v h = ground arith

  pub object_cast-returns :
      (T : L.Native) (obj : L.Object) (v : L.Value T)
      → object_cast L T obj ≡ ok v
      → L.cast T obj ≡ converted v
  unfolding object_cast
  object_cast-returns T obj v h = ground arith

  pub object_cast-throws :
      (T : L.Native) (obj : L.Object) (e : Exception)
      → object_cast L T obj ≡ throws e
      → ((what : String) × (L.cast T obj ≡ cast_failed what)) × (L.stack_top obj ≢ none)
  unfolding object_cast
  object_cast-throws T obj e h = ground arith
