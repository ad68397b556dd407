-- ===== src/Script/Hook/Translation/Spec.antt =====
-- What it means that a Lua table holds a tuple of ObjectToTuple of script/hook/object2tuple.hpp at its keys.
use otservpp.Base.{◌≡◌, List, [], ◌∷◌}
use otservpp.Script.Lua.{Luabind, converted, lua_table}
use otservpp.Script.Hook.Translation.{
  Member, single, tuples, Members, last, more, KeyOf, Keys, ValueOf, Tuple,
}

module _ (L : Luabind) where
  -- As many values as objects, which are tables and in the relation, in this order.
  abbrev pub Each : (A : Type 0) → (A → L.Object → Type 0) → List A → List L.Object → Type 0
  Each A R [] [] = Unit
  Each A R (x ∷ xs) [] = ⊥
  Each A R [] (it ∷ its) = ⊥
  Each A R (x ∷ xs) (it ∷ its) = ((L.lua_type it ≡ lua_table) × R x it) × Each A R xs its

  -- The table holds this value at the key of the member; the tuple, at the keys of its members.
  unfoldable mutual
    pub Holds : (m : Member L.Native) → KeyOf m → ValueOf L.Value m → L.Object → Type 0
    Holds (single T) k v table = L.cast T (L.index table k) ≡ converted v
    Holds (tuples ms) k vs table =
        (L.lua_type (L.index table k.0) ≡ lua_table)
        × Each (Tuple L.Value ms) (HoldsAll ms k.1) vs (L.iterate (L.index table k.0))

    pub HoldsAll : (ms : Members L.Native) → Keys ms → Tuple L.Value ms → L.Object → Type 0
    HoldsAll (last m) k v table = Holds m k v table
    HoldsAll (more m ms) k v table = HoldsAll ms k.1 v.1 table × Holds m k.0 v.0 table
