-- ===== src/Script/Adapters.antt =====
-- Adapter and its bases of script/adapter/adapter.hpp, and the sets of script/adapterset.hpp.
pub mod Laws
pub mod Tasks
pub mod Suite
mod Tests
use Prim.Native.String.{String, ◌++◌}
use package.text.Mathlib.Text.{◌==◌}
use mathlib.Core.List.{◌++◌ as append}
use otservpp.Base.{List, [], ◌∷◌, Bool, true, false, Option, none, some, if◌then◌else◌}
use otservpp.Base.Options.{◌>>=◌}

module _ (S : Type 0) where
  -- An adapter, with what its `apply` does to a Lua state, which is an `S`.
  pub record Adapter : Type 0 where
    pub adaptee : String
    pub apply : S → S

module _ {S : Type 0} where
  unfoldable pub equal_adaptee : Adapter S → Adapter S → Bool
  equal_adaptee lhs rhs = lhs.adaptee == rhs.adaptee

  unfoldable pub basic_adapter : String → (S → S) → Adapter S
  basic_adapter str apply = record { adaptee = str; apply = apply }

  -- The first argument is what `typeid(Adaptee).name()` is.
  unfoldable pub type_adapter : String → (S → S) → Adapter S
  unfolding basic_adapter
  type_adapter name apply = basic_adapter name apply

  unfoldable pub global_instance_adapter : String → String → (S → S) → Adapter S
  unfolding basic_adapter
  global_instance_adapter name instance_name apply =
      basic_adapter (name ++ "_G-" ++ instance_name) apply

  -- The set, in some order of its elements: what `insert` looks for, and what it gives.
  unfoldable pub contains : Adapter S → List (Adapter S) → Bool
  unfolding equal_adaptee
  contains a [] = false
  contains a (b ∷ bs) = let rest = contains a bs in if equal_adaptee a b then true else rest

  unfoldable pub insert : Adapter S → List (Adapter S) → List (Adapter S) × Bool
  unfolding contains
  insert a set = if contains a set then (set, false) else (append set (a ∷ []), true)

  -- `StaticAdapters::insert<T>()`, where `none` is the failed assertion.
  unfoldable pub static_insert : Adapter S → List (Adapter S) → Option (List (Adapter S))
  unfolding insert
  static_insert a set = if (insert a set).1 then some (insert a set).0 else none

  -- The static initialisation of these adapters, in this order.
  abbrev pub static_inserts : List (Adapter S) → List (Adapter S) → Option (List (Adapter S))
  static_inserts [] set = some set
  static_inserts (a ∷ as_) set = static_insert a set >>= static_inserts as_

  -- The loop of `apply` over a set, in the order of its iterator.
  unfoldable pub apply : List (Adapter S) → S → S
  apply [] L = L
  apply (a ∷ rest) L = apply rest (a.apply L)
