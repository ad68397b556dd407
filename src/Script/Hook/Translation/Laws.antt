-- ===== src/Script/Hook/Translation/Laws.antt =====
-- What a Lua table must hold for ObjectToTuple::translate to give a tuple, and what it gives then.
use mathlib.Core.Logic.{◌↔◌}
use otservpp.Base.{ℕ, suc, ◌≡◌, refl, subst, List, [], ◌∷◌}
use otservpp.Script.Lua.{Luabind, Result, ok, ◌>>=◌, ◌>>◌, object_cast, expect_table, lua_table}
use otservpp.Script.Lua.Laws.{
  bind-ok, ok-inj, rethrow-ok, expect_table-ok, expect_table-returns, object_cast-ok,
  object_cast-returns,
}
use otservpp.Script.Hook.Translation.{
  to_string, Member, single, tuples, Members, last, more, KeyOf, Keys, ValueOf, Tuple, KeyRecorder,
  key_recorder, index_key_recorder, at_key, extract_key, last_key, put_single, put, fill,
  emplace_all, translate, expect_table_and_append_key, append_key,
}
use otservpp.Script.Hook.Translation.Spec.{Each, Holds, HoldsAll}

module _ (L : Luabind) where
  expect_and_append-ok :
      (obj : L.Object) (krec : KeyRecorder)
      → L.lua_type obj ≡ lua_table
      → expect_table_and_append_key L obj krec ≡ ok tt
  unfolding expect_table_and_append_key
  expect_and_append-ok obj krec h = rw (expect_table-ok L obj h) refl

  pub expect_and_append-returns :
      (obj : L.Object) (krec : KeyRecorder) (u : Unit {0})
      → expect_table_and_append_key L obj krec ≡ ok u
      → L.lua_type obj ≡ lua_table
  unfolding expect_table_and_append_key
  expect_and_append-returns obj krec u h =
      expect_table-returns L obj u
        (rethrow-ok (append_key (to_string krec)) (expect_table L obj) u h)

  module _ (A : Type 0) (f : ℕ → L.Object → Result A) (R : A → L.Object → Type 0) where
    emplace_all-ok :
        ((i : ℕ) (x : A) (it : L.Object) → L.lua_type it ≡ lua_table → R x it → f i it ≡ ok x)
        → (i : ℕ) (xs : List A) (its : List L.Object) → Each L A R xs its
        → emplace_all L A f i its ≡ ok xs
    emplace_all-ok g i [] [] h = refl
    emplace_all-ok g i (x ∷ xs) [] h = absurd h
    emplace_all-ok g i [] (it ∷ its) h = absurd h
    emplace_all-ok g i (x ∷ xs) (it ∷ its) h =
        rw (g i x it h.0.0 h.0.1, emplace_all-ok g (suc i) xs its h.1) refl

    emplace_all-returns :
        ((i : ℕ) (x : A) (it : L.Object) → f i it ≡ ok x → (L.lua_type it ≡ lua_table) × R x it)
        → (i : ℕ) (xs : List A) (its : List L.Object) → emplace_all L A f i its ≡ ok xs
        → Each L A R xs its
    emplace_all-returns g i [] [] h = tt
    emplace_all-returns g i (x ∷ xs) [] h = cc h
    emplace_all-returns g i xs (it ∷ its) h =
        let first =
          bind-ok (f i it) (λ x. emplace_all L A f (suc i) its >>= λ ys. ok (x ∷ ys)) xs h in
        let rest = bind-ok (emplace_all L A f (suc i) its) (λ ys. ok (first.0 ∷ ys)) xs first.2 in
        let c : Each L A R (first.0 ∷ rest.0) (it ∷ its) =
          (g i first.0 it first.1, emplace_all-returns g (suc i) rest.0 its rest.1) in
        subst (λ ys. Each L A R ys (it ∷ its)) (ok-inj (first.0 ∷ rest.0) xs rest.2) c

  -- What is done to an element of a vector of tuples.
  abbrev pub element :
      (ms : Members L.Native) → Keys ms → KeyRecorder → ℕ → L.Object → Result (Tuple L.Value ms)
  element ms ks krec i it =
      let child = index_key_recorder krec (last_key ms ks) i in
      expect_table_and_append_key L it child >> fill L ms ks child it

  mutual
    unfolding put Holds put_single

    put-ok :
        (m : Member L.Native) (k : KeyOf m) (krec : KeyRecorder) (table : L.Object)
        (v : ValueOf L.Value m)
        → Holds L m k v table
        → put L m k krec table ≡ ok v
    put-ok (single T) k krec table v h = rw (object_cast-ok L T (L.index table k) v h) refl
    put-ok (tuples ms) k krec table v h = rw (expect_and_append-ok (L.index table k.0) krec h.0) (
        emplace_all-ok (Tuple L.Value ms) (element ms k.1 krec) (HoldsAll L ms k.1)
          (λ i x it t r.
            rw (expect_and_append-ok it (index_key_recorder krec (last_key ms k.1) i) t)
              (fill-ok ms k.1 (index_key_recorder krec (last_key ms k.1) i) it x r))
          1 v (L.iterate (L.index table k.0)) h.1)

    fill-ok :
        (ms : Members L.Native) (ks : Keys ms) (krec : KeyRecorder) (table : L.Object)
        (v : Tuple L.Value ms)
        → HoldsAll L ms ks v table
        → fill L ms ks krec table ≡ ok v
    fill-ok (last m) k krec table v h = put-ok m k krec table v h
    fill-ok (more m ms) k krec table v h =
        rw
          (
            fill-ok ms k.1 krec table v.1 h.0,
            put-ok m k.0 (at_key krec (extract_key m k.0)) table v.0 h.1,
          )
          refl

  mutual
    unfolding put Holds put_single

    put-returns :
        (m : Member L.Native) (k : KeyOf m) (krec : KeyRecorder) (table : L.Object)
        (v : ValueOf L.Value m)
        → put L m k krec table ≡ ok v
        → Holds L m k v table
    put-returns (single T) k krec table v h =
        object_cast-returns L T (L.index table k) v
          (rethrow-ok (append_key (to_string krec)) (object_cast L T (L.index table k)) v h)
    put-returns (tuples ms) k krec table v h =
        let inner = L.index table k.0 in
        let got =
          bind-ok (expect_table_and_append_key L inner krec)
            (λ u. emplace_all L (Tuple L.Value ms) (element ms k.1 krec) 1 (L.iterate inner)) v h in
        (
          expect_and_append-returns inner krec got.0 got.1,
          emplace_all-returns (Tuple L.Value ms) (element ms k.1 krec) (HoldsAll L ms k.1)
              (λ i x it e.
                let child = index_key_recorder krec (last_key ms k.1) i in
                let one =
                  bind-ok (expect_table_and_append_key L it child) (λ u. fill L ms k.1 child it) x
                    e in
                (
                  expect_and_append-returns it child one.0 one.1,
                  fill-returns ms k.1 child it x one.2,
                ))
              1 v (L.iterate inner) got.2,
        )

    pub fill-returns :
        (ms : Members L.Native) (ks : Keys ms) (krec : KeyRecorder) (table : L.Object)
        (v : Tuple L.Value ms)
        → fill L ms ks krec table ≡ ok v
        → HoldsAll L ms ks v table
    fill-returns (last m) k krec table v h = put-returns m k krec table v h
    fill-returns (more m ms) k krec table v h =
        let head = put L m k.0 (at_key krec (extract_key m k.0)) table in
        let tail = bind-ok (fill L ms k.1 krec table) (λ vs. head >>= λ x. ok (x, vs)) v h in
        let one = bind-ok head (λ x. ok (x, tail.0)) v tail.2 in
        let c : HoldsAll L (more m ms) k (one.0, tail.0) table = (
          fill-returns ms k.1 krec table tail.0 tail.1,
          put-returns m k.0 (at_key krec (extract_key m k.0)) table one.0 one.1,
        ) in
        subst (λ w. HoldsAll L (more m ms) k w table) (ok-inj (one.0, tail.0) v one.2) c

  -- A table is translated to a tuple exactly if it holds the tuple at its keys.
  pub translate_lem :
      (ms : Members L.Native) (obj : L.Object) (keys : Keys ms) (r : Tuple L.Value ms)
      → (translate L ms obj keys ≡ ok r) ↔ ((L.lua_type obj ≡ lua_table) × HoldsAll L ms keys r obj)
  unfolding translate
  translate_lem ms obj keys r =
      let at = key_recorder (last_key ms keys) in
      (
        λ h.
            let got = bind-ok (expect_table L obj) (λ u. fill L ms keys at obj) r h in
            (expect_table-returns L obj got.0 got.1, fill-returns ms keys at obj r got.2),
        λ h. rw (expect_table-ok L obj h.0) (fill-ok ms keys at obj r h.1),
      )
