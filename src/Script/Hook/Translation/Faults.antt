-- ===== src/Script/Hook/Translation/Faults.antt =====
-- The key that an exception of ObjectToTuple::translate names.
use Prim.Native.String.{String, ◌++◌}
use mathlib.Core.Logic.{◌≢◌, ◌⊎◌, inl, inr}
use otservpp.Base.{ℕ, suc, ◌≡◌, refl, subst, ◌∙◌, ap, List, [], ◌∷◌, some}
use otservpp.Script.Lua.{
  Luabind, cast_failed, Exception, Result, ok, throws, ◌>>=◌, rethrow, object_cast, expect_table,
  lua_table,
}
use otservpp.Script.Lua.Laws.{
  bind-ok, bind-throws, rethrow-throws, expect_table-throws, object_cast-throws,
}
use otservpp.Script.Hook.Translation.{
  Member, single, tuples, Members, last, more, KeyOf, Keys, Tuple, KeyRecorder, key_recorder,
  index_key_recorder, at_key, extract_key, last_key, to_string, append_key, put_single, put, fill,
  emplace_all, index_to_string, translate, expect_table_and_append_key,
}
use otservpp.Script.Hook.Translation.Spec.{HoldsAll}
use otservpp.Script.Hook.Translation.Laws.{element, fill-returns, expect_and_append-returns}

-- The exception names this key.
abbrev pub Names : String → Exception → Type 0
Names key e = e.translation_key ≡ some key

-- The key of a member, and that of the last member of a tuple.
abbrev pub key_of : {N : Type 0} (m : Member N) → KeyOf m → String
key_of (single T) k = k
key_of (tuples ms) k = k.0

abbrev pub final_key : {N : Type 0} (ms : Members N) → Keys ms → String
final_key (last m) k = key_of m k
final_key (more m ms) k = final_key ms k.1

-- How a key is named in the element `i` of the vector that is itself named `vector`: in `vector[i].key`.
abbrev pub in_element : String → ℕ → String → String
in_element vector i key = vector ++ index_to_string i ++ "." ++ key

-- A recorder that stands at a key, where keys are named by `named`, and moves on to others.
record Stands (krec : KeyRecorder) (named : String → String) (key : String) : Type 0 where
  here : to_string krec ≡ named key
  moves : (k : String) → to_string (at_key krec k) ≡ named k

last_key-final : {N : Type 0} (ms : Members N) (ks : Keys ms) → last_key ms ks ≡ final_key ms ks
unfolding last_key extract_key
last_key-final (last (single T)) k = refl
last_key-final (last (tuples ms)) k = refl
last_key-final (more m ms) k = last_key-final ms k.1

extract_key-of : {N : Type 0} (m : Member N) (k : KeyOf m) → extract_key m k ≡ key_of m k
unfolding extract_key
extract_key-of (single T) k = refl
extract_key-of (tuples ms) k = refl

Stands-key_recorder : (key : String) → Stands (key_recorder key) (λ k. k) key
unfolding to_string at_key
Stands-key_recorder key = record { here = refl; moves = λ k. refl }

Stands-in_element :
    {N : Type 0} (krec : KeyRecorder) (vector : String) (i : ℕ) (ms : Members N) (ks : Keys ms)
    → to_string krec ≡ vector
    → Stands (index_key_recorder krec (last_key ms ks) i) (in_element vector i) (final_key ms ks)
unfolding to_string at_key
Stands-in_element krec vector i ms ks e = record {
  here =
      ap (λ p. p ++ index_to_string i ++ "." ++ last_key ms ks) e
      ∙ ap (in_element vector i) (last_key-final ms ks);
  moves = λ k. ap (λ p. in_element p i k) e;
}

module _ (L : Luabind) where
  -- In a list whose elements are numbered from `i` on, one is faulty, and those before it are held.
  abbrev pub FirstFault :
      (A : Type 0) → (A → L.Object → Type 0) → (ℕ → L.Object → Type 0) → ℕ → List L.Object → Type 0
  FirstFault A R F i [] = ⊥
  FirstFault A R F i (it ∷ its) =
      F i it ⊎ (((x : A) × ((L.lua_type it ≡ lua_table) × R x it)) × FirstFault A R F (suc i) its)

  -- The value at the key of the member is none of the member's type, and `e` names where: the key of a
  -- value that does not convert, or of a vector that is no table, or the place in the first faulty
  -- element of a vector of tuples. An element that is no table is named by the last of its keys.
  unfoldable mutual
    pub Fault : (m : Member L.Native) → KeyOf m → (String → String) → Exception → L.Object → Type 0
    Fault (single T) k named e table =
        ((what : String) × (L.cast T (L.index table k) ≡ cast_failed what)) × Names (named k) e
    Fault (tuples ms) k named e table =
        ((L.lua_type (L.index table k.0) ≢ lua_table) × Names (named k.0) e)
        ⊎ FirstFault (Tuple L.Value ms) (HoldsAll L ms k.1)
            (λ i it.
              ((L.lua_type it ≢ lua_table) × Names (in_element (named k.0) i (final_key ms k.1)) e)
              ⊎ FaultIn ms k.1 (in_element (named k.0) i) e it)
            1 (L.iterate (L.index table k.0))

    -- One member of the tuple is faulty, and those after it are held.
    pub FaultIn :
        (ms : Members L.Native) → Keys ms → (String → String) → Exception → L.Object → Type 0
    FaultIn (last m) k named e table = Fault m k named e table
    FaultIn (more m ms) k named e table =
        FaultIn ms k.1 named e table
        ⊎ (((vs : Tuple L.Value ms) × HoldsAll L ms k.1 vs table) × Fault m k.0 named e table)

  append_key-Names :
      {A : Type 0} (krec : KeyRecorder) (r : Result A) (e : Exception)
      → rethrow (append_key (to_string krec)) r ≡ throws e
      → Names (to_string krec) e
  unfolding append_key
  append_key-Names krec r e h =
      ap (λ (x : Exception). x.translation_key)
        (rethrow-throws (append_key (to_string krec)) r e h).2

  expect_and_append-throws :
      (obj : L.Object) (krec : KeyRecorder) (e : Exception)
      → expect_table_and_append_key L obj krec ≡ throws e
      → (L.lua_type obj ≢ lua_table) × Names (to_string krec) e
  unfolding expect_table_and_append_key
  expect_and_append-throws obj krec e h =
      let got = rethrow-throws (append_key (to_string krec)) (expect_table L obj) e h in
      (expect_table-throws L obj got.0 got.1, append_key-Names krec (expect_table L obj) e h)

  module _ (A : Type 0) (f : ℕ → L.Object → Result A) (R : A → L.Object → Type 0)
      (F : ℕ → L.Object → Type 0) (e : Exception) where
    emplace_all-throws :
        ((i : ℕ) (x : A) (it : L.Object) → f i it ≡ ok x → (L.lua_type it ≡ lua_table) × R x it)
        → ((i : ℕ) (it : L.Object) → f i it ≡ throws e → F i it)
        → (i : ℕ) (its : List L.Object) → emplace_all L A f i its ≡ throws e
        → FirstFault A R F i its
    emplace_all-throws g b i [] h = cc h
    emplace_all-throws g b i (it ∷ its) h =
        elim (bind-throws (f i it) (λ x. emplace_all L A f (suc i) its >>= λ ys. ok (x ∷ ys)) e h) [
          | inl t ↦ inl (b i it t)
          | inr (x, got, t) ↦
              elim (bind-throws (emplace_all L A f (suc i) its) (λ ys. ok (x ∷ ys)) e t) [
                | inl u ↦ inr ((x, g i x it got), emplace_all-throws g b (suc i) its u)
                | inr (ys, _, u) ↦ cc u
              ]
        ]

  element-returns :
      (ms : Members L.Native) (ks : Keys ms) (krec : KeyRecorder) (i : ℕ) (x : Tuple L.Value ms)
      (it : L.Object)
      → element L ms ks krec i it ≡ ok x
      → (L.lua_type it ≡ lua_table) × HoldsAll L ms ks x it
  element-returns ms ks krec i x it e =
      let child = index_key_recorder krec (last_key ms ks) i in
      let one = bind-ok (expect_table_and_append_key L it child) (λ u. fill L ms ks child it) x e in
      (expect_and_append-returns L it child one.0 one.1, fill-returns L ms ks child it x one.2)

  renamed : (e : Exception) (a b : String) → a ≡ b → Names a e → Names b e
  renamed e a b same h = h ∙ ap some same

  element-throws :
      (ms : Members L.Native) (ks : Keys ms) (krec : KeyRecorder) (vector : String) (e : Exception)
      (i : ℕ) (it : L.Object)
      → to_string krec ≡ vector
      → ((child : KeyRecorder)
          → Stands child (in_element vector i) (final_key ms ks)
          → fill L ms ks child it ≡ throws e
          → FaultIn ms ks (in_element vector i) e it)
      → element L ms ks krec i it ≡ throws e
      → ((L.lua_type it ≢ lua_table) × Names (in_element vector i (final_key ms ks)) e)
        ⊎ FaultIn ms ks (in_element vector i) e it
  element-throws ms ks krec vector e i it same f h =
      let child = index_key_recorder krec (last_key ms ks) i in
      let stands = Stands-in_element krec vector i ms ks same in
      elim (bind-throws (expect_table_and_append_key L it child) (λ u. fill L ms ks child it) e h) [
        | inl t ↦
            let (no_table, at) = expect_and_append-throws it child e t in
            inl (no_table, renamed e (to_string child) _ stands.here at)
        | inr (u, _, t) ↦ inr (f child stands t)
      ]

  mutual
    unfolding put Fault put_single

    put-throws :
        (m : Member L.Native) (k : KeyOf m) (krec : KeyRecorder) (named : String → String)
        (e : Exception) (table : L.Object)
        → to_string krec ≡ named (key_of m k)
        → put L m k krec table ≡ throws e
        → Fault m k named e table
    put-throws (single T) k krec named e table at h =
        let got =
          rethrow-throws (append_key (to_string krec)) (object_cast L T (L.index table k)) e h in
        (
          (object_cast-throws L T (L.index table k) got.0 got.1).0,
          renamed e (to_string krec) (named k) at
              (append_key-Names krec (object_cast L T (L.index table k)) e h),
        )
    put-throws (tuples ms) k krec named e table at h =
        let inner = L.index table k.0 in
        elim (bind-throws (expect_table_and_append_key L inner krec)
          (λ u. emplace_all L (Tuple L.Value ms) (element L ms k.1 krec) 1 (L.iterate inner)) e h) [
            | inl t ↦
                let (no_table, there) = expect_and_append-throws inner krec e t in
                inl (no_table, renamed e (to_string krec) (named k.0) at there)
            | inr (u, _, t) ↦ inr (
                emplace_all-throws (Tuple L.Value ms) (element L ms k.1 krec) (HoldsAll L ms k.1) _
                  e (element-returns ms k.1 krec)
                  (λ i it. element-throws ms k.1 krec (named k.0) e i it at (λ child stands.
                    fill-throws ms k.1 child (in_element (named k.0) i) e it stands))
                  1 (L.iterate inner) t)
          ]

    fill-throws :
        (ms : Members L.Native) (ks : Keys ms) (krec : KeyRecorder) (named : String → String)
        (e : Exception) (table : L.Object)
        → Stands krec named (final_key ms ks)
        → fill L ms ks krec table ≡ throws e
        → FaultIn ms ks named e table
    fill-throws (last m) k krec named e table at h = put-throws m k krec named e table at.here h
    fill-throws (more m ms) k krec named e table at h =
        let head = put L m k.0 (at_key krec (extract_key m k.0)) table in
        elim (bind-throws (fill L ms k.1 krec table) (λ vs. head >>= λ x. ok (x, vs)) e h) [
          | inl t ↦ inl (fill-throws ms k.1 krec named e table at t)
          | inr (vs, got, t) ↦ elim (bind-throws head (λ x. ok (x, vs)) e t) [
            | inl u ↦ inr (
              (vs, fill-returns L ms k.1 krec table vs got),
              put-throws m k.0 (at_key krec (extract_key m k.0)) named e table
                  (at.moves (extract_key m k.0) ∙ ap named (extract_key-of m k.0)) u,
            )
            | inr (x, _, u) ↦ cc u
          ]
        ]

  -- What translate throws is about an object that is no table, or it names by its key the last member of the
  -- tuple that the table does not hold and, in a vector of tuples, the first element that is faulty: a
  -- member of the tuple by its key, and one of the element `i` of the vector at `key` as `key[i].member`.
  pub translate-throws :
      (ms : Members L.Native) (obj : L.Object) (keys : Keys ms) (e : Exception)
      → translate L ms obj keys ≡ throws e
      → (L.lua_type obj ≢ lua_table) ⊎ FaultIn ms keys (λ key. key) e obj
  unfolding translate
  translate-throws ms obj keys e h =
      let at = key_recorder (last_key ms keys) in
      elim (bind-throws (expect_table L obj) (λ u. fill L ms keys at obj) e h) [
        | inl t ↦ inl (expect_table-throws L obj e t)
        | inr (u, _, t) ↦ inr (
            fill-throws ms keys at (λ key. key) e obj
              (subst (Stands at (λ key. key)) (last_key-final ms keys)
                (Stands-key_recorder (last_key ms keys)))
              t)
      ]
