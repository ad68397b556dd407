-- ===== src/Script/Hook/Translation.antt =====
-- ObjectToTuple of script/hook/object2tuple.hpp: a Lua table becomes a tuple. The templates become
-- functions on a description of the tuple's type; the types of keys and of results are computed from it.
-- The fold over the positions goes down, so the tail of a tuple is filled before its head.
pub mod Spec
pub mod Laws
pub mod Faults
use Prim.Native.String.{String, ◌++◌}
use otservpp.Base.{ℕ, zero, suc, ◌+◌, ◌/◌, ◌%◌, List, [], ◌∷◌, some, if◌then◌else◌, ltb}
use otservpp.Script.Lua.{
  Luabind, Exception, Result, ok, throws, luabind_error, undefined, ◌>>=◌, ◌>>◌, rethrow,
  object_cast, expect_table,
}

-- The members of a result tuple: a value, or a `std::vector` of tuples. The overload for vectors of values
-- binds a reference to a temporary, so that it does not compile, and no tuple has one.
mutual
  pub data Member (N : Type 0) : Type 0 where
    single : N → Member N
    tuples : Members N → Member N

  pub data Members (N : Type 0) : Type 0 where
    last : Member N → Members N
    more : Member N → Members N → Members N

-- The mirror structure of the keys, where a vector of tuples takes a pair.
abbrev mutual
  pub KeyOf : {N : Type 0} → Member N → Type 0
  KeyOf (single T) = String
  KeyOf (tuples ms) = String × Keys ms

  pub Keys : {N : Type 0} → Members N → Type 0
  Keys (last m) = KeyOf m
  Keys (more m ms) = KeyOf m × Keys ms

abbrev mutual
  pub ValueOf : {N : Type 0} → (N → Type 0) → Member N → Type 0
  ValueOf V (single T) = V T
  ValueOf V (tuples ms) = List (Tuple V ms)

  pub Tuple : {N : Type 0} → (N → Type 0) → Members N → Type 0
  Tuple V (last m) = ValueOf V m
  Tuple V (more m ms) = ValueOf V m × Tuple V ms

unfoldable pub extract_key : {N : Type 0} (m : Member N) → KeyOf m → String
extract_key (single T) k = k
extract_key (tuples ms) k = k.0

-- The key of the last member, at which a recorder starts.
unfoldable pub last_key : {N : Type 0} (ms : Members N) → Keys ms → String
unfolding extract_key
last_key (last m) k = extract_key m k
last_key (more m ms) ks = last_key ms ks.1

-- The recorders with the key they stand at: `KeyRecorder<void, K>` and `IndexKeyRecorder<P, K>`.
pub data KeyRecorder : Type 0 where
  key_recorder : String → KeyRecorder
  index_key_recorder : KeyRecorder → String → ℕ → KeyRecorder

-- The constructors that take a recorder and its next key: the parent and the index are copied.
unfoldable pub at_key : KeyRecorder → String → KeyRecorder
at_key (key_recorder k) n = key_recorder n
at_key (index_key_recorder p k i) n = index_key_recorder p n i

text_at : ℕ → List String → String
text_at n [] = ""
text_at zero (t ∷ ts) = t
text_at (suc n) (t ∷ ts) = text_at n ts

digit : ℕ → String
unfolding text_at
digit n = text_at n ("0" ∷ "1" ∷ "2" ∷ "3" ∷ "4" ∷ "5" ∷ "6" ∷ "7" ∷ "8" ∷ "9" ∷ [])

decimal : ℕ → ℕ → String
decimal zero n = ""
decimal (suc fuel) n = if ltb n 10 then digit n else decimal fuel (n / 10) ++ digit (n % 10)

-- An index is an `int`, so it has ten digits at most.
unfoldable pub index_to_string : ℕ → String
unfolding digit decimal
index_to_string i = "[" ++ decimal 10 i ++ "]"

unfoldable pub to_string : KeyRecorder → String
unfolding index_to_string
to_string (key_recorder k) = k
to_string (index_key_recorder p k i) = to_string p ++ index_to_string i ++ "." ++ k

-- `e << ErrorInfoTranslationKey(krec)`, which replaces a key that is there.
unfoldable pub append_key : String → Exception → Exception
append_key s e = record e { translation_key = some s }

module _ (L : Luabind) where
  unfoldable pub expect_table_and_append_key : L.Object → KeyRecorder → Result (Unit {0})
  unfolding expect_table append_key to_string
  expect_table_and_append_key table krec =
      rethrow (append_key (to_string krec)) (expect_table L table)

  unfoldable pub put_single : (T : L.Native) → String → KeyRecorder → L.Object → Result (L.Value T)
  unfolding object_cast append_key to_string
  put_single T key krec table =
      rethrow (append_key (to_string krec)) (object_cast L T (L.index table key))

  -- What the loop of a vector of tuples adds, over what is done to one element.
  abbrev pub emplace_all :
      (A : Type 0) → (ℕ → L.Object → Result A) → ℕ → List L.Object → Result (List A)
  emplace_all A f i [] = ok []
  emplace_all A f i (it ∷ its) = f i it >>= λ x. emplace_all A f (suc i) its >>= λ xs. ok (x ∷ xs)

  unfoldable mutual
    unfolding at_key put_single extract_key last_key expect_table_and_append_key

    pub put : (m : Member L.Native) → KeyOf m → KeyRecorder → L.Object → Result (ValueOf L.Value m)
    put (single T) k krec table = put_single T k krec table
    put (tuples ms) k krec table =
        let inner = L.index table k.0 in
        expect_table_and_append_key inner krec
        >> emplace_all (Tuple L.Value ms)
            (λ i it.
              let child = index_key_recorder krec (last_key ms k.1) i in
              expect_table_and_append_key it child >> fill ms k.1 child it)
            1 (L.iterate inner)

    pub fill :
        (ms : Members L.Native) → Keys ms → KeyRecorder → L.Object → Result (Tuple L.Value ms)
    fill (last m) k krec table = put m k krec table
    fill (more m ms) k krec table = fill ms k.1 krec table >>= λ vs.
        put m k.0 (at_key krec (extract_key m k.0)) table >>= λ v. ok (v, vs)

  unfoldable pub translate :
      (ms : Members L.Native) → L.Object → Keys ms → Result (Tuple L.Value ms)
  unfolding expect_table fill last_key
  translate ms obj keys = expect_table L obj >> fill ms keys (key_recorder (last_key ms keys)) obj
