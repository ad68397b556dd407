-- ===== src/Message/Out/Suite/Raw.antt =====
-- The test of values that are added as raw memory.
use otservpp.Base.{
  ℕ, suc, ◌*◌, ◌^◌, ◌<◌, ◌≡◌, refl, sym, ap, ◌∙◌, List, [], ◌∷◌, ◌++◌, true, length, All, le_bytes,
  length-le_bytes, length-append, append_assoc, take_all, arith,
}
use otservpp.Message.Out.{OutMessage}
use otservpp.Message.Out.Body.{Holds, create-Holds, add_raw-Holds}
use otservpp.Message.Out.Suite.{ValueType, value_size, memory, values_from, adds_raw_data_correctly}
use otservpp.Message.Out.Suite.Values.{==_self, check_size-Holds, value_at-Holds}

length-memory : (t : ValueType) (vs : List ℕ) → length (memory t vs) ≡ length vs * value_size t
length-memory t [] = omega arith
length-memory t (v ∷ vs) = grind (
  arith,
  length-append (le_bytes (value_size t) v) (memory t vs),
  length-le_bytes (value_size t) v,
  length-memory t vs,
)

-- The values stand in the message from a position on.
values_from-Holds :
    (t : ValueType) {m : OutMessage} {room : ℕ} {body : List ℕ} (h : Holds m room body) (i : ℕ)
    (xs : List ℕ) (vs : List ℕ)
    → body ≡ xs ++ memory t vs
    → length xs ≡ value_size t * i
    → All (λ v. v < 256 ^ value_size t) vs
    → values_from t i vs m ≡ true
values_from-Holds t h i xs [] e size small = refl
values_from-Holds t {m = m} h i xs (v ∷ vs) e size small =
    rw (value_at-Holds h t i v xs (memory t vs) e size small.0, ==_self v)
      (values_from-Holds t h (suc i) (xs ++ le_bytes (value_size t) v) vs
        (e ∙ sym (append_assoc xs (le_bytes (value_size t) v) (memory t vs)))
        (grind
          (arith, length-append xs (le_bytes (value_size t) v), length-le_bytes (value_size t) v))
        small.1)

pub raw-passes :
    (t : ValueType) (vs : List ℕ)
    → All (λ v. v < 256 ^ value_size t) vs
    → adds_raw_data_correctly t vs ≡ true
unfolding adds_raw_data_correctly
raw-passes t vs small =
    let size = length-memory t vs in
    let (m, e, h) =
      add_raw-Holds (create-Holds 100) (memory t vs) (length vs * value_size t)
        (omega (arith, size)) in
    let whole = take_all (length vs * value_size t) (memory t vs) (omega (arith, size)) in
    rw
      (
        e,
        check_size-Holds h (length vs * value_size t) (ap length whole ∙ size),
        values_from-Holds t h 0 [] vs whole (omega arith) small,
      )
      refl
