-- ===== src/Message/Out/Suite/Values.antt =====
-- The values that the tests of messages add, in the bytes of a message.
use otservpp.Base.{
  ℕ, ◌*◌, ◌^◌, ◌<◌, ◌≤◌, ◌≡◌, refl, sym, ap, ◌∙◌, List, ◌++◌, true, ◌==◌, length, take, drop,
  le_bytes, le_value, le_value-le_bytes, length-le_bytes, take-length-append, drop-length-append,
  arith,
}
use otservpp.Message.Out.{OutMessage, add, put}
use otservpp.Message.Out.Body.{Holds, get_size-Holds, get_buffer-Holds}
use otservpp.Message.Out.Suite.{
  ValueType, uint8, uint16, uint32, uint64, value_size, add_func, item, check_size, value_at,
  second_value,
}

pub add_func-add :
    (t : ValueType) (v : ℕ) (m : OutMessage) → add_func t v m ≡ add (value_size t) v m
add_func-add uint8 v m = refl
add_func-add uint16 v m = refl
add_func-add uint32 v m = refl
add_func-add uint64 v m = refl

pub put-add : (t : ValueType) (v : ℕ) (m : OutMessage) → put m (item t v) ≡ add (value_size t) v m
put-add uint8 v m = refl
put-add uint16 v m = refl
put-add uint32 v m = refl
put-add uint64 v m = refl

pub value_size-le : (t : ValueType) → value_size t ≤ 8
value_size-le uint8 = omega arith
value_size-le uint16 = omega arith
value_size-le uint32 = omega arith
value_size-le uint64 = omega arith

pub ==_self : (n : ℕ) → (n == n) ≡ true
==_self n = ground arith

pub ==_of_eq : (m n : ℕ) → m ≡ n → (m == n) ≡ true
==_of_eq m n e = ground arith

module _ {m : OutMessage} {room : ℕ} {body : List ℕ} (h : Holds m room body) where
  pub check_size-Holds : (n : ℕ) → length body ≡ n → check_size n m ≡ true
  unfolding check_size
  check_size-Holds n e =
      rw (get_size-Holds h, ap length (get_buffer-Holds h), ==_of_eq n (length body) (sym e)) refl

  pub value_at-Holds :
      (t : ValueType) (i v : ℕ) (xs ys : List ℕ)
      → body ≡ xs ++ (le_bytes (value_size t) v ++ ys)
      → length xs ≡ value_size t * i
      → v < 256 ^ value_size t
      → value_at t i m ≡ v
  value_at-Holds t i v xs ys e size small =
      let value : List ℕ = le_bytes (value_size t) v in
      ap (λ b. le_value (take (value_size t) (drop (value_size t * i) b))) (get_buffer-Holds h ∙ e)
      ∙ ap (λ k. le_value (take (value_size t) (drop k (xs ++ (value ++ ys))))) (sym size)
      ∙ ap (λ b. le_value (take (value_size t) b)) (drop-length-append xs (value ++ ys))
      ∙ ap (λ k. le_value (take k (value ++ ys))) (sym (length-le_bytes (value_size t) v))
      ∙ ap le_value (take-length-append value ys)
      ∙ le_value-le_bytes (value_size t) v small

pub second_value-lt : (t : ValueType) (v : ℕ) → second_value t v < 256 ^ value_size t
second_value-lt uint8 v = omega arith
second_value-lt uint16 v = omega arith
second_value-lt uint32 v = omega arith
second_value-lt uint64 v = omega arith
