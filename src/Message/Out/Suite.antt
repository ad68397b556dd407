-- ===== src/Message/Out/Suite.antt =====
-- otservpptest/message/basicoutmessagetest.cpp, as tests of the values that it takes at random.
pub mod Values
pub mod Raw
pub mod Laws
use otservpp.Base.{
  ℕ, zero, suc, ◌+◌, ◌*◌, ◌/◌, ◌%◌, ◌^◌, ◌<◌, ◌≤◌, ◌≡◌, refl, sym, ap, ◌∙◌, List, [], ◌∷◌, ◌++◌,
  Bool, true, false, Option, none, some, ◌==◌, ◌&&◌, length, take, drop, All, le_bytes, le_value,
  le_value-le_bytes, length-le_bytes, length-append, take-length-append, drop-length-append,
  append-nil, append_assoc, arith,
}
use otservpp.Base.Options.{◌>>=◌}
use otservpp.Message.Out.{
  OutMessage, create, get_buffer, get_size, add_prefix, add_raw, add_byte, add_u16, add_u32,
  add_u64, Item, byte, short, long, longlong, put,
}
use otservpp.Message.Out.Body.{
  Holds, create-Holds, get_size-Holds, get_buffer-Holds, add-Holds, add_prefix-Holds,
}

-- The types that the tests are for, with `sizeof` and the functions that add a value.
pub data ValueType : Type 0 where
  uint8 : ValueType
  uint16 : ValueType
  uint32 : ValueType
  uint64 : ValueType

abbrev pub value_size : ValueType → ℕ
value_size uint8 = 1
value_size uint16 = 2
value_size uint32 = 4
value_size uint64 = 8

abbrev pub add_func : ValueType → ℕ → OutMessage → OutMessage
add_func uint8 v m = add_byte v m
add_func uint16 v m = add_u16 v m
add_func uint32 v m = add_u32 v m
add_func uint64 v m = add_u64 v m

abbrev pub item : ValueType → ℕ → Item
item uint8 v = byte v
item uint16 v = short v
item uint32 v = long v
item uint64 v = longlong v

abbrev pub test_message : OutMessage
test_message = create 100

-- `checkSize`: what `getSize` and the buffer say.
unfoldable pub check_size : ℕ → OutMessage → Bool
unfolding get_size get_buffer
check_size expected m =
    elim (get_size m) [ none ↦ false | some n ↦ expected == n ] && expected == length (get_buffer m)

-- `getBuffer()[i]`.
abbrev pub value_at : ValueType → ℕ → OutMessage → ℕ
value_at t i m = le_value (take (value_size t) (drop (value_size t * i) (get_buffer m)))

-- A test of what may fail.
abbrev pub tested : (OutMessage → Bool) → Option OutMessage → Bool
tested test none = false
tested test (some m) = test m

unfoldable pub is_empty_on_start : Bool
unfolding check_size
is_empty_on_start = check_size 0 test_message

unfoldable pub increments_size_when_adding_value : ValueType → ℕ → Bool
unfolding check_size
increments_size_when_adding_value t v = check_size (value_size t) (add_func t v test_message)

unfoldable pub adds_value_with_left_shift_operator : ValueType → ℕ → Bool
unfolding check_size
adds_value_with_left_shift_operator t v = check_size (value_size t) (put test_message (item t v))

unfoldable pub increments_size_when_adding_prefix : ValueType → ℕ → Bool
unfolding check_size add_prefix
increments_size_when_adding_prefix t v =
    tested (check_size (value_size t)) (add_prefix (value_size t) v test_message)

unfoldable pub inserts_into_buffer_added_values : ValueType → ℕ → Bool
inserts_into_buffer_added_values t v = v == value_at t 0 (put test_message (item t v))

-- Arithmetic on a value is done in its type.
abbrev pub second_value : ValueType → ℕ → ℕ
second_value t v = (v + value_size t) % 256 ^ value_size t

unfoldable pub prepended_prefixes_to_buffer : ValueType → ℕ → Bool
unfolding check_size add_prefix
prepended_prefixes_to_buffer t v =
    tested
      (λ m.
        check_size (value_size t * 2) m
        && second_value t v == value_at t 0 m
        && v == value_at t 1 m)
      (add_prefix (value_size t) v test_message >>= add_prefix (value_size t) (second_value t v))

-- The memory of a vector of values.
abbrev pub memory : ValueType → List ℕ → List ℕ
memory t [] = []
memory t (v ∷ vs) = le_bytes (value_size t) v ++ memory t vs

abbrev pub values_from : ValueType → ℕ → List ℕ → OutMessage → Bool
values_from t i [] m = true
values_from t i (v ∷ vs) m = (v == value_at t i m) && values_from t (suc i) vs m

unfoldable pub adds_raw_data_correctly : ValueType → List ℕ → Bool
unfolding check_size add_raw
adds_raw_data_correctly t vs =
    tested (λ m. check_size (length vs * value_size t) m && values_from t 0 vs m)
      (add_raw (memory t vs) (length vs * value_size t) test_message)

unfoldable pub adds_data_after_prefixes : ValueType → ℕ → Bool
unfolding check_size add_prefix
adds_data_after_prefixes t v =
    tested
      (λ m.
        check_size (value_size t * 3) m
        && second_value t v == value_at t 0 m
        && v == value_at t 1 m
        && (second_value t v / 8) == value_at t 2 m)
      (add_prefix (value_size t) (second_value t v) (put test_message (item t v)) >>= λ m.
        some (put m (item t (second_value t v / 8))))

-- All tests, of a value and of a vector.
unfoldable pub message_tests : ValueType → ℕ → List ℕ → Bool
message_tests t v vs =
    is_empty_on_start
    && increments_size_when_adding_value t v
    && adds_value_with_left_shift_operator t v
    && increments_size_when_adding_prefix t v
    && inserts_into_buffer_added_values t v
    && prepended_prefixes_to_buffer t v
    && adds_raw_data_correctly t vs
    && adds_data_after_prefixes t v
