-- ===== src/Message/Out/Suite/Laws.antt =====
-- The tests of messages pass.
use otservpp.Base.{
  ℕ, ◌-◌, ◌*◌, ◌/◌, ◌^◌, ◌<◌, ◌≡◌, refl, sym, ap, ◌∙◌, subst, List, [], ◌++◌, true, length, All,
  le_bytes, length-le_bytes, length-append, append-nil, append_assoc, arith,
}
use otservpp.Base.Options.{◌>>=◌}
use otservpp.Message.Out.{put}
use otservpp.Message.Out.Body.{Holds, create-Holds, add-Holds, add_prefix-Holds}
use otservpp.Message.Out.Suite.{
  ValueType, value_size, item, test_message, check_size, tested, is_empty_on_start,
  increments_size_when_adding_value, adds_value_with_left_shift_operator,
  increments_size_when_adding_prefix, inserts_into_buffer_added_values, second_value,
  prepended_prefixes_to_buffer, adds_data_after_prefixes, message_tests,
}
use otservpp.Message.Out.Suite.Values.{
  add_func-add, put-add, value_size-le, ==_self, ==_of_eq, check_size-Holds, value_at-Holds,
  second_value-lt,
}
use otservpp.Message.Out.Suite.Raw.{raw-passes}

empty-passes : is_empty_on_start ≡ true
unfolding is_empty_on_start
empty-passes = check_size-Holds (create-Holds 100) 0 refl

module _ (t : ValueType) (v : ℕ) where
  -- A value in an empty message.
  put-Holds : Holds (put test_message (item t v)) 100 (le_bytes (value_size t) v)
  put-Holds =
      subst (λ m. Holds m 100 (le_bytes (value_size t) v)) (sym (put-add t v test_message))
        (add-Holds (create-Holds 100) (value_size t) v)

  value-passes : increments_size_when_adding_value t v ≡ true
  unfolding increments_size_when_adding_value
  value-passes = rw (add_func-add t v test_message) (
      check_size-Holds (add-Holds (create-Holds 100) (value_size t) v) (value_size t)
        (length-le_bytes (value_size t) v))

  shift-passes : adds_value_with_left_shift_operator t v ≡ true
  unfolding adds_value_with_left_shift_operator
  shift-passes = check_size-Holds put-Holds (value_size t) (length-le_bytes (value_size t) v)

  prefix-passes : increments_size_when_adding_prefix t v ≡ true
  unfolding increments_size_when_adding_prefix
  prefix-passes =
      let (m, e, h) =
        add_prefix-Holds (create-Holds 100) (value_size t) v (omega (arith, value_size-le t)) in
      ap (tested (check_size (value_size t))) e
      ∙ check_size-Holds h (value_size t)
          (ap length (append-nil (le_bytes (value_size t) v)) ∙ length-le_bytes (value_size t) v)

  inserts-passes : v < 256 ^ value_size t → inserts_into_buffer_added_values t v ≡ true
  unfolding inserts_into_buffer_added_values
  inserts-passes small = ==_of_eq v _ (
      sym (
        value_at-Holds put-Holds t 0 v [] [] (sym (append-nil (le_bytes (value_size t) v)))
          (omega arith) small))

  prefixes-passes : v < 256 ^ value_size t → prepended_prefixes_to_buffer t v ≡ true
  unfolding prepended_prefixes_to_buffer
  prefixes-passes small =
      let n : ℕ = value_size t in
      let w : ℕ = second_value t v in
      let (m, e, h) = add_prefix-Holds (create-Holds 100) n v (omega (arith, value_size-le t)) in
      let (m', e', h') = add_prefix-Holds h n w (omega (arith, value_size-le t)) in
      let size : length (le_bytes n w ++ (le_bytes n v ++ [])) ≡ n * 2 = omega (
        arith,
        length-append (le_bytes n w) (le_bytes n v ++ []),
        length-append {A = ℕ} (le_bytes n v) [],
        length-le_bytes n v,
        length-le_bytes n w,
      ) in
      rw
        (
          e,
          ◌>>=◌,
          e',
          check_size-Holds h' (n * 2) size,
          value_at-Holds h' t 0 w [] (le_bytes n v ++ []) refl (omega arith) (second_value-lt t v),
          value_at-Holds h' t 1 v (le_bytes n w) [] refl
              (omega (arith, length-le_bytes n v, length-le_bytes n w)) small,
          ==_self w,
          ==_self v,
        )
        refl

  after_prefixes-passes : v < 256 ^ value_size t → adds_data_after_prefixes t v ≡ true
  unfolding adds_data_after_prefixes
  after_prefixes-passes small =
      let n : ℕ = value_size t in
      let w : ℕ = second_value t v in
      let x : ℕ = w / 8 in
      let (m, e, h) = add_prefix-Holds put-Holds n w (omega (arith, value_size-le t)) in
      let h' =
        subst (λ m'. Holds m' (100 - n) ((le_bytes n w ++ le_bytes n v) ++ le_bytes n x))
          (sym (put-add t x m)) (add-Holds h n x) in
      let size : length ((le_bytes n w ++ le_bytes n v) ++ le_bytes n x) ≡ n * 3 = omega (
        arith,
        length-append (le_bytes n w ++ le_bytes n v) (le_bytes n x),
        length-append (le_bytes n w) (le_bytes n v),
        length-le_bytes n v,
        length-le_bytes n w,
        length-le_bytes n x,
      ) in
      let small_x : x < 256 ^ n = omega (arith, second_value-lt t v) in
      rw
        (
          e,
          ◌>>=◌,
          check_size-Holds h' (n * 3) size,
          value_at-Holds h' t 0 w [] (le_bytes n v ++ le_bytes n x)
              (append_assoc (le_bytes n w) (le_bytes n v) (le_bytes n x)) (omega arith)
              (second_value-lt t v),
          value_at-Holds h' t 1 v (le_bytes n w) (le_bytes n x)
              (append_assoc (le_bytes n w) (le_bytes n v) (le_bytes n x))
              (omega (arith, length-le_bytes n v, length-le_bytes n w, length-le_bytes n x)) small,
          value_at-Holds h' t 2 x (le_bytes n w ++ le_bytes n v) []
              (ap (◌++◌ (le_bytes n w ++ le_bytes n v)) (sym (append-nil (le_bytes n x))))
              (omega (
                arith,
                length-le_bytes n v,
                length-le_bytes n w,
                length-le_bytes n x,
                length-append (le_bytes n w) (le_bytes n v),
              ))
              small_x,
          ==_self w,
          ==_self v,
          ==_self x,
        )
        refl

-- The tests of messages pass for every type and all values of it: a message has the size of what was added to it,
-- values that are added or put in front of it stand in its buffer in order, and so do values that are added as raw
-- memory.
pub message_tests_lem :
    (t : ValueType) (v : ℕ) (vs : List ℕ)
    → v < 256 ^ value_size t
    → All (λ x. x < 256 ^ value_size t) vs
    → message_tests t v vs ≡ true
unfolding message_tests
message_tests_lem t v vs small all =
    rw
      (
        empty-passes,
        value-passes t v,
        shift-passes t v,
        prefix-passes t v,
        inserts-passes t v small,
        prefixes-passes t v small,
        raw-passes t vs all,
        after_prefixes-passes t v small,
      )
      refl
