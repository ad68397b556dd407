-- ===== src/Message/In/Laws.antt =====
-- What the reads of BasicInMessage give, on every branch.
use otservpp.Base.{
  ℕ, ◌+◌, ◌-◌, ◌^◌, ◌≤◌, ◌<◌, ◌≡◌, ap, ◌∙◌, List, ◌++◌, arith, leb, u32, if◌then◌else◌, length,
  take, drop, length-take, length-drop, take-length-append, drop-length-append, length-append,
  take-take, drop-take, drop-drop, true, le_bytes, length-le_bytes, le_value-le_bytes, subst,
}
use otservpp.Message.In.{
  InMessage, ok, packet_exception, peek_raw_chunk, move_pos, get_raw_chunk, get_number,
}

-- The read position is within the message, the message within its buffer, and the buffer is far
-- from the end of the address space.
pub record IsWellFormed (m : InMessage) : Type 0 where
  pub read : m.pos ≤ m.size
  pub fits : m.size ≤ length m.buffer
  pub small : length m.buffer < 2 ^ 31

-- The bytes that are still to be read.
abbrev pub remaining : InMessage → List ℕ
remaining m = take (m.size - m.pos) (drop m.pos m.buffer)

-- The message after `n` more bytes.
abbrev pub advance : ℕ → InMessage → InMessage
advance n m = record m { pos = m.pos + n }

module _ (m : InMessage) (v : IsWellFormed m) where
  pub move_pos_lem :
      (n : ℕ)
      → n < 2 ^ 31
      → move_pos n m
        ≡ (if leb (m.pos + n) m.size then ok tt (advance n m) else packet_exception (advance n m))
  unfolding move_pos
  move_pos_lem n h = let e : u32 (m.pos + n) ≡ m.pos + n = omega (arith, v) in ground (arith, e)

  -- On a message whose position and size are within a buffer of less than 2^31 bytes, a read of less than
  -- 2^31 raw bytes gives the next bytes if there are so many and moves behind them, and throws if not.
  pub get_raw_chunk_lem :
      (n : ℕ)
      → n < 2 ^ 31
      → get_raw_chunk n m ≡ (
          if leb (m.pos + n) m.size
          then ok (take n (drop m.pos m.buffer)) (advance n m)
          else packet_exception (advance n m))
  unfolding get_raw_chunk
  get_raw_chunk_lem n h =
      let back : u32 (m.pos + n + 2 ^ 32 - n) ≡ m.pos = omega (arith, v) in
      ground (arith, move_pos_lem n h, back)

  pub peek_raw_chunk_lem :
      (n : ℕ)
      → n < 2 ^ 31
      → peek_raw_chunk n m ≡ (
          if leb (m.pos + n) m.size
          then ok (take n (drop m.pos m.buffer)) m
          else packet_exception m)
  unfolding peek_raw_chunk
  peek_raw_chunk_lem n h =
      let e : u32 (m.pos + n) ≡ m.pos + n = omega (arith, v) in ground (arith, e)

  pub length-remaining : length (remaining m) ≡ m.size - m.pos
  length-remaining =
      omega
        (arith, length-take (m.size - m.pos) (drop m.pos m.buffer), length-drop m.pos m.buffer, v)

  -- The bytes that stand next are what a read of that many gives, and the rest is left.
  pub get_raw_chunk-remaining :
      (xs ys : List ℕ)
      → remaining m ≡ xs ++ ys
      → (get_raw_chunk (length xs) m ≡ ok xs (advance (length xs) m))
        × IsWellFormed (advance (length xs) m)
        × (remaining (advance (length xs) m) ≡ ys)
  get_raw_chunk-remaining xs ys e =
      let n : ℕ = length xs in
      let size : m.size - m.pos ≡ n + length ys =
        omega (arith, length-remaining, ap length e, length-append xs ys) in
      let within : leb (m.pos + n) m.size ≡ true = ground (arith, v) in
      (
        get_raw_chunk_lem n (omega (arith, v))
            ∙ rw (
              within,
              ← take-take n (m.size - m.pos) (drop m.pos m.buffer) (omega arith),
              e,
              take-length-append xs ys,
            ),
        record { read = omega (arith, v); fits = v.fits; small = v.small },
        rest,
      )
    where
      rest : remaining (advance (length xs) m) ≡ ys
      rest =
          let e' : m.size - (m.pos + length xs) ≡ m.size - m.pos - length xs = omega arith in
          rw
            (
              e',
              ← drop-drop m.pos (length xs) m.buffer,
              ← drop-take (length xs) (m.size - m.pos) (drop m.pos m.buffer),
            )
            (ap (drop (length xs)) e ∙ drop-length-append xs ys)

  -- A number that stands next, in as many bytes as are read, is read.
  pub get_number-remaining :
      (n x : ℕ) (ys : List ℕ)
      → x < 256 ^ n
      → remaining m ≡ le_bytes n x ++ ys
      → (get_number n m ≡ ok x (advance n m))
        × IsWellFormed (advance n m)
        × (remaining (advance n m) ≡ ys)
  unfolding get_number
  get_number-remaining n x ys h e =
      let size : length (le_bytes n x) ≡ n = length-le_bytes n x in
      let (reads, keeps, rest) = get_raw_chunk-remaining (le_bytes n x) ys e in
      let reads' : get_raw_chunk n m ≡ ok (le_bytes n x) (advance n m) =
        subst (λ k. get_raw_chunk k m ≡ ok (le_bytes n x) (advance k m)) size reads in
      (
        ground (arith, reads', le_value-le_bytes n x h),
        subst (λ k. IsWellFormed (advance k m)) size keeps,
        subst (λ k. remaining (advance k m) ≡ ys) size rest,
      )
