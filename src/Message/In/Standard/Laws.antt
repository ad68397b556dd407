-- ===== src/Message/In/Standard/Laws.antt =====
-- What StandardInMessage makes of the bytes that it receives, on every branch.
use otservpp.Base.{
  Bool-cases, inl, inr, ℕ, ◌+◌, ◌-◌, ◌%◌, ◌^◌, ◌≤◌, ◌<◌, ◌≡◌, sym, subst, ap, ◌∙◌, List, [], ◌++◌,
  some, true, false, arith, ◌≢◌, drop-drop, ltb, leb, ◌==◌, ◌||◌, if◌then◌else◌, u32, length, take,
  drop, le_bytes, IsBytes, length-append, length-take, length-drop, take_all, take-length-append,
  drop-length-append,
}
use otservpp.Crypto.Adler.{adler32}
use otservpp.Crypto.Adler.Reference.{checksum}
use otservpp.Crypto.Adler.Laws.{adler32-checksum}
use otservpp.Crypto.Xtea.{Key, decrypt_bytes}
use otservpp.Message.In.{
  InMessage, ◌>>=◌, ◌>>◌, ok, packet_exception, fault, peek_raw_chunk, get_remaining_size,
  get_body_buffer, set_remaining_size, write_at_pos,
}
use otservpp.Message.In.Laws.{
  IsWellFormed, remaining, advance, get_number-remaining, peek_raw_chunk_lem, length-remaining,
}
use otservpp.Message.In.Standard.{parse_header, do_checksum, xtea_decrypt}

-- In a message that is at its start and has its header, a size from 8 to 15338 is taken; a larger one up
-- to 15340 passes the test of the header and then fails the assertion of `setRemainingSize`, which
-- counts the header too; any other throws.
pub parse_header_lem :
    (m : InMessage) (n : ℕ) (bs : List ℕ)
    → m.pos ≡ 0
    → m.size ≡ 2
    → m.buffer ≡ le_bytes 2 n ++ bs
    → length m.buffer < 2 ^ 31
    → n < 2 ^ 16
    → parse_header m ≡ (
        if ltb n 8 || ltb 15340 n
        then packet_exception (advance 2 m)
        else if ltb 15338 n
        then fault
        else ok (record { start = 2; count = n }) (record (advance 2 m) { size = 2 + n }))
unfolding parse_header set_remaining_size get_body_buffer
parse_header_lem m n bs p s e small h =
    let v : IsWellFormed m = record {
      read = omega arith;
      fits = omega (arith, ap length e);
      small = small;
    } in
    let next : remaining m ≡ le_bytes 2 n ++ [] = rw (p, s, e) in
    let reads = (get_number-remaining m v 2 n [] h next).0 in
    let e' : u32 (m.pos + 2 + n) ≡ 2 + n = omega arith in
    elim (Bool-cases (ltb n 8 || ltb 15340 n)) [
      | inl bad ↦ rw (reads, ◌>>=◌, ◌>>◌, bad)
      | inr good ↦
          rw (reads, ◌>>=◌, ◌>>◌, good)
            (elim (Bool-cases (ltb 15338 n)) [
              | inl over ↦
                  let fails : leb (u32 (m.pos + 2 + n)) 15340 ≡ false = ground (arith, e') in
                  rw (fails, ◌>>=◌, ◌>>◌, over)
              | inr within ↦
                  let holds : leb (u32 (m.pos + 2 + n)) 15340 ≡ true = ground (arith, e') in
                  let some_left : ltb 2 (2 + n) ≡ true = ground arith in
                  let count : 2 + n - 2 ≡ n = omega arith in
                  rw (holds, e', ◌>>=◌, ◌>>◌, within, some_left, count)
            ])
    ]

module _ (m : InMessage) (v : IsWellFormed m) where
  get_remaining_size_lem : get_remaining_size m ≡ ok (m.size - m.pos) m
  unfolding get_remaining_size
  get_remaining_size_lem = ground (arith, v)

  peek_remaining : peek_raw_chunk (m.size - m.pos) m ≡ ok (remaining m) m
  peek_remaining = ground (arith, v, peek_raw_chunk_lem m v (m.size - m.pos))

-- The checksum that stands first is compared with that of all the bytes behind it.
pub do_checksum_lem :
    (fast : ℕ) (m : InMessage) (c : ℕ) (bs : List ℕ)
    → 2 ^ 32 ≤ fast
    → IsWellFormed m
    → c < 2 ^ 32
    → IsBytes bs
    → 0 < length bs
    → remaining m ≡ le_bytes 4 c ++ bs
    → do_checksum fast m
      ≡ (if c == checksum bs then ok tt (advance 4 m) else packet_exception (advance 4 m))
unfolding do_checksum
do_checksum_lem fast m c bs wide v h bytes some_left e =
    let (reads, v', rest) = get_number-remaining m v 4 c bs h e in
    let size : (advance 4 m).size - (advance 4 m).pos ≡ length bs =
      omega (arith, ap length rest, length-remaining (advance 4 m) v') in
    let peeks = peek_remaining (advance 4 m) v' in
    let sizes = get_remaining_size_lem (advance 4 m) v' in
    let sum : adler32 fast bs (length bs) ≡ some (checksum bs) =
      adler32-checksum fast wide bs (length bs) some_left (omega arith) bytes
      ∙ ap (λ xs. some (checksum xs)) (take_all (length bs) bs (omega arith)) in
    ground (arith, reads, sizes, peeks, rest, size, sum)

-- The message with other bytes in place of those to be read.
abbrev pub overwritten : InMessage → List ℕ → InMessage
overwritten m plain = record m {
  buffer = take m.pos m.buffer ++ (plain ++ drop (m.pos + length plain) m.buffer);
}

module _ {m : InMessage} (v : IsWellFormed m) (plain : List ℕ)
    (same : length plain ≡ length (remaining m)) where
  start_size : length (take m.pos m.buffer) ≡ m.pos
  start_size = omega (arith, v, length-take m.pos m.buffer)

  drop_start :
      drop m.pos (overwritten m plain).buffer ≡ plain ++ drop (m.pos + length plain) m.buffer
  drop_start =
      ap (λ k. drop k (overwritten m plain).buffer) (sym start_size)
      ∙ drop-length-append (take m.pos m.buffer) (plain ++ drop (m.pos + length plain) m.buffer)

  write_at_pos_lem :
      (write_at_pos plain m ≡ ok tt (overwritten m plain))
      × IsWellFormed (overwritten m plain)
      × (remaining (overwritten m plain) ≡ plain)
  write_at_pos_lem =
      let size : m.size - m.pos ≡ length plain = omega (arith, same, length-remaining m v) in
      let total : length (overwritten m plain).buffer ≡ length m.buffer = omega (
        arith,
        v,
        size,
        start_size,
        length-append (take m.pos m.buffer) (plain ++ drop (m.pos + length plain) m.buffer),
        length-append plain (drop (m.pos + length plain) m.buffer),
        length-drop (m.pos + length plain) m.buffer,
      ) in
      (
        ground (arith, v, size),
        record {
          read = v.read;
          fits = omega (arith, v, size, total);
          small = omega (arith, v, size, start_size, total);
        },
        rw (size, drop_start) (take-length-append plain (drop (m.pos + length plain) m.buffer)),
      )

-- A message whose encrypted part is not a whole number of frames is refused.
pub xtea_decrypt_ragged :
    (key : Key) (m : InMessage)
    → IsWellFormed m
    → length (remaining m) % 8 ≢ 0
    → xtea_decrypt key m ≡ packet_exception m
unfolding xtea_decrypt
xtea_decrypt_ragged key m v ragged =
    let size = length-remaining m v in
    let fails : (((m.size - m.pos) % 8) == 0) ≡ false = ground (arith, size) in
    rw (get_remaining_size_lem m v, ◌>>=◌, ◌>>◌, fails)

-- Whole frames are decrypted in place; the first two bytes are then the size of what is left to be
-- read, whatever the number of bytes that were received.
pub xtea_decrypt_lem :
    (key : Key) (m : InMessage) (n : ℕ) (bs : List ℕ)
    → IsWellFormed m
    → length (remaining m) % 8 ≡ 0
    → decrypt_bytes key (remaining m) (length (remaining m)) ≡ some (le_bytes 2 n ++ bs)
    → n < 2 ^ 16
    → length (le_bytes 2 n ++ bs) ≡ length (remaining m)
    → xtea_decrypt key m ≡ (
        if leb (m.pos + 2 + n) 15340
        then ok tt
            (record (overwritten m (le_bytes 2 n ++ bs)) { pos = m.pos + 2; size = m.pos + 2 + n })
        else fault)
unfolding xtea_decrypt set_remaining_size
xtea_decrypt_lem key m n bs v whole e h same =
    let size = length-remaining m v in
    let (writes, v', next) = write_at_pos_lem v (le_bytes 2 n ++ bs) same in
    let reads = (get_number-remaining _ v' 2 n bs h next).0 in
    let holds : (((m.size - m.pos) % 8) == 0) ≡ true = ground (arith, size, whole) in
    let plain : decrypt_bytes key (remaining m) (m.size - m.pos) ≡ some (le_bytes 2 n ++ bs) =
      subst (λ k. decrypt_bytes key (remaining m) k ≡ some (le_bytes 2 n ++ bs)) size e in
    let e' : u32 (m.pos + 2 + n) ≡ m.pos + 2 + n = omega (arith, v) in
    rw
      (get_remaining_size_lem m v, ◌>>=◌, ◌>>◌, holds, peek_remaining m v, plain, writes, reads, e')

-- What is left to be read is then cut to that size, from the decrypted bytes and whatever stands
-- behind them in the buffer.
pub remaining-overwritten :
    (m : InMessage) (n : ℕ) (bs : List ℕ)
    → IsWellFormed m
    → length (le_bytes 2 n ++ bs) ≡ length (remaining m)
    → remaining
        (record (overwritten m (le_bytes 2 n ++ bs)) { pos = m.pos + 2; size = m.pos + 2 + n })
      ≡ take n (bs ++ drop m.size m.buffer)
remaining-overwritten m n bs v same =
    let count : m.pos + 2 + n - (m.pos + 2) ≡ n = omega arith in
    let end : m.pos + length (le_bytes 2 n ++ bs) ≡ m.size =
      omega (arith, v, same, length-remaining m v) in
    rw (count, ← drop-drop m.pos 2 (overwritten m (le_bytes 2 n ++ bs)).buffer)
      (rw (drop_start v (le_bytes 2 n ++ bs) same) (ap (λ k. take n (bs ++ drop k m.buffer)) end))
