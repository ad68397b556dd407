-- ===== src/Message/Out/Body.antt =====
-- An outgoing message seen as its body and the room in front of it: each operation appends to the
-- body, or puts a prefix before it and takes up room.
use mathlib.Core.List.{append_assoc}
use otservpp.Base.{
  ℕ, zero, suc, ◌-◌, ◌≤◌, ◌<◌, ◌≡◌, refl, sym, subst, ap, ◌∙◌, List, [], ◌++◌, some, none, arith,
  u16, length, take, drop, replicate, le_bytes, length-append, length-take, length-drop,
  length-replicate, drop-append, drop-length-append,
}
use otservpp.Message.Out.{
  OutMessage, create, get_buffer, get_size, add_prefix, add, add_string, add_chars, add_raw,
  add_padding,
}

pub record Holds (m : OutMessage) (room : ℕ) (body : List ℕ) : Type 0 where
  pub pos : m.prefix_pos ≡ room
  pub fits : m.prefix_pos ≤ length m.buffer
  pub contents : drop m.prefix_pos m.buffer ≡ body

drop-replicate_all : (n : ℕ) → drop n (replicate {A = ℕ} n 0) ≡ []
drop-replicate_all zero = refl
drop-replicate_all (suc n) = drop-replicate_all n

pub create-Holds : (n : ℕ) → Holds (create n) n []
unfolding create
create-Holds n = record {
  pos = refl;
  fits = omega (arith, length-replicate {A = ℕ} n 0);
  contents = drop-replicate_all n;
}

module _ {m : OutMessage} {room : ℕ} {body : List ℕ} (h : Holds m room body) where
  appended : (xs : List ℕ) → Holds (record m { buffer = m.buffer ++ xs }) room (body ++ xs)
  appended xs = record {
    pos = h.pos;
    fits = omega (arith, h.fits, length-append m.buffer xs);
    contents = drop-append m.prefix_pos m.buffer xs h.fits ∙ ap (λ ys. ys ++ xs) h.contents;
  }

  pub get_size-Holds : get_size m ≡ some (length body)
  unfolding get_size
  get_size-Holds = ground (arith, h.fits, length-drop m.prefix_pos m.buffer, ap length h.contents)

  pub get_buffer-Holds : get_buffer m ≡ body
  unfolding get_buffer
  get_buffer-Holds = h.contents

  -- A number is appended in its bytes.
  pub add-Holds : (n v : ℕ) → Holds (add n v m) room (body ++ le_bytes n v)
  unfolding add
  add-Holds n v = appended (le_bytes n v)

  pub add_padding-Holds : (n v : ℕ) → Holds (add_padding n v m) room (body ++ replicate n v)
  unfolding add_padding
  add_padding-Holds n v = appended (replicate n v)

  -- A text is appended behind its length in 16 bits.
  pub add_string-Holds :
      (str : List ℕ)
      → Holds (add_string str m) room (body ++ (le_bytes 2 (u16 (length str)) ++ str))
  unfolding add_string add
  add_string-Holds str =
      let size : List ℕ = le_bytes 2 (u16 (length str)) in
      subst (λ b. Holds (record m { buffer = b }) room (body ++ (size ++ str)))
        (sym (append_assoc m.buffer size str)) (appended (size ++ str))

  -- `add(const char*, uint16_t)` appends the first `size` characters behind their number, if the
  -- memory has so many.
  pub add_chars-Holds :
      (str : List ℕ) (size : ℕ)
      → size ≤ length str
      → (m' : OutMessage) × (add_chars str size m ≡ some m')
        × Holds m' room (body ++ (le_bytes 2 size ++ take size str))
  unfolding add_chars add
  add_chars-Holds str size fits =
      let number : List ℕ = le_bytes 2 size in
      (
        record m { buffer = (m.buffer ++ number) ++ take size str },
        ground arith,
        subst (λ b. Holds (record m { buffer = b }) room (body ++ (number ++ take size str)))
            (sym (append_assoc m.buffer number (take size str)))
            (appended (number ++ take size str)),
      )

  -- So many bytes of the memory are appended, if it has them.
  pub add_raw-Holds :
      (raw : List ℕ) (size : ℕ)
      → size ≤ length raw
      → (m' : OutMessage) × (add_raw raw size m ≡ some m') × Holds m' room (body ++ take size raw)
  unfolding add_raw
  add_raw-Holds raw size fits =
      (record m { buffer = m.buffer ++ take size raw }, ground arith, appended (take size raw))

  -- A prefix is put before the body while there is room for it.
  pub add_prefix-Holds :
      (n v : ℕ)
      → n ≤ room
      → (m' : OutMessage) × (add_prefix n v m ≡ some m')
        × Holds m' (room - n) (le_bytes n v ++ body)
  unfolding add_prefix
  add_prefix-Holds n v fits =
      let start : List ℕ = take (m.prefix_pos - n) m.buffer in
      let tail : List ℕ = le_bytes n v ++ drop m.prefix_pos m.buffer in
      let size : length start ≡ m.prefix_pos - n =
        omega (arith, h.fits, length-take (m.prefix_pos - n) m.buffer) in
      (
        record { buffer = start ++ tail; prefix_pos = m.prefix_pos - n },
        ground (arith, h),
        record {
          pos = omega (arith, h.pos);
          fits = omega (arith, h.fits, length-append start tail, size);
          contents =
              ap (λ k. drop k (start ++ tail)) (sym size)
              ∙ drop-length-append start tail
              ∙ ap (◌++◌ (le_bytes n v)) h.contents;
        },
      )

  -- Where there is no room for a prefix, it is written before the buffer.
  pub add_prefix-Holds_full : (n v : ℕ) → room < n → add_prefix n v m ≡ none
  unfolding add_prefix
  add_prefix-Holds_full n v full = ground (arith, h.pos)
