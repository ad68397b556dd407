-- ===== src/Crypto/Adler.antt =====
-- `adler32` of crypto.cpp: sums over chunks of 5552 bytes, unrolled by sixteen, reduced only at
-- the end of a chunk. `uint_fast32_t` has at least 32 bits: its modulus is the argument `m`.
pub mod Reference
pub mod Chunk
pub mod Laws
mod Tests
use otservpp.Base.{
  ℕ, zero, suc, ◌+◌, ◌-◌, ◌*◌, ◌%◌, ◌^◌, bit_or, Bool, List, [], ◌∷◌, Option, none, some, ltb, leb,
  ◌==◌, if◌then◌else◌, u32,
}
use otservpp.Base.Options.{◌>>=◌}

-- The variables `a`, `b` and `data`; `rest` is the memory from `data` on.
pub record Sums : Type 0 where
  pub a : ℕ
  pub b : ℕ
  pub rest : List ℕ

abbrev pub chunk_size : ℕ
chunk_size = 5552

abbrev pub base : ℕ
base = 65521

-- `k = len > 5552? 5552 : len`.
abbrev pub chunk_length : ℕ → ℕ
chunk_length len = if ltb chunk_size len then chunk_size else len

module _ (m : ℕ) where
  -- `a += *data++; b += a;`, `k` times. `none` is a read past the end of the memory.
  pub add_bytes : ℕ → ℕ → ℕ → List ℕ → Option Sums
  add_bytes zero a b rest = some (record { a = a; b = b; rest = rest })
  add_bytes (suc k) a b [] = none
  add_bytes (suc k) a b (x ∷ rest) = add_bytes k ((a + x) % m) ((b + (a + x) % m) % m) rest

  -- `while(k >= 16)`, with what is left of `k`.
  pub unrolled : ℕ → ℕ → Sums → Option (Sums × ℕ)
  unrolled zero k s = none
  unrolled (suc fuel) k s =
      let rest = (do s' ← add_bytes 16 s.a s.b s.rest; unrolled fuel (k - 16) s') in
      if leb 16 k then rest else some (s, k)

  -- `if(k != 0)` and its loop.
  pub remainder : ℕ → Sums → Option Sums
  remainder left s = if left == 0 then some s else add_bytes left s.a s.b s.rest

  -- The body of the outer loop for a chunk of `k` bytes.
  pub chunk : ℕ → Sums → Option Sums
  chunk k s = do
    (s', left) ← unrolled (suc k) k s
    s'' ← remainder left s'
    some (record s'' { a = s''.a % base; b = s''.b % base })

  -- `while(len > 0)`.
  pub chunks : ℕ → ℕ → Sums → Option Sums
  chunks zero len s = none
  chunks (suc fuel) len s =
      let rest = (do s' ← chunk (chunk_length len) s; chunks fuel (len - chunk_length len) s') in
      if ltb 0 len then rest else some s

  -- `none` also where `assert(len != 0)` fails.
  unfoldable pub adler32 : List ℕ → ℕ → Option ℕ
  adler32 memory len = if len == 0 then none else do
    s ← chunks (suc len) len (record { a = 1; b = 0; rest = memory })
    some (u32 (bit_or (u32 (s.b * 2 ^ 16 % m)) s.a))
