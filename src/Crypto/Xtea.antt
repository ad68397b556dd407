-- ===== src/Crypto/Xtea.antt =====
-- The class `Xtea` of crypto.h and crypto.cpp, on 32-bit words. Each `uint32_t` operation keeps its
-- wrap written out; a subtraction adds the modulus first.
pub mod Words
pub mod Round
pub mod Laws
mod Tests
use otservpp.Base.{
  ℕ, zero, suc, ◌+◌, ◌-◌, ◌*◌, ◌/◌, ◌%◌, ◌^◌, bit_and, bit_xor, List, [], ◌∷◌, Option, none, some,
  u32, ◌==◌, if◌then◌else◌, take, drop, ◌++◌,
}
use Words.{words, bytes}

-- `uint32_t key[4]`.
pub record Key : Type 0 where
  pub k0 : ℕ
  pub k1 : ℕ
  pub k2 : ℕ
  pub k3 : ℕ

-- `k[i]`, for an index below 4.
abbrev key_at : Key → ℕ → ℕ
key_at k i = if i == 0 then k.k0 else if i == 1 then k.k1 else if i == 2 then k.k2 else k.k3

abbrev pub delta : ℕ
delta = 0x9E3779B9

abbrev pub sub32 : ℕ → ℕ → ℕ
sub32 a b = u32 (a + 2 ^ 32 - u32 b)

-- The variables of the loop over the rounds.
pub record Block : Type 0 where
  pub v0 : ℕ
  pub v1 : ℕ
  pub sum : ℕ

module _ (key : Key) where
  -- `((v << 4 ^ v >> 5) + v) ^ (sum + k[i])`.
  unfoldable pub feed : ℕ → ℕ → ℕ → ℕ
  feed v sum i =
      bit_xor (u32 (bit_xor (u32 (v * 2 ^ 4)) (v / 2 ^ 5) + v)) (u32 (sum + key_at key i))

  unfoldable pub encrypt_round : Block → Block
  encrypt_round b =
      let v0 = u32 (b.v0 + feed b.v1 b.sum (bit_and b.sum 3)) in
      let sum = u32 (b.sum + delta) in
      let v1 = u32 (b.v1 + feed v0 sum (bit_and (sum / 2 ^ 11) 3)) in
      record { v0 = v0; v1 = v1; sum = sum }

  unfoldable pub decrypt_round : Block → Block
  decrypt_round b =
      let v1 = sub32 b.v1 (feed b.v0 b.sum (bit_and (b.sum / 2 ^ 11) 3)) in
      let sum = sub32 b.sum delta in
      let v0 = sub32 b.v0 (feed v1 sum (bit_and sum 3)) in record { v0 = v0; v1 = v1; sum = sum }

-- `while(round-- > 0)`.
unfoldable pub rounds : (Block → Block) → ℕ → Block → Block
rounds f zero b = b
rounds f (suc n) b = rounds f n (f b)

unfoldable pub encrypt_block : Key → ℕ → ℕ → Block
encrypt_block key v0 v1 = rounds (encrypt_round key) 32 (record { v0 = v0; v1 = v1; sum = 0 })

unfoldable pub decrypt_block : Key → ℕ → ℕ → Block
decrypt_block key v0 v1 =
    rounds (decrypt_round key) 32 (record { v0 = v0; v1 = v1; sum = u32 (delta * 2 ^ 5) })

-- `while(pos < lenght/4)` with `left` words to go; the words from `pos` on are the list, and `none`
-- is an access past its end.
unfoldable pub blocks : (ℕ → ℕ → Block) → ℕ → List ℕ → Option (List ℕ)
blocks f zero ws = some ws
blocks f (suc left) [] = none
blocks f (suc left) (v0 ∷ []) = none
blocks f (suc left) (v0 ∷ v1 ∷ ws) = elim (blocks f (left - 1) ws) [
  | none ↦ none
  | some done ↦ some ((f v0 v1).v0 ∷ (f v0 v1).v1 ∷ done)
]

unfoldable pub encrypt : Key → List ℕ → ℕ → Option (List ℕ)
encrypt key buffer length = blocks (encrypt_block key) (length / 4) buffer

unfoldable pub decrypt : Key → List ℕ → ℕ → Option (List ℕ)
decrypt key buffer length = blocks (decrypt_block key) (length / 4) buffer

-- The calls of the messages, which cast a buffer of bytes to `uint32_t*`: the first `length` bytes
-- are read as words, and what lies behind them stays.
unfoldable pub encrypt_bytes : Key → List ℕ → ℕ → Option (List ℕ)
encrypt_bytes key buffer length = elim (encrypt key (words (take length buffer)) length) [
  | none ↦ none
  | some ws ↦ some (bytes ws ++ drop length buffer)
]

unfoldable pub decrypt_bytes : Key → List ℕ → ℕ → Option (List ℕ)
decrypt_bytes key buffer length = elim (decrypt key (words (take length buffer)) length) [
  | none ↦ none
  | some ws ↦ some (bytes ws ++ drop length buffer)
]
