-- ===== src/Message/In.antt =====
-- BasicInMessage of message/basicinmessage.hpp. `unsigned int` has 32 bits and wraps; an access
-- outside of the buffer and an assertion that fails are the outcome `fault`.
pub mod Laws
pub mod Standard
use otservpp.Base.{
  ℕ, ◌+◌, ◌-◌, ◌^◌, ◌≤◌, ◌<◌, Bool, List, ◌++◌, Option, none, some, ltb, leb, if◌then◌else◌, u32,
  length, take, drop, replicate, le_value,
}

pub record InMessage : Type 0 where
  pub buffer : List ℕ
  pub pos : ℕ
  pub size : ℕ

-- A call returns, throws PacketException and leaves the message as it is by then, or faults.
pub data Outcome {ℓ} (A : Type ℓ) : Type ℓ where
  ok : A → InMessage → Outcome A
  packet_exception : InMessage → Outcome A
  fault : Outcome A

abbrev pub Reader {ℓ} : Type ℓ → Type ℓ
Reader A = InMessage → Outcome A

infixl 5 ◌>>=◌ ◌>>◌
abbrev pub ◌>>=◌ {ℓ κ} : {A : Type ℓ} {B : Type κ} → Reader A → (A → Reader B) → Reader B
◌>>=◌ r f m = elim (r m) [
  | ok a m' ↦ f a m'
  | packet_exception m' ↦ packet_exception m'
  | fault ↦ fault
]

abbrev pub ◌>>◌ {ℓ} : {B : Type ℓ} → Reader (Unit {0}) → Reader B → Reader B
r >> s = r >>= λ _. s

abbrev pub return {ℓ} : {A : Type ℓ} → A → Reader A
return a m = ok a m

abbrev pub throw {ℓ} : {A : Type ℓ} → Reader A
throw m = packet_exception m

-- `if(!b) throw PacketException();`
abbrev pub require : Bool → Reader (Unit {0})
require b m = if b then ok tt m else packet_exception m

-- What the program got from the array, or the fault where it lies outside.
abbrev pub or_fault {ℓ} : {A : Type ℓ} → Option A → Reader A
or_fault none m = fault
or_fault (some a) m = ok a m

-- The `n` elements of an array from index `p` on.
abbrev pub chunk_at : ℕ → ℕ → List ℕ → Option (List ℕ)
chunk_at p n buffer = if leb (p + n) (length buffer) then some (take n (drop p buffer)) else none

unfoldable pub move_pos : ℕ → Reader (Unit {0})
move_pos bytes m =
    let m' : InMessage = record m { pos = u32 (m.pos + bytes) } in
    if ltb m.size m'.pos then packet_exception m' else ok tt m'

-- `getRawChunckAs<T>(bytes)`: the bytes that the returned pointer stands at.
unfoldable pub get_raw_chunk : ℕ → Reader (List ℕ)
get_raw_chunk bytes = do
  move_pos bytes
  λ m. or_fault (chunk_at (u32 (m.pos + 2 ^ 32 - bytes)) bytes m.buffer) m

-- `getNumber<T>()` for a type of `n` bytes; `getByte` reads one the same way.
unfoldable pub get_number : ℕ → Reader ℕ
get_number n = do bytes ← get_raw_chunk n; return (le_value bytes)

abbrev pub get_byte : Reader ℕ
get_byte = get_number 1

abbrev pub get_u16 : Reader ℕ
get_u16 = get_number 2

abbrev pub get_u32 : Reader ℕ
get_u32 = get_number 4

abbrev pub get_u64 : Reader ℕ
get_u64 = get_number 8

unfoldable pub get_str_chunk : ℕ → Reader (List ℕ)
get_str_chunk bytes = get_raw_chunk bytes

unfoldable pub skip_bytes : ℕ → Reader (Unit {0})
skip_bytes delta = move_pos delta

-- `peekRawChunckAs<T>(bytes)`.
unfoldable pub peek_raw_chunk : ℕ → Reader (List ℕ)
peek_raw_chunk bytes m =
    if ltb m.size (u32 (m.pos + bytes))
    then packet_exception m
    else or_fault (chunk_at m.pos bytes m.buffer) m

unfoldable pub get_remaining_size : Reader ℕ
get_remaining_size m = if leb m.pos m.size then ok (m.size - m.pos) m else fault

pub is_available : ℕ → InMessage → Bool
is_available bytes m = leb (u32 (m.pos + bytes)) m.size

-- A write through the pointer that `peekRawChunckAs` gave.
abbrev pub write_at_pos : List ℕ → Reader (Unit {0})
write_at_pos bytes m =
    if leb (m.pos + length bytes) (length m.buffer)
    then ok tt (record m {
      buffer = take m.pos m.buffer ++ (bytes ++ drop (m.pos + length bytes) m.buffer);
    })
    else fault

-- Where a buffer that is handed to the socket begins, and its length.
pub record Region : Type 0 where
  pub start : ℕ
  pub count : ℕ

-- The template parameters HEADER_SIZE and MAX_BODY_SIZE.
module _ (header_size max_body_size : ℕ) where
  -- The array has no initial value: `garbage` is what stands there.
  unfoldable pub create : List ℕ → InMessage
  create garbage = record { buffer = garbage; pos = 0; size = header_size }

  pub get_header_buffer : InMessage → Region
  get_header_buffer m = record { start = 0; count = header_size }

  unfoldable pub get_body_buffer : Reader Region
  get_body_buffer m =
      if ltb header_size m.size
      then ok (record { start = header_size; count = m.size - header_size }) m
      else fault

  unfoldable pub set_remaining_size : ℕ → Reader (Unit {0})
  set_remaining_size bytes m =
      if leb (u32 (m.pos + bytes)) max_body_size
      then ok tt (record m { size = u32 (m.pos + bytes) })
      else fault
