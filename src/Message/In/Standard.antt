-- ===== src/Message/In/Standard.antt =====
-- StandardInMessage of message/standardinmessage.h and message/standarinmessage.cpp.
pub mod Laws
use otservpp.Base.{
  ℕ, ◌+◌, ◌%◌, ◌<◌, Bool, false, List, Option, none, some, ltb, ◌==◌, ◌||◌, not, if◌then◌else◌,
  length,
}
use otservpp.Crypto.Adler.{adler32}
use otservpp.Crypto.Xtea.{Key, decrypt_bytes}
use otservpp.Message.In.{
  InMessage, Outcome, ok, packet_exception, fault, Reader, ◌>>=◌, ◌>>◌, return, require, or_fault,
  get_byte, get_u16, get_u32, get_str_chunk, peek_raw_chunk, get_remaining_size, write_at_pos,
  Region, get_body_buffer, set_remaining_size,
}

abbrev pub header_size : ℕ
header_size = 2

abbrev pub max_body_size : ℕ
max_body_size = 15340

unfoldable pub parse_header : Reader Region
parse_header = do
  body_size ← get_u16
  require (not (ltb body_size 8 || ltb max_body_size body_size))
  set_remaining_size header_size max_body_size body_size
  get_body_buffer header_size max_body_size

unfoldable pub get_string : Reader (List ℕ)
get_string = do n ← get_u16; get_str_chunk n

-- `fast` is the modulus of `uint_fast32_t`.
unfoldable pub do_checksum : ℕ → Reader (Unit {0})
do_checksum fast = do
  given ← get_u32
  size ← get_remaining_size
  bytes ← peek_raw_chunk size
  computed ← or_fault (adler32 fast bytes size)
  require (given == computed)

pub get_xtea : Reader Key
get_xtea = do
  k0 ← get_u32
  k1 ← get_u32
  k2 ← get_u32
  k3 ← get_u32
  return (record { k0 = k0; k1 = k1; k2 = k2; k3 = k3 })

pub xtea_decrypt : Key → Reader (Unit {0})
xtea_decrypt key = do
  size ← get_remaining_size
  require (size % 8 == 0)
  cipher ← peek_raw_chunk size
  plain ← or_fault (decrypt_bytes key cipher size)
  write_at_pos plain
  n ← get_u16
  set_remaining_size header_size max_body_size n

-- The value that the handler is called with. `rsa` is the decryption of 128 bytes by the key at
-- hand: `none` is an error of OpenSSL, and else the result is written over the encrypted bytes.
pub rsa_decrypt : (List ℕ → Option (List ℕ)) → Reader Bool
rsa_decrypt rsa = do
  cipher ← peek_raw_chunk 128
  λ m. elim (rsa cipher) [
    | none ↦ return false m
    | some plain ↦
        (do
          write_at_pos plain
          set_remaining_size header_size max_body_size (length plain)
          first ← get_byte
          return (first == 0))
          m
  ]
