-- ===== src/Message/Out/Standard.antt =====
-- StandardOutMessage of message/standardoutmessage.h and message/standardoutmessage.cpp.
pub mod Laws
use otservpp.Base.{ℕ, ◌+◌, ◌-◌, ◌%◌, ◌^◌, List, ◌++◌, Option, none, some, u16, take, drop}
use otservpp.Base.Options.{◌>>=◌}
use otservpp.Crypto.Adler.{adler32}
use otservpp.Crypto.Xtea.{Key, encrypt_bytes}
use otservpp.Message.Out.{OutMessage, create, get_buffer, get_size, add_prefix, add, add_padding}

abbrev pub prefix_size : ℕ
prefix_size = 8

-- `StandardOutMessage(packetType)`.
unfoldable pub with_type : ℕ → OutMessage
with_type packet_type = add 1 packet_type (create prefix_size)

pub add_header : OutMessage → Option OutMessage
add_header m = do size ← get_size m; add_prefix 2 (u16 size) m

pub xtea_encrypt : Key → OutMessage → Option OutMessage
xtea_encrypt key m = do
  size ← get_size m
  let m' = add_padding (8 - size % 8) 0x33 m
  size' ← get_size m'
  cipher ← encrypt_bytes key (get_buffer m') size'
  some (record m' { buffer = take m'.prefix_pos m'.buffer ++ cipher })

-- `fast` is the modulus of `uint_fast32_t`, and `size_t_bytes` is `sizeof(std::size_t)`, the type of
-- `getSize()` and so of the last prefix.
pub encode : ℕ → ℕ → OutMessage → Option OutMessage
encode fast size_t_bytes m = do
  size ← get_size m
  sum ← adler32 fast (get_buffer m) size
  m' ← add_prefix 4 sum m
  size' ← get_size m'
  add_prefix size_t_bytes size' m'
