-- ===== src/Message/Out.antt =====
-- BasicOutMessage of message/basicoutmessage.hpp: a vector with room for prefixes in front.
pub mod Body
pub mod Standard
pub mod Suite
use otservpp.Base.{
  ℕ, ◌+◌, ◌-◌, ◌≤◌, ◌<◌, List, [], ◌∷◌, ◌++◌, Option, none, some, leb, ◌==◌, if◌then◌else◌, u16,
  length, take, drop, replicate, le_bytes,
}
use otservpp.Base.Options.{◌>>=◌}

-- `prefixPos` is an `int`, but no value of it below 0 is ever used: where it would get there the
-- access that follows is out of bounds, which is the result `none`.
pub record OutMessage : Type 0 where
  pub buffer : List ℕ
  pub prefix_pos : ℕ

-- The constructor, whose capacity only reserves memory; the vector then has MAX_PREFIX_SIZE bytes.
unfoldable pub create : ℕ → OutMessage
create max_prefix_size = record {
  buffer = replicate max_prefix_size 0;
  prefix_pos = max_prefix_size;
}

-- What is handed to the socket.
unfoldable pub get_buffer : OutMessage → List ℕ
get_buffer m = drop m.prefix_pos m.buffer

pub get_size : OutMessage → Option ℕ
get_size m =
    if leb m.prefix_pos (length m.buffer) then some (length m.buffer - m.prefix_pos) else none

-- `addPrefix<T>` with a type of `n` bytes. Its assertion compares an unsigned number with 0 and
-- always passes.
pub add_prefix : ℕ → ℕ → OutMessage → Option OutMessage
add_prefix n v m =
    if leb n m.prefix_pos
    then if leb m.prefix_pos (length m.buffer)
      then some (record {
        buffer = take (m.prefix_pos - n) m.buffer ++ (le_bytes n v ++ drop m.prefix_pos m.buffer);
        prefix_pos = m.prefix_pos - n;
      })
      else none
    else none

-- `add<T>` with a type of `n` bytes.
unfoldable pub add : ℕ → ℕ → OutMessage → OutMessage
add n v m = record m { buffer = m.buffer ++ le_bytes n v }

abbrev pub add_byte : ℕ → OutMessage → OutMessage
add_byte v m = add 1 v m

abbrev pub add_u16 : ℕ → OutMessage → OutMessage
add_u16 v m = add 2 v m

abbrev pub add_u32 : ℕ → OutMessage → OutMessage
add_u32 v m = add 4 v m

abbrev pub add_u64 : ℕ → OutMessage → OutMessage
add_u64 v m = add 8 v m

-- A floating point number is given by its bits.
abbrev pub add_float : ℕ → OutMessage → OutMessage
add_float bits m = add 4 bits m

abbrev pub add_double : ℕ → OutMessage → OutMessage
add_double bits m = add 8 bits m

-- `add(const std::string&)`: the length is cut to 16 bits, the text is not.
unfoldable pub add_string : List ℕ → OutMessage → OutMessage
add_string str m = let m' = add 2 (u16 (length str)) m in record m' { buffer = m'.buffer ++ str }

-- `add(const char*, uint16_t)`, for `size` bytes of the memory at `str`.
pub add_chars : List ℕ → ℕ → OutMessage → Option OutMessage
add_chars str size m =
    let m' = add 2 size m in
    if leb size (length str) then some (record m' { buffer = m'.buffer ++ take size str }) else none

-- `strlen` of the memory from a pointer on; `none` is a read behind it.
unfoldable pub strlen : List ℕ → Option ℕ
strlen [] = none
strlen (c ∷ cs) = let rest = strlen cs in if c == 0 then some 0 else rest >>= λ n. some (n + 1)

-- `add(const char*)`.
unfoldable pub add_c_string : List ℕ → OutMessage → Option OutMessage
unfolding strlen add_chars
add_c_string str m = strlen str >>= λ n. add_chars str (u16 n) m

pub add_raw : List ℕ → ℕ → OutMessage → Option OutMessage
add_raw raw size m =
    if leb size (length raw) then some (record m { buffer = m.buffer ++ take size raw }) else none

pub add_padding : ℕ → ℕ → OutMessage → OutMessage
add_padding count value m = record m { buffer = m.buffer ++ replicate count value }

-- `operator<<`.
pub data Item : Type 0 where
  byte : ℕ → Item
  short : ℕ → Item
  long : ℕ → Item
  longlong : ℕ → Item
  string : List ℕ → Item
  float : ℕ → Item
  double : ℕ → Item

abbrev pub put : OutMessage → Item → OutMessage
put m (byte v) = add 1 v m
put m (short v) = add 2 v m
put m (long v) = add 4 v m
put m (longlong v) = add 8 v m
put m (string s) = add_string s m
put m (float bits) = add 4 bits m
put m (double bits) = add 8 bits m
