-- ===== src/Crypto/Adler/Reference.antt =====
-- Adler-32 as RFC 1950 states it: both sums are reduced after every byte.
use otservpp.Base.{ℕ, ◌+◌, ◌*◌, ◌%◌, List, [], ◌∷◌}

pub record Pair : Type 0 where
  pub a : ℕ
  pub b : ℕ

abbrev pub sums : List ℕ → ℕ → ℕ → Pair
sums [] a b = record { a = a; b = b }
sums (x ∷ xs) a b = sums xs ((a + x) % 65521) ((b + (a + x) % 65521) % 65521)

-- The checksum of a sequence of bytes.
abbrev pub checksum : List ℕ → ℕ
checksum xs = let s = sums xs 1 0 in s.b * 65536 + s.a
