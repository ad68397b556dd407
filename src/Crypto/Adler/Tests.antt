-- ===== src/Crypto/Adler/Tests.antt =====
-- Runs of `adler32` and an instance of its law.
use otservpp.Base.{ℕ, ◌^◌, ◌≡◌, refl, List, [], ◌∷◌, some, arith}
use otservpp.Crypto.Adler.{adler32, chunks, chunk, unrolled, remainder, add_bytes}
use otservpp.Crypto.Adler.Reference.{checksum}
use otservpp.Crypto.Adler.Laws.{adler32-checksum}

abbrev wikipedia : List ℕ
wikipedia = 87 ∷ 105 ∷ 107 ∷ 105 ∷ 112 ∷ 101 ∷ 100 ∷ 105 ∷ 97 ∷ []

-- "Wikipedia" has the checksum 0x11E60398.
adler32-wikipedia : adler32 (2 ^ 64) wikipedia 9 ≡ some 0x11E60398
unfolding adler32 chunks chunk unrolled remainder add_bytes
adler32-wikipedia = refl

adler32-checksum_example :
    adler32 (2 ^ 32) wikipedia 8
    ≡ some (checksum (87 ∷ 105 ∷ 107 ∷ 105 ∷ 112 ∷ 101 ∷ 100 ∷ 105 ∷ []))
adler32-checksum_example =
    adler32-checksum (2 ^ 32) (omega arith) wikipedia 8 (omega arith) (omega arith) (omega arith)
