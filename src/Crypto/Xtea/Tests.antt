-- ===== src/Crypto/Xtea/Tests.antt =====
-- Runs of Xtea and instances of its laws.
use otservpp.Base.{ℕ, ◌*◌, ◌≡◌, refl, List, [], ◌∷◌, some, arith, length, All}
use otservpp.Crypto.Xtea.{
  Key, encrypt, decrypt, blocks, encrypt_block, decrypt_block, rounds, encrypt_round, decrypt_round,
  feed,
}
use otservpp.Crypto.Xtea.Words.{IsWord}
use otservpp.Crypto.Xtea.Laws.{decrypt-encrypt}

abbrev key : Key
key = record { k0 = 0x00010203; k1 = 0x04050607; k2 = 0x08090a0b; k3 = 0x0c0d0e0f }

abbrev clear : List ℕ
clear = 0x41424344 ∷ 0x45464748 ∷ []

-- The published test vector.
encrypt_vector : encrypt key clear 8 ≡ some (0x497df3d0 ∷ 0x72612cb5 ∷ [])
unfolding encrypt blocks encrypt_block rounds encrypt_round feed
encrypt_vector = refl

decrypt_vector : decrypt key (0x497df3d0 ∷ 0x72612cb5 ∷ []) 8 ≡ some clear
unfolding decrypt blocks decrypt_block rounds decrypt_round feed
decrypt_vector = refl

decrypt-encrypt_example :
    (out : List ℕ) × (encrypt key clear 8 ≡ some out)
    × (length out ≡ 2)
    × All IsWord out
    × (decrypt key out (length out * 4) ≡ some clear)
decrypt-encrypt_example = decrypt-encrypt key clear refl (omega arith)
