-- ===== src/Crypto/Xtea/Laws.antt =====
-- Whole buffers: decryption undoes encryption, and the other way round.
use mathlib.Core.Path.{ap₂}
use otservpp.Base.{
  ℕ, zero, suc, ◌-◌, ◌*◌, ◌/◌, ◌%◌, ◌≡◌, refl, sym, subst, ap, ◌∙◌, List, [], ◌∷◌, some, arith,
  length, All, IsBytes, ◌++◌, take-length-append, drop-length-append,
}
use otservpp.Crypto.Xtea.{
  Key, Block, blocks, encrypt_block, decrypt_block, encrypt, decrypt, encrypt_bytes, decrypt_bytes,
}
use otservpp.Crypto.Xtea.Words.{
  IsWord, words, bytes, words-bytes, bytes-words, length-words, length-bytes, words-IsWord,
  bytes-IsBytes,
}
use otservpp.Crypto.Xtea.Round.{
  IsBlock, decrypt_block-encrypt_block, encrypt_block-decrypt_block, encrypt_block-IsBlock,
  decrypt_block-IsBlock,
}

module _ (f g : ℕ → ℕ → Block) (keep : (v0 v1 : ℕ) → IsWord v0 → IsWord v1 → IsBlock (f v0 v1))
    (undo : (v0 v1 : ℕ)
      → IsWord v0
      → IsWord v1
      → ((g (f v0 v1).v0 (f v0 v1).v1).v0 ≡ v0) × ((g (f v0 v1).v0 (f v0 v1).v1).v1 ≡ v1)) where
  -- What one pass does to an even number of words, the other undoes.
  blocks_undo :
      (n : ℕ) (ws : List ℕ)
      → length ws ≡ n
      → n % 2 ≡ 0
      → All IsWord ws
      → (out : List ℕ) × (blocks f n ws ≡ some out)
        × (length out ≡ n)
        × All IsWord out
        × (blocks g n out ≡ some ws)
  unfolding blocks
  blocks_undo zero [] e even h = ([], refl, refl, tt, refl)
  blocks_undo zero (v ∷ ws) e even h = absurd (omega arith)
  blocks_undo (suc n) [] e even h = absurd (omega arith)
  blocks_undo (suc n) (v ∷ []) e even h = absurd (omega arith)
  blocks_undo (suc n) (v0 ∷ v1 ∷ ws) e even h =
      let (out, forth, same, bounds, back) =
        blocks_undo (n - 1) ws (omega arith) (omega arith) h.1.1 in
      let b = keep v0 v1 h.0 h.1.0 in
      let u = undo v0 v1 h.0 h.1.0 in
      (
        (f v0 v1).v0 ∷ (f v0 v1).v1 ∷ out,
        rw (forth, blocks),
        omega arith,
        (b.0, (b.1, bounds)),
        rw (back, blocks) (ap some (ap₂ ◌∷◌ u.0 (ap₂ ◌∷◌ u.1 refl))),
      )

module _ (key : Key) where
  -- Any buffer of an even number of words is encrypted, and decryption with the same key gives it
  -- back.
  pub decrypt-encrypt :
      (ws : List ℕ)
      → length ws % 2 ≡ 0
      → All IsWord ws
      → (out : List ℕ) × (encrypt key ws (length ws * 4) ≡ some out)
        × (length out ≡ length ws)
        × All IsWord out
        × (decrypt key out (length out * 4) ≡ some ws)
  unfolding encrypt decrypt
  decrypt-encrypt ws even h =
      let (out, forth, same, bounds, back) =
        blocks_undo (encrypt_block key) (decrypt_block key) (encrypt_block-IsBlock key)
          (λ v0 v1 h0 h1.
            let e = decrypt_block-encrypt_block key v0 v1 h0 h1 in
            (ap (λ b. b.v0) e, ap (λ b. b.v1) e))
          (length ws) ws refl even h in
      let e : length ws * 4 / 4 ≡ length ws = omega arith in
      (out, rw e forth, same, bounds, rw (same, e) back)

  -- Any buffer of an even number of words is decrypted, and encryption with the same key gives it
  -- back: no two buffers have the same encryption.
  pub encrypt-decrypt :
      (ws : List ℕ)
      → length ws % 2 ≡ 0
      → All IsWord ws
      → (out : List ℕ) × (decrypt key ws (length ws * 4) ≡ some out)
        × (length out ≡ length ws)
        × All IsWord out
        × (encrypt key out (length out * 4) ≡ some ws)
  unfolding encrypt decrypt
  encrypt-decrypt ws even h =
      let (out, forth, same, bounds, back) =
        blocks_undo (decrypt_block key) (encrypt_block key) (decrypt_block-IsBlock key)
          (λ v0 v1 h0 h1.
            let e = encrypt_block-decrypt_block key v0 v1 h0 h1 in
            (ap (λ b. b.v0) e, ap (λ b. b.v1) e))
          (length ws) ws refl even h in
      let e : length ws * 4 / 4 ≡ length ws = omega arith in
      (out, rw e forth, same, bounds, rw (same, e) back)

  encrypt_bytes_prefix :
      (bs rest : List ℕ) {ws : List ℕ}
      → encrypt key (words bs) (length bs) ≡ some ws
      → encrypt_bytes key (bs ++ rest) (length bs) ≡ some (bytes ws ++ rest)
  unfolding encrypt_bytes
  encrypt_bytes_prefix bs rest e =
      rw (take-length-append bs rest, e, drop-length-append bs rest, encrypt_bytes)

  decrypt_bytes_prefix :
      (bs rest : List ℕ) {ws : List ℕ}
      → decrypt key (words bs) (length bs) ≡ some ws
      → decrypt_bytes key (bs ++ rest) (length bs) ≡ some (bytes ws ++ rest)
  unfolding decrypt_bytes
  decrypt_bytes_prefix bs rest e =
      rw (take-length-append bs rest, e, drop-length-append bs rest, decrypt_bytes)

  -- Bytes that fill whole frames of 8 are encrypted in place, whatever stands behind them stays,
  -- and decryption with the same key gives them back.
  pub decrypt_bytes-encrypt_bytes :
      (bs : List ℕ)
      → IsBytes bs
      → length bs % 8 ≡ 0
      → (out : List ℕ) × (length out ≡ length bs)
        × IsBytes out
        × ((rest : List ℕ) → encrypt_bytes key (bs ++ rest) (length bs) ≡ some (out ++ rest))
        × ((rest : List ℕ) → decrypt_bytes key (out ++ rest) (length out) ≡ some (bs ++ rest))
  decrypt_bytes-encrypt_bytes bs h whole =
      let size : length (words bs) * 4 ≡ length bs = length-words bs (omega arith) in
      let (ws, forth, same, bounds, back) =
        decrypt-encrypt (words bs) (omega arith) (words-IsWord bs h) in
      let size' : length ws * 4 ≡ length (bytes ws) = omega (arith, length-bytes ws) in
      let forth' : encrypt key (words bs) (length bs) ≡ some ws =
        subst (λ n. encrypt key (words bs) n ≡ some ws) size forth in
      let back' : decrypt key (words (bytes ws)) (length (bytes ws)) ≡ some (words bs) =
        subst (λ n. decrypt key (words (bytes ws)) n ≡ some (words bs)) size'
          (subst (λ v. decrypt key v (length ws * 4) ≡ some (words bs))
            (sym (words-bytes ws bounds)) back) in
      (
        bytes ws,
        omega arith,
        bytes-IsBytes ws,
        λ rest. encrypt_bytes_prefix bs rest forth',
        λ rest.
            decrypt_bytes_prefix (bytes ws) rest back'
            ∙ ap (λ v. some (v ++ rest)) (bytes-words bs h (omega arith)),
      )
