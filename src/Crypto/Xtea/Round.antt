-- ===== src/Crypto/Xtea/Round.antt =====
-- One round undoes the other, and so do 32.
use otservpp.Base.{ℕ, zero, suc, ◌+◌, ◌*◌, ◌/◌, ◌^◌, ◌≡◌, refl, sym, ap, ◌∙◌, arith, u32, bit_and}
use otservpp.Crypto.Xtea.{
  Key, Block, delta, sub32, feed, encrypt_round, decrypt_round, rounds, encrypt_block,
  decrypt_block,
}
use otservpp.Crypto.Xtea.Words.{IsWord}

abbrev pub IsBlock : Block → Type 0
IsBlock b = IsWord b.v0 × IsWord b.v1 × IsWord b.sum

-- Running `n + 1` rounds is running one after `n`.
rounds-suc : (f : Block → Block) (n : ℕ) (b : Block) → rounds f (suc n) b ≡ f (rounds f n b)
unfolding rounds
rounds-suc f zero b = refl
rounds-suc f (suc n) b = rounds-suc f n (f b)

module _ (f g : Block → Block) (keep : (b : Block) → IsBlock b → IsBlock (f b)) where
  rounds-IsBlock : (n : ℕ) (b : Block) → IsBlock b → IsBlock (rounds f n b)
  unfolding rounds
  rounds-IsBlock zero b h = h
  rounds-IsBlock (suc n) b h = rounds-IsBlock n (f b) (keep b h)

  undo_rounds :
      ((b : Block) → IsBlock b → g (f b) ≡ b)
      → (n : ℕ) (b : Block) → IsBlock b
      → rounds g n (rounds f n b) ≡ b
  unfolding rounds
  undo_rounds undo zero b h = refl
  undo_rounds undo (suc n) b h =
      ap (rounds g n) (ap g (rounds-suc f n b) ∙ undo (rounds f n b) (rounds-IsBlock n b h))
      ∙ undo_rounds undo n b h

-- The next pass starts from the two words, and a sum of its own.
restart : (b : Block) (s : ℕ) → b.sum ≡ s → record { v0 = b.v0; v1 = b.v1; sum = s } ≡ b
restart b s e = ap (λ t. record { v0 = b.v0; v1 = b.v1; sum = t }) (sym e)

add-sub : (a x : ℕ) → IsWord a → sub32 (u32 (a + x)) x ≡ a
add-sub a x h = omega arith

sub-add : (a x : ℕ) → IsWord a → u32 (sub32 a x + x) ≡ a
sub-add a x h = omega arith

module _ (key : Key) where
  encrypt_round-IsBlock : (b : Block) → IsBlock b → IsBlock (encrypt_round key b)
  unfolding encrypt_round
  encrypt_round-IsBlock b h = omega arith

  decrypt_round-IsBlock : (b : Block) → IsBlock b → IsBlock (decrypt_round key b)
  unfolding decrypt_round
  decrypt_round-IsBlock b h = omega arith

  decrypt_round-encrypt_round :
      (b : Block) → IsBlock b → decrypt_round key (encrypt_round key b) ≡ b
  unfolding decrypt_round encrypt_round
  decrypt_round-encrypt_round b h =
      let v0 : ℕ = u32 (b.v0 + feed key b.v1 b.sum (bit_and b.sum 3)) in
      let sum : ℕ = u32 (b.sum + delta) in
      rw (
        add-sub b.v1 (feed key v0 sum (bit_and (sum / 2 ^ 11) 3)) h.1,
        add-sub b.sum delta h.2,
        add-sub b.v0 (feed key b.v1 b.sum (bit_and b.sum 3)) h.0,
      )

  encrypt_round-decrypt_round :
      (b : Block) → IsBlock b → encrypt_round key (decrypt_round key b) ≡ b
  unfolding decrypt_round encrypt_round
  encrypt_round-decrypt_round b h =
      let v1 : ℕ = sub32 b.v1 (feed key b.v0 b.sum (bit_and (b.sum / 2 ^ 11) 3)) in
      let sum : ℕ = sub32 b.sum delta in
      rw (
        sub-add b.v0 (feed key v1 sum (bit_and sum 3)) h.0,
        sub-add b.sum delta h.2,
        sub-add b.v1 (feed key b.v0 b.sum (bit_and (b.sum / 2 ^ 11) 3)) h.1,
      )

  encrypt-sum :
      (n : ℕ) (b : Block)
      → IsBlock b
      → (rounds (encrypt_round key) n b).sum ≡ u32 (b.sum + n * delta)
  unfolding rounds encrypt_round
  encrypt-sum zero b h = omega arith
  encrypt-sum (suc n) b h =
      encrypt-sum n (encrypt_round key b) (encrypt_round-IsBlock b h) ∙ omega arith

  decrypt-sum :
      (n : ℕ) (b : Block)
      → IsBlock b
      → u32 ((rounds (decrypt_round key) n b).sum + n * delta) ≡ b.sum
  unfolding rounds
  decrypt-sum zero b h = omega arith
  decrypt-sum (suc n) b h =
      let ih = decrypt-sum n (decrypt_round key b) (decrypt_round-IsBlock b h) in
      let e : (decrypt_round key b).sum ≡ sub32 b.sum delta = unfold decrypt_round in refl in
      omega (arith, ih, e)

  -- 32 rounds one way end at the sum where the 32 rounds the other way begin.
  pub decrypt_block-encrypt_block :
      (v0 v1 : ℕ)
      → IsWord v0
      → IsWord v1
      → let e = encrypt_block key v0 v1 in
        decrypt_block key e.v0 e.v1 ≡ record { v0 = v0; v1 = v1; sum = 0 }
  unfolding encrypt_block decrypt_block
  decrypt_block-encrypt_block v0 v1 h0 h1 =
      let b : Block = record { v0 = v0; v1 = v1; sum = 0 } in
      let h : IsBlock b = omega arith in
      ap (rounds (decrypt_round key) 32)
        (restart (rounds (encrypt_round key) 32 b) _ (encrypt-sum 32 b h))
      ∙ undo_rounds (encrypt_round key) (decrypt_round key) encrypt_round-IsBlock
          decrypt_round-encrypt_round 32 b h

  pub encrypt_block-decrypt_block :
      (v0 v1 : ℕ)
      → IsWord v0
      → IsWord v1
      → let d = decrypt_block key v0 v1 in
        encrypt_block key d.v0 d.v1 ≡ record { v0 = v0; v1 = v1; sum = u32 (delta * 2 ^ 5) }
  unfolding encrypt_block decrypt_block
  encrypt_block-decrypt_block v0 v1 h0 h1 =
      let b : Block = record { v0 = v0; v1 = v1; sum = u32 (delta * 2 ^ 5) } in
      let h : IsBlock b = omega arith in
      let bounds =
        rounds-IsBlock (decrypt_round key) (encrypt_round key) decrypt_round-IsBlock 32 b h in
      ap (rounds (encrypt_round key) 32)
        (restart (rounds (decrypt_round key) 32 b) 0 (omega (arith, decrypt-sum 32 b h, bounds)))
      ∙ undo_rounds (decrypt_round key) (encrypt_round key) decrypt_round-IsBlock
          encrypt_round-decrypt_round 32 b h

  pub encrypt_block-IsBlock :
      (v0 v1 : ℕ) → IsWord v0 → IsWord v1 → IsBlock (encrypt_block key v0 v1)
  unfolding encrypt_block
  encrypt_block-IsBlock v0 v1 h0 h1 =
      rounds-IsBlock (encrypt_round key) (decrypt_round key) encrypt_round-IsBlock 32
        (record { v0 = v0; v1 = v1; sum = 0 }) (omega arith)

  pub decrypt_block-IsBlock :
      (v0 v1 : ℕ) → IsWord v0 → IsWord v1 → IsBlock (decrypt_block key v0 v1)
  unfolding decrypt_block
  decrypt_block-IsBlock v0 v1 h0 h1 =
      rounds-IsBlock (decrypt_round key) (encrypt_round key) decrypt_round-IsBlock 32
        (record { v0 = v0; v1 = v1; sum = u32 (delta * 2 ^ 5) }) (omega arith)
