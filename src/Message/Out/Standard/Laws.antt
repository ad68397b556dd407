-- ===== src/Message/Out/Standard/Laws.antt =====
-- What StandardOutMessage makes of a body.
use native.Mathlib.Decide.{dec_lt}
use otservpp.Base.{
  Option-cases, inl, inr, ℕ, ◌+◌, ◌-◌, ◌%◌, ◌≤◌, ◌<◌, ◌≡◌, sym, subst, ap, ◌∙◌, List, [], ◌++◌,
  some, none, arith, u16, length, take, drop, replicate, le_bytes, IsByte, IsBytes, All-append,
  All-replicate, length-append, length-replicate, append-nil, length-take, drop-length-append,
}
use otservpp.Crypto.Adler.{adler32}
use otservpp.Crypto.Xtea.{Key, encrypt_bytes, decrypt_bytes}
use otservpp.Crypto.Xtea.Laws.{decrypt_bytes-encrypt_bytes}
use otservpp.Message.Out.{OutMessage, get_buffer, add_padding}
use otservpp.Message.Out.Body.{
  Holds, get_size-Holds, get_buffer-Holds, add_padding-Holds, add_prefix-Holds,
  add_prefix-Holds_full,
}
use otservpp.Message.Out.Standard.{add_header, xtea_encrypt, encode}

-- The body with padding up to whole frames of 8 bytes; a body that fills its frames gets one more.
abbrev pub padded : List ℕ → List ℕ
padded body = body ++ replicate (8 - length body % 8) 0x33

pub length-padded : (body : List ℕ) → length (padded body) ≡ length body + (8 - length body % 8)
length-padded body = omega (
  arith,
  length-append body (replicate (8 - length body % 8) 0x33),
  length-replicate {A = ℕ} (8 - length body % 8) 0x33,
)

module _ {m : OutMessage} {room : ℕ} {body : List ℕ} (h : Holds m room body) where
  -- The header is the size of the body in 16 bits.
  pub add_header-Holds :
      2 ≤ room
      → (m' : OutMessage) × (add_header m ≡ some m')
        × Holds m' (room - 2) (le_bytes 2 (u16 (length body)) ++ body)
  unfolding add_header
  add_header-Holds fits =
      let (m', e, h') = add_prefix-Holds h 2 (u16 (length body)) fits in
      (m', rw (get_size-Holds h, e), h')

  -- Encryption pads the body to whole frames, replaces it by as many bytes, and decryption with the
  -- same key gives the padded body.
  pub xtea_encrypt-Holds :
      (key : Key)
      → IsBytes body
      → (m' : OutMessage) × (cipher : List ℕ) × (xtea_encrypt key m ≡ some m')
        × Holds m' room cipher
        × (length cipher ≡ length (padded body))
        × IsBytes cipher
        × ((rest : List ℕ)
            → decrypt_bytes key (cipher ++ rest) (length cipher) ≡ some (padded body ++ rest))
  unfolding xtea_encrypt
  xtea_encrypt-Holds key bytes =
      let n : ℕ = 8 - length body % 8 in
      let padding : IsBytes (replicate n 0x33) = All-replicate IsByte n 0x33 (omega arith) in
      let h' = add_padding-Holds h n 0x33 in
      let m' : OutMessage = add_padding n 0x33 m in
      let (cipher, size, cipher_bytes, forth, back) =
        decrypt_bytes-encrypt_bytes key (padded body) (All-append IsByte body _ bytes padding)
          (omega (arith, length-padded body)) in
      let start : List ℕ = take m'.prefix_pos m'.buffer in
      let start_size : length start ≡ m'.prefix_pos =
        omega (arith, h'.fits, length-take m'.prefix_pos m'.buffer) in
      let enc : encrypt_bytes key (padded body) (length (padded body)) ≡ some cipher =
        subst (λ b. encrypt_bytes key b (length (padded body)) ≡ some cipher)
          (append-nil (padded body)) (forth [] ∙ ap some (append-nil cipher)) in
      (
        record m' { buffer = start ++ cipher },
        cipher,
        rw (get_size-Holds h, get_size-Holds h', get_buffer-Holds h', enc),
        record {
          pos = h'.pos;
          fits = omega (arith, start_size, length-append start cipher);
          contents =
              ap (λ k. drop k (start ++ cipher)) (sym start_size) ∙ drop-length-append start cipher;
        },
        size,
        cipher_bytes,
        back,
      )

  -- The last two prefixes, the checksum in 4 bytes and the size in a `std::size_t`, need more room
  -- than is left: the second is written before the buffer.
  pub encode-Holds_full :
      (fast size_t_bytes : ℕ) → room < 4 + size_t_bytes → encode fast size_t_bytes m ≡ none
  unfolding encode
  encode-Holds_full fast size_t_bytes full =
      elim (Option-cases (adler32 fast (get_buffer m) (length body))) [
        | inl e ↦ rw (get_size-Holds h, e)
        | inr (sum, e) ↦
            rw (get_size-Holds h, e)
              (elim (dec_lt room 4) [
                | yes short ↦ rw (add_prefix-Holds_full h 4 sum short)
                | no enough ↦
                    let (m', e', h') = add_prefix-Holds h 4 sum (omega arith) in
                    rw (e', get_size-Holds h')
                      (add_prefix-Holds_full h' size_t_bytes (length (le_bytes 4 sum ++ body))
                        (omega arith))
              ])
      ]
