-- ===== src/Message/Packet.antt =====
-- A packet from one end to the other: what StandardOutMessage builds, in the layout that
-- message/standardoutmessage.h gives, and what StandardInMessage reads from it.
use otservpp.Base.{
  ℕ, ◌+◌, ◌-◌, ◌%◌, ◌^◌, ◌≤◌, ◌<◌, ◌≡◌, refl, sym, subst, ap, ◌∙◌, List, [], ◌++◌, Option, some,
  arith, u16, length, take, drop, le_bytes, IsBytes, length-append, append_assoc, append-nil,
  replicate, length-replicate, take_all, take-length-append, leb, ◌==◌, ==_iff, true, All-append,
  IsByte, le_bytes-IsBytes,
}
use otservpp.Base.Options
use otservpp.Crypto.Adler.{adler32}
use otservpp.Crypto.Adler.Reference.{checksum}
use otservpp.Crypto.Adler.Laws.{adler32-checksum, checksum-lt}
use otservpp.Crypto.Xtea.{Key, decrypt_bytes}
use otservpp.Message.In.{InMessage, create, Reader, ok, ◌>>=◌, ◌>>◌}
use otservpp.Message.In.Laws.{IsWellFormed, remaining, advance, get_number-remaining}
use otservpp.Message.In.Standard.{parse_header, do_checksum, xtea_decrypt}
use otservpp.Message.In.Standard.Laws.{
  parse_header_lem, do_checksum_lem, xtea_decrypt_lem, remaining-overwritten, overwritten,
}
use otservpp.Message.Out.{OutMessage, get_buffer, get_size, add_prefix}
use otservpp.Message.Out.Body.{Holds, get_size-Holds, get_buffer-Holds, add_prefix-Holds}
use otservpp.Message.Out.Standard.{add_header, xtea_encrypt}
use otservpp.Message.Out.Standard.Laws.{add_header-Holds, xtea_encrypt-Holds, padded, length-padded}

-- RawPacketLen(2) + Adler32(4) + the encrypted part, which begins with DecryptedPacketLen(2).
pub package_as_documented : ℕ → Key → OutMessage → Option OutMessage
package_as_documented fast key m = Options.◌>>=◌ (add_header m) λ m1.
    Options.◌>>=◌ (xtea_encrypt key m1) λ m2. Options.◌>>=◌ (get_size m2) λ size.
      Options.◌>>=◌ (adler32 fast (get_buffer m2) size) λ sum.
        Options.◌>>=◌ (add_prefix 4 sum m2)
          λ m3. Options.◌>>=◌ (get_size m3) λ size'. add_prefix 2 size' m3

-- What Connection and StandardProtocol do with a message before the protocol sees it.
unfoldable pub receive : ℕ → Key → Reader (Unit {0})
receive fast key = do _ ← parse_header; do_checksum fast; xtea_decrypt key

module _ (fast : ℕ) (wide : 2 ^ 32 ≤ fast) (key : Key) where
  packaged :
      {m : OutMessage} {body : List ℕ}
      → Holds m 8 body
      → IsBytes body
      → (w : OutMessage) × (cipher : List ℕ) × (package_as_documented fast key m ≡ some w)
        × (get_buffer w
            ≡ le_bytes 2 (4 + length cipher) ++ (le_bytes 4 (checksum cipher) ++ cipher))
        × (length cipher ≡ length (padded (le_bytes 2 (u16 (length body)) ++ body)))
        × IsBytes cipher
        × ((rest : List ℕ)
            → decrypt_bytes key (cipher ++ rest) (length cipher)
              ≡ some (padded (le_bytes 2 (u16 (length body)) ++ body) ++ rest))
  unfolding package_as_documented
  packaged {m} {body} h bytes =
      let (m1, e1, h1) = add_header-Holds h (omega arith) in
      let (m2, cipher, e2, h2, size, cipher_bytes, back) = xtea_encrypt-Holds h1 key (
        All-append IsByte (le_bytes 2 (u16 (length body))) body
          (le_bytes-IsBytes 2 (u16 (length body))) bytes) in
      let pos : 0 < length cipher =
        omega (arith, size, length-padded (le_bytes 2 (u16 (length body)) ++ body)) in
      let sum : adler32 fast cipher (length cipher) ≡ some (checksum cipher) =
        adler32-checksum fast wide cipher (length cipher) pos (omega arith) cipher_bytes
        ∙ ap (λ xs. some (checksum xs)) (take_all (length cipher) cipher (omega arith)) in
      let (m3, e3, h3) = add_prefix-Holds h2 4 (checksum cipher) (omega arith) in
      let (w, e4, h4) =
        add_prefix-Holds h3 2 (length (le_bytes 4 (checksum cipher) ++ cipher)) (omega arith) in
      (
        w,
        cipher,
        rw (e1, e2, get_size-Holds h2, get_buffer-Holds h2, sum, e3, get_size-Holds h3, e4),
        get_buffer-Holds h4
            ∙ ap (λ n. le_bytes 2 n ++ (le_bytes 4 (checksum cipher) ++ cipher)) (omega arith),
        size,
        cipher_bytes,
        back,
      )

  -- The steps of `receive` on a packet of that layout.
  unpackaged :
      (cipher body rest : List ℕ) (pad : List ℕ)
      → IsBytes cipher
      → length cipher % 8 ≡ 0
      → length cipher ≡ 2 + length body + length pad
      → length cipher ≤ 15328
      → let buffer =
          le_bytes 2 (4 + length cipher) ++ ((le_bytes 4 (checksum cipher) ++ cipher) ++ rest) in
        length buffer < 2 ^ 31
        → decrypt_bytes key cipher (length cipher)
          ≡ some (le_bytes 2 (length body) ++ (body ++ pad))
        → (m : InMessage) × (receive fast key (create 2 15340 buffer) ≡ ok tt m)
          × (remaining m ≡ body)
  unfolding receive create
  unpackaged cipher body rest pad bytes whole size small fits plain =
      let C : ℕ = checksum cipher in
      let N : ℕ = 4 + length cipher in
      let tail : List ℕ = (le_bytes 4 C ++ cipher) ++ rest in
      let buffer : List ℕ = le_bytes 2 N ++ tail in
      let m0 : InMessage = record { buffer = buffer; pos = 0; size = 2 } in
      let m1 : InMessage = record { buffer = buffer; pos = 2; size = 2 + N } in
      let m2 : InMessage = advance 4 m1 in
      let lengths = length-append (le_bytes 4 C ++ cipher) rest in
      let parses : parse_header m0 ≡ ok (record { start = 2; count = N }) m1 =
        parse_header_lem m0 N tail refl refl refl fits (omega arith) ∙ ground arith in
      let v1 : IsWellFormed m1 = record {
        read = omega arith;
        fits = omega (arith, lengths);
        small = fits;
      } in
      let count : m1.size - m1.pos ≡ length (le_bytes 4 C ++ cipher) = omega arith in
      let next1 : remaining m1 ≡ le_bytes 4 C ++ cipher =
        ap (λ k. take k tail) count ∙ take-length-append (le_bytes 4 C ++ cipher) rest in
      let bound : C < 2 ^ 32 = checksum-lt cipher in
      let (_, v2, next2) = get_number-remaining m1 v1 4 C cipher bound next1 in
      let same : (C == C) ≡ true = (==_iff C C).1 refl in
      let checks : do_checksum fast m1 ≡ ok tt m2 =
        do_checksum_lem fast m1 C cipher wide v1 bound bytes (omega arith) next1 ∙ rw same in
      let L : ℕ = length body in
      let decrypted : List ℕ = le_bytes 2 L ++ (body ++ pad) in
      let dec : decrypt_bytes key (remaining m2) (length (remaining m2)) ≡ some decrypted =
        subst (λ xs. decrypt_bytes key xs (length xs) ≡ some decrypted) (sym next2) plain in
      let same_size : length decrypted ≡ length (remaining m2) =
        omega (arith, length-append body pad, ap (λ xs. length xs) next2, size) in
      let fits2 : leb (m2.pos + 2 + L) 15340 ≡ true = ground arith in
      let m3 : InMessage = record (overwritten m2 decrypted) {
        pos = m2.pos + 2;
        size = m2.pos + 2 + L;
      } in
      let decrypts : xtea_decrypt key m2 ≡ ok tt m3 =
        xtea_decrypt_lem key m2 L (body ++ pad) v2 (omega (arith, ap (λ xs. length xs) next2)) dec
          (omega arith) same_size
        ∙ rw fits2 in
      let left : take L ((body ++ pad) ++ drop m2.size m2.buffer) ≡ body =
        rw append_assoc (take-length-append body (pad ++ drop m2.size m2.buffer)) in
      (
        m3,
        rw (parses, ◌>>=◌, ◌>>◌, checks, decrypts),
        remaining-overwritten m2 L (body ++ pad) v2 same_size ∙ left,
      )

  -- With accumulators of 32 bits or more, a message of at most 15325 bytes that is packaged in the
  -- documented layout is accepted by a receiver with the same key, whose buffer has its 15342 bytes,
  -- whatever stands behind the packet in it, and its body is then what is left to be read.
  pub receive-package :
      (m : OutMessage) (body : List ℕ)
      → Holds m 8 body
      → IsBytes body
      → length body ≤ 15325
      → (w : OutMessage) × (package_as_documented fast key m ≡ some w)
        × ((rest : List ℕ)
            → length (get_buffer w ++ rest) ≡ 15342
            → (m' : InMessage) × (receive fast key (create 2 15340 (get_buffer w ++ rest))
                ≡ ok tt m')
              × (remaining m' ≡ body))
  receive-package m body h bytes short =
      let (w, cipher, e, layout, size, cipher_bytes, back) = packaged h bytes in
      let L : ℕ = length body in
      let e16 : u16 L ≡ L = omega arith in
      let total = length-padded (le_bytes 2 (u16 L) ++ body) in
      let pad : List ℕ = replicate (8 - length (le_bytes 2 (u16 L) ++ body) % 8) 0x33 in
      let pad_size = length-replicate {A = ℕ} (8 - length (le_bytes 2 (u16 L) ++ body) % 8) 0x33 in
      let decrypts : decrypt_bytes key cipher (length cipher)
          ≡ some (le_bytes 2 L ++ (body ++ pad)) =
        subst
          (λ xs. decrypt_bytes key xs (length cipher) ≡ some (padded (le_bytes 2 (u16 L) ++ body)))
          (append-nil cipher) (back [] ∙ ap some (append-nil (padded (le_bytes 2 (u16 L) ++ body))))
        ∙ ap (λ n. some (le_bytes 2 n ++ (body ++ pad))) e16 in
      (
        w,
        e,
        λ rest full.
            let whole : get_buffer w ++ rest
                ≡ le_bytes 2 (4 + length cipher)
                  ++ ((le_bytes 4 (checksum cipher) ++ cipher) ++ rest) =
              ap (λ xs. xs ++ rest) layout in
            subst
              (λ b.
                (m' : InMessage) × (receive fast key (create 2 15340 b) ≡ ok tt m')
                × (remaining m' ≡ body))
              (sym whole)
              (unpackaged cipher body rest pad cipher_bytes (omega (arith, size, total))
                (omega (arith, size, total, pad_size)) (omega (arith, size, total))
                (omega (arith, ap length whole)) decrypts),
      )
