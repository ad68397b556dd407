-- ===== src/Message/Faults.antt =====
-- Where the message classes do not do what they are for: the last prefix of a packet is too wide,
-- and the position of an incoming message is never set back.
use otservpp.Base.{
  ℕ, zero, suc, ◌+◌, ◌≤◌, ◌≡◌, List, ◌∷◌, Option, some, none, arith, leb, ltb, ◌||◌, u32, IsBytes,
  u16, le_bytes, length, if◌then◌else◌, All-append, IsByte, le_bytes-IsBytes, Bool-cases, inl, inr,
  le_value, take, drop,
}
use otservpp.Base.Options.{◌>>=◌}
use otservpp.Crypto.Xtea.{Key}
use otservpp.Message.In
use otservpp.Message.In.{
  InMessage, Outcome, ok, packet_exception, fault, Region, get_number, get_raw_chunk,
  set_remaining_size, get_body_buffer,
}
use otservpp.Message.In.Laws.{IsWellFormed, advance, get_raw_chunk_lem}
use otservpp.Message.In.Standard.{parse_header}
use otservpp.Message.Out.{OutMessage}
use otservpp.Message.Out.Body.{Holds}
use otservpp.Message.Out.Standard.{add_header, xtea_encrypt, encode}
use otservpp.Message.Out.Standard.Laws.{add_header-Holds, xtea_encrypt-Holds, encode-Holds_full}

-- Whatever its body, a message that got its header and was encrypted cannot be encoded: where
-- `std::size_t` has 4 bytes or more, the size that `encode` puts last is written before the start of
-- the buffer.
pub encode_out_of_bounds :
    (fast size_t_bytes : ℕ) (key : Key) (m : OutMessage) (body : List ℕ)
    → 4 ≤ size_t_bytes
    → Holds m 8 body
    → IsBytes body
    → (m' : OutMessage) × ((add_header m >>= xtea_encrypt key) ≡ some m')
      × (encode fast size_t_bytes m' ≡ none)
encode_out_of_bounds fast size_t_bytes key m body wide h bytes =
    let (m1, e1, h1) = add_header-Holds h (omega arith) in
    let (m2, cipher, e2, h2, _, _, _) = xtea_encrypt-Holds h1 key (
      All-append IsByte (le_bytes 2 (u16 (length body))) body
        (le_bytes-IsBytes 2 (u16 (length body))) bytes) in
    (m2, rw (e1, e2), encode-Holds_full h2 fast size_t_bytes (omega arith))

-- How a call went, and the position and size of the message after it.
abbrev pub summary : Outcome Region → Option (Option (Region × ℕ × ℕ))
summary (ok r m) = some (some (r, m.pos, m.size))
summary (packet_exception m) = some none
summary fault = none

get_u16_at :
    (m : InMessage)
    → IsWellFormed m
    → get_number 2 m ≡ (
        if leb (m.pos + 2) m.size
        then ok (le_value (take 2 (drop m.pos m.buffer))) (advance 2 m)
        else packet_exception (advance 2 m))
unfolding get_number
get_u16_at m v = ground (arith, get_raw_chunk_lem m v 2)

-- Where the position of a well-formed message is behind its first two bytes, these make no difference to how a header is
-- parsed.
pub parse_header_stale :
    (h0 h1 g0 g1 : ℕ) (bs : List ℕ) (pos size : ℕ)
    → 2 ≤ pos
    → IsWellFormed (record { buffer = h0 ∷ h1 ∷ bs; pos = pos; size = size })
    → summary (parse_header (record { buffer = h0 ∷ h1 ∷ bs; pos = pos; size = size }))
      ≡ summary (parse_header (record { buffer = g0 ∷ g1 ∷ bs; pos = pos; size = size }))
unfolding parse_header set_remaining_size get_body_buffer
parse_header_stale h0 h1 g0 g1 bs zero size h v = absurd (omega arith)
parse_header_stale h0 h1 g0 g1 bs (suc zero) size h v = absurd (omega arith)
parse_header_stale h0 h1 g0 g1 bs (suc (suc p)) size h v =
    let m : InMessage = record { buffer = h0 ∷ h1 ∷ bs; pos = suc (suc p); size = size } in
    let m' : InMessage = record { buffer = g0 ∷ g1 ∷ bs; pos = suc (suc p); size = size } in
    let v' : IsWellFormed m' = record { read = v.read; fits = v.fits; small = v.small } in
    let n : ℕ = le_value (take 2 (drop p bs)) in
    elim (Bool-cases (leb (suc (suc p) + 2) size)) [
      | inl enough ↦
          rw (get_u16_at m v, get_u16_at m' v', In.◌>>=◌, In.◌>>◌, enough)
            (elim (Bool-cases (ltb n 8 || ltb 15340 n)) [
              | inl bad ↦ rw (bad, In.◌>>=◌, In.◌>>◌)
              | inr good ↦
                  rw (good, In.◌>>=◌, In.◌>>◌)
                    (elim (Bool-cases (leb (u32 (suc (suc p) + 2 + n)) 15340)) [
                      | inl fits ↦
                          rw (fits, In.◌>>=◌, In.◌>>◌)
                            (elim (Bool-cases (ltb 2 (u32 (suc (suc p) + 2 + n)))) [
                              | inl more ↦ rw more
                              | inr none_left ↦ rw none_left
                            ])
                      | inr over ↦ rw (over, In.◌>>=◌, In.◌>>◌)
                    ])
            ])
      | inr short ↦ rw (get_u16_at m v, get_u16_at m' v', In.◌>>=◌, In.◌>>◌, short)
    ]
