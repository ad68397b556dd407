-- ===== src/Message/Received.antt =====
-- The reads of Connection::parseIncomingMessage in protocol/connection.hpp into the one incoming message
-- of a connection, which is used for all that its peer sends.
use otservpp.Base.{
  ℕ, ◌+◌, ◌^◌, ◌≤◌, ◌<◌, ◌≡◌, refl, sym, ap, ◌∙◌, subst, List, [], ◌∷◌, ◌++◌, Option, none, some,
  leb, arith, length, take, drop, length-append, length-drop, length-take, le_bytes, Bool-cases,
  inl, inr, All,
}
use otservpp.Message.In.{
  InMessage, Reader, ok, packet_exception, fault, Region, get_raw_chunk, create,
}
use otservpp.Message.In.Laws.{IsWellFormed, advance, get_raw_chunk_lem}
use otservpp.Message.In.Standard.{parse_header}
use otservpp.Message.In.Standard.Laws.{parse_header_lem}
use otservpp.Message.Faults.{summary, parse_header_stale}

-- What asio reads into a buffer of the message that begins there.
unfoldable pub read_into : ℕ → List ℕ → InMessage → InMessage
read_into start bytes m = record m {
  buffer = take start m.buffer ++ (bytes ++ drop (start + length bytes) m.buffer);
}

-- The two bytes of a header are read into `getHeaderBuffer()`, and the header is parsed.
unfoldable pub next_header : List ℕ → Reader Region
next_header bytes m = parse_header (read_into 0 bytes m)

-- The body is then read into the buffer that the header gave.
unfoldable pub next_body : Region → List ℕ → InMessage → InMessage
next_body region bytes m = read_into region.start bytes m

-- What a handler reads of the message: so many bytes, then so many, and so on.
abbrev pub reads_of : List ℕ → InMessage → Option InMessage
reads_of [] m = some m
reads_of (n ∷ ns) m = elim (get_raw_chunk n m) [
  | ok bytes m1 ↦ reads_of ns m1
  | packet_exception m1 ↦ none
  | fault ↦ none
]

length-read_into :
    (start : ℕ) (bytes : List ℕ) (m : InMessage)
    → start + length bytes ≤ length m.buffer
    → length (read_into start bytes m).buffer ≡ length m.buffer
unfolding read_into
length-read_into start bytes m h = omega (
  arith,
  length-append (take start m.buffer) (bytes ++ drop (start + length bytes) m.buffer),
  length-append bytes (drop (start + length bytes) m.buffer),
  length-take start m.buffer,
  length-drop (start + length bytes) m.buffer,
)

-- The position is behind the header, and where the laws need it.
record IsBehind (m : InMessage) : Type 0 where
  behind : 2 ≤ m.pos
  well : IsWellFormed m

reads_of-IsBehind :
    (ns : List ℕ) (m m' : InMessage)
    → All (λ n. n < 2 ^ 31) ns
    → IsBehind m
    → reads_of ns m ≡ some m'
    → IsBehind m'
reads_of-IsBehind [] m m' small h e = subst IsBehind (cc) h
reads_of-IsBehind (n ∷ ns) m m' small h e = elim (Bool-cases (leb (m.pos + n) m.size)) [
  | inl within ↦
      reads_of-IsBehind ns (advance n m) m' small.1
        (record {
          behind = omega (arith, h.behind);
          well = record { read = ground (arith, within); fits = h.well.fits; small = h.well.small };
        })
        (ground (arith, get_raw_chunk_lem m h.well n small.0))
  | inr over ↦ absurd (ground (arith, get_raw_chunk_lem m h.well n small.0))
]

next_header_stale :
    (h0 h1 g0 g1 : ℕ) (m : InMessage)
    → IsBehind m
    → summary (next_header (h0 ∷ h1 ∷ []) m) ≡ summary (next_header (g0 ∷ g1 ∷ []) m)
unfolding next_header read_into
next_header_stale h0 h1 g0 g1 m h =
    let size = length-read_into 0 (h0 ∷ h1 ∷ []) m (omega (arith, h.behind, h.well)) in
    parse_header_stale h0 h1 g0 g1 (drop 2 m.buffer) m.pos m.size h.behind (record {
      read = h.well.read;
      fits = omega (arith, h.well, size);
      small = omega (arith, h.well, size);
    })

module _ (garbage : List ℕ) (n : ℕ) (h : length garbage ≡ 15342) (small : n < 2 ^ 16) where
  -- The new message with the bytes of its first header, and then with its size.
  abbrev received : InMessage
  received = read_into 0 (le_bytes 2 n) (create 2 15340 garbage)

  abbrev sized : InMessage
  sized = record { buffer = received.buffer; pos = 2; size = 2 + n }

  received_size : length received.buffer ≡ 15342
  unfolding create
  received_size =
      omega
        (arith, h, length-read_into 0 (le_bytes 2 n) (create 2 15340 garbage) (omega (arith, h)))

  first_header_lem :
      (region : Region) (m : InMessage)
      → next_header (le_bytes 2 n) (create 2 15340 garbage) ≡ ok region m
      → (n ≤ 15338) × (region ≡ record { start = 2; count = n }) × (m ≡ sized)
  unfolding next_header read_into create
  first_header_lem region m e =
      let parses =
        parse_header_lem received n (drop 2 garbage) refl refl refl (omega (arith, received_size))
          small in
      ground (arith, e, parses)

  body-IsBehind :
      (bytes : List ℕ)
      → length bytes ≡ n
      → n ≤ 15338
      → IsBehind (next_body (record { start = 2; count = n }) bytes sized)
  unfolding next_body read_into
  body-IsBehind bytes size within =
      let total = length-read_into 2 bytes sized (omega (arith, received_size)) in
      record {
        behind = omega arith;
        well = record {
          read = omega arith;
          fits = omega (arith, total, received_size, within);
          small = omega (arith, total, received_size);
        };
      }

  -- A new message, whose array has 15342 bytes, takes a header that says n < 2^16 and then as many bytes as
  -- that header asks for. If its handler reads less than 2^31 bytes at a time, and all of them are there, the
  -- two bytes that arrive as the next header make no difference to whether it is taken, to the buffer for
  -- the body, and to the position and size.
  pub second_header_stale :
      (region : Region) (bytes : List ℕ) (reads : List ℕ) (m m' : InMessage) (h0 h1 g0 g1 : ℕ)
      → next_header (le_bytes 2 n) (create 2 15340 garbage) ≡ ok region m
      → length bytes ≡ region.count
      → All (λ k. k < 2 ^ 31) reads
      → reads_of reads (next_body region bytes m) ≡ some m'
      → summary (next_header (h0 ∷ h1 ∷ []) m') ≡ summary (next_header (g0 ∷ g1 ∷ []) m')
  second_header_stale region bytes reads m m' h0 h1 g0 g1 e size few done =
      let (within, e1, e2) = first_header_lem region m e in
      next_header_stale h0 h1 g0 g1 m' (
        reads_of-IsBehind reads (next_body region bytes m) m' few
          (subst (λ r. IsBehind (next_body r bytes m)) (sym e1)
            (subst (λ x. IsBehind (next_body (record { start = 2; count = n }) bytes x)) (sym e2)
              (body-IsBehind bytes (size ∙ ap (λ r. r.count) e1) within)))
          done)
