-- ===== src/Message/Tests.antt =====
-- Instances of the laws of the messages.
use otservpp.Base.{
  ℕ, ◌^◌, ◌≡◌, refl, List, [], ◌∷◌, ◌++◌, some, none, arith, length, map, drop, replicate,
  length-replicate,
}
use otservpp.Base.Options.{◌>>=◌}
use otservpp.Crypto.Xtea
use otservpp.Crypto.Xtea.{Key, decrypt_bytes}
use otservpp.Message.In.{
  InMessage, create, ok, get_raw_chunk, get_number, move_pos, set_remaining_size, get_body_buffer,
}
use otservpp.Message.In.Laws.{remaining, get_raw_chunk_lem}
use otservpp.Message.In.Standard.{parse_header, xtea_decrypt}
use otservpp.Message.In.Standard.Laws.{parse_header_lem, xtea_decrypt_lem}
use otservpp.Message.Out
use otservpp.Message.Out.{OutMessage, get_buffer}
use otservpp.Message.Out.Body.{Holds, create-Holds, add-Holds}
use otservpp.Message.Out.Standard.{add_header, xtea_encrypt, encode}
use otservpp.Message.Packet.{package_as_documented, receive, receive-package}
use otservpp.Message.Fields.{
  Field, number, text, kind, Reads, read_fields, read_fields-write_fields,
}
use otservpp.Message.Faults.{encode_out_of_bounds, summary}
use otservpp.Message.Received.{next_header, next_body, read_into, second_header_stale}

abbrev key : Key
key = record { k0 = 1; k1 = 2; k2 = 3; k3 = 4 }

abbrev hello : OutMessage
hello = Out.add 1 20 (Out.create 8)

hello-Holds : Holds hello 8 (20 ∷ [])
hello-Holds = add-Holds (create-Holds 8) 1 20

receive-package_example :
    (w : OutMessage) × (package_as_documented (2 ^ 64) key hello ≡ some w)
    × ((rest : List ℕ)
        → length (get_buffer w ++ rest) ≡ 15342
        → (m' : InMessage) × (receive (2 ^ 64) key (create 2 15340 (get_buffer w ++ rest))
            ≡ ok tt m')
          × (remaining m' ≡ 20 ∷ []))
receive-package_example =
    receive-package (2 ^ 64) (omega arith) key hello (20 ∷ []) hello-Holds (omega arith)
      (omega arith)

encode_out_of_bounds_example :
    (m' : OutMessage) × ((add_header hello >>= xtea_encrypt key) ≡ some m')
    × (encode (2 ^ 64) 8 m' ≡ none)
encode_out_of_bounds_example =
    encode_out_of_bounds (2 ^ 64) 8 key hello (20 ∷ []) (omega arith) hello-Holds (omega arith)

abbrev short : InMessage
short = record { buffer = 10 ∷ 0 ∷ 7 ∷ 8 ∷ []; pos = 0; size = 2 }

parse_header_lem_example :
    parse_header short
    ≡ ok
        (record { start = 2; count = 10 })
        (record { buffer = 10 ∷ 0 ∷ 7 ∷ 8 ∷ []; pos = 2; size = 12 })
parse_header_lem_example =
    parse_header_lem short 10 (7 ∷ 8 ∷ []) refl refl refl (omega arith) (omega arith)

get_raw_chunk_lem_example :
    get_raw_chunk 2 short
    ≡ ok (10 ∷ 0 ∷ []) (record { buffer = 10 ∷ 0 ∷ 7 ∷ 8 ∷ []; pos = 2; size = 2 })
get_raw_chunk_lem_example = get_raw_chunk_lem short (omega arith) 2 (omega arith)

abbrev summed : InMessage
summed = record { buffer = 2 ∷ 0 ∷ 2 ∷ 0 ∷ 1 ∷ []; pos = 0; size = 5 }

abbrev fields : List Field
fields = number 2 300 ∷ text (65 ∷ 66 ∷ []) ∷ []

abbrev sent : InMessage
sent = record { buffer = 44 ∷ 1 ∷ 2 ∷ 0 ∷ 65 ∷ 66 ∷ 9 ∷ []; pos = 0; size = 7 }

read_fields-write_fields_example : Reads (read_fields (map kind fields)) sent fields (9 ∷ [])
unfolding get_buffer Out.create Out.add Out.add_string
read_fields-write_fields_example =
    read_fields-write_fields fields sent (9 ∷ []) (omega arith) (omega arith) refl

abbrev array : List ℕ
array = replicate 15342 0

array_size : length array ≡ 15342
array_size = length-replicate {A = ℕ} 15342 0

-- The message that a body of eight zeros was read into, and a handler's read of five of them.
abbrev handled : InMessage
handled = record { buffer = 8 ∷ 0 ∷ (replicate 8 0 ++ drop 10 array); pos = 7; size = 10 }

second_header_stale_example :
    summary (next_header (100 ∷ 0 ∷ []) handled) ≡ summary (next_header (8 ∷ 0 ∷ []) handled)
unfolding next_header next_body read_into create parse_header get_number get_raw_chunk move_pos
    set_remaining_size get_body_buffer
second_header_stale_example =
    second_header_stale array 8 array_size (omega arith) (record { start = 2; count = 8 })
      (replicate 8 0) (5 ∷ []) (record { buffer = 8 ∷ 0 ∷ drop 2 array; pos = 2; size = 10 })
      handled 100 0 8 0 refl refl (omega arith) refl

abbrev sealed : InMessage
sealed = record { buffer = 113 ∷ 165 ∷ 87 ∷ 109 ∷ 249 ∷ 215 ∷ 7 ∷ 24 ∷ []; pos = 0; size = 8 }

xtea_decrypt_lem_example :
    xtea_decrypt key sealed
    ≡ ok tt (record { buffer = 3 ∷ 0 ∷ 20 ∷ 7 ∷ 8 ∷ 51 ∷ 51 ∷ 51 ∷ []; pos = 2; size = 5 })
unfolding decrypt_bytes Xtea.decrypt Xtea.blocks Xtea.decrypt_block Xtea.rounds Xtea.decrypt_round
    Xtea.feed
xtea_decrypt_lem_example =
    xtea_decrypt_lem key sealed 3 (20 ∷ 7 ∷ 8 ∷ 51 ∷ 51 ∷ 51 ∷ []) (omega arith) refl refl
      (omega arith) refl
