-- ===== src/Message/Fields.antt =====
-- Sequences of numbers and texts: what the calls of an outgoing message append is what the same
-- sequence of calls of an incoming message reads.
use otservpp.Base.{
  ℕ, ◌^◌, ◌<◌, ◌≡◌, refl, sym, subst, ap, ◌∙◌, List, [], ◌∷◌, ◌++◌, arith, u16, map, length,
  le_bytes, All, append_assoc, append-nil,
}
use otservpp.Message.In.{InMessage, Reader, ok, ◌>>=◌, return, get_number, get_str_chunk}
use otservpp.Message.In.Laws.{
  IsWellFormed, remaining, advance, get_number-remaining, get_raw_chunk-remaining,
}
use otservpp.Message.In.Standard.{get_string}
use otservpp.Message.Out.{OutMessage, create, add, add_string, get_buffer}
use otservpp.Message.Out.Body.{Holds, create-Holds, add-Holds, add_string-Holds, get_buffer-Holds}

-- A number of so many bytes, or a text.
pub data Field : Type 0 where
  number : ℕ → ℕ → Field
  text : List ℕ → Field

pub data Kind : Type 0 where
  a_number : ℕ → Kind
  a_text : Kind

abbrev pub kind : Field → Kind
kind (number n v) = a_number n
kind (text s) = a_text

-- The number has no more digits than its bytes hold; the length of the text fits 16 bits.
abbrev pub IsField : Field → Type 0
IsField (number n v) = v < 256 ^ n
IsField (text s) = length s < 2 ^ 16

abbrev pub write_field : Field → OutMessage → OutMessage
write_field (number n v) m = add n v m
write_field (text s) m = add_string s m

abbrev pub write_fields : List Field → OutMessage → OutMessage
write_fields [] m = m
write_fields (f ∷ fs) m = write_fields fs (write_field f m)

abbrev pub read_field : Kind → Reader Field
read_field (a_number n) = do v ← get_number n; return (number n v)
read_field a_text = do s ← get_string; return (text s)

abbrev pub read_fields : List Kind → Reader (List Field)
read_fields [] = return []
read_fields (k ∷ ks) = do f ← read_field k; fs ← read_fields ks; return (f ∷ fs)

abbrev field_bytes : Field → List ℕ
field_bytes (number n v) = le_bytes n v
field_bytes (text s) = le_bytes 2 (u16 (length s)) ++ s

abbrev all_bytes : List Field → List ℕ
all_bytes [] = []
all_bytes (f ∷ fs) = field_bytes f ++ all_bytes fs

write_field-Holds :
    {m : OutMessage} {room : ℕ} {body : List ℕ} (f : Field)
    → Holds m room body
    → Holds (write_field f m) room (body ++ field_bytes f)
write_field-Holds (number n v) h = add-Holds h n v
write_field-Holds (text s) h = add_string-Holds h s

write_fields-Holds :
    (fs : List Field) {m : OutMessage} {room : ℕ} {body : List ℕ}
    → Holds m room body
    → Holds (write_fields fs m) room (body ++ all_bytes fs)
write_fields-Holds [] {m} {room} {body} h = subst (Holds m room) (sym (append-nil body)) h
write_fields-Holds (f ∷ fs) {m} {room} {body} h =
    subst (Holds (write_fields fs (write_field f m)) room)
      (append_assoc body (field_bytes f) (all_bytes fs))
      (write_fields-Holds fs (write_field-Holds f h))

-- A message from which the bytes `xs` are read as `a`, and where the bytes `rest` are left.
pub record Reads {A : Type 0} (r : Reader A) (m : InMessage) (a : A) (rest : List ℕ) : Type 0 where
  pub after : InMessage
  pub result : r m ≡ ok a after
  pub keeps : IsWellFormed after
  pub left : remaining after ≡ rest

get_string-Reads :
    (m : InMessage) (s rest : List ℕ)
    → IsWellFormed m
    → length s < 2 ^ 16
    → remaining m ≡ (le_bytes 2 (length s) ++ s) ++ rest
    → Reads get_string m s rest
unfolding get_string get_str_chunk
get_string-Reads m s rest v h e =
    let (reads, v1, next) = get_number-remaining m v 2 (length s) (s ++ rest) h e in
    let (text_reads, v2, left) = get_raw_chunk-remaining (advance 2 m) v1 s rest next in
    record {
      after = advance (length s) (advance 2 m);
      result = rw (reads, ◌>>=◌, text_reads);
      keeps = v2;
      left = left;
    }

read_field-Reads :
    (m : InMessage) (f : Field) (rest : List ℕ)
    → IsWellFormed m
    → IsField f
    → remaining m ≡ field_bytes f ++ rest
    → Reads (read_field (kind f)) m f rest
read_field-Reads m (number n v) rest w h e =
    let (reads, w', left) = get_number-remaining m w n v rest h e in
    record { after = advance n m; result = rw (reads, ◌>>=◌); keeps = w'; left = left }
read_field-Reads m (text s) rest w h e =
    let e' : u16 (length s) ≡ length s = omega arith in
    let t = get_string-Reads m s rest w h (e ∙ ap (λ n. (le_bytes 2 n ++ s) ++ rest) e') in
    record { after = t.after; result = rw (t.result, ◌>>=◌); keeps = t.keeps; left = t.left }

read_fields-Reads :
    (m : InMessage) (fs : List Field) (rest : List ℕ)
    → IsWellFormed m
    → All IsField fs
    → remaining m ≡ all_bytes fs ++ rest
    → Reads (read_fields (map kind fs)) m fs rest
read_fields-Reads m [] rest v h e = record { after = m; result = refl; keeps = v; left = e }
read_fields-Reads m (f ∷ fs) rest v h e =
    let t =
      read_field-Reads m f (all_bytes fs ++ rest) v h.0
        (e ∙ append_assoc (field_bytes f) (all_bytes fs) rest) in
    let u = read_fields-Reads t.after fs rest t.keeps h.1 t.left in
    record {
      after = u.after;
      result = rw (t.result, ◌>>=◌, u.result);
      keeps = u.keeps;
      left = u.left;
    }

-- A message into which numbers and texts were written, each within its width, has them read back in
-- order by the calls of the same kinds, wherever its bytes stand in a message that was received; and
-- what follows them is left to be read.
pub read_fields-write_fields :
    (fs : List Field) (m : InMessage) (rest : List ℕ)
    → All IsField fs
    → IsWellFormed m
    → remaining m ≡ get_buffer (write_fields fs (create 8)) ++ rest
    → Reads (read_fields (map kind fs)) m fs rest
read_fields-write_fields fs m rest h v e =
    read_fields-Reads m fs rest v h
      (e ∙ ap (λ xs. xs ++ rest) (get_buffer-Holds (write_fields-Holds fs (create-Holds 8))))
