-- ===== src/Crypto/Service.antt =====
-- CryptoService of crypto.h, whose strand runs one function at a time and in the order in which they were
-- dispatched; the `decrypt` of Rsa that calls a handler there; and ErrorCategory.
use Prim.Native.String.{String}
use otservpp.Base.{
  ℕ, zero, suc, ◌≡◌, ◌≢◌, refl, sym, ◌∙◌, List, [], ◌∷◌, ◌++◌, append_assoc, append-nil, Option,
  none, some, All, map, length, drop,
}
use otservpp.Base.Options.{◌>>=◌}
use otservpp.Base.Positions.{get_elem?, modify, get_elem?-modify_ne}
use otservpp.Crypto.Rsa.{Decrypted, decrypt}

-- ErrorCategory, over `ERR_error_string` of OpenSSL.
unfoldable pub name : String
name = "crypto"

unfoldable pub message : (ℕ → String) → ℕ → String
message error_string e = error_string e

-- The function that `decrypt` dispatches: the handler by its name, and the buffer by its position among
-- those of the program, to which it keeps a pointer.
pub record Job : Type 0 where
  pub handler : ℕ
  pub buffer : ℕ

pub record Called : Type 0 where
  pub handler : ℕ
  pub result : Decrypted

-- The functions on the strand, the buffers, and the handlers that were called.
pub record CryptoService : Type 0 where
  pub strand : List Job
  pub buffers : List (List ℕ)
  pub called : List Called

unfoldable pub run_sync : Job → CryptoService → CryptoService
run_sync job s = record s { strand = s.strand ++ job ∷ [] }

unfoldable pub decrypt_then : ℕ → ℕ → CryptoService → CryptoService
unfolding run_sync
decrypt_then handler buffer s = run_sync (record { handler = handler; buffer = buffer }) s

-- `private_decrypt` is `RSA_private_decrypt`, with the bytes that it writes, and `errno` what
-- `ERR_get_error` gives behind it.
module _ (private_decrypt : List ℕ → Option (List ℕ)) (errno : ℕ) where
  abbrev pub new_length : List ℕ → Option ℕ
  new_length bytes = elim (private_decrypt bytes) [ none ↦ none | some new ↦ some (length new) ]

  -- The bytes are written to the buffer that they were read from.
  unfoldable pub written : List ℕ → List ℕ
  written bytes = elim (private_decrypt bytes) [
    | none ↦ bytes
    | some new ↦ new ++ drop (length new) bytes
  ]

  abbrev pub called_with : ℕ → List ℕ → Called
  called_with handler bytes = record { handler = handler; result = decrypt new_length errno bytes }

  -- The strand runs its first function; `none` where it has none, or where the buffer is gone.
  unfoldable pub run_one : CryptoService → Option CryptoService
  run_one s = elim s.strand [
    | [] ↦ none
    | j ∷ js ↦ elim (get_elem? s.buffers j.buffer) [
      | none ↦ none
      | some bytes ↦ some (record {
        strand = js;
        buffers = modify j.buffer written s.buffers;
        called = s.called ++ called_with j.handler bytes ∷ [];
      })
    ]
  ]

  unfoldable pub runs : ℕ → CryptoService → Option CryptoService
  runs zero s = some s
  runs (suc n) s = run_one s >>= runs n

  -- Jobs with the bytes that stand in their buffers, in buffers of their own.
  abbrev pub HaveBytes : List (List ℕ) → List (Job × List ℕ) → Type 0
  HaveBytes buffers xs = All (λ x. get_elem? buffers x.0.buffer ≡ some x.1) xs

  abbrev pub AreApart : List (Job × List ℕ) → Type 0
  AreApart [] = Unit
  AreApart (x ∷ xs) = All (λ y. x.0.buffer ≢ y.0.buffer) xs × AreApart xs

  modify-HaveBytes :
      (i : ℕ) (buffers : List (List ℕ)) (xs : List (Job × List ℕ))
      → All (λ y. i ≢ y.0.buffer) xs
      → HaveBytes buffers xs
      → HaveBytes (modify i written buffers) xs
  modify-HaveBytes i buffers [] h k = tt
  modify-HaveBytes i buffers (x ∷ xs) h k = (
    get_elem?-modify_ne buffers i x.0.buffer written h.0 ∙ k.0,
    modify-HaveBytes i buffers xs h.1 k.1,
  )

  -- Decryptions of buffers that nothing else writes to: their functions run to the end, and call the handlers in
  -- the order of the calls, each with what the decryption makes of the bytes that stood in its buffer.
  pub runs_lem :
      (s : CryptoService) (xs : List (Job × List ℕ))
      → s.strand ≡ map (λ x. x.0) xs
      → HaveBytes s.buffers xs
      → AreApart xs
      → (t : CryptoService) × (runs (length xs) s ≡ some t)
        × (t.strand ≡ [])
        × (t.called ≡ s.called ++ map (λ x. called_with x.0.handler x.1) xs)
  unfolding runs run_one
  runs_lem s [] dispatched h a = (s, refl, dispatched, sym (append-nil s.called))
  runs_lem s (x ∷ xs) dispatched h a =
      let s1 : CryptoService = record {
        strand = map (λ x. x.0) xs;
        buffers = modify x.0.buffer written s.buffers;
        called = s.called ++ called_with x.0.handler x.1 ∷ [];
      } in
      let (t, ran, idle, called) =
        runs_lem s1 xs refl (modify-HaveBytes x.0.buffer s.buffers xs a.0 h.1) a.1 in
      (
        t,
        rw (dispatched, h.0, runs, run_one) ran,
        idle,
        called ∙ append_assoc s.called (called_with x.0.handler x.1 ∷ []) _,
      )
