-- ===== src/Crypto/Xtea/Words.antt =====
-- A buffer of bytes read as one of `uint32_t`, as the `reinterpret_cast`s of the messages do.
use mathlib.Core.Path.{ap₂}
use otservpp.Base.{
  ℕ, ◌*◌, ◌%◌, ◌^◌, ◌<◌, ◌≡◌, refl, List, [], ◌∷◌, ◌++◌, arith, length, All, IsBytes, le_bytes,
  le_value,
}

abbrev pub IsWord : ℕ → Type 0
IsWord w = w < 2 ^ 32

abbrev pub words : List ℕ → List ℕ
words (a ∷ b ∷ c ∷ d ∷ bs) = le_value (a ∷ b ∷ c ∷ d ∷ []) ∷ words bs
words bs = []

abbrev pub bytes : List ℕ → List ℕ
bytes [] = []
bytes (w ∷ ws) = le_bytes 4 w ++ bytes ws

pub words-bytes : (ws : List ℕ) → All IsWord ws → words (bytes ws) ≡ ws
words-bytes [] h = refl
words-bytes (w ∷ ws) h = ap₂ ◌∷◌ (omega arith) (words-bytes ws h.1)

pub bytes-words : (bs : List ℕ) → IsBytes bs → length bs % 4 ≡ 0 → bytes (words bs) ≡ bs
bytes-words [] h e = refl
bytes-words (a ∷ []) h e = absurd (omega arith)
bytes-words (a ∷ b ∷ []) h e = absurd (omega arith)
bytes-words (a ∷ b ∷ c ∷ []) h e = absurd (omega arith)
bytes-words (a ∷ b ∷ c ∷ d ∷ bs) h e = ap₂ ◌∷◌ (omega arith) (
    ap₂ ◌∷◌ (omega arith)
      (ap₂ ◌∷◌ (omega arith) (ap₂ ◌∷◌ (omega arith) (bytes-words bs h.1.1.1.1 (omega arith)))))

pub length-words : (bs : List ℕ) → length bs % 4 ≡ 0 → length (words bs) * 4 ≡ length bs
length-words [] e = refl
length-words (a ∷ []) e = absurd (omega arith)
length-words (a ∷ b ∷ []) e = absurd (omega arith)
length-words (a ∷ b ∷ c ∷ []) e = absurd (omega arith)
length-words (a ∷ b ∷ c ∷ d ∷ bs) e = omega (arith, length-words bs (omega arith))

pub length-bytes : (ws : List ℕ) → length (bytes ws) ≡ length ws * 4
length-bytes [] = refl
length-bytes (w ∷ ws) = omega (arith, length-bytes ws)

pub words-IsWord : (bs : List ℕ) → IsBytes bs → All IsWord (words bs)
words-IsWord [] h = tt
words-IsWord (a ∷ []) h = tt
words-IsWord (a ∷ b ∷ []) h = tt
words-IsWord (a ∷ b ∷ c ∷ []) h = tt
words-IsWord (a ∷ b ∷ c ∷ d ∷ bs) h = (omega arith, words-IsWord bs h.1.1.1.1)

pub bytes-IsBytes : (ws : List ℕ) → IsBytes (bytes ws)
bytes-IsBytes [] = tt
bytes-IsBytes (w ∷ ws) =
    (omega arith, (omega arith, (omega arith, (omega arith, bytes-IsBytes ws))))
