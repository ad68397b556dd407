-- ===== src/Base/Bytes.antt =====
-- Bytes and the little-endian layout of numbers, the one of the machines the server runs on:
-- `*reinterpret_cast<T*>(p)` reads `sizeof(T)` bytes, the lowest first, and a store writes them.
use Prim.Native.Nat.{ℕ, zero, suc, ◌+◌, ◌*◌, ◌/◌, ◌%◌, ◌^◌, ◌<◌}
use mathlib.Core.Path.{◌≡◌, refl, ap, ap₂, ◌∙◌}
use mathlib.Core.List.{List, [], ◌∷◌}
use native.Mathlib.Nat.{pow-suc}
use native.Mathlib.Omega.{arith}
use otservpp.Base.Lists.{length, All}

abbrev pub u8 : ℕ → ℕ
u8 n = n % 2 ^ 8

abbrev pub u16 : ℕ → ℕ
u16 n = n % 2 ^ 16

abbrev pub u32 : ℕ → ℕ
u32 n = n % 2 ^ 32

abbrev pub IsByte : ℕ → Type 0
IsByte b = b < 256

abbrev pub IsBytes : List ℕ → Type 0
IsBytes = All IsByte

-- The `n` bytes that a store of `v` into an object of `n` bytes writes.
abbrev pub le_bytes : ℕ → ℕ → List ℕ
le_bytes zero v = []
le_bytes (suc n) v = (v % 256) ∷ le_bytes n (v / 256)

-- The number that a load from these bytes gives.
abbrev pub le_value : List ℕ → ℕ
le_value [] = 0
le_value (b ∷ bs) = b + 256 * le_value bs

pub length-le_bytes : (n v : ℕ) → length (le_bytes n v) ≡ n
length-le_bytes zero v = refl
length-le_bytes (suc n) v = ap suc (length-le_bytes n (v / 256))

pub le_bytes-IsBytes : (n v : ℕ) → IsBytes (le_bytes n v)
le_bytes-IsBytes zero v = tt
le_bytes-IsBytes (suc n) v = (omega arith, le_bytes-IsBytes n (v / 256))

-- A load gives back what was stored, if it fits.
pub le_value-le_bytes : (n v : ℕ) → v < 256 ^ n → le_value (le_bytes n v) ≡ v
le_value-le_bytes zero v h = omega arith
le_value-le_bytes (suc n) v h =
    omega (arith, le_value-le_bytes n (v / 256) (omega (arith, pow-suc 256 n)))

pub le_bytes-le_value : (bs : List ℕ) → IsBytes bs → le_bytes (length bs) (le_value bs) ≡ bs
le_bytes-le_value [] h = refl
le_bytes-le_value (b ∷ bs) h =
    ap₂ ◌∷◌ (omega arith) (ap (le_bytes (length bs)) (omega arith) ∙ le_bytes-le_value bs h.1)

pub le_value-lt : (bs : List ℕ) → IsBytes bs → le_value bs < 256 ^ length bs
le_value-lt [] h = omega arith
le_value-lt (b ∷ bs) h = omega (arith, le_value-lt bs h.1, pow-suc 256 (length bs))
