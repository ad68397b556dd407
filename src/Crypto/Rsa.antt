-- ===== src/Crypto/Rsa.antt =====
-- Rsa of crypto.h and crypto.cpp, over OpenSSL: its constructor, and `decrypt`.
use otservpp.Base.{ℕ, List, Option, none, some, Bool, if◌then◌else◌}
use otservpp.Base.Options.{◌>>=◌}

pub record Rsa : Type 0 where
  pub n : ℕ
  pub e : ℕ
  pub d : ℕ
  pub p : ℕ
  pub q : ℕ

-- How the constructor ends: `throws` is the system_error, after which the numbers are freed.
pub data Made : Type 0 where
  made : Rsa → Made
  throws : Made

-- `dec2bn` is `BN_dec2bn`, with `none` for 0 digits, and `check` whether `RSA_check_key` gives 1.
module _ (dec2bn : List ℕ → Option ℕ) (check : Rsa → Bool) where
  unfoldable pub numbers : List ℕ → List ℕ → List ℕ → List ℕ → List ℕ → Option Rsa
  numbers n e d p q = do
    n' ← dec2bn n
    e' ← dec2bn e
    d' ← dec2bn d
    p' ← dec2bn p
    q' ← dec2bn q
    some (record { n = n'; e = e'; d = d'; p = p'; q = q' })

  unfoldable pub make : List ℕ → List ℕ → List ℕ → List ℕ → List ℕ → Made
  make n e d p q = elim (numbers n e d p q) [
    | none ↦ throws
    | some rsa ↦ if check rsa then made rsa else throws
  ]

-- What the handler is called with: whether there is an error, and the new length, where `-1` is `none`.
pub record Decrypted : Type 0 where
  pub error : Option ℕ
  pub new_len : Option ℕ

-- `private_decrypt` is `RSA_private_decrypt` on the bytes at hand, and `errno` what `ERR_get_error`
-- gives behind it.
unfoldable pub decrypt : (List ℕ → Option ℕ) → ℕ → List ℕ → Decrypted
decrypt private_decrypt errno buffer = elim (private_decrypt buffer) [
  | none ↦ record { error = some errno; new_len = none }
  | some len ↦ record { error = none; new_len = some len }
]
