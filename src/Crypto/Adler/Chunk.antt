-- ===== src/Crypto/Adler/Chunk.antt =====
-- One chunk: the unrolled loop reads the bytes one after the other, and no sum wraps before it is
-- reduced.
use native.Mathlib.Nat.{mul-le-mul_right, mod-eq_of_lt}
use otservpp.Base.{
  ℕ, zero, suc, ◌+◌, ◌-◌, ◌*◌, ◌%◌, ◌^◌, ◌≤◌, ◌<◌, ◌≡◌, refl, sym, ap, ◌∙◌, inl, inr, Bool-cases,
  List, [], ◌∷◌, ◌++◌, Option, none, some, arith, leb, length, IsBytes,
}
use otservpp.Base.Options.{◌>>=◌}
use otservpp.Crypto.Adler.{Sums, chunk_size, base, add_bytes, unrolled, remainder, chunk}
use otservpp.Crypto.Adler.Reference.{sums}

module _ (m : ℕ) where
  -- Reading `i + j` bytes is reading `i` and then `j`.
  add_bytes-add :
      (i j a b : ℕ) (rest : List ℕ)
      → add_bytes m (i + j) a b rest
        ≡ (add_bytes m i a b rest >>= λ s. add_bytes m j s.a s.b s.rest)
  unfolding add_bytes
  add_bytes-add zero j a b rest = ap (λ k. add_bytes m k a b rest) (omega arith)
  add_bytes-add (suc i) j a b [] = let e : suc i + j ≡ suc (i + j) = omega arith in rw e
  add_bytes-add (suc i) j a b (x ∷ rest) =
      let e : suc i + j ≡ suc (i + j) = omega arith in
      rw e (add_bytes-add i j ((a + x) % m) ((b + (a + x) % m) % m) rest)

  remainder-add_bytes : (k : ℕ) (s : Sums) → remainder m k s ≡ add_bytes m k s.a s.b s.rest
  unfolding remainder add_bytes
  remainder-add_bytes zero s = refl
  remainder-add_bytes (suc k) s = ground arith

  unrolled-remainder :
      (fuel k : ℕ) (s : Sums)
      → k < fuel
      → (unrolled m fuel k s >>= λ (s', left). remainder m left s') ≡ add_bytes m k s.a s.b s.rest
  unfolding unrolled remainder add_bytes
  unrolled-remainder zero k s h = absurd (omega arith)
  unrolled-remainder (suc fuel) k s h = elim (Bool-cases (leb 16 k)) [
    | inl more ↦
        let e : k ≡ 16 + (k - 16) = ground arith in
        rw (more, unrolled)
          (go (add_bytes m 16 s.a s.b s.rest)
              (λ s'. unrolled-remainder fuel (k - 16) s' (ground arith))
            ∙ sym (add_bytes-add 16 (k - 16) s.a s.b s.rest)
            ∙ ap (λ n. add_bytes m n s.a s.b s.rest) (sym e))
    | inr less ↦ rw (less, unrolled) (remainder-add_bytes k s)
  ]
    where
      go :
          (o : Option Sums)
          → ((s' : Sums)
              → (unrolled m fuel (k - 16) s' >>= λ (t, left). remainder m left t)
                ≡ add_bytes m (k - 16) s'.a s'.b s'.rest)
          → ((o >>= λ s'. unrolled m fuel (k - 16) s') >>= λ (t, left). remainder m left t)
            ≡ (o >>= λ s'. add_bytes m (k - 16) s'.a s'.b s'.rest)
      go none ih = refl
      go (some s') ih = ih s'

  -- While at most 5552 bytes are read since the last reduction, nothing wraps at 32 bits, and the
  -- sums are those of the reference.
  add_bytes-exact :
      2 ^ 32 ≤ m
      → (xs rest : List ℕ) (i a b ra rb : ℕ) → IsBytes xs
      → i + length xs ≤ chunk_size
      → a ≤ 65520 + 255 * i
      → 2 * b ≤ 131040 + 131040 * i + 255 * (i * (i + 1))
      → a % base ≡ ra
      → b % base ≡ rb
      → (s : Sums) × (add_bytes m (length xs) a b (xs ++ rest) ≡ some s)
        × (s.rest ≡ rest)
        × (s.a % base ≡ (sums xs ra rb).a)
        × (s.b % base ≡ (sums xs ra rb).b)
  unfolding add_bytes
  add_bytes-exact big [] rest i a b ra rb bytes fits ha hb qa qb =
      (record { a = a; b = b; rest = rest }, refl, refl, qa, qb)
  add_bytes-exact big (x ∷ xs) rest i a b ra rb bytes fits ha hb qa qb =
      let square : i * i ≤ 5551 * i = mul-le-mul_right i (omega arith) in
      let ea : (a + x) % m ≡ a + x = mod-eq_of_lt (omega arith) in
      let eb : (b + (a + x)) % m ≡ b + (a + x) = mod-eq_of_lt (omega arith) in
      rw (ea, eb)
        (add_bytes-exact big xs rest (i + 1) (a + x) (b + (a + x)) ((ra + x) % 65521)
          ((rb + (ra + x) % 65521) % 65521) bytes.1 (omega arith) (omega arith) (omega arith)
          (omega arith) (omega arith))

  abbrev reduce : Sums → Option Sums
  reduce s = some (record s { a = s.a % base; b = s.b % base })

  bind_regroup :
      (o : Option (Sums × ℕ))
      → (o >>= λ (s, left). (remainder m left s >>= reduce))
        ≡ ((o >>= λ (s, left). remainder m left s) >>= reduce)
  bind_regroup none = refl
  bind_regroup (some t) = refl

  chunk-add_bytes : (k : ℕ) (s : Sums) → chunk m k s ≡ (add_bytes m k s.a s.b s.rest >>= reduce)
  unfolding chunk
  chunk-add_bytes k s =
      bind_regroup (unrolled m (suc k) k s)
      ∙ ap (λ o. o >>= reduce) (unrolled-remainder (suc k) k s (omega arith))

  -- A chunk advances the reduced sums by its bytes, and wraps nowhere.
  pub chunk-sums :
      2 ^ 32 ≤ m
      → (xs : List ℕ) (s : Sums) (rest : List ℕ) → IsBytes xs
      → length xs ≤ chunk_size
      → s.a < base
      → s.b < base
      → s.rest ≡ xs ++ rest
      → chunk m (length xs) s
        ≡ some (record { a = (sums xs s.a s.b).a; b = (sums xs s.a s.b).b; rest = rest })
  chunk-sums big xs s rest bytes fits ha hb e =
      let (t, reads, left, qa, qb) =
        add_bytes-exact big xs rest 0 s.a s.b s.a s.b bytes (omega arith) (omega arith)
          (omega arith) (omega arith) (omega arith) in
      chunk-add_bytes (length xs) s ∙ rw (e, reads, qa, qb, left)
