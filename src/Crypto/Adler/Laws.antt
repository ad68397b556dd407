-- ===== src/Crypto/Adler/Laws.antt =====
-- `adler32` computes the checksum of RFC 1950.
use native.Mathlib.Nat.{mod-eq_of_lt}
use otservpp.Base.{
  ℕ, zero, suc, ◌+◌, ◌-◌, ◌*◌, ◌%◌, ◌^◌, ◌≤◌, ◌<◌, ◌≡◌, refl, sym, ap, subst, ◌∙◌, List, [], ◌∷◌,
  ◌++◌, some, false, arith, lt→ltb, ◌==◌, length, take, drop, length-take, length-drop,
  take-append-drop, append_assoc, All-take, All-drop, IsByte, IsBytes, bit_or-shift,
}
use otservpp.Crypto.Adler.{Sums, chunk_size, chunk_length, base, chunk, chunks, adler32}
use otservpp.Crypto.Adler.Reference.{sums, checksum}
use otservpp.Crypto.Adler.Chunk.{chunk-sums}

sums-append :
    (xs ys : List ℕ) (a b : ℕ) → sums (xs ++ ys) a b ≡ sums ys (sums xs a b).a (sums xs a b).b
sums-append [] ys a b = refl
sums-append (x ∷ xs) ys a b = sums-append xs ys ((a + x) % 65521) ((b + (a + x) % 65521) % 65521)

sums_reduced :
    (xs : List ℕ) (a b : ℕ)
    → a < base
    → b < base
    → ((sums xs a b).a < base) × ((sums xs a b).b < base)
sums_reduced [] a b ha hb = (ha, hb)
sums_reduced (x ∷ xs) a b ha hb =
    sums_reduced xs ((a + x) % 65521) ((b + (a + x) % 65521) % 65521) (omega arith) (omega arith)

-- The checksum is a 32-bit number.
pub checksum-lt : (xs : List ℕ) → checksum xs < 2 ^ 32
checksum-lt xs = omega (arith, sums_reduced xs 1 0 (omega arith) (omega arith))

module _ (m : ℕ) (big : 2 ^ 32 ≤ m) where
  chunk-take :
      (k : ℕ) (xs rest : List ℕ) (s : Sums)
      → k ≤ length xs
      → k ≤ chunk_size
      → IsBytes xs
      → s.a < base
      → s.b < base
      → s.rest ≡ xs ++ rest
      → chunk m k s
        ≡ some (record {
          a = (sums (take k xs) s.a s.b).a;
          b = (sums (take k xs) s.a s.b).b;
          rest = drop k xs ++ rest;
        })
  chunk-take k xs rest s fits small bytes ha hb er =
      let e : length (take k xs) ≡ k = omega (arith, length-take k xs) in
      let cut : xs ++ rest ≡ take k xs ++ (drop k xs ++ rest) =
        ap (λ ys. ys ++ rest) (sym (take-append-drop k xs))
        ∙ append_assoc (take k xs) (drop k xs) rest in
      subst
        (λ n.
          chunk m n s
          ≡ some (record {
            a = (sums (take k xs) s.a s.b).a;
            b = (sums (take k xs) s.a s.b).b;
            rest = drop k xs ++ rest;
          }))
        e
        (chunk-sums m big (take k xs) s (drop k xs ++ rest) (All-take IsByte k xs bytes)
          (omega (arith, e)) ha hb (er ∙ cut))

  chunks-sums :
      (fuel len : ℕ) (xs rest : List ℕ) (s : Sums)
      → len < fuel
      → length xs ≡ len
      → IsBytes xs
      → s.a < base
      → s.b < base
      → s.rest ≡ xs ++ rest
      → chunks m fuel len s
        ≡ some (record { a = (sums xs s.a s.b).a; b = (sums xs s.a s.b).b; rest = rest })
  unfolding chunks
  chunks-sums zero len xs rest s h e bytes ha hb er = absurd (omega arith)
  chunks-sums (suc fuel) zero [] rest s h e bytes ha hb er = ground arith
  chunks-sums (suc fuel) zero (x ∷ xs) rest s h e bytes ha hb er = absurd (omega arith)
  chunks-sums (suc fuel) (suc n) xs rest s h e bytes ha hb er =
      let k : ℕ = chunk_length (suc n) in
      let small : (k ≤ chunk_size) × (k ≤ suc n) × (0 < k) = ground arith in
      let done = sums_reduced (take k xs) s.a s.b ha hb in
      let whole = sums-append (take k xs) (drop k xs) s.a s.b in
      rw
        (
          lt→ltb 0 (suc n) (omega arith),
          chunk-take k xs rest s (omega arith) small.0 bytes ha hb er,
        )
        (chunks-sums fuel (suc n - k) (drop k xs) rest _ (omega arith)
            (omega (arith, length-drop k xs)) (All-drop IsByte k xs bytes) done.0 done.1 refl
          ∙ rw (← whole, take-append-drop k xs))

  -- For any sequence of bytes that is not empty and lies in the memory, the unrolled and deferred
  -- sums give the checksum of RFC 1950, where the accumulators have 32 bits or more.
  pub adler32-checksum :
      (memory : List ℕ) (len : ℕ)
      → 0 < len
      → len ≤ length memory
      → IsBytes memory
      → adler32 m memory len ≡ some (checksum (take len memory))
  unfolding adler32
  adler32-checksum memory len pos fits bytes =
      let xs : List ℕ = take len memory in
      let bound = sums_reduced xs 1 0 (omega arith) (omega arith) in
      let wide : (sums xs 1 0).b * 2 ^ 16 % m ≡ (sums xs 1 0).b * 2 ^ 16 =
        mod-eq_of_lt (omega arith) in
      let narrow : (sums xs 1 0).b * 2 ^ 16 % 2 ^ 32 ≡ (sums xs 1 0).b * 2 ^ 16 = omega arith in
      rw
        (
          not_zero,
          chunks-sums (suc len) len xs (drop len memory) (record { a = 1; b = 0; rest = memory })
              (omega arith) (omega (arith, length-take len memory))
              (All-take IsByte len memory bytes) (omega arith) (omega arith)
              (sym (take-append-drop len memory)),
        )
        (ap some (
          rw (wide, narrow)
            (omega (arith, bit_or-shift 16 (sums xs 1 0).b (sums xs 1 0).a (omega arith)))))
    where
      not_zero : (len == 0) ≡ false
      not_zero = ground arith
