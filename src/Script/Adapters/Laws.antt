-- ===== src/Script/Adapters/Laws.antt =====
-- Which static adapters are registered together.
use Prim.Native.String.{String}
use package.text.Mathlib.Text.{◌==◌}
use package.text.Mathlib.TextEquality.{eq_iff}
use otservpp.Base.{
  ℕ, suc, ◌+◌, ◌≤◌, ◌≡◌, refl, sym, ap, ◌∙◌, subst, List, [], ◌∷◌, ◌++◌, false, none, some,
  if◌then◌else◌, arith, append_assoc, append-nil, ◌↔◌, Bool-cases, inl, inr,
}
use otservpp.Script.Adapters.{Adapter, contains, insert, static_insert, static_inserts}

module _ {S : Type 0} where
  abbrev is_of : String → Adapter S → ℕ
  is_of n a = if n == a.adaptee then 1 else 0

  -- How many adapters have this adaptee.
  abbrev pub count : String → List (Adapter S) → ℕ
  count n [] = 0
  count n (a ∷ rest) = (if n == a.adaptee then 1 else 0) + count n rest

  abbrev pub IsDistinct : List (Adapter S) → Type 0
  IsDistinct xs = (n : String) → count n xs ≤ 1

  count-append :
      (n : String) (xs ys : List (Adapter S)) → count n (xs ++ ys) ≡ count n xs + count n ys
  count-append n [] ys = omega arith
  count-append n (x ∷ xs) ys = omega (arith, count-append n xs ys)

  contains_lem :
      (a : Adapter S) (xs : List (Adapter S)) → count a.adaptee xs ≡ 0 → contains a xs ≡ false
  unfolding contains
  contains_lem a [] h = refl
  contains_lem a (x ∷ xs) h = ground (arith, contains_lem a xs)

  count_self :
      (a : Adapter S) (xs : List (Adapter S)) → count a.adaptee (a ∷ xs) ≡ suc (count a.adaptee xs)
  count_self a xs = ground (arith, eq_iff a.adaptee a.adaptee)

  static_inserts_lem :
      (xs set : List (Adapter S))
      → IsDistinct (set ++ xs)
      → static_inserts xs set ≡ some (set ++ xs)
  unfolding static_insert
  static_inserts_lem [] set h = ap some (sym (append-nil set))
  static_inserts_lem (a ∷ xs) set h =
      let fresh : contains a set ≡ false =
        contains_lem a set
          (omega (arith, h a.adaptee, count-append a.adaptee set (a ∷ xs), count_self a xs)) in
      let assoc : (set ++ a ∷ []) ++ xs ≡ set ++ a ∷ xs = append_assoc set (a ∷ []) xs in
      rw (insert, fresh)
        (static_inserts_lem xs (set ++ a ∷ []) (subst IsDistinct (sym assoc) h) ∙ ap some assoc)

  contains-none :
      (a : Adapter S) (xs : List (Adapter S)) → contains a xs ≡ false → count a.adaptee xs ≡ 0
  unfolding contains
  contains-none a [] h = refl
  contains-none a (x ∷ xs) h = ground (arith, contains-none a xs)

  -- One more adapter, of an adaptee that none has so far.
  IsDistinct-append :
      (a : Adapter S) (xs : List (Adapter S))
      → contains a xs ≡ false
      → IsDistinct xs
      → IsDistinct (xs ++ a ∷ [])
  IsDistinct-append a xs fresh h n =
      let counted = count-append n xs (a ∷ []) in
      let absent = contains-none a xs fresh in
      ground (arith, counted, h n, absent, eq_iff n a.adaptee)

  static_inserts-returns :
      (xs set s : List (Adapter S))
      → IsDistinct set
      → static_inserts xs set ≡ some s
      → IsDistinct s × (s ≡ set ++ xs)
  unfolding static_insert
  static_inserts-returns [] set s h e =
      let same : set ≡ s = cc in (subst IsDistinct same h, sym same ∙ sym (append-nil set))
  static_inserts-returns (a ∷ xs) set s h e = elim (Bool-cases (contains a set)) [
    | inl there ↦ let fails : none ≡ some s = sym (rw (insert, there) refl) ∙ e in absurd (cc)
    | inr fresh ↦
        let goes : static_inserts xs (set ++ a ∷ []) ≡ some s = sym (rw (insert, fresh) refl) ∙ e in
        let (distinct, all) =
          static_inserts-returns xs (set ++ a ∷ []) s (IsDistinct-append a set fresh h) goes in
        (distinct, all ∙ append_assoc set (a ∷ []) xs)
  ]

  -- Static adapters are registered, in the order of their initialisation, exactly if no two of them have one
  -- adaptee; with a second one of an adaptee the assertion fails.
  pub static_inserts-registered :
      (xs s : List (Adapter S)) → (static_inserts xs [] ≡ some s) ↔ (IsDistinct xs × (s ≡ xs))
  static_inserts-registered xs s = (
    λ e.
        let (distinct, same) = static_inserts-returns xs [] s (λ n. omega arith) e in
        (subst IsDistinct same distinct, same),
    λ h. static_inserts_lem xs [] h.0 ∙ ap some (sym h.1),
  )
