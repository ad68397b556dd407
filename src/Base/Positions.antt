-- ===== src/Base/Positions.antt =====
-- Lists read and changed at a position.
use Prim.Native.Nat.{ℕ, zero, suc, ◌<◌}
use mathlib.Core.Path.{◌≡◌, refl, ap}
use mathlib.Core.Logic.{◌≢◌, ◌⊎◌, inl, inr}
use mathlib.Core.Option.{Option, none, some}
use mathlib.Core.List.{List, [], ◌∷◌, ◌++◌}
use native.Mathlib.Omega.{arith}
use otservpp.Base.Lists.{length}

module _ {ℓ} {A : Type ℓ} where
  abbrev pub get_elem? : List A → ℕ → Option A
  get_elem? [] i = none
  get_elem? (x ∷ xs) zero = some x
  get_elem? (x ∷ xs) (suc i) = get_elem? xs i

  -- A position out of range changes nothing.
  abbrev pub modify : ℕ → (A → A) → List A → List A
  modify i f [] = []
  modify zero f (x ∷ xs) = f x ∷ xs
  modify (suc i) f (x ∷ xs) = x ∷ modify i f xs

  pub length-modify : (i : ℕ) (f : A → A) (xs : List A) → length (modify i f xs) ≡ length xs
  length-modify i f [] = refl
  length-modify zero f (x ∷ xs) = refl
  length-modify (suc i) f (x ∷ xs) = ap suc (length-modify i f xs)

  pub lt_of_get_elem? : (xs : List A) (i : ℕ) {a : A} → get_elem? xs i ≡ some a → i < length xs
  lt_of_get_elem? [] i e = cc
  lt_of_get_elem? (x ∷ xs) zero e = omega arith
  lt_of_get_elem? (x ∷ xs) (suc i) e = omega (arith, lt_of_get_elem? xs i e)

  pub get_elem?-modify_self :
      (xs : List A) (i : ℕ) (f : A → A) (a : A)
      → get_elem? xs i ≡ some a
      → get_elem? (modify i f xs) i ≡ some (f a)
  get_elem?-modify_self [] i f a e = cc
  get_elem?-modify_self (x ∷ xs) zero f a e = cc
  get_elem?-modify_self (x ∷ xs) (suc i) f a e = get_elem?-modify_self xs i f a e

  pub get_elem?-modify_ne :
      (xs : List A) (i j : ℕ) (f : A → A) → i ≢ j → get_elem? (modify i f xs) j ≡ get_elem? xs j
  get_elem?-modify_ne [] i j f ne = refl
  get_elem?-modify_ne (x ∷ xs) zero zero f ne = absurd (ne refl)
  get_elem?-modify_ne (x ∷ xs) zero (suc j) f ne = refl
  get_elem?-modify_ne (x ∷ xs) (suc i) zero f ne = refl
  get_elem?-modify_ne (x ∷ xs) (suc i) (suc j) f ne =
      get_elem?-modify_ne xs i j f (λ e. ne (ap suc e))

  pub get_elem?-append :
      (xs ys : List A) (i : ℕ) {a : A} → get_elem? xs i ≡ some a → get_elem? (xs ++ ys) i ≡ some a
  get_elem?-append [] ys i e = cc
  get_elem?-append (x ∷ xs) ys zero e = e
  get_elem?-append (x ∷ xs) ys (suc i) e = get_elem?-append xs ys i e

  -- Where an element of a changed list comes from.
  pub of_modify :
      (xs : List A) (i j : ℕ) (f : A → A) (b : A)
      → get_elem? (modify i f xs) j ≡ some b
      → (a : A) × (get_elem? xs j ≡ some a) × (((i ≡ j) × (b ≡ f a)) ⊎ ((i ≢ j) × (b ≡ a)))
  of_modify [] i j f b e = cc
  of_modify (x ∷ xs) zero zero f b e = (x, refl, inl (refl, cc))
  of_modify (x ∷ xs) zero (suc j) f b e = (b, e, inr ((λ h. omega (arith, h)), refl))
  of_modify (x ∷ xs) (suc i) zero f b e = (b, e, inr ((λ h. omega (arith, h)), refl))
  of_modify (x ∷ xs) (suc i) (suc j) f b e =
      let (a, there, from) = of_modify xs i j f b e in
      (
        a,
        there,
        elim from [
          | inl (same, changed) ↦ inl (ap suc same, changed)
          | inr (other, kept) ↦ inr ((λ h. other (omega (arith, h))), kept)
        ],
      )

  pub of_append_one :
      (xs : List A) (x : A) (i : ℕ) {a : A}
      → get_elem? (xs ++ x ∷ []) i ≡ some a
      → (get_elem? xs i ≡ some a) ⊎ ((i ≡ length xs) × (a ≡ x))
  of_append_one [] x zero e = inr (refl, cc)
  of_append_one [] x (suc i) e = cc
  of_append_one (y ∷ xs) x zero e = inl e
  of_append_one (y ∷ xs) x (suc i) e = elim (of_append_one xs x i e) [
    | inl there ↦ inl there
    | inr (last, new) ↦ inr (ap suc last, new)
  ]
