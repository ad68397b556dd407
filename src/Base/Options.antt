-- ===== src/Base/Options.antt =====
-- `do` blocks over Option, where `none` stands for a fault of the program.
use otservpp.Base.Tests.{if◌then◌else◌}
use mathlib.Core.Path.{◌≡◌, refl}
use mathlib.Core.Bool.{Bool, true, false}
use mathlib.Core.Option.{Option, none, some}

infixl 5 ◌>>=◌
abbrev pub ◌>>=◌ {ℓ κ} : {A : Type ℓ} {B : Type κ} → Option A → (A → Option B) → Option B
none >>= f = none
some a >>= f = f a

-- A predicate on the value, if there is one.
abbrev pub Always : {A : Type 0} → (A → Type 0) → Option A → Type 0
Always P none = Unit
Always P (some a) = P a

pub Always-bind :
    {A B : Type 0} (P : A → Type 0) (Q : B → Type 0) (o : Option A) (f : A → Option B)
    → Always P o
    → ((a : A) → P a → Always Q (f a))
    → Always Q (o >>= f)
Always-bind P Q none f h k = tt
Always-bind P Q (some a) f h k = k a h

pub Always-if :
    {A : Type 0} (P : A → Type 0) (b : Bool) (x y : Option A)
    → (b ≡ true → Always P x)
    → (b ≡ false → Always P y)
    → Always P (if b then x else y)
Always-if P true x y h k = h refl
Always-if P false x y h k = k refl

pub Always-map :
    {A : Type 0} (P Q : A → Type 0) (o : Option A) → ((a : A) → P a → Q a) → Always P o → Always Q o
Always-map P Q none f h = tt
Always-map P Q (some a) f h = f a h
