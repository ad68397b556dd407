-- ===== src/Lambdas.antt =====
-- The function objects of lambdautil.hpp: Lambda with its captures, and ScopedOperation. Values of all types
-- are of one type here.
pub mod Laws
pub mod Traits
use otservpp.Base.{ℕ, List, [], ◌∷◌, ◌++◌, Bool, true, false, map, if◌then◌else◌}

-- A capture: its value, and whether it was given as an rvalue, so that it is moved out by a call.
pub record Capture (A : Type 0) : Type 0 where
  pub value : A
  pub is_rvalue : Bool

pub record Lambda (A R : Type 0) : Type 0 where
  pub captures : List (Capture A)
  pub lambda : List A → R

abbrev pub arguments : {A : Type 0} → List (Capture A) → List A
arguments = map (λ c. c.value)

-- `moved_from` is what a value is after it was moved out.
unfoldable pub forward : {A : Type 0} → (A → A) → Capture A → Capture A
forward moved_from c = if c.is_rvalue then record c { value = moved_from c.value } else c

unfoldable pub lambda_bind : {A R : Type 0} → (List A → R) → List (Capture A) → Lambda A R
lambda_bind lambda args = record { captures = args; lambda = lambda }

-- The call: its result, and the object by then, where the lambda takes its parameters by value.
unfoldable pub call : {A R : Type 0} → (A → A) → Lambda A R → List A → R × Lambda A R
unfolding forward
call moved_from self args = (
  self.lambda (arguments self.captures ++ args),
  record self { captures = map (forward moved_from) self.captures },
)

-- How a block ends.
pub data Ended (S : Type 0) : Type 0 where
  leaves : S → Ended S
  throws : S → Ended S

-- A block that begins with `makeScopedOperation(enter, exit)`: where `enter` throws, there is no object
-- whose destructor is to be run.
unfoldable pub scoped : {S : Type 0} → (S → Ended S) → (S → S) → (S → Ended S) → S → Ended S
scoped enter exit body s = elim (enter s) [
  | throws s' ↦ throws s'
  | leaves s' ↦ elim (body s') [ leaves t ↦ leaves (exit t) | throws t ↦ throws (exit t) ]
]
