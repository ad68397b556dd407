-- ===== src/Sql/Errors.antt =====
-- The error codes of sql/error.hpp, as mysql::Service posts them, and SqlErrorCategory. The codes of the
-- client library are a record.
pub mod Enumerators
pub mod Distinct
use Prim.Native.String.{String}
use mathlib.Core.Logic.{◌≢◌}
use otservpp.Base.{ℕ, ◌+◌, ◌≤◌, ◌≡◌, refl, sym, ap, arith}
use otservpp.Sql.Mysql.{Error, statement_error, bad_field_count, result_is_too_big, out_of_memory}

-- CR_ERROR_LAST and CR_OUT_OF_MEMORY.
pub record ClientCodes : Type 0 where
  pub error_last : ℕ
  pub out_of_memory_code : ℕ

-- `static_cast<int>(e)`, where the errors of a statement are codes already.
unfoldable pub error_code : ClientCodes → Error → ℕ
error_code c (statement_error n) = n
error_code c bad_field_count = c.error_last + 1
error_code c result_is_too_big = c.error_last + 2
error_code c out_of_memory = c.out_of_memory_code

unfoldable pub name : String
name = "mysql"

unfoldable pub message : ℕ → String
message e = "error messages not yet implemented"

-- An error of a statement that is one of the client's codes, and not the one for lack of memory.
abbrev pub IsClientError : ClientCodes → Error → Type 0
IsClientError c (statement_error n) = (n ≤ c.error_last) × (n ≢ c.out_of_memory_code)
IsClientError c bad_field_count = Unit
IsClientError c result_is_too_big = Unit
IsClientError c out_of_memory = Unit

-- A handler can tell the errors apart by their codes.
pub error_code_injective :
    (c : ClientCodes) (e f : Error)
    → c.out_of_memory_code ≤ c.error_last
    → IsClientError c e
    → IsClientError c f
    → error_code c e ≡ error_code c f
    → e ≡ f
unfolding error_code
error_code_injective c (statement_error n) (statement_error m) o h g e = ap statement_error e
error_code_injective c (statement_error n) bad_field_count o h g e = absurd (omega (arith, h.0))
error_code_injective c (statement_error n) result_is_too_big o h g e = absurd (omega (arith, h.0))
error_code_injective c (statement_error n) out_of_memory o h g e = absurd (h.1 e)
error_code_injective c bad_field_count (statement_error m) o h g e = absurd (omega (arith, g.0))
error_code_injective c bad_field_count bad_field_count o h g e = refl
error_code_injective c bad_field_count result_is_too_big o h g e = absurd (omega arith)
error_code_injective c bad_field_count out_of_memory o h g e = absurd (omega arith)
error_code_injective c result_is_too_big (statement_error m) o h g e = absurd (omega (arith, g.0))
error_code_injective c result_is_too_big bad_field_count o h g e = absurd (omega arith)
error_code_injective c result_is_too_big result_is_too_big o h g e = refl
error_code_injective c result_is_too_big out_of_memory o h g e = absurd (omega arith)
error_code_injective c out_of_memory (statement_error m) o h g e = absurd (g.1 (sym e))
error_code_injective c out_of_memory bad_field_count o h g e = absurd (omega arith)
error_code_injective c out_of_memory result_is_too_big o h g e = absurd (omega arith)
error_code_injective c out_of_memory out_of_memory o h g e = refl
