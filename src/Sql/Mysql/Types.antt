-- ===== src/Sql/Mysql/Types.antt =====
-- The null-able values and the binding of one value of sql/mysqltypes.hpp.
use otservpp.Base.{
  ℕ, ◌≡◌, refl, List, Option, none, some, Bool, true, false, not, if◌then◌else◌, length,
}

pub data FieldType : Type 0 where
  tiny : FieldType
  short : FieldType
  long : FieldType
  longlong : FieldType
  string : FieldType
  blob : FieldType
  null_type : FieldType

-- The types of C++ that CppToSql takes, without the floating point ones.
pub data CppType : Type 0 where
  integer : FieldType → Bool → CppType
  std_string : CppType

abbrev pub cpp_to_sql : CppType → FieldType
cpp_to_sql (integer t is_unsigned) = t
cpp_to_sql std_string = string

-- A value of one of these types.
pub data Value : Type 0 where
  integer_value : FieldType → Bool → ℕ → Value
  string_value : List ℕ → Value

abbrev pub type_of : Value → CppType
type_of (integer_value t is_unsigned n) = integer t is_unsigned
type_of (string_value s) = std_string

-- Wrapper.
pub record Wrapper : Type 0 where
  pub value : Value
  pub null : Bool

pub of_null : Value → Wrapper
of_null made = record { value = made; null = true }

pub of_value : Value → Wrapper
of_value v = record { value = v; null = false }

pub is_null : Wrapper → Bool
is_null w = w.null

pub get : Wrapper → Value
get w = w.value

pub assign : Value → Wrapper → Wrapper
assign v w = record { value = v; null = false }

pub assign_null : Wrapper → Wrapper
assign_null w = record w { null = true }

pub to_bool : Wrapper → Bool
to_bool w = not w.null

-- MYSQL_BIND, as far as it is set; a buffer is what stands in it.
pub record Bind : Type 0 where
  pub buffer_type : FieldType
  pub buffer : Option Value
  pub buffer_length : ℕ
  pub is_unsigned : Bool
  pub has_registers : Bool

-- `bindBuffer` of a constant.
unfoldable pub bind_buffer : Value → Bind → Bind
bind_buffer (integer_value t is_unsigned n) b = record b {
  buffer = some (integer_value t is_unsigned n);
  is_unsigned = is_unsigned;
}
bind_buffer (string_value s) b = record b {
  buffer = some (string_value s);
  buffer_length = length s;
}

-- `bindBuffer` of a member that is to be filled: that of a text is fetched later.
unfoldable pub bind_buffer_out : Value → Bind → Bind
bind_buffer_out (integer_value t is_unsigned n) b = record b {
  buffer = some (integer_value t is_unsigned n);
  is_unsigned = is_unsigned;
}
bind_buffer_out (string_value s) b = record b { buffer = none; buffer_length = 0 }

-- The overloads of `bindOne`.
unfoldable pub bind_null : Bind → Bind
bind_null b = record b { buffer_type = null_type }

unfoldable pub bind_one : Value → Bind → Bind
bind_one v b = bind_buffer v (record b { buffer_type = cpp_to_sql (type_of v) })

unfoldable pub bind_wrapper : Wrapper → Bind → Bind
bind_wrapper w b = if is_null w then record b { buffer_type = null_type } else bind_one (get w) b

unfoldable pub bind_blob : Wrapper → Bind → Bind
bind_blob w b = bind_buffer (get w) (record b { buffer_type = blob })

-- `bindOneResult`, for a member, a Wrapper and a Blob.
unfoldable pub bind_one_result : Value → Bind → Bind
bind_one_result v b =
    bind_buffer_out v (record b { buffer_type = cpp_to_sql (type_of v); has_registers = true })

unfoldable pub bind_wrapper_result : Wrapper → Bind → Bind
bind_wrapper_result w b = bind_one_result (get w) b

unfoldable pub bind_blob_result : Wrapper → Bind → Bind
bind_blob_result w b =
    bind_buffer_out (get w) (record b { buffer_type = blob; has_registers = true })

-- What the server is told by a bind of a parameter: a null, or a value.
abbrev pub parameter : Bind → Option Value
parameter b = elim b.buffer_type [ null_type ↦ none | _ ↦ b.buffer ]

-- The field type of a type, which is not the one of a null.
abbrev pub IsSqlType : Value → Type 0
IsSqlType (integer_value null_type is_unsigned n) = ⊥
IsSqlType (integer_value t is_unsigned n) = Unit
IsSqlType (string_value s) = Unit

parameter-bind_one : (v : Value) (b : Bind) → IsSqlType v → parameter (bind_one v b) ≡ some v
unfolding bind_one bind_buffer
parameter-bind_one (integer_value null_type u n) b h = absurd h
parameter-bind_one (integer_value tiny u n) b h = refl
parameter-bind_one (integer_value short u n) b h = refl
parameter-bind_one (integer_value long u n) b h = refl
parameter-bind_one (integer_value longlong u n) b h = refl
parameter-bind_one (integer_value string u n) b h = refl
parameter-bind_one (integer_value blob u n) b h = refl
parameter-bind_one (string_value s) b h = refl

parameter-bind_buffer :
    (v : Value) (b : Bind) → parameter (bind_buffer v (record b { buffer_type = blob })) ≡ some v
unfolding bind_buffer
parameter-bind_buffer (integer_value t u n) b = refl
parameter-bind_buffer (string_value s) b = refl

-- A Wrapper that is null is bound as a null, and one that is not as its value, whatever was assigned
-- to it before; a Blob is bound as the value that stands in it, null or not.
pub bind_wrapper_lem :
    (w : Wrapper) (v : Value) (b : Bind)
    → IsSqlType v
    → (parameter (bind_wrapper (assign v w) b) ≡ some v)
      × (parameter (bind_wrapper (assign_null w) b) ≡ none)
      × (parameter (bind_blob (assign_null (assign v w)) b) ≡ some v)
unfolding bind_wrapper bind_blob bind_buffer assign assign_null is_null get
bind_wrapper_lem w v b h = (parameter-bind_one v b h, refl, parameter-bind_buffer v b)
