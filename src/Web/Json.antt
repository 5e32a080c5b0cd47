-- ===== src/Web/Json.antt =====
-- JSON values and their accessors (src/web/json.h and json.cpp). What the C library and the
-- processor do with doubles is a parameter: a double is its 64 bits.
pub mod Runs
pub mod Writer
pub mod Text
pub mod Number
pub mod Parser
pub mod Limits
pub mod RoundTrip
use memory_tools.Prelude.{
  ℕ, ◌*◌, suc, ◌≤◌, ◌<◌, ◌^◌, ◌≡◌, Bool, true, false, Option, none, some, Bytes, bytes_eq,
  if◌then◌else◌, length, ℤ, pos, negsuc,
}

abbrev pub max_depth : ℕ
max_depth = 32

abbrev pub max_string : ℕ
max_string = 4096

abbrev pub max_input : ℕ
max_input = 64 * 1024

abbrev pub max_number_chars : ℕ
max_number_chars = 64

-- `Items` and `Fields` are the vectors inside an array and an object.
mutual
  pub data JsonValue : Type 0 where
    null : JsonValue
    bool : Bool → JsonValue
    int : ℤ → JsonValue
    uint : ℕ → JsonValue
    double : ℕ → JsonValue
    string : Bytes → JsonValue
    array : Items → JsonValue
    object : Fields → JsonValue

  pub data Items : Type 0 where
    no_items : Items
    item : JsonValue → Items → Items

  pub data Fields : Type 0 where
    no_fields : Fields
    field : Bytes → JsonValue → Fields → Fields

pub data JsonType : Type 0 where
  null_type bool_type int_type uint_type double_type string_type array_type object_type : JsonType

unfoldable pub json_type : JsonValue → JsonType
json_type null = null_type
json_type (bool b) = bool_type
json_type (int i) = int_type
json_type (uint u) = uint_type
json_type (double d) = double_type
json_type (string s) = string_type
json_type (array xs) = array_type
json_type (object fs) = object_type

-- `strtod` is none when it reports a range error or does not read the whole text; `print15` and
-- `print17` are `%.15g` and `%.17g`; `same` is `==` on doubles.
pub record Doubles : Type 0 where
  pub strtod : Bytes → Option ℕ
  pub print15 : ℕ → Bytes
  pub print17 : ℕ → Bytes
  pub same : ℕ → ℕ → Bool
  pub from_int : ℤ → ℕ
  pub from_uint : ℕ → ℕ

unfoldable pub as_bool : JsonValue → Bool → Bool
as_bool (bool b) def = b
as_bool _ def = def

unfoldable pub as_int : JsonValue → ℤ → ℤ
as_int (int i) def = i
as_int _ def = def

unfoldable pub as_uint : JsonValue → ℕ → ℕ
as_uint (uint u) def = u
as_uint _ def = def

unfoldable pub as_double : Doubles → JsonValue → ℕ → ℕ
as_double c (double d) def = d
as_double c (int i) def = c.from_int i
as_double c (uint u) def = c.from_uint u
as_double c _ def = def

unfoldable pub as_string : JsonValue → Option Bytes
as_string (string s) = some s
as_string _ = none

unfoldable pub as_array : JsonValue → Option Items
as_array (array xs) = some xs
as_array _ = none

unfoldable pub as_object : JsonValue → Option Fields
as_object (object fs) = some fs
as_object _ = none

-- The loop of `get`: a later key of the same name replaces what was found.
unfoldable pub find_last : Bytes → Fields → Option JsonValue → Option JsonValue
find_last key no_fields found = found
find_last key (field k v fs) found = find_last key fs (if bytes_eq k key then some v else found)

get_in : Bytes → Option Fields → Option JsonValue
get_in key none = none
get_in key (some fs) = find_last key fs none

unfoldable pub get : JsonValue → Bytes → Option JsonValue
unfolding get_in
get v key = get_in key (as_object v)
