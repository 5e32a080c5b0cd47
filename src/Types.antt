-- ===== src/Types.antt =====
-- The data types of the scanner and the order of their values (src/types.h). A `Value` is its 64
-- bits. The order of floating-point numbers is the processor's, and is a parameter.
pub mod Order
pub mod Text
pub mod RoundTrip
pub mod ByteOrder
use Prim.Native.Nat.{Ordering}
use memory_tools.Prelude.{
  ℕ, zero, suc, ◌+◌, ◌-◌, ◌*◌, ◌/◌, ◌%◌, ◌^◌, ◌≡◌, Bool, true, false, ◌||◌, List, [], ◌∷◌, Option,
  none, some, Bytes, codes, bytes_eq, ltb, if◌then◌else◌, min, take, ℤ, pos, negsuc, ltb_ℤ, ◌==◌,
  leb,
}

pub data DataType : Type 0 where
  i8 u8 i16 u16 i32 u32 i64 u64 f32 f64 ptr : DataType
  string bytes : DataType

unfoldable pub type_is_dynamic : DataType → Bool
type_is_dynamic string = true
type_is_dynamic bytes = true
type_is_dynamic _ = false

unfoldable pub type_size : DataType → ℕ
type_size i8 = 1
type_size u8 = 1
type_size i16 = 2
type_size u16 = 2
type_size i32 = 4
type_size u32 = 4
type_size f32 = 4
type_size i64 = 8
type_size u64 = 8
type_size f64 = 8
type_size ptr = 8
type_size string = 1
type_size bytes = 1

unfoldable pub type_is_float : DataType → Bool
type_is_float f32 = true
type_is_float f64 = true
type_is_float _ = false

unfoldable pub type_name : DataType → Bytes
type_name i8 = codes "int8"
type_name u8 = codes "uint8"
type_name i16 = codes "int16"
type_name u16 = codes "uint16"
type_name i32 = codes "int32"
type_name u32 = codes "uint32"
type_name i64 = codes "int64"
type_name u64 = codes "uint64"
type_name f32 = codes "float"
type_name f64 = codes "double"
type_name ptr = codes "pointer"
type_name string = codes "string"
type_name bytes = codes "bytes"

abbrev aliases : List (Bytes × DataType)
aliases =
    (codes "i8", i8)
    ∷ (codes "int8", i8)
    ∷ (codes "s8", i8)
    ∷ (codes "u8", u8)
    ∷ (codes "uint8", u8)
    ∷ (codes "byte", u8)
    ∷ (codes "i16", i16)
    ∷ (codes "int16", i16)
    ∷ (codes "s16", i16)
    ∷ (codes "u16", u16)
    ∷ (codes "uint16", u16)
    ∷ (codes "i32", i32)
    ∷ (codes "int32", i32)
    ∷ (codes "int", i32)
    ∷ (codes "u32", u32)
    ∷ (codes "uint32", u32)
    ∷ (codes "uint", u32)
    ∷ (codes "i64", i64)
    ∷ (codes "int64", i64)
    ∷ (codes "long", i64)
    ∷ (codes "u64", u64)
    ∷ (codes "uint64", u64)
    ∷ (codes "ulong", u64)
    ∷ (codes "f32", f32)
    ∷ (codes "float", f32)
    ∷ (codes "f64", f64)
    ∷ (codes "double", f64)
    ∷ (codes "ptr", ptr)
    ∷ (codes "pointer", ptr)
    ∷ []

find_alias : Bytes → List (Bytes × DataType) → Option DataType
find_alias s [] = none
find_alias s ((name, t) ∷ rest) = if bytes_eq s name then some t else find_alias s rest

unfoldable pub parse_type : Bytes → Option DataType
unfolding find_alias bytes_eq
parse_type s = find_alias s aliases

-- `memcpy` of little-endian bytes into a word that is 0 before.
unfoldable pub le_value : Bytes → ℕ
le_value [] = 0
le_value (b ∷ bs) = b + 256 * le_value bs

unfoldable pub value_from_bytes : Bytes → ℕ → ℕ
unfolding le_value
value_from_bytes p w = le_value (take (min w 8) p)

-- The first `w` bytes of a value in memory.
unfoldable pub value_bytes : ℕ → ℕ → Bytes
value_bytes zero v = []
value_bytes (suc w) v = v % 256 ∷ value_bytes w (v / 256)

-- The number that a two's-complement pattern of `w` bits stands for.
abbrev pub signed : ℕ → ℕ → ℤ
signed w v =
    let low = v % 2 ^ w in if ltb low (2 ^ (w - 1)) then pos low else negsuc (2 ^ w - low - 1)

unfoldable pub value_as_int : ℕ → DataType → ℤ
value_as_int v i8 = signed 8 v
value_as_int v u8 = pos (v % 2 ^ 8)
value_as_int v i16 = signed 16 v
value_as_int v u16 = pos (v % 2 ^ 16)
value_as_int v i32 = signed 32 v
value_as_int v u32 = pos (v % 2 ^ 32)
value_as_int v i64 = signed 64 v
value_as_int v u64 = signed 64 v
value_as_int v ptr = signed 64 v
value_as_int v _ = pos 0

-- The conversion of an `int64_t` to `uint64_t`.
abbrev pub unsigned : ℤ → ℕ
unsigned (pos n) = n % 2 ^ 64
unsigned (negsuc n) = 2 ^ 64 - 1 - n % 2 ^ 64

unfoldable pub value_as_uint : ℕ → DataType → ℕ
unfolding value_as_int
value_as_uint v u8 = v % 2 ^ 8
value_as_uint v u16 = v % 2 ^ 16
value_as_uint v u32 = v % 2 ^ 32
value_as_uint v u64 = v
value_as_uint v ptr = v
value_as_uint v t = unsigned (value_as_int v t)

-- The order of the numbers that two bit patterns of type f32 or f64 stand for. A NaN is below
-- nothing and above nothing.
pub record Floats : Type 0 where
  pub less : DataType → ℕ → ℕ → Bool
  pub less_asymm : (t : DataType) (a b : ℕ) → less t a b ≡ true → less t b a ≡ false

-- -1, 0 and 1.
abbrev three_way : Bool → Bool → Ordering
three_way less more = if less then Ordering.lt else if more then Ordering.gt else Ordering.eq

abbrev pub sign_order : ℤ → ℤ → Ordering
sign_order x y = three_way (ltb_ℤ x y) (ltb_ℤ y x)

abbrev pub nat_order : ℕ → ℕ → Ordering
nat_order x y = three_way (ltb x y) (ltb y x)

-- The results -1, 0 and 1 are `lt`, `eq` and `gt`.
unfoldable pub value_compare : Floats → ℕ → ℕ → DataType → Ordering
unfolding value_as_int value_as_uint
value_compare fl a b f32 = three_way (fl.less f32 a b) (fl.less f32 b a)
value_compare fl a b f64 = three_way (fl.less f64 a b) (fl.less f64 b a)
value_compare fl a b i8 = sign_order (value_as_int a i8) (value_as_int b i8)
value_compare fl a b i16 = sign_order (value_as_int a i16) (value_as_int b i16)
value_compare fl a b i32 = sign_order (value_as_int a i32) (value_as_int b i32)
value_compare fl a b i64 = sign_order (value_as_int a i64) (value_as_int b i64)
value_compare fl a b t = nat_order (value_as_uint a t) (value_as_uint b t)

abbrev pub is_eq : Ordering → Bool
is_eq Ordering.eq = true
is_eq _ = false

unfoldable pub value_equal : Floats → ℕ → ℕ → DataType → Bool
unfolding value_compare
value_equal fl a b t = is_eq (value_compare fl a b t)
