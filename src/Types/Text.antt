-- ===== src/Types/Text.antt =====
-- Values as texts (`parse_value` and `value_to_string` of src/types.h). What the C library does with
-- the texts of floats is a parameter.
use memory_tools.Numerals.{
  print_nat, print_int, hex16, based_value, in_range, skip_plus, signed_value,
}
use memory_tools.Prelude.{
  ℕ, ◌-◌, ◌^◌, Bool, true, false, ◌&&◌, ◌||◌, Option, none, some, [], ◌∷◌, Bytes, ◌==◌, ltb,
  if◌then◌else◌, drop, tail, is_nil, head_is, skip_blanks, c_string, and_then, ℤ, pos, negsuc,
}
use memory_tools.Types.{
  DataType, i8, u8, i16, u16, i32, u32, i64, u64, f32, f64, ptr, value_as_int, value_as_uint,
}

-- `strtod` and the tests after it, on a C string: the 64 bits of the double, none where the text is
-- not read whole or the number is too large; `narrow` is the conversion to `float`, and `print` is
-- `%.6g` of a value of type f32 or f64.
pub record FloatTexts : Type 0 where
  pub strtod : Bytes → Option ℕ
  pub narrow : ℕ → ℕ
  pub print : DataType → ℕ → Bytes

abbrev pub skip_sign : Bytes → Bytes
skip_sign s = if head_is b'-' s || head_is b'+' s then tail s else s

unfoldable pub has_hex_prefix : Bytes → Bool
has_hex_prefix [] = false
has_hex_prefix (c ∷ []) = false
has_hex_prefix (c ∷ d ∷ cs) = c == b'0' && (d == b'x' || d == b'X')

unfoldable pub text_base : Bytes → ℕ
text_base text = if has_hex_prefix (skip_sign text) then 16 else 10

abbrev pub whole_value : ℕ → Bytes → Option ℕ
whole_value base s = if is_nil s then none else based_value base 0 s

-- The digits after the sign; base 16 allows a prefix.
unfoldable pub magnitude_in : ℕ → Bytes → Option ℕ
magnitude_in base s =
    if base == 16 && has_hex_prefix s then whole_value 16 (drop 2 s) else whole_value base s

-- `strtoull` and `strtoll` with a base and the tests after them: none where the C string is not read
-- whole, or on ERANGE.
unfoldable pub strtoull_in : ℕ → Bytes → Option ℕ
strtoull_in base text =
    let s = skip_blanks (c_string text) in
    if head_is b'-' s
    then in_range true (magnitude_in base (tail s))
    else in_range false (magnitude_in base (skip_plus s))

unfoldable pub strtoll_in : ℕ → Bytes → Option ℤ
strtoll_in base text =
    let s = skip_blanks (c_string text) in
    if head_is b'-' s
    then and_then (magnitude_in base (tail s)) (signed_value true)
    else and_then (magnitude_in base (skip_plus s)) (signed_value false)

-- The value in `w` bits, where it fits.
unfoldable pub unsigned_bits : ℕ → ℕ → Option ℕ
unsigned_bits w u = if ltb u (2 ^ w) then some u else none

unfoldable pub signed_bits : ℕ → ℤ → Option ℕ
signed_bits w (pos n) = if ltb n (2 ^ (w - 1)) then some n else none
signed_bits w (negsuc n) = if ltb n (2 ^ (w - 1)) then some (2 ^ w - 1 - n) else none

unfoldable pub parse_unsigned : ℕ → Bytes → Option ℕ
parse_unsigned w text =
    if head_is b'-' text
    then none
    else and_then (strtoull_in (text_base text) text) (unsigned_bits w)

unfoldable pub parse_signed : ℕ → Bytes → Option ℕ
parse_signed w text = and_then (strtoll_in (text_base text) text) (signed_bits w)

unfoldable pub parse_by_type : FloatTexts → Bytes → DataType → Option ℕ
parse_by_type fl text f32 = and_then (fl.strtod (c_string text)) λ d. some (fl.narrow d)
parse_by_type fl text f64 = fl.strtod (c_string text)
parse_by_type fl text u8 = parse_unsigned 8 text
parse_by_type fl text u16 = parse_unsigned 16 text
parse_by_type fl text u32 = parse_unsigned 32 text
parse_by_type fl text u64 = parse_unsigned 64 text
parse_by_type fl text ptr = parse_unsigned 64 text
parse_by_type fl text i8 = parse_signed 8 text
parse_by_type fl text i16 = parse_signed 16 text
parse_by_type fl text i32 = parse_signed 32 text
parse_by_type fl text i64 = parse_signed 64 text
parse_by_type fl text _ = none

unfoldable pub parse_value : FloatTexts → Bytes → DataType → Option ℕ
parse_value fl text t = if is_nil text then none else parse_by_type fl text t

unfoldable pub value_to_string : FloatTexts → ℕ → DataType → Bytes
value_to_string fl v f32 = fl.print f32 v
value_to_string fl v f64 = fl.print f64 v
value_to_string fl v u8 = print_nat (value_as_uint v u8)
value_to_string fl v u16 = print_nat (value_as_uint v u16)
value_to_string fl v u32 = print_nat (value_as_uint v u32)
value_to_string fl v u64 = print_nat v
value_to_string fl v ptr = hex16 v
value_to_string fl v t = print_int (value_as_int v t)
