-- ===== src/Types/RoundTrip.antt =====
-- Printing a value of an integer type and reading it back.
use memory_tools.Numerals.{
  decimal, print_nat, print_int, hex_lower, hex_digits, hex16, based_value, signed_value,
}
use memory_tools.Numerals.ReadBack.{
  based_value-print_nat, based_value-hex_digits, is_nil-hex_digits,
}
use memory_tools.Prelude.{
  ℕ, zero, suc, ◌+◌, ◌-◌, ◌*◌, ◌/◌, ◌%◌, ◌^◌, ◌≤◌, ◌<◌, ◌≡◌, refl, ap, ◌∙◌, false, some, [], ◌∷◌,
  Bytes, All, ltb, lt→ltb, ltb→le, if◌then◌else◌, arith, is_blank, is_nil, head_is, skip_blanks,
  c_string, ℤ, pos, negsuc, Bool-cases, inl, inr,
}
use memory_tools.Types.{
  DataType, i8, u8, i16, u16, i32, u32, i64, u64, f32, f64, ptr, string, bytes, signed,
  value_as_int, value_as_uint, type_size, type_is_float, type_is_dynamic,
}
use memory_tools.Types.Text.{
  FloatTexts, has_hex_prefix, text_base, magnitude_in, strtoull_in, strtoll_in, unsigned_bits,
  signed_bits, parse_unsigned, parse_signed, parse_by_type, parse_value, value_to_string,
}

abbrev pub IsDigit : ℕ → Type 0
IsDigit c = (b'0' ≤ c) × (c ≤ b'9')

decimal-IsDigit : (f n : ℕ) (out : Bytes) → All IsDigit out → All IsDigit (decimal f n out)
unfolding decimal
decimal-IsDigit zero n out h = h
decimal-IsDigit (suc f) n out h = elim (Bool-cases (ltb n 10)) [
  | inl e ↦ rw e ((omega arith, ground arith), h)
  | inr e ↦
      rw e (decimal-IsDigit f (n / 10) ((b'0' + n % 10) ∷ out) ((omega arith, omega arith), h))
]

is_nil-decimal : (f n : ℕ) (out : Bytes) → is_nil out ≡ false → is_nil (decimal f n out) ≡ false
unfolding decimal
is_nil-decimal zero n out h = h
is_nil-decimal (suc f) n out h =
    ground (arith, is_nil-decimal f (n / 10) ((b'0' + n % 10) ∷ out) refl)

some_decimal : (f n : ℕ) → is_nil (decimal (suc f) n []) ≡ false
unfolding decimal
some_decimal f n = ground (arith, is_nil-decimal f (n / 10) ((b'0' + n % 10) ∷ []) refl)

c_string-IsDigit : (s : Bytes) → All IsDigit s → c_string s ≡ s
unfolding c_string
c_string-IsDigit [] h = refl
c_string-IsDigit (c ∷ cs) h = ground (arith, c_string-IsDigit cs h.1, h.0.0)

-- What the readers see of a text of digits: no blank, no sign and no prefix.
record Digits (s : Bytes) : Type 0 where
  whole : c_string s ≡ s
  blanks : skip_blanks s ≡ s
  minus : head_is b'-' s ≡ false
  plus : head_is b'+' s ≡ false
  prefix : has_hex_prefix s ≡ false

IsDigit-Digits : (s : Bytes) → All IsDigit s → Digits s
unfolding skip_blanks is_blank head_is has_hex_prefix
IsDigit-Digits [] h = record {
  whole = c_string-IsDigit [] tt;
  blanks = refl;
  minus = refl;
  plus = refl;
  prefix = refl;
}
IsDigit-Digits (c ∷ []) h = record {
  whole = c_string-IsDigit (c ∷ []) h;
  blanks = ground (arith, h.0.0, h.0.1);
  minus = ground (arith, h.0.0, h.0.1);
  plus = ground (arith, h.0.0, h.0.1);
  prefix = refl;
}
IsDigit-Digits (c ∷ d ∷ cs) h = record {
  whole = c_string-IsDigit (c ∷ d ∷ cs) h;
  blanks = ground (arith, h.0.0, h.0.1);
  minus = ground (arith, h.0.0, h.0.1);
  plus = ground (arith, h.0.0, h.0.1);
  prefix = ground (arith, h.1.0.0, h.1.0.1);
}

pub print_nat-IsDigit : (n : ℕ) → All IsDigit (print_nat n)
unfolding print_nat
print_nat-IsDigit n = decimal-IsDigit 20 n [] tt

print_nat-Digits : (n : ℕ) → Digits (print_nat n)
unfolding print_nat
print_nat-Digits n = IsDigit-Digits (decimal 20 n []) (decimal-IsDigit 20 n [] tt)

pub some_print_nat : (n : ℕ) → is_nil (print_nat n) ≡ false
unfolding print_nat
some_print_nat n = some_decimal 19 n

magnitude_in-print_nat : (n : ℕ) → n < 2 ^ 64 → magnitude_in 10 (print_nat n) ≡ some n
unfolding magnitude_in
magnitude_in-print_nat n h = rw (some_print_nat n, based_value-print_nat n h) refl

pub strtoull_in-print_nat : (n : ℕ) → n < 2 ^ 64 → strtoull_in 10 (print_nat n) ≡ some n
unfolding strtoull_in
strtoull_in-print_nat n h =
    let d = print_nat-Digits n in
    rw (d.whole, d.blanks, d.minus, d.plus, magnitude_in-print_nat n h, lt→ltb n (2 ^ 64) h) refl

parse_unsigned-print_nat :
    (w n : ℕ) → w ≤ 64 → n < 2 ^ 64 → n < 2 ^ w → parse_unsigned w (print_nat n) ≡ some n
unfolding parse_unsigned text_base unsigned_bits
parse_unsigned-print_nat w n hw h k =
    let d = print_nat-Digits n in
    rw (d.minus, d.plus, d.prefix, strtoull_in-print_nat n h, lt→ltb n (2 ^ w) k) refl

unsigned_back :
    (w v low : ℕ)
    → w ≤ 64
    → v < 2 ^ w
    → v < 2 ^ 64
    → low ≡ v
    → parse_unsigned w (print_nat low) ≡ some v
unsigned_back w v low hw h k e = rw (e) (parse_unsigned-print_nat w v hw k h)

abbrev FitsInt64 : ℤ → Type 0
FitsInt64 (pos n) = n < 2 ^ 63
FitsInt64 (negsuc n) = n < 2 ^ 63

strtoll_in-print_int :
    (i : ℤ) → FitsInt64 i → strtoll_in (text_base (print_int i)) (print_int i) ≡ some i
unfolding strtoll_in text_base print_int signed_value
strtoll_in-print_int (pos n) h =
    let d = print_nat-Digits n in
    rw
      (
        d.minus,
        d.plus,
        d.prefix,
        d.whole,
        d.blanks,
        d.minus,
        d.plus,
        magnitude_in-print_nat n (omega arith),
        lt→ltb n (2 ^ 63) h,
      )
      refl
strtoll_in-print_int (negsuc n) h =
    let d = print_nat-Digits (suc n) in
    unfold c_string skip_blanks is_blank head_is in
    rw (d.prefix, d.whole, magnitude_in-print_nat (suc n) (omega arith), lt→ltb n (2 ^ 63) h) refl

abbrev signed_of : ℕ → ℕ → ℤ
signed_of w low = if ltb low (2 ^ (w - 1)) then pos low else negsuc (2 ^ w - low - 1)

-- The number that a pattern of `w` bits stands for has that pattern.
signed_bits-signed_of :
    (w low : ℕ)
    → 2 ^ w ≡ 2 * 2 ^ (w - 1)
    → 2 ^ w ≤ 2 ^ 64
    → low < 2 ^ w
    → FitsInt64 (signed_of w low) × (signed_bits w (signed_of w low) ≡ some low)
unfolding signed_bits
signed_bits-signed_of w low double small h = elim (Bool-cases (ltb low (2 ^ (w - 1)))) [
  | inl e ↦ rw (e, e) (ground arith, refl)
  | inr e ↦
      let above = ltb→le low (2 ^ (w - 1)) e in
      rw (e, lt→ltb (2 ^ w - low - 1) (2 ^ (w - 1)) (omega arith))
        (omega arith, ap some (omega arith))
]

parse_signed-print_int :
    (w v low : ℕ)
    → 2 ^ w ≡ 2 * 2 ^ (w - 1)
    → 2 ^ w ≤ 2 ^ 64
    → v < 2 ^ w
    → low ≡ v
    → parse_signed w (print_int (signed_of w low)) ≡ some v
unfolding parse_signed
parse_signed-print_int w v low double small h e =
    let s = signed_bits-signed_of w low double small (omega arith) in
    rw (strtoll_in-print_int (signed_of w low) s.0, s.1, e) refl

some_print_int : (i : ℤ) → is_nil (print_int i) ≡ false
unfolding print_int
some_print_int (pos n) = some_print_nat n
some_print_int (negsuc n) = refl

-- The type has a fixed size and is not a float.
abbrev pub IsInteger : DataType → Type 0
IsInteger t = (type_is_float t ≡ false) × (type_is_dynamic t ≡ false)

hex_digits-c_string :
    (k n : ℕ) (out : Bytes)
    → c_string out ≡ out
    → c_string (hex_digits k n out) ≡ hex_digits k n out
unfolding hex_digits c_string hex_lower
hex_digits-c_string zero n out h = h
hex_digits-c_string (suc k) n out h =
    hex_digits-c_string k (n / 16) (hex_lower (n % 16) ∷ out) (ground (arith, h))

unsigned_bits_of : (v : ℕ) → v < 2 ^ 64 → unsigned_bits 64 v ≡ some v
unfolding unsigned_bits
unsigned_bits_of v h = rw (lt→ltb v (2 ^ 64) h) refl

parse_unsigned-hex16 : (v : ℕ) → v < 2 ^ 64 → parse_unsigned 64 (hex16 v) ≡ some v
unfolding parse_unsigned strtoull_in text_base unsigned_bits hex16 head_is has_hex_prefix
    magnitude_in c_string skip_blanks is_blank
parse_unsigned-hex16 v h =
    let digits = hex_digits 16 v [] in
    let some_digit : is_nil digits ≡ false =
      unfold hex_digits in is_nil-hex_digits 15 (v / 16) (hex_lower (v % 16) ∷ []) refl in
    let value : based_value 16 0 digits ≡ some v =
      based_value-hex_digits 16 v [] (omega arith) ∙ (unfold based_value in refl) in
    rw (hex_digits-c_string 16 v [] refl, some_digit, value, lt→ltb v (2 ^ 64) h)
      (unsigned_bits_of v h)

-- A value of an integer or pointer type that fits its size is read back from the text that it is
-- printed as.
pub parse_value-value_to_string :
    (fl : FloatTexts) (v : ℕ) (t : DataType)
    → IsInteger t
    → v < 2 ^ (8 * type_size t)
    → parse_value fl (value_to_string fl v t) t ≡ some v
unfolding parse_value parse_by_type value_to_string value_as_int value_as_uint type_size
    type_is_float type_is_dynamic
parse_value-value_to_string fl v i8 h k =
    rw (some_print_int (signed 8 v))
      (parse_signed-print_int 8 v (v % 2 ^ 8) refl (omega arith) k (omega arith))
parse_value-value_to_string fl v i16 h k =
    rw (some_print_int (signed 16 v))
      (parse_signed-print_int 16 v (v % 2 ^ 16) refl (omega arith) k (omega arith))
parse_value-value_to_string fl v i32 h k =
    rw (some_print_int (signed 32 v))
      (parse_signed-print_int 32 v (v % 2 ^ 32) refl (omega arith) k (omega arith))
parse_value-value_to_string fl v i64 h k =
    rw (some_print_int (signed 64 v))
      (parse_signed-print_int 64 v (v % 2 ^ 64) refl (omega arith) k (omega arith))
parse_value-value_to_string fl v u8 h k =
    rw (some_print_nat (v % 2 ^ 8))
      (unsigned_back 8 v (v % 2 ^ 8) (omega arith) k (omega arith) (omega arith))
parse_value-value_to_string fl v u16 h k =
    rw (some_print_nat (v % 2 ^ 16))
      (unsigned_back 16 v (v % 2 ^ 16) (omega arith) k (omega arith) (omega arith))
parse_value-value_to_string fl v u32 h k =
    rw (some_print_nat (v % 2 ^ 32))
      (unsigned_back 32 v (v % 2 ^ 32) (omega arith) k (omega arith) (omega arith))
parse_value-value_to_string fl v u64 h k =
    rw (some_print_nat v) (parse_unsigned-print_nat 64 v (omega arith) k k)
parse_value-value_to_string fl v ptr h k = unfold hex16 in parse_unsigned-hex16 v k
parse_value-value_to_string fl v f32 h k = cc (h.0)
parse_value-value_to_string fl v f64 h k = cc (h.0)
parse_value-value_to_string fl v string h k = cc (h.1)
parse_value-value_to_string fl v bytes h k = cc (h.1)
