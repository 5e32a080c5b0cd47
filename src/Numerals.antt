-- ===== src/Numerals.antt =====
-- Numbers as texts: the conversions of the C library that the program calls (`std::to_string`,
-- `printf` and the `strto` functions), as far as it uses them.
pub mod ReadBack
use memory_tools.Pattern.{hex_value}
use memory_tools.Prelude.{
  true, false, ℕ, zero, suc, ◌+◌, ◌-◌, ◌*◌, ◌/◌, ◌%◌, ◌^◌, Bool, Option, none, some, [], ◌∷◌, ◌++◌,
  Bytes, ltb, if◌then◌else◌, head_is, tail, ℤ, pos, negsuc,
}

-- The decimal digits of `n` before `out`, as far as the fuel goes: one unit for each digit.
unfoldable pub decimal : ℕ → ℕ → Bytes → Bytes
decimal zero n out = out
decimal (suc f) n out =
    let more = decimal f (n / 10) ((b'0' + n % 10) ∷ out) in
    if ltb n 10 then (b'0' + n) ∷ out else more

-- `std::to_string` of an unsigned and of a signed number: 2^64 has 20 digits.
unfoldable pub print_nat : ℕ → Bytes
print_nat n = decimal 20 n []

unfoldable pub print_int : ℤ → Bytes
print_int (pos n) = print_nat n
print_int (negsuc n) = b'-' ∷ print_nat (suc n)

unfoldable pub hex_lower : ℕ → ℕ
hex_lower d = if ltb d 10 then b'0' + d else b'a' + (d - 10)

-- The last `k` hexadecimal digits of `n` before `out`.
unfoldable pub hex_digits : ℕ → ℕ → Bytes → Bytes
hex_digits zero n out = out
hex_digits (suc k) n out = hex_digits k (n / 16) (hex_lower (n % 16) ∷ out)

-- `0x%016llx`.
unfoldable pub hex16 : ℕ → Bytes
hex16 n = b'0' ∷ b'x' ∷ hex_digits 16 n []

unfoldable pub digit_value : ℕ → Option ℕ → ℕ → Option ℕ
digit_value base none n = none
digit_value base (some d) n = if ltb d base then some (n * base + d) else none

abbrev pub based_next : Option ℕ → (ℕ → Option ℕ) → Option ℕ
based_next none again = none
based_next (some n) again = again n

-- The value of a text that is digits of a base and nothing else, behind `n`.
unfoldable pub based_value : ℕ → ℕ → Bytes → Option ℕ
based_value base n [] = some n
based_value base n (c ∷ cs) =
    based_next (digit_value base (hex_value c) n) λ m. based_value base m cs

-- ERANGE from 2^64 on; a minus sign negates in 64 bits.
abbrev pub in_range : Bool → Option ℕ → Option ℕ
in_range negative none = none
in_range negative (some v) =
    if ltb v (2 ^ 64) then some (if negative then (2 ^ 64 - v) % 2 ^ 64 else v) else none

abbrev pub skip_plus : Bytes → Bytes
skip_plus s = if head_is b'+' s then tail s else s

-- What `strtoll` gives of a number that is `m` with its sign taken off; none is ERANGE.
unfoldable pub signed_value : Bool → ℕ → Option ℤ
signed_value false m = if ltb m (2 ^ 63) then some (pos m) else none
signed_value true zero = some (pos zero)
signed_value true (suc m) = if ltb m (2 ^ 63) then some (negsuc m) else none
