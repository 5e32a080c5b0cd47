-- ===== src/Numerals/ReadBack.antt =====
-- Reading back the digits of a number.
use memory_tools.Numerals.{decimal, print_nat, hex_lower, hex_digits, based_value, digit_value}
use memory_tools.Pattern.{hex_value}
use memory_tools.Prelude.{
  ℕ, zero, suc, ◌+◌, ◌*◌, ◌/◌, ◌%◌, ◌^◌, ◌<◌, ◌≡◌, refl, ◌∙◌, false, some, [], ◌∷◌, Bytes, ltb,
  lt→ltb, is_nil, arith, Bool-cases, inl, inr,
}

pub hex_value-hex_lower : (d : ℕ) → d < 16 → hex_value (hex_lower d) ≡ some d
unfolding hex_value hex_lower
hex_value-hex_lower d h = ground arith

pub based_value-hex_lower :
    (m d : ℕ) (out : Bytes)
    → d < 16
    → based_value 16 m (hex_lower d ∷ out) ≡ based_value 16 (m * 16 + d) out
unfolding based_value digit_value
based_value-hex_lower m d out h = rw (hex_value-hex_lower d h, lt→ltb d 16 h) refl

abbrev pub sixteenfold : ℕ → ℕ
sixteenfold zero = 1
sixteenfold (suc k) = 16 * sixteenfold k

pub based_value-hex_digits :
    (k n : ℕ) (out : Bytes)
    → n < sixteenfold k
    → based_value 16 0 (hex_digits k n out) ≡ based_value 16 n out
unfolding hex_digits
based_value-hex_digits zero n out h = ground arith
based_value-hex_digits (suc k) n out h =
    rw
      (
        based_value-hex_digits k (n / 16) (hex_lower (n % 16) ∷ out) (omega arith),
        based_value-hex_lower (n / 16) (n % 16) out (omega arith),
      )
      (ground arith)

pub is_nil-hex_digits :
    (k n : ℕ) (out : Bytes) → is_nil out ≡ false → is_nil (hex_digits k n out) ≡ false
unfolding hex_digits
is_nil-hex_digits zero n out h = h
is_nil-hex_digits (suc k) n out h = is_nil-hex_digits k (n / 16) (hex_lower (n % 16) ∷ out) refl

digit_of : (d : ℕ) → d < 10 → hex_value (b'0' + d) ≡ some d
unfolding hex_value
digit_of d h = ground arith

abbrev tenfold : ℕ → ℕ
tenfold zero = 1
tenfold (suc f) = 10 * tenfold f

based_value-digit :
    (m d : ℕ) (out : Bytes)
    → d < 10
    → based_value 10 m ((b'0' + d) ∷ out) ≡ based_value 10 (m * 10 + d) out
unfolding based_value digit_value
based_value-digit m d out h = rw (digit_of d h, lt→ltb d 10 h) refl

based_value-decimal :
    (f n : ℕ) (out : Bytes)
    → n < tenfold f
    → based_value 10 0 (decimal f n out) ≡ based_value 10 n out
unfolding decimal
based_value-decimal zero n out h = ground arith
based_value-decimal (suc f) n out h = elim (Bool-cases (ltb n 10)) [
  | inl e ↦ rw e (ground (arith, based_value-digit 0 n out (ground arith)))
  | inr e ↦
      rw
        (
          e,
          based_value-decimal f (n / 10) ((b'0' + n % 10) ∷ out) (omega arith),
          based_value-digit (n / 10) (n % 10) out (omega arith),
        )
        (ground arith)
]

-- A printed number is read back.
pub based_value-print_nat : (n : ℕ) → n < 2 ^ 64 → based_value 10 0 (print_nat n) ≡ some n
unfolding print_nat
based_value-print_nat n h = based_value-decimal 20 n [] (omega arith) ∙ (unfold based_value in refl)
