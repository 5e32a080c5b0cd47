-- ===== src/Web/Json/Limits/Numbers.antt =====
-- The number reader of the JSON parser: the integers it returns fit their type, and it consumes a
-- byte at least.
use memory_tools.Numerals.{signed_value}
use memory_tools.Prelude.{
  tail, head_is, ℕ, zero, suc, ◌^◌, ◌≤◌, ◌<◌, ◌≡◌, Bool, true, false, ◌||◌, Option, none, some,
  Bytes, [], ◌∷◌, length, arith, ◌==◌, ltb, sym, refl, inl, inr, Bool-cases, ℤ,
}
use memory_tools.Web.Json.{Doubles, max_number_chars}
use memory_tools.Web.Json.Limits.{FitsInt64, FitsValue, Within}
use memory_tools.Web.Json.Number.{
  is_digit, starts_digit, skip_digits, digits_value, strtoll, strtoull, integer_part, fraction_part,
  skip_sign, exponent_part, double_value, unsigned_value, integer_value, convert, skip_minus,
  parse_number,
}
use memory_tools.Web.Json.Runs.{Ensures, holds, rejected, Ensures-bind, Ensures-if, AtMost}

length-skip_digits : (p : Bytes) → length (skip_digits p) ≤ length p
unfolding skip_digits
length-skip_digits [] = omega arith
length-skip_digits (c ∷ cs) = ground (arith, length-skip_digits cs)

length-tail : (p : Bytes) → length (tail p) ≤ length p
length-tail [] = omega arith
length-tail (c ∷ cs) = omega arith

length-skip_minus : (p : Bytes) → length (skip_minus p) ≤ length p
unfolding skip_minus
length-skip_minus p = ground (arith, length-tail p)

signed_value-FitsInt64 : (b : Bool) (m : ℕ) (i : ℤ) → signed_value b m ≡ some i → FitsInt64 i
unfolding signed_value
signed_value-FitsInt64 false m i h = ground arith
signed_value-FitsInt64 true zero i h = ground arith
signed_value-FitsInt64 true (suc m) i h = ground arith

signed_value-none : (m : ℕ) → signed_value false m ≡ none → 2 ^ 63 ≤ m
unfolding signed_value
signed_value-none m h = ground arith

strtoll-FitsInt64 : (tok : Bytes) (i : ℤ) → strtoll tok ≡ some i → FitsInt64 i
unfolding strtoll
strtoll-FitsInt64 tok i h = elim (Bool-cases (head_is b'-' tok)) [
  | inl e ↦ signed_value-FitsInt64 true (digits_value 0 (tail tok)) i (rw e at h)
  | inr e ↦ signed_value-FitsInt64 false (digits_value 0 tok) i (rw e at h)
]

strtoll-none :
    (tok : Bytes) → strtoll tok ≡ none → head_is b'-' tok ≡ false → 2 ^ 63 ≤ digits_value 0 tok
unfolding strtoll
strtoll-none tok h e = signed_value-none (digits_value 0 tok) (rw e at h)

module _ (start : Bytes) (n : ℕ) (start_le : length start ≤ n) where
  integer_part-Ensures :
      (p : Bytes) → Ensures (AtMost n) (λ rest. length rest < length p) (integer_part start p)
  unfolding integer_part
  integer_part-Ensures [] = rejected start_le
  integer_part-Ensures (c ∷ cs) =
      Ensures-if (c == b'0')
        (λ _. Ensures-if (starts_digit cs) (λ _. rejected start_le) (λ _. holds (omega arith)))
        (λ _.
          Ensures-if (is_digit c) (λ _. holds (omega (arith, length-skip_digits cs)))
            (λ _. rejected start_le))

  -- A part that may be missing leaves no more than it was given.
  abbrev Shrinks : Bytes → Bool × Bytes → Type 0
  Shrinks p (present, rest) = length rest ≤ length p

  fraction_part-Ensures : (p : Bytes) → Ensures (AtMost n) (Shrinks p) (fraction_part start p)
  unfolding fraction_part
  fraction_part-Ensures p =
      Ensures-if (head_is b'.' p)
        (λ _.
          Ensures-if (starts_digit (tail p))
            (λ _. holds (omega (arith, length-skip_digits (tail p), length-tail p)))
            (λ _. rejected start_le))
        (λ _. holds (omega arith))

  length-skip_sign : (p : Bytes) → length (skip_sign start p) ≤ length p
  unfolding skip_sign
  length-skip_sign p = ground (arith, length-tail p)

  exponent_part-Ensures : (p : Bytes) → Ensures (AtMost n) (Shrinks p) (exponent_part start p)
  unfolding exponent_part
  exponent_part-Ensures p =
      let q = skip_sign start (tail p) in
      Ensures-if (head_is b'e' p || head_is b'E' p)
        (λ _.
          Ensures-if (starts_digit q)
            (λ _.
              holds (omega (arith, length-skip_digits q, length-skip_sign (tail p), length-tail p)))
            (λ _. rejected start_le))
        (λ _. holds (omega arith))

  module _ (depth m : ℕ) (rest : Bytes) (shorter : length rest < m) where
    unsigned_value-Ensures :
        (o : Option ℕ) (tok : Bytes)
        → o ≡ strtoull tok
        → 2 ^ 63 ≤ digits_value 0 tok
        → Ensures (AtMost n) (FitsValue depth m) (unsigned_value start o rest)
    unfolding unsigned_value strtoull Within
    unsigned_value-Ensures none tok e h = rejected start_le
    unsigned_value-Ensures (some u) tok e h = holds (ground arith)

    integer_value-Ensures :
        (o : Option ℤ) (tok : Bytes)
        → o ≡ strtoll tok
        → Ensures (AtMost n) (FitsValue depth m) (integer_value start o tok rest)
    unfolding integer_value strtoll Within
    integer_value-Ensures (some i) tok e = holds (strtoll-FitsInt64 tok i (sym e), shorter)
    integer_value-Ensures none tok e =
        Ensures-if (head_is b'-' tok) (λ _. rejected start_le)
          λ h. unsigned_value-Ensures (strtoull tok) tok refl (strtoll-none tok (sym e) h)

    double_value-Ensures :
        (o : Option ℕ) → Ensures (AtMost n) (FitsValue depth m) (double_value start o rest)
    unfolding double_value Within
    double_value-Ensures none = rejected start_le
    double_value-Ensures (some d) = holds (tt, shorter)

    convert-Ensures :
        (c : Doubles) (is_double : Bool) (tok : Bytes)
        → Ensures (AtMost n) (FitsValue depth m) (convert start c is_double tok rest)
    unfolding convert
    convert-Ensures c is_double tok =
        Ensures-if (ltb max_number_chars (length tok)) (λ _. rejected start_le)
          λ _.
            Ensures-if is_double (λ _. double_value-Ensures (c.strtod tok))
              λ _. integer_value-Ensures (strtoll tok) tok refl

pub parse_number-Ensures :
    (c : Doubles) (depth n : ℕ) (p : Bytes)
    → length p ≤ n
    → Ensures (AtMost n) (FitsValue depth (length p)) (parse_number c p)
unfolding parse_number
parse_number-Ensures c depth n p h =
    Ensures-bind (integer_part-Ensures p n h (skip_minus p)) λ r₁ h₁.
      Ensures-bind (fraction_part-Ensures p n h r₁) λ (_, r₂) h₂.
        Ensures-bind (exponent_part-Ensures p n h r₂) λ (_, r₃) h₃.
          convert-Ensures p n h depth (length p) r₃ (omega (arith, length-skip_minus p)) c _ _
