-- ===== src/Web/Json/Number.antt =====
-- Reading a JSON number (src/web/json.cpp), with the decimal conversions of the C library that it
-- calls on integer texts.
use memory_tools.Numerals.{signed_value}
use memory_tools.Prelude.{
  tail, head_is, ℕ, ◌+◌, ◌-◌, ◌*◌, ◌^◌, Bool, true, false, ◌&&◌, ◌||◌, Option, none, some, [], ◌∷◌,
  Bytes, ◌==◌, leb, ltb, if◌then◌else◌, length, take, ℤ,
}
use memory_tools.Web.Json.{Doubles, JsonValue, int, uint, double, max_number_chars}
use memory_tools.Web.Json.Runs.{Outcome, ok, failed, bind, Failure, Reading}

unfoldable pub is_digit : ℕ → Bool
is_digit c = leb b'0' c && leb c b'9'

unfoldable pub starts_digit : Bytes → Bool
starts_digit [] = false
starts_digit (c ∷ cs) = is_digit c

unfoldable pub skip_digits : Bytes → Bytes
skip_digits [] = []
skip_digits (c ∷ cs) = if is_digit c then skip_digits cs else c ∷ cs

-- The value of the digits at the head of a text behind `n`.
unfoldable pub digits_value : ℕ → Bytes → ℕ
digits_value n [] = n
digits_value n (c ∷ cs) = if is_digit c then digits_value (n * 10 + (c - b'0')) cs else n

-- `strtoll` and `strtoull` of a text that is digits, with a sign for the first: the whole of it is
-- read.
unfoldable pub strtoll : Bytes → Option ℤ
unfolding signed_value
strtoll tok =
    if head_is b'-' tok
    then signed_value true (digits_value 0 (tail tok))
    else signed_value false (digits_value 0 tok)

unfoldable pub strtoull : Bytes → Option ℕ
strtoull tok = let u = digits_value 0 tok in if ltb u (2 ^ 64) then some u else none

module _ (start : Bytes) where
  -- The integer part, from the position after the sign.
  unfoldable pub integer_part : Bytes → Outcome Failure Bytes
  integer_part [] = failed ("numero JSON invalido", start)
  integer_part (c ∷ cs) =
      if c == b'0'
      then if starts_digit cs
        then failed ("numero JSON invalido (cero a la izquierda)", start)
        else ok cs
      else if is_digit c
      then ok (skip_digits cs)
      else failed ("numero JSON invalido", start)

  -- The fraction and the exponent say with true that they were there.
  unfoldable pub fraction_part : Bytes → Outcome Failure (Bool × Bytes)
  fraction_part p =
      if head_is b'.' p
      then if starts_digit (tail p)
        then ok (true, skip_digits (tail p))
        else failed ("fraccion JSON invalida", start)
      else ok (false, p)

  unfoldable pub skip_sign : Bytes → Bytes
  skip_sign p = if head_is b'+' p || head_is b'-' p then tail p else p

  unfoldable pub exponent_part : Bytes → Outcome Failure (Bool × Bytes)
  unfolding skip_sign
  exponent_part p =
      if head_is b'e' p || head_is b'E' p
      then if starts_digit (skip_sign (tail p))
        then ok (true, skip_digits (skip_sign (tail p)))
        else failed ("exponente JSON invalido", start)
      else ok (false, p)

  unfoldable pub double_value : Option ℕ → Bytes → Reading JsonValue
  double_value none rest = failed ("numero fuera de rango", start)
  double_value (some d) rest = ok (double d, rest)

  unfoldable pub unsigned_value : Option ℕ → Bytes → Reading JsonValue
  unsigned_value none rest = failed ("numero fuera de rango", start)
  unsigned_value (some u) rest = ok (uint u, rest)

  -- What follows `strtoll`: a negative number out of its range is not read as unsigned.
  unfoldable pub integer_value : Option ℤ → Bytes → Bytes → Reading JsonValue
  unfolding unsigned_value
  integer_value (some i) tok rest = ok (int i, rest)
  integer_value none tok rest =
      if head_is b'-' tok
      then failed ("numero fuera de rango", start)
      else unsigned_value (strtoull tok) rest

  unfoldable pub convert : Doubles → Bool → Bytes → Bytes → Reading JsonValue
  unfolding double_value integer_value
  convert c is_double tok rest =
      if ltb max_number_chars (length tok)
      then failed ("numero demasiado largo", start)
      else if is_double
      then double_value (c.strtod tok) rest
      else integer_value (strtoll tok) tok rest

unfoldable pub skip_minus : Bytes → Bytes
skip_minus p = if head_is b'-' p then tail p else p

unfoldable pub parse_number : Doubles → Bytes → Reading JsonValue
unfolding integer_part fraction_part exponent_part convert skip_minus
parse_number c p = bind (integer_part p (skip_minus p)) λ after_int.
    bind (fraction_part p after_int) λ (has_fraction, after_fraction).
      bind (exponent_part p after_fraction) λ (has_exponent, rest).
        convert p c (has_fraction || has_exponent) (take (length p - length rest) p) rest
