-- ===== src/Web/Json/RoundTrip/Numbers.antt =====
-- Reading back a printed integer.
use mathlib.Core.List.{append-nil}
use memory_tools.Numerals.{signed_value, decimal, print_nat, print_int}
use memory_tools.Prelude.{
  head_is, ℕ, zero, suc, ◌^◌, ◌≤◌, ◌<◌, ◌≡◌, refl, sym, Bytes, [], ◌∷◌, ◌++◌, length, arith, le→ltb,
  lt→ltb, false, pos, negsuc,
}
use memory_tools.Web.Json.{Doubles, int, uint, max_number_chars}
use memory_tools.Web.Json.Number.{
  is_digit, digits_value, strtoll, strtoull, integer_part, fraction_part, exponent_part,
  integer_value, unsigned_value, convert, skip_minus, parse_number,
}
use memory_tools.Web.Json.Runs.{ok}
use memory_tools.Web.Json.Text.{skip_ws, is_space}
use memory_tools.Web.Json.Parser.{start_of}
use memory_tools.Web.Json.RoundTrip.Digits.{
  Delimited, decimal-Leads, digits_value-decimal, length-decimal, take-append, no_digit, no_point,
  no_exponent, integer_part-Leads, head_is-Leads, StartsNumber, Leads-StartsNumber,
}

-- What the number reader needs of the text of `n`.
record Spells (n : ℕ) (ds : Bytes) : Type 0 where
  value : digits_value 0 ds ≡ n
  short : length ds ≤ 20
  unsigned : (rest : Bytes) → head_is b'-' (ds ++ rest) ≡ false
  starts : (rest : Bytes) → StartsNumber (ds ++ rest)
  whole : (start rest : Bytes) → Delimited rest → integer_part start (ds ++ rest) ≡ ok rest

zero-Spells : Spells 0 (print_nat 0)
unfolding print_nat decimal digits_value head_is integer_part is_digit skip_ws is_space start_of
zero-Spells = record {
  value = refl;
  short = omega arith;
  unsigned = λ rest. refl;
  starts = λ rest. (refl, refl);
  whole = λ start rest k. rw (no_digit rest k) refl;
}

print_nat-Spells : (n : ℕ) → n < 2 ^ 64 → Spells n (print_nat n)
unfolding print_nat digits_value
print_nat-Spells zero h = zero-Spells
print_nat-Spells (suc n) h =
    let leads = decimal-Leads 20 (suc n) [] (omega arith) (omega arith) tt in
    record {
      value = digits_value-decimal 20 (suc n) [] (omega arith);
      short = length-decimal 20 (suc n) [];
      unsigned = λ rest. head_is-Leads _ rest leads;
      starts = λ rest. Leads-StartsNumber _ rest leads;
      whole = λ start rest k. integer_part-Leads start _ rest leads k;
    }

-- A text without fraction and exponent goes to the integer conversion whole.
parse_number-integer :
    (c : Doubles) (tok rest : Bytes)
    → length tok ≤ max_number_chars
    → Delimited rest
    → integer_part (tok ++ rest) (skip_minus (tok ++ rest)) ≡ ok rest
    → parse_number c (tok ++ rest) ≡ integer_value (tok ++ rest) (strtoll tok) tok rest
unfolding parse_number fraction_part exponent_part convert
parse_number-integer c tok rest short k whole =
    rw
      (
        whole,
        no_point rest k,
        no_exponent rest k,
        take-append tok rest,
        le→ltb max_number_chars (length tok) short,
      )
      refl

no_minus : (n : ℕ) (tok : Bytes) → Spells n tok → head_is b'-' tok ≡ false
no_minus n tok s = rw (append-nil tok) at (s.unsigned [])

strtoll-unsigned : (n : ℕ) (tok : Bytes) → Spells n tok → strtoll tok ≡ signed_value false n
unfolding strtoll
strtoll-unsigned n tok s = rw (no_minus n tok s, s.value) refl

unsigned_text :
    (c : Doubles) (n : ℕ) (tok rest : Bytes)
    → Spells n tok
    → Delimited rest
    → parse_number c (tok ++ rest) ≡ integer_value (tok ++ rest) (signed_value false n) tok rest
unfolding skip_minus
unsigned_text c n tok rest s k = rw (sym (strtoll-unsigned n tok s)) (
    parse_number-integer c tok rest (omega (arith, s.short)) k
      (rw (s.unsigned rest) (s.whole (tok ++ rest) rest k)))

-- The number reader reads back a printed number below 2^63 as signed,
pub parse_number-print_nat :
    (c : Doubles) (n : ℕ) (rest : Bytes)
    → n < 2 ^ 63
    → Delimited rest
    → parse_number c (print_nat n ++ rest) ≡ ok (int (pos n), rest)
unfolding signed_value integer_value
parse_number-print_nat c n rest h k =
    rw
      (
        unsigned_text c n (print_nat n) rest (print_nat-Spells n (omega arith)) k,
        lt→ltb n (2 ^ 63) h,
      )
      refl

-- a larger one as unsigned,
pub parse_number-print_large :
    (c : Doubles) (n : ℕ) (rest : Bytes)
    → 2 ^ 63 ≤ n
    → n < 2 ^ 64
    → Delimited rest
    → parse_number c (print_nat n ++ rest) ≡ ok (uint n, rest)
unfolding signed_value integer_value unsigned_value strtoull
parse_number-print_large c n rest h l k =
    let s = print_nat-Spells n l in
    rw
      (
        unsigned_text c n (print_nat n) rest s k,
        le→ltb n (2 ^ 63) h,
        no_minus n (print_nat n) s,
        s.value,
        lt→ltb n (2 ^ 64) l,
      )
      refl

-- and a negative one that fits an `int64_t` as it is.
pub parse_number-print_negative :
    (c : Doubles) (n : ℕ) (rest : Bytes)
    → n < 2 ^ 63
    → Delimited rest
    → parse_number c (print_int (negsuc n) ++ rest) ≡ ok (int (negsuc n), rest)
unfolding print_int signed_value integer_value strtoll skip_minus head_is
parse_number-print_negative c n rest h k =
    let s = print_nat-Spells (suc n) (omega arith) in
    let tok = b'-' ∷ print_nat (suc n) in
    rw
      (
        parse_number-integer c tok rest (omega (arith, s.short)) k (s.whole (tok ++ rest) rest k),
        s.value,
        lt→ltb n (2 ^ 63) h,
      )
      refl

-- A printed integer is taken for a number.
pub print_nat-StartsNumber :
    (n : ℕ) (rest : Bytes) → n < 2 ^ 64 → StartsNumber (print_nat n ++ rest)
print_nat-StartsNumber n rest h = let s = print_nat-Spells n h in s.starts rest
