-- ===== src/Web/Json/RoundTrip/Digits.antt =====
-- The digits of a printed number, and what may follow a written value.
use memory_tools.Numerals.{decimal}
use memory_tools.Prelude.{
  head_is, ℕ, zero, suc, ◌+◌, ◌-◌, ◌*◌, ◌/◌, ◌%◌, ◌≤◌, ◌<◌, ◌≡◌, refl, ap, ◌≢◌, Bool, Bytes, [],
  ◌∷◌, ◌++◌, ◌==◌, ltb, ◌||◌, length, arith, length-append, Bool-cases, true, false, inl, inr, All,
  take,
}
use memory_tools.Web.Json.Number.{is_digit, starts_digit, skip_digits, digits_value, integer_part}
use memory_tools.Web.Json.Runs.{ok}
use memory_tools.Web.Json.Text.{skip_ws, is_space}
use memory_tools.Web.Json.Parser.{number_start, start_of}

-- What may follow a written value.
unfoldable pub is_delimiter : ℕ → Bool
is_delimiter c = c == b',' || c == b']' || c == b'}'

abbrev pub Delimited : Bytes → Type 0
Delimited [] = Unit
Delimited (c ∷ cs) = is_delimiter c ≡ true

abbrev IsDigit : ℕ → Type 0
IsDigit c = is_digit c ≡ true

-- Digits with no zero in front.
abbrev Leads : Bytes → Type 0
Leads [] = ⊥
Leads (c ∷ cs) = IsDigit c × (c ≢ b'0') × All IsDigit cs

abbrev tenfold : ℕ → ℕ
tenfold zero = 1
tenfold (suc f) = 10 * tenfold f

last-IsDigit : (d : ℕ) → d < 10 → IsDigit (b'0' + d)
unfolding is_digit
last-IsDigit d h = ground arith

pub decimal-Leads :
    (f n : ℕ) (out : Bytes) → 0 < n → n < tenfold f → All IsDigit out → Leads (decimal f n out)
unfolding decimal
decimal-Leads zero n out h k all = absurd (omega arith)
decimal-Leads (suc f) n out h k all = elim (Bool-cases (ltb n 10)) [
  | inl e ↦ rw e (last-IsDigit n (ground arith), omega arith, all)
  | inr e ↦ rw e (
      decimal-Leads f (n / 10) ((b'0' + n % 10) ∷ out) (ground arith) (omega arith)
        (last-IsDigit (n % 10) (omega arith), all))
]

digits_value-digit :
    (m d : ℕ) (out : Bytes)
    → d < 10
    → digits_value m ((b'0' + d) ∷ out) ≡ digits_value (m * 10 + d) out
unfolding digits_value is_digit
digits_value-digit m d out h = ground arith

pub digits_value-decimal :
    (f n : ℕ) (out : Bytes) → n < tenfold f → digits_value 0 (decimal f n out) ≡ digits_value n out
unfolding decimal
digits_value-decimal zero n out h = ground arith
digits_value-decimal (suc f) n out h = elim (Bool-cases (ltb n 10)) [
  | inl e ↦ rw e (ground (arith, digits_value-digit 0 n out (ground arith)))
  | inr e ↦
      rw
        (
          e,
          digits_value-decimal f (n / 10) ((b'0' + n % 10) ∷ out) (omega arith),
          digits_value-digit (n / 10) (n % 10) out (omega arith),
        )
        (ground arith)
]

pub length-decimal : (f n : ℕ) (out : Bytes) → length (decimal f n out) ≤ f + length out
unfolding decimal
length-decimal zero n out = omega arith
length-decimal (suc f) n out = ground (arith, length-decimal f (n / 10) ((b'0' + n % 10) ∷ out))

skip_digits-digits :
    (ds rest : Bytes) → All IsDigit ds → Delimited rest → skip_digits (ds ++ rest) ≡ rest
unfolding skip_digits is_delimiter is_digit
skip_digits-digits [] [] h k = refl
skip_digits-digits [] (c ∷ cs) h k = ground arith
skip_digits-digits (d ∷ ds) rest h k = rw (h.0) (skip_digits-digits ds rest h.1 k)

pub take-append : (xs ys : Bytes) → take (length (xs ++ ys) - length ys) (xs ++ ys) ≡ xs
take-append xs ys =
    rw (length-append xs ys) (by_count (length xs + length ys - length ys) xs (omega arith))
  where
    by_count : (n : ℕ) (zs : Bytes) → n ≡ length zs → take n (zs ++ ys) ≡ zs
    by_count zero [] e = refl
    by_count zero (z ∷ zs) e = absurd (omega arith)
    by_count (suc n) [] e = absurd (omega arith)
    by_count (suc n) (z ∷ zs) e = ap (λ l. z ∷ l) (by_count n zs (omega arith))

pub no_digit : (rest : Bytes) → Delimited rest → starts_digit rest ≡ false
unfolding starts_digit is_digit is_delimiter
no_digit [] h = refl
no_digit (c ∷ cs) h = ground arith

pub no_point : (rest : Bytes) → Delimited rest → head_is b'.' rest ≡ false
unfolding head_is is_delimiter
no_point [] h = refl
no_point (c ∷ cs) h = ground arith

pub no_exponent : (rest : Bytes) → Delimited rest → (head_is b'e' rest || head_is b'E' rest) ≡ false
unfolding head_is is_delimiter
no_exponent [] h = refl
no_exponent (c ∷ cs) h = ground arith

pub integer_part-Leads :
    (start ds rest : Bytes) → Leads ds → Delimited rest → integer_part start (ds ++ rest) ≡ ok rest
unfolding integer_part
integer_part-Leads start [] rest h k = absurd h
integer_part-Leads start (c ∷ cs) rest (digit, nonzero, all) k =
    ground (arith, digit, skip_digits-digits cs rest all k)

pub head_is-Leads : (ds rest : Bytes) → Leads ds → head_is b'-' (ds ++ rest) ≡ false
unfolding head_is is_digit
head_is-Leads [] rest h = absurd h
head_is-Leads (c ∷ cs) rest h = ground arith

-- A text that `parse_value` takes for a number where it stands.
abbrev pub StartsNumber : Bytes → Type 0
StartsNumber p = (skip_ws p ≡ p) × (start_of p ≡ number_start)

pub Leads-StartsNumber : (ds rest : Bytes) → Leads ds → StartsNumber (ds ++ rest)
unfolding skip_ws start_of is_space is_digit
Leads-StartsNumber [] rest h = absurd h
Leads-StartsNumber (c ∷ cs) rest h = (ground arith, ground arith)
