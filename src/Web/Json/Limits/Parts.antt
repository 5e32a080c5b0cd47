-- ===== src/Web/Json/Limits/Parts.antt =====
-- The parts of the value reader of the JSON parser: literals, the step on the first byte, and what
-- follows an element.
use Prim.Native.String.{String}
use memory_tools.Prelude.{
  head_is, is_prefix, ℕ, ◌≤◌, ◌<◌, ◌≡◌, true, false, Bytes, [], ◌∷◌, codes, length, drop,
  length-drop, arith, not, ◌==◌,
}
use memory_tools.Web.Json.{Doubles, JsonValue, null, bool}
use memory_tools.Web.Json.Limits.{Within, FitsValue, FitsString}
use memory_tools.Web.Json.Limits.Numbers.{parse_number-Ensures}
use memory_tools.Web.Json.Limits.Strings.{parse_string-Ensures}
use memory_tools.Web.Json.Parser.{
  Start, no_start, brace, bracket, quote, letter_t, letter_f, letter_n, number_start, other_start,
  start_of, value_by, expect, follow, Next, next_of, ends, goes_on, closes, strays,
}
use memory_tools.Web.Json.Runs.{
  Reading, Ensures, holds, rejected, Ensures-bind, Ensures-if, Ensures-weaken, AtMost,
}
use memory_tools.Web.Json.Text.{continues_word, parse_string, parse_literal}

module _ (n : ℕ) where
  parse_literal-Ensures :
      (depth : ℕ) (lit : Bytes) (val : JsonValue) (p : Bytes)
      → length p ≤ n
      → 0 < length lit
      → 0 < length p
      → Within depth val
      → Ensures (AtMost n) (FitsValue depth (length p)) (parse_literal lit val p)
  unfolding parse_literal
  parse_literal-Ensures depth lit val p h hl hp w =
      Ensures-if (not (is_prefix lit p)) (λ _. rejected h)
        λ _.
          Ensures-if (continues_word (drop (length lit) p)) (λ _. rejected h)
            λ _. holds (w, omega (arith, length-drop (length lit) p))

  pub expect-Ensures :
      (c : ℕ) (message : String) (p : Bytes)
      → length p ≤ n
      → Ensures (AtMost n) (λ rest. length rest < length p) (expect c message p)
  unfolding expect head_is
  expect-Ensures c message [] h = rejected h
  expect-Ensures c message (d ∷ ds) h =
      Ensures-if (d == c) (λ _. holds (omega arith)) (λ _. rejected h)

  -- A reader of values between `{` or `[` and what closes them.
  abbrev FitsReader : ℕ → (Bytes → Reading JsonValue) → Bytes → Type 0
  FitsReader depth reader p = Ensures (AtMost n) (FitsValue depth (length p)) (reader p)

  pub value_by-Ensures :
      (c : Doubles) (depth : ℕ) (object_at array_at : Bytes → Reading JsonValue) (p : Bytes)
      → length p ≤ n
      → (0 < length p → FitsReader depth object_at p)
      → (0 < length p → FitsReader depth array_at p)
      → FitsReader depth (value_by c object_at array_at (start_of p)) p
  unfolding start_of Within
  value_by-Ensures c depth object_at array_at [] h ho ha = rejected h
  value_by-Ensures c depth object_at array_at (x ∷ xs) h ho ha = by_start (start_of (x ∷ xs))
    where
      by_start : (s : Start) → FitsReader depth (value_by c object_at array_at s) (x ∷ xs)
      by_start no_start = rejected h
      by_start brace = ho (omega arith)
      by_start bracket = ha (omega arith)
      by_start quote =
          Ensures-bind (parse_string-Ensures n x xs h) λ (s, rest) fits. holds (fits.0, omega arith)
      by_start letter_t =
          parse_literal-Ensures depth (codes "true") (bool true) (x ∷ xs) h (omega arith)
            (omega arith) tt
      by_start letter_f =
          parse_literal-Ensures depth (codes "false") (bool false) (x ∷ xs) h (omega arith)
            (omega arith) tt
      by_start letter_n =
          parse_literal-Ensures depth (codes "null") null (x ∷ xs) h (omega arith) (omega arith) tt
      by_start number_start = parse_number-Ensures c depth n (x ∷ xs) h
      by_start other_start = rejected h

  pub follow-Ensures {ℓ} :
      {A : Type 0} (P : A → Type ℓ) (close : ℕ) (unclosed stray : String) (p : Bytes) (last : A)
      (again : Bytes → Reading A)
      → length p ≤ n
      → P last
      → ((rest : Bytes)
          → length rest < length p
          → Ensures (AtMost n) (λ (a, r). P a × (length r < length p)) (again rest))
      → Ensures
          (AtMost n)
          (λ (a, r). P a × (length r < length p))
          (follow (next_of close p) unclosed stray p last again)
  unfolding next_of
  follow-Ensures P close unclosed stray [] last again h hl k = rejected h
  follow-Ensures P close unclosed stray (x ∷ xs) last again h hl k =
      by_next (next_of close (x ∷ xs))
    where
      by_next :
          (s : Next)
          → Ensures
              (AtMost n)
              (λ (a, r). P a × (length r < length (x ∷ xs)))
              (follow s unclosed stray (x ∷ xs) last again)
      by_next ends = rejected h
      by_next goes_on = k xs (omega arith)
      by_next closes = holds (hl, omega arith)
      by_next strays = rejected h

pub key-Ensures :
    (n : ℕ) (q : Bytes)
    → head_is b'"' q ≡ true
    → length q ≤ n
    → Ensures (AtMost n) (λ (s, rest). FitsString s × (length rest < length q)) (parse_string q)
unfolding head_is
key-Ensures n [] e h = cc
key-Ensures n (x ∷ xs) e h =
    Ensures-weaken (parse_string-Ensures n x xs h) λ _ k. (k.0, omega (arith, k.1))
