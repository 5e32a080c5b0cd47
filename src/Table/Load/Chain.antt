-- ===== src/Table/Load/Chain.antt =====
-- The words of a `pointer` line: writing the numbers of a chain and reading them back.
use memory_tools.Numerals.{hex_lower, hex_digits, based_value}
use memory_tools.Numerals.ReadBack.{sixteenfold, based_value-hex_digits, is_nil-hex_digits}
use memory_tools.Prelude.{
  ℕ, zero, suc, ◌/◌, ◌%◌, ◌^◌, ◌<◌, ◌≡◌, refl, sym, ◌∙◌, true, false, List, [], ◌∷◌, ◌++◌, some,
  Bytes, ◌==◌, ltb, lt→ltb, length, arith, All, head_is, is_nil, is_blank, skip_blanks, Bool-cases,
  inl, inr,
}
use mathlib.Core.List.{append_assoc, append-nil}
use memory_tools.Table.File.{hex_width, hex_short, write_steps, spaced, magnitude, strtoull_whole}
use memory_tools.Table.Load.{span_word, next_word, split_line, parse_steps}
use memory_tools.Table.Load.Words.{InWord, next_word-space}

lt-hex_width : (f n : ℕ) → n < sixteenfold f → n < sixteenfold (hex_width f n)
unfolding hex_width
lt-hex_width zero n h = h
lt-hex_width (suc f) n h = elim (Bool-cases (ltb n 16)) [
  | inl e ↦ rw e (ground arith)
  | inr e ↦ rw e (omega (arith, lt-hex_width f (n / 16) (omega arith)))
]

some_hex : (k n : ℕ) → is_nil (hex_digits (suc k) n []) ≡ false
unfolding hex_digits
some_hex k n = is_nil-hex_digits k (n / 16) (hex_lower (n % 16) ∷ []) refl

some_digits : (f n : ℕ) → is_nil (hex_digits (hex_width (suc f) n) n []) ≡ false
unfolding hex_width
some_digits f n = elim (Bool-cases (ltb n 16)) [
  | inl e ↦ rw e (some_digit zero)
  | inr e ↦ rw e (some_digit (hex_width f (n / 16)))
]
  where
    some_digit : (k : ℕ) → is_nil (hex_digits (suc k) n []) ≡ false
    some_digit k = some_hex k n

pub strtoull_whole-hex_short : (n : ℕ) → n < 2 ^ 64 → strtoull_whole (hex_short n) ≡ some n
unfolding strtoull_whole hex_short magnitude head_is
strtoull_whole-hex_short n h =
    let digits = hex_digits (hex_width 16 n) n [] in
    let value : based_value 16 0 digits ≡ some n =
      based_value-hex_digits (hex_width 16 n) n [] (lt-hex_width 16 n (omega arith))
      ∙ (unfold based_value in refl) in
    rw (some_digits 15 n, value, lt→ltb n (2 ^ 64) h) refl

-- No comma is among the bytes of a number.
abbrev NoComma : ℕ → Type 0
NoComma c = c == b',' ≡ false

hex_digits-NoComma : (k n : ℕ) (out : Bytes) → All NoComma out → All NoComma (hex_digits k n out)
unfolding hex_digits hex_lower
hex_digits-NoComma zero n out h = h
hex_digits-NoComma (suc k) n out h =
    hex_digits-NoComma k (n / 16) (hex_lower (n % 16) ∷ out) (ground arith, h)

-- The loop of `steps=` takes the bytes of a number into its part.
parse_steps-append :
    (part w rest : Bytes)
    → All NoComma w
    → parse_steps part (w ++ rest) ≡ parse_steps (part ++ w) rest
unfolding parse_steps
parse_steps-append part [] rest h = rw (append-nil part) refl
parse_steps-append part (c ∷ w) rest h =
    rw (h.0, parse_steps-append (part ++ (c ∷ [])) w rest h.1, append_assoc part (c ∷ []) w) refl

hex_short-NoComma : (n : ℕ) → All NoComma (hex_short n)
unfolding hex_short
hex_short-NoComma n = (refl, (refl, hex_digits-NoComma (hex_width 16 n) n [] tt))

some_short : (n : ℕ) → is_nil (hex_short n) ≡ false
unfolding hex_short
some_short n = refl

one_step : (n : ℕ) → n < 2 ^ 64 → parse_steps (hex_short n) [] ≡ some (n ∷ [])
unfolding parse_steps
one_step n h = rw (some_short n, strtoull_whole-hex_short n h) refl

next_step :
    (n : ℕ) (rest : Bytes) (ns : List ℕ)
    → n < 2 ^ 64
    → parse_steps [] rest ≡ some ns
    → parse_steps (hex_short n) (b',' ∷ rest) ≡ some (n ∷ ns)
unfolding parse_steps
next_step n rest ns h e = rw (strtoull_whole-hex_short n h, e) refl

-- The numbers of a chain are read back from the text of its steps.
pub parse_steps-write_steps :
    (ns : List ℕ) → All (λ n. n < 2 ^ 64) ns → parse_steps [] (write_steps ns) ≡ some ns
unfolding write_steps
parse_steps-write_steps [] h = unfold parse_steps in refl
parse_steps-write_steps (n ∷ []) h =
    rw
      (sym (append-nil (hex_short n)), parse_steps-append [] (hex_short n) [] (hex_short-NoComma n))
      (one_step n h.0)
parse_steps-write_steps (n ∷ m ∷ ns) h =
    rw (parse_steps-append [] (hex_short n) (b',' ∷ write_steps (m ∷ ns)) (hex_short-NoComma n))
      (next_step n (write_steps (m ∷ ns)) (m ∷ ns) h.0 (parse_steps-write_steps (m ∷ ns) h.1))

span_word-parts : (s : Bytes) → (span_word s).0 ++ (span_word s).1 ≡ s
unfolding span_word
span_word-parts [] = refl
span_word-parts (c ∷ cs) = ground (arith, span_word-parts cs)

-- A word of the line: not empty, without blanks, and not the description.
pub record IsWord (w : Bytes) : Type 0 where
  pub some_byte : is_nil w ≡ false
  pub bytes : All InWord w
  pub no_quote : head_is b'"' w ≡ false

quote_word :
    (s : Bytes) → (next_word (b' ' ∷ b'"' ∷ s)).0 ++ (next_word (b' ' ∷ b'"' ∷ s)).1 ≡ b'"' ∷ s
unfolding next_word skip_blanks is_blank
quote_word s = span_word-parts (b'"' ∷ s)

quote_head :
    (s : Bytes)
    → (is_nil (next_word (b' ' ∷ b'"' ∷ s)).0 ≡ false)
      × (head_is b'"' (next_word (b' ' ∷ b'"' ∷ s)).0 ≡ true)
unfolding next_word skip_blanks is_blank span_word head_is
quote_head s = (refl, refl)

split_word :
    (f : ℕ) (w s : Bytes)
    → IsWord w
    → split_line (suc f) (b' ' ∷ (w ++ (b' ' ∷ s)))
      ≡ (w ∷ (split_line f (b' ' ∷ s)).0, (split_line f (b' ' ∷ s)).1)
unfolding split_line
split_word f w s h = rw (next_word-space w s h.some_byte h.bytes, h.some_byte, h.no_quote) refl

split_quote : (f : ℕ) (s : Bytes) → split_line (suc f) (b' ' ∷ b'"' ∷ s) ≡ ([], b'"' ∷ s)
unfolding split_line
split_quote f s = rw ((quote_head s).0, (quote_head s).1, quote_word s) refl

-- The words are split off one by one, and what begins with the quote is the description.
pub split_line-spaced :
    (f : ℕ) (ws : List Bytes) (s : Bytes)
    → All IsWord ws
    → length ws < f
    → split_line f (spaced ws (b' ' ∷ b'"' ∷ s)) ≡ (ws, b'"' ∷ s)
unfolding spaced
split_line-spaced zero ws s h hf = absurd (omega arith)
split_line-spaced (suc f) [] s h hf = split_quote f s
split_line-spaced (suc f) (w ∷ []) s h hf =
    rw (split_word f w (b'"' ∷ s) h.0, split_line-spaced f [] s tt (omega arith)) refl
split_line-spaced (suc f) (w ∷ v ∷ ws) s h hf =
    rw
      (
        split_word f w (v ++ spaced ws (b' ' ∷ b'"' ∷ s)) h.0,
        split_line-spaced f (v ∷ ws) s h.1 (omega arith),
      )
      refl
