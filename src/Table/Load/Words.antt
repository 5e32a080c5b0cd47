-- ===== src/Table/Load/Words.antt =====
-- The words and the lines of the text of an address table.
use memory_tools.Numerals.{hex_lower, hex_digits, hex16, based_value}
use memory_tools.Numerals.ReadBack.{based_value-hex_digits, is_nil-hex_digits}
use memory_tools.Prelude.{
  c_string, ℕ, zero, suc, ◌/◌, ◌%◌, ◌^◌, ◌<◌, ◌≡◌, refl, Bool, true, false, [], ◌∷◌, ◌++◌, some,
  Bytes, ◌==◌, ltb, lt→ltb, length, arith, All, is_blank, skip_blanks, head_is, is_nil, not, ◌&&◌,
  ◌∙◌,
}
use memory_tools.Table.File.{magnitude, strtoull_whole}
use memory_tools.Table.Load.{span_word, next_word, trim_end, is_trimmed, fgets}
use memory_tools.Types.{DataType, type_name}

-- A byte of a word: neither a blank nor the end of a C string.
abbrev pub InWord : ℕ → Type 0
InWord c = (is_blank c ≡ false) × (0 < c)

pub span_word-append :
    (w rest : Bytes) → All InWord w → span_word (w ++ (b' ' ∷ rest)) ≡ (w, b' ' ∷ rest)
unfolding span_word
span_word-append [] rest h = unfold is_blank in refl
span_word-append (c ∷ cs) rest h = rw (h.0.0, span_word-append cs rest h.1) refl

-- The next word of a text that begins with a word and a space,
pub next_word-append :
    (w rest : Bytes)
    → is_nil w ≡ false
    → All InWord w
    → next_word (w ++ (b' ' ∷ rest)) ≡ (w, b' ' ∷ rest)
unfolding next_word skip_blanks
next_word-append [] rest e h = cc
next_word-append (c ∷ w) rest e h = rw (h.0.0) (span_word-append (c ∷ w) rest h)

-- and of one that has a space before them.
pub next_word-space :
    (w rest : Bytes)
    → is_nil w ≡ false
    → All InWord w
    → next_word (b' ' ∷ (w ++ (b' ' ∷ rest))) ≡ (w, b' ' ∷ rest)
unfolding next_word skip_blanks is_blank
next_word-space [] rest e h = cc
next_word-space (c ∷ w) rest e h = rw (h.0.0) (span_word-append (c ∷ w) rest h)

pub hex_lower-InWord : (d : ℕ) → d < 16 → InWord (hex_lower d)
unfolding hex_lower is_blank
hex_lower-InWord d h = (ground arith, ground arith)

pub hex_digits-InWord : (k n : ℕ) (out : Bytes) → All InWord out → All InWord (hex_digits k n out)
unfolding hex_digits
hex_digits-InWord zero n out h = h
hex_digits-InWord (suc k) n out h =
    hex_digits-InWord k (n / 16) (hex_lower (n % 16) ∷ out)
      (hex_lower-InWord (n % 16) (omega arith), h)

-- `strtoull` reads an address back from its sixteen digits.
pub strtoull_whole-hex16 : (n : ℕ) → n < 2 ^ 64 → strtoull_whole (hex16 n) ≡ some n
unfolding strtoull_whole hex16 magnitude head_is
strtoull_whole-hex16 n h =
    let digits = hex_digits 16 n [] in
    let value : based_value 16 0 digits ≡ some n =
      based_value-hex_digits 16 n [] (omega arith) ∙ (unfold based_value in refl) in
    let some_digit : is_nil digits ≡ false =
      unfold hex_digits in is_nil-hex_digits 15 (n / 16) (hex_lower (n % 16) ∷ []) refl in
    rw (some_digit, value, lt→ltb n (2 ^ 64) h) refl

-- The text ends with a quote.
abbrev pub Ends : Bytes → Type 0
Ends [] = ⊥
Ends (c ∷ []) = c ≡ b'"'
Ends (c ∷ d ∷ cs) = Ends (d ∷ cs)

pub Ends-append : (s t : Bytes) → Ends t → Ends (s ++ t)
Ends-append [] t h = h
Ends-append (c ∷ []) [] h = absurd h
Ends-append (c ∷ []) (d ∷ t) h = h
Ends-append (c ∷ d ∷ s) t h = Ends-append (d ∷ s) t h

-- A line feed behind the quote is trimmed, and nothing else.
pub trim_end-Ends : (s : Bytes) → Ends s → trim_end (s ++ (10 ∷ [])) ≡ s
unfolding trim_end is_trimmed
trim_end-Ends [] h = absurd h
trim_end-Ends (c ∷ []) h = rw h refl
trim_end-Ends (c ∷ d ∷ cs) h = rw (trim_end-Ends (d ∷ cs) h) refl

-- A byte of a line: neither a line feed nor the end of a C string.
abbrev pub InLine : ℕ → Type 0
InLine c = (c == 10 ≡ false) × (0 < c)

pub c_string-InLine : (s : Bytes) → All InLine s → c_string (s ++ (10 ∷ [])) ≡ s ++ (10 ∷ [])
unfolding c_string
c_string-InLine [] h = refl
c_string-InLine (c ∷ cs) h = ground (arith, c_string-InLine cs h.1, h.0.1)

-- `fgets` reads a line that is not too long, with its line feed.
pub fgets-InLine :
    (n : ℕ) (s rest : Bytes)
    → All InLine s
    → length s < n
    → fgets n (s ++ (10 ∷ rest)) ≡ (s ++ (10 ∷ []), rest)
unfolding fgets
fgets-InLine zero s rest h k = absurd (omega arith)
fgets-InLine (suc n) [] rest h k = refl
fgets-InLine (suc n) (c ∷ cs) rest h k = rw (h.0.0, fgets-InLine n cs rest h.1 (omega arith)) refl

-- A text with no zero byte is its C string.
pub c_string_whole : (s : Bytes) → All (λ c. 0 < c) s → c_string s ≡ s
unfolding c_string
c_string_whole [] h = refl
c_string_whole (c ∷ cs) h = ground (arith, c_string_whole cs h.1, h.0)

pub InLine→positive : (s : Bytes) → All InLine s → All (λ c. 0 < c) s
InLine→positive [] h = tt
InLine→positive (c ∷ cs) h = (h.0.1, InLine→positive cs h.1)

pub InWord→positive : (s : Bytes) → All InWord s → All (λ c. 0 < c) s
InWord→positive [] h = tt
InWord→positive (c ∷ cs) h = (h.0.1, InWord→positive cs h.1)

pub InWord→InLine : (s : Bytes) → All InWord s → All InLine s
unfolding is_blank
InWord→InLine [] h = tt
InWord→InLine (c ∷ cs) h = ((ground (arith, h.0.0), h.0.1), InWord→InLine cs h.1)

unfoldable pub all_in_word : Bytes → Bool
all_in_word [] = true
all_in_word (c ∷ cs) = not (is_blank c) && (ltb 0 c && all_in_word cs)

pub all_in_word-InWord : (s : Bytes) → all_in_word s ≡ true → All InWord s
unfolding all_in_word
all_in_word-InWord [] h = tt
all_in_word-InWord (c ∷ cs) h = ((ground arith, ground arith), all_in_word-InWord cs (ground arith))

names : (t : DataType) → all_in_word (type_name t) ≡ true
unfolding all_in_word type_name is_blank
names DataType.i8 = refl
names _ = refl

pub type_name-InWord : (t : DataType) → All InWord (type_name t)
type_name-InWord t = all_in_word-InWord (type_name t) (names t)

pub some_name : (t : DataType) → is_nil (type_name t) ≡ false
unfolding type_name
some_name DataType.i8 = refl
some_name _ = refl
