-- ===== src/Web/Json/RoundTrip/Strings.antt =====
-- Reading back an escaped string.
use mathlib.Core.List.{append_assoc, append-nil}
use memory_tools.Pattern.{hex_value}
use memory_tools.Prelude.{
  ℕ, zero, suc, ◌+◌, ◌*◌, ◌/◌, ◌%◌, ◌≤◌, ◌<◌, ◌≡◌, refl, some, Bytes, [], ◌∷◌, ◌++◌, length, arith,
  length-append,
}
use memory_tools.Web.Json.{max_string}
use memory_tools.Web.Json.Runs.{ok}
use memory_tools.Web.Json.Text.{
  more, grow, unicode_turn, escape_turn, char_turn, parse_hex4, hex4, append_utf8, parse_chars,
  parse_string,
}
use memory_tools.Web.Json.Writer.{
  hex_upper, write_control, escape_char, escape_chars, write_escaped, escape_string,
}

hex_value-hex_upper : (d : ℕ) → d < 16 → hex_value (hex_upper d) ≡ some d
unfolding hex_value hex_upper
hex_value-hex_upper d h = ground arith

grow-more :
    (s at rest : Bytes) (c : ℕ)
    → length s < max_string
    → grow s (c ∷ []) at rest ≡ more (s ++ (c ∷ [])) rest
unfolding grow
grow-more s at rest c h = ground (arith, length-append s (c ∷ []))

ascii_turn :
    (s at rest : Bytes) (cp c : ℕ)
    → cp ≡ c
    → c < 32
    → length s < max_string
    → unicode_turn s at (some (cp, rest)) ≡ more (s ++ (c ∷ [])) rest
unfolding unicode_turn append_utf8
ascii_turn s at rest cp c e h k = rw e (ground (arith, grow-more s rest rest c k))

control_turn :
    (s rest : Bytes) (c : ℕ)
    → c < 32
    → length s < max_string
    → unicode_turn s
        (hex_upper 0 ∷ hex_upper 0 ∷ hex_upper (c / 16) ∷ hex_upper (c % 16) ∷ rest)
        (parse_hex4 (hex_upper 0 ∷ hex_upper 0 ∷ hex_upper (c / 16) ∷ hex_upper (c % 16) ∷ rest))
      ≡ more (s ++ (c ∷ [])) rest
unfolding parse_hex4 hex4
control_turn s rest c h k =
    rw
      (
        hex_value-hex_upper 0 (omega arith),
        hex_value-hex_upper (c / 16) (omega arith),
        hex_value-hex_upper (c % 16) (omega arith),
      )
      (ascii_turn s _ rest ((0 + c / 16) * 16 + c % 16) c (omega arith) h k)

-- A turn reads an escaped byte.
char_turn-escape_char :
    (start s rest : Bytes) (c : ℕ)
    → length s < max_string
    → char_turn start s (escape_char c ++ rest) ≡ more (s ++ (c ∷ [])) rest
unfolding char_turn escape_char escape_turn write_control
char_turn-escape_char start s rest c h =
    ground
      (arith, grow-more s rest rest c h, grow-more s (c ∷ rest) rest c h, control_turn s rest c)

parse_chars-escape_chars :
    (f : ℕ) (start s t rest : Bytes)
    → length t < f
    → length s + length t ≤ max_string
    → parse_chars f start s (escape_chars t ++ (b'"' ∷ rest)) ≡ ok (s ++ t, rest)
unfolding parse_chars escape_chars
parse_chars-escape_chars zero start s t rest hf h = absurd (omega arith)
parse_chars-escape_chars (suc f) start s [] rest hf h = unfold char_turn in rw (append-nil s) refl
parse_chars-escape_chars (suc f) start s (c ∷ cs) rest hf h =
    rw
      (
        append_assoc (escape_char c) (escape_chars cs) (b'"' ∷ rest),
        char_turn-escape_char start s (escape_chars cs ++ (b'"' ∷ rest)) c (omega arith),
        parse_chars-escape_chars f start (s ++ (c ∷ [])) cs rest (omega arith)
            (omega (arith, length-append s (c ∷ []))),
        append_assoc s (c ∷ []) cs,
      )
      refl

length-escape_char : (c : ℕ) → 0 < length (escape_char c)
unfolding escape_char write_control
length-escape_char c = ground arith

length-escape_chars : (t : Bytes) → length t ≤ length (escape_chars t)
unfolding escape_chars
length-escape_chars [] = omega arith
length-escape_chars (c ∷ cs) = omega (
  arith,
  length-escape_char c,
  length-escape_chars cs,
  length-append (escape_char c) (escape_chars cs),
)

-- The parser reads a string of at most 4096 bytes, whatever they are, back from its escaped form,
-- and leaves what follows.
pub parse_string-escape_string :
    (t rest : Bytes) → length t ≤ max_string → parse_string (escape_string t ++ rest) ≡ ok (t, rest)
unfolding parse_string escape_string write_escaped
parse_string-escape_string t rest h =
    let whole = b'"' ∷ (escape_chars t ++ (b'"' ∷ rest)) in
    rw (append_assoc (escape_chars t) (b'"' ∷ []) rest) (
      parse_chars-escape_chars (length whole) whole [] t rest
        (omega (arith, length-escape_chars t, length-append (escape_chars t) (b'"' ∷ rest)))
        (omega arith))
