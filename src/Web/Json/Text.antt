-- ===== src/Web/Json/Text.antt =====
-- Reading a JSON string and a literal (src/web/json.cpp). A reader takes the bytes from the position
-- `p` on and gives what it read with the bytes that are left.
use Prim.Native.String.{String}
use memory_tools.Pattern.{hex_value}
use memory_tools.Prelude.{
  tail, is_prefix, ℕ, zero, suc, ◌+◌, ◌-◌, ◌*◌, ◌/◌, ◌%◌, Bool, false, not, ◌&&◌, ◌||◌, Option,
  none, some, [], ◌∷◌, ◌++◌, Bytes, ◌==◌, leb, ltb, if◌then◌else◌, length, drop,
}
use memory_tools.Web.Json.{JsonValue, max_string}
use memory_tools.Web.Json.Runs.{ok, failed, out_of_fuel, Reading}

unfoldable pub is_space : ℕ → Bool
is_space c = c == b' ' || c == 9 || c == 10 || c == 13

unfoldable pub skip_ws : Bytes → Bytes
unfolding is_space
skip_ws [] = []
skip_ws (c ∷ cs) = if is_space c then skip_ws cs else c ∷ cs

unfoldable pub hex4 : Option ℕ → Option ℕ → Option ℕ → Option ℕ → Option ℕ
hex4 (some a) (some b) (some c) (some d) = some (((a * 16 + b) * 16 + c) * 16 + d)
hex4 _ _ _ _ = none

abbrev pub with_rest : Option ℕ → Bytes → Option (ℕ × Bytes)
with_rest none rest = none
with_rest (some n) rest = some (n, rest)

-- `v << 4 | d` is `v * 16 + d`, since a digit has four bits.
unfoldable pub parse_hex4 : Bytes → Option (ℕ × Bytes)
unfolding hex4
parse_hex4 (a ∷ b ∷ c ∷ d ∷ rest) =
    with_rest (hex4 (hex_value a) (hex_value b) (hex_value c) (hex_value d)) rest
parse_hex4 _ = none

-- A shift is a division and a mask a remainder; the bits that `|` joins do not overlap.
unfoldable pub append_utf8 : ℕ → Bytes
append_utf8 cp =
    if ltb cp 0x80
    then cp ∷ []
    else if ltb cp 0x800
    then (0xC0 + cp / 64) ∷ (0x80 + cp % 64) ∷ []
    else if ltb cp 0x10000
    then (0xE0 + cp / 4096) ∷ (0x80 + (cp / 64) % 64) ∷ (0x80 + cp % 64) ∷ []
    else (0xF0 + cp / 262144)
      ∷ (0x80 + (cp / 4096) % 64)
      ∷ (0x80 + (cp / 64) % 64)
      ∷ (0x80 + cp % 64)
      ∷ []

-- What a turn of the string's loop does: return, go round with the string so far, or fail.
pub data Turn : Type 0 where
  closed : Bytes → Bytes → Turn
  more : Bytes → Bytes → Turn
  bad : String → Bytes → Turn

-- The string with the new bytes, unless it is too long; `at` is the position reported then.
unfoldable pub grow : Bytes → Bytes → Bytes → Bytes → Turn
grow s added at rest =
    if ltb max_string (length (s ++ added))
    then bad "string demasiado larga (maximo 4096)" at
    else more (s ++ added) rest

unfoldable pub low_turn : Bytes → ℕ → Bytes → Option (ℕ × Bytes) → Turn
low_turn s cp at none = bad "escape \\uXXXX invalido" at
low_turn s cp at (some (lo, rest)) =
    if ltb lo 0xDC00 || ltb 0xDFFF lo
    then bad "par de suplentes invalido" rest
    else grow s (append_utf8 (0x10000 + (cp - 0xD800) * 1024 + (lo - 0xDC00))) rest rest

unfoldable pub pair_turn : Bytes → ℕ → Bytes → Turn
unfolding low_turn
pair_turn s cp (b ∷ u ∷ rest) =
    if b == b'\\' && u == b'u'
    then low_turn s cp rest (parse_hex4 rest)
    else bad "par de suplentes incompleto" (b ∷ u ∷ rest)
pair_turn s cp p = bad "par de suplentes incompleto" p

-- After `\u`: a code point, or the high half of a surrogate pair.
unfoldable pub unicode_turn : Bytes → Bytes → Option (ℕ × Bytes) → Turn
unfolding pair_turn
unicode_turn s at none = bad "escape \\uXXXX invalido" at
unicode_turn s at (some (cp, rest)) =
    if leb 0xD800 cp && leb cp 0xDBFF
    then pair_turn s cp rest
    else if leb 0xDC00 cp && leb cp 0xDFFF
    then bad "suplente bajo sin suplente alto" rest
    else grow s (append_utf8 cp) rest rest

unfoldable pub escape_turn : Bytes → Bytes → Turn
unfolding unicode_turn
escape_turn s [] = bad "escape JSON incompleto" []
escape_turn s (e ∷ cs) =
    if e == b'"'
    then grow s (b'"' ∷ []) cs cs
    else if e == b'\\'
    then grow s (b'\\' ∷ []) cs cs
    else if e == b'/'
    then grow s (b'/' ∷ []) cs cs
    else if e == b'b'
    then grow s (8 ∷ []) cs cs
    else if e == b'f'
    then grow s (12 ∷ []) cs cs
    else if e == b'n'
    then grow s (10 ∷ []) cs cs
    else if e == b'r'
    then grow s (13 ∷ []) cs cs
    else if e == b't'
    then grow s (9 ∷ []) cs cs
    else if e == b'u'
    then unicode_turn s cs (parse_hex4 cs)
    else bad "escape JSON desconocido" cs

unfoldable pub char_turn : Bytes → Bytes → Bytes → Turn
unfolding escape_turn
char_turn start s [] = bad "string sin cerrar" start
char_turn start s (c ∷ cs) =
    if c == b'"'
    then closed s cs
    else if c == b'\\'
    then escape_turn s cs
    else if ltb c 32
    then bad "caracter de control sin escapar" (c ∷ cs)
    else grow s (c ∷ []) (c ∷ cs) cs

abbrev pub after_turn : Turn → (Bytes → Bytes → Reading Bytes) → Reading Bytes
after_turn (closed s rest) again = ok (s, rest)
after_turn (more s rest) again = again s rest
after_turn (bad message at) again = failed (message, at)

-- A turn consumes a byte at least.
unfoldable pub parse_chars : ℕ → Bytes → Bytes → Bytes → Reading Bytes
parse_chars zero start s p = out_of_fuel
parse_chars (suc f) start s p =
    after_turn (char_turn start s p) λ t rest. parse_chars f start t rest

unfoldable pub parse_string : Bytes → Reading Bytes
unfolding parse_chars
parse_string p = parse_chars (length p) p [] (tail p)

unfoldable pub is_alnum : ℕ → Bool
is_alnum c = leb b'0' c && leb c b'9' || leb b'A' c && leb c b'Z' || leb b'a' c && leb c b'z'

unfoldable pub continues_word : Bytes → Bool
unfolding is_alnum
continues_word [] = false
continues_word (c ∷ cs) = is_alnum c || c == b'_'

unfoldable pub parse_literal : Bytes → JsonValue → Bytes → Reading JsonValue
unfolding is_prefix continues_word
parse_literal lit val p =
    if not (is_prefix lit p)
    then failed ("literal JSON invalido", p)
    else if continues_word (drop (length lit) p)
    then failed ("literal JSON invalido", p)
    else ok (val, drop (length lit) p)
