-- ===== src/Pattern.antt =====
-- Byte patterns with wildcards and their search in memory (src/pattern.h and pattern.cpp).
pub mod Match
pub mod Search
use memory_tools.Chunk.{for_each_window}
use memory_tools.Memory.{Region, Reader}
use memory_tools.Prelude.{
  ℕ, zero, suc, ◌+◌, ◌-◌, ◌*◌, ◌%◌, Bool, true, false, not, ◌&&◌, ◌||◌, List, [], ◌∷◌, ◌++◌, Option,
  none, some, Bytes, codes, ◌==◌, leb, ltb, if◌then◌else◌, length, get_or, replicate, filter_by,
  bit_or,
}

-- The error messages.
pub data PatternError : Type 0 where
  empty_pattern odd_length pattern_too_long : PatternError
  bad_character : ℕ → ℕ → PatternError
  empty_string string_too_long : PatternError

pub record BytePattern : Type 0 where
  pub bytes : Bytes
  pub mask : List Bool
  pub valid : Bool
  pub error : Option PatternError

abbrev pub blank : BytePattern
blank = record { bytes = []; mask = []; valid = false; error = none }

unfoldable pub size : BytePattern → ℕ
size p = length p.bytes

any_wild : List Bool → Bool
any_wild [] = false
any_wild (m ∷ ms) = if not m then true else any_wild ms

unfoldable pub has_wildcards : BytePattern → Bool
unfolding any_wild
has_wildcards p = any_wild p.mask

abbrev pub max_dynamic_length : ℕ
max_dynamic_length = 4096

-- ' ', '\t', '\n', '\r', ',', '.', '-', '_'
abbrev pub is_separator : ℕ → Bool
is_separator c =
    c == b' ' || c == 9 || c == 10 || c == 13 || c == b',' || c == b'.' || c == b'-' || c == b'_'

-- `hexv`; -1 is none.
unfoldable pub hex_value : ℕ → Option ℕ
hex_value c =
    if leb b'0' c && leb c b'9'
    then some (c - b'0')
    else if leb b'a' c && leb c b'f'
    then some (c - b'a' + 10)
    else if leb b'A' c && leb c b'F'
    then some (c - b'A' + 10)
    else none

hex_pair : Option ℕ → Option ℕ → Option ℕ
hex_pair (some ha) (some hb) = some (bit_or (ha * 16) hb % 256)
hex_pair _ _ = none

-- The body of the loop at the pair `a`, `b`.
add_pair : Option ℕ → BytePattern → BytePattern
add_pair none p = p
add_pair (some v) p = record p { bytes = p.bytes ++ (v ∷ []); mask = p.mask ++ (true ∷ []) }

fill : Bytes → BytePattern → BytePattern
unfolding hex_value hex_pair add_pair
fill [] p = record p { valid = true }
fill (a ∷ []) p = record p { valid = true }
fill (a ∷ b ∷ rest) p =
    let byte = hex_pair (hex_value a) (hex_value b) in
    let wild =
      fill rest (record p { bytes = p.bytes ++ (0 ∷ []); mask = p.mask ++ (false ∷ []) }) in
    let exact = fill rest (add_pair byte p) in
    if a == b'?' && b == b'?'
    then wild
    else elim byte [ none ↦ record p { error = some (bad_character a b) } | some v ↦ exact ]

is_odd : ℕ → Bool
is_odd n = not (n % 2 == 0)

check_clean : Bytes → BytePattern
unfolding fill is_odd
check_clean clean =
    if length clean == 0
    then record blank { error = some empty_pattern }
    else if is_odd (length clean)
    then record blank { error = some odd_length }
    else if ltb (max_dynamic_length * 2) (length clean)
    then record blank { error = some pattern_too_long }
    else fill clean blank

-- The result's `valid` is what the function returns.
unfoldable pub parse_pattern : Bytes → BytePattern
unfolding check_clean
parse_pattern text =
    if length text == 0
    then record blank { error = some empty_pattern }
    else check_clean (filter_by (λ c. not (is_separator c)) text)

-- `win[j]` for each byte of the pattern; a window has as many bytes.
unfoldable pub window_matches : Bytes → Bytes → List Bool → Bool
window_matches win [] mask = true
window_matches win (b ∷ bs) [] = true
window_matches [] (b ∷ bs) (m ∷ ms) = false
window_matches (c ∷ cs) (b ∷ bs) (m ∷ ms) =
    if m && not (c == b) then false else window_matches cs bs ms

unfoldable pub pattern_window_matches : Bytes → BytePattern → Bool
unfolding window_matches
pattern_window_matches win pat = window_matches win pat.bytes pat.mask

unfoldable pub pattern_from_text : Bytes → BytePattern
pattern_from_text text =
    if length text == 0
    then record blank { error = some empty_string }
    else if ltb max_dynamic_length (length text)
    then record blank { error = some string_too_long }
    else record blank { bytes = text; mask = replicate (length text) true; valid = true }

pub record PatternScanResult : Type 0 where
  pub hits : List ℕ
  pub truncated : Bool
  pub cancelled : Bool

abbrev pub max_hits : ℕ
max_hits = 5 * 1000 * 1000

abbrev pub nothing_found : PatternScanResult
nothing_found = record { hits = []; truncated = false; cancelled = false }

-- The lambda that is given to the walk.
unfoldable pub collect_hit : BytePattern → PatternScanResult → Bytes → ℕ → PatternScanResult × Bool
unfolding pattern_window_matches
collect_hit pat res win addr =
    let hits' = res.hits ++ (addr ∷ []) in
    if pattern_window_matches win pat
    then (if leb max_hits (length hits')
        then (record res { hits = hits'; truncated = true }, false)
        else (record res { hits = hits' }, true))
    else (res, true)

-- The last load of the flag decides whether the hits are given out.
unfoldable pub scan_pattern :
    Reader → List Region → BytePattern → (ℕ → Bool) → Bool → PatternScanResult
scan_pattern read regions pat cancel progress =
    let t =
      for_each_window read regions (size pat) 1 (collect_hit pat) cancel progress nothing_found in
    if not pat.valid || size pat == 0
    then nothing_found
    else if cancel t.loads
    then record { hits = []; truncated = false; cancelled = true }
    else t.acc
