-- ===== src/Web/Json/Limits/Strings.antt =====
-- The string reader of the JSON parser: its fuel, its limit and the bytes it leaves.
use memory_tools.Prelude.{
  ℕ, zero, suc, ◌*◌, ◌-◌, Option, none, ◌+◌, ◌≤◌, ◌<◌, some, Bytes, [], ◌∷◌, length, arith,
}
use memory_tools.Web.Json.Limits.{FitsString}
use memory_tools.Web.Json.Runs.{Ensures, holds, rejected, Ensures-weaken, AtMost, Reading}
use memory_tools.Web.Json.Text.{
  Turn, closed, more, bad, grow, low_turn, pair_turn, unicode_turn, escape_turn, char_turn,
  after_turn, parse_hex4, with_rest, append_utf8, parse_chars, parse_string, skip_ws,
}

-- What a turn leaves is shorter than `m`, and its string fits.
abbrev FitsTurn : ℕ → ℕ → Turn → Type 0
FitsTurn n m (closed s rest) = FitsString s × (length rest < m)
FitsTurn n m (more s rest) = FitsString s × (length rest < m)
FitsTurn n m (bad message at) = length at ≤ n

pub length-skip_ws : (p : Bytes) → length (skip_ws p) ≤ length p
unfolding skip_ws
length-skip_ws [] = omega arith
length-skip_ws (c ∷ cs) = ground (arith, length-skip_ws cs)

-- What the four digits leave is four bytes shorter.
abbrev Shorter : Option (ℕ × Bytes) → ℕ → Type 0
Shorter none m = Unit
Shorter (some (v, rest)) m = length rest < m

with_rest-Shorter :
    (o : Option ℕ) (rest : Bytes) (m : ℕ) → length rest < m → Shorter (with_rest o rest) m
with_rest-Shorter none rest m h = tt
with_rest-Shorter (some n) rest m h = h

parse_hex4-Shorter : (p : Bytes) (m : ℕ) → length p ≤ m → Shorter (parse_hex4 p) m
unfolding parse_hex4
parse_hex4-Shorter (a ∷ b ∷ c ∷ d ∷ rest) m h = with_rest-Shorter _ rest m (omega arith)
parse_hex4-Shorter [] m h = tt
parse_hex4-Shorter (a ∷ []) m h = tt
parse_hex4-Shorter (a ∷ b ∷ []) m h = tt
parse_hex4-Shorter (a ∷ b ∷ c ∷ []) m h = tt

module _ (n : ℕ) where
  grow-FitsTurn :
      (s added at rest : Bytes) (m : ℕ)
      → length at ≤ n
      → length rest < m
      → FitsTurn n m (grow s added at rest)
  unfolding grow
  grow-FitsTurn s added at rest m h k = ground arith

  low_turn-FitsTurn :
      (s at : Bytes) (cp m : ℕ) (o : Option (ℕ × Bytes))
      → Shorter o m
      → length at < m
      → m ≤ suc n
      → FitsTurn n m (low_turn s cp at o)
  unfolding low_turn
  low_turn-FitsTurn s at cp m none h k l = omega arith
  low_turn-FitsTurn s at cp m (some (lo, rest)) h k l =
      let cp' = 0x10000 + (cp - 0xD800) * 1024 + (lo - 0xDC00) in
      ground (arith, grow-FitsTurn s (append_utf8 cp') rest rest m)

  pair_turn-FitsTurn :
      (s p : Bytes) (cp m : ℕ) → length p < m → m ≤ suc n → FitsTurn n m (pair_turn s cp p)
  unfolding pair_turn
  pair_turn-FitsTurn s [] cp m h l = omega arith
  pair_turn-FitsTurn s (b ∷ []) cp m h l = omega arith
  pair_turn-FitsTurn s (b ∷ u ∷ rest) cp m h l =
      let low =
        low_turn-FitsTurn s rest cp m (parse_hex4 rest) (parse_hex4-Shorter rest m (omega arith))
          (omega arith) l in
      ground arith

  unicode_turn-FitsTurn :
      (s at : Bytes) (m : ℕ) (o : Option (ℕ × Bytes))
      → Shorter o m
      → length at < m
      → m ≤ suc n
      → FitsTurn n m (unicode_turn s at o)
  unfolding unicode_turn
  unicode_turn-FitsTurn s at m none h k l = omega arith
  unicode_turn-FitsTurn s at m (some (cp, rest)) h k l =
      ground (arith, pair_turn-FitsTurn s rest cp m, grow-FitsTurn s (append_utf8 cp) rest rest m)

  escape_turn-FitsTurn :
      (s p : Bytes) (m : ℕ) → length p < m → m ≤ suc n → FitsTurn n m (escape_turn s p)
  unfolding escape_turn
  escape_turn-FitsTurn s [] m h l = omega arith
  escape_turn-FitsTurn s (e ∷ cs) m h l =
      let grown : (added : Bytes) → FitsTurn n m (grow s added cs cs) =
        λ added. grow-FitsTurn s added cs cs m (omega arith) (omega arith) in
      let unicode =
        unicode_turn-FitsTurn s cs m (parse_hex4 cs) (parse_hex4-Shorter cs m (omega arith))
          (omega arith) l in
      ground (
        arith,
        unicode,
        grown (b'"' ∷ []),
        grown (b'\\' ∷ []),
        grown (b'/' ∷ []),
        grown (8 ∷ []),
        grown (12 ∷ []),
        grown (10 ∷ []),
        grown (13 ∷ []),
        grown (9 ∷ []),
      )

  char_turn-FitsTurn :
      (start s p : Bytes)
      → length start ≤ n
      → length p ≤ n
      → FitsString s
      → FitsTurn n (length p) (char_turn start s p)
  unfolding char_turn
  char_turn-FitsTurn start s [] h k l = h
  char_turn-FitsTurn start s (c ∷ cs) h k l = ground (
    arith,
    escape_turn-FitsTurn s cs (suc (length cs)),
    grow-FitsTurn s (c ∷ []) (c ∷ cs) cs (suc (length cs)),
  )

  -- The string fits, and what is left is shorter than `m`.
  abbrev pub FitsChars : ℕ → Bytes × Bytes → Type 0
  FitsChars m (t, rest) = FitsString t × (length rest < m)

  after_turn-Ensures :
      (m : ℕ) (t : Turn) (again : Bytes → Bytes → Reading Bytes)
      → FitsTurn n m t
      → ((s rest : Bytes)
          → FitsString s
          → length rest < m
          → Ensures (AtMost n) (FitsChars m) (again s rest))
      → Ensures (AtMost n) (FitsChars m) (after_turn t again)
  after_turn-Ensures m (closed s rest) again h k = holds h
  after_turn-Ensures m (more s rest) again h k = k s rest h.0 h.1
  after_turn-Ensures m (bad message at) again h k = rejected h

  parse_chars-Ensures :
      (f : ℕ) (start s p : Bytes)
      → length p < f
      → length start ≤ n
      → length p ≤ n
      → FitsString s
      → Ensures (AtMost n) (FitsChars (length p)) (parse_chars f start s p)
  unfolding parse_chars
  parse_chars-Ensures zero start s p hf hs hp fits = absurd (omega arith)
  parse_chars-Ensures (suc f) start s p hf hs hp fits =
      after_turn-Ensures (length p) (char_turn start s p) _
        (char_turn-FitsTurn start s p hs hp fits)
        λ t rest ht hr.
          Ensures-weaken (parse_chars-Ensures f start t rest (omega arith) hs (omega arith) ht)
            λ _ h. (h.0, omega arith)

  pub parse_string-Ensures :
      (c : ℕ) (cs : Bytes)
      → length cs < n
      → Ensures (AtMost n) (FitsChars (length cs)) (parse_string (c ∷ cs))
  unfolding parse_string
  parse_string-Ensures c cs h =
      parse_chars-Ensures (suc (length cs)) (c ∷ cs) [] cs (omega arith) h (omega arith)
        (omega arith)
