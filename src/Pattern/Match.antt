-- ===== src/Pattern/Match.antt =====
-- What it means that a window matches a pattern.
use memory_tools.Pattern.{window_matches, BytePattern, pattern_window_matches, pattern_from_text}
use memory_tools.Prelude.{
  ℕ, zero, suc, ◌≤◌, ◌<◌, ◌≡◌, ◌↔◌, refl, Bool, true, false, List, [], ◌∷◌, Bytes, length, get_or,
  arith, bytes_eq, replicate,
}

-- Every byte that the mask marks as exact is the window's byte at the same place.
abbrev pub Agrees : Bytes → Bytes → List Bool → Type 0
Agrees win bytes mask =
    (j : ℕ) → j < length bytes → get_or mask j false ≡ true → get_or win j 0 ≡ get_or bytes j 0

agrees_of_matches :
    (win bytes : Bytes) (mask : List Bool) (j : ℕ)
    → window_matches win bytes mask ≡ true
    → j < length bytes
    → get_or mask j false ≡ true
    → get_or win j 0 ≡ get_or bytes j 0
unfolding window_matches
agrees_of_matches win [] mask j h lt m = absurd (omega arith)
agrees_of_matches win (b ∷ bs) [] j h lt m = cc
agrees_of_matches [] (b ∷ bs) (x ∷ ms) j h lt m = cc
agrees_of_matches (c ∷ cs) (b ∷ bs) (x ∷ ms) zero h lt m = ground arith
agrees_of_matches (c ∷ cs) (b ∷ bs) (x ∷ ms) (suc j) h lt m =
    agrees_of_matches cs bs ms j (ground arith) (omega arith) m

matches_of_Agrees :
    (win bytes : Bytes) (mask : List Bool)
    → length bytes ≤ length win
    → Agrees win bytes mask
    → window_matches win bytes mask ≡ true
unfolding window_matches
matches_of_Agrees win [] mask le h = refl
matches_of_Agrees win (b ∷ bs) [] le h = refl
matches_of_Agrees [] (b ∷ bs) (x ∷ ms) le h = absurd (omega arith)
matches_of_Agrees (c ∷ cs) (b ∷ bs) (x ∷ ms) le h = ground (
  arith,
  h 0 (omega arith),
  matches_of_Agrees cs bs ms (omega arith) (λ j lt m. h (suc j) (omega arith) m),
)

-- A window that is long enough matches a pattern exactly when it has the pattern's byte at every
-- place that is no wildcard.
pub pattern_window_matches_iff :
    (win : Bytes) (pat : BytePattern)
    → length pat.bytes ≤ length win
    → (pattern_window_matches win pat ≡ true) ↔ Agrees win pat.bytes pat.mask
unfolding pattern_window_matches
pattern_window_matches_iff win pat le = (
  λ h j lt m. agrees_of_matches win pat.bytes pat.mask j h lt m,
  matches_of_Agrees win pat.bytes pat.mask le,
)

exact_matches :
    (win text : Bytes)
    → length win ≡ length text
    → window_matches win text (replicate (length text) true) ≡ bytes_eq win text
unfolding window_matches bytes_eq
exact_matches [] [] h = refl
exact_matches (c ∷ cs) [] h = absurd (omega arith)
exact_matches [] (b ∷ bs) h = absurd (omega arith)
exact_matches (c ∷ cs) (b ∷ bs) h = ground (arith, exact_matches cs bs (omega arith))

-- The pattern of a text of 1 to 4096 bytes is valid, and a window of that length matches it exactly
-- when it is the text.
pub pattern_from_text_lem :
    (win text : Bytes)
    → 0 < length text
    → length text ≤ 4096
    → length win ≡ length text
    → ((pattern_from_text text).valid ≡ true)
      × (pattern_window_matches win (pattern_from_text text) ≡ bytes_eq win text)
unfolding pattern_from_text pattern_window_matches
pattern_from_text_lem win text some_byte short same = ground (arith, exact_matches win text same)
