-- ===== src/Web/Api/Names.antt =====
-- The names that a client may give to a file of the table (src/web/api.cpp).
use memory_tools.Prelude.{
  ℕ, ◌≡◌, ◌≢◌, ◌≤◌, ◌<◌, false, true, [], ◌∷◌, Bytes, All, length, head_is, arith, Bool-cases, inl,
  inr,
}
use memory_tools.Web.Api.{is_name_char, all_name_chars, valid_table_name}

-- Neither a separator of paths nor the end of a C string.
abbrev pub IsPlain : ℕ → Type 0
IsPlain c = (c ≢ b'/') × (c ≢ 0)

is_name_char-IsPlain : (c : ℕ) → is_name_char c ≡ true → IsPlain c
unfolding is_name_char
is_name_char-IsPlain c h = (λ e. cc (rw (e) at (h)), λ e. cc (rw (e) at (h)))

all_name_chars-IsPlain : (n : Bytes) → all_name_chars n ≡ true → All IsPlain n
unfolding all_name_chars
all_name_chars-IsPlain [] h = tt
all_name_chars-IsPlain (c ∷ cs) h = elim (Bool-cases (is_name_char c)) [
  | inl e ↦ (is_name_char-IsPlain c e, all_name_chars-IsPlain cs (rw e at h))
  | inr e ↦ absurd (cc (rw e at h))
]

-- An accepted name stays in its directory: it has 1 to 64 characters, no separator of paths and no
-- zero byte among them, and no dot in front.
pub valid_table_name-IsPlain :
    (n : Bytes)
    → valid_table_name n ≡ true
    → (0 < length n) × (length n ≤ 64) × (head_is b'.' n ≡ false) × All IsPlain n
unfolding valid_table_name head_is
valid_table_name-IsPlain [] h = absurd (cc)
valid_table_name-IsPlain (c ∷ cs) h = elim (Bool-cases (all_name_chars (c ∷ cs))) [
  | inl e ↦ (omega arith, ground arith, ground arith, all_name_chars-IsPlain (c ∷ cs) e)
  | inr e ↦ absurd (ground arith)
]
