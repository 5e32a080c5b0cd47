-- ===== src/Table/Quote.antt =====
-- Quoting a description and reading it back (src/address_table.cpp).
use memory_tools.Prelude.{
  ℕ, ◌≡◌, refl, ap, false, [], ◌∷◌, ◌++◌, Bytes, ◌==◌, arith, Bool-cases, inl, inr,
}
use memory_tools.Table.{escape, quote_desc, strip_quote, unescape, unquote_desc}

strip_quote-append : (s : Bytes) → strip_quote (s ++ (b'"' ∷ [])) ≡ s
unfolding strip_quote
strip_quote-append [] = refl
strip_quote-append (c ∷ []) = refl
strip_quote-append (c ∷ d ∷ cs) = ap (λ l. c ∷ l) (strip_quote-append (d ∷ cs))

plain_head : (c : ℕ) (s : Bytes) → c == b'\\' ≡ false → unescape (c ∷ s) ≡ c ∷ unescape s
unfolding unescape
plain_head c [] h = refl
plain_head c (d ∷ s) h = rw h refl

unescape-escape : (s : Bytes) → unescape (escape s) ≡ s
unfolding escape unescape
unescape-escape [] = refl
unescape-escape (c ∷ cs) = elim (Bool-cases (c == b'\\')) [
  | inl slash ↦ ground (arith, unescape-escape cs)
  | inr plain ↦ let kept = plain_head c (escape cs) plain in ground (arith, unescape-escape cs)
]

-- Reading a quoted description gives the description back, whatever its bytes are.
pub unquote_desc-quote_desc : (s : Bytes) → unquote_desc (quote_desc s) ≡ s
unfolding unquote_desc quote_desc
unquote_desc-quote_desc s = rw (strip_quote-append (escape s)) (unescape-escape s)
