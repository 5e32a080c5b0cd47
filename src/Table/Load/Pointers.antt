-- ===== src/Table/Load/Pointers.antt =====
-- The line of a pointer chain, written and read back.
use mathlib.Core.Path.{subst}
use memory_tools.Pointer.Resolver.{PointerChainRef}
use memory_tools.Prelude.{
  suc, ◌≤◌, ◌<◌, ◌≡◌, refl, sym, ap, false, List, [], ◌∷◌, ◌++◌, some, Bytes, codes, bytes_eq,
  length, length-append, arith, All, All-append, head_is, is_nil, is_blank,
}
use memory_tools.Table.{AddressEntry, quote_desc, escape}
use memory_tools.Table.File.{chain_words, spaced, line_of}
use memory_tools.Table.Load.{next_word, trim_start, is_trimmed, parse_pointer_line, parse_line}
use memory_tools.Table.Load.Absolute.{IsReadBack, reloaded, quote_desc-InLine, c_string-quote_desc}
use memory_tools.Table.Load.Chain.{IsWord, split_line-spaced}
use memory_tools.Table.Load.Words.{
  InWord, InLine, Ends, Ends-append, next_word-append, trim_end-Ends, InWord→InLine, all_in_word,
  all_in_word-InWord,
}
use memory_tools.Table.Load.Keys.{
  IsChain, chain_words-IsWord, set_keys-chain_words, finish_draft-reloaded,
}

length-spaced : (ws : List Bytes) (rest : Bytes) → length ws ≤ length (spaced ws rest)
unfolding spaced
length-spaced [] rest = omega arith
length-spaced (w ∷ ws) rest = omega (arith, length-spaced ws rest, length-append w (spaced ws rest))

parse_pointer_line-spaced :
    (e : AddressEntry) (chain : PointerChainRef)
    → IsChain e chain
    → parse_pointer_line (spaced (chain_words e chain) (b' ' ∷ quote_desc e.description))
      ≡ some (reloaded e)
unfolding parse_pointer_line quote_desc
parse_pointer_line-spaced e chain h =
    let ws = chain_words e chain in
    let rest = b' ' ∷ quote_desc e.description in
    rw
      (
        split_line-spaced (suc (length (spaced ws rest))) ws (escape e.description ++ (b'"' ∷ []))
            (chain_words-IsWord e chain h.base) (omega (arith, length-spaced ws rest)),
        set_keys-chain_words e chain h,
      )
      (finish_draft-reloaded e chain h)

spaced-InLine :
    (ws : List Bytes) (rest : Bytes) → All IsWord ws → All InLine rest → All InLine (spaced ws rest)
unfolding spaced
spaced-InLine [] rest h k = k
spaced-InLine (w ∷ ws) rest h k =
    let word = h.0 in
    (
      (refl, omega arith),
      All-append InLine w _ (InWord→InLine w word.bytes) (spaced-InLine ws rest h.1 k),
    )

spaced-Ends : (ws : List Bytes) (rest : Bytes) → Ends rest → Ends (spaced ws rest)
unfolding spaced
spaced-Ends [] rest h = h
spaced-Ends (w ∷ ws) rest h = Ends-append (b' ' ∷ w) (spaced ws rest) (spaced-Ends ws rest h)

desc-InLine : (s : Bytes) → All (λ c. 0 < c) s → All InLine (b' ' ∷ quote_desc s)
desc-InLine s h = ((refl, omega arith), quote_desc-InLine s h)

desc-Ends : (s : Bytes) → Ends (b' ' ∷ quote_desc s)
unfolding quote_desc
desc-Ends s = Ends-append (b' ' ∷ b'"' ∷ escape s) (b'"' ∷ []) refl

pointer_word : All InWord (codes "pointer")
pointer_word = all_in_word-InWord (codes "pointer") (unfold all_in_word is_blank in refl)

module _ (e : AddressEntry) (chain : PointerChainRef) where
  -- The line of a chain whose description has no zero byte.
  abbrev whole_line : Bytes
  whole_line = codes "pointer" ++ spaced (chain_words e chain) (b' ' ∷ quote_desc e.description)

  line_of-whole : All (λ c. 0 < c) e.description → line_of e (some chain) ≡ whole_line
  unfolding line_of
  line_of-whole h = rw (c_string-quote_desc e.description h) refl

  line-InLine : IsChain e chain → All InLine whole_line
  line-InLine h =
      All-append InLine (codes "pointer") _ (InWord→InLine (codes "pointer") pointer_word) (
        spaced-InLine (chain_words e chain) _ (chain_words-IsWord e chain h.base)
          (desc-InLine e.description h.text))

  line-Ends : Ends whole_line
  line-Ends =
      let desc = b' ' ∷ quote_desc e.description in
      Ends-append (codes "pointer") (spaced (chain_words e chain) desc)
        (spaced-Ends (chain_words e chain) desc (desc-Ends e.description))

  line_start :
      (trim_start (whole_line ++ (10 ∷ [])) ≡ whole_line ++ (10 ∷ []))
      × (is_nil whole_line ≡ false)
      × (head_is b'#' whole_line ≡ false)
  unfolding trim_start is_trimmed head_is
  line_start = (refl, refl, refl)

  first_word :
      next_word whole_line
      ≡ (codes "pointer", spaced (chain_words e chain) (b' ' ∷ quote_desc e.description))
  unfolding spaced chain_words
  first_word = next_word-append (codes "pointer") _ refl pointer_word

  parse_line-line_of :
      IsChain e chain → parse_line (line_of e (some chain) ++ (10 ∷ [])) ≡ some (reloaded e)
  unfolding parse_line bytes_eq
  parse_line-line_of h =
      rw
        (
          line_of-whole h.text,
          line_start.0,
          trim_end-Ends whole_line line-Ends,
          line_start.1,
          line_start.2,
          first_word,
        )
        (parse_pointer_line-spaced e chain h)

  pub chain-IsReadBack : IsChain e chain → IsReadBack e
  chain-IsReadBack h =
      let same : line_of e (some chain) ≡ line_of e e.ptr = ap (line_of e) (sym h.has_chain) in
      record {
        clean =
            subst (All InLine) same
              (subst (All InLine) (sym (line_of-whole h.text)) (line-InLine h));
        short = omega (arith, ap length same, h.short);
        same =
            subst (λ l. parse_line (l ++ (10 ∷ [])) ≡ some (reloaded e)) same
              (parse_line-line_of h);
      }
