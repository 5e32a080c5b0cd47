-- ===== src/Table/Load/Absolute.antt =====
-- The line of an absolute entry, written and read back.
use mathlib.Core.Path.{subst}
use memory_tools.Numerals.{hex16, based_value, digit_value}
use memory_tools.Prelude.{
  ℕ, ◌^◌, ◌<◌, ◌≡◌, refl, sym, ap, ◌∙◌, Bool, true, false, [], ◌∷◌, ◌++◌, some, none, Bytes, codes,
  bytes_eq, length, arith, All, All-append, head_is, is_nil, is_blank, c_string,
}
use memory_tools.Pattern.{hex_value}
use memory_tools.Table.{AddressEntry, quote_desc, unquote_desc, escape}
use memory_tools.Table.File.{flag, flag_value, line_of}
use memory_tools.Table.Load.{
  next_word, trim_start, is_trimmed, skip_tabs, read_desc, parse_absolute_line, parse_line,
}
use memory_tools.Table.Load.Words.{
  InWord, InLine, Ends, Ends-append, next_word-append, next_word-space, hex_digits-InWord,
  strtoull_whole-hex16, c_string_whole, InLine→positive, trim_end-Ends, InWord→InLine,
  type_name-InWord, some_name,
}
use memory_tools.Table.Quote.{unquote_desc-quote_desc}
use memory_tools.Types.{type_is_dynamic, type_name}
use memory_tools.Types.Order.{parse_type-type_name}

hex16-InWord : (n : ℕ) → All InWord (hex16 n)
unfolding hex16 is_blank
hex16-InWord n = ((refl, omega arith), ((refl, omega arith), hex_digits-InWord 16 n [] tt))

pub flag-InWord : (b : Bool) → All InWord (flag b)
unfolding is_blank
flag-InWord true = ((refl, omega arith), tt)
flag-InWord false = ((refl, omega arith), tt)

some_hex16 : (n : ℕ) → is_nil (hex16 n) ≡ false
unfolding hex16
some_hex16 n = refl

some_flag : (b : Bool) → is_nil (flag b) ≡ false
some_flag true = refl
some_flag false = refl

pub flag_value-flag : (b : Bool) → flag_value (flag b) ≡ some b
unfolding flag_value based_value digit_value hex_value head_is
flag_value-flag true = refl
flag_value-flag false = refl

pub escape-InLine : (s : Bytes) → All (λ c. 0 < c) s → All InLine (escape s)
unfolding escape
escape-InLine [] h = tt
escape-InLine (c ∷ cs) h = let rest = escape-InLine cs h.1 in ground (arith, rest, h.0)

pub quote_desc-InLine : (s : Bytes) → All (λ c. 0 < c) s → All InLine (quote_desc s)
unfolding quote_desc
quote_desc-InLine s h = (
  (refl, omega arith),
  All-append InLine (escape s) (b'"' ∷ []) (escape-InLine s h) ((refl, omega arith), tt),
)

-- A description with no zero byte is printed whole.
pub c_string-quote_desc : (s : Bytes) → All (λ c. 0 < c) s → c_string (quote_desc s) ≡ quote_desc s
c_string-quote_desc s h =
    c_string_whole (quote_desc s) (InLine→positive (quote_desc s) (quote_desc-InLine s h))

-- The line of an absolute entry after its first word.
abbrev after_address : AddressEntry → Bytes
after_address e = type_name e.type ++ (b' ' ∷ (flag e.enabled ++ (b' ' ∷ quote_desc e.description)))

-- What loading makes of an entry.
abbrev pub reloaded : AddressEntry → AddressEntry
reloaded e = record e { stale = false }

-- The entry is an absolute one of a type of fixed size, its address has 64 bits, and its
-- description no zero byte.
pub record IsAbsolute (e : AddressEntry) : Type 0 where
  pub no_chain : e.ptr ≡ none
  pub fixed : type_is_dynamic e.type ≡ false
  pub in_word : e.address < 2 ^ 64
  pub text : All (λ c. 0 < c) e.description
  pub short : length (line_of e none) < 4095

read_quoted : (s : Bytes) → read_desc (skip_tabs (b' ' ∷ quote_desc s)) ≡ s
unfolding read_desc skip_tabs head_is
read_quoted s =
    let found : read_desc (skip_tabs (b' ' ∷ quote_desc s)) ≡ unquote_desc (quote_desc s) =
      unfold quote_desc in refl in
    found ∙ unquote_desc-quote_desc s

parse_absolute_line-after :
    (e : AddressEntry)
    → IsAbsolute e
    → parse_absolute_line (hex16 e.address) (b' ' ∷ after_address e) ≡ some (reloaded e)
unfolding parse_absolute_line
parse_absolute_line-after e h =
    rw
      (
        next_word-space (type_name e.type) (flag e.enabled ++ (b' ' ∷ quote_desc e.description))
            (some_name e.type) (type_name-InWord e.type),
        next_word-space (flag e.enabled) (quote_desc e.description) (some_flag e.enabled)
            (flag-InWord e.enabled),
        some_flag e.enabled,
        strtoull_whole-hex16 e.address h.in_word,
        parse_type-type_name e.type,
        h.fixed,
        flag_value-flag e.enabled,
        read_quoted e.description,
      )
      (ap (λ p. some (record e { stale = false; ptr = p })) (sym h.no_chain))

-- The line of an absolute entry whose description has no zero byte.
abbrev whole_line : AddressEntry → Bytes
whole_line e = hex16 e.address ++ (b' ' ∷ after_address e)

line_of-whole : (e : AddressEntry) → All (λ c. 0 < c) e.description → line_of e none ≡ whole_line e
unfolding line_of
line_of-whole e h = rw (c_string-quote_desc e.description h) refl

line-InLine : (e : AddressEntry) → IsAbsolute e → All InLine (whole_line e)
line-InLine e h = All-append InLine (hex16 e.address) _ (InWord→InLine _ (hex16-InWord e.address)) (
  space,
  All-append InLine (type_name e.type) _ (InWord→InLine _ (type_name-InWord e.type)) (
    space,
    All-append InLine (flag e.enabled) _ (InWord→InLine _ (flag-InWord e.enabled))
        (space, quote_desc-InLine e.description h.text),
  ),
)
  where
    space : InLine b' '
    space = (refl, omega arith)

line-Ends : (e : AddressEntry) → Ends (whole_line e)
unfolding quote_desc
line-Ends e = Ends-append (hex16 e.address) _ (
    Ends-append (b' ' ∷ type_name e.type) _ (
      Ends-append (b' ' ∷ flag e.enabled) _
        (Ends-append (b' ' ∷ b'"' ∷ escape e.description) (b'"' ∷ []) refl)))

line_start : (e : AddressEntry) → trim_start (whole_line e ++ (10 ∷ [])) ≡ whole_line e ++ (10 ∷ [])
unfolding hex16 trim_start is_trimmed
line_start e = refl

line_head :
    (e : AddressEntry) → (is_nil (whole_line e) ≡ false) × (head_is b'#' (whole_line e) ≡ false)
unfolding hex16 head_is
line_head e = (refl, refl)

first_word :
    (e : AddressEntry) → next_word (whole_line e) ≡ (hex16 e.address, b' ' ∷ after_address e)
first_word e =
    next_word-append (hex16 e.address) (after_address e) (some_hex16 e.address)
      (hex16-InWord e.address)

not_pointer : (n : ℕ) → bytes_eq (hex16 n) (codes "pointer") ≡ false
unfolding hex16 bytes_eq
not_pointer n = refl

-- A written line, with its line feed, is read back.
parse_line-line_of :
    (e : AddressEntry) → IsAbsolute e → parse_line (line_of e none ++ (10 ∷ [])) ≡ some (reloaded e)
unfolding parse_line
parse_line-line_of e h =
    rw
      (
        line_of-whole e h.text,
        line_start e,
        trim_end-Ends (whole_line e) (line-Ends e),
        (line_head e).0,
        (line_head e).1,
        first_word e,
        some_hex16 e.address,
        not_pointer e.address,
      )
      (parse_absolute_line-after e h)

-- What `load` needs of an entry: its line can be told from the next and is read back.
pub record IsReadBack (e : AddressEntry) : Type 0 where
  pub clean : All InLine (line_of e e.ptr)
  pub short : length (line_of e e.ptr) < 4095
  pub same : parse_line (line_of e e.ptr ++ (10 ∷ [])) ≡ some (reloaded e)

pub absolute-IsReadBack : (e : AddressEntry) → IsAbsolute e → IsReadBack e
absolute-IsReadBack e h =
    let same : line_of e none ≡ line_of e e.ptr = ap (line_of e) (sym h.no_chain) in
    record {
      clean =
          subst (All InLine) same
            (subst (All InLine) (sym (line_of-whole e h.text)) (line-InLine e h));
      short = omega (arith, ap length same, h.short);
      same =
          subst (λ l. parse_line (l ++ (10 ∷ [])) ≡ some (reloaded e)) same
            (parse_line-line_of e h);
    }
