-- ===== src/Table/File.antt =====
-- The text of an address table: writing it and reading it back (`save` and `load` of
-- src/address_table.cpp). The opening and closing of the file are left out: what is written is a
-- list of bytes, and so is what is read.
use memory_tools.Numerals.{hex_digits, hex16, based_value, in_range, skip_plus}
use memory_tools.Pointer.Resolver.{PointerBase, absolute, module_base, PointerChainRef}
use memory_tools.Prelude.{
  ℕ, zero, suc, ◌/◌, Bool, true, false, not, ◌||◌, List, [], ◌∷◌, ◌++◌, Option, none, some, Bytes,
  codes, ◌==◌, ltb, if◌then◌else◌, tail, is_nil, head_is, c_string,
}
use memory_tools.Table.{AddressEntry, AddressTable, quote_desc}
use memory_tools.Types.{type_name}

-- How many digits `%llx` writes, up to the fuel.
unfoldable pub hex_width : ℕ → ℕ → ℕ
hex_width zero n = 0
hex_width (suc f) n = let more = hex_width f (n / 16) in if ltb n 16 then 1 else suc more

-- `0x%llx` of a 64-bit number.
unfoldable pub hex_short : ℕ → Bytes
hex_short n = b'0' ∷ b'x' ∷ hex_digits (hex_width 16 n) n []

abbrev pub flag : Bool → Bytes
flag true = b'1' ∷ []
flag false = b'0' ∷ []

unfoldable pub write_steps : List ℕ → Bytes
write_steps [] = []
write_steps (n ∷ []) = hex_short n
write_steps (n ∷ m ∷ ns) = hex_short n ++ (b',' ∷ write_steps (m ∷ ns))

-- The words of a `pointer` line after the first.
unfoldable pub root_words : PointerBase → List Bytes
root_words (absolute a) = (codes "root=" ++ hex_short a) ∷ []
root_words (module_base name offset) =
    (codes "module=" ++ c_string name) ∷ (codes "root=" ++ hex_short offset) ∷ []

unfoldable pub chain_words : AddressEntry → PointerChainRef → List Bytes
chain_words e chain =
    (codes "type=" ++ type_name e.type)
    ∷ (root_words chain.root
        ++ ((codes "steps=" ++ write_steps chain.offsets)
            ∷ (codes "enabled=" ++ flag e.enabled)
            ∷ []))

-- The words, each with a space in front, before `rest`.
unfoldable pub spaced : List Bytes → Bytes → Bytes
spaced [] rest = rest
spaced (w ∷ ws) rest = b' ' ∷ (w ++ spaced ws rest)

-- A line of the text, without its line feed. A text is printed up to its first zero byte.
unfoldable pub line_of : AddressEntry → Option PointerChainRef → Bytes
line_of e none =
    hex16 e.address
    ++ (b' '
        ∷ (type_name e.type
            ++ (b' ' ∷ (flag e.enabled ++ (b' ' ∷ c_string (quote_desc e.description))))))
line_of e (some chain) =
    codes "pointer" ++ spaced (chain_words e chain) (b' ' ∷ c_string (quote_desc e.description))

unfoldable pub save_entries : AddressTable → Bytes
save_entries [] = []
save_entries (e ∷ es) = line_of e e.ptr ++ (10 ∷ save_entries es)

unfoldable pub save : AddressTable → Bytes
save entries = codes "# MemoryTool Address Table v1" ++ (10 ∷ save_entries entries)

-- What `strtoull` with base 0 makes of a text without its sign, where it reads the whole of it.
unfoldable pub magnitude : Bytes → Option ℕ
magnitude [] = none
magnitude (c ∷ []) = based_value 10 0 (c ∷ [])
magnitude (c ∷ d ∷ cs) =
    if not (c == b'0')
    then based_value 10 0 (c ∷ d ∷ cs)
    else if d == b'x' || d == b'X'
    then (if is_nil cs then none else based_value 16 0 cs)
    else based_value 8 0 (d ∷ cs)

-- `strtoull` with base 0 and the tests after it, on a text without blanks.
unfoldable pub strtoull_whole : Bytes → Option ℕ
strtoull_whole s =
    if head_is b'-' s
    then in_range true (magnitude (tail s))
    else in_range false (magnitude (skip_plus s))

abbrev pub is_nonzero : Option ℕ → Option Bool
is_nonzero none = none
is_nonzero (some v) = some (not (v == 0))

-- `strtol` with base 10 and the tests after it, and whether the number is not 0. Its range is not
-- tested: a number outside is not 0 either.
unfoldable pub flag_value : Bytes → Option Bool
flag_value s =
    let digits = if head_is b'-' s then tail s else skip_plus s in
    if is_nil digits then none else is_nonzero (based_value 10 0 digits)
