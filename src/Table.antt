-- ===== src/Table.antt =====
-- The address table (src/address_table.h and address_table.cpp): its entries, and how a description
-- is quoted in its file.
pub mod Quote
pub mod Entries
pub mod File
pub mod Load
use memory_tools.Pointer.Resolver.{PointerBase, absolute, module_base, PointerChainRef}
use memory_tools.Prelude.{
  ℕ, zero, suc, ◌-◌, Bool, true, false, List, [], ◌∷◌, ◌++◌, Option, none, some, Bytes, ◌==◌, leb,
  if◌then◌else◌, length, remove_at, get_elem?, drop,
}
use memory_tools.Types.{DataType}

pub record AddressEntry : Type 0 where
  pub address : ℕ
  pub type : DataType
  pub description : Bytes
  pub enabled : Bool
  pub stale : Bool
  pub ptr : Option PointerChainRef

abbrev pub AddressTable : Type 0
AddressTable = List AddressEntry

-- The table with the entry at its end, and the entry's index.
unfoldable pub add : AddressTable → ℕ → DataType → Bytes → AddressTable × ℕ
add entries address type description =
    let e : AddressEntry = record {
      address = address;
      type = type;
      description = description;
      enabled = true;
      stale = false;
      ptr = none;
    } in
    (entries ++ (e ∷ []), length (entries ++ (e ∷ [])) - 1)

abbrev fixed_address : PointerBase → ℕ
fixed_address (absolute a) = a
fixed_address (module_base name offset) = 0

unfoldable pub add_chain : AddressTable → PointerChainRef → Bytes → AddressTable × ℕ
add_chain entries chain description =
    let e : AddressEntry = record {
      address = fixed_address chain.root;
      type = chain.value_type;
      description = description;
      enabled = true;
      stale = false;
      ptr = some chain;
    } in
    (entries ++ (e ∷ []), length (entries ++ (e ∷ [])) - 1)

unfoldable pub remove : AddressTable → ℕ → AddressTable × Bool
remove entries index =
    if leb (length entries) index then (entries, false) else (remove_at entries index, true)

unfoldable pub clear_table : AddressTable → AddressTable
clear_table entries = []

unfoldable pub get_entry : AddressTable → ℕ → Option AddressEntry
get_entry entries index = get_elem? entries index

unfoldable pub mark_all_stale : AddressTable → AddressTable
mark_all_stale [] = []
mark_all_stale (e ∷ es) = record e { stale = true } ∷ mark_all_stale es

-- The body of a quoted description: `"`, `\` and the line feed have a backslash.
unfoldable pub escape : Bytes → Bytes
escape [] = []
escape (c ∷ cs) =
    if c == b'"'
    then b'\\' ∷ b'"' ∷ escape cs
    else if c == b'\\'
    then b'\\' ∷ b'\\' ∷ escape cs
    else if c == 10
    then b'\\' ∷ b'n' ∷ escape cs
    else c ∷ escape cs

unfoldable pub quote_desc : Bytes → Bytes
unfolding escape
quote_desc s = b'"' ∷ (escape s ++ (b'"' ∷ []))

-- Without the quote at the end, if there is one.
unfoldable pub strip_quote : Bytes → Bytes
strip_quote [] = []
strip_quote (c ∷ []) = if c == b'"' then [] else c ∷ []
strip_quote (c ∷ d ∷ cs) = c ∷ strip_quote (d ∷ cs)

unfoldable pub unescape : Bytes → Bytes
unescape [] = []
unescape (c ∷ []) = c ∷ []
unescape (c ∷ d ∷ cs) =
    if c == b'\\' then (if d == b'n' then 10 else d) ∷ unescape cs else c ∷ unescape (d ∷ cs)

-- `s` begins with the quote, which is passed over unseen.
unfoldable pub unquote_desc : Bytes → Bytes
unfolding strip_quote unescape
unquote_desc s = unescape (strip_quote (drop 1 s))
