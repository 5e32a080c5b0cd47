-- ===== src/Tests/Tables.antt =====
-- The address table and the session.
use memory_tools.Prelude.{
  ℕ, ◌≡◌, refl, true, false, [], ◌∷◌, none, some, codes, Option, is_blank, inl, inr, arith, Bytes,
}
use memory_tools.Scanner.{fresh}
use memory_tools.Session.{Session}
use memory_tools.Table.File.{line_of, save}
use memory_tools.Table.Load.Absolute.{IsAbsolute}
use memory_tools.Table.Load.Keys.{IsChain}
use memory_tools.Table.Load.Reload.{load-save}
use memory_tools.Table.Load.{load, parse_pointer_line}
use memory_tools.Pointer.Resolver.{PointerChainRef, module_base}
use memory_tools.Table.{
  AddressEntry, AddressTable, add, remove, get_entry, quote_desc, unquote_desc,
}
use memory_tools.Types.{DataType, type_is_dynamic}

abbrev entry : ℕ → AddressEntry
entry a = record {
  address = a;
  type = DataType.i32;
  description = codes "gold";
  enabled = true;
  stale = false;
  ptr = none;
}

abbrev table : AddressTable
table = entry 16 ∷ entry 32 ∷ entry 48 ∷ []

quote_run :
    quote_desc (b'a' ∷ b'"' ∷ 10 ∷ b'\\' ∷ [])
    ≡ b'"' ∷ b'a' ∷ b'\\' ∷ b'"' ∷ b'\\' ∷ b'n' ∷ b'\\' ∷ b'\\' ∷ b'"' ∷ []
unfolding quote_desc
quote_run = refl

abbrev pub session : Session
session = record {
  pid = some 10;
  scanner = record fresh { candidates = record { addr = 16; prev = 1 } ∷ [] };
  scan_type = DataType.i32;
  table = table;
  last_pointer = none;
}

abbrev root : PointerChainRef
root = record {
  root = module_base (codes "a") 4660;
  offsets = 16 ∷ 8 ∷ [];
  value_type = DataType.i32;
}

abbrev chained : AddressEntry
chained = record (entry 0) { ptr = some root; enabled = false }

entry-IsAbsolute : IsAbsolute (entry 16)
unfolding line_of type_is_dynamic memory_tools.Numerals.hex16 memory_tools.Numerals.hex_digits
    memory_tools.Types.type_name quote_desc memory_tools.Prelude.c_string
entry-IsAbsolute = record {
  no_chain = refl;
  fixed = refl;
  in_word = omega arith;
  text = (omega arith, (omega arith, (omega arith, (omega arith, tt))));
  short = omega arith;
}

chained-IsChain : IsChain chained root
unfolding line_of type_is_dynamic is_blank memory_tools.Numerals.hex16
    memory_tools.Numerals.hex_digits memory_tools.Types.type_name quote_desc
    memory_tools.Table.File.spaced memory_tools.Table.File.chain_words
    memory_tools.Table.File.write_steps memory_tools.Table.File.root_words
    memory_tools.Table.File.hex_short memory_tools.Table.File.hex_width
    memory_tools.Prelude.c_string
chained-IsChain = record {
  has_chain = refl;
  same_type = refl;
  same_address = refl;
  fixed = refl;
  no_pointer = refl;
  base = (((refl, omega arith), tt), omega arith);
  steps = (omega arith, (omega arith, tt));
  text = (omega arith, (omega arith, (omega arith, (omega arith, tt))));
  short = omega arith;
}

load-save_example : load (save (entry 16 ∷ chained ∷ [])) ≡ entry 16 ∷ chained ∷ []
load-save_example =
    load-save (entry 16 ∷ chained ∷ []) (inl entry-IsAbsolute, (inr (root, chained-IsChain), tt))

-- A chain in a module with a blank in its name is not loaded: the line splits at the blank.
blank_in_name : parse_pointer_line (codes " type=i32 module=a b root=0x10") ≡ none
unfolding parse_pointer_line memory_tools.Table.Load.split_line memory_tools.Table.Load.next_word
    memory_tools.Table.Load.span_word memory_tools.Table.Load.set_keys
    memory_tools.Table.Load.set_key memory_tools.Table.Load.split_key
    memory_tools.Prelude.skip_blanks memory_tools.Prelude.head_is memory_tools.Prelude.bytes_eq
    is_blank memory_tools.Types.parse_type
blank_in_name = refl
