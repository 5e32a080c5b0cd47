-- ===== src/Table/Load.antt =====
-- Reading an address table (`load` and `parse_pointer_line` of src/address_table.cpp).
pub mod Words
pub mod Absolute
pub mod Chain
pub mod Keys
pub mod Pointers
pub mod Reload
use memory_tools.Pointer.Resolver.{PointerBase, absolute, module_base, PointerChainRef}
use memory_tools.Prelude.{
  c_string, ℕ, zero, suc, ◌+◌, Bool, true, false, not, ◌&&◌, ◌||◌, List, [], ◌∷◌, ◌++◌, Option,
  none, some, Bytes, codes, bytes_eq, ◌==◌, if◌then◌else◌, length, tail, is_nil, head_is, is_blank,
  skip_blanks, and_then,
}
use memory_tools.Table.{AddressEntry, AddressTable, unquote_desc}
use memory_tools.Table.File.{strtoull_whole, flag_value}
use memory_tools.Types.{DataType, i32, ptr, parse_type}

-- The bytes before the first blank, and what is left.
unfoldable pub span_word : Bytes → Bytes × Bytes
span_word [] = ([], [])
span_word (c ∷ cs) =
    let (word, rest) = span_word cs in if is_blank c then ([], c ∷ cs) else (c ∷ word, rest)

-- `stream >> word`; the word is empty where the stream has no more.
unfoldable pub next_word : Bytes → Bytes × Bytes
next_word s = span_word (skip_blanks s)

-- The words of a `pointer` line up to the one that begins with a quote, and the text from that
-- quote on. Each word takes a byte at least.
unfoldable pub split_line : ℕ → Bytes → List Bytes × Bytes
split_line zero s = ([], [])
split_line (suc f) s =
    let (word, rest) = next_word s in
    let (words, desc) = split_line f rest in
    if is_nil word
    then ([], [])
    else if head_is b'"' word
    then ([], word ++ rest)
    else (word ∷ words, desc)

-- The bytes before the first `=` and those after it.
unfoldable pub split_key : Bytes → Option (Bytes × Bytes)
split_key [] = none
split_key (c ∷ cs) =
    if c == b'=' then some ([], cs) else and_then (split_key cs) λ (key, val). some (c ∷ key, val)

-- The numbers of `steps=`; `part` is what has been read of the next one.
unfoldable pub parse_steps : Bytes → Bytes → Option (List ℕ)
parse_steps part [] =
    if is_nil part then some [] else and_then (strtoull_whole part) λ v. some (v ∷ [])
parse_steps part (c ∷ cs) =
    let next = parse_steps [] cs in
    let longer = parse_steps (part ++ (c ∷ [])) cs in
    if c == b','
    then (and_then (strtoull_whole part) λ v. and_then next λ vs. some (v ∷ vs))
    else longer

-- The local variables of `parse_pointer_line`; `type` is none as long as `have_type` is false.
pub record Draft : Type 0 where
  pub type : Option DataType
  pub enabled : Bool
  pub module_name : Option Bytes
  pub root : Option ℕ
  pub steps : List ℕ

abbrev pub is_ptr : DataType → Bool
is_ptr ptr = true
is_ptr _ = false

unfoldable pub set_key : Draft → Bytes → Bytes → Option Draft
set_key d key val =
    if bytes_eq key (codes "type")
    then (and_then (parse_type val)
        λ t. if is_ptr t then none else some (record d { type = some t }))
    else if bytes_eq key (codes "module")
    then some (record d { module_name = some val })
    else if bytes_eq key (codes "root")
    then (and_then (strtoull_whole val) λ v. some (record d { root = some v }))
    else if bytes_eq key (codes "steps")
    then (and_then (parse_steps [] val) λ vs. some (record d { steps = d.steps ++ vs }))
    else if bytes_eq key (codes "enabled")
    then (and_then (flag_value val) λ b. some (record d { enabled = b }))
    else some d

-- The loop over the words.
unfoldable pub set_keys : Draft → List Bytes → Option Draft
set_keys d [] = some d
set_keys d (w ∷ ws) =
    and_then (split_key w) λ (key, val). and_then (set_key d key val) λ d'. set_keys d' ws

abbrev pub chain_root : Option Bytes → ℕ → PointerBase
chain_root none root = absolute root
chain_root (some name) root = module_base name root

abbrev pub chain_address : Option Bytes → ℕ → ℕ
chain_address none root = root
chain_address (some name) root = 0

unfoldable pub finish_draft : Draft → Bytes → Option AddressEntry
finish_draft d desc_raw = and_then d.type λ t. and_then d.root λ root. some (record {
  address = chain_address d.module_name root;
  type = t;
  description = unquote_desc desc_raw;
  enabled = d.enabled;
  stale = false;
  ptr = some (record { root = chain_root d.module_name root; offsets = d.steps; value_type = t });
})

abbrev pub blank_draft : Draft
blank_draft = record { type = none; enabled = true; module_name = none; root = none; steps = [] }

unfoldable pub parse_pointer_line : Bytes → Option AddressEntry
parse_pointer_line s =
    let (words, desc_raw) = split_line (suc (length s)) s in
    and_then (set_keys blank_draft words) λ d. finish_draft d desc_raw

-- Without the spaces and tabs in front.
unfoldable pub skip_tabs : Bytes → Bytes
skip_tabs [] = []
skip_tabs (c ∷ cs) = if c == b' ' || c == 9 then skip_tabs cs else c ∷ cs

unfoldable pub read_desc : Bytes → Bytes
read_desc rest = if head_is b'"' rest then unquote_desc rest else rest

-- The line of an absolute entry, from its first word on.
unfoldable pub parse_absolute_line : Bytes → Bytes → Option AddressEntry
parse_absolute_line first s =
    let (type_s, after_type) = next_word s in
    let (en_s, rest) = next_word after_type in
    if is_nil en_s
    then none
    else and_then (strtoull_whole first) λ addr. and_then (parse_type type_s) λ t.
      and_then (flag_value en_s) λ en. some (record {
        address = addr;
        type = t;
        description = read_desc (skip_tabs rest);
        enabled = en;
        stale = false;
        ptr = none;
      })

unfoldable pub is_trimmed : ℕ → Bool
is_trimmed c = c == b' ' || c == 9 || c == 10 || c == 13

unfoldable pub trim_start : Bytes → Bytes
trim_start [] = []
trim_start (c ∷ cs) = if is_trimmed c then trim_start cs else c ∷ cs

unfoldable pub trim_end : Bytes → Bytes
trim_end [] = []
trim_end (c ∷ cs) = let rest = trim_end cs in if is_nil rest && is_trimmed c then [] else c ∷ rest

-- A line that is kept gives an entry.
unfoldable pub parse_line : Bytes → Option AddressEntry
parse_line line =
    let s = trim_end (trim_start line) in
    let (first, rest) = next_word s in
    if is_nil s || head_is b'#' s
    then none
    else if is_nil first
    then none
    else if bytes_eq first (codes "pointer")
    then parse_pointer_line rest
    else parse_absolute_line first rest

-- `fgets` of `n` bytes at most, up to a line feed.
unfoldable pub fgets : ℕ → Bytes → Bytes × Bytes
fgets zero s = ([], s)
fgets (suc n) [] = ([], [])
fgets (suc n) (c ∷ cs) =
    let (line, rest) = fgets n cs in if c == 10 then (10 ∷ [], cs) else (c ∷ line, rest)

abbrev pub push_some : Option AddressEntry → AddressTable → AddressTable
push_some none es = es
push_some (some e) es = e ∷ es

-- `line[4096]` holds 4095 bytes. Each round reads one of the text at least.
unfoldable pub load_lines : ℕ → Bytes → AddressTable
load_lines zero text = []
load_lines (suc f) text =
    let (line, rest) = fgets 4095 text in
    let entries = load_lines f rest in
    if is_nil text then [] else push_some (parse_line (c_string line)) entries

unfoldable pub load : Bytes → AddressTable
load text = load_lines (suc (length text)) text
