-- ===== src/Table/Load/Keys.antt =====
-- The keys of a `pointer` line and their values, written and read back.
use memory_tools.Pointer.Resolver.{PointerBase, absolute, module_base, PointerChainRef}
use memory_tools.Prelude.{
  ℕ, ◌^◌, ◌<◌, ◌≡◌, refl, sym, ap, ◌∙◌, Bool, true, false, List, [], ◌∷◌, ◌++◌, Option, some, none,
  Bytes, codes, bytes_eq, ◌==◌, length, arith, All, All-append, head_is, is_blank, c_string,
}
use memory_tools.Table.{AddressEntry, quote_desc, fixed_address}
use memory_tools.Table.File.{
  hex_width, hex_short, flag, write_steps, root_words, chain_words, line_of,
}
use memory_tools.Table.Load.{
  Draft, blank_draft, split_key, set_key, set_keys, is_ptr, chain_root, chain_address, finish_draft,
}
use memory_tools.Table.Load.Absolute.{reloaded, flag-InWord, flag_value-flag}
use memory_tools.Table.Load.Chain.{IsWord, parse_steps-write_steps, strtoull_whole-hex_short}
use memory_tools.Table.Load.Words.{
  InWord, InWord→positive, c_string_whole, hex_digits-InWord, type_name-InWord, all_in_word,
  all_in_word-InWord,
}
use memory_tools.Table.Quote.{unquote_desc-quote_desc}
use memory_tools.Types.{DataType, type_is_dynamic, type_name}
use memory_tools.Types.Order.{parse_type-type_name}

-- The number of a base has 64 bits, and the name of a module has no blank in it.
abbrev pub FitsBase : PointerBase → Type 0
FitsBase (absolute a) = a < 2 ^ 64
FitsBase (module_base name offset) = All InWord name × (offset < 2 ^ 64)

-- The entry holds the chain and agrees with it, as `add` makes it; the type is of fixed size and not
-- a pointer, the numbers have 64 bits, and the description has no zero byte.
pub record IsChain (e : AddressEntry) (chain : PointerChainRef) : Type 0 where
  pub has_chain : e.ptr ≡ some chain
  pub same_type : e.type ≡ chain.value_type
  pub same_address : e.address ≡ fixed_address chain.root
  pub fixed : type_is_dynamic e.type ≡ false
  pub no_pointer : is_ptr e.type ≡ false
  pub base : FitsBase chain.root
  pub steps : All (λ n. n < 2 ^ 64) chain.offsets
  pub text : All (λ c. 0 < c) e.description
  pub short : length (line_of e (some chain)) < 4095

hex_short-InWord : (n : ℕ) → All InWord (hex_short n)
unfolding hex_short is_blank
hex_short-InWord n =
    ((refl, omega arith), ((refl, omega arith), hex_digits-InWord (hex_width 16 n) n [] tt))

write_steps-InWord : (ns : List ℕ) → All InWord (write_steps ns)
unfolding write_steps is_blank
write_steps-InWord [] = tt
write_steps-InWord (n ∷ []) = hex_short-InWord n
write_steps-InWord (n ∷ m ∷ ns) =
    All-append InWord (hex_short n) _ (hex_short-InWord n)
      ((refl, omega arith), write_steps-InWord (m ∷ ns))

-- A key of the file with its value is a word.
key-IsWord :
    (c : ℕ) (key value : Bytes)
    → all_in_word (c ∷ key) ≡ true
    → c == b'"' ≡ false
    → All InWord value
    → IsWord ((c ∷ key) ++ value)
unfolding head_is
key-IsWord c key value h q k = record {
  some_byte = refl;
  bytes = All-append InWord (c ∷ key) value (all_in_word-InWord (c ∷ key) h) k;
  no_quote = q;
}

name_whole : (name : Bytes) → All InWord name → c_string name ≡ name
name_whole name h = c_string_whole name (InWord→positive name h)

root_words-IsWord : (b : PointerBase) → FitsBase b → All IsWord (root_words b)
unfolding root_words
root_words-IsWord (absolute a) h = (
  key-IsWord b'r' (codes "oot=") (hex_short a) (unfold all_in_word is_blank in refl) refl
      (hex_short-InWord a),
  tt,
)
root_words-IsWord (module_base name offset) h = (
  key-IsWord b'm' (codes "odule=") (c_string name) (unfold all_in_word is_blank in refl) refl
      (rw (name_whole name h.0) h.0),
  (
    key-IsWord b'r' (codes "oot=") (hex_short offset) (unfold all_in_word is_blank in refl) refl
        (hex_short-InWord offset),
    tt,
  ),
)

pub chain_words-IsWord :
    (e : AddressEntry) (chain : PointerChainRef)
    → FitsBase chain.root
    → All IsWord (chain_words e chain)
unfolding chain_words
chain_words-IsWord e chain h = (
  key-IsWord b't' (codes "ype=") (type_name e.type) (unfold all_in_word is_blank in refl) refl
      (type_name-InWord e.type),
  All-append IsWord (root_words chain.root) _ (root_words-IsWord chain.root h) (
    key-IsWord b's' (codes "teps=") (write_steps chain.offsets)
        (unfold all_in_word is_blank in refl) refl (write_steps-InWord chain.offsets),
    (
      key-IsWord b'e' (codes "nabled=") (flag e.enabled) (unfold all_in_word is_blank in refl) refl
          (flag-InWord e.enabled),
      tt,
    ),
  ),
)

abbrev base_name : PointerBase → Option Bytes
base_name (absolute a) = none
base_name (module_base name offset) = some name

abbrev base_number : PointerBase → ℕ
base_number (absolute a) = a
base_number (module_base name offset) = offset

-- The words of the base fill in its fields.
set_keys-root_words :
    (b : PointerBase) (t : DataType) (ws : List Bytes)
    → FitsBase b
    → set_keys (record blank_draft { type = some t }) (root_words b ++ ws)
      ≡ set_keys
          (record blank_draft {
            type = some t;
            module_name = base_name b;
            root = some (base_number b);
          })
          ws
unfolding set_keys root_words set_key split_key bytes_eq
set_keys-root_words (absolute a) t ws h = rw (strtoull_whole-hex_short a h) refl
set_keys-root_words (module_base name offset) t ws h =
    rw (name_whole name h.0, strtoull_whole-hex_short offset h.1) refl

-- The words after the base fill in the rest.
set_keys-last :
    (d : Draft) (ns : List ℕ) (b : Bool)
    → All (λ n. n < 2 ^ 64) ns
    → d.steps ≡ []
    → set_keys d ((codes "steps=" ++ write_steps ns) ∷ (codes "enabled=" ++ flag b) ∷ [])
      ≡ some (record d { steps = ns; enabled = b })
unfolding set_keys set_key split_key bytes_eq
set_keys-last d ns b h e = rw (parse_steps-write_steps ns h, flag_value-flag b, e) refl

pub set_keys-chain_words :
    (e : AddressEntry) (chain : PointerChainRef)
    → IsChain e chain
    → set_keys blank_draft (chain_words e chain)
      ≡ some (record {
        type = some e.type;
        enabled = e.enabled;
        module_name = base_name chain.root;
        root = some (base_number chain.root);
        steps = chain.offsets;
      })
unfolding chain_words set_keys set_key split_key bytes_eq
set_keys-chain_words e chain h =
    rw
      (
        parse_type-type_name e.type,
        h.fixed,
        h.no_pointer,
        set_keys-root_words chain.root e.type
            ((codes "steps=" ++ write_steps chain.offsets)
              ∷ (codes "enabled=" ++ flag e.enabled)
              ∷ [])
            h.base,
      )
      (set_keys-last _ chain.offsets e.enabled h.steps refl)

root_of : (b : PointerBase) → chain_root (base_name b) (base_number b) ≡ b
root_of (absolute a) = refl
root_of (module_base name offset) = refl

address_of : (b : PointerBase) → chain_address (base_name b) (base_number b) ≡ fixed_address b
address_of (absolute a) = refl
address_of (module_base name offset) = refl

pub finish_draft-reloaded :
    (e : AddressEntry) (chain : PointerChainRef)
    → IsChain e chain
    → finish_draft
        (record {
          type = some e.type;
          enabled = e.enabled;
          module_name = base_name chain.root;
          root = some (base_number chain.root);
          steps = chain.offsets;
        })
        (quote_desc e.description)
      ≡ some (reloaded e)
unfolding finish_draft
finish_draft-reloaded e chain h =
    rw
      (
        unquote_desc-quote_desc e.description,
        root_of chain.root,
        address_of chain.root,
        sym h.same_address,
      )
      (ap (λ t. some (record e { stale = false; ptr = some (record chain { value_type = t }) }))
          h.same_type
        ∙ ap (λ p. some (record e { stale = false; ptr = p })) (sym h.has_chain))
