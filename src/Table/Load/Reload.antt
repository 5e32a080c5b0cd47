-- ===== src/Table/Load/Reload.antt =====
-- A whole address table, written and read back.
use memory_tools.Prelude.{
  c_string, ℕ, zero, suc, ◌<◌, ◌≡◌, ◌⊎◌, inl, inr, refl, ◌∙◌, false, [], ◌∷◌, ◌++◌, Bytes, codes,
  length, length-append, arith, All, map, head_is, is_nil,
}
use memory_tools.Pointer.Resolver.{PointerChainRef}
use memory_tools.Table.{AddressEntry, AddressTable}
use memory_tools.Table.File.{line_of, save_entries, save}
use memory_tools.Table.Load.{
  next_word, trim_start, trim_end, is_trimmed, parse_line, fgets, load_lines, load,
}
use memory_tools.Table.Load.Absolute.{IsAbsolute, IsReadBack, absolute-IsReadBack, reloaded}
use memory_tools.Table.Load.Keys.{IsChain}
use memory_tools.Table.Load.Pointers.{chain-IsReadBack}
use memory_tools.Table.Load.Words.{c_string-InLine, fgets-InLine}

-- An entry that can be saved: an absolute one or a chain.
abbrev pub IsSavable : AddressEntry → Type 0
IsSavable e = IsAbsolute e ⊎ ((chain : PointerChainRef) × IsChain e chain)

savable-IsReadBack : (e : AddressEntry) → IsSavable e → IsReadBack e
savable-IsReadBack e (inl h) = absolute-IsReadBack e h
savable-IsReadBack e (inr (chain, h)) = chain-IsReadBack e chain h

some_line : (s t : Bytes) → is_nil (s ++ (10 ∷ t)) ≡ false
some_line [] t = refl
some_line (c ∷ s) t = refl

load_lines-save_entries :
    (f : ℕ) (entries : AddressTable)
    → All IsSavable entries
    → length (save_entries entries) < f
    → load_lines f (save_entries entries) ≡ map reloaded entries
unfolding load_lines save_entries
load_lines-save_entries zero entries h hf = absurd (omega arith)
load_lines-save_entries (suc f) [] h hf = refl
load_lines-save_entries (suc f) (e ∷ es) h hf =
    let r = savable-IsReadBack e h.0 in
    let line = line_of e e.ptr in
    rw
      (
        some_line line (save_entries es),
        fgets-InLine 4095 line (save_entries es) r.clean r.short,
        c_string-InLine line r.clean,
        r.same,
        load_lines-save_entries f es h.1 (omega (arith, length-append line (10 ∷ save_entries es))),
      )
      refl

abbrev header : Bytes
header = codes "# MemoryTool Address Table v1"

-- The line at the head of the text gives no entry.
header_line :
    (rest : Bytes)
    → load_lines (suc (length (header ++ (10 ∷ rest)))) (header ++ (10 ∷ rest))
      ≡ load_lines (length (header ++ (10 ∷ rest))) rest
unfolding load_lines fgets c_string parse_line trim_start trim_end is_trimmed next_word head_is
header_line rest = refl

-- A table is read back from its text, in order, with each entry no longer stale, if each of its
-- entries can be saved: it is absolute, or a chain that its type and address agree with, whose type
-- is no pointer and whose module name has no blank; its type has a fixed size, its numbers have 64
-- bits, its description and name no zero byte, and its line less than 4095 bytes.
pub load-save :
    (entries : AddressTable) → All IsSavable entries → load (save entries) ≡ map reloaded entries
unfolding load save
load-save entries h =
    header_line (save_entries entries) ∙ load_lines-save_entries _ entries h (omega arith)
