-- ===== src/Application/Entries/Stale.antt =====
-- What a read of the table does to its entries.
use memory_tools.Application.Entries.{
  EntryReadOutcome, no_read, read_chain, read_bytes_of, read_absolute, read_by, read_entry_into,
  next_entry, read_all_from, read_all_entries,
}
use memory_tools.Memory.{Region, Reader, readable}
use memory_tools.Pointer.Resolver.{PointerChainRef, ResolveResult, resolved, failed}
use memory_tools.Prelude.{
  ℕ, suc, ◌≡◌, ◌⊎◌, inl, inr, refl, Bool, true, false, List, [], ◌∷◌, Option, none, some, Bytes,
  ◌==◌, length, Bool-cases,
}
use memory_tools.Table.{AddressEntry, AddressTable}
use memory_tools.Types.{type_size}

-- The outcome belongs to the entry, and the entry is no longer stale if it was read, and otherwise
-- as it was.
abbrev pub IsRead : ℕ → AddressEntry → AddressEntry × EntryReadOutcome → Type 0
IsRead i e out =
    (out.1.index ≡ i)
    × (out.1.was_stale ≡ e.stale)
    × (((out.1.ok ≡ true) × (out.0 ≡ record e { stale = false }))
        ⊎ ((out.1.ok ≡ false) × (out.0 ≡ e)))

read_chain-IsRead :
    (i : ℕ) (e : AddressEntry) (r : ResolveResult) → IsRead i e (read_chain r e (no_read i e))
unfolding read_chain
read_chain-IsRead i e (failed error) = (refl, refl, inr (refl, refl))
read_chain-IsRead i e (resolved address value) = (refl, refl, inl (refl, refl))

read_bytes_of-IsRead :
    (i : ℕ) (e : AddressEntry) (buf : Bytes) → IsRead i e (read_bytes_of buf e (no_read i e))
unfolding read_bytes_of
read_bytes_of-IsRead i e buf = elim (Bool-cases (length buf == type_size e.type)) [
  | inl whole ↦ rw whole (refl, refl, inl (refl, refl))
  | inr short ↦ rw short (refl, refl, inr (refl, refl))
]

read_absolute-IsRead :
    (read : Reader) (i : ℕ) (e : AddressEntry) (r : Option Region)
    → IsRead i e (read_absolute read r e (no_read i e))
unfolding read_absolute
read_absolute-IsRead read i e none = (refl, refl, inr (refl, refl))
read_absolute-IsRead read i e (some r) = elim (Bool-cases (readable r)) [
  | inl able ↦ rw able (read_bytes_of-IsRead i e _)
  | inr unable ↦ rw unable (refl, refl, inr (refl, refl))
]

read_by-IsRead :
    (read : Reader) (regions : List Region) (i : ℕ) (p : Option PointerChainRef) (e : AddressEntry)
    → IsRead i e (read_by read regions p e (no_read i e))
unfolding read_by
read_by-IsRead read regions i none e = read_absolute-IsRead read i e _
read_by-IsRead read regions i (some chain) e = read_chain-IsRead i e _

-- What a read of the table may do: a disabled entry is passed by, and an enabled one gets an outcome.
pub data Reads : ℕ → AddressTable → AddressTable → List EntryReadOutcome → Type 0 where
  ends : {i : ℕ} → Reads i [] [] []
  passed_over :
      {i : ℕ} {e : AddressEntry} {es rest : AddressTable} {outs : List EntryReadOutcome}
      → e.enabled ≡ false
      → Reads (suc i) es rest outs
      → Reads i (e ∷ es) (e ∷ rest) outs
  was_read :
      {i : ℕ} {e after : AddressEntry} {o : EntryReadOutcome} {es rest : AddressTable}
      {outs : List EntryReadOutcome}
      → e.enabled ≡ true
      → IsRead i e (after, o)
      → Reads (suc i) es rest outs
      → Reads i (e ∷ es) (after ∷ rest) (o ∷ outs)

next_entry-Reads :
    (b : Bool) (i : ℕ) (e : AddressEntry) (es rest : AddressTable) (outs : List EntryReadOutcome)
    (out : AddressEntry × EntryReadOutcome)
    → e.enabled ≡ b
    → IsRead i e out
    → Reads (suc i) es rest outs
    → Reads i (e ∷ es) (next_entry b e out (rest, outs)).0 (next_entry b e out (rest, outs)).1
next_entry-Reads false i e es rest outs out off h more = passed_over off more
next_entry-Reads true i e es rest outs out on h more = was_read on h more

read_all_from-Reads :
    (read : Reader) (regions : List Region) (i : ℕ) (table : AddressTable)
    → Reads i table (read_all_from read regions i table).0 (read_all_from read regions i table).1
unfolding read_all_from read_entry_into
read_all_from-Reads read regions i [] = ends
read_all_from-Reads read regions i (e ∷ es) =
    next_entry-Reads e.enabled i e es _ _ (read_by read regions e.ptr e (no_read i e)) refl
      (read_by-IsRead read regions i e.ptr e) (read_all_from-Reads read regions (suc i) es)

-- Reading all entries gives one outcome for each enabled entry, in order and with its index and its
-- old staleness; an entry that was read is no longer stale, and every other one is as it was.
pub read_all_entries-Reads :
    (read : Reader) (regions : List Region) (table : AddressTable)
    → Reads 0 table (read_all_entries read regions table).0 (read_all_entries read regions table).1
unfolding read_all_entries
read_all_entries-Reads read regions table = read_all_from-Reads read regions 0 table
