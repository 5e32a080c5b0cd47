-- ===== src/Application/Entries.antt =====
-- Reading the entries of the address table: `read_entry_into`, `read_entry` and `read_all_entries` of
-- src/application.cpp, with the memory open; Application.Changes opens it. The texts of the errors are left out.
pub mod Stale
use memory_tools.Memory.{Region, Reader, readable, region_at}
use memory_tools.Pointer.Resolver.{
  PointerChainRef, ResolveError, ResolveResult, resolved, failed, resolve_chain,
}
use memory_tools.Prelude.{
  ℕ, suc, Bool, true, false, not, List, [], ◌∷◌, Option, none, some, Bytes, ◌==◌, if◌then◌else◌,
  length,
}
use memory_tools.Table.{AddressEntry, AddressTable}
use memory_tools.Types.{DataType, i32, type_size, value_from_bytes}

pub data EntryError : Type 0 where
  chain_error : ResolveError → EntryError
  no_region : EntryError
  no_entry disabled : EntryError
  memory_error : Bytes → EntryError
  not_readable : Bytes → EntryError
  not_read : EntryError

pub record EntryReadOutcome : Type 0 where
  pub index : ℕ
  pub attempted : Bool
  pub ok : Bool
  pub error : Option EntryError
  pub address : ℕ
  pub type : DataType
  pub value : ℕ
  pub have_value : Bool
  pub was_stale : Bool

abbrev pub no_read : ℕ → AddressEntry → EntryReadOutcome
no_read idx e = record {
  index = idx;
  attempted = false;
  ok = false;
  error = none;
  address = 0;
  type = e.type;
  value = 0;
  have_value = false;
  was_stale = e.stale;
}

abbrev pub unread : AddressEntry → EntryReadOutcome → EntryError → AddressEntry × EntryReadOutcome
unread e o error = (e, record o { error = some error })

abbrev pub read_at : ℕ → ℕ → AddressEntry → EntryReadOutcome → AddressEntry × EntryReadOutcome
read_at address value e o = (
  record e { stale = false },
  record o { ok = true; address = address; value = value; have_value = true },
)

unfoldable pub read_chain :
    ResolveResult → AddressEntry → EntryReadOutcome → AddressEntry × EntryReadOutcome
read_chain (failed error) e o = unread e o (chain_error error)
read_chain (resolved address value) e o = read_at address value e o

unfoldable pub read_bytes_of :
    Bytes → AddressEntry → EntryReadOutcome → AddressEntry × EntryReadOutcome
read_bytes_of buf e o =
    if not (length buf == type_size e.type)
    then unread e o not_read
    else read_at e.address (value_from_bytes buf (type_size e.type)) e o

unfoldable pub read_absolute :
    Reader → Option Region → AddressEntry → EntryReadOutcome → AddressEntry × EntryReadOutcome
unfolding read_bytes_of
read_absolute read none e o = unread e o no_region
read_absolute read (some r) e o =
    if not (readable r)
    then unread e o (not_readable r.perms)
    else read_bytes_of (read e.address (type_size e.type)) e o

unfoldable pub read_by :
    Reader
    → List Region
    → Option PointerChainRef
    → AddressEntry
    → EntryReadOutcome
    → AddressEntry × EntryReadOutcome
unfolding read_chain read_absolute
read_by read regions none e o = read_absolute read (region_at regions e.address) e o
read_by read regions (some chain) e o = read_chain (resolve_chain chain read regions) e o

unfoldable pub read_entry_into :
    Reader → List Region → ℕ → AddressEntry → AddressEntry × EntryReadOutcome
unfolding read_by
read_entry_into read regions idx e = read_by read regions e.ptr e (no_read idx e)

-- One round: the entry, what reading it gives, and what is left of the loop.
abbrev pub next_entry :
    Bool
    → AddressEntry
    → AddressEntry × EntryReadOutcome
    → AddressTable × List EntryReadOutcome
    → AddressTable × List EntryReadOutcome
next_entry false e (after, o) (rest, outs) = (e ∷ rest, outs)
next_entry true e (after, o) (rest, outs) = (after ∷ rest, o ∷ outs)

-- The loop of `read_all_entries` from an index.
unfoldable pub read_all_from :
    Reader → List Region → ℕ → AddressTable → AddressTable × List EntryReadOutcome
unfolding read_entry_into
read_all_from read regions i [] = ([], [])
read_all_from read regions i (e ∷ es) =
    next_entry e.enabled e (read_entry_into read regions i e)
      (read_all_from read regions (suc i) es)

unfoldable pub read_all_entries :
    Reader → List Region → AddressTable → AddressTable × List EntryReadOutcome
unfolding read_all_from
read_all_entries read regions table = read_all_from read regions 0 table
