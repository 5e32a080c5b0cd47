-- ===== src/Application/Changes.antt =====
-- The operations of src/application.cpp on the table, on one address, and `detach`.
use memory_tools.Application.Entries.{
  no_entry, disabled, memory_error, EntryReadOutcome, read_entry_into, read_all_entries,
}
use memory_tools.Application.Machine.{Machine, target_maps}
use memory_tools.Memory.{Region, region_at}
use memory_tools.Prelude.{
  ℕ, ◌⊎◌, inl, inr, Bool, true, false, not, List, [], ◌∷◌, Option, none, some, Bytes, if◌then◌else◌,
  get_elem?, set,
}
use memory_tools.Scanner.{Candidate}
use memory_tools.Session
use memory_tools.Session.{Session, with_memory}
use memory_tools.Table
use memory_tools.Table.{AddressEntry, AddressTable, add, clear_table, get_entry}
use memory_tools.Table.Load.{load}
use memory_tools.Types.{DataType, i32}

unfoldable pub detach : Session → Session
detach s = Session.detach s

abbrev pub with_table : Session → AddressTable × ℕ → Session × ℕ
with_table s (table, index) = (record s { table = table }, index)

unfoldable pub add_entry : ℕ → DataType → Bytes → Session → Session × ℕ
unfolding add
add_entry addr type desc s = with_table s (add s.table addr type desc)

abbrev pub add_candidate : Bytes → Session → Option Candidate → Option (Session × ℕ)
add_candidate desc s none = none
add_candidate desc s (some c) = some (add_entry c.addr s.scan_type desc s)

-- None where the code reads out of range.
unfoldable pub add_result_entry : ℕ → Bytes → Session → Option (Session × ℕ)
unfolding add_entry
add_result_entry result_index desc s =
    add_candidate desc s (get_elem? s.scanner.candidates result_index)

abbrev pub removed : Session → AddressTable × Bool → Session × Bool
removed s (table, done) = (record s { table = table }, done)

unfoldable pub remove_entry : ℕ → Session → Session × Bool
remove_entry idx s = removed s (Table.remove s.table idx)

unfoldable pub clear_entries : Session → Session
unfolding clear_table
clear_entries s = record s { table = clear_table s.table }

abbrev pub toggle_found : ℕ → Session → Option AddressEntry → Session × Bool
toggle_found idx s none = (s, false)
toggle_found idx s (some e) =
    (record s { table = set s.table idx (record e { enabled = not e.enabled }) }, true)

unfoldable pub toggle_entry : ℕ → Session → Session × Bool
unfolding get_entry
toggle_entry idx s = toggle_found idx s (get_entry s.table idx)

-- What the file holds, or why it cannot be opened.
unfoldable pub load_table : Bytes ⊎ Bytes → Session → Session × Option Bytes
unfolding load
load_table (inl error) s = (s, some error)
load_table (inr text) s = (record s { table = load text }, none)

-- The outcome as it is constructed, but for its index.
abbrev pub nothing_read : ℕ → EntryReadOutcome
nothing_read idx = record {
  index = idx;
  attempted = false;
  ok = false;
  error = none;
  address = 0;
  type = i32;
  value = 0;
  have_value = false;
  was_stale = false;
}

module _ (m : Machine) where
  abbrev pub after_read :
      ℕ
      → Session
      → Option (AddressEntry × EntryReadOutcome) × Option Bytes
      → Session × EntryReadOutcome
  after_read idx s (read, some e) =
      (s, record (nothing_read idx) { attempted = true; error = some (memory_error e) })
  after_read idx s (none, none) = (s, nothing_read idx)
  after_read idx s (some (e, o), none) =
      (record s { table = set s.table idx e }, record o { attempted = true })

  abbrev pub read_found : ℕ → Session → Option AddressEntry → Session × EntryReadOutcome
  read_found idx s none = (s, record (nothing_read idx) { error = some no_entry })
  read_found idx s (some e) =
      let opened =
        with_memory m.open_memory
          (λ pid _. some (read_entry_into (m.reader pid) (target_maps m s) idx e)) s none in
      if not e.enabled
      then (s, record (nothing_read idx) { error = some disabled })
      else after_read idx s opened

  unfoldable pub read_entry : ℕ → Session → Session × EntryReadOutcome
  unfolding with_memory get_entry read_entry_into
  read_entry idx s = read_found idx s (get_entry s.table idx)

  -- `outs` is empty before.
  abbrev pub after_read_all :
      Session
      → Option (AddressTable × List EntryReadOutcome) × Option Bytes
      → Session × List EntryReadOutcome
  after_read_all s (read, some e) =
      (s, record (nothing_read 0) { error = some (memory_error e) } ∷ [])
  after_read_all s (none, none) = (s, [])
  after_read_all s (some (table, outs), none) = (record s { table = table }, outs)

  unfoldable pub read_all : Session → Session × List EntryReadOutcome
  unfolding with_memory read_all_entries
  read_all s = after_read_all s (
      with_memory m.open_memory
        (λ pid _. some (read_all_entries (m.reader pid) (target_maps m s) s.table)) s none)

  -- None is the error.
  unfoldable pub region_info : ℕ → Session → Option Region
  unfolding region_at
  region_info addr s = region_at (target_maps m s) addr
