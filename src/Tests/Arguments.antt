-- ===== src/Tests/Arguments.antt =====
-- The arguments of a pointer scan, a value written to a process, and a read of the table.
use memory_tools.Application.{parse_pointer_scan_args, max_offset_shifts}
use memory_tools.Application.Limits.{InRange, parse_pointer_scan_args-InRange}
use memory_tools.Application.Write.{Access, write_value_at}
use memory_tools.Application.Write.Checked.{ReadsBack, write_value_at-verified}
use memory_tools.Application.Entries.{no_region, no_read, read_all_entries}
use memory_tools.Application.Entries.Stale.{Reads, read_all_entries-Reads}
use memory_tools.Table.{AddressEntry, AddressTable}
use memory_tools.Memory.{Reader, Region, region_at, readable, writable}
use memory_tools.Types.{DataType, Floats, type_size, value_bytes}
use memory_tools.Pointer.Scan.{PointerScanOptions, window_offsets}
use memory_tools.Prelude.{
  Bool, eq→==, ◌⊎◌, ◌&&◌, ◌==◌, ◌%◌, ◌*◌, ◌^◌, ℕ, pos, some, none, if◌then◌else◌, arith, ◌≡◌, ◌≤◌,
  refl, true, false, is_nil, List, Bytes, [], ◌∷◌, codes, length,
}

abbrev arguments : List Bytes
arguments = codes "0x10" ∷ codes "depth=5" ∷ codes "max_offset=64" ∷ codes "offset_step=4" ∷ []

abbrev options : PointerScanOptions
options = record {
  target = 16;
  max_depth = 5;
  max_edges_per_level = 100;
  max_chains = 100;
  include_code = false;
  min_addr = 0;
  max_addr = 0;
  max_offset = 64;
  offset_step = 4;
}

parse_pointer_scan_args-InRange_example :
    InRange (parse_pointer_scan_args arguments)
    × (length (window_offsets options) ≤ max_offset_shifts)
unfolding parse_pointer_scan_args memory_tools.Application.with_target
    memory_tools.Application.parse_addr memory_tools.Application.parse_options
    memory_tools.Application.parse_option memory_tools.Application.depth_option
    memory_tools.Application.offset_option memory_tools.Application.step_option
    memory_tools.Application.type_option memory_tools.Application.check_window
    memory_tools.Types.Text.strtoull_in memory_tools.Types.Text.strtoll_in
    memory_tools.Types.Text.magnitude_in memory_tools.Types.Text.has_hex_prefix
    memory_tools.Numerals.based_value memory_tools.Numerals.digit_value
    memory_tools.Numerals.signed_value memory_tools.Prelude.head_is memory_tools.Prelude.skip_blanks
    memory_tools.Prelude.c_string memory_tools.Prelude.is_blank memory_tools.Prelude.is_prefix
    memory_tools.Prelude.bytes_eq memory_tools.Table.File.strtoull_whole
    memory_tools.Table.File.magnitude memory_tools.Pattern.hex_value
parse_pointer_scan_args-InRange_example =
    parse_pointer_scan_args-InRange arguments options refl refl refl

empty_depth :
    (parse_pointer_scan_args (codes "0" ∷ codes "depth=" ∷ [])).error
    ≡ codes "depth debe estar entre 1 y 7 (obtenido: (vacio))"
unfolding parse_pointer_scan_args memory_tools.Application.with_target
    memory_tools.Application.parse_addr memory_tools.Application.parse_options
    memory_tools.Application.parse_option memory_tools.Application.depth_option
    memory_tools.Application.offset_option memory_tools.Application.step_option
    memory_tools.Application.type_option memory_tools.Application.check_window
    memory_tools.Types.Text.strtoull_in memory_tools.Types.Text.strtoll_in
    memory_tools.Types.Text.magnitude_in memory_tools.Types.Text.has_hex_prefix
    memory_tools.Numerals.based_value memory_tools.Numerals.digit_value
    memory_tools.Numerals.signed_value memory_tools.Prelude.head_is memory_tools.Prelude.skip_blanks
    memory_tools.Prelude.c_string memory_tools.Prelude.is_blank memory_tools.Prelude.is_prefix
    memory_tools.Prelude.bytes_eq memory_tools.Table.File.strtoull_whole
    memory_tools.Table.File.magnitude memory_tools.Pattern.hex_value
empty_depth = refl

-- A memory of zero bytes but for one write.
abbrev pub cell : Access (ℕ × Bytes)
cell = record {
  read = λ st a n. if a == st.0 && n == length st.1 then some st.1 else some (value_bytes n 0);
  write = λ st a bytes. ((a, bytes), pos (length bytes));
}

cell-ReadsBack : ReadsBack cell
cell-ReadsBack st a bytes h = rw (eq→== a a refl, eq→== (length bytes) (length bytes) refl) refl

abbrev pub heap : Region
heap = record {
  start = 0;
  end = 100;
  perms = codes "rw-p";
  offset = 0;
  dev = [];
  inode = 0;
  path = [];
}

abbrev pub floats : Floats
floats = record { less = λ t a b. false; less_asymm = λ t a b e. refl }

write_value_at-verified_example :
    ((write_value_at cell floats 70000 (0, []) (heap ∷ []) 16 DataType.u16).1.ok ≡ true)
    × ((write_value_at cell floats 70000 (0, []) (heap ∷ []) 16 DataType.u16).1.new_value ≡ 4464)
    × ((write_value_at cell floats 70000 (0, []) (heap ∷ []) 16 DataType.u16).1.verified ≡ true)
unfolding region_at writable type_size value_bytes
write_value_at-verified_example =
    write_value_at-verified cell floats 70000 (0, []) (heap ∷ []) 16 DataType.u16 heap (0 ∷ 0 ∷ [])
      cell-ReadsBack refl (omega arith) refl refl refl refl refl

abbrev watched : ℕ → Bool → AddressEntry
watched a on = record {
  address = a;
  type = DataType.u16;
  description = [];
  enabled = on;
  stale = true;
  ptr = none;
}

-- One that is disabled, one outside of all regions, and one that can be read.
abbrev pub table : AddressTable
table = watched 16 false ∷ watched 200 true ∷ watched 32 true ∷ []

abbrev sevens : Reader
sevens = λ a n. value_bytes n 7

read_all_run :
    (read_all_entries sevens (heap ∷ []) table).0
    ≡ watched 16 false ∷ watched 200 true ∷ record (watched 32 true) { stale = false } ∷ []
unfolding read_all_entries region_at readable type_size value_bytes
read_all_run = refl

read_all_entries-Reads_example :
    Reads 0 table
      (read_all_entries sevens (heap ∷ []) table).0
      (read_all_entries sevens (heap ∷ []) table).1
read_all_entries-Reads_example = read_all_entries-Reads sevens (heap ∷ []) table

-- Neither the failure nor the success is marked as attempted.
read_all_outcomes :
    (read_all_entries sevens (heap ∷ []) table).1
    ≡ record (no_read 1 (watched 200 true)) { error = some no_region }
      ∷ record (no_read 2 (watched 32 true)) {
        ok = true;
        address = 32;
        value = 7;
        have_value = true;
      }
      ∷ []
unfolding read_all_entries region_at readable type_size value_bytes
    memory_tools.Types.value_from_bytes memory_tools.Types.le_value
read_all_outcomes = refl
