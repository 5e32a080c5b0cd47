-- ===== src/Application/Pointers.antt =====
-- Pointer chains in src/application.cpp: `pointer_scan`, `add_pointer_chain` and `resolve_entry`. The
-- texts of the errors are constructors.
pub mod Chains
pub mod Added
pub mod Persist
use memory_tools.Application.Machine.{Machine, target_maps, pid_or_zero}
use memory_tools.Memory.{Region, readable, region_at}
use memory_tools.Pointer.Resolver.{
  PointerBase, absolute, module_base, PointerChainRef, ResolveError, ResolveResult, resolved,
  failed, resolve_chain, make_base_from_address, make_chain_ref,
}
use memory_tools.Pointer.Scan
use memory_tools.Pointer.Scan.{PointerScanOptions}
use memory_tools.Pointer.{PointerChain, PointerScanResult}
use memory_tools.Prelude.{
  ℕ, Bool, true, false, not, List, [], ◌∷◌, Option, none, some, Bytes, if◌then◌else◌, get_elem?,
  set,
}
use memory_tools.Session.{Session, with_memory}
use memory_tools.Table.{AddressEntry, AddressTable, add_chain, get_entry}
use memory_tools.Types.{DataType, i32}

-- Why an operation fails: a text of its own, an error of `with_memory`, or one of the resolver.
pub data OperationError : Type 0 where
  no_region : ℕ → OperationError
  not_readable : ℕ → Bytes → OperationError
  no_entry not_pointer : ℕ → OperationError
  memory_error : Bytes → OperationError
  chain_error : ResolveError → OperationError

pub record PointerScanInput : Type 0 where
  pub opts : PointerScanOptions
  pub value_type : DataType
  pub module_only : Bool

-- `result` is none where it is as constructed: the scan did not run.
pub record PointerScanOutcome : Type 0 where
  pub ok : Bool
  pub error : Option OperationError
  pub cancelled : Bool
  pub result : Option PointerScanResult

abbrev pub no_chains : PointerScanOutcome
no_chains = record { ok = false; error = none; cancelled = false; result = none }

abbrev pub is_module : PointerBase → Bool
is_module (absolute address) = false
is_module (module_base name offset) = true

-- The root of a chain is in a mapped file.
abbrev pub has_module_root : List Region → List ℕ → Bool
has_module_root regions [] = false
has_module_root regions (n ∷ ns) = is_module (make_base_from_address regions n)

unfoldable pub persistent : List Region → List PointerChain → List PointerChain
persistent regions [] = []
persistent regions (c ∷ cs) =
    let rest = persistent regions cs in if has_module_root regions c.nodes then c ∷ rest else rest

-- The result that is stored in the session: with its type, and filtered where that is asked for.
abbrev pub stored : PointerScanInput → List Region → PointerScanResult → PointerScanResult
stored input regions res = record res {
  value_type = input.value_type;
  chains = if input.module_only then persistent regions res.chains else res.chains;
}

abbrev pub publish_chains :
    PointerScanInput
    → List Region
    → Session
    → Option PointerScanResult × Option Bytes
    → Session × PointerScanOutcome
publish_chains input regions s (res, some e) =
    (s, record no_chains { error = some (memory_error e); result = res })
publish_chains input regions s (none, none) = (s, no_chains)
publish_chains input regions s (some res, none) =
    let kept = stored input regions res in
    if res.cancelled
    then (s, record no_chains { cancelled = true; result = some res })
    else (record s { last_pointer = some kept }, record no_chains { ok = true; result = some kept })

pub record ResolveEntryOutcome : Type 0 where
  pub ok : Bool
  pub error : Option OperationError
  pub address : ℕ
  pub value : ℕ
  pub type : DataType

abbrev pub no_value : ResolveEntryOutcome
no_value = record { ok = false; error = none; address = 0; value = 0; type = i32 }

-- An entry of the table is read again with success.
abbrev pub refresh_entry : ℕ → AddressEntry → Session → Session
refresh_entry idx e s = record s { table = set s.table idx (record e { stale = false }) }

abbrev pub resolve_result :
    ℕ → AddressEntry → Session → Option ResolveResult × Option Bytes → Session × ResolveEntryOutcome
resolve_result idx e s (r, some error) = (s, record no_value { error = some (memory_error error) })
resolve_result idx e s (none, none) = (s, no_value)
resolve_result idx e s (some (failed error), none) =
    (s, record no_value { error = some (chain_error error) })
resolve_result idx e s (some (resolved address value), none) = (
  refresh_entry idx e s,
  record { ok = true; error = none; address = address; value = value; type = e.type },
)

module _ (m : Machine) where
  abbrev pub scan_in :
      (ℕ → Bool)
      → Bool
      → PointerScanInput
      → List Region
      → Session
      → Option Region
      → Session × PointerScanOutcome
  scan_in cancel progress input regions s none =
      (s, record no_chains { error = some (no_region input.opts.target) })
  scan_in cancel progress input regions s (some r) =
      let scanned =
        with_memory m.open_memory
          (λ pid _.
            some
              (Scan.pointer_scan m.sort_nodes m.sort_edges (m.reader pid) regions input.opts cancel
                progress).0)
          s none in
      if not (readable r)
      then (s, record no_chains { error = some (not_readable input.opts.target r.perms) })
      else publish_chains input regions s scanned

  unfoldable pub pointer_scan :
      (ℕ → Bool) → Bool → PointerScanInput → Session → Session × PointerScanOutcome
  unfolding with_memory region_at
  pointer_scan cancel progress input s =
      let regions = target_maps m s in
      scan_in cancel progress input regions s (region_at regions input.opts.target)

  -- `regions` is empty without a target process.
  abbrev pub maps_if_any : Option ℕ → List Region
  maps_if_any none = []
  maps_if_any (some pid) = m.maps pid

  abbrev pub add_found :
      Bytes → Session → DataType → Option PointerChain → Option (Session × PointerChainRef × ℕ)
  add_found description s type none = none
  add_found description s type (some c) =
      let ref = make_chain_ref (maps_if_any s.pid) c.nodes c.offsets type in
      let (table, index) = add_chain s.table ref description in
      some (record s { table = table }, ref, index)

  abbrev pub add_from :
      ℕ → Bytes → Session → Option PointerScanResult → Option (Session × PointerChainRef × ℕ)
  add_from chain_index description s none = none
  add_from chain_index description s (some res) =
      add_found description s res.value_type (get_elem? res.chains chain_index)

  -- None where the code has no result, or no chain with that index: it then throws or reads out of
  -- range.
  unfoldable pub add_pointer_chain : ℕ → Bytes → Session → Option (Session × PointerChainRef × ℕ)
  unfolding make_chain_ref add_chain
  add_pointer_chain chain_index description s = add_from chain_index description s s.last_pointer

  abbrev pub resolve_with :
      ℕ → AddressEntry → Session → Option PointerChainRef → Session × ResolveEntryOutcome
  resolve_with idx e s none = (s, record no_value { error = some (not_pointer idx) })
  resolve_with idx e s (some chain) = resolve_result idx e s (
      with_memory m.open_memory
        (λ pid _. some (resolve_chain chain (m.reader pid) (target_maps m s))) s none)

  abbrev pub resolve_found : ℕ → Session → Option AddressEntry → Session × ResolveEntryOutcome
  resolve_found idx s none = (s, record no_value { error = some (no_entry idx) })
  resolve_found idx s (some e) = resolve_with idx e s e.ptr

  unfoldable pub resolve_entry : ℕ → Session → Session × ResolveEntryOutcome
  unfolding with_memory get_entry
  resolve_entry idx s = resolve_found idx s (get_entry s.table idx)
