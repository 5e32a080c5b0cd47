-- ===== src/Tests/Sessions.antt =====
-- The operations of a session on a machine.
use mathlib.Core.Path.{subst}
use memory_tools.Application.Machine.{Machine}
use memory_tools.Application.Pointers.{PointerScanInput, pointer_scan, has_module_root}
use memory_tools.Application.Pointers.Added.{Resolves}
use memory_tools.Application.Pointers.Chains.{Rooted}
use memory_tools.Application.Pointers.Persist.{resolve_entry-pointer_scan}
use memory_tools.Application.Scans.Forgotten.{Forgets, attach-Forgets}
use memory_tools.Application.Scans.{attach, first_scan, first_scan_dynamic, next_scan}
use memory_tools.Application.Scans.Published.{KeepsPlaces, scans_not_ok}
use memory_tools.Application.Write.Entry.{write_entry}
use memory_tools.Application.Write.Entry.Refreshed.{Wrote, write_entry-Wrote}
use memory_tools.Memory.{Region, readable, writable, executable}
use memory_tools.Pointer.{PointerChain, PointerScanResult}
use memory_tools.Prelude.{
  ℕ, ◌+◌, ◌-◌, ◌<◌, word, All, Option, none, some, Bool, true, false, List, [], ◌∷◌, Bytes, codes,
  arith, refl, ap, ◌≡◌, ◌⊎◌,
}
use memory_tools.Scanner.{Filter}
use memory_tools.Session.{Session}
use memory_tools.Table.{get_entry}
use memory_tools.Tests.Arguments.{cell, heap, floats, table}
use memory_tools.Tests.Pointers.{content, memory, mapping, opts}
use memory_tools.Pointer.Resolver.Root.{Alone}
use memory_tools.Tests.Refining.{spec}
use memory_tools.Tests.Tables.{session}
use memory_tools.Types.{DataType, type_size, value_from_bytes}

abbrev binary : Region
binary = mapping 0 32 0 (codes "/bin/game")

abbrev pub machine : Machine
machine = record {
  floats = floats;
  sort_values = λ xs. xs;
  sort_dynamic = λ xs. xs;
  sort_nodes = λ xs. xs;
  sort_edges = λ es. es;
  open_memory = λ pid. none;
  maps = λ pid. binary ∷ [];
  reader = λ pid. memory;
}

abbrev input : PointerScanInput
input = record { opts = opts; value_type = DataType.u8; module_only = true }

abbrev near : PointerChain
near = record { nodes = 8 ∷ 20 ∷ []; offsets = 4 ∷ []; depth = 1 }

abbrev far : PointerChain
far = record { nodes = 24 ∷ 8 ∷ 20 ∷ []; offsets = 4 ∷ 4 ∷ []; depth = 2 }

abbrev result : PointerScanResult
result = record {
  target = 20;
  chains = near ∷ far ∷ [];
  edges_truncated = false;
  chains_truncated = false;
  cancelled = false;
  levels = 3;
  total_edges = 3;
  value_type = DataType.u8;
}

is_binary :
    (r : Region)
    → binary ≡ r
    → All (Alone r (r.offset + (24 - r.start))) (binary ∷ []) × (r.offset + (24 - r.start) < word)
is_binary r same =
    subst
      (λ q.
        All (Alone q (q.offset + (24 - q.start))) (binary ∷ [])
        × (q.offset + (24 - q.start) < word))
      same ((λ _ _ _. refl, tt), omega arith)

binary-Rooted : Rooted (binary ∷ []) 24
unfolding memory_tools.Memory.region_at
binary-Rooted = (omega arith, λ r at file. is_binary r (cc))

scan_ran :
    (pointer_scan machine (λ k. false) false input session).1
    ≡ record { ok = true; error = none; cancelled = false; result = some result }
unfolding pointer_scan memory_tools.Pointer.Scan.source_regions memory_tools.Pointer.Scan.clip
    memory_tools.Pointer.select_pointer_regions readable executable writable
    memory_tools.Pointer.Scan.pointer_scan memory_tools.Pointer.Scan.scan_levels
    memory_tools.Chunk.for_each_window memory_tools.Chunk.align_up memory_tools.Prelude.u64
    memory_tools.Chunk.Naive.view memory_tools.Pointer.Scan.find_edges
    memory_tools.Pointer.HashSet.contains memory_tools.Pointer.HashSet.build
    memory_tools.Pointer.Scan.shifted_values memory_tools.Pointer.HashSet.unique
    memory_tools.Application.Pointers.persistent memory_tools.Memory.region_at
    memory_tools.Pointer.HashSet.capacity memory_tools.Pointer.HashSet.insert_value
    memory_tools.Pointer.HashSet.mix64 memory_tools.Pointer.HashSet.probe
    memory_tools.Pointer.Resolver.make_base_from_address memory_tools.Pointer.Scan.try_offsets
    memory_tools.Pointer.extend_chains memory_tools.Prelude.bytes_eq memory_tools.Prelude.sub64
    memory_tools.Session.with_memory memory_tools.Types.le_value
scan_ran = refl

resolve_entry-pointer_scan_example :
    Resolves machine 1
      (codes "hp")
      (pointer_scan machine (λ k. false) false input session).0
      20
      0
      DataType.u8
unfolding memory_tools.Pointer.Scan.source_regions memory_tools.Pointer.Scan.clip
    memory_tools.Pointer.select_pointer_regions readable executable writable type_size
    value_from_bytes memory_tools.Chunk.Naive.view memory_tools.Memory.region_at
    memory_tools.Pointer.Resolver.mapped
resolve_entry-pointer_scan_example =
    resolve_entry-pointer_scan machine content (λ k. false) false input session 10 result 1 far
      (codes "hp") refl refl (λ es h. h) (λ k. refl)
      ((λ _. (omega arith, (omega arith, λ a n _ _. refl))), tt) (ap (λ o. o.ok) scan_ran)
      (ap (λ o. o.result) scan_ran) refl ((refl, refl), ((refl, refl), tt)) refl
      ((omega arith, omega arith, omega arith), tt) binary-Rooted

abbrev heap_machine : Machine
heap_machine = record machine { maps = λ pid. heap ∷ [] }

write_entry-Wrote_example :
    Wrote heap_machine cell 7 2
      (record session { table = table })
      (0, [])
      (get_entry table 2)
      (write_entry heap_machine cell 7 2 (record session { table = table }) (0, []))
write_entry-Wrote_example =
    write_entry-Wrote heap_machine cell 7 2 (record session { table = table }) (0, [])

abbrev now : ℕ → Bool
now k = true

scans_not_ok_example :
    ((first_scan machine now false DataType.u8 (some 16) session).1.ok ≡ false
      → (first_scan machine now false DataType.u8 (some 16) session).0 ≡ session)
    × ((first_scan_dynamic machine now false spec session).1.ok ≡ false
        → (first_scan_dynamic machine now false spec session).0 ≡ session)
    × ((next_scan machine now false DataType.u8 Filter.changed (some 16) session).1.ok ≡ false
        → ((next_scan machine now false DataType.u8 Filter.changed (some 16) session).0 ≡ session)
          ⊎ KeepsPlaces machine session
              (next_scan machine now false DataType.u8 Filter.changed (some 16) session).0)
scans_not_ok_example =
    scans_not_ok machine now false DataType.u8 (some 16) Filter.changed spec session

-- The session holds a candidate and a table for the process 10.
attach-Forgets_example : Forgets machine 11 session (attach machine 11 session)
attach-Forgets_example = attach-Forgets machine 11 session refl refl
