-- ===== src/Tests/Pointers.antt =====
-- The frontier of chains and the resolver.
use memory_tools.Chunk.Naive.{view}
use memory_tools.Memory.{Region, Reader, readable, writable, executable}
use memory_tools.Pointer.Extend.{extend_chains_complete, Fills}
use memory_tools.Pointer.Links.{IsChain}
use memory_tools.Chunk.{for_each_window, align_up}
use memory_tools.Pointer.Scan.Sound.{pointer_scan-IsChain}
use memory_tools.Pointer.HashSet.{build, contains, insert_value, probe, capacity, unique, mix64}
use memory_tools.Pointer.Scan.{
  PointerScanOptions, pointer_scan, source_regions, scan_levels, shifted_values, find_edges,
  try_offsets, clip,
}
use memory_tools.Pointer.Resolver.Follow.{follow_chain-IsLinked, follow-mapped}
use memory_tools.Pointer.Resolver.Root.{resolve_root-make_base, move}
use memory_tools.Pointer.Resolver.{
  module_base, found, resolved, follow, follow_chain, make_chain_ref, make_base_from_address,
  resolve_root, mapped,
}
use memory_tools.Pointer.{
  PointerEdge, PointerChain, select_pointer_regions, extend_chains, chain_contains,
}
use memory_tools.Prelude.{
  ℕ, ◌≡◌, refl, true, false, List, [], ◌∷◌, Bytes, codes, arith, u64, sub64, ◌==◌, if◌then◌else◌,
  All, map,
}
use memory_tools.Types.{DataType, le_value, type_size, value_from_bytes}

-- At address 8 there is a pointer to 16, at 24 one to 4, and null everywhere else.
abbrev pub content : ℕ → ℕ
content a = if a == 8 then 16 else if a == 24 then 4 else 0

abbrev pub memory : Reader
memory a n = view content a n

abbrev edges : List PointerEdge
edges =
    record { source = 24; target = 8; offset = 4 }
    ∷ record { source = 8; target = 8; offset = 0 }
    ∷ record { source = 8; target = 20; offset = 4 }
    ∷ []

abbrev true_edges : List PointerEdge
true_edges =
    record { source = 24; target = 8; offset = 4 }
    ∷ record { source = 8; target = 20; offset = 4 }
    ∷ []

abbrev frontier : List PointerChain
frontier = record { nodes = 8 ∷ 20 ∷ []; offsets = 4 ∷ []; depth = 1 } ∷ []

extend_run :
    (extend_chains frontier edges 10).out
    ≡ record { nodes = 24 ∷ 8 ∷ 20 ∷ []; offsets = 4 ∷ 4 ∷ []; depth = 2 } ∷ []
unfolding extend_chains
extend_run = refl

extend_chains_complete_example :
    Fills 10
      (record { nodes = 24 ∷ 8 ∷ 20 ∷ []; offsets = 4 ∷ 4 ∷ []; depth = 2 } ∷ [])
      (extend_chains frontier edges 10)
unfolding chain_contains
extend_chains_complete_example =
    extend_chains_complete frontier edges 10 (omega arith, (omega arith, (omega arith, tt)))

abbrev pub mapping : ℕ → ℕ → ℕ → Bytes → Region
mapping start end offset path = record {
  start = start;
  end = end;
  perms = codes "rw-p";
  offset = offset;
  dev = codes "08:01";
  inode = 7;
  path = path;
}

abbrev maps : List Region
maps =
    mapping 0 32 0 (codes "[heap]")
    ∷ mapping 64 96 0 (codes "/lib/a.so")
    ∷ mapping 96 128 4096 (codes "/lib/a.so")
    ∷ []

follow_chain-IsLinked_example :
    follow_chain (make_chain_ref maps (24 ∷ 8 ∷ 20 ∷ []) (4 ∷ 4 ∷ []) DataType.u8) 24 maps memory
    ≡ resolved 20 0
unfolding le_value view u64 mapped type_size value_from_bytes
follow_chain-IsLinked_example =
    follow_chain-IsLinked content 20 memory maps DataType.u8 24 (8 ∷ 20 ∷ []) (4 ∷ 4 ∷ [])
      (refl, (refl, refl)) ((refl, refl), ((refl, refl), tt)) refl refl

follow-mapped_example :
    (mapped maps 24 ≡ true) × (mapped maps 20 ≡ true) × (0 ≡ value_from_bytes (memory 20 1) 1)
unfolding follow le_value view u64 mapped type_size value_from_bytes
follow-mapped_example = follow-mapped memory maps DataType.u8 (4 ∷ 4 ∷ []) 24 20 0 refl

-- Everything has moved by 4096.
abbrev slide_lib : Bytes → ℕ
slide_lib path = 4096

resolve_root-make_base_example :
    resolve_root (module_base (codes "/lib/a.so") 4100) (map (move slide_lib) maps) ≡ found 4196
unfolding make_base_from_address u64 sub64
resolve_root-make_base_example =
    resolve_root-make_base slide_lib 100 (mapping 96 128 4096 (codes "/lib/a.so")) maps refl refl
      (
        (omega arith, omega arith, omega arith),
        ((omega arith, omega arith, omega arith), ((omega arith, omega arith, omega arith), tt)),
      )
      (λ e a b. omega arith, (λ e a b. omega arith, (λ e a b. refl, tt))) (omega arith)
      (omega arith)

abbrev pub opts : PointerScanOptions
opts = record {
  target = 20;
  max_depth = 3;
  max_edges_per_level = 100;
  max_chains = 100;
  include_code = false;
  min_addr = 0;
  max_addr = 64;
  max_offset = 8;
  offset_step = 4;
}

scan_run :
    (pointer_scan (λ xs. xs) (λ es. es) memory maps opts (λ k. false) false).0.chains
    ≡ record { nodes = 8 ∷ 20 ∷ []; offsets = 4 ∷ []; depth = 1 }
      ∷ record { nodes = 24 ∷ 8 ∷ 20 ∷ []; offsets = 4 ∷ 4 ∷ []; depth = 2 }
      ∷ []
unfolding pointer_scan source_regions scan_levels build contains find_edges try_offsets
    for_each_window view extend_chains clip select_pointer_regions readable align_up u64 sub64
    shifted_values le_value insert_value mix64 unique capacity probe writable executable
scan_run = refl

pointer_scan-IsChain_example :
    All
      (IsChain content 20)
      (pointer_scan (λ xs. xs) (λ es. es) memory maps opts (λ k. false) false).0.chains
unfolding source_regions clip select_pointer_regions readable writable executable
pointer_scan-IsChain_example =
    pointer_scan-IsChain content (λ xs. xs) (λ es. es) memory maps opts (λ k. false) false
      (λ es h. h) (λ k. refl) (λ _. (omega arith, (omega arith, λ a n _ _. refl)), tt)
