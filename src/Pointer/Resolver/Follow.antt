-- ===== src/Pointer/Resolver/Follow.antt =====
-- Where a chain leads: the loop over the offsets against the chains of the scanner.
use memory_tools.Chunk.Naive.{view, length-view}
use memory_tools.Memory.{Region, Reader}
use memory_tools.Pointer.Links.{IsLinked, linked_length}
use memory_tools.Pointer.Resolver.{
  resolved, mapped, read_final, follow, follow_chain, make_chain_ref,
}
use memory_tools.Prelude.{
  ℕ, ◌+◌, ◌≡◌, refl, true, List, [], ◌∷◌, length, ◌==◌, arith, All, u64, eq→==,
}
use memory_tools.Types.{DataType, type_size, value_from_bytes, le_value}

-- The address is in a readable region, and its 8 bytes can be read.
abbrev pub CanRead : Reader → List Region → (ℕ → ℕ) → ℕ → Type 0
CanRead read regions content a = (mapped regions a ≡ true) × (read a 8 ≡ view content a 8)

-- The nodes that are followed: all but the last.
abbrev pub followed : List ℕ → List ℕ
followed [] = []
followed (n ∷ []) = []
followed (n ∷ m ∷ ns) = n ∷ followed (m ∷ ns)

follow-linked :
    (content : ℕ → ℕ) (target : ℕ) (read : Reader) (regions : List Region) (type : DataType)
    (ns os : List ℕ) (n : ℕ)
    → IsLinked content target (n ∷ ns) os
    → All (CanRead read regions content) (followed (n ∷ ns))
    → follow read regions type os n ≡ read_final read regions type target
unfolding follow
follow-linked content target read regions type [] [] n h can = rw h refl
follow-linked content target read regions type [] (o ∷ os) n h can = absurd h
follow-linked content target read regions type (m ∷ ns) [] n h can = absurd h
follow-linked content target read regions type (m ∷ ns) (o ∷ os) n h can =
    let rest = follow-linked content target read regions type ns os m h.1 can.1 in
    let eight = length-view content n 8 in rw (can.0.0, can.0.1, eight, h.0) rest

linked_offsets :
    (content : ℕ → ℕ) (target : ℕ) (ns os : List ℕ) (n : ℕ)
    → IsLinked content target (n ∷ ns) os
    → length os == length ns ≡ true
linked_offsets content target ns os n h =
    eq→== (length os) (length ns) (omega (arith, linked_length content target (n ∷ ns) os h))

-- A chain of nodes and offsets that leads to the target on the memory that it was found in does so
-- again: if the nodes before the target are in readable regions and read as they were, following the
-- reference that is made of the chain, from its first node, gives the target with the value there,
-- provided that this is in a readable region and can be read whole.
pub follow_chain-IsLinked :
    (content : ℕ → ℕ) (target : ℕ) (read : Reader) (regions : List Region) (type : DataType)
    (root : ℕ) (ns os : List ℕ)
    → IsLinked content target (root ∷ ns) os
    → All (CanRead read regions content) (followed (root ∷ ns))
    → length (read target (type_size type)) ≡ type_size type
    → mapped regions target ≡ true
    → follow_chain (make_chain_ref regions (root ∷ ns) os type) root regions read
      ≡ resolved target (value_from_bytes (read target (type_size type)) (type_size type))
unfolding follow_chain make_chain_ref read_final
follow_chain-IsLinked content target read regions type root ns os linked can sized here =
    let kept = linked_offsets content target ns os root linked in
    let same = eq→== _ _ sized in
    rw (kept, follow-linked content target read regions type ns os root linked can)
      (rw (here, same, read_final) refl)

-- Of a chain that can be followed, every address that is read is in a readable region.
pub follow-mapped :
    (read : Reader) (regions : List Region) (type : DataType) (os : List ℕ) (addr address value : ℕ)
    → follow read regions type os addr ≡ resolved address value
    → (mapped regions addr ≡ true)
      × (mapped regions address ≡ true)
      × (value ≡ value_from_bytes (read address (type_size type)) (type_size type))
unfolding follow read_final
follow-mapped read regions type [] addr address value h = ground arith
follow-mapped read regions type (o ∷ os) addr address value h =
    ground
      (arith, follow-mapped read regions type os (u64 (le_value (read addr 8) + o)) address value)
