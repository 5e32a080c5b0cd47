-- ===== src/Application/Pointers/Chains.antt =====
-- The reference that is made of a chain, resolved while no module moves.
use memory_tools.Memory.{Region, Reader, region_at}
use memory_tools.Pointer.Links.{IsLinked}
use memory_tools.Pointer.Resolver.{
  found, resolved, mapped, is_file, make_base_from_address, make_chain_ref, resolve_root,
  resolve_chain,
}
use memory_tools.Pointer.Resolver.Follow.{CanRead, followed, follow_chain-IsLinked}
use memory_tools.Pointer.Resolver.Root.{move, Fits, Alone, resolve_root-make_base}
use memory_tools.Prelude.{
  ℕ, ◌+◌, ◌-◌, ◌<◌, ◌≡◌, ◌∙◌, inl, inr, refl, ap, true, List, [], ◌∷◌, some, Bytes, All, length,
  map, word, arith, Bool-cases, Option-cases,
}
use memory_tools.Types.{DataType, type_size, value_from_bytes}

-- No module has moved.
abbrev pub still : Bytes → ℕ
still name = 0

map-still : (regions : List Region) → map (move still) regions ≡ regions
map-still [] = refl
map-still (r ∷ rs) = ground (arith, map-still rs)

-- The root is found again: its mapping, if it is a file's, is told from the file's others.
abbrev pub Rooted : List Region → ℕ → Type 0
Rooted regions root =
    (root < word)
    × ((r : Region)
        → region_at regions root ≡ some r
        → is_file r.path ≡ true
        → All (Alone r (r.offset + (root - r.start))) regions
          × (r.offset + (root - r.start) < word))

root_again :
    (regions : List Region) (root : ℕ)
    → All (Fits still) regions
    → Rooted regions root
    → resolve_root (make_base_from_address regions root) regions ≡ found root
unfolding resolve_root make_base_from_address
root_again regions root fits (top, rooted) = elim (Option-cases (region_at regions root)) [
  | inl e ↦ rw e refl
  | inr (r, e) ↦ elim (Bool-cases (is_file r.path)) [
    | inl file ↦
        let (alone, small) = rooted r e file in
        (rw (map-still regions) at
          (resolve_root-make_base still root r regions e file fits alone small top))
        ∙ ap found (omega arith)
    | inr other ↦ rw (e, other) refl
  ]
]

-- The first node of a chain is found again.
abbrev pub HasRoot : List Region → List ℕ → Type 0
HasRoot regions [] = Unit
HasRoot regions (n ∷ ns) = Rooted regions n

-- Following the reference of a chain, root included.
pub chain_again :
    (content : ℕ → ℕ) (target : ℕ) (read : Reader) (regions : List Region) (type : DataType)
    (nodes os : List ℕ)
    → IsLinked content target nodes os
    → All (CanRead read regions content) (followed nodes)
    → All (Fits still) regions
    → HasRoot regions nodes
    → length (read target (type_size type)) ≡ type_size type
    → mapped regions target ≡ true
    → resolve_chain (make_chain_ref regions nodes os type) read regions
      ≡ resolved target (value_from_bytes (read target (type_size type)) (type_size type))
unfolding resolve_chain make_chain_ref
chain_again content target read regions type [] os linked can fits root sized here = absurd linked
chain_again content target read regions type (n ∷ ns) os linked can fits root sized here =
    rw (root_again regions n fits root)
      (follow_chain-IsLinked content target read regions type n ns os linked can sized here)
