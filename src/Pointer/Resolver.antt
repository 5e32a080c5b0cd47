-- ===== src/Pointer/Resolver.antt =====
-- Persistent pointer chains and their resolution (src/pointer_resolver.h and pointer_resolver.cpp,
-- and the references of pointer.h). `read` is `read_fn`.
pub mod Root
pub mod Follow
use memory_tools.Memory.{Region, Reader, readable, region_at, size}
use memory_tools.Memory
use memory_tools.Prelude.{
  ℕ, zero, suc, ◌+◌, ◌-◌, Bool, true, false, not, ◌&&◌, ◌||◌, List, [], ◌∷◌, Option, none, some,
  Bytes, bytes_eq, ◌==◌, ltb, leb, if◌then◌else◌, length, replicate, u64, sub64,
}
use memory_tools.Types.{DataType, type_size, value_from_bytes, le_value}

-- An absolute address, or a module and an offset in its file. The record's `kind` chooses the fields
-- that are used.
pub data PointerBase : Type 0 where
  absolute : ℕ → PointerBase
  module_base : Bytes → ℕ → PointerBase

pub record PointerChainRef : Type 0 where
  pub root : PointerBase
  pub offsets : List ℕ
  pub value_type : DataType

pub data ResolveError : Type 0 where
  module_not_found : Bytes → ResolveError
  offset_outside : ℕ → ResolveError
  broken_chain pointer_unreadable final_not_mapped final_unreadable : ResolveError

pub data ResolveResult : Type 0 where
  resolved : (address value : ℕ) → ResolveResult
  failed : ResolveError → ResolveResult

pub data RootResult : Type 0 where
  found : ℕ → RootResult
  missing : ResolveError → RootResult

-- A path that is not empty and does not begin with '['.
abbrev pub is_file : Bytes → Bool
is_file [] = false
is_file (c ∷ cs) = not (c == b'[')

abbrev base_in : ℕ → Option Region → PointerBase
base_in address none = absolute address
base_in address (some r) =
    if is_file r.path
    then module_base r.path (u64 (r.offset + sub64 address r.start))
    else absolute address

unfoldable pub make_base_from_address : List Region → ℕ → PointerBase
unfolding region_at
make_base_from_address regions address = base_in address (region_at regions address)

-- The loop, with whether the module was seen.
unfoldable pub resolve_module : Bytes → ℕ → Bool → List Region → RootResult
unfolding bytes_eq Memory.size
resolve_module name offset seen [] =
    if not seen then missing (module_not_found name) else missing (offset_outside offset)
resolve_module name offset seen (r ∷ rs) =
    let skipped = resolve_module name offset seen rs in
    let passed = resolve_module name offset true rs in
    if not (bytes_eq r.path name)
    then skipped
    else if leb r.offset offset && ltb offset (u64 (r.offset + size r))
    then found (u64 (r.start + (offset - r.offset)))
    else passed

unfoldable pub resolve_root : PointerBase → List Region → RootResult
unfolding resolve_module
resolve_root (absolute address) regions = found address
resolve_root (module_base name offset) regions = resolve_module name offset false regions

-- `region_at` finds a region, and it is readable.
abbrev pub readable_in : Option Region → Bool
readable_in none = false
readable_in (some r) = readable r

unfoldable pub mapped : List Region → ℕ → Bool
unfolding region_at readable
mapped regions addr = readable_in (region_at regions addr)

-- The last part: the final value.
unfoldable pub read_final : Reader → List Region → DataType → ℕ → ResolveResult
unfolding mapped
read_final read regions type addr =
    let buf = read addr (type_size type) in
    if not (mapped regions addr)
    then failed final_not_mapped
    else if not (length buf == type_size type)
    then failed final_unreadable
    else resolved addr (value_from_bytes buf (type_size type))

-- The loop over the offsets, and what comes behind it.
unfoldable pub follow : Reader → List Region → DataType → List ℕ → ℕ → ResolveResult
unfolding mapped read_final
follow read regions type [] addr = read_final read regions type addr
follow read regions type (o ∷ os) addr =
    let p = read addr 8 in
    let rest = follow read regions type os (u64 (le_value p + o)) in
    if not (mapped regions addr)
    then failed broken_chain
    else if not (length p == 8)
    then failed pointer_unreadable
    else rest

unfoldable pub follow_chain : PointerChainRef → ℕ → List Region → Reader → ResolveResult
unfolding follow
follow_chain chain root_addr regions read =
    follow read regions chain.value_type chain.offsets root_addr

abbrev pub resolve_from : RootResult → PointerChainRef → Reader → List Region → ResolveResult
resolve_from (missing e) chain read regions = failed e
resolve_from (found addr) chain read regions = follow_chain chain addr regions read

unfoldable pub resolve_chain : PointerChainRef → Reader → List Region → ResolveResult
unfolding resolve_root follow_chain
resolve_chain chain read regions = resolve_from (resolve_root chain.root regions) chain read regions

-- A default-constructed base is the absolute address 0.
unfoldable pub make_chain_ref : List Region → List ℕ → List ℕ → DataType → PointerChainRef
unfolding make_base_from_address
make_chain_ref regions [] offsets type = record {
  root = absolute 0;
  offsets = [];
  value_type = type;
}
make_chain_ref regions (n ∷ ns) offsets type = record {
  root = make_base_from_address regions n;
  offsets = if length offsets == length ns then offsets else replicate (length ns) 0;
  value_type = type;
}
