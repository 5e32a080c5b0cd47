-- ===== src/Pointer.antt =====
-- The pointer scanner's data and the frontier of chains (src/pointer.h and pointer.cpp).
-- `std::lower_bound` is the position behind the edges that are below the head.
pub mod Extend
pub mod Links
pub mod HashSet
pub mod Scan
pub mod Resolver
use memory_tools.Memory.{Region, readable, writable, executable}
use memory_tools.Prelude.{
  ℕ, zero, suc, ◌-◌, Bool, true, false, not, ◌&&◌, ◌||◌, List, [], ◌∷◌, ◌++◌, Bytes, codes,
  bytes_eq, ◌==◌, ltb, leb, if◌then◌else◌, length,
}
use memory_tools.Types.{DataType}

pub data RegionKind : Type 0 where
  heap stack anon_rw data_file code other : RegionKind

-- `path.rfind(prefix, 0) == 0`
unfoldable pub starts_with : Bytes → Bytes → Bool
starts_with [] s = true
starts_with (p ∷ ps) [] = false
starts_with (p ∷ ps) (c ∷ cs) = if p == c then starts_with ps cs else false

abbrev is_empty : Bytes → Bool
is_empty [] = true
is_empty (c ∷ cs) = false

unfoldable pub classify_region : Region → RegionKind
unfolding bytes_eq starts_with
classify_region r =
    if not (readable r)
    then RegionKind.other
    else if bytes_eq r.path (codes "[heap]")
    then RegionKind.heap
    else if starts_with (codes "[stack") r.path
    then RegionKind.stack
    else if bytes_eq r.path (codes "[vdso]")
        || bytes_eq r.path (codes "[vsyscall]")
        || bytes_eq r.path (codes "[vvar]")
    then RegionKind.other
    else if is_empty r.path
    then (if writable r then RegionKind.anon_rw else RegionKind.other)
    else if executable r
    then RegionKind.code
    else if writable r
    then RegionKind.data_file
    else RegionKind.other

abbrev is_source : Bool → RegionKind → Bool
is_source include_code RegionKind.heap = true
is_source include_code RegionKind.stack = true
is_source include_code RegionKind.anon_rw = true
is_source include_code RegionKind.data_file = true
is_source include_code RegionKind.code = include_code
is_source include_code RegionKind.other = false

unfoldable pub select_pointer_regions : List Region → Bool → List Region
unfolding classify_region
select_pointer_regions [] include_code = []
select_pointer_regions (r ∷ rs) include_code =
    if is_source include_code (classify_region r)
    then r ∷ select_pointer_regions rs include_code
    else select_pointer_regions rs include_code

pub record PointerEdge : Type 0 where
  pub source : ℕ
  pub target : ℕ
  pub offset : ℕ

pub record PointerChain : Type 0 where
  pub nodes : List ℕ
  pub offsets : List ℕ
  pub depth : ℕ

pub record PointerScanResult : Type 0 where
  pub target : ℕ
  pub chains : List PointerChain
  pub edges_truncated : Bool
  pub chains_truncated : Bool
  pub cancelled : Bool
  pub levels : ℕ
  pub total_edges : ℕ
  pub value_type : DataType

unfoldable pub chain_contains : List ℕ → ℕ → Bool
chain_contains [] v = false
chain_contains (n ∷ ns) v = if n == v then true else chain_contains ns v

unfoldable pub lower_bound : List PointerEdge → ℕ → List PointerEdge
lower_bound [] t = []
lower_bound (e ∷ es) t = if ltb e.target t then lower_bound es t else e ∷ es

-- The chain with the edge in front.
abbrev pub prepend : PointerEdge → PointerChain → PointerChain
prepend e chain = record {
  nodes = e.source ∷ chain.nodes;
  offsets = e.offset ∷ chain.offsets;
  depth = length (e.source ∷ chain.nodes) - 1;
}

-- The chains so far and the flag.
pub record Extension : Type 0 where
  pub out : List PointerChain
  pub truncated : Bool

-- The loop over the edges that lead to `head`, from the first on.
unfoldable pub extend_group :
    ℕ → PointerChain → ℕ → List PointerEdge → List PointerChain → Extension
extend_group most chain head [] out = record { out = out; truncated = false }
extend_group most chain head (e ∷ es) out =
    let skipped = extend_group most chain head es out in
    let added = extend_group most chain head es (out ++ (prepend e chain ∷ [])) in
    if not (e.target == head)
    then record { out = out; truncated = false }
    else if leb most (length out)
    then record { out = out; truncated = true }
    else if chain_contains chain.nodes e.source
    then skipped
    else added

abbrev pub group_of : ℕ → List PointerEdge → PointerChain → List ℕ → List PointerChain → Extension
group_of most edges chain [] out = record { out = out; truncated = false }
group_of most edges chain (head ∷ ns) out =
    extend_group most chain head (lower_bound edges head) out

-- The loop over the frontier.
unfoldable pub extend_each :
    ℕ → List PointerEdge → List PointerChain → List PointerChain → Extension
unfolding extend_group lower_bound chain_contains
extend_each most edges [] out = record { out = out; truncated = false }
extend_each most edges (chain ∷ chains) out =
    let group = group_of most edges chain chain.nodes out in
    let rest = extend_each most edges chains group.out in
    if leb most (length out)
    then record { out = out; truncated = true }
    else if group.truncated
    then group
    else rest

unfoldable pub extend_chains : List PointerChain → List PointerEdge → ℕ → Extension
unfolding extend_each
extend_chains frontier edges_sorted max_chains =
    if max_chains == 0
    then record { out = []; truncated = true }
    else extend_each max_chains edges_sorted frontier []
