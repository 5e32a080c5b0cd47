-- ===== src/Pointer/Scan.antt =====
-- The level loop of the pointer scanner (src/pointer.h, pointer_scan). `std::sort` on numbers and on
-- edges is a parameter. The shared flag is loaded by the level loop and by the walk, and the loads
-- are counted in one sequence.
pub mod Sound
use memory_tools.Chunk.{for_each_window, readable_total, Walk}
use memory_tools.Memory.{Region, Reader}
use memory_tools.Pointer.HashSet.{FlatHashSet, build, contains}
use memory_tools.Pointer.{
  PointerEdge, PointerChain, PointerScanResult, Extension, extend_chains, select_pointer_regions,
}
use memory_tools.Prelude.{
  ℕ, zero, suc, ◌+◌, ◌-◌, ◌*◌, ◌/◌, ◌^◌, ◌<◌, Bool, true, false, not, ◌&&◌, ◌||◌, List, [], ◌∷◌,
  ◌++◌, Option, none, some, Bytes, ◌==◌, ltb, leb, if◌then◌else◌, length, get_or, set, replicate,
  map, u64, sub64, bit_and, bit_xor,
}
use memory_tools.Types.{DataType, le_value}

-- A `max_depth` below 1 is 0.
pub record PointerScanOptions : Type 0 where
  pub target : ℕ
  pub max_depth : ℕ
  pub max_edges_per_level : ℕ
  pub max_chains : ℕ
  pub include_code : Bool
  pub min_addr : ℕ
  pub max_addr : ℕ
  pub max_offset : ℕ
  pub offset_step : ℕ

-- The regions cut to the range of addresses, where a limit of 0 is none.
unfoldable pub clip : ℕ → ℕ → List Region → List Region
clip low high [] = []
clip low high (r ∷ rs) =
    let start = if not (low == 0) && ltb r.start low then low else r.start in
    let end = if not (high == 0) && ltb high r.end then high else r.end in
    let rest = clip low high rs in
    if not (high == 0) && leb high r.start
    then rest
    else if not (low == 0) && leb r.end low
    then rest
    else if ltb start end
    then record r { start = start; end = end } ∷ rest
    else rest

unfoldable pub source_regions : PointerScanOptions → List Region → List Region
source_regions opts regions =
    let source = select_pointer_regions regions opts.include_code in
    if not (opts.min_addr == 0) || not (opts.max_addr == 0)
    then clip opts.min_addr opts.max_addr source
    else source

-- 0, `step`, ... up to the largest offset.
abbrev pub offsets_from : ℕ → ℕ → ℕ → List ℕ
offsets_from zero step o = []
offsets_from (suc n) step o = o ∷ offsets_from n step (o + step)

abbrev pub step_of : PointerScanOptions → ℕ
step_of opts = if opts.offset_step == 0 then 1 else opts.offset_step

abbrev pub window_offsets : PointerScanOptions → List ℕ
window_offsets opts = offsets_from (opts.max_offset / step_of opts + 1) (step_of opts) 0

unfoldable pub shifted_values : List ℕ → List ℕ → List ℕ
shifted_values [] offs = []
shifted_values (t ∷ ts) offs = map (λ o. sub64 t o) offs ++ shifted_values ts offs

-- The edges of a level, and whether it was stopped.
pub record Level : Type 0 where
  pub edges : List PointerEdge
  pub stopped : Bool

-- The loop over the offsets, for the value `v` at `addr`.
unfoldable pub try_offsets : FlatHashSet → ℕ → ℕ → ℕ → List ℕ → Level → Level × Bool
try_offsets current most v addr [] l = (l, true)
try_offsets current most v addr (o ∷ os) l =
    let found = l.edges ++ (record { source = addr; target = u64 (v + o); offset = o } ∷ []) in
    elim (contains current (u64 (v + o))) [
      | false ↦ try_offsets current most v addr os l
      | true ↦ elim (leb most (length found)) [
        | true ↦ (record { edges = found; stopped = true }, false)
        | false ↦ try_offsets current most v addr os (record l { edges = found })
      ]
    ]

-- The lambda `cb`.
unfoldable pub find_edges :
    FlatHashSet → FlatHashSet → PointerScanOptions → Level → Bytes → ℕ → Level × Bool
find_edges shifted current opts l win addr =
    let v = le_value win in
    if not (contains shifted v)
    then (l, true)
    else try_offsets current opts.max_edges_per_level v addr (window_offsets opts) l

-- The result so far, the loads of the flag, and the calls of the progress callback.
pub record Scan : Type 0 where
  pub res : PointerScanResult
  pub loads : ℕ
  pub reports : List (ℕ × ℕ)

abbrev is_nil {ℓ} : {A : Type ℓ} → List A → Bool
is_nil [] = true
is_nil (x ∷ xs) = false

abbrev finish_cancelled : Scan → Scan
finish_cancelled s = record s {
  res = record s.res {
    chains = [];
    levels = 0;
    total_edges = 0;
    edges_truncated = false;
    chains_truncated = false;
    cancelled = true;
  };
}

module _ (sort : List ℕ → List ℕ) (sort_edges : List PointerEdge → List PointerEdge) (read : Reader)
    (source : List Region) (opts : PointerScanOptions) (cancel : ℕ → Bool) (progress : Bool) where
  -- The walk of a level.
  abbrev pub level_walk : List ℕ → ℕ → Walk Level
  level_walk values loads =
      for_each_window read source 8 8
        (find_edges (build sort (shifted_values values (window_offsets opts))) (build sort values)
          opts)
        (λ k. cancel (loads + k)) true (record { edges = []; stopped = false })

  -- What a level with edges makes of the result, but for the chains.
  abbrev pub counted : ℕ → Level → Bool → PointerScanResult → PointerScanResult
  counted d l cut res = record res {
    levels = d;
    total_edges = res.total_edges + length l.edges;
    edges_truncated = res.edges_truncated || l.stopped;
    chains_truncated = res.chains_truncated || cut;
  }

  unfoldable pub scan_levels : ℕ → ℕ → ℕ → ℕ → List PointerChain → List ℕ → Scan → Scan
  scan_levels zero d before grand frontier values s = s
  scan_levels (suc n) d before grand frontier values s = elim (cancel s.loads) [
    | true ↦ finish_cancelled s
    | false ↦
        let t = level_walk values (s.loads + 1) in
        let here = s.loads + 1 + t.loads in
        let calls =
          if progress then map (λ (c : ℕ × ℕ). (u64 (before + c.0), grand)) t.reports else [] in
        let walked = record s { loads = here + 1; reports = s.reports ++ calls } in
        elim (cancel here) [
          | true ↦ finish_cancelled walked
          | false ↦ elim (is_nil t.acc.edges) [
            | true ↦ walked
            | false ↦ elim (cancel (here + 1)) [
              | true ↦ finish_cancelled (record walked { loads = here + 2 })
              | false ↦
                  let x = extend_chains frontier (sort_edges t.acc.edges) opts.max_chains in
                  let next = counted d t.acc x.truncated s.res in
                  let grown = record walked {
                    loads = here + 2;
                    res = record next { chains = s.res.chains ++ x.out };
                  } in
                  elim (is_nil x.out) [
                    | true ↦ grown
                    | false ↦ elim t.acc.stopped [
                      | true ↦ grown
                      | false ↦
                          scan_levels n (d + 1) (u64 (before + readable_total source)) grand x.out
                            (map (λ (e : PointerEdge). e.source) (sort_edges t.acc.edges)) grown
                    ]
                  ]
            ]
          ]
        ]
  ]

-- No chains yet.
abbrev pub no_chains : ℕ → PointerScanResult
no_chains target = record {
  target = target;
  chains = [];
  edges_truncated = false;
  chains_truncated = false;
  cancelled = false;
  levels = 0;
  total_edges = 0;
  value_type = DataType.i32;
}

-- The result and the calls of the progress callback.
unfoldable pub pointer_scan :
    (List ℕ → List ℕ)
    → (List PointerEdge → List PointerEdge)
    → Reader
    → List Region
    → PointerScanOptions
    → (ℕ → Bool)
    → Bool
    → PointerScanResult × List (ℕ × ℕ)
pointer_scan sort sort_edges read regions opts cancel progress =
    let source = source_regions opts regions in
    let grand = u64 (readable_total source * opts.max_depth) in
    let s =
      scan_levels sort sort_edges read source opts cancel progress opts.max_depth 1 0 grand
        (record { nodes = opts.target ∷ []; offsets = []; depth = 0 } ∷ []) (opts.target ∷ [])
        (record { res = no_chains opts.target; loads = 0; reports = [] }) in
    let last =
      if progress && not s.res.cancelled && not (cancel s.loads) && ltb 0 grand
      then (grand, grand) ∷ []
      else [] in
    if opts.target == 0 || opts.max_depth == 0
    then (no_chains opts.target, [])
    else (s.res, s.reports ++ last)
