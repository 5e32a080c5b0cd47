-- ===== src/Pointer/Scan/Sound.antt =====
-- The chains of a whole pointer scan.
use memory_tools.Chunk.Equal.{for_each_window-naive}
use memory_tools.Chunk.Naive.{IsWhole, view, naive, naive_regions}
use memory_tools.Chunk.{align_up, Walk}
use memory_tools.Memory.{Region, Reader, readable}
use memory_tools.Pointer.Links.{Leads, IsChain, extend_chains-IsChain}
use memory_tools.Pointer.HashSet.{FlatHashSet, build, contains}
use memory_tools.Pointer.Scan.{
  PointerScanOptions, source_regions, Level, try_offsets, find_edges, Scan, level_walk, scan_levels,
  is_nil, shifted_values, pointer_scan, window_offsets,
}
use memory_tools.Pointer.{PointerEdge, PointerChain, chain_contains, extend_chains}
use memory_tools.Prelude.{
  ℕ, zero, suc, ◌+◌, ◌-◌, ◌≤◌, ◌≡◌, refl, Bool, true, false, ◌||◌, List, [], ◌∷◌, ◌++◌, Bytes, leb,
  length, arith, All, All-append, Bool-cases, inl, inr, ◌==◌, u64,
}
use memory_tools.Types.{le_value}

-- What a callback keeps at every window of the memory holds behind the plain loop.
module _ {ℓ κ} {S : Type ℓ} (P : S → Type κ) (callback : S → Bytes → ℕ → S × Bool) (content : ℕ → ℕ)
    (w s : ℕ) (keep : (acc : S) (a : ℕ) → P acc → P (callback acc (view content a w) a).0) where
  naive-keeps : (f a end : ℕ) (acc : S) → P acc → P (naive callback content w s f a end acc).acc
  unfolding naive
  naive-keeps zero a end acc p = p
  naive-keeps (suc f) a end acc p = elim (Bool-cases (leb (a + w) end)) [
    | inr short ↦ rw (short, naive) p
    | inl long ↦
        let result = callback acc (view content a w) a in
        elim (Bool-cases result.1) [
          | inr stop ↦ rw (long, stop, naive) (keep acc a p)
          | inl go ↦ rw (long, go, naive) (naive-keeps f (a + s) end result.0 (keep acc a p))
        ]
  ]

  naive_regions-keeps :
      (rs : List Region) (acc : S) → P acc → P (naive_regions callback content w s rs acc).0
  unfolding naive_regions
  naive_regions-keeps [] acc p = p
  naive_regions-keeps (r ∷ rs) acc p = elim (Bool-cases (readable r)) [
    | inr closed ↦ rw (closed, naive_regions) (naive_regions-keeps rs acc p)
    | inl open_region ↦
        let t = naive callback content w s (suc (r.end - r.start)) (align_up r.start s) r.end acc in
        let here = naive-keeps (suc (r.end - r.start)) (align_up r.start s) r.end acc p in
        elim (Bool-cases t.whole) [
          | inl through ↦
              rw (open_region, through, naive_regions) (naive_regions-keeps rs t.acc here)
          | inr halted ↦ rw (open_region, halted, naive_regions) here
        ]
  ]

module _ (content : ℕ → ℕ) where
  abbrev TrueEdge : PointerEdge → Type 0
  TrueEdge e = Leads content e.source e.offset e.target

  try_offsets-TrueEdge :
      (current : FlatHashSet) (most v addr : ℕ) (os : List ℕ) (l : Level)
      → le_value (view content addr 8) ≡ v
      → All TrueEdge l.edges
      → All TrueEdge (try_offsets current most v addr os l).0.edges
  unfolding try_offsets
  try_offsets-TrueEdge current most v addr [] l e h = h
  try_offsets-TrueEdge current most v addr (o ∷ os) l e h =
      let edge : PointerEdge = record { source = addr; target = u64 (v + o); offset = o } in
      let true_edge : TrueEdge edge = rw e refl in
      let more = All-append TrueEdge l.edges (edge ∷ []) h (true_edge, tt) in
      elim (Bool-cases (contains current (u64 (v + o)))) [
        | inr other ↦ rw (other, try_offsets) (try_offsets-TrueEdge current most v addr os l e h)
        | inl member ↦ elim (Bool-cases (leb most (length (l.edges ++ (edge ∷ []))))) [
          | inl full ↦ rw (member, full, try_offsets) more
          | inr room ↦
              rw (member, room, try_offsets)
                (try_offsets-TrueEdge current most v addr os
                  (record l { edges = l.edges ++ (edge ∷ []) }) e more)
        ]
      ]

  find_edges-TrueEdge :
      (shifted current : FlatHashSet) (opts : PointerScanOptions) (l : Level) (a : ℕ)
      → All TrueEdge l.edges
      → All TrueEdge (find_edges shifted current opts l (view content a 8) a).0.edges
  unfolding find_edges
  find_edges-TrueEdge shifted current opts l a h =
      elim (Bool-cases (contains shifted (le_value (view content a 8)))) [
        | inr other ↦ rw other h
        | inl member ↦ rw member (
            try_offsets-TrueEdge current opts.max_edges_per_level (le_value (view content a 8)) a
              (window_offsets opts) l refl h)
      ]

module _ (content : ℕ → ℕ) (sort : List ℕ → List ℕ)
    (sort_edges : List PointerEdge → List PointerEdge) (read : Reader) (source : List Region)
    (opts : PointerScanOptions) (cancel : ℕ → Bool) (progress : Bool)
    (sorted : (es : List PointerEdge)
      → All (TrueEdge content) es
      → All (TrueEdge content) (sort_edges es))
    (calm : (k : ℕ) → cancel k ≡ false)
    (whole : All
      (λ r. readable r ≡ true → (r.start ≤ r.end) × IsWhole content 8 read r)
      source) where
  abbrev walk_at : List ℕ → ℕ → Walk Level
  walk_at = level_walk sort sort_edges read source opts cancel progress

  level-TrueEdge :
      (values : List ℕ) (loads : ℕ) → All (TrueEdge content) (walk_at values loads).acc.edges
  level-TrueEdge values loads =
      let callback =
        find_edges (build sort (shifted_values values (window_offsets opts))) (build sort values)
          opts in
      let (same, _) =
        for_each_window-naive read source 8 8 callback (λ k. cancel (loads + k)) true
          (record { edges = []; stopped = false }) content (omega arith) (omega arith)
          (λ k. calm (loads + k)) whole in
      rw same (
        naive_regions-keeps (λ (l : Level). All (TrueEdge content) l.edges) callback content 8 8
          (λ l a h. find_edges-TrueEdge content _ _ opts l a h) source _ tt)

  levels-IsChain :
      (target n d before grand : ℕ) (frontier : List PointerChain) (values : List ℕ) (s : Scan)
      → All (IsChain content target) frontier
      → All (IsChain content target) s.res.chains
      → All
          (IsChain content target)
          (scan_levels sort sort_edges read source opts cancel progress n d before grand frontier
            values s).res.chains
  unfolding scan_levels
  levels-IsChain target zero d before grand frontier values s chains found = found
  levels-IsChain target (suc n) d before grand frontier values s chains found =
      let t = walk_at values (s.loads + 1) in
      let here = s.loads + 1 + t.loads in
      let edges = sort_edges t.acc.edges in
      let x = extend_chains frontier edges opts.max_chains in
      let new =
        extend_chains-IsChain content target frontier edges opts.max_chains chains
          (sorted t.acc.edges (level-TrueEdge values (s.loads + 1))) in
      let all = All-append (IsChain content target) s.res.chains x.out found new in
      elim (Bool-cases (is_nil t.acc.edges)) [
        | inl none ↦ rw (calm s.loads, calm here, none, scan_levels) found
        | inr some_edge ↦ elim (Bool-cases (is_nil x.out)) [
          | inl last ↦
              rw (calm s.loads, calm here, some_edge, calm (here + 1), last, scan_levels) all
          | inr more ↦ elim (Bool-cases t.acc.stopped) [
            | inl stop ↦
                rw (calm s.loads, calm here, some_edge, calm (here + 1), more, stop, scan_levels)
                  all
            | inr on ↦
                rw (calm s.loads, calm here, some_edge, calm (here + 1), more, on, scan_levels)
                  (levels-IsChain target n (d + 1) _ grand x.out _ _ new all)
          ]
        ]
      ]

-- On a memory of which the source regions can be read whole and end 16 addresses before the last
-- one, when no cancellation is asked for, and if `std::sort` gives no edge that was not in its
-- input, every chain that `pointer_scan` gives leads to the target through pointers and offsets of
-- the memory, has no node twice, and has as depth its number of pointers.
pub pointer_scan-IsChain :
    (content : ℕ → ℕ) (sort : List ℕ → List ℕ) (sort_edges : List PointerEdge → List PointerEdge)
    (read : Reader) (regions : List Region) (opts : PointerScanOptions) (cancel : ℕ → Bool)
    (progress : Bool)
    → ((es : List PointerEdge)
        → All (λ e. Leads content e.source e.offset e.target) es
        → All (λ e. Leads content e.source e.offset e.target) (sort_edges es))
    → ((k : ℕ) → cancel k ≡ false)
    → All
        (λ r. readable r ≡ true → (r.start ≤ r.end) × IsWhole content 8 read r)
        (source_regions opts regions)
    → All
        (IsChain content opts.target)
        (pointer_scan sort sort_edges read regions opts cancel progress).0.chains
unfolding pointer_scan chain_contains
pointer_scan-IsChain content sort sort_edges read regions opts cancel progress sorted calm whole =
    elim (Bool-cases (opts.target == 0 || opts.max_depth == 0)) [
      | inl e ↦ rw e tt
      | inr e ↦ rw e (
          levels-IsChain content sort sort_edges read (source_regions opts regions) opts cancel
            progress sorted calm whole opts.target opts.max_depth 1 0 _ _ (opts.target ∷ []) _
            (record { linked = refl; acyclic = (refl, tt); deep = refl }, tt) tt)
    ]
