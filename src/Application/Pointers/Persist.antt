-- ===== src/Application/Pointers/Persist.antt =====
-- A chain that a scan has found, put into the table, leads to the scan's target again.
use mathlib.Core.Path.{subst}
use memory_tools.Application.Machine.{Machine, target_maps, pid_or_zero}
use memory_tools.Application.Pointers.{
  PointerScanInput, has_module_root, persistent, stored, publish_chains, scan_in, pointer_scan,
}
use memory_tools.Application.Pointers.Added.{Resolves, add_and_resolve}
use memory_tools.Application.Pointers.Chains.{still, HasRoot, chain_again}
use memory_tools.Chunk.Naive.{IsWhole}
use memory_tools.Memory.{Region, region_at, readable}
use memory_tools.Pointer.Links.{IsChain, Leads}
use memory_tools.Pointer.Resolver.{mapped, readable_in}
use memory_tools.Pointer.Resolver.Follow.{CanRead, followed}
use memory_tools.Pointer.Resolver.Root.{Fits}
use memory_tools.Pointer.Scan
use memory_tools.Pointer.Scan.{source_regions}
use memory_tools.Pointer.Scan.Sound.{pointer_scan-IsChain}
use memory_tools.Pointer.{PointerChain, PointerEdge, PointerScanResult}
use memory_tools.Prelude.{
  ℕ, zero, suc, ◌≤◌, ◌≡◌, ◌∙◌, inl, inr, refl, sym, ap, Bool, true, false, List, [], ◌∷◌, Option,
  none, some, Bytes, All, length, get_elem?, arith, Bool-cases, if◌then◌else◌,
}
use memory_tools.Session.Opened.{with_memory-opened}
use memory_tools.Session.{Session}
use memory_tools.Types.{type_size, value_from_bytes}

persistent-All {ℓ} :
    (P : PointerChain → Type ℓ) (regions : List Region) (cs : List PointerChain)
    → All P cs
    → All P (persistent regions cs)
unfolding persistent
persistent-All P regions [] h = tt
persistent-All P regions (c ∷ cs) h = elim (Bool-cases (has_module_root regions c.nodes)) [
  | inl e ↦ rw e (h.0, persistent-All P regions cs h.1)
  | inr e ↦ rw e (persistent-All P regions cs h.1)
]

All-get {ℓ κ} :
    {A : Type ℓ} (P : A → Type κ) (xs : List A) (i : ℕ) (x : A)
    → All P xs
    → get_elem? xs i ≡ some x
    → P x
All-get P [] i x h e = absurd (cc)
All-get P (y ∷ ys) zero x h e = let same : y ≡ x = cc in subst P same h.0
All-get P (y ∷ ys) (suc i) x h e = All-get P ys i x h.1 e

published :
    (input : PointerScanInput) (regions : List Region) (s : Session) (raw res : PointerScanResult)
    → (publish_chains input regions s (some raw, none)).1.ok ≡ true
    → (publish_chains input regions s (some raw, none)).1.result ≡ some res
    → ((publish_chains input regions s (some raw, none)).0 ≡ record s { last_pointer = some res })
      × (res ≡ stored input regions raw)
published input regions s raw res ok given = (ground arith, ground arith)

-- What a successful scan says of the session and the machine.
scanned :
    (m : Machine) (cancel : ℕ → Bool) (progress : Bool) (input : PointerScanInput)
    (regions : List Region) (s : Session) (r : Option Region) (pid : ℕ) (res : PointerScanResult)
    → s.pid ≡ some pid
    → m.open_memory pid ≡ none
    → (scan_in m cancel progress input regions s r).1.ok ≡ true
    → (scan_in m cancel progress input regions s r).1.result ≡ some res
    → (readable_in r ≡ true)
      × ((scan_in m cancel progress input regions s r).0 ≡ record s { last_pointer = some res })
      × (res
          ≡ stored input regions
              (Scan.pointer_scan m.sort_nodes m.sort_edges
                (m.reader pid)
                regions
                input.opts
                cancel
                progress).0)
scanned m cancel progress input regions s none pid res at able ok given = absurd (cc)
scanned m cancel progress input regions s (some r) pid res at able ok given =
    elim (Bool-cases (readable r)) [
      | inl e ↦
          let run =
            with_memory-opened m.open_memory
              (λ pid _.
                some
                  (Scan.pointer_scan m.sort_nodes m.sort_edges (m.reader pid) regions input.opts
                    cancel progress).0)
              s none pid at able in
          let (after, same) =
            published input regions s _ res (rw (e, run) at ok) (rw (e, run) at given) in
          (e, rw (e, run) after, same)
      | inr e ↦ cc (rw e at ok)
    ]

stored-All {ℓ} :
    (P : PointerChain → Type ℓ) (b : Bool) (regions : List Region) (cs : List PointerChain)
    → All P cs
    → All P (if b then persistent regions cs else cs)
stored-All P true regions cs h = persistent-All P regions cs h
stored-All P false regions cs h = h

-- Scan, add and resolve: after a successful scan of the open target process that no one cancels, on a
-- memory of which the source regions can be read whole and end 16 addresses before the last one,
-- with a `std::sort` that gives no edge that was not in its input, any chain of the result can be
-- added to the table, and the entry is then resolved to the scan's target with the value there;
-- provided that the nodes before the target are in readable regions and read as they were, that the
-- value can be read whole, that regions end before the last address, and that the mapping of the
-- chain's root can be told from others of its file.
pub resolve_entry-pointer_scan :
    (m : Machine) (content : ℕ → ℕ) (cancel : ℕ → Bool) (progress : Bool) (input : PointerScanInput)
    (s : Session) (pid : ℕ) (res : PointerScanResult) (i : ℕ) (c : PointerChain)
    (description : Bytes)
    → s.pid ≡ some pid
    → m.open_memory pid ≡ none
    → ((es : List PointerEdge)
        → All (λ e. Leads content e.source e.offset e.target) es
        → All (λ e. Leads content e.source e.offset e.target) (m.sort_edges es))
    → ((k : ℕ) → cancel k ≡ false)
    → All
        (λ r. readable r ≡ true → (r.start ≤ r.end) × IsWhole content 8 (m.reader pid) r)
        (source_regions input.opts (m.maps pid))
    → (pointer_scan m cancel progress input s).1.ok ≡ true
    → (pointer_scan m cancel progress input s).1.result ≡ some res
    → get_elem? res.chains i ≡ some c
    → All (CanRead (m.reader pid) (m.maps pid) content) (followed c.nodes)
    → length (m.reader pid input.opts.target (type_size input.value_type))
      ≡ type_size input.value_type
    → All (Fits still) (m.maps pid)
    → HasRoot (m.maps pid) c.nodes
    → Resolves m i description
        (pointer_scan m cancel progress input s).0
        input.opts.target
        (value_from_bytes
          (m.reader pid input.opts.target (type_size input.value_type))
          (type_size input.value_type))
        input.value_type
unfolding pointer_scan mapped
resolve_entry-pointer_scan m content cancel progress input s pid res i c description at able sorted
      calm whole ok given chosen can sized fits root =
    let target = input.opts.target in
    let regions = m.maps pid in
    let maps : target_maps m s ≡ regions = ap (λ p. m.maps (pid_or_zero p)) at in
    let (held, after, result) =
      scanned m cancel progress input (target_maps m s) s (region_at (target_maps m s) target) pid
        res at able ok given in
    let scan = λ (rs : List Region).
      (Scan.pointer_scan m.sort_nodes m.sort_edges (m.reader pid) rs input.opts cancel
        progress).0 in
    let same : res ≡ stored input regions (scan regions) =
      result ∙ ap (λ rs. stored input rs (scan rs)) maps in
    let here : mapped regions target ≡ true =
      ap (λ rs. readable_in (region_at rs target)) (sym maps) ∙ held in
    let all : All (IsChain content target) (stored input regions (scan regions)).chains =
      stored-All (IsChain content target) input.module_only regions (scan regions).chains (
        pointer_scan-IsChain content m.sort_nodes m.sort_edges (m.reader pid) regions input.opts
          cancel progress sorted calm whole) in
    let chain : IsChain content target c =
      All-get (IsChain content target) (stored input regions (scan regions)).chains i c all
        (ap (λ r. get_elem? r.chains i) (sym same) ∙ chosen) in
    subst
      (λ x.
        Resolves m i description x target
          (value_from_bytes (m.reader pid target (type_size input.value_type))
            (type_size input.value_type))
          input.value_type)
      (sym after)
      (add_and_resolve m (record s { last_pointer = some res }) res i c description pid target _
        input.value_type at able refl chosen (ap (λ r. r.value_type) same)
        (chain_again content target (m.reader pid) regions input.value_type c.nodes c.offsets
          chain.linked can fits root sized here))
