-- ===== src/Pointer/Links.antt =====
-- Chains of pointers that lead to a target without a cycle, and extend_chains of src/pointer.cpp.
use memory_tools.Chunk.Naive.{view}
use memory_tools.Pointer.{
  PointerEdge, PointerChain, chain_contains, lower_bound, prepend, extend_group, group_of,
  extend_each, extend_chains,
}
use memory_tools.Prelude.{
  ℕ, suc, ◌+◌, ◌≡◌, refl, ap, ◌∙◌, false, List, [], ◌∷◌, ◌++◌, ◌==◌, leb, ltb, length, arith, All,
  All-append, Bool-cases, inl, inr, ==→eq, u64,
}
use memory_tools.Types.{le_value}

-- A property of chains that holds of a chain with an edge in front, if it holds of the chain and
-- another property of the edge, the edge leads to the head, and it comes from no node of the chain.
module _ {ℓ κ} (P : PointerChain → Type ℓ) (Q : PointerEdge → Type κ)
    (grows : (e : PointerEdge) (chain : PointerChain) (head : ℕ) (ns : List ℕ)
      → chain.nodes ≡ head ∷ ns
      → e.target ≡ head
      → chain_contains chain.nodes e.source ≡ false
      → Q e
      → P chain
      → P (prepend e chain))
    (most : ℕ) where
  group-All :
      (chain : PointerChain) (head : ℕ) (ns : List ℕ) (es : List PointerEdge)
      (out : List PointerChain)
      → chain.nodes ≡ head ∷ ns
      → P chain
      → All Q es
      → All P out
      → All P (extend_group most chain head es out).out
  unfolding extend_group
  group-All chain head ns [] out first p q all = all
  group-All chain head ns (e ∷ es) out first p q all = elim (Bool-cases (e.target == head)) [
    | inr other ↦ rw other all
    | inl same ↦ elim (Bool-cases (leb most (length out))) [
      | inl full ↦ rw (same, full) all
      | inr room ↦ elim (Bool-cases (chain_contains chain.nodes e.source)) [
        | inl seen ↦ rw (same, room, seen) (group-All chain head ns es out first p q.1 all)
        | inr new ↦
            let here = grows e chain head ns first (==→eq e.target head same) new q.0 p in
            rw (same, room, new)
              (group-All chain head ns es (out ++ (prepend e chain ∷ [])) first p q.1
                (All-append P out (prepend e chain ∷ []) all (here, tt)))
      ]
    ]
  ]

  lower_bound-All : (es : List PointerEdge) (t : ℕ) → All Q es → All Q (lower_bound es t)
  unfolding lower_bound
  lower_bound-All [] t q = tt
  lower_bound-All (e ∷ es) t q = elim (Bool-cases (ltb e.target t)) [
    | inl below ↦ rw below (lower_bound-All es t q.1)
    | inr from ↦ rw from q
  ]

  group_of-All :
      (edges : List PointerEdge) (chain : PointerChain) (ns : List ℕ) (out : List PointerChain)
      → chain.nodes ≡ ns
      → P chain
      → All Q edges
      → All P out
      → All P (group_of most edges chain ns out).out
  group_of-All edges chain [] out same p q all = all
  group_of-All edges chain (head ∷ ns) out same p q all =
      group-All chain head ns (lower_bound edges head) out same p (lower_bound-All edges head q) all

  each-All :
      (edges : List PointerEdge) (chains out : List PointerChain)
      → All P chains
      → All Q edges
      → All P out
      → All P (extend_each most edges chains out).out
  unfolding extend_each
  each-All edges [] out ps q all = all
  each-All edges (chain ∷ chains) out ps q all =
      let x = group_of most edges chain chain.nodes out in
      let here = group_of-All edges chain chain.nodes out refl ps.0 q all in
      elim (Bool-cases (leb most (length out))) [
        | inl full ↦ rw full all
        | inr room ↦ elim (Bool-cases x.truncated) [
          | inl cut ↦ rw (room, cut) here
          | inr on ↦ rw (room, on) (each-All edges chains x.out ps.1 q here)
        ]
      ]

  extend_chains-All :
      (edges : List PointerEdge) (chains : List PointerChain)
      → All P chains
      → All Q edges
      → All P (extend_chains chains edges most).out
  unfolding extend_chains
  extend_chains-All edges chains ps q = elim (Bool-cases (most == 0)) [
    | inl e ↦ rw e tt
    | inr e ↦ rw e (each-All edges chains [] ps q tt)
  ]

-- The 8 bytes at `a` and the offset lead to `b`.
abbrev pub Leads : (ℕ → ℕ) → ℕ → ℕ → ℕ → Type 0
Leads content a o b = u64 (le_value (view content a 8) + o) ≡ b

-- Each node and its offset lead to the next one, and the last node is the target.
abbrev pub IsLinked : (ℕ → ℕ) → ℕ → List ℕ → List ℕ → Type 0
IsLinked content target [] os = ⊥
IsLinked content target (n ∷ []) [] = n ≡ target
IsLinked content target (n ∷ []) (o ∷ os) = ⊥
IsLinked content target (n ∷ m ∷ ns) [] = ⊥
IsLinked content target (n ∷ m ∷ ns) (o ∷ os) =
    Leads content n o m × IsLinked content target (m ∷ ns) os

-- No node comes twice.
abbrev pub IsAcyclic : List ℕ → Type 0
IsAcyclic [] = Unit
IsAcyclic (n ∷ ns) = (chain_contains ns n ≡ false) × IsAcyclic ns

pub record IsChain (content : ℕ → ℕ) (target : ℕ) (c : PointerChain) : Type 0 where
  pub linked : IsLinked content target c.nodes c.offsets
  pub acyclic : IsAcyclic c.nodes
  pub deep : c.depth ≡ length c.offsets

link :
    (content : ℕ → ℕ) (target : ℕ) (s o m : ℕ) (nodes ns os : List ℕ)
    → nodes ≡ m ∷ ns
    → Leads content s o m
    → IsLinked content target nodes os
    → IsLinked content target (s ∷ nodes) (o ∷ os)
link content target s o m [] ns os first h k = absurd k
link content target s o m (x ∷ xs) ns os first h k = let same : m ≡ x = cc in (h ∙ same, k)

pub linked_length :
    (content : ℕ → ℕ) (target : ℕ) (ns os : List ℕ)
    → IsLinked content target ns os
    → length ns ≡ suc (length os)
linked_length content target [] os h = absurd h
linked_length content target (n ∷ []) [] h = refl
linked_length content target (n ∷ []) (o ∷ os) h = absurd h
linked_length content target (n ∷ m ∷ ns) [] h = absurd h
linked_length content target (n ∷ m ∷ ns) (o ∷ os) h =
    ap suc (linked_length content target (m ∷ ns) os h.1)

-- If the edges are pointers of the memory, `extend_chains` makes of chains that lead to the target
-- through pointers of the memory, and that have no node twice, chains of that kind only, each with
-- a depth that is its number of pointers.
pub extend_chains-IsChain :
    (content : ℕ → ℕ) (target : ℕ) (frontier : List PointerChain) (edges : List PointerEdge)
    (most : ℕ)
    → All (IsChain content target) frontier
    → All (λ e. Leads content e.source e.offset e.target) edges
    → All (IsChain content target) (extend_chains frontier edges most).out
extend_chains-IsChain content target frontier edges most chains true_edges =
    extend_chains-All (IsChain content target) (λ e. Leads content e.source e.offset e.target)
      (λ e chain head ns first same new leads is. record {
        linked =
            link content target e.source e.offset head chain.nodes ns chain.offsets first
              (leads ∙ same) is.linked;
        acyclic = (new, is.acyclic);
        deep = omega (arith, linked_length content target chain.nodes chain.offsets is.linked);
      })
      most edges frontier chains true_edges
