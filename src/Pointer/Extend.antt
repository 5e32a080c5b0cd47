-- ===== src/Pointer/Extend.antt =====
-- What `extend_chains` gives.
use mathlib.Core.List.{append-nil, append_assoc}
use memory_tools.Pointer.{
  PointerEdge, PointerChain, chain_contains, lower_bound, prepend, Extension, extend_group,
  group_of, extend_each, extend_chains,
}
use memory_tools.Prelude.{
  ℕ, ◌≤◌, ◌<◌, ◌≡◌, refl, sym, ap, ◌∙◌, true, false, not, ◌&&◌, List, [], ◌∷◌, ◌++◌, ◌==◌, leb, ltb,
  length, length-append, arith, Bool-cases, inl, inr, if◌then◌else◌, leb→le, leb→lt, ltb→le,
}

-- The chains with one more edge in front, of the edges that lead to their head and do not come from
-- one of their nodes.
abbrev pub grown : PointerChain → ℕ → List PointerEdge → List PointerChain
grown chain head [] = []
grown chain head (e ∷ es) =
    if (e.target == head) && not (chain_contains chain.nodes e.source)
    then prepend e chain ∷ grown chain head es
    else grown chain head es

abbrev pub grown_of : List PointerEdge → PointerChain → List ℕ → List PointerChain
grown_of edges chain [] = []
grown_of edges chain (head ∷ ns) = grown chain head edges

abbrev pub all_grown : List PointerEdge → List PointerChain → List PointerChain
all_grown edges [] = []
all_grown edges (chain ∷ chains) = grown_of edges chain chain.nodes ++ all_grown edges chains

-- In the order of the targets, from `t` on.
abbrev pub ByTarget : ℕ → List PointerEdge → Type 0
ByTarget t [] = Unit
ByTarget t (e ∷ es) = (t ≤ e.target) × ByTarget e.target es

-- A part of the full list: all of it, or as much as there may be.
pub record Fills (most : ℕ) (full : List PointerChain) (x : Extension) : Type 0 where
  pub rest : List PointerChain
  pub split : full ≡ x.out ++ rest
  pub short : length x.out ≤ most
  pub whole : x.truncated ≡ false → rest ≡ []
  pub cut : x.truncated ≡ true → length x.out ≡ most

none_above :
    (chain : PointerChain) (head t : ℕ) (es : List PointerEdge)
    → head < t
    → ByTarget t es
    → grown chain head es ≡ []
none_above chain head t [] h up = refl
none_above chain head t (e ∷ es) h up =
    ground (arith, none_above chain head e.target es (omega (arith, up.0)) up.1)

done :
    (most : ℕ) (out g : List PointerChain)
    → g ≡ []
    → length out ≤ most
    → Fills most (out ++ g) (record { out = out; truncated = false })
done most out g e h = record {
  rest = [];
  split = ap (λ x. out ++ x) e;
  short = h;
  whole = λ _. refl;
  cut = λ k. cc;
}

full_up :
    (most : ℕ) (out g : List PointerChain)
    → length out ≤ most
    → most ≤ length out
    → Fills most (out ++ g) (record { out = out; truncated = true })
full_up most out g h k = record {
  rest = g;
  split = refl;
  short = h;
  whole = λ e. cc;
  cut = λ _. omega arith;
}

module _ (most : ℕ) (chain : PointerChain) (head : ℕ) where
  extend_group-Fills :
      (t : ℕ) (es : List PointerEdge) (out : List PointerChain)
      → head ≤ t
      → ByTarget t es
      → length out ≤ most
      → Fills most (out ++ grown chain head es) (extend_group most chain head es out)
  unfolding extend_group
  extend_group-Fills t [] out from up h = done most out [] refl h
  extend_group-Fills t (e ∷ es) out from up h = elim (Bool-cases (e.target == head)) [
    | inr other ↦
        let none_left : grown chain head es ≡ [] =
          none_above chain head e.target es (ground (arith, up.0)) up.1 in
        rw other (done most out (grown chain head es) none_left h)
    | inl same ↦ elim (Bool-cases (leb most (length out))) [
      | inl full ↦ rw (same, full) (full_up most out _ h (leb→le most (length out) full))
      | inr room ↦ elim (Bool-cases (chain_contains chain.nodes e.source)) [
        | inl seen ↦
            rw (same, room, seen) (extend_group-Fills e.target es out (omega (arith, up.0)) up.1 h)
        | inr new ↦
            let more = out ++ (prepend e chain ∷ []) in
            let k = extend_group-Fills e.target es more (omega (arith, up.0)) up.1 (
              omega
                (arith, length-append out (prepend e chain ∷ []), leb→lt most (length out) room)) in
            rw (same, room, new)
              (record {
                rest = k.rest;
                split =
                    sym (append_assoc out (prepend e chain ∷ []) (grown chain head es)) ∙ k.split;
                short = k.short;
                whole = k.whole;
                cut = k.cut;
              })
      ]
    ]
  ]

  lower_bound_lem :
      (t : ℕ) (es : List PointerEdge)
      → ByTarget t es
      → ByTarget head (lower_bound es head)
        × (grown chain head (lower_bound es head) ≡ grown chain head es)
  unfolding lower_bound
  lower_bound_lem t [] up = (tt, refl)
  lower_bound_lem t (e ∷ es) up = elim (Bool-cases (ltb e.target head)) [
    | inl below ↦
        let skip : e.target == head ≡ false = ground arith in
        rw (below, skip) (lower_bound_lem e.target es up.1)
    | inr from ↦ rw from ((ltb→le e.target head from, up.1), refl)
  ]

group_of-Fills :
    (most : ℕ) (edges : List PointerEdge) (chain : PointerChain) (ns : List ℕ)
    (out : List PointerChain)
    → ByTarget 0 edges
    → length out ≤ most
    → Fills most (out ++ grown_of edges chain ns) (group_of most edges chain ns out)
group_of-Fills most edges chain [] out up h = done most out [] refl h
group_of-Fills most edges chain (head ∷ ns) out up h =
    let (up', same) = lower_bound_lem most chain head 0 edges up in
    let k =
      extend_group-Fills most chain head head (lower_bound edges head) out (omega arith) up' h in
    record {
      rest = k.rest;
      split = ap (λ g. out ++ g) (sym same) ∙ k.split;
      short = k.short;
      whole = k.whole;
      cut = k.cut;
    }

extend_each-Fills :
    (most : ℕ) (edges : List PointerEdge) (chains out : List PointerChain)
    → ByTarget 0 edges
    → length out ≤ most
    → Fills most (out ++ all_grown edges chains) (extend_each most edges chains out)
unfolding extend_each
extend_each-Fills most edges [] out up h = done most out [] refl h
extend_each-Fills most edges (chain ∷ chains) out up h =
    let x = group_of most edges chain chain.nodes out in
    let g = grown_of edges chain chain.nodes in
    let later = all_grown edges chains in
    let k = group_of-Fills most edges chain chain.nodes out up h in
    elim (Bool-cases (leb most (length out))) [
      | inl full ↦ rw full (full_up most out _ h (leb→le most (length out) full))
      | inr room ↦ elim (Bool-cases x.truncated) [
        | inl cut ↦
            rw (room, cut)
              (record {
                rest = k.rest ++ later;
                split =
                    sym (append_assoc out g later)
                    ∙ ap (λ l. l ++ later) k.split
                    ∙ append_assoc x.out k.rest later;
                short = k.short;
                whole = λ e. cc;
                cut = λ _. k.cut cut;
              })
        | inr on ↦
            let all : out ++ g ≡ x.out =
              k.split ∙ ap (λ r. x.out ++ r) (k.whole on) ∙ append-nil x.out in
            let r = extend_each-Fills most edges chains x.out up k.short in
            rw (room, on)
              (record {
                rest = r.rest;
                split = sym (append_assoc out g later) ∙ ap (λ l. l ++ later) all ∙ r.split;
                short = r.short;
                whole = r.whole;
                cut = r.cut;
              })
      ]
    ]

-- For edges in the order of their targets `extend_chains` gives, in order, the first chains of those
-- with one more edge in front: all of them if the result is not marked as truncated, as many as the
-- maximum otherwise.
pub extend_chains_complete :
    (frontier : List PointerChain) (edges : List PointerEdge) (most : ℕ)
    → ByTarget 0 edges
    → Fills most (all_grown edges frontier) (extend_chains frontier edges most)
unfolding extend_chains
extend_chains_complete frontier edges most up = elim (Bool-cases (most == 0)) [
  | inl e ↦ rw e (full_up most [] (all_grown edges frontier) (omega arith) (ground arith))
  | inr e ↦ rw e (extend_each-Fills most edges frontier [] up (omega arith))
]
