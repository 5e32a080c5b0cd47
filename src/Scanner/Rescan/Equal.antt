-- ===== src/Scanner/Rescan/Equal.antt =====
-- The loop by blocks against one read for each candidate.
use mathlib.Core.List.{append_assoc}
use memory_tools.Chunk.Naive.{view, length-view, take-view, drop-view}
use memory_tools.Chunk.{chunk_bytes}
use memory_tools.Memory.{Reader}
use memory_tools.Prelude.{
  ℕ, ◌+◌, ◌-◌, ◌≤◌, ◌<◌, ◌≡◌, refl, sym, ap, ◌∙◌, List, [], ◌∷◌, ◌++◌, Option, none, some, Bytes,
  ltb, leb, if◌then◌else◌, min, length, take, drop, All, word, arith, Bool-cases, inl, inr,
  sub64_of_le, ltb→lt, ltb→le, le→leb, lt→leb,
}
use memory_tools.Scanner.Rescan.{Pass, skip, settle, scan_block}

-- A memory of which `extent a` bytes can be read from `a` on: a read stops at the first that cannot.
pub record HasExtent (read : Reader) (content extent : ℕ → ℕ) : Type 0 where
  pub reads : (a n : ℕ) → read a n ≡ view content a (min n (extent a))
  pub onward : (a k : ℕ) → k ≤ extent a → extent (a + k) ≡ extent a - k

module _ {ℓ} {C : Type ℓ} (addr : C → ℕ) where
  -- In the order of the addresses, from `a` on.
  abbrev pub Ascending : ℕ → List C → Type 0
  Ascending a [] = Unit
  Ascending a (c ∷ cs) = (a ≤ addr c) × Ascending (addr c) cs

  -- A block at a candidate ends before the last address.
  abbrev pub Below : ℕ → List C → Type 0
  Below w cs = All (λ c. addr c + chunk_bytes + w ≤ word) cs

module _ {ℓ} {C : Type ℓ} (addr : C → ℕ) (refresh : Bytes → C → Option C) (w : ℕ)
    (content extent : ℕ → ℕ) where
  -- One candidate, by a read of its own; it is left out if that read gives too little.
  abbrev pub pick : C → Option C
  pick c = if leb w (extent (addr c)) then refresh (view content (addr c) w) c else none

  abbrev pub keep : Option C → List C → List C
  keep none cs = cs
  keep (some c) cs = c ∷ cs

  abbrev pub picked : List C → List C
  picked [] = []
  picked (c ∷ cs) = keep (pick c) (picked cs)

  module _ (behind : C → C) where
    module _ (buf : Bytes) (start limit : ℕ) (c : C) (cs : List C) (t : Pass C) where
      abbrev block_of : List C → Pass C → Pass C
      block_of = scan_block addr refresh behind w buf start limit

      block_past : limit ≤ addr c → block_of (c ∷ cs) t ≡ record t { left = c ∷ cs }
      unfolding scan_block
      block_past h = ground arith

      pub block_short :
          addr c < limit
          → start ≤ addr c
          → addr c < word
          → length buf < addr c - start + w
          → block_of (c ∷ cs) t ≡ block_of cs (skip c t)
      unfolding scan_block
      block_short h from top short = let exact = sub64_of_le (addr c) start from top in ground arith

      pub block_far :
          addr c < limit
          → start ≤ addr c
          → addr c < word
          → addr c - start + w ≤ length buf
          → block_of (c ∷ cs) t
            ≡ block_of cs (settle behind c (refresh (take w (drop (addr c - start) buf)) c) t)
      unfolding scan_block
      block_far h from top long = let exact = sub64_of_le (addr c) start from top in ground arith

    -- What a part of the loop leaves.
    pub record Keeps (a : ℕ) (cs : List C) (t u : Pass C) : Type ℓ where
      pub same : u.next ++ picked u.left ≡ t.next ++ picked cs
      pub up : Ascending addr a u.left
      pub below : Below addr w u.left
      pub fewer : length u.left ≤ length cs
      pub status : u.status ≡ t.status

    pub keep-settle :
        (c : C) (o : Option C) (cs : List C) (t : Pass C)
        → (settle behind c o t).next ++ picked cs ≡ t.next ++ keep o (picked cs)
    keep-settle c none cs t = refl
    keep-settle c (some k) cs t = append_assoc t.next (k ∷ []) (picked cs)

    pub settle_status :
        (c : C) (o : Option C) (t : Pass C) → (settle behind c o t).status ≡ t.status
    settle_status c none t = refl
    settle_status c (some k) t = refl

    module _ (has : (a k : ℕ) → k ≤ extent a → extent (a + k) ≡ extent a - k) (start n : ℕ)
        (some_byte : 0 < w) (span : n ≡ min (chunk_bytes + w - 1) (extent start)) where
      abbrev limit : ℕ
      limit = start + min chunk_bytes n

      -- A candidate within the block: too near its end if and only if the memory ends there.
      pub pick_near :
          (c : C) → start ≤ addr c → addr c < limit → n < addr c - start + w → pick c ≡ none
      pick_near c from to short =
          let e = has start (addr c - start) (omega (arith, span)) in
          let at : start + (addr c - start) ≡ addr c = omega arith in
          let e' : extent (addr c) ≡ extent start - (addr c - start) = ap extent (sym at) ∙ e in
          rw (lt→leb w (extent (addr c)) (omega (arith, span, e'))) refl

      pub pick_far :
          (c : C)
          → start ≤ addr c
          → addr c < limit
          → addr c - start + w ≤ n
          → pick c ≡ refresh (take w (drop (addr c - start) (view content start n))) c
      pick_far c from to long =
          let e = has start (addr c - start) (omega (arith, span)) in
          let at : start + (addr c - start) ≡ addr c = omega arith in
          let e' : extent (addr c) ≡ extent start - (addr c - start) = ap extent (sym at) ∙ e in
          rw
            (
              le→leb w (extent (addr c)) (omega (arith, span, e')),
              drop-view content start n (addr c - start),
              at,
              take-view content (addr c) (n - (addr c - start)) w (omega arith),
            )
            refl

      base_case :
          (t : Pass C)
          → Keeps start [] t
              (scan_block addr refresh behind w (view content start n) start limit [] t)
      unfolding scan_block
      base_case t = record { same = refl; up = tt; below = tt; fewer = omega arith; status = refl }

      pub scan_block-Keeps :
          (lo : ℕ) (cs : List C) (t : Pass C)
          → start ≤ lo
          → Ascending addr lo cs
          → Below addr w cs
          → Keeps start cs t
              (scan_block addr refresh behind w (view content start n) start limit cs t)
      scan_block-Keeps lo [] t from up below = base_case t
      scan_block-Keeps lo (c ∷ cs) t from up below =
          let buf = view content start n in
          let off = addr c - start in
          let len = length-view content start n in
          let after : start ≤ addr c = omega (arith, up.0) in
          let top : addr c < word = omega (arith, below.0) in
          elim (Bool-cases (ltb (addr c) limit)) [
            | inr past ↦
                rw (block_past buf start limit c cs t (ltb→le (addr c) limit past)) (record {
                  same = refl;
                  up = (after, up.1);
                  below = below;
                  fewer = omega arith;
                  status = refl;
                })
            | inl inside ↦
                let near = ltb→lt (addr c) limit inside in
                elim (Bool-cases (ltb n (off + w))) [
                  | inl e ↦
                      let short = ltb→lt n (off + w) e in
                      let none_here = pick_near c after near short in
                      let k = scan_block-Keeps (addr c) cs (skip c t) after up.1 below.1 in
                      rw (block_short buf start limit c cs t near after top (omega (arith, len)))
                        (record {
                          same = k.same ∙ ap (λ o. t.next ++ keep o (picked cs)) (sym none_here);
                          up = k.up;
                          below = k.below;
                          fewer = omega (arith, k.fewer);
                          status = k.status;
                        })
                  | inr e ↦
                      let long = ltb→le n (off + w) e in
                      let o = refresh (take w (drop off buf)) c in
                      let here = pick_far c after near long in
                      let k =
                        scan_block-Keeps (addr c) cs (settle behind c o t) after up.1 below.1 in
                      rw (block_far buf start limit c cs t near after top (omega (arith, len)))
                        (record {
                          same =
                              k.same
                              ∙ keep-settle c o cs t
                              ∙ ap (λ x. t.next ++ keep x (picked cs)) (sym here);
                          up = k.up;
                          below = k.below;
                          fewer = omega (arith, k.fewer);
                          status = k.status ∙ settle_status c o t;
                        })
                ]
          ]
