-- ===== src/Scanner/Rescan/Whole.antt =====
-- The whole loop of the refining scans against one read for each candidate.
use mathlib.Core.List.{append-nil}
use memory_tools.Chunk.Naive.{view, length-view}
use memory_tools.Chunk.{finished, chunk_bytes}
use memory_tools.Memory.{Reader}
use memory_tools.Prelude.{
  ℕ, zero, suc, ◌+◌, ◌-◌, ◌≤◌, ◌<◌, ◌≡◌, refl, sym, ap, ◌∙◌, Bool, false, List, [], ◌∷◌, ◌++◌,
  Option, none, Bytes, ltb, min, length, take, drop, word, arith, Bool-cases, inl, inr, u64_of_lt,
  ltb→lt, ltb→le, lt→leb,
}
use memory_tools.Scanner.Rescan.{
  Pass, skip, settle, scan_block, with_block, scan_blocks, rescan, report, begin,
}
use memory_tools.Scanner.Rescan.Equal.{
  HasExtent, pick, picked, keep, Ascending, Below, Keeps, scan_block-Keeps, block_short, block_far,
  pick_near, pick_far, keep-settle, settle_status,
}

module _ {ℓ} {C : Type ℓ} (addr : C → ℕ) (refresh : Bytes → C → Option C) (behind : C → C) (w : ℕ)
    (read : Reader) (cancel : ℕ → Bool) (progress : Bool) (n fuel : ℕ) (c : C) (cs : List C)
    (t : Pass C) where
  abbrev after_block : Pass C
  after_block =
      with_block addr refresh behind w read cancel progress n (read (addr c) (chunk_bytes + w - 1))
        c cs (record t { loads = t.loads + 1 })

  blocks_next :
      cancel t.loads ≡ false
      → scan_blocks addr refresh behind w read cancel progress n (suc fuel) (c ∷ cs) t
        ≡ scan_blocks addr refresh behind w read cancel progress n fuel after_block.left after_block
  unfolding scan_blocks
  blocks_next calm = rw (calm, scan_blocks) refl

module _ {ℓ} {C : Type ℓ} (addr : C → ℕ) (refresh : Bytes → C → Option C) (behind : C → C) (w : ℕ)
    (content extent : ℕ → ℕ) (some_byte : 0 < w)
    (has : (a k : ℕ) → k ≤ extent a → extent (a + k) ≡ extent a - k) where
  abbrev Kept : ℕ → List C → Pass C → Pass C → Type ℓ
  Kept = Keeps addr refresh w content extent behind

  -- The first candidate of a block is done with.
  module _ (c : C) (cs : List C) (t : Pass C) (up : Ascending addr (addr c) cs)
      (below : Below addr w (c ∷ cs)) where
    first-Keeps :
        (n : ℕ)
        → n ≡ min (chunk_bytes + w - 1) (extent (addr c))
        → 0 < n
        → Kept (addr c) (c ∷ cs) t (
            scan_block addr refresh behind w
              (view content (addr c) n)
              (addr c)
              (addr c + min chunk_bytes n)
              (c ∷ cs)
              t)
          × (length
                (scan_block addr refresh behind w
                  (view content (addr c) n)
                  (addr c)
                  (addr c + min chunk_bytes n)
                  (c ∷ cs)
                  t).left
              ≤ length cs)
    first-Keeps n span pos =
        let buf = view content (addr c) n in
        let limit = addr c + min chunk_bytes n in
        let len = length-view content (addr c) n in
        let top : addr c < word = omega (arith, below.0) in
        elim (Bool-cases (ltb n (addr c - addr c + w))) [
          | inl e ↦
              let short = ltb→lt n (addr c - addr c + w) e in
              let none_here =
                pick_near addr refresh w content extent behind has (addr c) n some_byte span c
                  (omega arith) (omega arith) short in
              let k =
                scan_block-Keeps addr refresh w content extent behind has (addr c) n some_byte span
                  (addr c) cs (skip c t) (omega arith) up below.1 in
              rw
                (block_short addr refresh w content extent behind buf (addr c) limit c cs t
                  (omega arith) (omega arith) top (omega (arith, len)))
                (
                  record {
                    same =
                        k.same
                        ∙ ap
                            (λ o.
                              t.next
                              ++ keep addr refresh w content extent o
                                  (picked addr refresh w content extent cs))
                            (sym none_here);
                    up = k.up;
                    below = k.below;
                    fewer = omega (arith, k.fewer);
                    status = k.status;
                  },
                  k.fewer,
                )
          | inr e ↦
              let long = ltb→le n (addr c - addr c + w) e in
              let o = refresh (take w (drop (addr c - addr c) buf)) c in
              let here =
                pick_far addr refresh w content extent behind has (addr c) n some_byte span c
                  (omega arith) (omega arith) long in
              let k =
                scan_block-Keeps addr refresh w content extent behind has (addr c) n some_byte span
                  (addr c) cs (settle behind c o t) (omega arith) up below.1 in
              rw
                (block_far addr refresh w content extent behind buf (addr c) limit c cs t
                  (omega arith) (omega arith) top (omega (arith, len)))
                (
                  record {
                    same =
                        k.same
                        ∙ keep-settle addr refresh w content extent behind c o cs t
                        ∙ ap
                            (λ x.
                              t.next
                              ++ keep addr refresh w content extent x
                                  (picked addr refresh w content extent cs))
                            (sym here);
                    up = k.up;
                    below = k.below;
                    fewer = omega (arith, k.fewer);
                    status = k.status ∙ settle_status addr refresh w content extent behind c o t;
                  },
                  k.fewer,
                )
        ]

  module _ (read : Reader) (reads : (a n : ℕ) → read a n ≡ view content a (min n (extent a)))
      (cancel : ℕ → Bool) (progress : Bool) (total : ℕ) where
    report-Kept :
        (a m : ℕ) (cs : List C) (t u : Pass C)
        → Kept a cs t u
        → length u.left ≤ m
        → Kept a cs t (report addr refresh behind w read cancel progress total u)
          × (length (report addr refresh behind w read cancel progress total u).left ≤ m)
    report-Kept a m cs t u k few = elim (Bool-cases progress) [
      | inl e ↦ rw e (
        record { same = k.same; up = k.up; below = k.below; fewer = k.fewer; status = k.status },
        few,
      )
      | inr e ↦ rw e (k, few)
    ]

    module _ (c : C) (cs : List C) (t : Pass C) (up : Ascending addr (addr c) cs)
        (below : Below addr w (c ∷ cs)) where
      abbrev block_at : ℕ → Pass C
      block_at n =
          with_block addr refresh behind w read cancel progress total (view content (addr c) n) c cs
            t

      with_block-Keeps :
          (n : ℕ)
          → n ≡ min (chunk_bytes + w - 1) (extent (addr c))
          → Kept (addr c) (c ∷ cs) t (block_at n) × (length (block_at n).left ≤ length cs)
      unfolding with_block view
      with_block-Keeps zero span =
          let none_here : pick addr refresh w content extent c ≡ none =
            rw (lt→leb w (extent (addr c)) (omega arith)) refl in
          (
            record {
              same =
                  ap
                    (λ o.
                      t.next
                      ++ keep addr refresh w content extent o
                          (picked addr refresh w content extent cs))
                    (sym none_here);
              up = up;
              below = below.1;
              fewer = omega arith;
              status = refl;
            },
            omega arith,
          )
      with_block-Keeps (suc n) span =
          let len = length-view content (addr c + 1) n in
          let exact = u64_of_lt (addr c + min chunk_bytes (suc n)) (omega (arith, below.0)) in
          let (k, fewer) = first-Keeps c cs t up below (suc n) span (omega arith) in
          rw (len, exact) (report-Kept (addr c) (length cs) (c ∷ cs) t _ k fewer)

    module _ (calm : (k : ℕ) → cancel k ≡ false) where
      blocks-picked :
          (fuel a : ℕ) (cs : List C) (t : Pass C)
          → length cs ≤ fuel
          → Ascending addr a cs
          → Below addr w cs
          → t.status ≡ finished
          → ((scan_blocks addr refresh behind w read cancel progress total fuel cs t).next
              ≡ t.next ++ picked addr refresh w content extent cs)
            × ((scan_blocks addr refresh behind w read cancel progress total fuel cs t).status
                ≡ finished)
      unfolding scan_blocks
      blocks-picked fuel a [] t enough up below clear = (sym (append-nil t.next), clear)
      blocks-picked zero a (c ∷ cs) t enough up below clear = absurd (omega arith)
      blocks-picked (suc fuel) a (c ∷ cs) t enough up below clear =
          let v = record t { loads = t.loads + 1 } in
          let n = min (chunk_bytes + w - 1) (extent (addr c)) in
          let (k, fewer) = with_block-Keeps c cs v up.1 below n refl in
          let u = block_at c cs v up.1 below n in
          let (all, ended) =
            blocks-picked fuel (addr c) u.left u (omega arith) k.up k.below (k.status ∙ clear) in
          rw
            (
              blocks_next addr refresh behind w read cancel progress total fuel c cs t
                  (calm t.loads),
              reads (addr c) (chunk_bytes + w - 1),
            )
            (all ∙ k.same, ended)

-- On a memory that is read as far as it goes, and when no cancellation is asked for, the loop by
-- blocks over candidates in the order of their addresses ends before its fuel, and keeps what one
-- read of each candidate's own bytes would keep.
pub rescan-picked {ℓ} :
    {C : Type ℓ} (addr : C → ℕ) (refresh : Bytes → C → Option C) (behind : C → C) (w : ℕ)
    (content extent : ℕ → ℕ) (read : Reader) (cancel : ℕ → Bool) (progress : Bool) (cs : List C)
    → 0 < w
    → HasExtent read content extent
    → ((k : ℕ) → cancel k ≡ false)
    → Ascending addr 0 cs
    → Below addr w cs
    → ((rescan addr refresh behind w read cancel progress cs).next
        ≡ picked addr refresh w content extent cs)
      × ((rescan addr refresh behind w read cancel progress cs).status ≡ finished)
unfolding rescan
rescan-picked addr refresh behind w content extent read cancel progress cs some_byte has calm up
      below =
    let (all, ended) =
      blocks-picked addr refresh behind w content extent some_byte has.onward read has.reads cancel
        progress (length cs) calm (length cs) 0 cs begin (omega arith) up below refl in
    let t =
      scan_blocks addr refresh behind w read cancel progress (length cs) (length cs) cs begin in
    rw (ended, calm t.loads, rescan) (all, refl)
