-- ===== src/Chunk/Round.antt =====
-- One round of the loop over a region that can be read whole.
use memory_tools.Chunk.Align.{align_up_bounds}
use memory_tools.Chunk.OneBlock.{trace, status_of, visit_block-naive}
use memory_tools.Chunk.Naive.{IsWhole, view, length-view, Trace, naive_short, naive_moves}
use memory_tools.Chunk.{align_up, finished, Walk, visit_block, consume, round, walk_region}
use memory_tools.Memory.{Region, Reader}
use memory_tools.Prelude.{
  ℕ, zero, suc, ◌+◌, ◌-◌, ◌≤◌, ◌<◌, ◌≡◌, ◌⊎◌, refl, Bool, true, false, Bytes, leb, ltb, min, arith,
  Bool-cases, inl, inr, lt→leb, leb→le, leb→lt, le→leb, u64, u64_of_lt, word, if◌then◌else◌,
}

module _ {ℓ} {S : Type ℓ} (callback : S → Bytes → ℕ → S × Bool) (content : ℕ → ℕ) (w s : ℕ)
    (read : Reader) (cancel : ℕ → Bool) (progress : Bool) (chunk : ℕ) (w_pos : 0 < w)
    (s_pos : 0 < s) (w_small : w ≤ chunk) (calm : (k : ℕ) → cancel k ≡ false) where
  abbrev pub round_of : Region → Walk S → Walk S
  round_of = round callback w s read cancel progress chunk

  abbrev pub walk_of : ℕ → ℕ → ℕ → Region → Walk S → Walk S
  walk_of = walk_region callback w s read cancel progress chunk

  covered_of : ℕ → ℕ → ℕ
  covered_of covered pos = if ltb covered pos then pos else covered

  abbrev consume_of : ℕ → ℕ → Bytes → Walk S → Walk S
  consume_of = consume callback w s

  module _ (pos n : ℕ) (t : Walk S) (some_byte : 0 < n) where
    abbrev counted : Walk S
    counted = record t { covered = covered_of t.covered (u64 (pos + n)) }

    consume-visit :
        w ≤ n
        → consume_of pos n (view content pos n) t
          ≡ visit_block callback w s pos (view content pos n) counted
    unfolding consume view covered_of
    consume-visit h = go n some_byte h
      where
        go :
            (m : ℕ)
            → 0 < m
            → w ≤ m
            → consume_of pos m (view content pos m) t
              ≡ visit_block callback w s pos
                  (view content pos m)
                  (record t { covered = covered_of t.covered (u64 (pos + m)) })
        go zero h k = absurd (omega arith)
        go (suc m) h k = rw (length-view content (pos + 1) m) (rw (le→leb w (suc m) k) refl)

    consume-skip :
        n < w → consume_of pos n (view content pos n) t ≡ record counted { pos = u64 (pos + n) }
    unfolding consume view covered_of
    consume-skip h = go n some_byte h
      where
        go :
            (m : ℕ)
            → 0 < m
            → m < w
            → consume_of pos m (view content pos m) t
              ≡ record t { covered = covered_of t.covered (u64 (pos + m)); pos = u64 (pos + m) }
        go zero h k = absurd (omega arith)
        go (suc m) h k = rw (length-view content (pos + 1) m) (rw (lt→leb w (suc m) k) refl)

  module _ (r : Region) (whole : IsWhole content s read r) (t : Walk S)
      (clear : t.status ≡ finished) where
    abbrev pub at : ℕ
    at = align_up t.pos s

    abbrev pub want : ℕ
    want = min chunk (r.end - at)

    abbrev pub part : Trace S
    part = trace callback content w s (suc want) at (at + want) t.acc

    -- A round that finds nothing left: the `break`.
    pub round-break : r.end ≤ at → round_of r t ≡ record t { loads = t.loads + 1; pos = at }
    unfolding round
    round-break h = rw (calm t.loads, le→leb r.end at h)

    -- One round that reads: the windows are the naive ones, and the position moves on.
    pub round-naive :
        r.start ≤ t.pos
        → t.pos + s ≤ word
        → at < r.end
        → ((round_of r t).acc ≡ part.acc)
          × ((round_of r t).status ≡ status_of part.whole)
          × (part.whole ≡ true
              → (at < (round_of r t).pos)
                × (((round_of r t).pos ≡ part.pos)
                    ⊎ (((round_of r t).pos ≡ r.end) × (r.end < part.pos + w))))
    unfolding round
    round-naive from room before =
        let (ge, lt, turn) = align_up_bounds t.pos s s_pos room in
        let full = whole.1 at want (omega arith) (omega arith) in
        let u : Walk S = record t { loads = t.loads + 1 } in
        rw (calm t.loads, lt→leb r.end at before, full)
          (elim (Bool-cases (leb w want)) [
            | inl fits ↦
                let long = leb→le w want fits in
                let (same, ended, next, _) =
                  visit_block-naive callback content w s w_pos s_pos at want (omega arith)
                    (counted at want u (omega arith)) (omega arith) long in
                rw (consume-visit at want u (omega arith) long) (
                  same,
                  ended,
                  λ h.
                      let moves =
                        naive_moves callback content w s want at (at + want) t.acc s_pos w_pos
                          (omega arith) h in
                      (rw (next h) (omega arith), inl (next h)),
                )
            | inr misfit ↦
                let short = leb→lt w want misfit in
                rw
                  (
                    consume-skip at want u (omega arith) short,
                    naive_short callback content w s (suc want) at (at + want) t.acc (omega arith),
                  )
                  (
                    refl,
                    clear,
                    λ _.
                        let exact = u64_of_lt (at + want) (omega arith) in
                        (omega (arith, exact), inr (omega (arith, exact), omega arith)),
                  )
          ])
