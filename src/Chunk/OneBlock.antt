-- ===== src/Chunk/OneBlock.antt =====
-- The windows of one block against the naive walk over it, on a memory whose bytes are `content`.
use native.Mathlib.Nat.{add_assoc}
use memory_tools.Chunk.Naive.{
  view, length-view, take-view, drop-view, Trace, naive, naive_short, naive_halt, naive_next,
  naive_pos,
}
use memory_tools.Chunk.{Status, finished, stopped, Block, Walk, block, visit_block}
use memory_tools.Prelude.{
  ℕ, zero, suc, ◌+◌, ◌-◌, ◌≤◌, ◌<◌, ◌≡◌, refl, sym, ap, ◌∙◌, Bool, true, false, Bytes, leb, take,
  drop, arith, Bool-cases, inl, inr, leb→le, leb→lt, u64, u64_of_lt, word,
}

abbrev pub status_of : Bool → Status
status_of true = finished
status_of false = stopped

module _ {ℓ} {S : Type ℓ} (callback : S → Bytes → ℕ → S × Bool) (content : ℕ → ℕ) (w s : ℕ) where
  abbrev pub trace : ℕ → ℕ → ℕ → S → Trace S
  trace = naive callback content w s

  -- What a block and the naive walk of it have in common.
  record Matches (pos : ℕ) (r : Block S) (t : Trace S) : Type ℓ where
    same : r.acc ≡ t.acc
    ended : r.status ≡ status_of t.whole
    some_window : r.any ≡ true
    next : t.whole ≡ true → t.pos ≡ pos + r.last + s

  module _ (w_pos : 0 < w) (s_pos : 0 < s) (pos n : ℕ) (fits : pos + n ≤ word) where
    window_at :
        (i : ℕ) → i + w ≤ n → take w (drop i (view content pos n)) ≡ view content (pos + i) w
    window_at i h =
        ap (take w) (drop-view content pos n i)
        ∙ take-view content (pos + i) (n - i) w (omega arith)

    module _ (f i : ℕ) (acc : S) (last : ℕ) (any : Bool) where
      abbrev called : S × Bool
      called = callback acc (view content (pos + i) w) (pos + i)

      abbrev blocked : Block S
      blocked = block callback w s (suc f) (view content pos n) pos i acc last any

      block_short :
          n < i + w → blocked ≡ record { acc = acc; last = last; any = any; status = finished }
      unfolding block
      block_short h = ground (arith, length-view content pos n)

      call_exact :
          i + w ≤ n → callback acc (take w (drop i (view content pos n))) (u64 (pos + i)) ≡ called
      call_exact h = rw (window_at i h, u64_of_lt (pos + i) (omega arith))

      block_halt :
          i + w ≤ n
          → called.1 ≡ false
          → blocked ≡ record { acc = called.0; last = last; any = any; status = stopped }
      unfolding block
      block_halt h e = ground (arith, length-view content pos n, call_exact h)

      block_next :
          i + w ≤ n
          → called.1 ≡ true
          → blocked ≡ block callback w s f (view content pos n) pos (i + s) called.0 i true
      unfolding block
      block_next h e = ground (arith, length-view content pos n, call_exact h)

    block-Matches :
        (f i : ℕ) (acc : S) (last : ℕ)
        → i ≡ last + s
        → n < i + f
        → 0 < f
        → Matches pos
            (block callback w s f (view content pos n) pos i acc last true)
            (trace f (pos + i) (pos + n) acc)
    block-Matches zero i acc last e h some_fuel = absurd (omega arith)
    block-Matches (suc f) i acc last e h some_fuel = elim (Bool-cases (leb (i + w) n)) [
      | inr short ↦
          let below = leb→lt (i + w) n short in
          rw
            (
              block_short f i acc last true below,
              naive_short callback content w s (suc f) (pos + i) (pos + n) acc (omega arith),
            )
            (record { same = refl; ended = refl; some_window = refl; next = λ _. omega arith })
      | inl long ↦
          let below = leb→le (i + w) n long in
          elim (Bool-cases (called f i acc last true).1) [
            | inr stop ↦
                rw
                  (
                    block_halt f i acc last true below stop,
                    naive_halt callback content w s f (pos + i) (pos + n) acc (omega arith) stop,
                  )
                  (record { same = refl; ended = refl; some_window = refl; next = λ h. cc })
            | inl go ↦
                rw
                  (
                    block_next f i acc last true below go,
                    naive_next callback content w s f (pos + i) (pos + n) acc (omega arith) go,
                    add_assoc pos i s,
                  )
                  (block-Matches f (i + s) (called f i acc last true).0 i refl (omega arith)
                    (omega arith))
          ]
    ]

    module _ (t : Walk S) (room : pos + n + s ≤ word) (some_window : w ≤ n) where
      abbrev pub spanned : Trace S
      spanned = trace (suc n) pos (pos + n) t.acc

      abbrev first : Block S
      first = block callback w s (suc n) (view content pos n) pos 0 t.acc 0 false

      abbrev at_pos : S × Bool
      at_pos = callback t.acc (view content (pos + 0) w) (pos + 0)

      first-naive :
          (first.acc ≡ spanned.acc)
          × (first.status ≡ status_of spanned.whole)
          × (spanned.whole ≡ true → (first.any ≡ true) × (spanned.pos ≡ pos + first.last + s))
      first-naive =
          let moved : spanned ≡ trace (suc n) (pos + 0) (pos + n) t.acc =
            ap (λ x. trace (suc n) x (pos + n) t.acc) (omega arith) in
          elim (Bool-cases at_pos.1) [
            | inr stop ↦
                let halted =
                  moved
                  ∙ naive_halt callback content w s n (pos + 0) (pos + n) t.acc (omega arith)
                      stop in
                rw (block_halt n 0 t.acc 0 false (omega arith) stop, halted) (refl, refl, λ h. cc)
            | inl go ↦
                let went =
                  moved
                  ∙ naive_next callback content w s n (pos + 0) (pos + n) t.acc (omega arith) go
                  ∙ ap (λ x. trace n x (pos + n) at_pos.0) (add_assoc pos 0 s) in
                let m = block-Matches n (0 + s) at_pos.0 0 refl (omega arith) (omega arith) in
                rw (block_next n 0 t.acc 0 false (omega arith) go, went)
                  (m.same, m.ended, λ h. (m.some_window, m.next h))
          ]

      abbrev pub visited : Walk S
      visited = visit_block callback w s pos (view content pos n) t

      -- The windows of one block are those of the naive walk over it.
      pub visit_block-naive :
          (visited.acc ≡ spanned.acc)
          × (visited.status ≡ status_of spanned.whole)
          × (spanned.whole ≡ true → visited.pos ≡ spanned.pos)
          × (visited.loads ≡ t.loads)
      unfolding visit_block
      visit_block-naive =
          let (same, ended, next) = first-naive in
          let (ge, lt, turn) =
            naive_pos callback content w s (suc n) pos (pos + n) t.acc s_pos w_pos (omega arith) in
          rw (length-view content pos n) (
            same,
            ended,
            λ h.
                let (any, at) = next h in
                rw any (u64_of_lt (pos + first.last + s) (omega (arith, at)) ∙ sym at),
            refl,
          )
