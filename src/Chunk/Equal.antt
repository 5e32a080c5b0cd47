-- ===== src/Chunk/Equal.antt =====
-- The walk by blocks (src/chunk.h) against the naive walk, on a memory whose regions can be read
-- whole.
use memory_tools.Chunk.Align.{align_up_bounds, align_up_of_aligned}
use memory_tools.Chunk.Naive.{
  IsWhole, Trace, naive, naive_short, naive_split, naive_pos, resume, naive_regions,
}
use memory_tools.Chunk.OneBlock.{status_of}
use memory_tools.Chunk.Steps.{
  walk, rounded, reported, report_fields, walk_done, walk_stop, walk_break, walk_next,
}
use memory_tools.Chunk.Round.{round-break, round-naive, want, part}
use memory_tools.Chunk.{
  align_up, finished, stride_of, Walk, walk_regions, begin, for_each_window, chunk_bytes,
  readable_total,
}
use memory_tools.Memory.{Region, Reader, readable}
use memory_tools.Prelude.{
  ℕ, sub64, ◌==◌, zero, suc, ◌+◌, ◌-◌, ◌%◌, ◌≤◌, ◌<◌, ◌≡◌, ◌⊎◌, refl, ap, ◌∙◌, Bool, true, false,
  List, [], ◌∷◌, Bytes, leb, ltb, arith, Bool-cases, inl, inr, leb→le, leb→lt, ltb→lt, ltb→le, u64,
  word, if◌then◌else◌, All,
}

module _ {ℓ} {S : Type ℓ} (callback : S → Bytes → ℕ → S × Bool) (content : ℕ → ℕ) (w s : ℕ)
    (read : Reader) (cancel : ℕ → Bool) (progress : Bool) (chunk : ℕ) (w_pos : 0 < w)
    (s_pos : 0 < s) (w_small : w ≤ chunk) (calm : (k : ℕ) → cancel k ≡ false) where
  abbrev trace_of : ℕ → ℕ → ℕ → S → Trace S
  trace_of = naive callback content w s

  -- Two positions from which the naive walk goes on alike: the same, or both too near the end.
  same_rest :
      (end g p q : ℕ) (acc acc' : S)
      → p + s ≤ word
      → acc ≡ acc'
      → q % s ≡ 0
      → (p ≡ q) ⊎ ((p ≡ end) × (end < q + w))
      → ((trace_of g (align_up p s) end acc).acc ≡ (trace_of g q end acc').acc)
        × ((trace_of g (align_up p s) end acc).whole ≡ (trace_of g q end acc').whole)
  same_rest end g p q acc acc' room e turn (inl same) =
      let aligned : align_up p s ≡ q =
        ap (λ x. align_up x s) same ∙ align_up_of_aligned q s s_pos (omega arith) turn in
      rw (aligned, e) (refl, refl)
  same_rest end g p q acc acc' room e turn (inr (last, short)) =
      let (ge, lt, _) = align_up_bounds p s s_pos room in
      rw
        (
          naive_short callback content w s g (align_up p s) end acc (omega arith),
          naive_short callback content w s g q end acc' short,
        )
        (e, refl)

  -- One region.
  walk-naive :
      (scanned total : ℕ) (r : Region) (f g : ℕ) (t : Walk S)
      → IsWhole content s read r
      → t.status ≡ finished
      → r.start ≤ t.pos
      → t.pos < r.end + s
      → r.end < t.pos + f
      → 0 < f
      → r.end < align_up t.pos s + w + g
      → ((walk callback w s read cancel progress chunk scanned total r f t).acc
          ≡ (trace_of g (align_up t.pos s) r.end t.acc).acc)
        × ((walk callback w s read cancel progress chunk scanned total r f t).status
            ≡ status_of (trace_of g (align_up t.pos s) r.end t.acc).whole)
  walk-naive scanned total r zero g t whole clear from near fuel some_fuel enough =
      absurd (omega arith)
  walk-naive scanned total r (suc f) g t whole clear from near fuel some_fuel enough =
      let a = align_up t.pos s in
      let (ge, lt, turn) = align_up_bounds t.pos s s_pos (omega (arith, whole.0)) in
      let u = rounded callback w s read cancel progress chunk scanned total r t in
      elim (Bool-cases (ltb t.pos r.end)) [
        | inr past ↦
            let done = ltb→le t.pos r.end past in
            rw
              (
                walk_done callback w s read cancel progress chunk scanned total r f t done,
                naive_short callback content w s g a r.end t.acc (omega arith),
              )
              (refl, clear)
        | inl inside ↦
            let before = ltb→lt t.pos r.end inside in
            elim (Bool-cases (leb r.end a)) [
              | inl over ↦
                  let end_le = leb→le r.end a over in
                  let broke =
                    round-break callback content w s read cancel progress chunk w_pos s_pos w_small
                      calm r whole t clear end_le in
                  rw
                    (
                      walk_break callback w s read cancel progress chunk scanned total r f t before
                          (rw broke clear) end_le,
                      broke,
                      naive_short callback content w s g a r.end t.acc (omega arith),
                    )
                    (refl, clear)
              | inr more ↦
                  let inner = leb→lt r.end a more in
                  let (same, ended, next) =
                    round-naive callback content w s read cancel progress chunk w_pos s_pos w_small
                      calm r whole t clear from (omega (arith, whole.0)) inner in
                  let p =
                    part callback content w s read cancel progress chunk w_pos s_pos w_small calm r
                      whole t clear in
                  let n =
                    want callback content w s read cancel progress chunk w_pos s_pos w_small calm r
                      whole t clear in
                  let (ge', lt', turn') =
                    naive_pos callback content w s (suc n) a (a + n) t.acc s_pos w_pos
                      (omega arith) in
                  let split : trace_of g a r.end t.acc
                      ≡ resume callback content w s g r.end p.whole p =
                    naive_split callback content w s s_pos (suc n) g g a (a + n) r.end t.acc
                      (omega arith) (omega arith) enough enough in
                  elim (Bool-cases p.whole) [
                    | inr halted ↦
                        let st = ended ∙ ap status_of halted in
                        rw
                          (
                            walk_stop callback w s read cancel progress chunk scanned total r f t
                                before st,
                            split,
                            halted,
                          )
                          (same, st)
                    | inl through ↦
                        let st = ended ∙ ap status_of through in
                        let (moved, goes) = next through in
                        let v =
                          reported callback w s read cancel progress chunk scanned total r u in
                        let (acc_same, pos_same, st_same) =
                          report_fields callback w s read cancel progress chunk scanned total r u in
                        let near' : u.pos < r.end + s = omega arith in
                        let (up, _, _) = align_up_bounds v.pos s s_pos (omega (arith, whole.0)) in
                        let (ih_acc, ih_status) =
                          walk-naive scanned total r f g v whole (st_same ∙ st) (omega arith)
                            (omega arith) (omega arith) (omega arith) (omega arith) in
                        let (acc_rest, whole_rest) =
                          same_rest r.end g v.pos p.pos v.acc p.acc (omega (arith, whole.0))
                            (acc_same ∙ same) (turn' ∙ turn)
                            (elim goes [
                              | inl e ↦ inl (pos_same ∙ e)
                              | inr e ↦ inr (pos_same ∙ e.0, e.1)
                            ]) in
                        rw
                          (
                            walk_next callback w s read cancel progress chunk scanned total r f t
                                before st inner,
                            split,
                            through,
                          )
                          (ih_acc ∙ acc_rest, ih_status ∙ ap status_of whole_rest)
                  ]
            ]
      ]

  abbrev walks : ℕ → ℕ → List Region → Walk S → Walk S
  walks = walk_regions callback w s read cancel progress chunk

  walks-naive :
      (scanned total : ℕ) (rs : List Region) (t : Walk S)
      → All (λ r. readable r ≡ true → (r.start ≤ r.end) × IsWhole content s read r) rs
      → t.status ≡ finished
      → ((walks scanned total rs t).acc ≡ (naive_regions callback content w s rs t.acc).0)
        × ((walks scanned total rs t).status
            ≡ status_of (naive_regions callback content w s rs t.acc).1)
  unfolding walk_regions naive_regions
  walks-naive scanned total [] t whole clear = (refl, clear)
  walks-naive scanned total (r ∷ rs) t whole clear = elim (Bool-cases (readable r)) [
    | inr closed ↦ ground (arith, walks-naive scanned total rs t whole.1 clear)
    | inl open_region ↦
        let (order, reads) = whole.0 open_region in
        let (up, _, _) = align_up_bounds r.start s s_pos (omega (arith, reads.0)) in
        let u : Walk S = record t { pos = r.start; covered = r.start } in
        let v =
          walk callback w s read cancel progress chunk scanned total r (suc (r.end - r.start)) u in
        let same =
          walk-naive scanned total r (suc (r.end - r.start)) (suc (r.end - r.start)) u reads clear
            (omega arith) (omega arith) (omega arith) (omega arith) (omega arith) in
        ground
          (arith, same, walks-naive (u64 (scanned + sub64 v.covered r.start)) total rs v whole.1)
  ]

stride_pos : (stride : ℕ) → 0 < stride_of stride
stride_pos stride = ground arith

ne_zero : (w : ℕ) → 0 < w → w == 0 ≡ false
ne_zero w h = ground arith

module _ {ℓ} {S : Type ℓ} (read : Reader) (regions : List Region) (w stride : ℕ)
    (callback : S → Bytes → ℕ → S × Bool) (cancel : ℕ → Bool) (progress : Bool) (acc : S)
    (w_pos : 0 < w) where
  for_each_window_lem :
      for_each_window read regions w stride callback cancel progress acc
      ≡ walk_regions callback w
          (stride_of stride)
          read
          cancel
          progress
          chunk_bytes
          0
          (if progress then readable_total regions else 0)
          regions
          (begin acc)
  unfolding for_each_window
  for_each_window_lem = rw (ne_zero w w_pos) refl

-- On a memory of which every readable region can be read whole and ends two strides before the last
-- address, for windows of 1 byte to the size of a block, and when no cancellation is asked for, the
-- walk by blocks leaves the state that one plain loop over the windows of each readable region
-- leaves, and it ends by itself or at the window where that loop is stopped by the callback: it
-- never runs out of fuel.
pub for_each_window-naive {ℓ} :
    {S : Type ℓ} (read : Reader) (regions : List Region) (w stride : ℕ)
    (callback : S → Bytes → ℕ → S × Bool) (cancel : ℕ → Bool) (progress : Bool) (acc : S)
    (content : ℕ → ℕ)
    → 0 < w
    → w ≤ chunk_bytes
    → ((k : ℕ) → cancel k ≡ false)
    → All
        (λ r. readable r ≡ true → (r.start ≤ r.end) × IsWhole content (stride_of stride) read r)
        regions
    → ((for_each_window read regions w stride callback cancel progress acc).acc
        ≡ (naive_regions callback content w (stride_of stride) regions acc).0)
      × ((for_each_window read regions w stride callback cancel progress acc).status
          ≡ status_of (naive_regions callback content w (stride_of stride) regions acc).1)
for_each_window-naive read regions w stride callback cancel progress acc content w_pos w_small calm
      whole =
    rw (for_each_window_lem read regions w stride callback cancel progress acc w_pos) (
      walks-naive callback content w (stride_of stride) read cancel progress chunk_bytes w_pos
        (stride_pos stride) w_small calm 0 _ regions (begin acc) whole refl)
