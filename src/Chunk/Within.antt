-- ===== src/Chunk/Within.antt =====
-- The walk on any memory and under any cancellation (src/chunk.h): its end and its windows.
use memory_tools.Chunk.Align.{align_up_bounds}
use memory_tools.Chunk.Steps.{
  Status-cases, walk, rounded, report_fields, walk_done, walk_stop, walk_break, walk_next,
}
use memory_tools.Chunk.{
  align_up, finished, exhausted, stride_of, Block, Walk, block, visit_block, consume, round,
  walk_region, walk_regions, begin, for_each_window, chunk_bytes,
}
use memory_tools.Memory.{Region, Reader, IsBounded, readable}
use memory_tools.Prelude.{
  ℕ, zero, suc, ◌+◌, ◌-◌, ◌≤◌, ◌<◌, ◌≡◌, ◌≢◌, ◌⊎◌, inl, inr, refl, Bool, true, false, List, [], ◌∷◌,
  Bytes, leb, ltb, length, take, drop, length-take, length-drop, min, arith, Bool-cases, leb→le,
  leb→lt, ltb→lt, ltb→le, ◌∙◌, u64, u64_of_lt, sub64, word, All, ◌==◌,
}

module _ {ℓ κ} {S : Type ℓ} (P : S → Type κ) (callback : S → Bytes → ℕ → S × Bool) (w s : ℕ)
    (s_pos : 0 < s) (w_pos : 0 < w) (r : Region) (room : r.end + s + s ≤ word)
    (keep : (acc : S) (window : Bytes) (a : ℕ)
      → r.start ≤ a
      → a + w ≤ r.end
      → length window ≡ w
      → P acc
      → P (callback acc window a).0) where
  record Sound (pos n : ℕ) (b : Block S) : Type κ where
    holds : P b.acc
    ends : b.status ≢ exhausted
    last_fits : b.any ≡ true → b.last + w ≤ n

  block-Sound :
      (f : ℕ) (buf : Bytes) (pos i : ℕ) (acc : S) (last : ℕ) (any : Bool)
      → r.start ≤ pos
      → pos + length buf ≤ r.end
      → P acc
      → (any ≡ true → last + w ≤ length buf)
      → length buf < i + f
      → 0 < f
      → Sound pos (length buf) (block callback w s f buf pos i acc last any)
  unfolding block
  block-Sound zero buf pos i acc last any from to p fits fuel some_fuel = absurd (omega arith)
  block-Sound (suc f) buf pos i acc last any from to p fits fuel some_fuel =
      elim (Bool-cases (leb (i + w) (length buf))) [
        | inr short ↦ rw (short, block) (record { holds = p; ends = λ e. cc; last_fits = fits })
        | inl long ↦
            let below = leb→le (i + w) (length buf) long in
            let result = callback acc (take w (drop i buf)) (u64 (pos + i)) in
            let exact = u64_of_lt (pos + i) (omega arith) in
            let p' : P result.0 =
              keep acc (take w (drop i buf)) (u64 (pos + i)) (omega arith) (omega arith)
                (omega (arith, length-take w (drop i buf), length-drop i buf)) p in
            elim (Bool-cases result.1) [
              | inr stop ↦
                  rw (long, stop, block) (record { holds = p'; ends = λ e. cc; last_fits = fits })
              | inl go ↦
                  rw (long, go, block)
                    (block-Sound f buf pos (i + s) result.0 i true from to p' (λ _. below)
                      (omega arith) (omega arith))
            ]
      ]

  record Moves (a : ℕ) (t : Walk S) : Type κ where
    holds : P t.acc
    ends : t.status ≢ exhausted
    onward : t.status ≡ finished → (a < t.pos) × (t.pos < r.end + s)

  module _ (pos : ℕ) (buf : Bytes) (t : Walk S) (from : r.start ≤ pos) (p : P t.acc) where
    visit_block-Moves :
        pos + length buf ≤ r.end → 0 < length buf → Moves pos (visit_block callback w s pos buf t)
    unfolding visit_block
    visit_block-Moves to some_byte =
        let n = length buf in
        let b = block callback w s (suc n) buf pos 0 t.acc 0 false in
        let m =
          block-Sound (suc n) buf pos 0 t.acc 0 false from to p (λ e. cc) (omega arith)
            (omega arith) in
        record {
          holds = m.holds;
          ends = m.ends;
          onward = λ e. elim (Bool-cases b.any) [
            | inl some_window ↦
                let fits = m.last_fits some_window in
                let exact = u64_of_lt (pos + b.last + s) (omega arith) in
                rw (some_window) (omega arith)
            | inr none ↦ let exact = u64_of_lt (pos + n) (omega arith) in rw (none) (omega arith)
          ];
        }

  consume-Moves :
      (pos want : ℕ) (buf : Bytes) (t : Walk S)
      → r.start ≤ pos
      → pos + want ≤ r.end
      → 0 < want
      → length buf ≤ want
      → t.status ≡ finished
      → P t.acc
      → Moves pos (consume callback w s pos want buf t)
  unfolding consume
  consume-Moves pos want [] t from to some_byte short clear p =
      let exact = u64_of_lt (pos + want) (omega arith) in
      record { holds = p; ends = λ e. ground arith; onward = λ e. (omega arith, omega arith) }
  consume-Moves pos want (b ∷ bs) t from to some_byte short clear p =
      let n = length (b ∷ bs) in
      let exact = u64_of_lt (pos + n) (omega arith) in
      elim (Bool-cases (leb w n)) [
        | inl long ↦ rw long (visit_block-Moves pos (b ∷ bs) _ from p (omega arith) (omega arith))
        | inr misfit ↦ rw misfit (record {
          holds = p;
          ends = λ e. ground arith;
          onward = λ e. (omega arith, omega arith);
        })
      ]

  module _ (read : Reader) (bounded : IsBounded read) (cancel : ℕ → Bool) (progress : Bool)
      (chunk : ℕ) (chunk_pos : 0 < chunk) where
    round-Moves :
        (t : Walk S)
        → r.start ≤ t.pos
        → t.pos < r.end
        → t.status ≡ finished
        → P t.acc
        → P (round callback w s read cancel progress chunk r t).acc
          × ((round callback w s read cancel progress chunk r t).status ≢ exhausted)
          × ((round callback w s read cancel progress chunk r t).status ≡ finished
              → align_up t.pos s < r.end
              → (t.pos < (round callback w s read cancel progress chunk r t).pos)
                × ((round callback w s read cancel progress chunk r t).pos < r.end + s))
    unfolding round
    round-Moves t from before clear p =
        let (ge, _, _) = align_up_bounds t.pos s s_pos (omega arith) in
        let a = align_up t.pos s in
        let want = min chunk (r.end - a) in
        elim (Bool-cases (cancel t.loads)) [
          | inl stop ↦ rw stop (p, λ e. cc, λ e. cc)
          | inr going ↦ elim (Bool-cases (leb r.end a)) [
            | inl over ↦
                let past = leb→le r.end a over in
                rw (going, over) (p, λ e. ground arith, λ e k. absurd (omega arith))
            | inr inside ↦
                let inner = leb→lt r.end a inside in
                let m =
                  consume-Moves a want (read a want) (record t { loads = t.loads + 1 })
                    (omega arith) (omega arith) (omega arith) (bounded a want) clear p in
                rw (going, inside)
                  (m.holds, m.ends, λ e k. (omega (arith, m.onward e), (m.onward e).1))
          ]
        ]

    walk-Sound :
        (scanned total f : ℕ) (t : Walk S)
        → r.start ≤ t.pos
        → t.status ≡ finished
        → P t.acc
        → r.end < t.pos + f
        → 0 < f
        → P (walk_region callback w s read cancel progress chunk f scanned total r t).acc
          × ((walk_region callback w s read cancel progress chunk f scanned total r t).status
              ≢ exhausted)
    walk-Sound scanned total zero t from clear p fuel some_fuel = absurd (omega arith)
    walk-Sound scanned total (suc f) t from clear p fuel some_fuel =
        let u = rounded callback w s read cancel progress chunk scanned total r t in
        elim (Bool-cases (ltb t.pos r.end)) [
          | inr past ↦
              rw
                (walk_done callback w s read cancel progress chunk scanned total r f t
                  (ltb→le t.pos r.end past))
                (p, λ e. ground arith)
          | inl inside ↦
              let before = ltb→lt t.pos r.end inside in
              let (p', ends, onward) = round-Moves t from before clear p in
              elim (Status-cases u.status) [
                | inr (inr e) ↦ absurd (ends e)
                | inr (inl e) ↦
                    rw
                      (walk_stop callback w s read cancel progress chunk scanned total r f t before
                        e)
                      (p', ends)
                | inl e ↦ elim (Bool-cases (leb r.end (align_up t.pos s))) [
                  | inl over ↦
                      rw
                        (walk_break callback w s read cancel progress chunk scanned total r f t
                          before e (leb→le r.end _ over))
                        (p', ends)
                  | inr more ↦
                      let inner = leb→lt r.end (align_up t.pos s) more in
                      let (ahead, near) = onward e inner in
                      let (acc_same, pos_same, st_same) =
                        report_fields callback w s read cancel progress chunk scanned total r u in
                      rw
                        (walk_next callback w s read cancel progress chunk scanned total r f t
                          before e inner)
                        (walk-Sound scanned total f _ (omega arith) (st_same ∙ e) (rw acc_same p')
                          (omega arith) (omega arith))
                ]
              ]
        ]

-- A window of `w` bytes at `a` lies within one of the readable regions.
abbrev pub InRegion : List Region → ℕ → ℕ → Type 0
InRegion [] a w = ⊥
InRegion (r ∷ rs) a w = ((readable r ≡ true) × (r.start ≤ a) × (a + w ≤ r.end)) ⊎ InRegion rs a w

abbrev pub HaveRoom : ℕ → List Region → Type 0
HaveRoom s rs = All (λ r. readable r ≡ true → r.end + s + s ≤ word) rs

module _ {ℓ κ} {S : Type ℓ} (P : S → Type κ) (callback : S → Bytes → ℕ → S × Bool) (w s : ℕ)
    (s_pos : 0 < s) (w_pos : 0 < w) (read : Reader) (bounded : IsBounded read) (cancel : ℕ → Bool)
    (progress : Bool) (chunk : ℕ) (chunk_pos : 0 < chunk) where
  abbrev walks : ℕ → ℕ → List Region → Walk S → Walk S
  walks = walk_regions callback w s read cancel progress chunk

  walks-Sound :
      (scanned total : ℕ) (rs : List Region) (t : Walk S)
      → HaveRoom s rs
      → ((acc : S) (window : Bytes) (a : ℕ)
          → InRegion rs a w
          → length window ≡ w
          → P acc
          → P (callback acc window a).0)
      → t.status ≡ finished
      → P t.acc
      → P (walks scanned total rs t).acc × ((walks scanned total rs t).status ≢ exhausted)
  unfolding walk_regions
  walks-Sound scanned total [] t room keep clear p = (p, λ e. ground arith)
  walks-Sound scanned total (r ∷ rs) t room keep clear p =
      let later =
        λ (acc : S) (window : Bytes) (a : ℕ) (h : InRegion rs a w). keep acc window a (inr h) in
      elim (Bool-cases (readable r)) [
        | inr closed ↦
            rw (closed, walk_regions) (walks-Sound scanned total rs t room.1 later clear p)
        | inl open_region ↦
            let u : Walk S = record t { pos = r.start; covered = r.start } in
            let v =
              walk callback w s read cancel progress chunk scanned total r (suc (r.end - r.start))
                u in
            let (p', ends) =
              walk-Sound P callback w s s_pos w_pos r (room.0 open_region)
                (λ acc window a from to. keep acc window a (inl (open_region, from, to))) read
                bounded cancel progress chunk chunk_pos scanned total (suc (r.end - r.start)) u
                (omega arith) clear p (omega arith) (omega arith) in
            elim (Status-cases v.status) [
              | inr (inr e) ↦ absurd (ends e)
              | inr (inl e) ↦ rw (open_region, e, walk_regions) (p', ends)
              | inl e ↦
                  rw (open_region, e, walk_regions)
                    (walks-Sound (u64 (scanned + sub64 v.covered r.start)) total rs v room.1 later e
                      p')
            ]
      ]

-- On any memory whose reads give no more bytes than asked for, and under any cancellation, when
-- every readable region ends two strides before the last address, the walk ends before its fuel,
-- and what the callback keeps at every window of `w` bytes within a readable region holds of its
-- last state.
pub for_each_window-within {ℓ κ} :
    {S : Type ℓ} (P : S → Type κ) (read : Reader) (regions : List Region) (w stride : ℕ)
    (callback : S → Bytes → ℕ → S × Bool) (cancel : ℕ → Bool) (progress : Bool) (acc : S)
    → IsBounded read
    → HaveRoom (stride_of stride) regions
    → ((acc : S) (window : Bytes) (a : ℕ)
        → InRegion regions a w
        → length window ≡ w
        → P acc
        → P (callback acc window a).0)
    → P acc
    → P (for_each_window read regions w stride callback cancel progress acc).acc
      × ((for_each_window read regions w stride callback cancel progress acc).status ≢ exhausted)
unfolding for_each_window
for_each_window-within P read regions w stride callback cancel progress acc bounded room keep p =
    elim (Bool-cases (w == 0)) [
      | inl e ↦ rw e (p, λ e. cc)
      | inr e ↦ rw e (
          walks-Sound P callback w (stride_of stride) (ground arith) (ground arith) read bounded
            cancel progress chunk_bytes (omega arith) 0 _ regions (begin acc) room keep refl p)
    ]
