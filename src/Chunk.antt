-- ===== src/Chunk.antt =====
-- The walk over the readable regions by blocks that overlap (src/chunk.h). The callback is a
-- function on a state of its own; it returns the new state, and true to go on. `cancel` gives the
-- value of the flag at each load, by the number of loads before it (a null pointer is the constant
-- false). `progress` says whether there is a progress callback; its calls are kept in a list.
--
-- The loops are recursions on fuel. A round moves the position forward by one byte at least, so as
-- many rounds as the region has bytes, and one more, are enough.
pub mod Naive
pub mod Align
mod OneBlock
mod Round
mod Steps
pub mod Equal
pub mod Within
pub mod Collect
use memory_tools.Memory.{Region, Reader, readable}
use memory_tools.Prelude.{
  ℕ, zero, suc, ◌+◌, ◌-◌, ◌*◌, ◌/◌, Bool, true, false, List, [], ◌∷◌, ◌++◌, Bytes, ltb, leb, ◌==◌,
  if◌then◌else◌, min, length, take, drop, u64, sub64,
}

abbrev pub chunk_bytes : ℕ
chunk_bytes = 4 * 1024 * 1024

total_from : ℕ → List Region → ℕ
total_from total [] = total
total_from total (r ∷ rs) =
    total_from (if readable r then u64 (total + sub64 r.end r.start) else total) rs

unfoldable pub readable_total : List Region → ℕ
unfolding total_from
readable_total rs = total_from 0 rs

-- `((pos + s - 1) / s) * s`
unfoldable pub align_up : ℕ → ℕ → ℕ
align_up pos s = u64 (pos + s - 1) / s * s

-- How a loop ended: by its test, by a `return`, or for want of fuel.
pub data Status : Type 0 where
  finished stopped exhausted : Status

-- The loop over the windows of one block: `last`, `any`, and whether the callback stopped it.
pub record Block {ℓ} (S : Type ℓ) : Type ℓ where
  pub acc : S
  pub last : ℕ
  pub any : Bool
  pub status : Status

-- The state of the loop over one region.
pub record Walk {ℓ} (S : Type ℓ) : Type ℓ where
  pub acc : S
  pub pos : ℕ
  pub covered : ℕ
  pub loads : ℕ
  pub reports : List (ℕ × ℕ)
  pub status : Status

module _ {ℓ} {S : Type ℓ} (callback : S → Bytes → ℕ → S × Bool) (w s : ℕ) where
  pub block : ℕ → Bytes → ℕ → ℕ → S → ℕ → Bool → Block S
  block zero buf pos i acc last any = record {
    acc = acc;
    last = last;
    any = any;
    status = exhausted;
  }
  block (suc fuel) buf pos i acc last any = elim (leb (i + w) (length buf)) [
    | false ↦ record { acc = acc; last = last; any = any; status = finished }
    | true ↦
        let result = callback acc (take w (drop i buf)) (u64 (pos + i)) in
        elim result.1 [
          | false ↦ record { acc = result.0; last = last; any = any; status = stopped }
          | true ↦ block fuel buf pos (i + s) result.0 i true
        ]
  ]

  -- The new position after a block of which all the windows were visited.
  next_pos : ℕ → ℕ → Block S → ℕ
  next_pos pos n b = if b.any then u64 (pos + b.last + s) else u64 (pos + n)

  -- A read of at least `w` bytes: its windows, and the step to the next read.
  pub visit_block : ℕ → Bytes → Walk S → Walk S
  unfolding next_pos
  visit_block pos buf t =
      let r = block (suc (length buf)) buf pos 0 t.acc 0 false in
      record t { acc = r.acc; pos = next_pos pos (length buf) r; status = r.status }

  abbrev cover : ℕ → ℕ → ℕ
  cover covered pos = if ltb covered pos then pos else covered

  -- What is done with the bytes of one read of `want` bytes at `pos`.
  pub consume : ℕ → ℕ → Bytes → Walk S → Walk S
  consume pos want [] t = record t {
    pos = u64 (pos + want);
    covered = cover t.covered (u64 (pos + want));
  }
  consume pos want (b ∷ bs) t =
      let n = length (b ∷ bs) in
      let u = record t { covered = cover t.covered (u64 (pos + n)) } in
      if leb w n then visit_block pos (b ∷ bs) u else record u { pos = u64 (pos + n) }

  module _ (read : Reader) (cancel : ℕ → Bool) (progress : Bool) (chunk : ℕ) where
    -- The call of the progress callback at the end of a round.
    pub report : ℕ → ℕ → Region → Walk S → Walk S
    report scanned total r t =
        if progress
        then record t {
          reports = t.reports ++ ((u64 (scanned + sub64 t.covered r.start), total) ∷ []);
        }
        else t

    -- One round of the loop over a region, behind its test: `finished` goes on, or ends at `break`.
    pub round : Region → Walk S → Walk S
    round r t =
        let pos = align_up t.pos s in
        let u = record t { loads = t.loads + 1 } in
        if cancel t.loads
        then record u { status = stopped }
        else if leb r.end pos
        then record u { pos = pos }
        else (let want = min chunk (r.end - pos) in consume pos want (read pos want) u)

    pub walk_region : ℕ → ℕ → ℕ → Region → Walk S → Walk S
    walk_region zero scanned total r t = record t { status = exhausted }
    walk_region (suc fuel) scanned total r t = elim (ltb t.pos r.end) [
      | false ↦ t
      | true ↦
          let u = round r t in
          elim u.status [
            | finished ↦
                -- `break` leaves without a report
                elim (leb r.end (align_up t.pos s)) [
                  | true ↦ u
                  | false ↦ walk_region fuel scanned total r (report scanned total r u)
                ]
            | _ ↦ u
          ]
    ]

    pub walk_regions : ℕ → ℕ → List Region → Walk S → Walk S
    walk_regions scanned total [] t = t
    walk_regions scanned total (r ∷ rs) t = elim (readable r) [
      | false ↦ walk_regions scanned total rs t
      | true ↦
          let u =
            walk_region (suc (r.end - r.start)) scanned total r
              (record t { pos = r.start; covered = r.start }) in
          elim u.status [
            | finished ↦ walk_regions (u64 (scanned + sub64 u.covered r.start)) total rs u
            | _ ↦ u
          ]
    ]

abbrev pub stride_of : ℕ → ℕ
stride_of stride = if stride == 0 then 1 else stride

abbrev pub begin {ℓ} : {S : Type ℓ} → S → Walk S
begin acc = record { acc = acc; pos = 0; covered = 0; loads = 0; reports = []; status = finished }

-- The whole function. The template's `Mem` is `read`.
unfoldable pub for_each_window {ℓ} :
    {S : Type ℓ}
    → Reader
    → List Region
    → ℕ
    → ℕ
    → (S → Bytes → ℕ → S × Bool)
    → (ℕ → Bool)
    → Bool
    → S
    → Walk S
unfolding walk_regions walk_region report round consume visit_block block
for_each_window read regions w stride callback cancel progress acc =
    let s = stride_of stride in
    let total = if progress then readable_total regions else 0 in
    if w == 0
    then begin acc
    else walk_regions callback w s read cancel progress chunk_bytes 0 total regions (begin acc)
