-- ===== src/Scanner/Rescan.antt =====
-- The loop that both refining scans have (src/scanner.cpp, next_scan and next_scan_dynamic): it reads
-- a block at the first candidate that is left, and tests all the candidates that the block holds.
-- `refresh` is the test of a window: the candidate with its new previous value, if it is kept.
-- `behind` is what the list of old candidates has then in its place.
--
-- Each round leaves one candidate behind at least, so as many rounds as there are candidates are
-- enough.
pub mod Equal
pub mod Whole
pub mod Places
use memory_tools.Chunk.{Status, finished, stopped, exhausted, chunk_bytes}
use memory_tools.Memory.{Reader}
use memory_tools.Prelude.{
  ℕ, zero, suc, ◌+◌, ◌-◌, ◌*◌, Bool, true, false, List, [], ◌∷◌, ◌++◌, Option, none, some, Bytes,
  ltb, if◌then◌else◌, min, length, take, drop, u64, sub64,
}

-- The old candidates up to the index and from it on, and the new list.
pub record Pass {ℓ} (C : Type ℓ) : Type ℓ where
  pub past : List C
  pub left : List C
  pub next : List C
  pub loads : ℕ
  pub reports : List (ℕ × ℕ)
  pub status : Status

abbrev pub begin {ℓ} : {C : Type ℓ} → Pass C
begin = record { past = []; left = []; next = []; loads = 0; reports = []; status = finished }

-- The load of the flag behind the loop.
abbrev pub last_load {ℓ} : {C : Type ℓ} → Status → Bool → Pass C → Pass C
last_load finished true t = record t { status = stopped }
last_load _ _ t = t

-- A candidate that is left out, and one that is kept.
abbrev pub skip {ℓ} : {C : Type ℓ} → C → Pass C → Pass C
skip c t = record t { past = t.past ++ (c ∷ []) }

abbrev pub settle {ℓ} : {C : Type ℓ} → (C → C) → C → Option C → Pass C → Pass C
settle behind c none t = skip c t
settle behind c (some kept) t = record t {
  past = t.past ++ (behind kept ∷ []);
  next = t.next ++ (kept ∷ []);
}

module _ {ℓ} {C : Type ℓ} (addr : C → ℕ) (refresh : Bytes → C → Option C) (behind : C → C)
    (w : ℕ) where
  -- The candidates of one block.
  unfoldable pub scan_block : Bytes → ℕ → ℕ → List C → Pass C → Pass C
  scan_block buf start limit [] t = record t { left = [] }
  scan_block buf start limit (c ∷ cs) t = elim (ltb (addr c) limit) [
    | false ↦ record t { left = c ∷ cs }
    | true ↦
        let off = sub64 (addr c) start in
        elim (ltb (length buf) (off + w)) [
          | true ↦ scan_block buf start limit cs (skip c t)
          | false ↦
              scan_block buf start limit cs (settle behind c (refresh (take w (drop off buf)) c) t)
        ]
  ]

  module _ (read : Reader) (cancel : ℕ → Bool) (progress : Bool) (n : ℕ) where
    abbrev pub report : Pass C → Pass C
    report t =
        if progress
        then record t { reports = t.reports ++ ((u64 (length t.past * w), u64 (n * w)) ∷ []) }
        else t

    -- What is done with the bytes that were read at the candidate `c`.
    unfoldable pub with_block : Bytes → C → List C → Pass C → Pass C
    with_block [] c cs t = record (skip c t) { left = cs }
    with_block (b ∷ bs) c cs t =
        report (
          scan_block (b ∷ bs) (addr c) (u64 (addr c + min chunk_bytes (length (b ∷ bs)))) (c ∷ cs)
            t)

    unfoldable pub scan_blocks : ℕ → List C → Pass C → Pass C
    scan_blocks fuel [] t = record t { left = [] }
    scan_blocks zero (c ∷ cs) t = record t { left = c ∷ cs; status = exhausted }
    scan_blocks (suc fuel) (c ∷ cs) t = elim (cancel t.loads) [
      | true ↦ record t { left = c ∷ cs; status = stopped }
      | false ↦
          let u =
            with_block (read (addr c) (chunk_bytes + w - 1)) c cs
              (record t { loads = t.loads + 1 }) in
          scan_blocks fuel u.left u
    ]

  -- The loop and the last load of the flag.
  unfoldable pub rescan : Reader → (ℕ → Bool) → Bool → List C → Pass C
  rescan read cancel progress cs =
      let t = scan_blocks read cancel progress (length cs) (length cs) cs begin in
      last_load t.status (cancel t.loads) t
