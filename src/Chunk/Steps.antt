-- ===== src/Chunk/Steps.antt =====
-- One round of the loop over a region, by the way in which it ends.
use memory_tools.Chunk.{
  align_up, Status, finished, stopped, exhausted, Walk, round, walk_region, report,
}
use memory_tools.Memory.{Region, Reader}
use memory_tools.Prelude.{ℕ, suc, ◌≤◌, ◌<◌, ◌≡◌, ◌⊎◌, inl, inr, refl, Bool, Bytes, arith}

pub Status-cases : (x : Status) → (x ≡ finished) ⊎ ((x ≡ stopped) ⊎ (x ≡ exhausted))
Status-cases finished = inl refl
Status-cases stopped = inr (inl refl)
Status-cases exhausted = inr (inr refl)

module _ {ℓ} {S : Type ℓ} (callback : S → Bytes → ℕ → S × Bool) (w s : ℕ) (read : Reader)
    (cancel : ℕ → Bool) (progress : Bool) (chunk : ℕ) (scanned total : ℕ) (r : Region) where
  abbrev pub walk : ℕ → Walk S → Walk S
  walk f t = walk_region callback w s read cancel progress chunk f scanned total r t

  abbrev pub rounded : Walk S → Walk S
  rounded = round callback w s read cancel progress chunk r

  abbrev pub reported : Walk S → Walk S
  reported = report callback w s read cancel progress chunk scanned total r

  pub report_fields :
      (t : Walk S)
      → ((reported t).acc ≡ t.acc) × ((reported t).pos ≡ t.pos) × ((reported t).status ≡ t.status)
  unfolding report
  report_fields t = ground arith

  module _ (f : ℕ) (t : Walk S) where
    pub walk_done : r.end ≤ t.pos → walk (suc f) t ≡ t
    unfolding walk_region
    walk_done h = ground arith

    pub walk_stop : t.pos < r.end → (rounded t).status ≡ stopped → walk (suc f) t ≡ rounded t
    unfolding walk_region
    walk_stop h e = ground arith

    pub walk_break :
        t.pos < r.end
        → (rounded t).status ≡ finished
        → r.end ≤ align_up t.pos s
        → walk (suc f) t ≡ rounded t
    unfolding walk_region
    walk_break h e k = ground arith

    pub walk_next :
        t.pos < r.end
        → (rounded t).status ≡ finished
        → align_up t.pos s < r.end
        → walk (suc f) t ≡ walk f (reported (rounded t))
    unfolding walk_region
    walk_next h e k = ground arith
