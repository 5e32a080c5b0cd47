-- ===== src/Chunk/Align.antt =====
-- Rounding up to the stride.
use native.Mathlib.Nat.{div-add-mod, mod-lt, mul-mod_left, mul-add-div, div-eq_of_lt}
use memory_tools.Chunk.{align_up}
use memory_tools.Prelude.{
  ℕ, ◌+◌, ◌-◌, ◌*◌, ◌/◌, ◌%◌, ◌≤◌, ◌<◌, ◌≡◌, ap, ◌∙◌, arith, u64_of_lt, word,
}

module _ (pos s : ℕ) (positive : 0 < s) (fits : pos + s ≤ word) where
  align_exact : align_up pos s ≡ (pos + s - 1) / s * s
  unfolding align_up
  align_exact = rw (u64_of_lt (pos + s - 1) (omega arith))

  -- Rounding goes up, by less than the stride, to a multiple of it.
  pub align_up_bounds :
      (pos ≤ align_up pos s) × (align_up pos s < pos + s) × (align_up pos s % s ≡ 0)
  align_up_bounds =
      let n = pos + s - 1 in
      let small = mod-lt n positive in
      rw align_exact (
        omega (arith, div-add-mod n s, small),
        omega (arith, div-add-mod n s, small),
        mul-mod_left (n / s) s,
      )

  pub align_up_of_aligned : pos % s ≡ 0 → align_up pos s ≡ pos
  align_up_of_aligned h =
      let k = pos / s in
      let split : pos + s - 1 ≡ s * k + (s - 1) = omega (arith, div-add-mod pos s, h) in
      let below : (s - 1) / s ≡ 0 = div-eq_of_lt (omega arith) in
      let quotient : (pos + s - 1) / s ≡ k =
        ap (λ t. t / s) split ∙ mul-add-div positive k (s - 1) ∙ omega (arith, below) in
      rw (align_exact, quotient) (omega (arith, div-add-mod pos s, h))
