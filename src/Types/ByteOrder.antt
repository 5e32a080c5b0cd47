-- ===== src/Types/ByteOrder.antt =====
-- Values and their bytes in memory.
use native.Mathlib.Nat.{
  le_trans, pow-le-pow_right, div-add-mod, mod-lt, mul-add-mod_self_left, mod-eq_of_lt, pow-succ',
}
use memory_tools.Prelude.{
  ℕ, zero, suc, ◌+◌, ◌*◌, ◌/◌, ◌%◌, ◌^◌, ◌≤◌, ◌<◌, ◌≡◌, refl, ◌∙◌, ap, [], ◌∷◌, Bytes, arith, take,
  min, length, All,
}
use memory_tools.Types.{le_value, value_from_bytes, value_bytes}

pub length-value_bytes : (w v : ℕ) → length (value_bytes w v) ≡ w
unfolding value_bytes
length-value_bytes zero v = refl
length-value_bytes (suc w) v = ap suc (length-value_bytes w (v / 256))

mod_digit : (v p : ℕ) → 0 < p → v % (256 * p) ≡ v % 256 + 256 * (v / 256 % p)
mod_digit v p h =
    let rest = v % 256 + 256 * (v / 256 % p) in
    let split : v ≡ 256 * p * (v / 256 / p) + rest = omega (arith, div-add-mod (v / 256) p) in
    let small : rest < 256 * p = omega (arith, mod-lt (v / 256) h) in
    ap (λ t. t % (256 * p)) split ∙ mul-add-mod_self_left (256 * p) _ rest ∙ mod-eq_of_lt small

pow_pos : (w : ℕ) → 0 < 256 ^ w
pow_pos zero = omega arith
pow_pos (suc w) = rw pow-succ' (omega (arith, pow_pos w))

le_value-value_bytes : (w v : ℕ) → le_value (value_bytes w v) ≡ v % 256 ^ w
unfolding le_value value_bytes
le_value-value_bytes zero v = omega arith
le_value-value_bytes (suc w) v =
    rw (pow-succ', mod_digit v (256 ^ w) (pow_pos w))
      (omega (arith, le_value-value_bytes w (v / 256)))

take_all : (n : ℕ) (xs : Bytes) → length xs ≤ n → take n xs ≡ xs
take_all zero [] h = refl
take_all zero (x ∷ xs) h = absurd (omega arith)
take_all (suc n) [] h = refl
take_all (suc n) (x ∷ xs) h = ap (λ ys. x ∷ ys) (take_all n xs (omega arith))

-- Reading back the bytes that a write of `w` bytes leaves gives the low `w` bytes of the value.
pub value_from_bytes-value_bytes :
    (w v : ℕ) → w ≤ 8 → value_from_bytes (value_bytes w v) w ≡ v % 256 ^ w
unfolding value_from_bytes
value_from_bytes-value_bytes w v h =
    let len = length-value_bytes w v in
    let same : min w 8 ≡ w = omega arith in
    rw (same, take_all w (value_bytes w v) (omega arith)) (le_value-value_bytes w v)

le_value-lt : (w : ℕ) (p : Bytes) → All (λ b. b < 256) p → le_value (take w p) < 256 ^ w
unfolding le_value
le_value-lt zero p h = omega arith
le_value-lt (suc w) [] h = pow_pos (suc w)
le_value-lt (suc w) (b ∷ p) h = rw pow-succ' (omega (arith, h.0, le_value-lt w p h.1))

-- A value read from bytes fits in 64 bits, whatever the width asked for.
pub value_from_bytes-lt : (p : Bytes) (w : ℕ) → All (λ b. b < 256) p → value_from_bytes p w < 2 ^ 64
unfolding value_from_bytes
value_from_bytes-lt p w h =
    le_trans (le_value-lt (min w 8) p h)
      (pow-le-pow_right {n = 256} (omega arith) {j = 8} (omega arith))
