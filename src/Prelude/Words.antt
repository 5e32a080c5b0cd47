-- ===== src/Prelude/Words.antt =====
-- 64-bit words: a `uint64_t` or `size_t` is a number below `word`, and its operations wrap.
use Prim.Native.Nat.{ℕ, ◌+◌, ◌-◌, ◌%◌, ◌^◌, ◌<◌, ◌≤◌}
use mathlib.Core.Path.{◌≡◌}
use native.Mathlib.Omega.{arith}

abbrev pub word : ℕ
word = 2 ^ 64

unfoldable pub u64 : ℕ → ℕ
u64 n = n % word

-- `a - b` on `uint64_t`.
unfoldable pub sub64 : ℕ → ℕ → ℕ
sub64 a b = (a + word - b) % word

pub u64-lt : (n : ℕ) → u64 n < word
unfolding u64
u64-lt n = omega arith

pub u64_of_lt : (n : ℕ) → n < word → u64 n ≡ n
unfolding u64
u64_of_lt n h = omega arith

pub sub64_of_le : (a b : ℕ) → b ≤ a → a < word → sub64 a b ≡ a - b
unfolding sub64
sub64_of_le a b h k = omega arith
