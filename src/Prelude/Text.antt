-- ===== src/Prelude/Text.antt =====
-- Texts as lists of bytes: the head and the tail, and the blanks of the C locale.
use Prim.Native.Nat.{ℕ}
use mathlib.Core.Bool.{Bool, true, false, ◌&&◌, ◌||◌}
use mathlib.Core.List.{[], ◌∷◌}
use memory_tools.Prelude.Tests.{Bytes, leb, ◌==◌, if◌then◌else◌}

abbrev pub tail : Bytes → Bytes
tail [] = []
tail (c ∷ cs) = cs

abbrev pub is_nil : Bytes → Bool
is_nil [] = true
is_nil (c ∷ cs) = false

unfoldable pub head_is : ℕ → Bytes → Bool
head_is c [] = false
head_is c (d ∷ ds) = d == c

-- `std::isspace` in the C locale.
unfoldable pub is_blank : ℕ → Bool
is_blank c = c == b' ' || leb 9 c && leb c 13

unfoldable pub skip_blanks : Bytes → Bytes
skip_blanks [] = []
skip_blanks (c ∷ cs) = if is_blank c then skip_blanks cs else c ∷ cs

-- The C string that a text starts with: the bytes before the first zero byte.
unfoldable pub c_string : Bytes → Bytes
c_string [] = []
c_string (c ∷ cs) = if c == 0 then [] else c ∷ c_string cs
