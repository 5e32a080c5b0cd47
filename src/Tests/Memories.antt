-- ===== src/Tests/Memories.antt =====
-- A small memory for the tests: the byte at `a` is `a` in its last 8 bits, up to address 1016.
use memory_tools.Chunk.Naive.{view, length-view, IsWhole}
use memory_tools.Chunk.Within.{HaveRoom}
use memory_tools.Memory.{Region, Reader, readable, IsBounded}
use memory_tools.Scanner.Rescan.Equal.{HasExtent}
use memory_tools.Prelude.{
  ℕ, ◌-◌, ◌%◌, ◌≤◌, ◌≡◌, refl, min, Bool, true, false, List, [], ◌∷◌, Bytes, codes, All, arith,
}

abbrev pub content : ℕ → ℕ
content a = a % 256

-- Every read gives all that it asks for.
abbrev pub whole_memory : Reader
whole_memory a n = view content a n

abbrev pub extent : ℕ → ℕ
extent a = 1016 - a

-- A read gives what there is before address 1016.
abbrev pub short_memory : Reader
short_memory a n = view content a (min n (extent a))

abbrev pub region : Bytes → ℕ → ℕ → Region
region perms start end = record {
  start = start;
  end = end;
  perms = perms;
  offset = 0;
  dev = codes "00:00";
  inode = 0;
  path = codes "[heap]";
}

-- A readable region between two that are not, and one more of 8 bytes.
abbrev pub regions : List Region
regions =
    region (codes "---p") 900 1000
    ∷ region (codes "rw-p") 1000 1006
    ∷ region (codes "---p") 1006 1008
    ∷ region (codes "r--p") 1008 1016
    ∷ []

abbrev pub never : ℕ → Bool
never k = false

pub regions-IsWhole :
    All (λ r. readable r ≡ true → (r.start ≤ r.end) × IsWhole content 1 whole_memory r) regions
regions-IsWhole = (
  λ _. (omega arith, (omega arith, λ a n _ _. refl)),
  (
    λ _. (omega arith, (omega arith, λ a n _ _. refl)),
    (
      λ _. (omega arith, (omega arith, λ a n _ _. refl)),
      (λ _. (omega arith, (omega arith, λ a n _ _. refl)), tt),
    ),
  ),
)

pub regions_room : HaveRoom 1 regions
regions_room = (λ _. omega arith, (λ _. omega arith, (λ _. omega arith, (λ _. omega arith, tt))))

pub short-IsBounded : IsBounded short_memory
short-IsBounded a n = omega (arith, length-view content a (min n (extent a)))

pub short_extent : HasExtent short_memory content extent
short_extent = record { reads = λ a n. refl; onward = λ a k h. omega arith }
