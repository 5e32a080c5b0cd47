-- ===== src/Memory.antt =====
-- Memory regions and the access to a process (src/memory.h and memory.cpp). What the kernel does is
-- a parameter: `Reader` is `pread` on /proc/PID/mem while the process stands still. It gives the
-- bytes that were read; a failed read and one of no bytes both give none of them.
pub mod Find
use memory_tools.Prelude.{
  ℕ, zero, suc, ◌≤◌, Bool, true, false, ◌&&◌, List, [], ◌∷◌, Option, none, some, Bytes, ◌==◌, leb,
  ltb, if◌then◌else◌, sub64, length,
}

pub record Region : Type 0 where
  pub start : ℕ
  pub end : ℕ
  pub perms : Bytes
  pub offset : ℕ
  pub dev : Bytes
  pub inode : ℕ
  pub path : Bytes

unfoldable pub size : Region → ℕ
size r = sub64 r.end r.start

-- The permission letter at a position, if the string is long enough.
has_perm : ℕ → ℕ → Bytes → Bool
has_perm c i [] = false
has_perm c zero (p ∷ ps) = p == c
has_perm c (suc i) (p ∷ ps) = has_perm c i ps

unfoldable pub readable : Region → Bool
unfolding has_perm
readable r = has_perm b'r' 0 r.perms

unfoldable pub writable : Region → Bool
unfolding has_perm
writable r = has_perm b'w' 1 r.perms

unfoldable pub executable : Region → Bool
unfolding has_perm
executable r = has_perm b'x' 2 r.perms

unfoldable pub region_at : List Region → ℕ → Option Region
region_at [] addr = none
region_at (r ∷ rs) addr = if leb r.start addr && ltb addr r.end then some r else region_at rs addr

-- `pread(fd, buf, len, addr)`.
abbrev pub Reader : Type 0
Reader = ℕ → ℕ → Bytes

-- The kernel writes no more than it is asked for.
abbrev pub IsBounded : Reader → Type 0
IsBounded read = (a n : ℕ) → length (read a n) ≤ n
