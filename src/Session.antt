-- ===== src/Session.antt =====
-- The session: the target process and what was found in it (src/session.h and session.cpp).
-- `open_memory` is `Memory::open`, which attaches to the process with ptrace: the error, or none.
pub mod Attach
pub mod Opened
use memory_tools.Pointer.{PointerScanResult}
use memory_tools.Prelude.{
  ℕ, Bool, true, false, not, Option, none, some, Bytes, codes, ◌==◌, if◌then◌else◌,
}
use memory_tools.Scanner.{Scanner, clear}
use memory_tools.Table.{AddressTable, mark_all_stale}
use memory_tools.Types.{DataType}

pub record Session : Type 0 where
  pub pid : Option ℕ
  pub scanner : Scanner
  pub scan_type : DataType
  pub table : AddressTable
  pub last_pointer : Option PointerScanResult

-- `pid_ && *pid_ != target`
abbrev pub is_other : Option ℕ → ℕ → Bool
is_other none target = false
is_other (some pid) target = not (pid == target)

-- What belongs to another process is dropped or marked.
unfoldable pub forget : Session → Session
unfolding clear mark_all_stale
forget s = record s {
  scanner = clear s.scanner;
  table = mark_all_stale s.table;
  last_pointer = none;
}

-- The session and the error: none is `true`.
unfoldable pub attach : (ℕ → Option Bytes) → ℕ → Session → Session × Option Bytes
unfolding forget
attach open_memory target s = elim (open_memory target) [
  | some e ↦ (s, some e)
  | none ↦
      let kept = if is_other s.pid target then forget s else s in
      (record kept { pid = some target }, none)
]

unfoldable pub detach : Session → Session
unfolding clear
detach s = record s { pid = none; scanner = clear s.scanner; last_pointer = none }

-- `fn` changes a state of its own, under the process's memory.
unfoldable pub with_memory {ℓ} :
    {S : Type ℓ} → (ℕ → Option Bytes) → (ℕ → S → S) → Session → S → S × Option Bytes
with_memory open_memory fn s state = elim s.pid [
  | none ↦ (state, some (codes "no hay proceso objetivo"))
  | some pid ↦ elim (open_memory pid) [ some e ↦ (state, some e) | none ↦ (fn pid state, none) ]
]
