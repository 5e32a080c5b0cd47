-- ===== src/Application/Machine.antt =====
-- What the operations of src/application.cpp use and the program does not implement: the order of
-- floats, `std::sort`, and the processes of the machine with their memory maps.
use memory_tools.Memory.{Region, Reader}
use memory_tools.Pointer.{PointerEdge}
use memory_tools.Prelude.{ℕ, List, Option, none, some, Bytes}
use memory_tools.Scanner.{Candidate, DynamicCandidate}
use memory_tools.Session.{Session}
use memory_tools.Types.{Floats}

-- `open_memory` is `Memory::open`: the error, or none. `maps` is `parse_maps`, and `reader` is
-- `Memory::read` while the process stands still.
pub record Machine : Type 0 where
  pub floats : Floats
  pub sort_values : List Candidate → List Candidate
  pub sort_dynamic : List DynamicCandidate → List DynamicCandidate
  pub sort_nodes : List ℕ → List ℕ
  pub sort_edges : List PointerEdge → List PointerEdge
  pub open_memory : ℕ → Option Bytes
  pub maps : ℕ → List Region
  pub reader : ℕ → Reader

-- `Session::pid`: `pid_.value_or(0)`.
abbrev pub pid_or_zero : Option ℕ → ℕ
pid_or_zero none = 0
pid_or_zero (some pid) = pid

-- `parse_maps(session_.pid())`.
abbrev pub target_maps : Machine → Session → List Region
target_maps m s = m.maps (pid_or_zero s.pid)
