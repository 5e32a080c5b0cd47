-- ===== src/Scanner.antt =====
-- The progressive scanner (src/scanner.h and scanner.cpp): the first scans, and with Scanner.Next the
-- scans that refine them. A scan works on lists of its own and replaces the scanner's state at its
-- end. `std::sort` is a parameter. The result also has the calls of the progress callback.
pub mod First
pub mod Rescan
pub mod Next
use memory_tools.Chunk.{for_each_window, readable_total}
use memory_tools.Memory.{Region, Reader}
use memory_tools.Pattern.{BytePattern, pattern_window_matches}
use memory_tools.Pattern
use memory_tools.Prelude.{
  ℕ, zero, suc, ◌+◌, ◌*◌, Bool, true, false, not, ◌&&◌, ◌||◌, List, [], ◌∷◌, ◌++◌, Option, none,
  some, Bytes, ◌==◌, leb, if◌then◌else◌, length, get_or,
}
use memory_tools.Types.{DataType, type_size, value_from_bytes, value_equal, Floats}

pub data Filter : Type 0 where
  exact changed unchanged increased decreased greater less ge le ne : Filter

pub record Candidate : Type 0 where
  pub addr : ℕ
  pub prev : ℕ

pub record DynamicCandidate : Type 0 where
  pub addr : ℕ
  pub prev_wild : Bytes

pub record DynamicScanSpec : Type 0 where
  pub type : DataType
  pub pattern : BytePattern
  pub wild_pos : List ℕ

unfoldable pub spec_length : DynamicScanSpec → ℕ
unfolding Pattern.size
spec_length s = Pattern.size s.pattern

-- The indices from `i` on at which the mask has a wildcard.
unfoldable pub wild_from : ℕ → List Bool → List ℕ
wild_from i [] = []
wild_from i (m ∷ ms) = if not m then i ∷ wild_from (suc i) ms else wild_from (suc i) ms

unfoldable pub make_dynamic_spec : DataType → BytePattern → DynamicScanSpec
unfolding wild_from
make_dynamic_spec t pat = record { type = t; pattern = pat; wild_pos = wild_from 0 pat.mask }

pub record Scanner : Type 0 where
  pub candidates : List Candidate
  pub dyn_candidates : List DynamicCandidate
  pub dyn_spec : Option DynamicScanSpec
  pub first_type : DataType
  pub truncated : Bool
  pub warned : Bool

abbrev pub max_candidates : ℕ
max_candidates = 20 * 1000 * 1000

abbrev pub warn_candidates : ℕ
warn_candidates = 10 * 1000 * 1000

-- A scanner as it is constructed.
abbrev pub fresh : Scanner
fresh = record {
  candidates = [];
  dyn_candidates = [];
  dyn_spec = none;
  first_type = DataType.i32;
  truncated = false;
  warned = false;
}

unfoldable pub clear : Scanner → Scanner
clear st = record st {
  candidates = [];
  dyn_candidates = [];
  dyn_spec = none;
  truncated = false;
  warned = false;
}

unfoldable pub count : Scanner → ℕ
count st = elim st.dyn_spec [ none ↦ length st.candidates | some _ ↦ length st.dyn_candidates ]

-- What a scan has: the scanner behind it, whether it was completed, and the calls of the progress
-- callback.
pub record Outcome : Type 0 where
  pub scanner : Scanner
  pub done : Bool
  pub reports : List (ℕ × ℕ)

-- The local variables of a first scan.
pub record Found {ℓ} (C : Type ℓ) : Type ℓ where
  pub items : List C
  pub trunc : Bool
  pub warn : Bool

abbrev pub none_found {ℓ} : {C : Type ℓ} → Found C
none_found = record { items = []; trunc = false; warn = false }

-- The lambda `emit`.
unfoldable pub emit {ℓ} : {C : Type ℓ} → Found C → C → Found C × Bool
emit f c = if leb max_candidates (length f.items) then (record f { trunc = true }, false) else (
  record f { items = f.items ++ (c ∷ []); warn = f.warn || leb warn_candidates (length f.items) },
  true,
)

-- The numeric scan's lambda: no target takes every window.
unfoldable pub test_value :
    Floats → DataType → Option ℕ → Found Candidate → Bytes → ℕ → Found Candidate × Bool
unfolding emit
test_value fl type target f win addr =
    let v = value_from_bytes win (type_size type) in
    let kept = emit f (record { addr = addr; prev = v }) in
    elim target [ none ↦ kept | some x ↦ if not (value_equal fl v x type) then (f, true) else kept ]

-- The bytes of the window at the wildcards.
unfoldable pub captured : List ℕ → Bytes → Bytes
captured [] win = []
captured (p ∷ ps) win = get_or win p 0 ∷ captured ps win

unfoldable pub test_pattern :
    DynamicScanSpec → Found DynamicCandidate → Bytes → ℕ → Found DynamicCandidate × Bool
unfolding emit captured
test_pattern spec f win addr =
    if not (pattern_window_matches win spec.pattern)
    then (f, true)
    else emit f (record { addr = addr; prev_wild = captured spec.wild_pos win })

-- The call at the end of a first scan that was not cut short.
abbrev pub final_report : Bool → Bool → List Region → List (ℕ × ℕ)
final_report progress trunc regions =
    if progress && not trunc then (readable_total regions, readable_total regions) ∷ [] else []

unfoldable pub first_scan :
    Floats → Reader → List Region → DataType → Option ℕ → (ℕ → Bool) → Bool → Scanner → Outcome
first_scan fl read regions type target cancel progress st =
    let t =
      for_each_window read regions (type_size type) 1 (test_value fl type target) cancel progress
        none_found in
    if cancel t.loads then record { scanner = st; done = false; reports = t.reports } else record {
      scanner = record {
        candidates = t.acc.items;
        dyn_candidates = [];
        dyn_spec = none;
        first_type = type;
        truncated = t.acc.trunc;
        warned = t.acc.warn;
      };
      done = true;
      reports = t.reports ++ final_report progress t.acc.trunc regions;
    }

unfoldable pub first_scan_dynamic :
    Reader → List Region → DynamicScanSpec → (ℕ → Bool) → Bool → Scanner → Outcome
first_scan_dynamic read regions spec cancel progress st =
    let t =
      for_each_window read regions (spec_length spec) 1 (test_pattern spec) cancel progress
        none_found in
    if spec_length spec == 0 || not spec.pattern.valid
    then record {
      scanner = record st {
        candidates = [];
        dyn_candidates = [];
        dyn_spec = some spec;
        truncated = false;
        warned = false;
      };
      done = true;
      reports = [];
    }
    else if cancel t.loads
    then record { scanner = st; done = false; reports = t.reports }
    else record {
      scanner = record st {
        candidates = [];
        dyn_candidates = t.acc.items;
        dyn_spec = some spec;
        truncated = t.acc.trunc;
        warned = t.acc.warn;
      };
      done = true;
      reports = t.reports ++ final_report progress t.acc.trunc regions;
    }
