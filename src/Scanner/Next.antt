-- ===== src/Scanner/Next.antt =====
-- The refining scans (src/scanner.cpp, next_scan and next_scan_dynamic, and dynamic_window_changed of
-- scanner.h). The old list is changed in place while the loop runs: a kept candidate has its new
-- value there too, and a kept dynamic one is moved out, which leaves it no bytes. A cancelled scan
-- leaves the list as it is then.
pub mod Result
pub mod Captured
pub mod Dynamic
use Prim.Native.Nat.{Ordering}
use memory_tools.Chunk.{Status, finished}
use memory_tools.Memory.{Reader}
use memory_tools.Pattern.{pattern_window_matches}
use memory_tools.Prelude.{
  ℕ, zero, suc, ◌+◌, ◌*◌, Bool, true, false, not, ◌&&◌, ◌||◌, List, [], ◌∷◌, ◌++◌, Option, none,
  some, Bytes, ◌==◌, ltb, if◌then◌else◌, length, u64,
}
use memory_tools.Scanner.Rescan.{Pass, rescan}
use memory_tools.Scanner.{
  Filter, Candidate, DynamicCandidate, DynamicScanSpec, spec_length, Scanner, Outcome, captured,
}
use memory_tools.Types.{DataType, type_size, value_from_bytes, value_equal, value_compare, Floats}

-- `std::is_sorted` by address: no neighbour is below the one before it.
unfoldable pub is_sorted {ℓ} : {C : Type ℓ} → (C → ℕ) → List C → Bool
is_sorted addr [] = true
is_sorted addr (c ∷ []) = true
is_sorted addr (c ∷ d ∷ cs) = not (ltb (addr d) (addr c)) && is_sorted addr (d ∷ cs)

-- The list that the loop runs over; `sort` is `std::sort` by address.
abbrev pub in_order {ℓ} : {C : Type ℓ} → (C → ℕ) → (List C → List C) → List C → List C
in_order addr sort cs = if is_sorted addr cs then cs else sort cs

abbrev is_gt : Ordering → Bool
is_gt Ordering.gt = true
is_gt _ = false

abbrev is_lt : Ordering → Bool
is_lt Ordering.lt = true
is_lt _ = false

-- `target && test(*target)`
abbrev has_target : Option ℕ → (ℕ → Bool) → Bool
has_target none test = false
has_target (some x) test = test x

-- The `switch` over the filter.
unfoldable pub passes : Floats → DataType → Filter → Option ℕ → ℕ → ℕ → Bool
passes fl type Filter.exact target cur prev = has_target target (λ x. value_equal fl cur x type)
passes fl type Filter.changed target cur prev = not (value_equal fl cur prev type)
passes fl type Filter.unchanged target cur prev = value_equal fl cur prev type
passes fl type Filter.increased target cur prev = is_gt (value_compare fl cur prev type)
passes fl type Filter.decreased target cur prev = is_lt (value_compare fl cur prev type)
passes fl type Filter.greater target cur prev =
    has_target target (λ x. is_gt (value_compare fl cur x type))
passes fl type Filter.less target cur prev =
    has_target target (λ x. is_lt (value_compare fl cur x type))
passes fl type Filter.ge target cur prev =
    has_target target (λ x. not (is_lt (value_compare fl cur x type)))
passes fl type Filter.le target cur prev =
    has_target target (λ x. not (is_gt (value_compare fl cur x type)))
passes fl type Filter.ne target cur prev = has_target target (λ x. not (value_equal fl cur x type))

-- The body of the inner loop at a window: the candidate with its new value, if it is kept.
unfoldable pub refresh_value :
    Floats → DataType → Filter → Option ℕ → Bytes → Candidate → Option Candidate
unfolding passes
refresh_value fl type filter target win c =
    let cur = value_from_bytes win (type_size type) in
    if passes fl type filter target cur c.prev then some (record c { prev = cur }) else none

unfoldable pub next_scan :
    Floats
    → (List Candidate → List Candidate)
    → Reader
    → DataType
    → Filter
    → Option ℕ
    → (ℕ → Bool)
    → Bool
    → Scanner
    → Outcome
next_scan fl sort read type filter target cancel progress st =
    let cs = in_order (λ (c : Candidate). c.addr) sort st.candidates in
    let w = type_size type in
    let t =
      rescan (λ (c : Candidate). c.addr) (refresh_value fl type filter target) (λ c. c) w read
        cancel progress cs in
    let whole = u64 (length cs * w) in
    elim t.status [
      | finished ↦ record {
        scanner = record st { candidates = t.next; first_type = type };
        done = true;
        reports = t.reports ++ (if progress then (whole, whole) ∷ [] else []);
      }
      | _ ↦ record {
        scanner = record st { candidates = t.past ++ t.left };
        done = false;
        reports = t.reports;
      }
    ]

-- The value before is the pattern's byte, or at a wildcard the next captured one, 0 behind the last.
abbrev first_of : Bytes → ℕ
first_of [] = 0
first_of (b ∷ bs) = b

abbrev rest_of : Bytes → Bytes
rest_of [] = []
rest_of (b ∷ bs) = bs

unfoldable pub window_changed : Bytes → Bytes → List Bool → Bytes → Bool
window_changed win [] mask prev = false
window_changed win (b ∷ bs) [] prev = false
window_changed [] (b ∷ bs) (m ∷ ms) prev = false
window_changed (c ∷ cs) (b ∷ bs) (true ∷ ms) prev =
    if not (c == b) then true else window_changed cs bs ms prev
window_changed (c ∷ cs) (b ∷ bs) (false ∷ ms) prev =
    if not (c == first_of prev) then true else window_changed cs bs ms (rest_of prev)

unfoldable pub dynamic_window_changed : Bytes → DynamicScanSpec → Bytes → Bool
unfolding window_changed
dynamic_window_changed win spec prev_wild =
    window_changed win spec.pattern.bytes spec.pattern.mask prev_wild

unfoldable pub passes_dynamic : Filter → DynamicScanSpec → Bytes → Bytes → Bool
passes_dynamic Filter.changed base win prev = dynamic_window_changed win base prev
passes_dynamic Filter.unchanged base win prev = not (dynamic_window_changed win base prev)
passes_dynamic _ base win prev = pattern_window_matches win base.pattern

unfoldable pub refresh_window :
    Filter → DynamicScanSpec → Bytes → DynamicCandidate → Option DynamicCandidate
unfolding passes_dynamic
refresh_window filter base win c =
    if passes_dynamic filter base win c.prev_wild
    then some (record c { prev_wild = captured base.wild_pos win })
    else none

-- A candidate that was moved from.
abbrev pub moved_out : DynamicCandidate → DynamicCandidate
moved_out c = record c { prev_wild = [] }

abbrev pub or_else {ℓ} : {A : Type ℓ} → Option A → A → A
or_else none a = a
or_else (some b) a = b

abbrev pub spec_after : Option DynamicScanSpec → Option DynamicScanSpec → Option DynamicScanSpec
spec_after none old = old
spec_after (some s) old = some s

-- The scan behind the first two returns.
unfoldable pub refine :
    (List DynamicCandidate → List DynamicCandidate)
    → Reader
    → Filter
    → Option DynamicScanSpec
    → DynamicScanSpec
    → (ℕ → Bool)
    → Bool
    → Scanner
    → Outcome
refine sort read filter newspec base cancel progress st =
    let cs = in_order (λ (c : DynamicCandidate). c.addr) sort st.dyn_candidates in
    let w = spec_length base in
    let t =
      rescan (λ (c : DynamicCandidate). c.addr) (refresh_window filter base) moved_out w read cancel
        progress cs in
    let whole = u64 (length cs * w) in
    elim t.status [
      | finished ↦ record {
        scanner = record st { dyn_candidates = t.next; dyn_spec = spec_after newspec st.dyn_spec };
        done = true;
        reports = t.reports ++ (if progress then (whole, whole) ∷ [] else []);
      }
      | _ ↦ record {
        scanner = record st { dyn_candidates = t.past ++ t.left };
        done = false;
        reports = t.reports;
      }
    ]

abbrev pub unchanged_outcome : Scanner → Outcome
unchanged_outcome st = record { scanner = st; done = true; reports = [] }

unfoldable pub next_scan_dynamic :
    (List DynamicCandidate → List DynamicCandidate)
    → Reader
    → Filter
    → Option DynamicScanSpec
    → (ℕ → Bool)
    → Bool
    → Scanner
    → Outcome
next_scan_dynamic sort read filter newspec cancel progress st = elim st.dyn_spec [
  | none ↦ unchanged_outcome st
  | some old ↦
      let base = or_else newspec old in
      if spec_length base == 0 || not base.pattern.valid
      then unchanged_outcome st
      else refine sort read filter newspec base cancel progress st
]
