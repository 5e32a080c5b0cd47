-- ===== src/Scanner/First.antt =====
-- What the first scans find.
use memory_tools.Chunk.Collect.{chosen_regions, Collects, for_each_window-chosen}
use memory_tools.Chunk.Naive.{IsWhole}
use memory_tools.Chunk.{for_each_window, chunk_bytes, Walk}
use memory_tools.Memory.{Region, Reader, readable}
use memory_tools.Pattern.{pattern_window_matches}
use memory_tools.Prelude.{
  ℕ, suc, ◌≤◌, ◌<◌, ◌≡◌, refl, Bool, true, false, List, [], ◌∷◌, ◌++◌, Option, none, some, Bytes,
  length, arith, All, if◌then◌else◌, ◌==◌, not, ◌||◌,
}
use memory_tools.Scanner.{
  Candidate, DynamicCandidate, DynamicScanSpec, spec_length, Scanner, max_candidates, Found,
  none_found, emit, test_value, captured, test_pattern, first_scan, first_scan_dynamic,
}
use memory_tools.Types.{DataType, type_size, value_from_bytes, value_equal, Floats}

-- The candidate that a window gives: with its value, if that is the target or there is no target.
abbrev pub value_at : Floats → DataType → Option ℕ → Bytes → ℕ → Option Candidate
value_at fl type none win a =
    some (record { addr = a; prev = value_from_bytes win (type_size type) })
value_at fl type (some x) win a =
    if value_equal fl (value_from_bytes win (type_size type)) x type
    then some (record { addr = a; prev = value_from_bytes win (type_size type) })
    else none

-- The same for a pattern, with the bytes at the wildcards.
abbrev pub match_at : DynamicScanSpec → Bytes → ℕ → Option DynamicCandidate
match_at spec win a =
    if pattern_window_matches win spec.pattern
    then some (record { addr = a; prev_wild = captured spec.wild_pos win })
    else none

emit-adds {ℓ} :
    {C : Type ℓ} (f : Found C) (c : C)
    → f.trunc ≡ false
    → suc (length f.items) < suc max_candidates
    → ((emit f c).1 ≡ true)
      × ((emit f c).0.items ≡ f.items ++ (c ∷ []))
      × ((emit f c).0.trunc ≡ false)
unfolding emit
emit-adds f c quiet few = ground arith

test_value-Collects :
    (fl : Floats) (type : DataType) (target : Option ℕ)
    → Collects
        (test_value fl type target)
        (value_at fl type target)
        (suc max_candidates)
        (λ f. f.items)
        (λ f. f.trunc)
unfolding test_value
test_value-Collects fl type none = record {
  skips = λ f win a e. cc;
  adds = λ f win a c e quiet few. ground (arith, emit-adds f c quiet few);
}
test_value-Collects fl type (some x) = record {
  skips = λ f win a e. ground arith;
  adds = λ f win a c e quiet few. ground (arith, emit-adds f c quiet few);
}

test_pattern-Collects :
    (spec : DynamicScanSpec)
    → Collects
        (test_pattern spec)
        (match_at spec)
        (suc max_candidates)
        (λ f. f.items)
        (λ f. f.trunc)
unfolding test_pattern
test_pattern-Collects spec = record {
  skips = λ f win a e. ground arith;
  adds = λ f win a c e quiet few. ground (arith, emit-adds f c quiet few);
}

size_small : (type : DataType) → type_size type ≤ chunk_bytes
unfolding type_size
size_small type = ground arith

-- The walks that the scans make.
abbrev value_walk :
    Floats → Reader → List Region → DataType → Option ℕ → (ℕ → Bool) → Bool → Walk (Found Candidate)
value_walk fl read regions type target cancel progress =
    for_each_window read regions (type_size type) 1 (test_value fl type target) cancel progress
      none_found

abbrev pattern_walk :
    Reader → List Region → DynamicScanSpec → (ℕ → Bool) → Bool → Walk (Found DynamicCandidate)
pattern_walk read regions spec cancel progress =
    for_each_window read regions (spec_length spec) 1 (test_pattern spec) cancel progress none_found

guard_passed : (n : ℕ) (valid : Bool) → 0 < n → valid ≡ true → (n == 0 || not valid) ≡ false
guard_passed n valid h e = ground arith

-- On a memory of which every readable region can be read whole and ends two addresses before the
-- last one, and when no cancellation is asked for, `first_scan` with a type of at least one byte is
-- completed, and its candidates are exactly the windows of the readable regions whose value is the
-- target (all of them without a target), in order, each with its address and its value, if they are
-- 20 million at most. It is then not marked as truncated, and is a scan of that type.
pub first_scan_complete :
    (fl : Floats) (read : Reader) (regions : List Region) (type : DataType) (target : Option ℕ)
    (cancel : ℕ → Bool) (progress : Bool) (st : Scanner) (content : ℕ → ℕ)
    → 0 < type_size type
    → ((k : ℕ) → cancel k ≡ false)
    → All (λ r. readable r ≡ true → (r.start ≤ r.end) × IsWhole content 1 read r) regions
    → length (chosen_regions (value_at fl type target) content (type_size type) 1 regions)
      ≤ max_candidates
    → ((first_scan fl read regions type target cancel progress st).done ≡ true)
      × ((first_scan fl read regions type target cancel progress st).scanner.candidates
          ≡ chosen_regions (value_at fl type target) content (type_size type) 1 regions)
      × ((first_scan fl read regions type target cancel progress st).scanner.truncated ≡ false)
      × ((first_scan fl read regions type target cancel progress st).scanner.first_type ≡ type)
unfolding first_scan
first_scan_complete fl read regions type target cancel progress st content sized calm whole few =
    let (_, all, still) =
      for_each_window-chosen read regions (type_size type) 1 (test_value fl type target) cancel
        progress none_found (value_at fl type target) (suc max_candidates) (λ f. f.items)
        (λ f. f.trunc) content (test_value-Collects fl type target) sized (size_small type) calm
        whole refl (omega (arith, few)) in
    rw (calm (value_walk fl read regions type target cancel progress).loads)
      (refl, all, still, refl)

-- On a memory of which every readable region can be read whole and ends two addresses before the
-- last one, and when no cancellation is asked for, `first_scan_dynamic` with a valid pattern of 1
-- byte to 4 MiB is completed, and its candidates are exactly the matching windows of the readable
-- regions, in order, each with its bytes at the wildcards, if they are 20 million at most. It is
-- then not marked as truncated, and keeps the pattern.
pub first_scan_dynamic_complete :
    (read : Reader) (regions : List Region) (spec : DynamicScanSpec) (cancel : ℕ → Bool)
    (progress : Bool) (st : Scanner) (content : ℕ → ℕ)
    → spec.pattern.valid ≡ true
    → 0 < spec_length spec
    → spec_length spec ≤ chunk_bytes
    → ((k : ℕ) → cancel k ≡ false)
    → All (λ r. readable r ≡ true → (r.start ≤ r.end) × IsWhole content 1 read r) regions
    → length (chosen_regions (match_at spec) content (spec_length spec) 1 regions) ≤ max_candidates
    → ((first_scan_dynamic read regions spec cancel progress st).done ≡ true)
      × ((first_scan_dynamic read regions spec cancel progress st).scanner.dyn_candidates
          ≡ chosen_regions (match_at spec) content (spec_length spec) 1 regions)
      × ((first_scan_dynamic read regions spec cancel progress st).scanner.truncated ≡ false)
      × ((first_scan_dynamic read regions spec cancel progress st).scanner.dyn_spec ≡ some spec)
unfolding first_scan_dynamic
first_scan_dynamic_complete read regions spec cancel progress st content ok sized small calm whole
      few =
    let (_, all, still) =
      for_each_window-chosen read regions (spec_length spec) 1 (test_pattern spec) cancel progress
        none_found (match_at spec) (suc max_candidates) (λ f. f.items) (λ f. f.trunc) content
        (test_pattern-Collects spec) sized small calm whole refl (omega (arith, few)) in
    rw
      (
        guard_passed (spec_length spec) spec.pattern.valid sized ok,
        calm (pattern_walk read regions spec cancel progress).loads,
      )
      (refl, all, still, refl)

-- A first scan, of values or of a pattern, that is not completed leaves the scanner as it is.
pub first_scan_cancelled :
    (fl : Floats) (read : Reader) (regions : List Region) (type : DataType) (target : Option ℕ)
    (spec : DynamicScanSpec) (cancel : ℕ → Bool) (progress : Bool) (st : Scanner)
    → ((first_scan fl read regions type target cancel progress st).done ≡ false
        → (first_scan fl read regions type target cancel progress st).scanner ≡ st)
      × ((first_scan_dynamic read regions spec cancel progress st).done ≡ false
          → (first_scan_dynamic read regions spec cancel progress st).scanner ≡ st)
unfolding first_scan first_scan_dynamic
first_scan_cancelled fl read regions type target spec cancel progress st =
    (λ e. ground arith, λ e. ground arith)
