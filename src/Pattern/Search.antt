-- ===== src/Pattern/Search.antt =====
-- What `scan_pattern` finds.
use memory_tools.Chunk.Collect.{chosen_regions, Collects, for_each_window-chosen}
use memory_tools.Chunk.Naive.{IsWhole}
use memory_tools.Chunk.Within.{InRegion, HaveRoom, for_each_window-within}
use memory_tools.Chunk.{for_each_window, chunk_bytes, Walk}
use memory_tools.Memory.{Region, Reader, IsBounded, readable}
use memory_tools.Pattern.{
  BytePattern, size, pattern_window_matches, PatternScanResult, max_hits, nothing_found,
  collect_hit, scan_pattern,
}
use memory_tools.Prelude.{
  ℕ, ◌≤◌, ◌<◌, ◌≡◌, refl, Bool, true, false, List, [], ◌∷◌, ◌++◌, Option, none, some, Bytes, length,
  length-append, arith, All, if◌then◌else◌, Bool-cases, inl, inr, ◌==◌, not, ◌||◌, All-append, leb,
}

abbrev pub hit_at : BytePattern → Bytes → ℕ → Option ℕ
hit_at pat win a = if pattern_window_matches win pat then some a else none

-- The addresses of all the windows of the readable regions that match.
abbrev pub all_hits : BytePattern → (ℕ → ℕ) → List Region → List ℕ
all_hits pat content regions = chosen_regions (hit_at pat) content (size pat) 1 regions

abbrev raised : PatternScanResult → Bool
raised r = r.truncated || r.cancelled

collect_hit-Collects :
    (pat : BytePattern) → Collects (collect_hit pat) (hit_at pat) max_hits (λ r. r.hits) raised
unfolding collect_hit
collect_hit-Collects pat = record {
  skips = λ acc window a e. ground arith;
  adds = λ acc window a c e quiet few. ground (arith, length-append acc.hits (a ∷ []));
}

-- The walk that `scan_pattern` makes.
abbrev walk_of : Reader → List Region → BytePattern → (ℕ → Bool) → Bool → Walk PatternScanResult
walk_of read regions pat cancel progress =
    for_each_window read regions (size pat) 1 (collect_hit pat) cancel progress nothing_found

scan_pattern_quiet :
    (read : Reader) (regions : List Region) (pat : BytePattern) (cancel : ℕ → Bool)
    (progress : Bool)
    → pat.valid ≡ true
    → 0 < size pat
    → cancel (walk_of read regions pat cancel progress).loads ≡ false
    → scan_pattern read regions pat cancel progress ≡ (walk_of read regions pat cancel progress).acc
unfolding scan_pattern
scan_pattern_quiet read regions pat cancel progress ok some_byte calm = ground arith

lowered :
    (r : PatternScanResult) (hits : List ℕ)
    → r.hits ≡ hits
    → raised r ≡ false
    → r ≡ record { hits = hits; truncated = false; cancelled = false }
lowered r hits e quiet = ground arith

-- On a memory of which every readable region can be read whole and ends two addresses before the
-- last one, and when no cancellation is asked for, `scan_pattern` with a valid pattern of 1 byte to
-- 4 MiB gives the addresses of exactly the matching windows of the readable regions, in order, and
-- marks the result as complete, if there are fewer than 5 million.
pub scan_pattern_complete :
    (read : Reader) (regions : List Region) (pat : BytePattern) (cancel : ℕ → Bool)
    (progress : Bool) (content : ℕ → ℕ)
    → pat.valid ≡ true
    → 0 < size pat
    → size pat ≤ chunk_bytes
    → ((k : ℕ) → cancel k ≡ false)
    → All (λ r. readable r ≡ true → (r.start ≤ r.end) × IsWhole content 1 read r) regions
    → length (all_hits pat content regions) < max_hits
    → scan_pattern read regions pat cancel progress
      ≡ record { hits = all_hits pat content regions; truncated = false; cancelled = false }
scan_pattern_complete read regions pat cancel progress content ok some_byte small calm whole few =
    let (_, all, still) =
      for_each_window-chosen read regions (size pat) 1 (collect_hit pat) cancel progress
        nothing_found (hit_at pat) max_hits (λ r. r.hits) raised content (collect_hit-Collects pat)
        some_byte small calm whole refl (omega (arith, few)) in
    rw (scan_pattern_quiet read regions pat cancel progress ok some_byte (calm _))
      (lowered _ _ all still)

module _ (regions : List Region) (pat : BytePattern) where
  abbrev AllInside : PatternScanResult → Type 0
  AllInside r = All (λ a. InRegion regions a (size pat)) r.hits

  collect_hit-AllInside :
      (acc : PatternScanResult) (window : Bytes) (a : ℕ)
      → InRegion regions a (size pat)
      → length window ≡ size pat
      → AllInside acc
      → AllInside (collect_hit pat acc window a).0
  unfolding collect_hit
  collect_hit-AllInside acc window a here same h =
      let more : All (λ x. InRegion regions x (size pat)) (acc.hits ++ (a ∷ [])) =
        All-append (λ x. InRegion regions x (size pat)) acc.hits (a ∷ []) h (here, tt) in
      elim (Bool-cases (pattern_window_matches window pat)) [
        | inr e ↦ rw e h
        | inl e ↦ elim (Bool-cases (leb max_hits (length (acc.hits ++ (a ∷ []))))) [
          | inl k ↦ rw (e, k) more
          | inr k ↦ rw (e, k) more
        ]
      ]

-- On any memory whose reads give no more bytes than asked for, and under any cancellation, when
-- every readable region ends two addresses before the last one, the hits of `scan_pattern` are
-- addresses at which a window of the pattern's size lies within a readable region.
pub scan_pattern_within :
    (read : Reader) (regions : List Region) (pat : BytePattern) (cancel : ℕ → Bool)
    (progress : Bool)
    → IsBounded read
    → HaveRoom 1 regions
    → All (λ a. InRegion regions a (size pat)) (scan_pattern read regions pat cancel progress).hits
unfolding scan_pattern
scan_pattern_within read regions pat cancel progress bounded room =
    let (held, _) =
      for_each_window-within (AllInside regions pat) read regions (size pat) 1 (collect_hit pat)
        cancel progress nothing_found bounded room (collect_hit-AllInside regions pat) tt in
    elim (Bool-cases (not pat.valid || size pat == 0)) [
      | inl e ↦ rw e tt
      | inr e ↦ elim (Bool-cases (cancel (walk_of read regions pat cancel progress).loads)) [
        | inl k ↦ rw (e, k) tt
        | inr k ↦ rw (e, k) held
      ]
    ]
