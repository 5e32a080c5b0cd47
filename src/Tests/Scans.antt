-- ===== src/Tests/Scans.antt =====
-- The walk and the scans.
use memory_tools.Chunk.Collect.{chosen_regions, chosen}
use memory_tools.Chunk.Equal.{for_each_window-naive}
use memory_tools.Chunk.Naive.{view, naive, naive_regions}
use memory_tools.Chunk.Within.{for_each_window-within}
use memory_tools.Chunk.{for_each_window, stopped, exhausted, align_up}
use memory_tools.Memory.{readable}
use memory_tools.Pattern
use memory_tools.Pattern.Search.{scan_pattern_complete}
use memory_tools.Pattern.{
  BytePattern, parse_pattern, pattern_from_text, scan_pattern, pattern_window_matches, max_hits,
}
use memory_tools.Prelude.{
  ℕ, ◌<◌, ◌≡◌, ◌≢◌, refl, Bool, true, false, List, [], ◌∷◌, ◌++◌, none, Bytes, codes, arith, u64,
  ◌==◌, not, All, All-append, inl, inr,
}
use memory_tools.Tests.Memories.{
  content, whole_memory, short_memory, regions, never, regions-IsWhole, regions_room,
  short-IsBounded,
}

-- The state is the list of the visited addresses; the walk stops behind address 1009.
abbrev visit : List ℕ → Bytes → ℕ → List ℕ × Bool
visit seen window a = (seen ++ (a ∷ []), not (a == 1009))

visit_run :
    (for_each_window whole_memory regions 2 1 visit never false []).acc
    ≡ 1000 ∷ 1001 ∷ 1002 ∷ 1003 ∷ 1004 ∷ 1008 ∷ 1009 ∷ []
unfolding for_each_window view align_up u64 readable
visit_run = refl

for_each_window-naive_example :
    ((for_each_window whole_memory regions 2 1 visit never false []).acc
      ≡ 1000 ∷ 1001 ∷ 1002 ∷ 1003 ∷ 1004 ∷ 1008 ∷ 1009 ∷ [])
    × ((for_each_window whole_memory regions 2 1 visit never false []).status ≡ stopped)
unfolding naive_regions naive view align_up u64 readable
for_each_window-naive_example =
    for_each_window-naive whole_memory regions 2 1 visit never false [] content (omega arith)
      (omega arith) (λ k. refl) regions-IsWhole

for_each_window-within_example :
    All (λ a. a < 1015) (for_each_window short_memory regions 2 1 visit never false []).acc
    × ((for_each_window short_memory regions 2 1 visit never false []).status ≢ exhausted)
for_each_window-within_example =
    for_each_window-within (λ seen. All (λ a. a < 1015) seen) short_memory regions 2 1 visit never
      false [] short-IsBounded regions_room
      (λ acc window a here sized all.
        All-append (λ x. x < 1015) acc (a ∷ []) all
          (
            elim here [
              | inl h ↦ omega (arith, h)
              | inr (inl h) ↦ omega (arith, h)
              | inr (inr (inl h)) ↦ omega (arith, h)
              | inr (inr (inr (inl h))) ↦ omega (arith, h)
              | inr (inr (inr (inr h))) ↦ absurd h
            ],
            tt,
          ))
      tt

abbrev pat : BytePattern
pat = record { bytes = 233 ∷ 0 ∷ []; mask = true ∷ false ∷ []; valid = true; error = none }

parse_run : parse_pattern (codes "e9, ??") ≡ pat
unfolding parse_pattern
parse_run = refl

scan_run : (scan_pattern short_memory regions pat never false).hits ≡ 1001 ∷ []
unfolding scan_pattern Pattern.collect_hit Pattern.size for_each_window view align_up u64 readable
scan_run = refl

scan_pattern_complete_example :
    scan_pattern whole_memory regions pat never false
    ≡ record { hits = 1001 ∷ []; truncated = false; cancelled = false }
unfolding chosen_regions chosen view align_up u64 readable pattern_window_matches Pattern.size
scan_pattern_complete_example =
    scan_pattern_complete whole_memory regions pat never false content refl (omega arith)
      (omega arith) (λ k. refl) regions-IsWhole (omega arith)
