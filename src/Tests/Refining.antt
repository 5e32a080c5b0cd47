-- ===== src/Tests/Refining.antt =====
-- The scanner's first and refining scans.
use memory_tools.Chunk.Collect.{chosen_regions, chosen}
use memory_tools.Chunk.Naive.{view}
use memory_tools.Chunk.{align_up}
use memory_tools.Memory.{readable}
use memory_tools.Pattern
use memory_tools.Pattern.{BytePattern, pattern_window_matches}
use memory_tools.Prelude.{
  ℕ, Bytes, ◌≡◌, refl, Bool, true, false, [], ◌∷◌, none, some, bytes_eq, arith, u64, sub64, leb,
}
use memory_tools.Scanner.First.{first_scan_complete, first_scan_dynamic_complete}
use memory_tools.Scanner.Next.Captured.{dynamic_window_changed-captured}
use memory_tools.Scanner.Next.Dynamic.{changed_only, next_scan_dynamic_complete}
use memory_tools.Scanner.Next.Result.{next_scan_complete}
use memory_tools.Scanner.Next.{
  next_scan, next_scan_dynamic, refresh_value, refresh_window, is_sorted, dynamic_window_changed,
}
use memory_tools.Scanner.Rescan.{rescan, scan_blocks, with_block, scan_block}
use memory_tools.Scanner.{
  DynamicScanSpec, Scanner, Filter, fresh, first_scan, first_scan_dynamic, make_dynamic_spec,
  spec_length, captured,
}
use memory_tools.Tests.Memories.{
  content, extent, whole_memory, short_memory, regions, never, regions-IsWhole, short_extent,
}
use memory_tools.Tests.Values.{floats}
use memory_tools.Types.{DataType, type_size, value_from_bytes, value_equal}

first_scan_complete_example :
    ((first_scan floats whole_memory regions DataType.u8 (some 240) never false fresh).done ≡ true)
    × ((first_scan floats whole_memory regions DataType.u8
          (some 240)
          never
          false
          fresh).scanner.candidates
        ≡ record { addr = 1008; prev = 240 } ∷ [])
    × ((first_scan floats whole_memory regions DataType.u8
          (some 240)
          never
          false
          fresh).scanner.truncated
        ≡ false)
    × ((first_scan floats whole_memory regions DataType.u8
          (some 240)
          never
          false
          fresh).scanner.first_type
        ≡ DataType.u8)
unfolding chosen_regions chosen view align_up u64 readable type_size value_from_bytes value_equal
first_scan_complete_example =
    first_scan_complete floats whole_memory regions DataType.u8 (some 240) never false fresh content
      (omega arith) (λ k. refl) regions-IsWhole (omega arith)

abbrev pat : BytePattern
pat = record { bytes = 233 ∷ 0 ∷ []; mask = true ∷ false ∷ []; valid = true; error = none }

abbrev pub spec : DynamicScanSpec
spec = record { type = DataType.bytes; pattern = pat; wild_pos = 1 ∷ [] }

spec_run : make_dynamic_spec DataType.bytes pat ≡ spec
unfolding make_dynamic_spec
spec_run = refl

first_scan_dynamic_complete_example :
    ((first_scan_dynamic whole_memory regions spec never false fresh).done ≡ true)
    × ((first_scan_dynamic whole_memory regions spec never false fresh).scanner.dyn_candidates
        ≡ record { addr = 1001; prev_wild = 234 ∷ [] } ∷ [])
    × ((first_scan_dynamic whole_memory regions spec never false fresh).scanner.truncated ≡ false)
    × ((first_scan_dynamic whole_memory regions spec never false fresh).scanner.dyn_spec
        ≡ some spec)
unfolding chosen_regions chosen view align_up u64 readable spec_length pattern_window_matches
    captured
first_scan_dynamic_complete_example =
    first_scan_dynamic_complete whole_memory regions spec never false fresh content refl
      (omega arith) (omega arith) (λ k. refl) regions-IsWhole (omega arith)

-- Cancelled at the second load of the flag.
abbrev soon : ℕ → Bool
soon k = leb 1 k

abbrev found : Scanner
found = record fresh {
  candidates =
      record { addr = 1000; prev = 0 }
      ∷ record { addr = 1008; prev = 61936 }
      ∷ record { addr = 1012; prev = 7 }
      ∷ record { addr = 1015; prev = 7 }
      ∷ [];
}

-- The value at 1008 is as before, and the one at 1015 cannot be read whole.
next_scan_complete_example :
    ((next_scan floats
        (λ cs. cs)
        short_memory
        DataType.u16
        Filter.changed
        none
        never
        false
        found).done
      ≡ true)
    × ((next_scan floats
          (λ cs. cs)
          short_memory
          DataType.u16
          Filter.changed
          none
          never
          false
          found).scanner
        ≡ record found {
          candidates =
              record { addr = 1000; prev = 59880 } ∷ record { addr = 1012; prev = 62964 } ∷ [];
          first_type = DataType.u16;
        })
unfolding refresh_value type_size value_from_bytes value_equal view is_sorted
next_scan_complete_example =
    next_scan_complete floats (λ cs. cs) short_memory DataType.u16 Filter.changed none never false
      found content extent (omega arith) short_extent (λ k. refl)
      (omega arith, (omega arith, (omega arith, (omega arith, tt))))
      (omega arith, (omega arith, (omega arith, (omega arith, tt))))

-- The previous values are not the same: two of them are those of the scan that was cancelled.
cancelled_run :
    (next_scan floats
      (λ cs. cs)
      short_memory
      DataType.u16
      Filter.changed
      none
      soon
      false
      found).scanner.candidates
    ≡ record { addr = 1000; prev = 59880 }
      ∷ record { addr = 1008; prev = 61936 }
      ∷ record { addr = 1012; prev = 62964 }
      ∷ record { addr = 1015; prev = 7 }
      ∷ []
unfolding next_scan rescan scan_blocks with_block scan_block refresh_value type_size
    value_from_bytes value_equal view is_sorted u64 sub64
cancelled_run = refl

abbrev found_dynamic : Scanner
found_dynamic = record fresh {
  dyn_candidates =
      record { addr = 1001; prev_wild = 7 ∷ [] }
      ∷ record { addr = 1009; prev_wild = 7 ∷ [] }
      ∷ record { addr = 1015; prev_wild = 7 ∷ [] }
      ∷ [];
  dyn_spec = some spec;
}

abbrev was : ℕ → Bytes
was a = 233 ∷ 7 ∷ []

-- The window at 1015 cannot be read whole.
next_scan_dynamic_complete_example :
    ((next_scan_dynamic (λ cs. cs) short_memory Filter.changed none never false found_dynamic).done
      ≡ true)
    × ((next_scan_dynamic
          (λ cs. cs)
          short_memory
          Filter.changed
          none
          never
          false
          found_dynamic).scanner
        ≡ record found_dynamic {
          dyn_candidates =
              record { addr = 1001; prev_wild = 234 ∷ [] }
              ∷ record { addr = 1009; prev_wild = 242 ∷ [] }
              ∷ [];
        })
unfolding make_dynamic_spec captured view is_sorted bytes_eq Pattern.window_matches
next_scan_dynamic_complete_example =
    next_scan_dynamic_complete (λ cs. cs) short_memory changed_only DataType.bytes pat was never
      false found_dynamic content extent refl (omega arith) refl short_extent (λ k. refl)
      (omega arith, (omega arith, (omega arith, tt)))
      (omega arith, (omega arith, (omega arith, tt)))
      (refl, ((refl, refl, refl), ((refl, refl, refl), ((refl, refl, refl), tt))))

-- A second scan of the same memory for changed windows, behind the first: the window at 1009 is still
-- compared with the pattern, and kept.
changed_again :
    (next_scan_dynamic
      (λ cs. cs)
      short_memory
      Filter.changed
      none
      never
      false
      (record found_dynamic {
        dyn_candidates =
            record { addr = 1001; prev_wild = 234 ∷ [] }
            ∷ record { addr = 1009; prev_wild = 242 ∷ [] }
            ∷ [];
      })).scanner.dyn_candidates
    ≡ record { addr = 1009; prev_wild = 242 ∷ [] } ∷ []
unfolding next_scan_dynamic spec_length memory_tools.Scanner.Next.refine rescan scan_blocks
    is_sorted with_block view scan_block u64 sub64 refresh_window dynamic_window_changed captured
changed_again = refl

dynamic_window_changed-captured_example :
    dynamic_window_changed (233 ∷ 8 ∷ []) (make_dynamic_spec DataType.bytes pat) (7 ∷ []) ≡ true
unfolding make_dynamic_spec captured bytes_eq Pattern.window_matches
dynamic_window_changed-captured_example =
    dynamic_window_changed-captured DataType.bytes pat (233 ∷ 8 ∷ []) (233 ∷ 7 ∷ []) refl refl refl
      refl
