-- ===== src/Scanner/Next/Result.antt =====
-- What the refining scans keep, and what a cancelled one leaves.
use memory_tools.Chunk.{finished}
use memory_tools.Memory.{Reader}
use memory_tools.Prelude.{
  ℕ, ◌<◌, ◌≡◌, refl, Bool, true, false, List, Option, none, some, Bytes, arith, map,
}
use memory_tools.Scanner.Next.{
  in_order, refresh_value, next_scan, refresh_window, moved_out, refine, or_else, spec_after,
  next_scan_dynamic,
}
use memory_tools.Scanner.Rescan.{Pass, rescan}
use memory_tools.Scanner.Rescan.Equal.{HasExtent, picked, Ascending, Below}
use memory_tools.Scanner.Rescan.Whole.{rescan-picked}
use memory_tools.Scanner.Rescan.Places.{rescan-places}
use memory_tools.Scanner.{
  Filter, Candidate, DynamicCandidate, DynamicScanSpec, spec_length, Scanner,
}
use memory_tools.Types.{DataType, type_size, Floats}

abbrev pub place : Candidate → ℕ
place c = c.addr

abbrev pub dynamic_place : DynamicCandidate → ℕ
dynamic_place c = c.addr

-- The numeric candidates that are kept, by one read for each.
abbrev pub refreshed :
    Floats → DataType → Filter → Option ℕ → (ℕ → ℕ) → (ℕ → ℕ) → List Candidate → List Candidate
refreshed fl type filter target content extent =
    picked place (refresh_value fl type filter target) (type_size type) content extent

-- On a memory of which a read gives the bytes up to the first one that cannot be read, when no
-- cancellation is asked for, if `std::sort` gives the candidates in the order of their addresses,
-- and if a block read at any of them ends before the last address, `next_scan` with a type of at
-- least one byte is completed, and its candidates are those of which all the bytes can be read and
-- whose value passes the filter, in order, each with its new value: the reads by blocks lose none
-- and add none. The scanner then has that type, and is otherwise as before.
pub next_scan_complete :
    (fl : Floats) (sort : List Candidate → List Candidate) (read : Reader) (type : DataType)
    (filter : Filter) (target : Option ℕ) (cancel : ℕ → Bool) (progress : Bool) (st : Scanner)
    (content extent : ℕ → ℕ)
    → 0 < type_size type
    → HasExtent read content extent
    → ((k : ℕ) → cancel k ≡ false)
    → Ascending place 0 (in_order place sort st.candidates)
    → Below place (type_size type) (in_order place sort st.candidates)
    → ((next_scan fl sort read type filter target cancel progress st).done ≡ true)
      × ((next_scan fl sort read type filter target cancel progress st).scanner ≡ record st {
        candidates =
            refreshed fl type filter target content extent (in_order place sort st.candidates);
        first_type = type;
      })
unfolding next_scan
next_scan_complete fl sort read type filter target cancel progress st content extent sized has calm
      up below =
    let (all, ended) =
      rescan-picked place (refresh_value fl type filter target) (λ c. c) (type_size type) content
        extent read cancel progress (in_order place sort st.candidates) sized has calm up below in
    rw (ended, next_scan) (refl, rw all refl)

spec_after_known :
    (newspec : Option DynamicScanSpec) (old : DynamicScanSpec) (now : Option DynamicScanSpec)
    → now ≡ some old
    → spec_after newspec now ≡ some (or_else newspec old)
spec_after_known none old now e = e
spec_after_known (some s) old now e = refl

module _ (sort : List DynamicCandidate → List DynamicCandidate) (read : Reader) (filter : Filter)
    (newspec : Option DynamicScanSpec) (old : DynamicScanSpec) (cancel : ℕ → Bool) (progress : Bool)
    (st : Scanner) where
  abbrev base : DynamicScanSpec
  base = or_else newspec old

  dynamic_step :
      st.dyn_spec ≡ some old
      → 0 < spec_length base
      → base.pattern.valid ≡ true
      → next_scan_dynamic sort read filter newspec cancel progress st
        ≡ refine sort read filter newspec base cancel progress st
  unfolding next_scan_dynamic
  dynamic_step known sized ok = ground arith

  abbrev pass : Pass DynamicCandidate
  pass =
      rescan dynamic_place (refresh_window filter base) moved_out (spec_length base) read cancel
        progress (in_order dynamic_place sort st.dyn_candidates)

  refine_finished :
      (kept : List DynamicCandidate)
      → st.dyn_spec ≡ some old
      → pass.status ≡ finished
      → pass.next ≡ kept
      → ((refine sort read filter newspec base cancel progress st).done ≡ true)
        × ((refine sort read filter newspec base cancel progress st).scanner
            ≡ record st { dyn_candidates = kept; dyn_spec = some base })
  unfolding refine
  refine_finished kept known ended all =
      rw (ended, refine) (refl, rw (spec_after_known newspec old st.dyn_spec known, all) refl)

-- On a memory of which a read gives the bytes up to the first one that cannot be read, when no
-- cancellation is asked for, if `std::sort` gives the candidates in the order of their addresses,
-- and if a block read at any of them ends before the last address, `next_scan_dynamic` behind a
-- dynamic scan, with a new or old pattern that is valid and not empty, is completed, and it keeps
-- the candidates of which all the bytes can be read and that pass the filter, in order, with their
-- new bytes at the wildcards; a new pattern takes the place of the old one, and the scanner is
-- otherwise as before.
pub next_scan_dynamic-picked :
    (sort : List DynamicCandidate → List DynamicCandidate) (read : Reader) (filter : Filter)
    (newspec : Option DynamicScanSpec) (old : DynamicScanSpec) (cancel : ℕ → Bool) (progress : Bool)
    (st : Scanner) (content extent : ℕ → ℕ)
    → st.dyn_spec ≡ some old
    → 0 < spec_length (or_else newspec old)
    → (or_else newspec old).pattern.valid ≡ true
    → HasExtent read content extent
    → ((k : ℕ) → cancel k ≡ false)
    → Ascending dynamic_place 0 (in_order dynamic_place sort st.dyn_candidates)
    → Below dynamic_place
        (spec_length (or_else newspec old))
        (in_order dynamic_place sort st.dyn_candidates)
    → ((next_scan_dynamic sort read filter newspec cancel progress st).done ≡ true)
      × ((next_scan_dynamic sort read filter newspec cancel progress st).scanner ≡ record st {
        dyn_candidates =
            picked dynamic_place
              (refresh_window filter (or_else newspec old))
              (spec_length (or_else newspec old))
              content
              extent
              (in_order dynamic_place sort st.dyn_candidates);
        dyn_spec = some (or_else newspec old);
      })
next_scan_dynamic-picked sort read filter newspec old cancel progress st content extent known sized
      ok has calm up below =
    let base = or_else newspec old in
    let (all, ended) =
      rescan-picked dynamic_place (refresh_window filter base) moved_out (spec_length base) content
        extent read cancel progress (in_order dynamic_place sort st.dyn_candidates) sized has calm
        up below in
    rw (dynamic_step sort read filter newspec old cancel progress st known sized ok)
      (refine_finished sort read filter newspec old cancel progress st _ known ended all)

value_keeps :
    (fl : Floats) (type : DataType) (filter : Filter) (target : Option ℕ) (win : Bytes)
    (c k : Candidate)
    → refresh_value fl type filter target win c ≡ some k
    → place k ≡ place c
unfolding refresh_value
value_keeps fl type filter target win c k e = ground arith

window_keeps :
    (filter : Filter) (base : DynamicScanSpec) (win : Bytes) (c k : DynamicCandidate)
    → refresh_window filter base win c ≡ some k
    → dynamic_place (moved_out k) ≡ dynamic_place c
unfolding refresh_window
window_keeps filter base win c k e = ground arith

-- A `next_scan` that is not completed leaves the scanner as it is but for the previous values: its
-- candidates have the addresses that they had, in order.
pub next_scan_cancelled :
    (fl : Floats) (sort : List Candidate → List Candidate) (read : Reader) (type : DataType)
    (filter : Filter) (target : Option ℕ) (cancel : ℕ → Bool) (progress : Bool) (st : Scanner)
    → (next_scan fl sort read type filter target cancel progress st).done ≡ false
    → ((next_scan fl sort read type filter target cancel progress st).scanner ≡ record st {
      candidates =
          (next_scan fl sort read type filter target cancel progress st).scanner.candidates;
    })
      × (map place (next_scan fl sort read type filter target cancel progress st).scanner.candidates
          ≡ map place (in_order place sort st.candidates))
unfolding next_scan
next_scan_cancelled fl sort read type filter target cancel progress st e =
    let same =
      rescan-places place (refresh_value fl type filter target) (λ c. c) (type_size type)
        (value_keeps fl type filter target) read cancel progress
        (in_order place sort st.candidates) in
    ground (arith, same)
