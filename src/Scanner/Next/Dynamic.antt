-- ===== src/Scanner/Next/Dynamic.antt =====
-- The refining scan of dynamic candidates (src/scanner.cpp, next_scan_dynamic) as its callers ask for
-- it, against the windows that were and that are in memory.
use memory_tools.Memory.{Reader}
use memory_tools.Pattern.{BytePattern, window_matches, pattern_window_matches}
use memory_tools.Prelude.{
  ℕ, ◌<◌, ◌≡◌, ◌∙◌, refl, ap, Bool, true, false, not, ◌&&◌, List, [], ◌∷◌, Option, none, some,
  Bytes, All, arith, bytes_eq, leb, length, if◌then◌else◌, Bool-cases, inl, inr,
}
use memory_tools.Chunk.Naive.{view, length-view}
use memory_tools.Scanner.Next.{
  in_order, refresh_window, next_scan_dynamic, dynamic_window_changed, passes_dynamic, or_else,
}
use memory_tools.Scanner.Next.Captured.{dynamic_window_changed-captured}
use memory_tools.Scanner.Next.Result.{dynamic_place, next_scan_dynamic-picked}
use memory_tools.Scanner.Rescan.Equal.{HasExtent, picked, Ascending, Below}
use memory_tools.Scanner.{
  Filter, DynamicCandidate, DynamicScanSpec, Scanner, make_dynamic_spec, wild_from, captured,
  spec_length,
}
use memory_tools.Types.{DataType}

-- What may be asked for: the windows that have changed, those that have not, or those that match a
-- new pattern.
pub data Request : Type 0 where
  changed_only unchanged_only : Request
  exactly : DataType → BytePattern → Request

abbrev pub filter_of : Request → Filter
filter_of changed_only = Filter.changed
filter_of unchanged_only = Filter.unchanged
filter_of (exactly type pat) = Filter.exact

abbrev pub new_spec : Request → Option DynamicScanSpec
new_spec (exactly type pat) = some (make_dynamic_spec type pat)
new_spec _ = none

-- The pattern that is in force, behind a scan for `pat`.
abbrev pub pattern_of : Request → BytePattern → BytePattern
pattern_of (exactly type new) pat = new
pattern_of _ pat = pat

abbrev pub type_of : Request → DataType → DataType
type_of (exactly new pat) type = new
type_of _ type = type

-- Whether a window that was `before` is to be kept as `now`.
abbrev pub wanted : Request → Bytes → Bytes → Bool
wanted changed_only before now = not (bytes_eq now before)
wanted unchanged_only before now = bytes_eq now before
wanted (exactly type new) before now = window_matches now new.bytes new.mask

-- A candidate as a scan for `pat` leaves it where it has found the window `was`.
abbrev pub Remembers : BytePattern → (ℕ → Bytes) → DynamicCandidate → Type 0
Remembers pat was c =
    (length (was c.addr) ≡ length pat.bytes)
    × (window_matches (was c.addr) pat.bytes pat.mask ≡ true)
    × (c.prev_wild ≡ captured (wild_from 0 pat.mask) (was c.addr))

-- The comparisons with the windows before need these; a new pattern does not.
abbrev pub IsReady : Request → BytePattern → (ℕ → Bytes) → List DynamicCandidate → Type 0
IsReady (exactly type new) pat was cs = Unit
IsReady _ pat was cs = (length pat.mask ≡ length pat.bytes) × All (Remembers pat was) cs

-- The candidates of which the whole window can be read and is wanted, with its bytes at the wildcards.
abbrev pub kept :
    Request
    → BytePattern
    → (ℕ → Bytes)
    → (ℕ → ℕ)
    → (ℕ → ℕ)
    → List DynamicCandidate
    → List DynamicCandidate
kept request pat was content extent [] = []
kept request pat was content extent (c ∷ cs) =
    let rest = kept request pat was content extent cs in
    let size = length (pattern_of request pat).bytes in
    let now = view content c.addr size in
    if leb size (extent c.addr) && wanted request (was c.addr) now
    then record {
      addr = c.addr;
      prev_wild = captured (wild_from 0 (pattern_of request pat).mask) now;
    }
      ∷ rest
    else rest

-- The specification that the scan works with.
abbrev pub base_of : Request → DataType → BytePattern → DynamicScanSpec
base_of request type pat = make_dynamic_spec (type_of request type) (pattern_of request pat)

or_else-new_spec :
    (request : Request) (type : DataType) (pat : BytePattern)
    → or_else (new_spec request) (make_dynamic_spec type pat) ≡ base_of request type pat
or_else-new_spec changed_only type pat = refl
or_else-new_spec unchanged_only type pat = refl
or_else-new_spec (exactly new p) type pat = refl

window_changed_back :
    (type : DataType) (pat : BytePattern) (was : ℕ → Bytes) (c : DynamicCandidate) (now : Bytes)
    → length pat.mask ≡ length pat.bytes
    → Remembers pat was c
    → length now ≡ length pat.bytes
    → dynamic_window_changed now (make_dynamic_spec type pat) c.prev_wild
      ≡ not (bytes_eq now (was c.addr))
unfolding make_dynamic_spec
window_changed_back type pat was c now whole (sized, found, same) n =
    ap (dynamic_window_changed now (make_dynamic_spec type pat)) same
    ∙ dynamic_window_changed-captured type pat now (was c.addr) n sized whole found

-- The test of one window.
passes-wanted :
    (request : Request) (type : DataType) (pat : BytePattern) (was : ℕ → Bytes)
    (c : DynamicCandidate) (now : Bytes)
    → IsReady request pat was (c ∷ [])
    → length now ≡ length (pattern_of request pat).bytes
    → passes_dynamic (filter_of request) (base_of request type pat) now c.prev_wild
      ≡ wanted request (was c.addr) now
unfolding passes_dynamic make_dynamic_spec pattern_window_matches
passes-wanted changed_only type pat was c now ready n =
    window_changed_back type pat was c now ready.0 ready.1.0 n
passes-wanted unchanged_only type pat was c now ready n =
    rw (window_changed_back type pat was c now ready.0 ready.1.0 n) (ground arith)
passes-wanted (exactly new p) type pat was c now ready n = refl

IsReady-head :
    (request : Request) (pat : BytePattern) (was : ℕ → Bytes) (c : DynamicCandidate)
    (cs : List DynamicCandidate)
    → IsReady request pat was (c ∷ cs)
    → IsReady request pat was (c ∷ []) × IsReady request pat was cs
IsReady-head changed_only pat was c cs h = ((h.0, (h.1.0, tt)), (h.0, h.1.1))
IsReady-head unchanged_only pat was c cs h = ((h.0, (h.1.0, tt)), (h.0, h.1.1))
IsReady-head (exactly type new) pat was c cs h = (tt, tt)

picked-kept :
    (request : Request) (type : DataType) (pat : BytePattern) (was : ℕ → Bytes)
    (content extent : ℕ → ℕ) (cs : List DynamicCandidate)
    → IsReady request pat was cs
    → picked dynamic_place
        (refresh_window (filter_of request) (base_of request type pat))
        (length (pattern_of request pat).bytes)
        content
        extent
        cs
      ≡ kept request pat was content extent cs
unfolding refresh_window make_dynamic_spec
picked-kept request type pat was content extent [] ready = refl
picked-kept request type pat was content extent (c ∷ cs) ready =
    let size = length (pattern_of request pat).bytes in
    let now = view content c.addr size in
    let (here, there) = IsReady-head request pat was c cs ready in
    let rest = picked-kept request type pat was content extent cs there in
    let test = passes-wanted request type pat was c now here (length-view content c.addr size) in
    elim (Bool-cases (leb size (extent c.addr))) [
      | inl e ↦ elim (Bool-cases (wanted request (was c.addr) now)) [
        | inl w ↦
            rw (e, test ∙ w, w)
              (ap
                (λ l.
                  record {
                    addr = c.addr;
                    prev_wild = captured (wild_from 0 (pattern_of request pat).mask) now;
                  }
                  ∷ l)
                rest)
        | inr w ↦ rw (e, test ∙ w, w) rest
      ]
      | inr e ↦ rw e rest
    ]

-- On a memory of which a read gives the bytes up to the first one that cannot be read, when no
-- cancellation is asked for, if `std::sort` gives the candidates in the order of their addresses,
-- and if a block read at any of them ends before the last address: behind a scan for a pattern, a scan
-- that asks for the changed windows, for the unchanged ones or for a new pattern, with a pattern that is
-- valid and not empty, is completed. It keeps those candidates, in order, of which the whole window can
-- be read and differs from the window that was found there, is the same, or matches the new pattern,
-- each with its new bytes at the wildcards; the pattern is then the one that was used, and the scanner
-- is otherwise as before. For the comparisons, the candidates hold the bytes at the wildcards of windows
-- that matched the pattern, which has a mask of its length.
pub next_scan_dynamic_complete :
    (sort : List DynamicCandidate → List DynamicCandidate) (read : Reader) (request : Request)
    (type : DataType) (pat : BytePattern) (was : ℕ → Bytes) (cancel : ℕ → Bool) (progress : Bool)
    (st : Scanner) (content extent : ℕ → ℕ)
    → st.dyn_spec ≡ some (make_dynamic_spec type pat)
    → 0 < length (pattern_of request pat).bytes
    → (pattern_of request pat).valid ≡ true
    → HasExtent read content extent
    → ((k : ℕ) → cancel k ≡ false)
    → Ascending dynamic_place 0 (in_order dynamic_place sort st.dyn_candidates)
    → Below dynamic_place
        (length (pattern_of request pat).bytes)
        (in_order dynamic_place sort st.dyn_candidates)
    → IsReady request pat was (in_order dynamic_place sort st.dyn_candidates)
    → ((next_scan_dynamic sort read (filter_of request) (new_spec request) cancel progress st).done
        ≡ true)
      × ((next_scan_dynamic sort read
            (filter_of request)
            (new_spec request)
            cancel
            progress
            st).scanner
          ≡ record st {
            dyn_candidates =
                kept request pat was content extent (in_order dynamic_place sort st.dyn_candidates);
            dyn_spec = some (base_of request type pat);
          })
unfolding spec_length make_dynamic_spec memory_tools.Pattern.size
next_scan_dynamic_complete sort read request type pat was cancel progress st content extent known
      sized fine has calm up below ready =
    let cs = in_order dynamic_place sort st.dyn_candidates in
    let run =
      next_scan_dynamic-picked sort read (filter_of request) (new_spec request)
        (make_dynamic_spec type pat) cancel progress st content extent known in
    let (done, after) =
      (rw (or_else-new_spec request type pat) at (run)) sized fine has calm up below in
    (
      done,
      after
          ∙ ap (λ l. record st { dyn_candidates = l; dyn_spec = some (base_of request type pat) })
              (picked-kept request type pat was content extent cs ready),
    )
