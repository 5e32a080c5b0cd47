-- ===== src/Application/Scans.antt =====
-- The scans of src/application.cpp: `first_scan`, `next_scan`, their dynamic forms, `pattern_scan`,
-- and `attach`. An operation returns the session behind it and its outcome.
pub mod Published
pub mod Forgotten
use memory_tools.Application.Machine.{Machine}
use memory_tools.Pattern.{BytePattern, PatternScanResult, scan_pattern}
use memory_tools.Prelude.{
  ℕ, Bool, true, false, not, ◌&&◌, List, [], Option, none, some, Bytes, if◌then◌else◌,
}
use memory_tools.Scanner
use memory_tools.Scanner.{Scanner, Outcome, Filter, DynamicScanSpec, count}
use memory_tools.Scanner.Next
use memory_tools.Session
use memory_tools.Session.{Session, is_other, with_memory}
use memory_tools.Types.{DataType}

pub record ScanOutcome : Type 0 where
  pub ok : Bool
  pub error : Bytes
  pub count : ℕ
  pub truncated : Bool
  pub warned : Bool
  pub cancelled : Bool

abbrev pub no_scan : ScanOutcome
no_scan = record {
  ok = false;
  error = [];
  count = 0;
  truncated = false;
  warned = false;
  cancelled = false;
}

-- What comes behind `with_memory`: its error, or what the scan has returned.
abbrev pub publish : Session → Option Outcome × Option Bytes → Session × ScanOutcome
publish s (out, some e) = (s, record no_scan { error = e })
publish s (none, none) = (s, no_scan)
publish s (some out, none) =
    let after = record s { scanner = out.scanner } in
    if not out.done then (after, record no_scan { cancelled = true }) else (
      after,
      record {
        ok = true;
        error = [];
        count = count out.scanner;
        truncated = out.scanner.truncated;
        warned = out.scanner.warned;
        cancelled = false;
      },
    )

-- The memory is opened, the scan runs on the session's scanner, and its outcome is filled in.
unfoldable pub run_scan : Machine → (ℕ → Scanner → Outcome) → Session → Session × ScanOutcome
unfolding with_memory
run_scan m scan s =
    publish s (with_memory m.open_memory (λ pid _. some (scan pid s.scanner)) s none)

-- What each operation runs on the scanner, with the memory of a process.
module _ (m : Machine) (cancel : ℕ → Bool) (progress : Bool) where
  abbrev pub value_scan : DataType → Option ℕ → ℕ → Scanner → Outcome
  value_scan type target pid st =
      Scanner.first_scan m.floats (m.reader pid) (m.maps pid) type target cancel progress st

  abbrev pub value_rescan : DataType → Filter → Option ℕ → ℕ → Scanner → Outcome
  value_rescan type filter target pid st =
      Next.next_scan m.floats m.sort_values (m.reader pid) type filter target cancel progress st

  abbrev pub dynamic_scan : DynamicScanSpec → ℕ → Scanner → Outcome
  dynamic_scan spec pid st =
      Scanner.first_scan_dynamic (m.reader pid) (m.maps pid) spec cancel progress st

  abbrev pub dynamic_rescan : Filter → Option DynamicScanSpec → ℕ → Scanner → Outcome
  dynamic_rescan filter newspec pid st =
      Next.next_scan_dynamic m.sort_dynamic (m.reader pid) filter newspec cancel progress st

  unfoldable pub first_scan : DataType → Option ℕ → Session → Session × ScanOutcome
  unfolding run_scan
  first_scan type target s = run_scan m (value_scan type target) s

  unfoldable pub next_scan : DataType → Filter → Option ℕ → Session → Session × ScanOutcome
  unfolding run_scan
  next_scan type filter target s = run_scan m (value_rescan type filter target) s

  unfoldable pub first_scan_dynamic : DynamicScanSpec → Session → Session × ScanOutcome
  unfolding run_scan
  first_scan_dynamic spec s = run_scan m (dynamic_scan spec) s

  unfoldable pub next_scan_dynamic :
      Filter → Option DynamicScanSpec → Session → Session × ScanOutcome
  unfolding run_scan
  next_scan_dynamic filter newspec s = run_scan m (dynamic_rescan filter newspec) s

pub record PatternOutcome : Type 0 where
  pub ok : Bool
  pub error : Bytes
  pub hits : List ℕ
  pub truncated : Bool
  pub cancelled : Bool

abbrev pub no_hits : PatternOutcome
no_hits = record { ok = false; error = []; hits = []; truncated = false; cancelled = false }

-- Partial hits are never published.
abbrev pub publish_hits : Option PatternScanResult × Option Bytes → PatternOutcome
publish_hits (res, some e) = record no_hits { error = e }
publish_hits (none, none) = no_hits
publish_hits (some res, none) =
    if res.cancelled
    then record no_hits { cancelled = true }
    else record no_hits { ok = true; hits = res.hits; truncated = res.truncated }

unfoldable pub pattern_scan : Machine → (ℕ → Bool) → Bool → BytePattern → Session → PatternOutcome
unfolding with_memory
pattern_scan m cancel progress pat s = publish_hits (
    with_memory m.open_memory
      (λ pid _. some (scan_pattern (m.reader pid) (m.maps pid) pat cancel progress)) s none)

pub record AttachOutcome : Type 0 where
  pub ok : Bool
  pub error : Bytes
  pub switched : Bool

abbrev pub attached : Bool → Session × Option Bytes → Session × AttachOutcome
attached switching (s, some e) = (s, record { ok = false; error = e; switched = false })
attached switching (s, none) = (s, record { ok = true; error = []; switched = switching })

unfoldable pub attach : Machine → ℕ → Session → Session × AttachOutcome
attach m pid s = attached (is_other s.pid pid) (Session.attach m.open_memory pid s)
