-- ===== src/Application/Scans/Published.antt =====
-- What a scan leaves of the session when it is not completed.
use mathlib.Core.Path.{subst}
use memory_tools.Application.Machine.{Machine}
use memory_tools.Application.Scans.{
  ScanOutcome, publish, run_scan, value_scan, value_rescan, dynamic_scan, first_scan,
  first_scan_dynamic, next_scan,
}
use memory_tools.Prelude.{
  ℕ, ◌≡◌, ◌∙◌, ap, sym, refl, ◌⊎◌, inl, inr, Bool, false, not, if◌then◌else◌, Option, none, some,
  map, Bool-cases,
}
use memory_tools.Scanner.First.{first_scan_cancelled}
use memory_tools.Scanner.Next.Result.{next_scan_cancelled, place}
use memory_tools.Scanner.Next.{in_order}
use memory_tools.Scanner.{Scanner, Outcome, DynamicScanSpec, Filter, count}
use memory_tools.Session.{Session}
use memory_tools.Session.Opened.{with_memory-cases}
use memory_tools.Types.{DataType}

-- Either the memory was not opened, and the session stays as it is, with the error; or the scan has
-- run on the session's scanner and was completed, and its numbers are those of the new scanner; or
-- it was cancelled, and the outcome has no numbers.
abbrev pub Ran : (ℕ → Scanner → Outcome) → Session → Session × ScanOutcome → Type 0
Ran scan s out =
    ((out.1.ok ≡ false) × (out.0 ≡ s))
    ⊎ ((pid : ℕ) × (s.pid ≡ some pid)
        × (out.0 ≡ record s { scanner = (scan pid s.scanner).scanner })
        × (out.1.ok ≡ (scan pid s.scanner).done)
        × (out.1.cancelled ≡ not (scan pid s.scanner).done)
        × (out.1.count ≡ (if out.1.ok then count (scan pid s.scanner).scanner else 0)))

published-Ran :
    (scan : ℕ → Scanner → Outcome) (s : Session) (pid : ℕ)
    → s.pid ≡ some pid
    → Ran scan s (publish s (some (scan pid s.scanner), none))
published-Ran scan s pid at = elim (Bool-cases (scan pid s.scanner).done) [
  | inl done ↦ inr (pid, at, rw done refl, rw done refl, rw done refl, rw done refl)
  | inr stopped ↦ inr (pid, at, rw stopped refl, rw stopped refl, rw stopped refl, rw stopped refl)
]

pub run_scan-Ran :
    (m : Machine) (scan : ℕ → Scanner → Outcome) (s : Session) → Ran scan s (run_scan m scan s)
unfolding run_scan
run_scan-Ran m scan s =
    elim (with_memory-cases m.open_memory (λ pid _. some (scan pid s.scanner)) s none) [
      | inl (e, failed) ↦ rw failed (inl (refl, refl))
      | inr (pid, at, _, worked) ↦ rw worked (published-Ran scan s pid at)
    ]

-- Nothing but previous values has changed.
abbrev pub KeepsPlaces : Machine → Session → Session → Type 0
KeepsPlaces m s after =
    (after ≡ record s { scanner = record s.scanner { candidates = after.scanner.candidates } })
    × (map place after.scanner.candidates
        ≡ map place (in_order place m.sort_values s.scanner.candidates))

kept :
    (scan : ℕ → Scanner → Outcome) (s : Session) (out : Session × ScanOutcome)
    → Ran scan s out
    → out.1.ok ≡ false
    → ((pid : ℕ) → (scan pid s.scanner).done ≡ false → (scan pid s.scanner).scanner ≡ s.scanner)
    → out.0 ≡ s
kept scan s out (inl (_, same)) h keep = same
kept scan s out (inr (pid, _, after, ok, _, _)) h keep =
    after ∙ ap (λ st. record s { scanner = st }) (keep pid (sym ok ∙ h))

kept_places :
    (m : Machine) (scan : ℕ → Scanner → Outcome) (s : Session) (out : Session × ScanOutcome)
    → Ran scan s out
    → out.1.ok ≡ false
    → ((pid : ℕ)
        → (scan pid s.scanner).done ≡ false
        → KeepsPlaces m s (record s { scanner = (scan pid s.scanner).scanner }))
    → (out.0 ≡ s) ⊎ KeepsPlaces m s out.0
kept_places m scan s out (inl (_, same)) h keep = inl same
kept_places m scan s out (inr (pid, _, after, ok, _, _)) h keep =
    inr (subst (KeepsPlaces m s) (sym after) (keep pid (sym ok ∙ h)))

-- A first scan of values or of a pattern that is not successful, since the memory cannot be opened or
-- since it is cancelled, leaves the session as it was, and so does a refining scan of values that
-- cannot open the memory; one that is cancelled keeps the addresses of the candidates, in order, and
-- all else but their previous values.
pub scans_not_ok :
    (m : Machine) (cancel : ℕ → Bool) (progress : Bool) (type : DataType) (target : Option ℕ)
    (filter : Filter) (spec : DynamicScanSpec) (s : Session)
    → ((first_scan m cancel progress type target s).1.ok ≡ false
        → (first_scan m cancel progress type target s).0 ≡ s)
      × ((first_scan_dynamic m cancel progress spec s).1.ok ≡ false
          → (first_scan_dynamic m cancel progress spec s).0 ≡ s)
      × ((next_scan m cancel progress type filter target s).1.ok ≡ false
          → ((next_scan m cancel progress type filter target s).0 ≡ s)
            ⊎ KeepsPlaces m s (next_scan m cancel progress type filter target s).0)
unfolding first_scan first_scan_dynamic next_scan
scans_not_ok m cancel progress type target filter spec s =
    let values = value_scan m cancel progress type target in
    let patterns = dynamic_scan m cancel progress spec in
    let again = value_rescan m cancel progress type filter target in
    (
      λ e. kept values s (run_scan m values s) (run_scan-Ran m values s) e λ pid d.
          (first_scan_cancelled m.floats (m.reader pid) (m.maps pid) type target spec cancel
              progress s.scanner).0
            d,
      λ e. kept patterns s (run_scan m patterns s) (run_scan-Ran m patterns s) e λ pid d.
          (first_scan_cancelled m.floats (m.reader pid) (m.maps pid) type target spec cancel
              progress s.scanner).1
            d,
      λ e. kept_places m again s (run_scan m again s) (run_scan-Ran m again s) e λ pid d.
          let same =
            next_scan_cancelled m.floats m.sort_values (m.reader pid) type filter target cancel
              progress s.scanner d in
          (ap (λ st. record s { scanner = st }) same.0, same.1),
    )
