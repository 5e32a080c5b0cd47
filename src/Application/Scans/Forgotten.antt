-- ===== src/Application/Scans/Forgotten.antt =====
-- What attaching to another process leaves for the operations that follow (src/application.cpp).
use mathlib.Core.Path.{subst}
use memory_tools.Application.Machine.{Machine}
use memory_tools.Application.Pointers.{add_pointer_chain}
use memory_tools.Application.Scans.{
  AttachOutcome, attached, run_scan, value_rescan, dynamic_rescan, next_scan, next_scan_dynamic,
  attach,
}
use memory_tools.Prelude.{
  arith, ℕ, Bool-cases, inl, inr, ◌≡◌, refl, sym, ap, ◌∙◌, Bool, true, [], ◌∷◌, Option, none, some,
  Bytes,
}
use memory_tools.Scanner
use memory_tools.Scanner.Next
use memory_tools.Scanner.Rescan.{rescan, scan_blocks}
use memory_tools.Scanner.{Scanner, Outcome, Filter, DynamicScanSpec, fresh}
use memory_tools.Session
use memory_tools.Session.{Session, is_other, with_memory}
use memory_tools.Session.Opened.{with_memory-opened}
use memory_tools.Table.{AddressTable, mark_all_stale}
use memory_tools.Types.{DataType}

-- The same entries, all of them stale.
abbrev pub IsAged : AddressTable → AddressTable → Type 0
IsAged [] [] = Unit
IsAged (e ∷ es) (f ∷ fs) = (f ≡ record e { stale = true }) × IsAged es fs
IsAged _ _ = ⊥

mark_all_stale-IsAged : (es : AddressTable) → IsAged es (mark_all_stale es)
unfolding mark_all_stale
mark_all_stale-IsAged [] = tt
mark_all_stale-IsAged (e ∷ es) = (refl, mark_all_stale-IsAged es)

-- Nothing that was found in the process before is left.
abbrev pub Forgets : Machine → ℕ → Session → Session × AttachOutcome → Type 0
Forgets m pid s (t, o) =
    (o ≡ record { ok = true; error = []; switched = true })
    × (t.pid ≡ some pid)
    × (t.scanner ≡ record fresh { first_type = s.scanner.first_type })
    × IsAged s.table t.table
    × ((i : ℕ) (description : Bytes) → add_pointer_chain m i description t ≡ none)
    × ((cancel : ℕ → Bool) (progress : Bool) (type : DataType) (filter : Filter) (target : Option ℕ)
        → (next_scan m cancel progress type filter target t).0.scanner.candidates ≡ [])
    × ((cancel : ℕ → Bool) (progress : Bool) (filter : Filter) (spec : Option DynamicScanSpec)
        → (next_scan_dynamic m cancel progress filter spec t).0 ≡ t)

abbrev emptied : ℕ → Session → Session
emptied pid s = record s {
  pid = some pid;
  scanner = record fresh { first_type = s.scanner.first_type };
  table = mark_all_stale s.table;
  last_pointer = none;
}

session_emptied :
    (open_memory : ℕ → Option Bytes) (pid : ℕ) (s : Session)
    → is_other s.pid pid ≡ true
    → open_memory pid ≡ none
    → Session.attach open_memory pid s ≡ (emptied pid s, none)
unfolding Session.attach Session.forget Scanner.clear
session_emptied open_memory pid s other able = rw (able, other, Session.attach) refl

-- With the memory open, a scan changes the session's scanner.
run_session :
    (m : Machine) (scan : ℕ → Scanner → Outcome) (pid : ℕ) (s : Session)
    → s.pid ≡ some pid
    → m.open_memory pid ≡ none
    → (run_scan m scan s).0 ≡ record s { scanner = (scan pid s.scanner).scanner }
unfolding run_scan
run_session m scan pid s at able =
    rw (with_memory-opened m.open_memory (λ p _. some (scan p s.scanner)) s none pid at able)
      (ground arith)

no_candidates :
    (m : Machine) (pid : ℕ) (type : DataType) (filter : Filter) (target : Option ℕ)
    (cancel : ℕ → Bool) (progress : Bool) (old : DataType)
    → (value_rescan m cancel progress type filter target pid
        (record fresh { first_type = old })).scanner.candidates
      ≡ []
unfolding Next.next_scan rescan scan_blocks Next.is_sorted
no_candidates m pid type filter target cancel progress old = elim (Bool-cases (cancel 0)) [
  | inl e ↦ rw (e, e) refl
  | inr e ↦ rw (e, e) refl
]

emptied-Forgets :
    (m : Machine) (pid : ℕ) (s : Session)
    → m.open_memory pid ≡ none
    → Forgets m pid s (emptied pid s, record { ok = true; error = []; switched = true })
unfolding add_pointer_chain next_scan next_scan_dynamic Next.next_scan_dynamic
emptied-Forgets m pid s able = (
  refl,
  refl,
  refl,
  mark_all_stale-IsAged s.table,
  λ i description. refl,
  λ cancel progress type filter target.
      ap (λ t. t.scanner.candidates)
        (run_session m (value_rescan m cancel progress type filter target) pid (emptied pid s) refl
          able)
      ∙ no_candidates m pid type filter target cancel progress s.scanner.first_type,
  λ cancel progress filter spec.
      run_session m (dynamic_rescan m cancel progress filter spec) pid (emptied pid s) refl able,
)

-- Attaching to another process than the one before, the memory of which can be opened, succeeds and is
-- reported as a switch. The scanner is then as it is constructed but for the type of its last scan; the
-- table has the same entries, all of them stale; no pointer chain can be added; a refining scan of
-- values gives no candidates; and a refining scan of patterns changes nothing.
pub attach-Forgets :
    (m : Machine) (pid : ℕ) (s : Session)
    → is_other s.pid pid ≡ true
    → m.open_memory pid ≡ none
    → Forgets m pid s (attach m pid s)
unfolding attach
attach-Forgets m pid s other able =
    subst (Forgets m pid s)
      (sym (
        ap (attached (is_other s.pid pid)) (session_emptied m.open_memory pid s other able)
        ∙ ap (λ b. attached b (emptied pid s, none)) other))
      (emptied-Forgets m pid s able)
