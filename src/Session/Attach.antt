-- ===== src/Session/Attach.antt =====
-- What changing the target process does to what was found.
use memory_tools.Prelude.{
  ℕ, ◌≡◌, refl, true, false, [], ◌∷◌, Option, none, some, Bytes, All, inl, inr, Bool-cases,
}
use memory_tools.Scanner.{count}
use memory_tools.Session.{Session, is_other, attach, forget}
use memory_tools.Table.{AddressTable, mark_all_stale}

-- Every entry is stale.
abbrev pub IsStale : AddressTable → Type 0
IsStale es = All (λ e. e.stale ≡ true) es

mark_all_stale-IsStale : (es : AddressTable) → IsStale (mark_all_stale es)
unfolding mark_all_stale
mark_all_stale-IsStale [] = tt
mark_all_stale-IsStale (e ∷ es) = (refl, mark_all_stale-IsStale es)

-- `attach` to a process that cannot be opened changes nothing. To one that can, it makes it the
-- target; if another process was the target before, no candidate and no chain of it is left and all
-- entries of the table are stale, and otherwise all that was found stays.
pub attach_lem :
    (open_memory : ℕ → Option Bytes) (target : ℕ) (s : Session)
    → ((e : Bytes) → open_memory target ≡ some e → attach open_memory target s ≡ (s, some e))
      × (open_memory target ≡ none
          → ((attach open_memory target s).0.pid ≡ some target)
            × ((attach open_memory target s).1 ≡ none)
            × (is_other s.pid target ≡ true
                → (count (attach open_memory target s).0.scanner ≡ 0)
                  × ((attach open_memory target s).0.last_pointer ≡ none)
                  × IsStale (attach open_memory target s).0.table)
            × (is_other s.pid target ≡ false
                → (attach open_memory target s).0 ≡ record s { pid = some target }))
unfolding attach forget count
attach_lem open_memory target s = (
  λ e h. rw (h, attach) refl,
  λ h. elim (Bool-cases (is_other s.pid target)) [
    | inl k ↦
        rw (h, k, attach)
          (refl, refl, λ _. (refl, refl, mark_all_stale-IsStale s.table), λ e. absurd (cc))
    | inr k ↦ rw (h, k, attach) (refl, refl, (λ e. absurd (cc)), λ _. refl)
  ],
)
