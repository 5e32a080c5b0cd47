-- ===== src/Application/Write/Entry/Refreshed.antt =====
-- When `write_entry` writes, and what it does to the table.
use memory_tools.Application.Machine.{Machine, target_maps}
use memory_tools.Application.Pointers.{refresh_entry}
use memory_tools.Application.Write.Checked.{Guarded, write_value_at-Guarded}
use memory_tools.Application.Write.Entry.{
  opened, failed_write, write_resolved, write_to, write_enabled, write_found, write_entry,
}
use memory_tools.Application.Write.{Access, WriteOutcome, write_value_at}
use memory_tools.Memory.{Region, region_at, writable}
use memory_tools.Pointer.Resolver.{PointerChainRef, ResolveResult, resolved, failed}
use memory_tools.Prelude.{
  ℕ, ◌≡◌, ◌⊎◌, inl, inr, refl, Bool, true, false, List, [], Option, none, some, if◌then◌else◌,
}
use memory_tools.Session.Opened.{with_memory-cases}
use memory_tools.Session.{Session, with_memory}
use memory_tools.Table.{AddressEntry, get_entry}
use memory_tools.Types.{DataType}

module _ {ℓ} {S : Type ℓ} (m : Machine) (mem : Access S) (value : ℕ) where
  -- The process is left alone, or it was written once at an address in a writable region.
  abbrev pub WritesOnce : S → List Region → DataType → S × WriteOutcome → Type ℓ
  WritesOnce st regions type out =
      ((out.1.had_old ≡ false) × (out.0 ≡ st))
      ⊎ ((address : ℕ) × (held : Region) × (region_at regions address ≡ some held)
          × (writable held ≡ true)
          × Guarded mem m.floats value st address type out)

  write_at-WritesOnce :
      (st : S) (regions : List Region) (address : ℕ) (type : DataType)
      → WritesOnce st regions type (write_value_at mem m.floats value st regions address type)
  write_at-WritesOnce st regions address type =
      elim (write_value_at-Guarded mem m.floats value st regions address type) [
        | inl left ↦ inl left
        | inr (held, at, able, once) ↦ inr (address, held, at, able, once)
      ]

  write_resolved-WritesOnce :
      (idx : ℕ) (e : AddressEntry) (regions : List Region) (st : S) (r : ResolveResult)
      → WritesOnce st regions e.type (write_resolved m mem value idx e regions st r)
  write_resolved-WritesOnce idx e regions st (resolved address old) =
      write_at-WritesOnce st regions address e.type
  write_resolved-WritesOnce idx e regions st (failed error) = inl (refl, refl)

  write_to-WritesOnce :
      (idx : ℕ) (e : AddressEntry) (regions : List Region) (st : S) (p : Option PointerChainRef)
      → WritesOnce st regions e.type (write_to m mem value idx e regions st p)
  write_to-WritesOnce idx e regions st none = write_at-WritesOnce st regions e.address e.type
  write_to-WritesOnce idx e regions st (some chain) = write_resolved-WritesOnce idx e regions st _

  -- The outcome of an entry that is there: whether it is enabled, what is written, and that the
  -- session only changes in that the entry is no longer stale after a success.
  abbrev pub Wrote : ℕ → Session → S → Option AddressEntry → Session × S × WriteOutcome → Type ℓ
  Wrote idx s st none out = (out.0 ≡ s) × (out.1 ≡ st) × (out.2.ok ≡ false)
  Wrote idx s st (some e) out =
      (e.enabled ≡ false → (out.0 ≡ s) × (out.1 ≡ st) × (out.2.ok ≡ false))
      × (out.0 ≡ (if out.2.ok then refresh_entry idx e s else s))
      × WritesOnce st (target_maps m s) e.type (out.1, out.2)

  opened-WritesOnce :
      (idx : ℕ) (e : AddressEntry) (s : Session) (st : S)
      → WritesOnce st (target_maps m s) e.type (
          opened m mem value (
            with_memory m.open_memory
              (λ pid _. write_to m mem value idx e (target_maps m s) st e.ptr)
              s
              (st, failed_write [])))
  opened-WritesOnce idx e s st =
      elim (with_memory-cases m.open_memory
        (λ pid _. write_to m mem value idx e (target_maps m s) st e.ptr) s (st, failed_write [])) [
          | inl (error, refused) ↦ rw refused (inl (refl, refl))
          | inr (pid, _, _, worked) ↦
              rw worked (write_to-WritesOnce idx e (target_maps m s) st e.ptr)
        ]

  write_enabled-Wrote :
      (b : Bool) (idx : ℕ) (e : AddressEntry) (s : Session) (st : S)
      → e.enabled ≡ b
      → Wrote idx s st (some e) (write_enabled m mem value b idx e s st)
  write_enabled-Wrote false idx e s st off = ((λ _. (refl, refl, refl)), refl, inl (refl, refl))
  write_enabled-Wrote true idx e s st on =
      ((λ off. absurd (cc)), refl, opened-WritesOnce idx e s st)

  write_found-Wrote :
      (idx : ℕ) (s : Session) (st : S) (r : Option AddressEntry)
      → Wrote idx s st r (write_found m mem value idx s st r)
  write_found-Wrote idx s st none = (refl, refl, refl)
  write_found-Wrote idx s st (some e) = write_enabled-Wrote e.enabled idx e s st refl

  -- For an index without an entry, and for a disabled entry, nothing happens. Otherwise either the
  -- process is left alone and no old value is given, or the value's bytes were written once at an
  -- address in a writable region; and the table changes only in that an entry that was written with
  -- success is no longer stale.
  pub write_entry-Wrote :
      (idx : ℕ) (s : Session) (st : S)
      → Wrote idx s st (get_entry s.table idx) (write_entry m mem value idx s st)
  unfolding write_entry
  write_entry-Wrote idx s st = write_found-Wrote idx s st (get_entry s.table idx)
