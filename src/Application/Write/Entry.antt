-- ===== src/Application/Write/Entry.antt =====
-- `write` and `write_entry` of src/application.cpp: a value is written to an address, or to where an
-- entry of the table leads, with the target process's memory open.
pub mod Refreshed
use memory_tools.Application.Machine.{Machine, target_maps}
use memory_tools.Application.Pointers.{refresh_entry}
use memory_tools.Application.Write.{Access, WriteOutcome, no_write, write_value_at}
use memory_tools.Memory.{Region, Reader}
use memory_tools.Numerals.{print_nat}
use memory_tools.Pointer.Resolver.{
  PointerChainRef, ResolveError, module_not_found, offset_outside, broken_chain, pointer_unreadable,
  final_not_mapped, final_unreadable, ResolveResult, resolved, failed, resolve_chain,
}
use memory_tools.Prelude.{
  ℕ, Bool, true, false, List, [], ◌++◌, Option, none, some, Bytes, codes, if◌then◌else◌,
}
use memory_tools.Session.{Session, with_memory}
use memory_tools.Table.File.{hex_short}
use memory_tools.Table.{AddressEntry, get_entry}
use memory_tools.Types.{DataType, i32}

-- The resolver's messages.
abbrev pub resolve_text : ResolveError → Bytes
resolve_text (module_not_found name) = codes "modulo no encontrado: " ++ name
resolve_text (offset_outside offset) = codes "offset fuera del modulo: " ++ hex_short offset
resolve_text broken_chain = codes "cadena rota (direccion no legible)"
resolve_text pointer_unreadable = codes "puntero no legible"
resolve_text final_not_mapped = codes "no se pudo leer el valor final (direccion no legible)"
resolve_text final_unreadable = codes "no se pudo leer el valor final"

abbrev pub or_nothing : Option Bytes → Bytes
or_nothing none = []
or_nothing (some bytes) = bytes

abbrev pub failed_write : Bytes → WriteOutcome
failed_write message = record (no_write 0 i32) { error = message }

module _ {ℓ} {S : Type ℓ} (m : Machine) (mem : Access S) (value : ℕ) where
  -- The reads of the process in a state.
  abbrev pub reader_of : S → Reader
  reader_of st a n = or_nothing (mem.read st a n)

  -- What comes behind `with_memory`.
  abbrev pub opened : (S × WriteOutcome) × Option Bytes → S × WriteOutcome
  opened (done, none) = done
  opened ((st, o), some e) = (st, record o { error = codes "Error: " ++ e })

  unfoldable pub write : ℕ → DataType → Session → S → S × WriteOutcome
  unfolding with_memory write_value_at
  write addr type s st = opened (
      with_memory m.open_memory
        (λ pid _. write_value_at mem m.floats value st (target_maps m s) addr type) s
        (st, failed_write []))

  abbrev pub write_resolved : ℕ → AddressEntry → List Region → S → ResolveResult → S × WriteOutcome
  write_resolved idx e regions st (resolved address old) =
      write_value_at mem m.floats value st regions address e.type
  write_resolved idx e regions st (failed error) = (
    st,
    failed_write (
        codes "Error al resolver la entrada "
        ++ (print_nat idx ++ (codes ": " ++ resolve_text error))),
  )

  -- To where the entry leads.
  abbrev pub write_to :
      ℕ → AddressEntry → List Region → S → Option PointerChainRef → S × WriteOutcome
  write_to idx e regions st none = write_value_at mem m.floats value st regions e.address e.type
  write_to idx e regions st (some chain) =
      write_resolved idx e regions st (resolve_chain chain (reader_of st) regions)

  abbrev pub mark_written :
      ℕ → AddressEntry → Session → S × WriteOutcome → Session × S × WriteOutcome
  mark_written idx e s (st, o) = (if o.ok then refresh_entry idx e s else s, st, o)

  abbrev pub write_enabled : Bool → ℕ → AddressEntry → Session → S → Session × S × WriteOutcome
  write_enabled false idx e s st = (
    s,
    st,
    failed_write (
        codes "La entrada "
        ++ (print_nat idx
            ++ (codes " esta desactivada (usa 'table toggle " ++ (print_nat idx ++ codes "').")))),
  )
  write_enabled true idx e s st = mark_written idx e s (
      opened (
        with_memory m.open_memory (λ pid _. write_to idx e (target_maps m s) st e.ptr) s
          (st, failed_write [])))

  abbrev pub write_found : ℕ → Session → S → Option AddressEntry → Session × S × WriteOutcome
  write_found idx s st none =
      (s, st, failed_write (codes "No existe la entrada " ++ (print_nat idx ++ codes ".")))
  write_found idx s st (some e) = write_enabled e.enabled idx e s st

  unfoldable pub write_entry : ℕ → Session → S → Session × S × WriteOutcome
  unfolding with_memory get_entry
  write_entry idx s st = write_found idx s st (get_entry s.table idx)
