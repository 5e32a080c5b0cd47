-- ===== src/Application/Pointers/Added.antt =====
-- A chain of the session's result that is added to the table, and the entry's resolution.
use memory_tools.Application.Machine.{Machine, target_maps, pid_or_zero}
use memory_tools.Application.Pointers.{
  maps_if_any, add_found, add_from, add_pointer_chain, resolve_with, resolve_found, resolve_entry,
}
use memory_tools.Memory.{Region}
use memory_tools.Pointer.Resolver.{PointerChainRef, resolved, make_chain_ref, resolve_chain}
use memory_tools.Pointer.{PointerChain, PointerScanResult}
use memory_tools.Prelude.{ℕ, ◌≡◌, ◌∙◌, refl, ap, true, List, [], ◌∷◌, none, some, Bytes, get_elem?}
use memory_tools.Session.Opened.{with_memory-opened}
use memory_tools.Session.{Session}
use memory_tools.Table.{AddressEntry, add_chain, get_entry}
use memory_tools.Table.Entries.{add_chain-get_entry}
use memory_tools.Types.{DataType}

module _ (m : Machine) (idx : ℕ) (s : Session) (chain : PointerChainRef) (pid address value : ℕ)
    (at : s.pid ≡ some pid) (able : m.open_memory pid ≡ none)
    (known : resolve_chain chain (m.reader pid) (target_maps m s) ≡ resolved address value) where
  resolve_with_known :
      (e : AddressEntry)
      → (resolve_with m idx e s (some chain)).1
        ≡ record { ok = true; error = none; address = address; value = value; type = e.type }
  resolve_with_known e =
      rw
        (
          with_memory-opened m.open_memory
              (λ pid _. some (resolve_chain chain (m.reader pid) (target_maps m s))) s none pid at
              able,
          known,
        )
        refl

  -- An entry whose chain can be resolved.
  resolve_known :
      (e : AddressEntry)
      → get_entry s.table idx ≡ some e
      → e.ptr ≡ some chain
      → (resolve_entry m idx s).1
        ≡ record { ok = true; error = none; address = address; value = value; type = e.type }
  unfolding resolve_entry
  resolve_known e stands ptr =
      ap (λ r. (resolve_found m idx s r).1) stands
      ∙ ap (λ p. (resolve_with m idx e s p).1) ptr
      ∙ resolve_with_known e

-- The chain with the index `i` is added, and its entry is resolved to the address with the value.
abbrev pub Resolves : Machine → ℕ → Bytes → Session → ℕ → ℕ → DataType → Type 0
Resolves m i description s address value type =
    (later : Session) × (ref : PointerChainRef) × (index : ℕ) × (add_pointer_chain m i description s
      ≡ some (later, ref, index))
    × ((resolve_entry m index later).1
        ≡ record { ok = true; error = none; address = address; value = value; type = type })

make_chain_ref_type :
    (regions : List Region) (nodes os : List ℕ) (type : DataType)
    → (make_chain_ref regions nodes os type).value_type ≡ type
unfolding make_chain_ref
make_chain_ref_type regions [] os type = refl
make_chain_ref_type regions (n ∷ ns) os type = refl

-- A chain of the session's result is added to the table and resolved.
pub add_and_resolve :
    (m : Machine) (s : Session) (res : PointerScanResult) (i : ℕ) (c : PointerChain)
    (description : Bytes) (pid address value : ℕ) (type : DataType)
    → s.pid ≡ some pid
    → m.open_memory pid ≡ none
    → s.last_pointer ≡ some res
    → get_elem? res.chains i ≡ some c
    → res.value_type ≡ type
    → resolve_chain (make_chain_ref (m.maps pid) c.nodes c.offsets type) (m.reader pid) (m.maps pid)
      ≡ resolved address value
    → Resolves m i description s address value type
unfolding add_pointer_chain
add_and_resolve m s res i c description pid address value type at able last chosen typed known =
    let ref = make_chain_ref (m.maps pid) c.nodes c.offsets type in
    let (e, stands, ptr, of) = add_chain-get_entry s.table ref description in
    let added = add_chain s.table ref description in
    let later : Session = record s { table = added.0 } in
    let maps : target_maps m later ≡ m.maps pid = ap (λ p. m.maps (pid_or_zero p)) at in
    (
      later,
      ref,
      added.1,
      ap (add_from m i description s) last
          ∙ ap (add_found m description s res.value_type) chosen
          ∙ ap (λ t. add_found m description s t (some c)) typed
          ∙ ap
              (λ p.
                let r = make_chain_ref (maps_if_any m p) c.nodes c.offsets type in
                some (
                  record s { table = (add_chain s.table r description).0 },
                  r,
                  (add_chain s.table r description).1,
                ))
              at,
      resolve_known m added.1 later ref pid address value at able
            (ap (λ rs. resolve_chain ref (m.reader pid) rs) maps ∙ known) e stands ptr
          ∙ ap (λ t. record { ok = true; error = none; address = address; value = value; type = t })
              (of ∙ make_chain_ref_type (m.maps pid) c.nodes c.offsets type),
    )
