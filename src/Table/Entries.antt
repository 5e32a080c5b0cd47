-- ===== src/Table/Entries.antt =====
-- The entries of the table under its operations.
use memory_tools.Pointer.Resolver.{PointerChainRef}
use memory_tools.Prelude.{
  ℕ, zero, suc, ◌≤◌, ◌<◌, ◌≡◌, refl, true, false, List, [], ◌∷◌, ◌++◌, none, some, Bytes, ltb,
  lt→leb, le→leb, ◌-◌, length, remove_at, get_elem?, if◌then◌else◌, arith, length-append,
}
use memory_tools.Table.{
  AddressEntry, AddressTable, add, add_chain, fixed_address, remove, get_entry,
}
use memory_tools.Types.{DataType}

get-append_at {ℓ} :
    {A : Type ℓ} (xs : List A) (x : A) → get_elem? (xs ++ (x ∷ [])) (length xs) ≡ some x
get-append_at [] x = refl
get-append_at (y ∷ xs) x = get-append_at xs x

get-append_lt {ℓ} :
    {A : Type ℓ} (xs ys : List A) (i : ℕ) → i < length xs → get_elem? (xs ++ ys) i ≡ get_elem? xs i
get-append_lt [] ys i h = absurd (omega arith)
get-append_lt (x ∷ xs) ys zero h = refl
get-append_lt (x ∷ xs) ys (suc i) h = get-append_lt xs ys i (omega arith)

-- `add` returns the index at which `get` then has an enabled entry that is not stale, with the
-- address, the type and the description, and no chain; it leaves the entries before as they are.
pub add-get_entry :
    (entries : AddressTable) (address : ℕ) (type : DataType) (description : Bytes)
    → (get_entry (add entries address type description).0 (add entries address type description).1
        ≡ some (record {
          address = address;
          type = type;
          description = description;
          enabled = true;
          stale = false;
          ptr = none;
        }))
      × ((i : ℕ)
          → i < length entries
          → get_entry (add entries address type description).0 i ≡ get_entry entries i)
unfolding add get_entry
add-get_entry entries address type description =
    let e : AddressEntry = record {
      address = address;
      type = type;
      description = description;
      enabled = true;
      stale = false;
      ptr = none;
    } in
    let last : length (entries ++ (e ∷ [])) - 1 ≡ length entries =
      omega (arith, length-append entries (e ∷ [])) in
    (rw last (get-append_at entries e), λ i h. get-append_lt entries (e ∷ []) i h)

-- The entry of a chain stands at the index that `add` returns.
pub add_chain-get_entry :
    (entries : AddressTable) (chain : PointerChainRef) (description : Bytes)
    → (e : AddressEntry) × (get_entry
          (add_chain entries chain description).0
          (add_chain entries chain description).1
        ≡ some e)
      × (e.ptr ≡ some chain)
      × (e.type ≡ chain.value_type)
unfolding add_chain get_entry
add_chain-get_entry entries chain description =
    let e : AddressEntry = record {
      address = fixed_address chain.root;
      type = chain.value_type;
      description = description;
      enabled = true;
      stale = false;
      ptr = some chain;
    } in
    let last : length (entries ++ (e ∷ [])) - 1 ≡ length entries =
      omega (arith, length-append entries (e ∷ [])) in
    (e, rw last (get-append_at entries e), refl, refl)

get-remove_at {ℓ} :
    {A : Type ℓ} (xs : List A) (i j : ℕ)
    → i < length xs
    → get_elem? (remove_at xs i) j ≡ get_elem? xs (if ltb j i then j else suc j)
get-remove_at [] i j h = absurd (omega arith)
get-remove_at (x ∷ xs) zero j h = ground arith
get-remove_at (x ∷ xs) (suc i) zero h = ground arith
get-remove_at (x ∷ xs) (suc i) (suc j) h = ground (arith, get-remove_at xs i j (omega arith))

-- `remove` at an index of the table takes that entry out: the entries before it keep their index and
-- those behind it move down by one. At any other index it returns false and changes nothing.
pub remove-get_entry :
    (entries : AddressTable) (index : ℕ)
    → (index < length entries
        → ((remove entries index).1 ≡ true)
          × ((j : ℕ)
              → get_entry (remove entries index).0 j
                ≡ get_entry entries (if ltb j index then j else suc j)))
      × (length entries ≤ index → remove entries index ≡ (entries, false))
unfolding remove get_entry
remove-get_entry entries index = (
  λ h. rw (lt→leb (length entries) index h) (refl, λ j. get-remove_at entries index j h),
  λ h. rw (le→leb (length entries) index h) refl,
)
