-- ===== src/Pointer/HashSet.antt =====
-- The hash set of the pointer scanner (src/pointer.h and pointer.cpp, FlatHashSet). `std::sort` is a
-- parameter. A probe looks at each slot once at most, which is the fuel of its loop, and the
-- capacity, which doubles from 8, is large enough behind as many rounds as twice the values.
use memory_tools.Prelude.{
  ℕ, zero, suc, ◌+◌, ◌-◌, ◌*◌, ◌/◌, ◌^◌, Bool, true, false, not, ◌&&◌, List, [], ◌∷◌, ◌==◌, ltb,
  if◌then◌else◌, length, get_or, set, replicate, u64, bit_and, bit_xor,
}

abbrev mix_shift : ℕ → ℕ
mix_shift x = bit_xor x (x / 2 ^ 33)

unfoldable pub mix64 : ℕ → ℕ
mix64 x =
    mix_shift (u64 (mix_shift (u64 (mix_shift x * 18397679294719823053)) * 14181476777654086739))

pub record FlatHashSet : Type 0 where
  pub slots : List ℕ
  pub slot_mask : ℕ
  pub held : ℕ

abbrev empty_set : FlatHashSet
empty_set = record { slots = []; slot_mask = 0; held = 0 }

-- `std::unique` on a sorted list.
unfoldable pub unique : List ℕ → List ℕ
unique [] = []
unique (x ∷ []) = x ∷ []
unique (x ∷ y ∷ xs) = if x == y then unique (y ∷ xs) else x ∷ unique (y ∷ xs)

unfoldable pub capacity : ℕ → ℕ → ℕ → ℕ
capacity zero n cap = cap
capacity (suc fuel) n cap = elim (ltb cap (n * 2)) [
  | true ↦ capacity fuel n (cap * 2)
  | false ↦ cap
]

-- The slot at which the loop of `insert` stops.
unfoldable pub probe : ℕ → List ℕ → ℕ → ℕ → ℕ → ℕ
probe zero slots mask v i = i
probe (suc fuel) slots mask v i =
    elim (not (get_or slots i 0 == 0) && not (get_or slots i 0 == v)) [
      | true ↦ probe fuel slots mask v (bit_and (i + 1) mask)
      | false ↦ i
    ]

unfoldable pub insert_value : ℕ → FlatHashSet → FlatHashSet
insert_value v h =
    let i = probe (length h.slots) h.slots h.slot_mask v (bit_and (mix64 v) h.slot_mask) in
    record {
      slots = set h.slots i v;
      slot_mask = h.slot_mask;
      held = if get_or h.slots i 0 == 0 then h.held + 1 else h.held;
    }

insert_all : List ℕ → FlatHashSet → FlatHashSet
insert_all [] h = h
insert_all (v ∷ vs) h = insert_all vs (insert_value v h)

unfoldable pub build : (List ℕ → List ℕ) → List ℕ → FlatHashSet
unfolding insert_all
build sort [] = empty_set
build sort (v ∷ vs) =
    let values = unique (sort (v ∷ vs)) in
    let cap = capacity (length values * 2) (length values) 8 in
    insert_all values (record { slots = replicate cap 0; slot_mask = cap - 1; held = 0 })

search_from : ℕ → List ℕ → ℕ → ℕ → ℕ → Bool
search_from zero slots mask v i = false
search_from (suc fuel) slots mask v i = elim (get_or slots i 0 == 0) [
  | true ↦ false
  | false ↦ elim (get_or slots i 0 == v) [
    | true ↦ true
    | false ↦ search_from fuel slots mask v (bit_and (i + 1) mask)
  ]
]

unfoldable pub contains : FlatHashSet → ℕ → Bool
unfolding search_from
contains h v = search_from (length h.slots) h.slots h.slot_mask v (bit_and (mix64 v) h.slot_mask)
