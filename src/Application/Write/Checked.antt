-- ===== src/Application/Write/Checked.antt =====
-- When `write_value_at` writes, and that what it wrote is what it reads again.
use memory_tools.Application.Write.{
  Access, WriteOutcome, no_write, is_count, verify, write_over, write_in, write_value_at,
}
use memory_tools.Memory.{Region, region_at, writable}
use memory_tools.Prelude.{
  ℕ, ◌≤◌, ◌<◌, ◌%◌, ◌^◌, ◌*◌, ◌≡◌, ◌⊎◌, inl, inr, refl, sym, ap, ◌∙◌, true, false, not, List,
  Option, none, some, Bytes, length, pos, Bool-cases, arith, eq→==,
}
use native.Mathlib.Nat.{mod-le, mod-mod}
use memory_tools.Types.{i8, DataType, Floats, type_size, value_bytes, value_from_bytes}
use memory_tools.Types.ByteOrder.{length-value_bytes, value_from_bytes-value_bytes}
use memory_tools.Types.Order.{is_integral, value_equal-bits}

-- The bytes of a write of full length are read again as they were written.
abbrev pub ReadsBack {ℓ} : {S : Type ℓ} → Access S → Type ℓ
ReadsBack {S = S} mem =
    (st : S) (a : ℕ) (bytes : Bytes)
    → (mem.write st a bytes).1 ≡ pos (length bytes)
    → mem.read (mem.write st a bytes).0 a (length bytes) ≡ some bytes

bits_of_type :
    (t : DataType)
    → is_integral t ≡ true
    → (type_size t ≤ 8) × (256 ^ type_size t ≡ 2 ^ (8 * type_size t))
unfolding type_size
bits_of_type i8 h = (omega arith, refl)
bits_of_type _ h = ground arith

module _ {ℓ} {S : Type ℓ} (mem : Access S) (fl : Floats) (value : ℕ) where
  verify-state :
      (st : S) (o : WriteOutcome) (ver : Option Bytes) → (verify mem fl value st o ver).0 ≡ st
  unfolding verify
  verify-state st o none = refl
  verify-state st o (some ver) = refl

  -- The process is left alone and no old value is given, or the value was written once.
  abbrev pub Guarded : S → ℕ → DataType → S × WriteOutcome → Type ℓ
  Guarded st addr type out =
      ((out.1.had_old ≡ false) × (out.0 ≡ st))
      ⊎ (out.0 ≡ (mem.write st addr (value_bytes (type_size type) value)).0)

  write_over-Guarded :
      (st : S) (o : WriteOutcome) (old : Option Bytes)
      → o.had_old ≡ false
      → Guarded st o.address o.type (write_over mem fl value st o old)
  unfolding write_over
  write_over-Guarded st o none h = inl (h, refl)
  write_over-Guarded st o (some cur) h =
      let result = mem.write st o.address (value_bytes (type_size o.type) value) in
      elim (Bool-cases (not (is_count (type_size o.type) result.1))) [
        | inl e ↦ rw e (inr refl)
        | inr e ↦ rw e (inr (verify-state _ _ _))
      ]

  write_in-Guarded :
      (st : S) (o : WriteOutcome) (r : Option Region)
      → o.had_old ≡ false
      → ((write_in mem fl value st o r).1.had_old ≡ false) × ((write_in mem fl value st o r).0 ≡ st)
        ⊎ ((held : Region) × (r ≡ some held)
            × (writable held ≡ true)
            × Guarded st o.address o.type (write_in mem fl value st o r))
  unfolding write_in
  write_in-Guarded st o none h = inl (h, refl)
  write_in-Guarded st o (some r) h = elim (Bool-cases (writable r)) [
    | inl e ↦ inr (r, refl, e, rw e (write_over-Guarded st o _ h))
    | inr e ↦ inl (rw e (h, refl))
  ]

  -- Either the process is left alone and no old value is given, or the address lies in a writable
  -- region, and then the process is left alone without an old value or the bytes of the value have
  -- been written at the address, once.
  pub write_value_at-Guarded :
      (st : S) (regions : List Region) (addr : ℕ) (type : DataType)
      → ((write_value_at mem fl value st regions addr type).1.had_old ≡ false)
          × ((write_value_at mem fl value st regions addr type).0 ≡ st)
        ⊎ ((held : Region) × (region_at regions addr ≡ some held)
            × (writable held ≡ true)
            × Guarded st addr type (write_value_at mem fl value st regions addr type))
  unfolding write_value_at
  write_value_at-Guarded st regions addr type =
      write_in-Guarded st (no_write addr type) (region_at regions addr) refl

  verify-written :
      (st : S) (o : WriteOutcome)
      → is_integral o.type ≡ true
      → value < 2 ^ 64
      → ((verify mem fl value st o (some (value_bytes (type_size o.type) value))).1.ok ≡ true)
        × ((verify mem fl value st o (some (value_bytes (type_size o.type) value))).1.new_value
            ≡ value % 2 ^ (8 * type_size o.type))
        × ((verify mem fl value st o (some (value_bytes (type_size o.type) value))).1.verified
            ≡ true)
  unfolding verify
  verify-written st o h v =
      let (short, same) = bits_of_type o.type h in
      let back : value_from_bytes (value_bytes (type_size o.type) value) (type_size o.type)
          ≡ value % 2 ^ (8 * type_size o.type) =
        value_from_bytes-value_bytes (type_size o.type) value short ∙ ap (λ m. value % m) same in
      (
        refl,
        back,
        rw
            (
              back,
              value_equal-bits fl (value % 2 ^ (8 * type_size o.type)) value o.type
                  (omega (arith, mod-le value (2 ^ (8 * type_size o.type)))) v h,
            )
            (eq→== _ _ (mod-mod value (2 ^ (8 * type_size o.type)))),
      )

  -- Where the kernel reads back what it has written: a value of an integral type is written to an
  -- address in a writable region, if the old value can be read whole and the write takes all of its
  -- bytes; then the outcome is a success, verified, and its new value has the bits of the value that
  -- fit the type.
  pub write_value_at-verified :
      (st : S) (regions : List Region) (addr : ℕ) (type : DataType) (r : Region) (cur : Bytes)
      → ReadsBack mem
      → is_integral type ≡ true
      → value < 2 ^ 64
      → region_at regions addr ≡ some r
      → writable r ≡ true
      → mem.read st addr (type_size type) ≡ some cur
      → length cur ≡ type_size type
      → (mem.write st addr (value_bytes (type_size type) value)).1 ≡ pos (type_size type)
      → ((write_value_at mem fl value st regions addr type).1.ok ≡ true)
        × ((write_value_at mem fl value st regions addr type).1.new_value
            ≡ value % 2 ^ (8 * type_size type))
        × ((write_value_at mem fl value st regions addr type).1.verified ≡ true)
  unfolding write_value_at write_in write_over
  write_value_at-verified st regions addr type r cur back h v found w old len count =
      let n = type_size type in
      let full = length-value_bytes n value in
      let read_again : mem.read (mem.write st addr (value_bytes n value)).0 addr n
          ≡ some (value_bytes n value) =
        rw full at (back st addr (value_bytes n value) (count ∙ ap pos (sym full))) in
      rw
        (found, w, old, eq→== (length cur) n len, count, eq→== n n refl, read_again, eq→== _ n full)
        (verify-written (mem.write st addr (value_bytes n value)).0
          (record (no_write addr type) { had_old = true; old_value = value_from_bytes cur n }) h v)
