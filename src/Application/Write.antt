-- ===== src/Application/Write.antt =====
-- `write_value_at` of src/application.cpp: a value is written to a process and read again. What the
-- kernel does is a parameter.
pub mod Checked
pub mod Entry
use memory_tools.Memory.{Region, region_at, writable}
use memory_tools.Numerals.{print_int}
use memory_tools.Prelude.{
  ℕ, Bool, true, false, not, List, [], ◌++◌, Option, none, some, Bytes, codes, ◌==◌, if◌then◌else◌,
  length, ℤ, pos, negsuc,
}
use memory_tools.Table.File.{hex_short}
use memory_tools.Types.{DataType, Floats, type_size, value_bytes, value_equal, value_from_bytes}

-- `pread` and `pwrite` on the memory of a process, whose state is `S`: a failed read is none, and the
-- number that `write` gives is what `pwrite` returns.
pub record Access {ℓ} (S : Type ℓ) : Type ℓ where
  pub read : S → ℕ → ℕ → Option Bytes
  pub write : S → ℕ → Bytes → S × ℤ

pub record WriteOutcome : Type 0 where
  pub ok : Bool
  pub error : Bytes
  pub address : ℕ
  pub type : DataType
  pub had_old : Bool
  pub old_value : ℕ
  pub wrote : Bool
  pub new_value : ℕ
  pub verified : Bool

abbrev pub no_write : ℕ → DataType → WriteOutcome
no_write addr type = record {
  ok = false;
  error = [];
  address = addr;
  type = type;
  had_old = false;
  old_value = 0;
  wrote = false;
  new_value = 0;
  verified = false;
}

-- The bytes of a read that gave as many as it was asked for.
abbrev pub whole : ℕ → Option Bytes → Option Bytes
whole w none = none
whole w (some bytes) = if length bytes == w then some bytes else none

abbrev pub is_count : ℕ → ℤ → Bool
is_count w (pos n) = n == w
is_count w (negsuc n) = false

module _ {ℓ} {S : Type ℓ} (mem : Access S) (fl : Floats) (value : ℕ) where
  -- The value is read again.
  unfoldable pub verify : S → WriteOutcome → Option Bytes → S × WriteOutcome
  verify st o none = (st, o)
  verify st o (some ver) =
      let new = value_from_bytes ver (type_size o.type) in
      (
        st,
        record o {
          ok = true;
          wrote = true;
          new_value = new;
          verified = value_equal fl new value o.type;
        },
      )

  unfoldable pub write_over : S → WriteOutcome → Option Bytes → S × WriteOutcome
  unfolding verify
  write_over st o none =
      (st, record o { error = codes "No se pudo leer el valor actual en " ++ hex_short o.address })
  write_over st o (some cur) =
      let w = type_size o.type in
      let old = record o { had_old = true; old_value = value_from_bytes cur w } in
      let (after, count) = mem.write st o.address (value_bytes w value) in
      if not (is_count w count)
      then (
        after,
        record old {
          error = codes "Error de escritura (" ++ (print_int count ++ codes " bytes escritos)");
        },
      )
      else verify after old (whole w (mem.read after o.address w))

  unfoldable pub write_in : S → WriteOutcome → Option Region → S × WriteOutcome
  unfolding write_over
  write_in st o none = (
    st,
    record o {
      error =
          codes "La direccion " ++ (hex_short o.address ++ codes " no pertenece a ninguna region.");
    },
  )
  write_in st o (some r) =
      if not (writable r)
      then (
        st,
        record o { error = codes "La region no es escribible (" ++ (r.perms ++ codes ").") },
      )
      else write_over st o (whole (type_size o.type) (mem.read st o.address (type_size o.type)))

  unfoldable pub write_value_at : S → List Region → ℕ → DataType → S × WriteOutcome
  unfolding write_in
  write_value_at st regions addr type = write_in st (no_write addr type) (region_at regions addr)
