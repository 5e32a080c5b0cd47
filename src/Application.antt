-- ===== src/Application.antt =====
-- Arguments of the application layer: `parse_addr` of src/application.h, and
-- `parse_pointer_scan_args` of src/application.cpp, which reads the options of a pointer scan.
pub mod Limits
pub mod Write
pub mod Machine
pub mod Scans
pub mod Pointers
pub mod Entries
pub mod Changes
use memory_tools.Numerals.{print_nat}
use memory_tools.Prelude.{
  ℕ, ◌+◌, ◌/◌, Bool, true, false, ◌&&◌, ◌||◌, List, [], ◌∷◌, ◌++◌, Option, none, some, Bytes, codes,
  bytes_eq, ◌==◌, ltb, leb, if◌then◌else◌, length, drop, is_nil, is_prefix, skip_blanks, c_string,
  ℤ, pos, negsuc,
}
use memory_tools.Table.File.{strtoull_whole}
use memory_tools.Table.Load.{is_ptr}
use memory_tools.Types.{DataType, parse_type}
use memory_tools.Types.Text.{has_hex_prefix, strtoull_in, strtoll_in}

unfoldable pub parse_addr : Bytes → Option ℕ
parse_addr s =
    if is_nil s
    then none
    else strtoull_in (if ltb 2 (length s) && has_hex_prefix s then 16 else 10) s

abbrev pub max_offset_shifts : ℕ
max_offset_shifts = 65536

-- `value_type` is none for the type of the session, and `error` is empty for valid arguments; with an
-- error, the other fields mean nothing.
pub record PointerScanArgs : Type 0 where
  pub target : ℕ
  pub depth : ℕ
  pub max_offset : ℕ
  pub offset_step : ℕ
  pub include_code : Bool
  pub module_only : Bool
  pub value_type : Option DataType
  pub error : Bytes

abbrev pub default_args : PointerScanArgs
default_args = record {
  target = 0;
  depth = 3;
  max_offset = 256;
  offset_step = 8;
  include_code = false;
  module_only = false;
  value_type = none;
  error = [];
}

-- Whether the function goes on with what it has, or returns it.
pub data Parsed : Type 0 where
  going rejected : PointerScanArgs → Parsed

abbrev pub reject : PointerScanArgs → Bytes → Parsed
reject out message = rejected (record out { error = message })

abbrev pub next : Parsed → (PointerScanArgs → Parsed) → Parsed
next (going out) f = f out
next (rejected out) f = rejected out

abbrev pub returned : Parsed → PointerScanArgs
returned (going out) = out
returned (rejected out) = out

abbrev pub or_empty : Bytes → Bytes
or_empty s = if is_nil s then codes "(vacio)" else s

abbrev pub bad_depth : PointerScanArgs → Bytes → Parsed
bad_depth out d =
    reject out (codes "depth debe estar entre 1 y 7 (obtenido: " ++ (or_empty d ++ codes ")"))

unfoldable pub depth_option : PointerScanArgs → Bytes → Option ℤ → Parsed
depth_option out d none = bad_depth out d
depth_option out d (some (negsuc n)) = bad_depth out d
depth_option out d (some (pos n)) =
    if ltb n 1 || ltb 7 n then bad_depth out d else going (record out { depth = n })

unfoldable pub offset_option : PointerScanArgs → Bytes → Option ℕ → Parsed
offset_option out v none = reject out (codes "max_offset invalido (maximo 0x10000): " ++ or_empty v)
offset_option out v (some x) =
    if ltb 65536 x
    then reject out (codes "max_offset invalido (maximo 0x10000): " ++ or_empty v)
    else going (record out { max_offset = x })

unfoldable pub step_option : PointerScanArgs → Bytes → Option ℕ → Parsed
step_option out v none = reject out (codes "offset_step debe ser mayor que 0: " ++ or_empty v)
step_option out v (some x) =
    if x == 0
    then reject out (codes "offset_step debe ser mayor que 0: " ++ or_empty v)
    else going (record out { offset_step = x })

unfoldable pub type_option : PointerScanArgs → Bytes → Option DataType → Parsed
type_option out v none = reject out (codes "Tipo invalido: " ++ v)
type_option out v (some t) =
    if is_ptr t
    then reject out (codes "Tipo invalido: " ++ v)
    else going (record out { value_type = some t })

-- `strtoull` with base 0 and the tests after it, on any text.
abbrev pub any_base : Bytes → Option ℕ
any_base v = strtoull_whole (skip_blanks (c_string v))

unfoldable pub parse_option : Bytes → PointerScanArgs → Parsed
parse_option tok out =
    if bytes_eq tok (codes "code")
    then going (record out { include_code = true })
    else if bytes_eq tok (codes "module-only")
    then going (record out { module_only = true })
    else if is_prefix (codes "depth=") tok
    then depth_option out (drop 6 tok) (strtoll_in 10 (drop 6 tok))
    else if is_prefix (codes "max_offset=") tok
    then offset_option out (drop 11 tok) (any_base (drop 11 tok))
    else if is_prefix (codes "offset_step=") tok
    then step_option out (drop 12 tok) (any_base (drop 12 tok))
    else if is_prefix (codes "type=") tok
    then type_option out (drop 5 tok) (parse_type (drop 5 tok))
    else reject out (codes "Opcion desconocida: " ++ tok)

unfoldable pub parse_options : List Bytes → PointerScanArgs → Parsed
parse_options [] out = going out
parse_options (tok ∷ toks) out = next (parse_option tok out) (parse_options toks)

-- The limit on the offsets tried for each target.
unfoldable pub check_window : PointerScanArgs → Parsed
check_window out =
    let n_offsets = out.max_offset / out.offset_step + 1 in
    if ltb max_offset_shifts n_offsets
    then reject out (
        codes "La ventana de offsets es demasiado grande: "
        ++ (print_nat n_offsets
            ++ (codes " offsets por objetivo (maximo "
                ++ (print_nat max_offset_shifts
                    ++ codes "). Reduce max_offset o aumenta offset_step."))))
    else going out

unfoldable pub with_target : Bytes → List Bytes → Option ℕ → Parsed
with_target arg toks none = reject default_args (codes "Direccion invalida: " ++ arg)
with_target arg toks (some a) =
    next (parse_options toks (record default_args { target = a })) check_window

unfoldable pub parse_pointer_scan_args : List Bytes → PointerScanArgs
parse_pointer_scan_args [] = record default_args {
  error =
      codes
        "Uso: pointer scan <direccion> [depth=N] [max_offset=X] [offset_step=S] [module-only] [code] [type=T]";
}
parse_pointer_scan_args (arg ∷ toks) = returned (with_target arg toks (parse_addr arg))
