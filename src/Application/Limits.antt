-- ===== src/Application/Limits.antt =====
-- The bounds of the arguments that `parse_pointer_scan_args` lets through.
use memory_tools.Application.{
  PointerScanArgs, default_args, Parsed, going, rejected, next, returned, depth_option,
  offset_option, step_option, type_option, parse_option, parse_options, check_window, with_target,
  parse_addr, parse_pointer_scan_args, max_offset_shifts,
}
use memory_tools.Pointer.Scan.{PointerScanOptions, offsets_from, step_of, window_offsets}
use memory_tools.Prelude.{
  zero, suc, ◌∷◌, length, ℕ, ◌+◌, ◌/◌, ◌≤◌, ◌<◌, ◌≡◌, refl, Bool, true, false, List, [], Option,
  none, some, Bytes, codes, bytes_eq, is_nil, is_prefix, drop, ◌==◌, ltb, ◌||◌, if◌then◌else◌, ap,
  Bool-cases, inl, inr, arith, ℤ, pos, negsuc,
}
use memory_tools.Table.Load.{is_ptr}
use memory_tools.Types.{DataType}

-- The type is not a pointer type.
abbrev pub NoPointer : Option DataType → Type 0
NoPointer none = Unit
NoPointer (some t) = is_ptr t ≡ false

abbrev pub InRange : PointerScanArgs → Type 0
InRange o =
    (1 ≤ o.depth)
    × (o.depth ≤ 7)
    × (o.max_offset ≤ 65536)
    × (0 < o.offset_step)
    × NoPointer o.value_type

abbrev Keeps : Parsed → Type 0
Keeps (going o) = InRange o
Keeps (rejected o) = is_nil o.error ≡ false

Keeps-if : (b : Bool) (p q : Parsed) → Keeps p → (b ≡ false → Keeps q) → Keeps (if b then p else q)
Keeps-if true p q hp hq = hp
Keeps-if false p q hp hq = hq refl

Keeps-next :
    (p : Parsed) (f : PointerScanArgs → Parsed)
    → Keeps p
    → ((o : PointerScanArgs) → InRange o → Keeps (f o))
    → Keeps (next p f)
Keeps-next (going o) f h k = k o h
Keeps-next (rejected o) f h k = h

depth_option-Keeps :
    (o : PointerScanArgs) (d : Bytes) (v : Option ℤ) → InRange o → Keeps (depth_option o d v)
unfolding depth_option
depth_option-Keeps o d none h = refl
depth_option-Keeps o d (some (negsuc n)) h = refl
depth_option-Keeps o d (some (pos n)) h =
    Keeps-if (ltb n 1 || ltb 7 n) _ _ refl λ e. (ground arith, ground arith, h.2, h.3, h.4)

offset_option-Keeps :
    (o : PointerScanArgs) (v : Bytes) (x : Option ℕ) → InRange o → Keeps (offset_option o v x)
unfolding offset_option
offset_option-Keeps o v none h = refl
offset_option-Keeps o v (some x) h =
    Keeps-if (ltb 65536 x) _ _ refl λ e. (h.0, h.1, ground arith, h.3, h.4)

step_option-Keeps :
    (o : PointerScanArgs) (v : Bytes) (x : Option ℕ) → InRange o → Keeps (step_option o v x)
unfolding step_option
step_option-Keeps o v none h = refl
step_option-Keeps o v (some x) h =
    Keeps-if (x == 0) _ _ refl λ e. (h.0, h.1, h.2, ground arith, h.4)

type_option-Keeps :
    (o : PointerScanArgs) (v : Bytes) (t : Option DataType) → InRange o → Keeps (type_option o v t)
unfolding type_option
type_option-Keeps o v none h = refl
type_option-Keeps o v (some t) h = Keeps-if (is_ptr t) _ _ refl λ e. (h.0, h.1, h.2, h.3, e)

parse_option-Keeps : (tok : Bytes) (o : PointerScanArgs) → InRange o → Keeps (parse_option tok o)
unfolding parse_option
parse_option-Keeps tok o h = Keeps-if (bytes_eq tok (codes "code")) _ _ h λ _.
    Keeps-if (bytes_eq tok (codes "module-only")) _ _ h λ _.
      Keeps-if (is_prefix (codes "depth=") tok) _ _ (depth_option-Keeps o (drop 6 tok) _ h) λ _.
        Keeps-if (is_prefix (codes "max_offset=") tok) _ _ (offset_option-Keeps o (drop 11 tok) _ h)
          λ _.
            Keeps-if (is_prefix (codes "offset_step=") tok) _ _
              (step_option-Keeps o (drop 12 tok) _ h)
              λ _.
                Keeps-if (is_prefix (codes "type=") tok) _ _ (type_option-Keeps o (drop 5 tok) _ h)
                  λ _. refl

parse_options-Keeps :
    (toks : List Bytes) (o : PointerScanArgs) → InRange o → Keeps (parse_options toks o)
unfolding parse_options
parse_options-Keeps [] o h = h
parse_options-Keeps (tok ∷ toks) o h =
    Keeps-next (parse_option tok o) (parse_options toks) (parse_option-Keeps tok o h)
      (parse_options-Keeps toks)

-- What is returned without an error is in range and has a small window.
abbrev Accepted : PointerScanArgs → Type 0
Accepted o = InRange o × (o.max_offset / o.offset_step + 1 ≤ max_offset_shifts)

check_window-Accepted :
    (o : PointerScanArgs)
    → InRange o
    → is_nil (returned (check_window o)).error ≡ true
    → Accepted (returned (check_window o))
unfolding check_window
check_window-Accepted o h e =
    elim (Bool-cases (ltb max_offset_shifts (o.max_offset / o.offset_step + 1))) [
      | inl big ↦ cc (rw big at e)
      | inr small ↦ rw small (h, ground arith)
    ]

options-Accepted :
    (p : Parsed)
    → Keeps p
    → is_nil (returned (next p check_window)).error ≡ true
    → Accepted (returned (next p check_window))
options-Accepted (going o) h e = check_window-Accepted o h e
options-Accepted (rejected o) h e = cc

with_target-Accepted :
    (arg : Bytes) (toks : List Bytes) (a : Option ℕ)
    → is_nil (returned (with_target arg toks a)).error ≡ true
    → Accepted (returned (with_target arg toks a))
unfolding with_target
with_target-Accepted arg toks none e = cc
with_target-Accepted arg toks (some a) e =
    options-Accepted (parse_options toks (record default_args { target = a }))
      (parse_options-Keeps toks _ (omega arith, omega arith, omega arith, omega arith, tt)) e

length-offsets_from : (n step o : ℕ) → length (offsets_from n step o) ≡ n
length-offsets_from zero step o = refl
length-offsets_from (suc n) step o = ap suc (length-offsets_from n step (o + step))

step_of-positive :
    (opts : PointerScanOptions) → 0 < opts.offset_step → step_of opts ≡ opts.offset_step
step_of-positive opts h = elim (Bool-cases (opts.offset_step == 0)) [
  | inl e ↦ absurd (ground arith)
  | inr e ↦ rw e refl
]

-- Arguments that are returned without an error have a depth from 1 to 7, offsets of at most 0x10000
-- in steps that are not 0, and no pointer type for the value; and a scan with their offsets tries
-- at most 65536 of them for each target.
pub parse_pointer_scan_args-InRange :
    (args : List Bytes) (opts : PointerScanOptions)
    → is_nil (parse_pointer_scan_args args).error ≡ true
    → opts.max_offset ≡ (parse_pointer_scan_args args).max_offset
    → opts.offset_step ≡ (parse_pointer_scan_args args).offset_step
    → InRange (parse_pointer_scan_args args) × (length (window_offsets opts) ≤ max_offset_shifts)
unfolding parse_pointer_scan_args
parse_pointer_scan_args-InRange [] opts e m s = cc
parse_pointer_scan_args-InRange (arg ∷ toks) opts e m s =
    let a = with_target-Accepted arg toks (parse_addr arg) e in
    let positive : 0 < opts.offset_step = omega (arith, s, a.0.3) in
    (
      a.0,
      rw
          (
            length-offsets_from (opts.max_offset / step_of opts + 1) (step_of opts) 0,
            step_of-positive opts positive,
            m,
            s,
          )
          a.1,
    )
