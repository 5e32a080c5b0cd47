-- ===== src/Web/Json/RoundTrip/Values.antt =====
-- Reading back a written value without doubles.
use mathlib.Core.List.{append_assoc, append-nil}
use memory_tools.Numerals.{print_int}
use memory_tools.Prelude.{
  head_is, is_prefix, ℕ, zero, suc, ◌+◌, ◌*◌, ◌≤◌, ◌≡◌, refl, true, false, Bytes, [], ◌∷◌, ◌++◌,
  length, arith, length-append, lt→leb, le→ltb, pos, negsuc, codes,
}
use memory_tools.Web.Json.{
  Doubles, JsonValue, Items, Fields, null, bool, int, uint, double, string, array, object, no_items,
  item, no_fields, field, max_depth, max_input,
}
use memory_tools.Web.Json.Limits.{Within}
use memory_tools.Web.Json.Limits.Values.{parse-Within}
use memory_tools.Web.Json.Parser.{start_of, parse_value, parse, with_offset}
use memory_tools.Web.Json.RoundTrip.Digits.{}
use memory_tools.Web.Json.RoundTrip.Numbers.{
  print_nat-StartsNumber, parse_number-print_nat, parse_number-print_large,
  parse_number-print_negative,
}
use memory_tools.Web.Json.Runs.{ok}
use memory_tools.Web.Json.Text.{is_space, skip_ws}
use memory_tools.Web.Json.Writer.{write_value, write_items, write_fields, write, write_escaped}
use memory_tools.Web.Json.RoundTrip.Elements.{
  NoDouble, Opens, ReadsValue, ReadsItems, ReadsFields, write_value-Opens, parse_literal-append,
  reads_last, reads_more, key_text, reads_last_field, reads_more_fields,
}

module _ (c : Doubles) where
  items_open :
      (depth : ℕ) (v : JsonValue) (xs : Items) (rest : Bytes)
      → Within depth v
      → NoDouble v
      → Opens (write_items c true (item v xs) ++ rest)
  unfolding write_items
  items_open depth v xs rest w nd =
      rw (append_assoc (write_value c v) (write_items c false xs) rest)
        (write_value-Opens c depth v (write_items c false xs ++ rest) w nd)

  fields_open :
      (k : Bytes) (v : JsonValue) (fs : Fields) (rest : Bytes)
      → (skip_ws (write_fields c true (field k v fs) ++ rest)
          ≡ write_fields c true (field k v fs) ++ rest)
        × (head_is b'}' (write_fields c true (field k v fs) ++ rest) ≡ false)
  unfolding write_fields write_escaped skip_ws is_space head_is
  fields_open k v fs rest = (refl, refl)

  reads_array : (xs : Items) → ReadsItems c xs → ReadsValue c (array xs)
  unfolding parse_value write_value Within NoDouble skip_ws is_space start_of head_is
  reads_array xs read zero depth rest w nd k hf = absurd (omega arith)
  reads_array xs read (suc zero) depth rest w nd k hf = absurd (omega arith)
  reads_array no_items read (suc (suc f)) depth rest w nd k hf =
      rw (lt→leb max_depth depth w.0) refl
  reads_array (item v xs) read (suc (suc f)) depth rest w nd k hf =
      let printed = write_items c true (item v xs) in
      let opens = items_open (suc depth) v xs (b']' ∷ rest) w.1.0 nd.0 in
      rw
        (
          append_assoc printed (b']' ∷ []) rest,
          lt→leb max_depth depth w.0,
          opens.0,
          opens.1,
          read f (suc depth) rest w.1 nd (omega (arith, length-append printed (b']' ∷ []))),
        )
        refl

  reads_object : (fs : Fields) → ReadsFields c fs → ReadsValue c (object fs)
  unfolding parse_value write_value Within NoDouble skip_ws is_space start_of head_is
  reads_object fs read zero depth rest w nd k hf = absurd (omega arith)
  reads_object fs read (suc zero) depth rest w nd k hf = absurd (omega arith)
  reads_object no_fields read (suc (suc f)) depth rest w nd k hf =
      rw (lt→leb max_depth depth w.0) refl
  reads_object (field key v fs) read (suc (suc f)) depth rest w nd k hf =
      let printed = write_fields c true (field key v fs) in
      let opens = fields_open key v fs (b'}' ∷ rest) in
      rw
        (
          append_assoc printed (b'}' ∷ []) rest,
          lt→leb max_depth depth w.0,
          opens.0,
          opens.1,
          read f (suc depth) rest w.1 nd (omega (arith, length-append printed (b'}' ∷ []))),
        )
        refl

  abbrev Leaf : JsonValue → Type 0
  Leaf (array xs) = ⊥
  Leaf (object fs) = ⊥
  Leaf _ = Unit

  reads-Leaf : (v : JsonValue) → Leaf v → ReadsValue c v
  unfolding parse_value write_value Within NoDouble skip_ws is_space start_of print_int
      write_escaped
  reads-Leaf v l zero depth rest w nd k hf = absurd (omega arith)
  reads-Leaf null l (suc f) depth rest w nd k hf =
      unfold is_prefix in parse_literal-append c (codes "null") rest null refl refl k
  reads-Leaf (bool true) l (suc f) depth rest w nd k hf =
      unfold is_prefix in parse_literal-append c (codes "true") rest (bool true) refl refl k
  reads-Leaf (bool false) l (suc f) depth rest w nd k hf =
      unfold is_prefix in parse_literal-append c (codes "false") rest (bool false) refl refl k
  reads-Leaf (int (pos n)) l (suc f) depth rest w nd k hf =
      let starts = print_nat-StartsNumber n rest (omega arith) in
      rw (starts.0, starts.1, parse_number-print_nat c n rest w k) refl
  reads-Leaf (int (negsuc n)) l (suc f) depth rest w nd k hf =
      rw (parse_number-print_negative c n rest w k) refl
  reads-Leaf (uint n) l (suc f) depth rest w nd k hf =
      let starts = print_nat-StartsNumber n rest w.1 in
      rw (starts.0, starts.1, parse_number-print_large c n rest w.0 w.1 k) refl
  reads-Leaf (double d) l (suc f) depth rest w nd k hf = absurd nd
  reads-Leaf (string s) l (suc f) depth rest w nd k hf = rw (key_text c s rest w) refl
  reads-Leaf (array xs) l (suc f) depth rest w nd k hf = absurd l
  reads-Leaf (object fs) l (suc f) depth rest w nd k hf = absurd l

  reads_item :
      (v : JsonValue) (xs : Items) → ReadsValue c v → ReadsItems c xs → ReadsItems c (item v xs)
  reads_item v no_items read more = reads_last c v read
  reads_item v (item u xs) read more = reads_more c v u xs read more

  reads_field :
      (k : Bytes) (v : JsonValue) (fs : Fields)
      → ReadsValue c v
      → ReadsFields c fs
      → ReadsFields c (field k v fs)
  reads_field k v no_fields read more = reads_last_field c k v read
  reads_field k v (field k' u fs) read more = reads_more_fields c k v k' u fs read more

  parse_value-ReadsValue : (v : JsonValue) → ReadsValue c v
  parse_value-ReadsValue v = elim v as (ReadsValue c) (ReadsItems c) (ReadsFields c) [
    | null ↦ reads-Leaf null tt
    | bool b ↦ reads-Leaf (bool b) tt
    | int i ↦ reads-Leaf (int i) tt
    | uint u ↦ reads-Leaf (uint u) tt
    | double d ↦ reads-Leaf (double d) tt
    | string s ↦ reads-Leaf (string s) tt
    | array (xs → ih) ↦ reads_array xs ih
    | object (fs → ih) ↦ reads_object fs ih
    | no_items ↦ tt
    | item (v → ih) (xs → ihs) ↦ reads_item v xs ih ihs
    | no_fields ↦ tt
    | field k (v → ih) (fs → ihs) ↦ reads_field k v fs ih ihs
  ]

-- A value without doubles that is within the parser's limits, and whose text is no longer than the
-- input limit, is read back from what the writer writes.
pub parse-write :
    (c : Doubles) (v : JsonValue)
    → Within 0 v
    → NoDouble v
    → length (write c v) ≤ max_input
    → parse c (write c v) ≡ ok v
unfolding parse write with_offset skip_ws
parse-write c v w nd h =
    let whole =
      parse_value-ReadsValue c v (3 * length (write_value c v) + 3) 0 [] w nd tt (omega arith) in
    rw (le→ltb max_input (length (write_value c v)) h, rw append-nil at whole) refl

-- Whatever text a value without doubles was read from, writing it and reading it again gives the
-- value, if what is written is no longer than the input limit.
pub parse-write-parse :
    (c : Doubles) (text : Bytes) (v : JsonValue)
    → parse c text ≡ ok v
    → NoDouble v
    → length (write c v) ≤ max_input
    → parse c (write c v) ≡ ok v
parse-write-parse c text v h nd = parse-write c v (parse-Within c text v h) nd
