-- ===== src/Web/Json/RoundTrip/Elements.antt =====
-- Reading back the elements of a written array and the members of a written object.
use mathlib.Core.List.{append_assoc}
use memory_tools.Numerals.{print_int}
use memory_tools.Prelude.{
  head_is, is_nil, is_prefix, ℕ, zero, suc, ◌+◌, ◌*◌, ◌≤◌, ◌≡◌, refl, true, false, Bytes, [], ◌∷◌,
  ◌++◌, length, arith, drop, length-append, pos, negsuc,
}
use memory_tools.Web.Json.{
  Doubles, JsonValue, Items, Fields, null, bool, int, uint, double, string, array, object, no_items,
  item, no_fields, field,
}
use memory_tools.Web.Json.Limits.{Within, WithinItems, WithinFields, FitsString}
use memory_tools.Web.Json.Number.{is_digit}
use memory_tools.Web.Json.Parser.{
  start_of, next_of, expect, parse_value, parse_members, parse_elements,
}
use memory_tools.Web.Json.RoundTrip.Digits.{Delimited, is_delimiter, StartsNumber}
use memory_tools.Web.Json.RoundTrip.Numbers.{print_nat-StartsNumber}
use memory_tools.Web.Json.RoundTrip.Strings.{parse_string-escape_string}
use memory_tools.Web.Json.Runs.{ok}
use memory_tools.Web.Json.Text.{
  parse_string, is_space, skip_ws, parse_literal, continues_word, is_alnum,
}
use memory_tools.Web.Json.Writer.{
  write_value, write_items, write_fields, write_escaped, escape_string,
}

-- No double occurs in the value.
unfoldable mutual
  pub NoDouble : JsonValue → Type 0
  NoDouble (double d) = ⊥
  NoDouble (array xs) = NoDoubleItems xs
  NoDouble (object fs) = NoDoubleFields fs
  NoDouble _ = Unit

  pub NoDoubleItems : Items → Type 0
  NoDoubleItems no_items = Unit
  NoDoubleItems (item v xs) = NoDouble v × NoDoubleItems xs

  pub NoDoubleFields : Fields → Type 0
  NoDoubleFields no_fields = Unit
  NoDoubleFields (field k v fs) = NoDouble v × NoDoubleFields fs

pub no_word : (rest : Bytes) → Delimited rest → continues_word rest ≡ false
unfolding continues_word is_alnum is_delimiter
no_word [] h = refl
no_word (c ∷ cs) h = ground arith

-- The text starts an element of an array where it stands.
abbrev pub Opens : Bytes → Type 0
Opens p = (skip_ws p ≡ p) × (head_is b']' p ≡ false) × (is_nil p ≡ false)

pub StartsNumber-Opens : (p : Bytes) → StartsNumber p → Opens p
unfolding start_of head_is is_digit
StartsNumber-Opens [] h = cc (h.1)
StartsNumber-Opens (c ∷ cs) h = (h.0, ground arith, refl)

module _ (c : Doubles) where
  pub write_value-Opens :
      (depth : ℕ) (v : JsonValue) (rest : Bytes)
      → Within depth v
      → NoDouble v
      → Opens (write_value c v ++ rest)
  unfolding write_value Within NoDouble print_int write_escaped skip_ws is_space head_is
  write_value-Opens depth null rest w nd = (refl, refl, refl)
  write_value-Opens depth (bool true) rest w nd = (refl, refl, refl)
  write_value-Opens depth (bool false) rest w nd = (refl, refl, refl)
  write_value-Opens depth (int (pos n)) rest w nd =
      StartsNumber-Opens _ (print_nat-StartsNumber n rest (omega arith))
  write_value-Opens depth (int (negsuc n)) rest w nd = (refl, refl, refl)
  write_value-Opens depth (uint n) rest w nd =
      StartsNumber-Opens _ (print_nat-StartsNumber n rest w.1)
  write_value-Opens depth (double d) rest w nd = absurd nd
  write_value-Opens depth (string s) rest w nd = (refl, refl, refl)
  write_value-Opens depth (array xs) rest w nd = (refl, refl, refl)
  write_value-Opens depth (object fs) rest w nd = (refl, refl, refl)

  pub parse_literal-append :
      (lit rest : Bytes) (val : JsonValue)
      → is_prefix lit (lit ++ rest) ≡ true
      → drop (length lit) (lit ++ rest) ≡ rest
      → Delimited rest
      → parse_literal lit val (lit ++ rest) ≡ ok (val, rest)
  unfolding parse_literal
  parse_literal-append lit rest val p d k = rw (p, d, no_word rest k) refl

  -- With enough fuel the parser reads the value off its text, where it stands inside `depth`
  -- arrays and objects.
  abbrev pub ReadsValue : JsonValue → Type 0
  ReadsValue v =
      (f depth : ℕ) (rest : Bytes)
      → Within depth v
      → NoDouble v
      → Delimited rest
      → 3 * length (write_value c v) + 3 ≤ f
      → parse_value c f depth (write_value c v ++ rest) ≡ ok (v, rest)

  -- The same of the elements up to the closing bracket; there is one at least.
  abbrev pub ReadsItems : Items → Type 0
  ReadsItems no_items = Unit
  ReadsItems (item v xs) =
      (f depth : ℕ) (rest : Bytes)
      → WithinItems depth (item v xs)
      → NoDoubleItems (item v xs)
      → 3 * length (write_items c true (item v xs)) + 4 ≤ f
      → parse_elements c f depth (write_items c true (item v xs) ++ (b']' ∷ rest))
        ≡ ok (item v xs, rest)

  abbrev pub ReadsFields : Fields → Type 0
  ReadsFields no_fields = Unit
  ReadsFields (field k v fs) =
      (f depth : ℕ) (rest : Bytes)
      → WithinFields depth (field k v fs)
      → NoDoubleFields (field k v fs)
      → 3 * length (write_fields c true (field k v fs)) + 4 ≤ f
      → parse_members c f depth (write_fields c true (field k v fs) ++ (b'}' ∷ rest))
        ≡ ok (field k v fs, rest)

  pub reads_last : (v : JsonValue) → ReadsValue v → ReadsItems (item v no_items)
  unfolding parse_elements write_items WithinItems NoDoubleItems skip_ws is_space next_of
      is_delimiter
  reads_last v read zero depth rest w nd hf = absurd (omega arith)
  reads_last v read (suc f) depth rest w nd hf =
      let tail_text = b']' ∷ rest in
      let opens = write_value-Opens depth v tail_text w.0 nd.0 in
      rw
        (
          append_assoc (write_value c v) [] tail_text,
          opens.0,
          opens.2,
          read f depth tail_text w.0 nd.0 refl (omega (arith, length-append (write_value c v) [])),
        )
        refl

  pub reads_more :
      (v u : JsonValue) (xs : Items)
      → ReadsValue v
      → ReadsItems (item u xs)
      → ReadsItems (item v (item u xs))
  unfolding parse_elements write_items WithinItems NoDoubleItems skip_ws is_space next_of
      is_delimiter
  reads_more v u xs read more zero depth rest w nd hf = absurd (omega arith)
  reads_more v u xs read more (suc f) depth rest w nd hf =
      let printed = write_items c true (item u xs) in
      let tail_text = b',' ∷ (printed ++ (b']' ∷ rest)) in
      let opens = write_value-Opens depth v tail_text w.0 nd.0 in
      let size = length-append (write_value c v) (b',' ∷ printed) in
      rw
        (
          append_assoc (write_value c v) (b',' ∷ printed) (b']' ∷ rest),
          opens.0,
          opens.2,
          read f depth tail_text w.0 nd.0 refl (omega (arith, size)),
          more f depth rest w.1 nd.1 (omega (arith, size)),
        )
        refl

  pub key_text :
      (k rest : Bytes) → FitsString k → parse_string (write_escaped k ++ rest) ≡ ok (k, rest)
  unfolding escape_string
  key_text k rest h = parse_string-escape_string k rest h

  pub key_opens :
      (k rest : Bytes)
      → (skip_ws (write_escaped k ++ rest) ≡ write_escaped k ++ rest)
        × (head_is b'"' (write_escaped k ++ rest) ≡ true)
  unfolding write_escaped skip_ws is_space head_is
  key_opens k rest = (refl, refl)

  pub reads_last_field :
      (k : Bytes) (v : JsonValue) → ReadsValue v → ReadsFields (field k v no_fields)
  unfolding parse_members write_fields WithinFields NoDoubleFields skip_ws is_space next_of
      is_delimiter expect head_is
  reads_last_field k v read zero depth rest w nd hf = absurd (omega arith)
  reads_last_field k v read (suc f) depth rest w nd hf =
      let tail_text = b'}' ∷ rest in
      let after_key = b':' ∷ (write_value c v ++ []) in
      rw
        (
          append_assoc (write_escaped k) after_key tail_text,
          (key_opens k (after_key ++ tail_text)).0,
          (key_opens k (after_key ++ tail_text)).1,
          key_text k (after_key ++ tail_text) w.0,
          append_assoc (write_value c v) [] tail_text,
          read f depth tail_text w.1 nd.0 refl (
              omega (
                arith,
                length-append (write_value c v) [],
                length-append (write_escaped k) after_key,
              )),
        )
        refl

  pub reads_more_fields :
      (k : Bytes) (v : JsonValue) (k' : Bytes) (u : JsonValue) (fs : Fields)
      → ReadsValue v
      → ReadsFields (field k' u fs)
      → ReadsFields (field k v (field k' u fs))
  unfolding parse_members write_fields WithinFields NoDoubleFields skip_ws is_space next_of
      is_delimiter expect head_is
  reads_more_fields k v k' u fs read more zero depth rest w nd hf = absurd (omega arith)
  reads_more_fields k v k' u fs read more (suc f) depth rest w nd hf =
      let printed = write_fields c true (field k' u fs) in
      let tail_text = b',' ∷ (printed ++ (b'}' ∷ rest)) in
      let after_key = b':' ∷ (write_value c v ++ (b',' ∷ printed)) in
      let size = length-append (write_value c v) (b',' ∷ printed) in
      let whole = length-append (write_escaped k) after_key in
      rw
        (
          append_assoc (write_escaped k) after_key (b'}' ∷ rest),
          (key_opens k (after_key ++ (b'}' ∷ rest))).0,
          (key_opens k (after_key ++ (b'}' ∷ rest))).1,
          key_text k (after_key ++ (b'}' ∷ rest)) w.0,
          append_assoc (write_value c v) (b',' ∷ printed) (b'}' ∷ rest),
          read f depth tail_text w.1 nd.0 refl (omega (arith, size, whole)),
          more f depth rest w.2 nd.1 (omega (arith, size, whole)),
        )
        refl
