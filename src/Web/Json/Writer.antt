-- ===== src/Web/Json/Writer.antt =====
-- The JSON writer (src/web/json.cpp). Each function gives the bytes that the source appends.
use memory_tools.Numerals.{print_nat, print_int}
use memory_tools.Prelude.{
  ℕ, ◌+◌, ◌-◌, ◌/◌, ◌%◌, ◌^◌, Bool, true, false, Option, none, some, [], ◌∷◌, ◌++◌, Bytes, codes,
  ◌==◌, ltb, if◌then◌else◌,
}
use memory_tools.Web.Json.{
  Doubles, JsonValue, Items, Fields, null, bool, int, uint, double, string, array, object, no_items,
  item, no_fields, field,
}

-- A digit of `%X`.
unfoldable pub hex_upper : ℕ → ℕ
hex_upper d = if ltb d 10 then b'0' + d else b'A' + (d - 10)

-- `\u%04X` of a byte below 0x20.
unfoldable pub write_control : ℕ → Bytes
unfolding hex_upper
write_control c =
    b'\\' ∷ b'u' ∷ hex_upper 0 ∷ hex_upper 0 ∷ hex_upper (c / 16) ∷ hex_upper (c % 16) ∷ []

unfoldable pub escape_char : ℕ → Bytes
unfolding write_control
escape_char c =
    if c == b'"'
    then b'\\' ∷ b'"' ∷ []
    else if c == b'\\'
    then b'\\' ∷ b'\\' ∷ []
    else if c == 10
    then b'\\' ∷ b'n' ∷ []
    else if c == 13
    then b'\\' ∷ b'r' ∷ []
    else if c == 9
    then b'\\' ∷ b't' ∷ []
    else if ltb c 32
    then write_control c
    else c ∷ []

unfoldable pub escape_chars : Bytes → Bytes
escape_chars [] = []
escape_chars (c ∷ cs) = escape_char c ++ escape_chars cs

unfoldable pub write_escaped : Bytes → Bytes
unfolding escape_chars
write_escaped s = b'"' ∷ (escape_chars s ++ (b'"' ∷ []))

unfoldable pub escape_string : Bytes → Bytes
unfolding write_escaped
escape_string s = write_escaped s

-- Neither NaN nor infinite: the exponent bits are not all ones.
unfoldable pub is_finite : ℕ → Bool
is_finite d = if (d / 2 ^ 52) % 2 ^ 11 == 2047 then false else true

module _ (c : Doubles) where
  unfoldable same_as : Option ℕ → ℕ → Bool
  same_as none d = false
  same_as (some e) d = c.same e d

  -- `%.15g` when it reads back as the double, else `%.17g`.
  unfoldable pub write_double : ℕ → Bytes
  unfolding is_finite same_as
  write_double d =
      if is_finite d
      then if same_as (c.strtod (c.print15 d)) d then c.print15 d else c.print17 d
      else codes "null"

  abbrev pub comma : Bool → Bytes
  comma true = []
  comma false = b',' ∷ []

  -- The loops over an array and an object know whether they are at their first element.
  unfoldable mutual
    pub write_value : JsonValue → Bytes
    write_value null = codes "null"
    write_value (bool b) = if b then codes "true" else codes "false"
    write_value (int i) = print_int i
    write_value (uint u) = print_nat u
    write_value (double d) = write_double d
    write_value (string s) = write_escaped s
    write_value (array xs) = b'[' ∷ (write_items true xs ++ (b']' ∷ []))
    write_value (object fs) = b'{' ∷ (write_fields true fs ++ (b'}' ∷ []))

    pub write_items : Bool → Items → Bytes
    write_items first no_items = []
    write_items first (item v xs) = comma first ++ (write_value v ++ write_items false xs)

    pub write_fields : Bool → Fields → Bytes
    write_fields first no_fields = []
    write_fields first (field k v fs) =
        comma first ++ (write_escaped k ++ (b':' ∷ (write_value v ++ write_fields false fs)))

  unfoldable pub write : JsonValue → Bytes
  unfolding write_value
  write v = write_value v
