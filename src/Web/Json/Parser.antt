-- ===== src/Web/Json/Parser.antt =====
-- The JSON parser (src/web/json.cpp): values, arrays and objects by recursive descent, and the
-- entry point. The recursion is on fuel: three units for each byte and three more.
use Prim.Native.String.{String}
use memory_tools.Prelude.{
  tail, is_nil, head_is, ℕ, zero, suc, ◌+◌, ◌-◌, ◌*◌, true, false, ◌||◌, [], ◌∷◌, Bytes, codes,
  ◌==◌, leb, ltb, if◌then◌else◌, length,
}
use memory_tools.Web.Json.{
  Doubles, JsonValue, Items, Fields, null, bool, string, array, object, no_items, item, no_fields,
  field, max_depth, max_input,
}
use memory_tools.Web.Json.Number.{is_digit, parse_number}
use memory_tools.Web.Json.Runs.{Outcome, ok, failed, out_of_fuel, bind, Failure, Reading}
use memory_tools.Web.Json.Text.{skip_ws, parse_string, parse_literal}

-- The offset is `length in - length at` of the failure's position `at`.
pub record ParseError : Type 0 where
  pub message : String
  pub offset : ℕ

-- What the first byte of a value says about it.
pub data Start : Type 0 where
  no_start brace bracket quote letter_t letter_f letter_n number_start other_start : Start

unfoldable pub start_of : Bytes → Start
start_of [] = no_start
start_of (c ∷ cs) =
    if c == b'{'
    then brace
    else if c == b'['
    then bracket
    else if c == b'"'
    then quote
    else if c == b't'
    then letter_t
    else if c == b'f'
    then letter_f
    else if c == b'n'
    then letter_n
    else if c == b'-' || is_digit c
    then number_start
    else other_start

-- What follows an element: the end of the text, a comma, the closing bracket or another byte.
pub data Next : Type 0 where
  ends goes_on closes strays : Next

unfoldable pub next_of : ℕ → Bytes → Next
next_of close [] = ends
next_of close (c ∷ cs) = if c == b',' then goes_on else if c == close then closes else strays

abbrev pub follow {ℓ} :
    {A : Type ℓ} → Next → String → String → Bytes → A → (Bytes → Reading A) → Reading A
follow ends unclosed stray p last again = failed (unclosed, p)
follow goes_on unclosed stray p last again = again (tail p)
follow closes unclosed stray p last again = ok (last, tail p)
follow strays unclosed stray p last again = failed (stray, p)

unfoldable pub expect : ℕ → String → Bytes → Outcome Failure Bytes
expect c message p = if head_is c p then ok (tail p) else failed (message, p)

abbrev pub string_value : Bytes × Bytes → Reading JsonValue
string_value (s, rest) = ok (string s, rest)

module _ (c : Doubles) where
  abbrev pub value_by :
      (Bytes → Reading JsonValue) → (Bytes → Reading JsonValue) → Start → Bytes → Reading JsonValue
  value_by object_at array_at no_start p = failed ("JSON vacio o inesperado", p)
  value_by object_at array_at brace p = object_at p
  value_by object_at array_at bracket p = array_at p
  value_by object_at array_at quote p = bind (parse_string p) string_value
  value_by object_at array_at letter_t p = parse_literal (codes "true") (bool true) p
  value_by object_at array_at letter_f p = parse_literal (codes "false") (bool false) p
  value_by object_at array_at letter_n p = parse_literal (codes "null") null p
  value_by object_at array_at number_start p = parse_number c p
  value_by object_at array_at other_start p = failed ("valor JSON inesperado", p)

  unfoldable mutual
    pub parse_value : ℕ → ℕ → Bytes → Reading JsonValue
    parse_value zero depth p = out_of_fuel
    parse_value (suc f) depth p =
        value_by (λ q. parse_object f depth q) (λ q. parse_array f depth q) (start_of (skip_ws p))
          (skip_ws p)

    pub parse_object : ℕ → ℕ → Bytes → Reading JsonValue
    parse_object zero depth p = out_of_fuel
    parse_object (suc f) depth p =
        let q = skip_ws (tail p) in
        let members = bind (parse_members f (suc depth) q) λ (fs, rest). ok (object fs, rest) in
        if leb max_depth depth
        then failed ("anidamiento demasiado profundo", p)
        else if head_is b'}' q
        then ok (object no_fields, tail q)
        else members

    -- The loop of `parse_object`, a round for each member.
    pub parse_members : ℕ → ℕ → Bytes → Reading Fields
    parse_members zero depth p = out_of_fuel
    parse_members (suc f) depth p =
        let q = skip_ws p in
        let rounds = bind (parse_string q) λ (key, r).
          bind (expect b':' "se esperaba ':'" (skip_ws r)) λ r₂.
            bind (parse_value f depth r₂) λ (val, r₃).
              let r₄ = skip_ws r₃ in
              follow (next_of b'}' r₄) "object sin cerrar" "se esperaba ',' o '}'" r₄
                (field key val no_fields)
                λ r₅. bind (parse_members f depth r₅) λ (fs, rest). ok (field key val fs, rest) in
        if head_is b'"' q then rounds else failed ("se esperaba una clave de object", q)

    pub parse_array : ℕ → ℕ → Bytes → Reading JsonValue
    parse_array zero depth p = out_of_fuel
    parse_array (suc f) depth p =
        let q = skip_ws (tail p) in
        let elements = bind (parse_elements f (suc depth) q) λ (xs, rest). ok (array xs, rest) in
        if leb max_depth depth
        then failed ("anidamiento demasiado profundo", p)
        else if head_is b']' q
        then ok (array no_items, tail q)
        else elements

    -- The loop of `parse_array`.
    pub parse_elements : ℕ → ℕ → Bytes → Reading Items
    parse_elements zero depth p = out_of_fuel
    parse_elements (suc f) depth p =
        let q = skip_ws p in
        let rounds = bind (parse_value f depth q) λ (val, r).
          let r₂ = skip_ws r in
          follow (next_of b']' r₂) "array sin cerrar" "se esperaba ',' o ']'" r₂ (item val no_items)
            λ r₃. bind (parse_elements f depth r₃) λ (xs, rest). ok (item val xs, rest) in
        if is_nil q then failed ("array sin cerrar", q) else rounds

  unfoldable pub with_offset :
      ℕ → Outcome Failure (JsonValue × Bytes) → Outcome ParseError JsonValue
  with_offset n (failed (message, at)) =
      failed (record { message = message; offset = n - length at })
  with_offset n out_of_fuel = out_of_fuel
  with_offset n (ok (v, rest)) =
      if is_nil (skip_ws rest)
      then ok v
      else failed
          (record { message = "datos extra despues del JSON"; offset = n - length (skip_ws rest) })

  unfoldable pub parse : Bytes → Outcome ParseError JsonValue
  unfolding with_offset
  parse text =
      if ltb max_input (length text)
      then failed (record { message = "entrada demasiado grande (maximo 64 KiB)"; offset = 0 })
      else with_offset (length text) (parse_value (3 * length text + 3) 0 text)
