-- ===== src/Web/Json/Limits/Values.antt =====
-- The value reader of the JSON parser: enough fuel, the limits of what it returns, and where it
-- stops.
use memory_tools.Prelude.{
  tail, is_nil, head_is, ℕ, zero, suc, ◌+◌, ◌*◌, ◌≤◌, ◌<◌, ◌≡◌, ◌≢◌, Bytes, [], ◌∷◌, length, arith,
  ltb, leb, leb→lt,
}
use memory_tools.Web.Json.{
  Doubles, JsonValue, no_items, item, no_fields, field, max_depth, max_input,
}
use memory_tools.Web.Json.Limits.{Within, WithinItems, WithinFields, FitsValue}
use memory_tools.Web.Json.Limits.Strings.{length-skip_ws}
use memory_tools.Web.Json.Parser.{
  ParseError, parse_value, parse_object, parse_members, parse_array, parse_elements, parse,
  with_offset,
}
use memory_tools.Web.Json.Runs.{
  Reading, ok, failed, out_of_fuel, Ensures, holds, rejected, Ensures-bind, Ensures-if,
  Ensures-weaken, AtMost, Ensures-ok, Ensures-out_of_fuel, Ensures-failed,
}
use memory_tools.Web.Json.Text.{skip_ws}
use memory_tools.Web.Json.Limits.Parts.{
  key-Ensures, value_by-Ensures, expect-Ensures, follow-Ensures,
}

length-after_bracket : (p : Bytes) → 0 < length p → length (skip_ws (tail p)) < length p
length-after_bracket [] h = absurd (omega arith)
length-after_bracket (x ∷ xs) h = omega (arith, length-skip_ws xs)

length-after_close : {m : ℕ} (p : Bytes) → length p < m → length (tail p) < m
length-after_close [] h = h
length-after_close (x ∷ xs) h = omega arith

-- One induction on the fuel: each call is given three units for each byte that is left to it, and a
-- few for the calls that consume nothing.
module _ (c : Doubles) (n : ℕ) where
  mutual
    unfolding parse_value Within

    parse_value-Ensures :
        (f depth : ℕ) (p : Bytes)
        → 3 * length p + 3 ≤ f
        → length p ≤ n
        → Ensures (AtMost n) (FitsValue depth (length p)) (parse_value c f depth p)
    parse_value-Ensures zero depth p hf hp = absurd (omega arith)
    parse_value-Ensures (suc f) depth p hf hp =
        let q = skip_ws p in
        let shorter = length-skip_ws p in
        Ensures-weaken
          (value_by-Ensures n c depth (λ r. parse_object c f depth r) (λ r. parse_array c f depth r)
            q (omega arith)
            (λ some_byte. parse_object-Ensures f depth q (omega arith) (omega arith) some_byte)
            (λ some_byte. parse_array-Ensures f depth q (omega arith) (omega arith) some_byte))
          λ _ h. (h.0, omega arith)

    parse_object-Ensures :
        (f depth : ℕ) (p : Bytes)
        → 3 * length p + 2 ≤ f
        → length p ≤ n
        → 0 < length p
        → Ensures (AtMost n) (FitsValue depth (length p)) (parse_object c f depth p)
    parse_object-Ensures zero depth p hf hp hc = absurd (omega arith)
    parse_object-Ensures (suc f) depth p hf hp hc =
        let q = skip_ws (tail p) in
        let shorter : length q < length p = length-after_bracket p hc in
        Ensures-if (leb max_depth depth) (λ _. rejected hp)
          λ e.
            Ensures-if (head_is b'}' q)
              (λ _. holds ((leb→lt max_depth depth e, tt), length-after_close q shorter))
              λ _.
                Ensures-bind (parse_members-Ensures f (suc depth) q (omega arith) (omega arith))
                  λ (fs, rest) h. holds ((leb→lt max_depth depth e, h.0), omega arith)

    parse_members-Ensures :
        (f depth : ℕ) (p : Bytes)
        → 3 * length p + 4 ≤ f
        → length p ≤ n
        → Ensures
            (AtMost n)
            (λ (fs, rest). WithinFields depth fs × (length rest < length p))
            (parse_members c f depth p)
    parse_members-Ensures zero depth p hf hp = absurd (omega arith)
    parse_members-Ensures (suc f) depth p hf hp =
        let q = skip_ws p in
        let shorter = length-skip_ws p in
        Ensures-if (head_is b'"' q)
          (λ e. Ensures-bind (key-Ensures n q e (omega arith)) λ (key, r) hk.
            let after_key = length-skip_ws r in
            Ensures-bind (expect-Ensures n b':' "se esperaba ':'" (skip_ws r) (omega (arith, hk.1)))
              λ r₂ h₂.
                let read : length r₂ < length p = omega (arith, hk.1) in
                Ensures-bind (parse_value-Ensures f depth r₂ (omega arith) (omega arith))
                  λ (val, r₃) hv.
                    let after_value = length-skip_ws r₃ in
                    Ensures-weaken
                      (follow-Ensures n (WithinFields depth) b'}' "object sin cerrar"
                        "se esperaba ',' o '}'" (skip_ws r₃) (field key val no_fields) _
                        (omega (arith, hv.1)) (hk.0, hv.0, tt)
                        λ r₅ h₅.
                          Ensures-bind
                            (parse_members-Ensures f depth r₅ (omega (arith, hv.1))
                              (omega (arith, hv.1)))
                            λ (fs, rest) h₆. holds ((hk.0, hv.0, h₆.0), omega arith))
                      λ _ k. (k.0, omega (arith, hv.1)))
          (λ _. rejected (omega arith))

    parse_array-Ensures :
        (f depth : ℕ) (p : Bytes)
        → 3 * length p + 2 ≤ f
        → length p ≤ n
        → 0 < length p
        → Ensures (AtMost n) (FitsValue depth (length p)) (parse_array c f depth p)
    parse_array-Ensures zero depth p hf hp hc = absurd (omega arith)
    parse_array-Ensures (suc f) depth p hf hp hc =
        let q = skip_ws (tail p) in
        let shorter : length q < length p = length-after_bracket p hc in
        Ensures-if (leb max_depth depth) (λ _. rejected hp)
          λ e.
            Ensures-if (head_is b']' q)
              (λ _. holds ((leb→lt max_depth depth e, tt), length-after_close q shorter))
              λ _.
                Ensures-bind (parse_elements-Ensures f (suc depth) q (omega arith) (omega arith))
                  λ (xs, rest) h. holds ((leb→lt max_depth depth e, h.0), omega arith)

    parse_elements-Ensures :
        (f depth : ℕ) (p : Bytes)
        → 3 * length p + 4 ≤ f
        → length p ≤ n
        → Ensures
            (AtMost n)
            (λ (xs, rest). WithinItems depth xs × (length rest < length p))
            (parse_elements c f depth p)
    parse_elements-Ensures zero depth p hf hp = absurd (omega arith)
    parse_elements-Ensures (suc f) depth p hf hp =
        let q = skip_ws p in
        let shorter = length-skip_ws p in
        Ensures-if (is_nil q) (λ _. rejected (omega arith))
          λ _.
            Ensures-bind (parse_value-Ensures f depth q (omega arith) (omega arith)) λ (val, r) h.
              let shorter' = length-skip_ws r in
              Ensures-weaken
                (follow-Ensures n (WithinItems depth) b']' "array sin cerrar"
                  "se esperaba ',' o ']'" (skip_ws r) (item val no_items) _ (omega (arith, h.1))
                  (h.0, tt)
                  λ r₃ h₃.
                    Ensures-bind
                      (parse_elements-Ensures f depth r₃ (omega (arith, h.1)) (omega (arith, h.1)))
                      λ (xs, rest) h₄. holds ((h.0, h₄.0), omega arith))
                λ _ k. (k.0, omega (arith, h.1))

-- The outcome of the whole text: a value that fits at the top, or an error inside the text.
abbrev InText : ℕ → ParseError → Type 0
InText n e = e.offset ≤ n

parse-Ensures :
    (c : Doubles) (text : Bytes) → Ensures (InText (length text)) (Within 0) (parse c text)
unfolding parse with_offset
parse-Ensures c text =
    Ensures-if (ltb max_input (length text)) (λ _. rejected (omega arith))
      λ _. finish (
        parse_value-Ensures c (length text) (3 * length text + 3) 0 text (omega arith)
          (omega arith))
  where
    finish :
        {r : Reading JsonValue}
        → Ensures (AtMost (length text)) (FitsValue 0 (length text)) r
        → Ensures (InText (length text)) (Within 0) (with_offset c (length text) r)
    finish (holds {a} h) =
        Ensures-if (is_nil (skip_ws a.1)) (λ _. holds h.0) (λ _. rejected (omega arith))
    finish (rejected h) = rejected (omega arith)

-- The fuel that `parse` gives is enough for every text: the model never gives up where the program
-- goes on, so every text is read as a value or refused with an error.
pub parse-ne-out_of_fuel : (c : Doubles) (text : Bytes) → parse c text ≢ out_of_fuel
parse-ne-out_of_fuel c text = Ensures-out_of_fuel (parse-Ensures c text)

-- A value that the parser accepts nests at most 32 arrays and objects, its strings and keys have at
-- most 4096 bytes, each of its signed integers fits an `int64_t`, and each of its unsigned ones
-- fits a `uint64_t` and no `int64_t`.
pub parse-Within : (c : Doubles) (text : Bytes) (v : JsonValue) → parse c text ≡ ok v → Within 0 v
parse-Within c text v = Ensures-ok (parse-Ensures c text)

-- The offset of a parse error lies in the text or at its end.
pub parse-failed :
    (c : Doubles) (text : Bytes) (e : ParseError) → parse c text ≡ failed e → e.offset ≤ length text
parse-failed c text e = Ensures-failed (parse-Ensures c text)
