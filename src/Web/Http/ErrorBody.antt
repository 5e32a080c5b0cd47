-- ===== src/Web/Http/ErrorBody.antt =====
-- The body of an error response (src/web/http.cpp), read back as JSON.
use memory_tools.Prelude.{
  ℕ, ◌+◌, ◌*◌, ◌≤◌, ◌≡◌, Bytes, [], ◌∷◌, ◌++◌, codes, length, length-append, arith,
}
use memory_tools.Web.Http.Security.{json_error}
use memory_tools.Web.Json.{Doubles, object, string, field, no_fields, max_string}
use memory_tools.Web.Json.Limits.{Within}
use memory_tools.Web.Json.Parser.{parse}
use memory_tools.Web.Json.RoundTrip.Elements.{NoDouble}
use memory_tools.Web.Json.RoundTrip.Values.{parse-write}
use memory_tools.Web.Json.Runs.{ok}
use memory_tools.Web.Json.Writer.{
  escape_char, escape_chars, write_control, write_escaped, write, write_value,
}

length-escape_char_le : (c : ℕ) → length (escape_char c) ≤ 6
unfolding escape_char write_control
length-escape_char_le c = ground arith

length-escape_chars_le : (s : Bytes) → length (escape_chars s) ≤ 6 * length s
unfolding escape_chars
length-escape_chars_le [] = omega arith
length-escape_chars_le (c ∷ cs) = omega (
  arith,
  length-escape_char_le c,
  length-escape_chars_le cs,
  length-append (escape_char c) (escape_chars cs),
)

-- Escaping makes a string at most six times as long, and two bytes for the quotes.
pub length-write_escaped : (s : Bytes) → length (write_escaped s) ≤ 6 * length s + 2
unfolding write_escaped
length-write_escaped s =
    omega (arith, length-escape_chars_le s, length-append (escape_chars s) (b'"' ∷ []))

length-json_error :
    (c : Doubles) (message : Bytes) → length (json_error c message) ≤ 6 * length message + 60
unfolding json_error write write_value
length-json_error c message =
    let key = write_escaped (codes "error") in
    let value = write_escaped message in
    let member = b':' ∷ (value ++ []) in
    omega (
      arith,
      length-append (key ++ member) (b'}' ∷ []),
      length-append key member,
      length-append value [],
      length-write_escaped message,
      length-write_escaped (codes "error"),
    )

-- The body that the server sends for an error with a message of at most 4096 bytes, whatever they
-- are, is JSON that the parser accepts, with the message under the key `error`.
pub parse-json_error :
    (c : Doubles) (message : Bytes)
    → length message ≤ max_string
    → parse c (json_error c message)
      ≡ ok (object (field (codes "error") (string message) no_fields))
unfolding json_error Within NoDouble
parse-json_error c message h =
    parse-write c _ (omega arith, (omega arith, h, tt)) (tt, tt)
      (omega (arith, length-json_error c message))
