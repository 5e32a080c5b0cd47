-- ===== src/Tests/Texts.antt =====
-- JSON texts, HTTP requests and the texts of values.
use memory_tools.Prelude.{
  ℕ, ◌+◌, ◌*◌, ◌≡◌, ◌≢◌, ◌≤◌, refl, Bool, true, false, [], ◌∷◌, ◌++◌, Option, none, some, Bytes,
  codes, length, arith, ℤ, pos, negsuc, inl, inr,
}
use mathlib.Core.Logic.{◌↔◌}
use memory_tools.Types.RoundTrip.{parse_value-value_to_string}
use memory_tools.Types.Text.{FloatTexts, parse_value, value_to_string}
use memory_tools.Types.{DataType, type_is_float, type_is_dynamic, type_size}
use memory_tools.Web.Http.ErrorBody.{parse-json_error}
use memory_tools.Web.Http.Limits.{WellFormed, Complete, parse_http_request-WellFormed}
use memory_tools.Web.Http.Security.{
  LocalHost, check_request_security, check_request_security-zero, json_error,
}
use memory_tools.Web.Http.{HttpRequest, empty_request, header, parse_http_request}
use memory_tools.Web.Json.Limits.Values.{parse-ne-out_of_fuel, parse-Within}
use memory_tools.Web.Json.Limits.{Within}
use memory_tools.Web.Json.Parser.{ParseError, parse}
use memory_tools.Web.Json.RoundTrip.Elements.{NoDouble}
use memory_tools.Web.Json.RoundTrip.Values.{parse-write}
use memory_tools.Web.Json.Runs.{ok, failed, out_of_fuel}
use memory_tools.Web.Json.Writer.{write}
use memory_tools.Web.Json.{
  max_input, Doubles, JsonValue, Items, bool, int, uint, string, array, object, no_items, item,
  no_fields, field,
}

abbrev pub doubles : Doubles
doubles = record {
  strtod = λ s. some 0;
  print15 = λ d. codes "0";
  print17 = λ d. codes "0";
  same = λ a b. true;
  from_int = λ i. 0;
  from_uint = λ u. 0;
}

-- {"a":[-20,18446744073709551615,"x\"\n"]}
abbrev items : Items
items =
    item (int (negsuc 19))
      (item (uint 18446744073709551615) (item (string (b'x' ∷ b'"' ∷ 10 ∷ [])) no_items))

abbrev sample : JsonValue
sample = object (field (codes "a") (array items) no_fields)

sample-Within : Within 0 sample
unfolding Within
sample-Within = (
  omega arith,
  (
    (omega arith),
    (omega arith, (omega arith, ((omega arith, omega arith), (omega arith, tt)))),
    tt,
  ),
)

sample-NoDouble : NoDouble sample
unfolding NoDouble
sample-NoDouble = ((tt, (tt, (tt, tt))), tt)

sample_short : length (write doubles sample) ≤ max_input
unfolding write memory_tools.Web.Json.Writer.write_escaped memory_tools.Web.Json.Writer.escape_char
    memory_tools.Numerals.print_int memory_tools.Numerals.print_nat memory_tools.Numerals.decimal
sample_short = omega arith

parse-write_example : parse doubles (write doubles sample) ≡ ok sample
parse-write_example = parse-write doubles sample sample-Within sample-NoDouble sample_short

parse-ne-out_of_fuel_example : parse doubles (codes "[[1,2],{\"a\":null}]") ≢ out_of_fuel
parse-ne-out_of_fuel_example = parse-ne-out_of_fuel doubles (codes "[[1,2],{\"a\":null}]")

parse-Within_example : Within 0 sample
parse-Within_example = parse-Within doubles (write doubles sample) sample parse-write_example

parse_refused :
    parse doubles (codes "[1,]") ≡ failed (record { message = "valor JSON inesperado"; offset = 3 })
unfolding parse memory_tools.Web.Json.Parser.parse_value memory_tools.Web.Json.Parser.start_of
    memory_tools.Web.Json.Text.skip_ws memory_tools.Prelude.head_is
    memory_tools.Web.Json.Number.is_digit memory_tools.Web.Json.Number.parse_number
    memory_tools.Web.Json.Number.skip_digits memory_tools.Web.Json.Number.strtoll
    memory_tools.Web.Json.Number.digits_value memory_tools.Web.Json.Parser.next_of
parse_refused = refl

parse-json_error_example :
    parse doubles (json_error doubles (codes "bad \"pid\""))
    ≡ ok (object (field (codes "error") (string (codes "bad \"pid\"")) no_fields))
parse-json_error_example = parse-json_error doubles (codes "bad \"pid\"") (omega arith)

-- GET /a?b HTTP/1.1, with a `Host` and a `Content-Length` of 2.
abbrev request : Bytes
request =
    codes "POST /a?b HTTP/1.1"
    ++ 13 ∷ 10 ∷ codes "Host: localhost:8"
    ++ 13 ∷ 10 ∷ codes "Content-Length: 2"
    ++ 13 ∷ 10 ∷ 13 ∷ 10 ∷ codes "{}"

abbrev parsed : HttpRequest
parsed = record empty_request {
  valid = true;
  status = 200;
  method = codes "POST";
  path = codes "/a";
  query = codes "b";
  headers =
      record { name = codes "host"; value = codes "localhost:8" }
      ∷ record { name = codes "content-length"; value = codes "2" }
      ∷ [];
  body = codes "{}";
  content_length = 2;
}

request_run : parse_http_request request ≡ ok parsed
unfolding parse_http_request memory_tools.Web.Http.find memory_tools.Web.Http.first_at
    memory_tools.Prelude.is_prefix memory_tools.Web.Http.last_at memory_tools.Prelude.bytes_eq
    memory_tools.Prelude.head_is memory_tools.Web.Http.parse_header memory_tools.Web.Http.to_lower
    memory_tools.Web.Http.trim memory_tools.Web.Http.drop_blanks memory_tools.Prelude.skip_blanks
    memory_tools.Prelude.is_blank header memory_tools.Web.Http.lower_char
    memory_tools.Web.Http.all_digits memory_tools.Web.Http.only_digits
    memory_tools.Web.Json.Number.is_digit memory_tools.Web.Http.fail
    memory_tools.Web.Http.parse_headers memory_tools.Web.Http.parse_length
    memory_tools.Web.Http.parse_line memory_tools.Web.Http.parse_request_head
    memory_tools.Web.Http.split_target memory_tools.Web.Json.Number.digits_value
    memory_tools.Web.Json.Number.strtoull
request_run = refl

parse_http_request-WellFormed_example : WellFormed parsed × Complete request parsed
parse_http_request-WellFormed_example = parse_http_request-WellFormed request parsed request_run

check_request_security-zero_example : (check_request_security parsed (codes "t0") 8 ≡ 0) ↔ (
    LocalHost (some (codes "localhost:8")) 8
    × (header parsed.headers (codes "x-memorytool-token") ≡ some (codes "t0")))
unfolding header memory_tools.Prelude.bytes_eq
check_request_security-zero_example = check_request_security-zero parsed (codes "t0") 8

abbrev float_texts : FloatTexts
float_texts = record { strtod = λ s. none; narrow = λ n. n; print = λ t n. codes "0" }

parse_value-value_to_string_example :
    parse_value float_texts (value_to_string float_texts 65535 DataType.i16) DataType.i16
    ≡ some 65535
unfolding type_is_float type_is_dynamic type_size
parse_value-value_to_string_example =
    parse_value-value_to_string float_texts 65535 DataType.i16 (refl, refl) (omega arith)
