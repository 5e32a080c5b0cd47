-- ===== src/Web/Http.antt =====
-- The HTTP parser, the response writer and the checks on a request (src/web/http.h and http.cpp).
-- An index into a text counts its bytes from 0, as in the source.
pub mod Limits
pub mod Security
pub mod ErrorBody
use Prim.Native.String.{String}
use memory_tools.Numerals.{print_nat}
use memory_tools.Prelude.{
  is_nil, head_is, is_blank, skip_blanks, ℕ, zero, suc, ◌+◌, ◌-◌, ◌*◌, Bool, true, false, not, ◌&&◌,
  ◌||◌, Option, none, some, List, [], ◌∷◌, ◌++◌, Bytes, codes, bytes_eq, is_prefix, ◌==◌, leb, ltb,
  if◌then◌else◌, length, take, drop,
}
use memory_tools.Web.Json.{JsonValue, Doubles, object, string, field, no_fields}
use memory_tools.Web.Json.Number.{is_digit, strtoull}
use memory_tools.Web.Json.Runs.{Outcome, ok, failed, out_of_fuel, bind}
use memory_tools.Web.Json.Writer.{write}

abbrev pub max_request_line : ℕ
max_request_line = 8192

abbrev pub max_header_block : ℕ
max_header_block = 8192

abbrev pub max_body : ℕ
max_body = 64 * 1024

abbrev pub max_headers : ℕ
max_headers = 32

pub record HttpHeader : Type 0 where
  pub name : Bytes
  pub value : Bytes

pub record HttpRequest : Type 0 where
  pub valid : Bool
  pub status : ℕ
  pub error : String
  pub method : Bytes
  pub path : Bytes
  pub query : Bytes
  pub headers : List HttpHeader
  pub body : Bytes
  pub content_length : ℕ

unfoldable pub lower_char : ℕ → ℕ
lower_char c = if leb b'A' c && leb c b'Z' then c - b'A' + b'a' else c

unfoldable pub to_lower : Bytes → Bytes
to_lower [] = []
to_lower (c ∷ cs) = lower_char c ∷ to_lower cs

-- A text without the blanks at its end.
unfoldable pub drop_blanks : Bytes → Bytes
drop_blanks [] = []
drop_blanks (c ∷ cs) =
    let rest = drop_blanks cs in if is_nil rest && is_blank c then [] else c ∷ rest

unfoldable pub trim : Bytes → Bytes
trim s = drop_blanks (skip_blanks s)

unfoldable pub only_digits : Bytes → Bool
only_digits [] = true
only_digits (c ∷ cs) = is_digit c && only_digits cs

unfoldable pub all_digits : Bytes → Bool
all_digits s = not (is_nil s) && only_digits s

abbrev pub empty_request : HttpRequest
empty_request = record {
  valid = false;
  status = 400;
  error = "";
  method = [];
  path = [];
  query = [];
  headers = [];
  body = [];
  content_length = 0;
}

unfoldable pub fail : ℕ → String → HttpRequest
fail status msg = record empty_request { status = status; error = msg }

unfoldable pub header : List HttpHeader → Bytes → Option Bytes
header [] name = none
header (h ∷ hs) name = if bytes_eq h.name name then some h.value else header hs name

-- `find` of a text that is not empty; `i` is the index of the bytes that are left.
unfoldable pub first_at : Bytes → ℕ → Bytes → Option ℕ
first_at needle i [] = none
first_at needle i (c ∷ cs) =
    if is_prefix needle (c ∷ cs) then some i else first_at needle (suc i) cs

unfoldable pub find : Bytes → Bytes → ℕ → Option ℕ
find s needle start = first_at needle start (drop start s)

-- `rfind` of a byte.
unfoldable pub last_at : ℕ → ℕ → Option ℕ → Bytes → Option ℕ
last_at c i found [] = found
last_at c i found (d ∷ ds) = last_at c (suc i) (if d == c then some i else found) ds

abbrev pub crlf : Bytes
crlf = 13 ∷ 10 ∷ []

abbrev pub blank_line : Bytes
blank_line = 13 ∷ 10 ∷ 13 ∷ 10 ∷ []

-- `failed` is a return of what `fail` gives, `ok` any other.
abbrev pub Parsing {ℓ} : Type ℓ → Type ℓ
Parsing A = Outcome HttpRequest A

-- The index, or the refusal where there is none.
abbrev pub found_or : HttpRequest → Option ℕ → Parsing ℕ
found_or refusal none = failed refusal
found_or refusal (some i) = ok i

abbrev pub unless : Bool → HttpRequest → Parsing (Unit {0})
unless true refusal = failed refusal
unless false refusal = ok tt

unfoldable pub split_target : Bytes → Option ℕ → Bytes × Bytes
split_target target none = (target, [])
split_target target (some q) = (take q target, drop (suc q) target)

-- The request line: method, target and version.
unfoldable pub parse_line : Bytes → Parsing HttpRequest
unfolding split_target
parse_line line =
    bind (found_or (fail 400 "request line invalida") (find line (b' ' ∷ []) 0)) λ sp1.
      bind (found_or (fail 400 "request line invalida") (last_at b' ' 0 none line)) λ sp2.
        bind (unless (sp1 == sp2) (fail 400 "request line invalida")) λ _.
          bind (unless (sp2 - sp1 - 1 == 0) (fail 400 "objetivo vacio")) λ _.
            let method = take sp1 line in
            let target = take (sp2 - sp1 - 1) (drop (suc sp1) line) in
            let version = drop (suc sp2) line in
            bind
              (unless
                (not (bytes_eq version (codes "HTTP/1.1") || bytes_eq version (codes "HTTP/1.0")))
                (fail 400 "version HTTP no soportada"))
              λ _.
                bind
                  (unless (not (bytes_eq method (codes "GET") || bytes_eq method (codes "POST")))
                    (fail 405 "metodo no soportado"))
                  λ _.
                    let (path, query) = split_target target (find target (b'?' ∷ []) 0) in
                    bind (unless (not (head_is b'/' path)) (fail 400 "path invalido"))
                      λ _. ok (record empty_request { method = method; path = path; query = query })

-- A header line; the number of headers before it is checked first.
unfoldable pub parse_header : List HttpHeader → Bytes → Parsing (List HttpHeader)
parse_header headers line =
    bind (unless (leb max_headers (length headers)) (fail 400 "demasiadas cabeceras")) λ _.
      bind (found_or (fail 400 "cabecera invalida") (find line (b':' ∷ []) 0)) λ colon.
        let name = to_lower (trim (take colon line)) in
        bind (unless (is_nil name) (fail 400 "cabecera invalida")) λ _.
          let h : HttpHeader = record { name = name; value = trim (drop (suc colon) line) } in
          ok (headers ++ (h ∷ []))

abbrev pub line_end_before : ℕ → Option ℕ → Option ℕ
line_end_before he none = none
line_end_before he (some h_end) = if ltb he h_end then none else some h_end

abbrev pub on_line {ℓ} : {A : Type ℓ} → Option ℕ → A → (ℕ → A) → A
on_line none stop line = stop
on_line (some h_end) stop line = line h_end

-- The loop over the header lines of the text before `he`, from the position `p`. Each round moves
-- `p` by two at least.
unfoldable pub parse_headers : ℕ → Bytes → ℕ → ℕ → List HttpHeader → Parsing (List HttpHeader)
parse_headers zero head he p headers = out_of_fuel
parse_headers (suc f) head he p headers =
    let next = on_line (line_end_before he (find head crlf p)) (ok headers) λ h_end.
      bind (parse_header headers (take (h_end - p) (drop p head)))
        λ more. parse_headers f head he (h_end + 2) more in
    if ltb p he then next else ok headers

abbrev pub length_value : Option ℕ → Parsing ℕ
length_value none = failed (fail 400 "content-length invalido")
length_value (some v) = if ltb max_body v then failed (fail 413 "body demasiado grande") else ok v

-- `Content-Length`, 0 where the header is missing.
unfoldable pub parse_length : Option Bytes → Parsing ℕ
parse_length none = ok 0
parse_length (some cl) =
    if not (all_digits cl)
    then failed (fail 400 "content-length invalido")
    else length_value (strtoull cl)

unfoldable pub parse_request_head : Bytes → Parsing HttpRequest
unfolding parse_line parse_headers parse_length
parse_request_head head =
    bind (found_or (fail 400 "cabeceras incompletas") (find head blank_line 0)) λ he.
      bind (unless (ltb max_header_block (he + 4)) (fail 400 "cabeceras demasiado grandes")) λ _.
        bind (found_or (fail 400 "request line invalida") (find head crlf 0)) λ line_end.
          bind (unless (line_end == 0) (fail 400 "request line invalida")) λ _.
            bind (unless (ltb max_request_line line_end) (fail 400 "request line demasiado larga"))
              λ _. bind (parse_line (take line_end head)) λ r.
                bind (parse_headers (suc he) head he (line_end + 2) []) λ headers.
                  bind (parse_length (header headers (codes "content-length"))) λ content_length.
                    ok (record r {
                      headers = headers;
                      content_length = content_length;
                      valid = true;
                      status = 200;
                    })

unfoldable pub parse_http_request : Bytes → Parsing HttpRequest
unfolding parse_request_head
parse_http_request raw =
    bind (found_or (fail 400 "cabeceras incompletas") (find raw blank_line 0)) λ he.
      bind (parse_request_head (take (he + 4) raw)) λ r.
        if r.content_length == 0
        then ok r
        else if ltb (length raw) (he + 4 + r.content_length)
        then failed (fail 400 "body incompleto")
        else ok (record r { body = take r.content_length (drop (he + 4) raw) })
