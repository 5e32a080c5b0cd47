-- ===== src/Web/Http/Limits.antt =====
-- What the HTTP parser returns: a refusal with its status, or a request within the limits.
use mathlib.Core.Option.{some-injective}
use memory_tools.Prelude.{
  is_nil, head_is, ℕ, zero, ap, ltb→lt, suc, ◌+◌, ◌-◌, ◌≤◌, ◌<◌, ◌≡◌, ◌≢◌, ◌⊎◌, inl, inr, refl, sym,
  ◌∙◌, Bool, true, false, not, ◌||◌, Option, none, some, List, [], ◌∷◌, Bytes, codes, bytes_eq,
  bytes_eq→eq, is_prefix, ◌==◌, ltb, leb, leb→lt, ltb→le, length, take, drop, length-append,
  length-take, length-drop, arith, All, All-append, Bool-cases, ==→eq,
}
use memory_tools.Web.Http.{
  HttpHeader, HttpRequest, fail, header, first_at, find, last_at, crlf, blank_line, Parsing,
  found_or, unless, split_target, parse_line, parse_header, line_end_before, on_line, parse_headers,
  length_value, parse_length, parse_request_head, parse_http_request, max_headers, max_body,
  max_request_line, max_header_block, to_lower, trim, all_digits,
}
use memory_tools.Web.Json.Number.{strtoull}
use memory_tools.Web.Json.Runs.{
  ok, failed, out_of_fuel, Ensures, holds, rejected, Ensures-ok, Ensures-failed,
  Ensures-out_of_fuel, Ensures-bind, Ensures-if, Ensures-weaken,
}

-- What `fail` returns has one of the three statuses and is not valid.
abbrev pub Refused : HttpRequest → Type 0
Refused r = (r.valid ≡ false) × ((r.status ≡ 400) ⊎ ((r.status ≡ 405) ⊎ (r.status ≡ 413)))

abbrev pub Named : HttpHeader → Type 0
Named h = is_nil h.name ≡ false

abbrev pub FitsHeaders : List HttpHeader → Type 0
FitsHeaders hs = (length hs ≤ max_headers) × All Named hs

-- The request line of `r` was accepted.
abbrev pub ReadLine : HttpRequest → Type 0
ReadLine r =
    ((r.method ≡ codes "GET") ⊎ (r.method ≡ codes "POST"))
    × (head_is b'/' r.path ≡ true)
    × (r.body ≡ [])

-- A request as the handlers rely on it.
abbrev pub WellFormed : HttpRequest → Type 0
WellFormed r =
    (r.valid ≡ true)
    × (r.status ≡ 200)
    × ((r.method ≡ codes "GET") ⊎ (r.method ≡ codes "POST"))
    × (head_is b'/' r.path ≡ true)
    × FitsHeaders r.headers
    × (r.content_length ≤ max_body)

unless-Ensures :
    (b : Bool) (r : HttpRequest) → Refused r → Ensures Refused (λ _. b ≡ false) (unless b r)
unless-Ensures true r h = rejected h
unless-Ensures false r h = holds refl

found_or-Ensures :
    (r : HttpRequest) (o : Option ℕ) → Refused r → Ensures Refused (λ i. o ≡ some i) (found_or r o)
found_or-Ensures r none h = rejected h
found_or-Ensures r (some i) h = holds refl

not-true : (b : Bool) → not b ≡ false → b ≡ true
not-true true h = refl
not-true false h = cc

one_of : (s a b : Bytes) → not (bytes_eq s a || bytes_eq s b) ≡ false → (s ≡ a) ⊎ (s ≡ b)
one_of s a b h = elim (Bool-cases (bytes_eq s a)) [
  | inl e ↦ inl (bytes_eq→eq s a e)
  | inr e ↦ inr (bytes_eq→eq s b (ground arith))
]

parse_line-Ensures : (line : Bytes) → Ensures Refused ReadLine (parse_line line)
unfolding parse_line fail
parse_line-Ensures line =
    Ensures-bind (found_or-Ensures _ (find line (b' ' ∷ []) 0) (refl, inl refl)) λ sp1 _.
      Ensures-bind (found_or-Ensures _ (last_at b' ' 0 none line) (refl, inl refl)) λ sp2 _.
        let method = take sp1 line in
        let target = take (sp2 - sp1 - 1) (drop (suc sp1) line) in
        let version = drop (suc sp2) line in
        let parts = split_target target (find target (b'?' ∷ []) 0) in
        let known = bytes_eq version (codes "HTTP/1.1") || bytes_eq version (codes "HTTP/1.0") in
        let supported = bytes_eq method (codes "GET") || bytes_eq method (codes "POST") in
        Ensures-bind (unless-Ensures (sp1 == sp2) _ (refl, inl refl)) λ _ _.
          Ensures-bind (unless-Ensures (sp2 - sp1 - 1 == 0) _ (refl, inl refl)) λ _ _.
            Ensures-bind
              (unless-Ensures (not known) (fail 400 "version HTTP no soportada") (refl, inl refl))
              λ _ _.
                Ensures-bind
                  (unless-Ensures (not supported) (fail 405 "metodo no soportado")
                    (refl, inr (inl refl)))
                  λ _ get_post.
                    Ensures-bind
                      (unless-Ensures (not (head_is b'/' parts.0)) (fail 400 "path invalido")
                        (refl, inl refl))
                      λ _ slash. holds (
                        one_of method (codes "GET") (codes "POST") get_post,
                        not-true (head_is b'/' parts.0) slash,
                        refl,
                      )

parse_header-Ensures :
    (headers : List HttpHeader) (line : Bytes)
    → All Named headers
    → Ensures Refused FitsHeaders (parse_header headers line)
unfolding parse_header fail
parse_header-Ensures headers line h =
    Ensures-bind (unless-Ensures (leb max_headers (length headers)) _ (refl, inl refl)) λ _ room.
      Ensures-bind (found_or-Ensures _ (find line (b':' ∷ []) 0) (refl, inl refl)) λ colon _.
        Ensures-bind
          (unless-Ensures (is_nil (to_lower (trim (take colon line)))) _ (refl, inl refl))
          λ _ named.
            let name = to_lower (trim (take colon line)) in
            let new : HttpHeader = record { name = name; value = trim (drop (suc colon) line) } in
            holds (
              omega (
                arith,
                length-append headers (new ∷ []),
                leb→lt max_headers (length headers) room,
              ),
              All-append Named headers (new ∷ []) h (named, tt),
            )

first_at-le : (needle : Bytes) (i k : ℕ) (s : Bytes) → first_at needle i s ≡ some k → i ≤ k
unfolding first_at
first_at-le needle i k [] h = cc
first_at-le needle i k (c ∷ cs) h = elim (Bool-cases (is_prefix needle (c ∷ cs))) [
  | inl e ↦ omega (arith, some-injective i k (rw e at h))
  | inr e ↦ omega (arith, first_at-le needle (suc i) k cs (rw e at h))
]

line_end_before-le :
    (he p h_end : ℕ) (o : Option ℕ)
    → ((k : ℕ) → o ≡ some k → p ≤ k)
    → line_end_before he o ≡ some h_end
    → p ≤ h_end
line_end_before-le he p h_end none h e = cc
line_end_before-le he p h_end (some k) h e = elim (Bool-cases (ltb he k)) [
  | inl b ↦ cc (rw b at e)
  | inr b ↦ h h_end (rw b at e)
]

on_line-Ensures :
    (o : Option ℕ) (stop : Parsing (List HttpHeader)) (line : ℕ → Parsing (List HttpHeader))
    → Ensures Refused FitsHeaders stop
    → ((h_end : ℕ) → o ≡ some h_end → Ensures Refused FitsHeaders (line h_end))
    → Ensures Refused FitsHeaders (on_line o stop line)
on_line-Ensures none stop line h k = h
on_line-Ensures (some h_end) stop line h k = k h_end refl

parse_headers-Ensures :
    (f : ℕ) (head : Bytes) (he p : ℕ) (headers : List HttpHeader)
    → he - p < f
    → FitsHeaders headers
    → Ensures Refused FitsHeaders (parse_headers f head he p headers)
unfolding parse_headers find
parse_headers-Ensures zero head he p headers hf h = absurd (omega arith)
parse_headers-Ensures (suc f) head he p headers hf h =
    Ensures-if (ltb p he)
      (λ inside. on_line-Ensures (line_end_before he (find head crlf p)) _ _ (holds h) λ h_end e.
        let later =
          line_end_before-le he p h_end (find head crlf p) (λ k. first_at-le crlf p k (drop p head))
            e in
        Ensures-bind (parse_header-Ensures headers (take (h_end - p) (drop p head)) h.1) λ more hm.
          parse_headers-Ensures f head he (h_end + 2) more (omega (arith, ltb→lt p he inside)) hm)
      (λ _. holds h)

-- The length that a header's value stands for: without the header 0, and otherwise it is in decimal
-- digits.
abbrev pub LengthOf : Option Bytes → ℕ → Type 0
LengthOf none n = n ≡ 0
LengthOf (some cl) n = (all_digits cl ≡ true) × (strtoull cl ≡ some n)

length_value-Ensures :
    (o : Option ℕ) → Ensures Refused (λ n. (n ≤ max_body) × (o ≡ some n)) (length_value o)
unfolding fail
length_value-Ensures none = rejected (refl, inl refl)
length_value-Ensures (some v) =
    Ensures-if (ltb max_body v) (λ _. rejected (refl, inr (inr refl)))
      λ h. holds (ltb→le max_body v h, refl)

parse_length-Ensures :
    (o : Option Bytes) → Ensures Refused (λ n. (n ≤ max_body) × LengthOf o n) (parse_length o)
unfolding parse_length fail
parse_length-Ensures none = holds (omega arith, refl)
parse_length-Ensures (some cl) =
    Ensures-if (not (all_digits cl)) (λ _. rejected (refl, inl refl))
      λ digits.
        Ensures-weaken (length_value-Ensures (strtoull cl))
          λ n h. (h.0, (not-true (all_digits cl) digits, h.1))

-- The header says how long the body is.
abbrev pub Announces : HttpRequest → Type 0
Announces r = LengthOf (header r.headers (codes "content-length")) r.content_length

parse_request_head-Ensures :
    (head : Bytes)
    → Ensures Refused (λ r. WellFormed r × (r.body ≡ []) × Announces r) (parse_request_head head)
unfolding parse_request_head fail
parse_request_head-Ensures head =
    Ensures-bind (found_or-Ensures _ (find head blank_line 0) (refl, inl refl)) λ he _.
      Ensures-bind (unless-Ensures (ltb max_header_block (he + 4)) _ (refl, inl refl)) λ _ _.
        Ensures-bind (found_or-Ensures _ (find head crlf 0) (refl, inl refl)) λ line_end _.
          Ensures-bind (unless-Ensures (line_end == 0) _ (refl, inl refl)) λ _ _.
            Ensures-bind (unless-Ensures (ltb max_request_line line_end) _ (refl, inl refl)) λ _ _.
              Ensures-bind (parse_line-Ensures (take line_end head)) λ r hr.
                Ensures-bind
                  (parse_headers-Ensures (suc he) head he (line_end + 2) [] (omega arith)
                    (omega arith, tt))
                  λ headers hh.
                    Ensures-bind (parse_length-Ensures (header headers (codes "content-length")))
                      λ content_length hc. holds ((refl, refl, hr.0, hr.1, hh, hc.0), hr.2, hc.1)

-- The body is what follows the blank line, as long as the `Content-Length` header says.
abbrev pub Complete : Bytes → HttpRequest → Type 0
Complete raw r =
    Announces r
    × (length r.body ≡ r.content_length)
    × ((he : ℕ) × (find raw blank_line 0 ≡ some he)
        × (r.body ≡ take r.content_length (drop (he + 4) raw)))

parse_http_request-Ensures :
    (raw : Bytes) → Ensures Refused (λ r. WellFormed r × Complete raw r) (parse_http_request raw)
unfolding parse_http_request fail
parse_http_request-Ensures raw =
    Ensures-bind (found_or-Ensures _ (find raw blank_line 0) (refl, inl refl)) λ he at.
      Ensures-bind (parse_request_head-Ensures (take (he + 4) raw)) λ r h.
        Ensures-if (r.content_length == 0)
          (λ e.
            let empty = ==→eq r.content_length 0 e in
            holds (
              h.0,
              (
                h.2,
                omega (arith, ap length h.1, empty),
                (he, at, h.1 ∙ ap (λ n. take n (drop (he + 4) raw)) (sym empty)),
              ),
            ))
          λ _.
            Ensures-if (ltb (length raw) (he + 4 + r.content_length))
              (λ _. rejected (refl, inl refl))
              λ long.
                let enough = ltb→le (length raw) (he + 4 + r.content_length) long in
                let rest = drop (he + 4) raw in
                holds (
                  h.0,
                  (
                    h.2,
                    omega (arith, length-take r.content_length rest, length-drop (he + 4) raw),
                    (he, at, refl),
                  ),
                )

-- Every text is either refused, with status 400, 405 or 413, or read as a request; the fuel of the
-- header loop is enough.
pub parse_http_request-total : (raw : Bytes) → parse_http_request raw ≢ out_of_fuel
parse_http_request-total raw = Ensures-out_of_fuel (parse_http_request-Ensures raw)

-- A request that the parser accepts has the method GET or POST, a path that starts with `/`, at most
-- 32 headers, each with a name, and a body of at most 64 KiB. The body is what follows the first blank
-- line of the text, with exactly as many bytes as its `content-length` header says in decimal digits,
-- and none without that header.
pub parse_http_request-WellFormed :
    (raw : Bytes) (r : HttpRequest) → parse_http_request raw ≡ ok r → WellFormed r × Complete raw r
parse_http_request-WellFormed raw r = Ensures-ok (parse_http_request-Ensures raw)

-- A request that the parser refuses is not valid, and its status is 400, 405 or 413.
pub parse_http_request-failed :
    (raw : Bytes) (r : HttpRequest) → parse_http_request raw ≡ failed r → Refused r
parse_http_request-failed raw r = Ensures-failed (parse_http_request-Ensures raw)
