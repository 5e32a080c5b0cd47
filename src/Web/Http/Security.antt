-- ===== src/Web/Http/Security.antt =====
-- The response writer and the security check of a request (src/web/http.cpp).
use mathlib.Core.Logic.{◌↔◌}
use memory_tools.Numerals.{print_nat}
use memory_tools.Prelude.{
  ℕ, ◌≡◌, ◌⊎◌, inl, inr, refl, Bool, true, false, not, ◌||◌, Option, none, some, ◌++◌, Bytes, codes,
  bytes_eq, bytes_eq→eq, bytes_eq_refl, ◌==◌, if◌then◌else◌, length, Bool-cases, arith,
}
use memory_tools.Web.Http.{HttpRequest, header, crlf}
use memory_tools.Web.Json.{Doubles, object, string, field, no_fields}
use memory_tools.Web.Json.Writer.{write}

unfoldable pub http_reason : ℕ → Bytes
http_reason status =
    if status == 200
    then codes "OK"
    else if status == 400
    then codes "Bad Request"
    else if status == 401
    then codes "Unauthorized"
    else if status == 403
    then codes "Forbidden"
    else if status == 404
    then codes "Not Found"
    else if status == 405
    then codes "Method Not Allowed"
    else if status == 413
    then codes "Payload Too Large"
    else if status == 500
    then codes "Internal Server Error"
    else if status == 503
    then codes "Service Unavailable"
    else codes "Unknown"

-- The response up to its blank line.
unfoldable pub response_head : ℕ → Bytes → ℕ → Bytes
response_head status content_type size =
    codes "HTTP/1.1 "
    ++ print_nat status
    ++ codes " "
    ++ http_reason status
    ++ crlf
    ++ codes "Content-Type: "
    ++ content_type
    ++ crlf
    ++ codes "Content-Length: "
    ++ print_nat size
    ++ crlf
    ++ codes "Connection: close"
    ++ crlf
    ++ crlf

unfoldable pub make_response : ℕ → Bytes → Bytes → Bytes
make_response status content_type body = response_head status content_type (length body) ++ body

-- The two names under which the server answers.
unfoldable pub is_local_host : Bytes → ℕ → Bool
is_local_host host port =
    bytes_eq host (codes "127.0.0.1:" ++ print_nat port)
    || bytes_eq host (codes "localhost:" ++ print_nat port)

unfoldable pub token_status : Option Bytes → Bytes → ℕ
token_status none token = 401
token_status (some t) token = if bytes_eq t token then 0 else 401

unfoldable pub host_status : Option Bytes → Option Bytes → Bytes → ℕ → ℕ
unfolding token_status is_local_host
host_status none t token port = 400
host_status (some host) t token port =
    if not (is_local_host host port) then 400 else token_status t token

-- 0 where the request is let through.
unfoldable pub check_request_security : HttpRequest → Bytes → ℕ → ℕ
unfolding host_status
check_request_security req token port =
    host_status (header req.headers (codes "host"))
      (header req.headers (codes "x-memorytool-token")) token port

unfoldable pub json_error : Doubles → Bytes → Bytes
json_error c message = write c (object (field (codes "error") (string message) no_fields))

token_status-zero : (t : Option Bytes) (token : Bytes) → token_status t token ≡ 0 → t ≡ some token
unfolding token_status
token_status-zero none token h = cc
token_status-zero (some t) token h = elim (Bool-cases (bytes_eq t token)) [
  | inl e ↦ rw (bytes_eq→eq t token e) refl
  | inr e ↦ absurd (ground arith)
]

is_local_host-cases :
    (host : Bytes) (port : ℕ)
    → is_local_host host port ≡ true
    → (host ≡ codes "127.0.0.1:" ++ print_nat port) ⊎ (host ≡ codes "localhost:" ++ print_nat port)
unfolding is_local_host
is_local_host-cases host port h =
    elim (Bool-cases (bytes_eq host (codes "127.0.0.1:" ++ print_nat port))) [
      | inl e ↦ inl (bytes_eq→eq host (codes "127.0.0.1:" ++ print_nat port) e)
      | inr e ↦ inr (bytes_eq→eq host (codes "localhost:" ++ print_nat port) (rw e at h))
    ]

-- The host is one of the two local names with the server's port.
abbrev pub LocalHost : Option Bytes → ℕ → Type 0
LocalHost none port = ⊥
LocalHost (some host) port =
    (host ≡ codes "127.0.0.1:" ++ print_nat port) ⊎ (host ≡ codes "localhost:" ++ print_nat port)

host_status-zero :
    (h t : Option Bytes) (token : Bytes) (port : ℕ)
    → host_status h t token port ≡ 0
    → LocalHost h port × (t ≡ some token)
unfolding host_status
host_status-zero none t token port e = absurd (omega arith)
host_status-zero (some host) t token port e = elim (Bool-cases (is_local_host host port)) [
  | inl local ↦ (is_local_host-cases host port local, token_status-zero t token (rw local at e))
  | inr other ↦ absurd (omega (arith, rw other at e))
]

or_true : (b : Bool) → b || true ≡ true
or_true true = refl
or_true false = refl

local_host : (host : Bytes) (port : ℕ) → LocalHost (some host) port → is_local_host host port ≡ true
unfolding is_local_host
local_host host port (inl e) = rw (e, bytes_eq_refl (codes "127.0.0.1:" ++ print_nat port)) refl
local_host host port (inr e) =
    rw (e, bytes_eq_refl (codes "localhost:" ++ print_nat port)) (or_true _)

zero-host_status :
    (h : Option Bytes) (token : Bytes) (port : ℕ)
    → LocalHost h port
    → host_status h (some token) token port ≡ 0
unfolding host_status token_status
zero-host_status none token port l = absurd l
zero-host_status (some host) token port l = rw (local_host host port l, bytes_eq_refl token) refl

-- A request is let through exactly when its `Host` is 127.0.0.1 or localhost with the server's port
-- and its token header is the session's token.
pub check_request_security-zero :
    (req : HttpRequest) (token : Bytes) (port : ℕ)
    → (check_request_security req token port ≡ 0) ↔ (
        LocalHost (header req.headers (codes "host")) port
        × (header req.headers (codes "x-memorytool-token") ≡ some token))
unfolding check_request_security
check_request_security-zero req token port = (
  host_status-zero (header req.headers (codes "host"))
      (header req.headers (codes "x-memorytool-token")) token port,
  λ h. rw (h.1) (zero-host_status (header req.headers (codes "host")) token port h.0),
)
