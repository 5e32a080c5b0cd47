-- ===== src/Web/Api/Attached.antt =====
-- What a request to attach leaves (src/web/api.cpp).
use memory_tools.Application.Machine.{Machine}
use memory_tools.Prelude.{
  ℕ, ◌<◌, ◌^◌, ◌≡◌, ◌≢◌, ◌⊎◌, inl, inr, refl, Bool, true, Option, none, some, Bytes, ℤ, pos, negsuc,
  arith, Bool-cases, Option-cases, is_nil, and_then, ltb, ltb→lt,
}
use memory_tools.Application.Scans
use memory_tools.Session
use memory_tools.Session.{Session, is_other}
use memory_tools.Session.Attach.{attach_lem}
use memory_tools.Types.Text.{strtoll_in}
use memory_tools.Web.Api.{
  ApiResponse, as_pid, parse_pid, api_err, api_ok, busy_response, attach_answer, attach_to,
  attach_field, attach_body, parsed_body, body_json, h_attach,
}
use memory_tools.Web.Http.{HttpRequest}
use memory_tools.Web.Json.Parser.{ParseError}
use memory_tools.Web.Json.Runs.{Outcome, ok, failed, out_of_fuel}
use memory_tools.Web.Json.{Doubles, JsonValue, null, bool, int, uint, double, string, array, object}

abbrev Fits : Option ℕ → Type 0
Fits none = Unit
Fits (some pid) = pid < 2 ^ 31

as_pid-Fits : (v : ℤ) → Fits (as_pid v)
as_pid-Fits (pos v) = elim (Bool-cases (ltb v (2 ^ 31))) [
  | inl e ↦ rw e (ltb→lt v (2 ^ 31) e)
  | inr e ↦ rw e tt
]
as_pid-Fits (negsuc v) = tt

and_then-Fits : (o : Option ℤ) → Fits (and_then o as_pid)
and_then-Fits none = tt
and_then-Fits (some v) = as_pid-Fits v

parse_pid-Fits : (s : Bytes) → Fits (parse_pid s)
unfolding parse_pid
parse_pid-Fits s = elim (Bool-cases (is_nil s)) [
  | inl e ↦ rw e tt
  | inr e ↦ rw e (and_then-Fits (strtoll_in 10 s))
]

-- Refused with the session as it was, or attached to a process of which the memory can be opened.
abbrev pub Attached : Machine → Bool → Session → Session × ApiResponse → Type 0
Attached m free s out =
    ((out.0 ≡ s) × (out.1.status ≢ 200))
    ⊎ ((pid : ℕ) × (pid < 2 ^ 31)
        × (free ≡ true)
        × (m.open_memory pid ≡ none)
        × (out.0 ≡ (Session.attach m.open_memory pid s).0)
        × (out.1.status ≡ 200))

-- An answer that is given instead of a value is no success.
abbrev IsRefused : JsonValue ⊎ ApiResponse → Type 0
IsRefused (inl v) = Unit
IsRefused (inr answer) = answer.status ≢ 200

module _ (c : Doubles) (m : Machine) (free : Bool) (s : Session) where
  answered :
      (pid : ℕ) (switching : Bool) (a : Session × Option Bytes)
      → a.1 ≡ none
      → ((attach_answer c pid (Scans.attached switching a)).0 ≡ a.0)
        × ((attach_answer c pid (Scans.attached switching a)).1.status ≡ 200)
  unfolding api_ok
  answered pid switching (t, none) e = (refl, refl)
  answered pid switching (t, some error) e = absurd (cc)

  attach_to-Attached : (p : Option ℕ) → Fits p → Attached m free s (attach_to c m free s p)
  unfolding api_err api_ok busy_response Scans.attach
  attach_to-Attached none h = inl (refl, omega arith)
  attach_to-Attached (some pid) h = elim (Bool-cases free) [
    | inl f ↦ elim (Option-cases (m.open_memory pid)) [
      | inl able ↦
          let (same, fine) =
            answered pid (is_other s.pid pid) (Session.attach m.open_memory pid s)
              ((attach_lem m.open_memory pid s).1 able).1 in
          rw f (inr (pid, h, refl, able, same, fine))
      | inr (e, refused) ↦
          rw (f, (attach_lem m.open_memory pid s).0 e refused) (inl (refl, omega arith))
    ]
    | inr f ↦ rw f (inl (refl, omega arith))
  ]

  attach_field-Attached : (f : Option JsonValue) → Attached m free s (attach_field c m free s f)
  unfolding api_err
  attach_field-Attached none = inl (refl, omega arith)
  attach_field-Attached (some (string text)) =
      attach_to-Attached (parse_pid text) (parse_pid-Fits text)
  attach_field-Attached (some (int i)) = attach_to-Attached _ (parse_pid-Fits _)
  attach_field-Attached (some null) = inl (refl, omega arith)
  attach_field-Attached (some (bool b)) = inl (refl, omega arith)
  attach_field-Attached (some (uint u)) = inl (refl, omega arith)
  attach_field-Attached (some (double d)) = inl (refl, omega arith)
  attach_field-Attached (some (array xs)) = inl (refl, omega arith)
  attach_field-Attached (some (object fs)) = inl (refl, omega arith)

  attach_body-Attached :
      (b : JsonValue ⊎ ApiResponse) → IsRefused b → Attached m free s (attach_body c m free s b)
  attach_body-Attached (inl b) h = attach_field-Attached _
  attach_body-Attached (inr answer) h = inl (refl, h)

  parsed_body-IsRefused : (o : Outcome ParseError JsonValue) → IsRefused (parsed_body c o)
  unfolding api_err
  parsed_body-IsRefused (ok v) = tt
  parsed_body-IsRefused (failed e) = omega arith
  parsed_body-IsRefused out_of_fuel = omega arith

  body_json-IsRefused : (req : HttpRequest) → IsRefused (body_json c req)
  unfolding body_json api_err
  body_json-IsRefused req = elim (Bool-cases (is_nil req.body)) [
    | inl e ↦ rw e (omega arith)
    | inr e ↦ rw e (parsed_body-IsRefused _)
  ]

  -- A request to attach is either refused, with a status other than 200 and the session as it was, or
  -- it is answered with 200: then no worker held the session, the process id is below 2^31, the
  -- process's memory can be opened, and the session is what attaching to it leaves.
  pub h_attach-Attached : (req : HttpRequest) → Attached m free s (h_attach c m free req s)
  unfolding h_attach
  h_attach-Attached req = attach_body-Attached (body_json c req) (body_json-IsRefused req)
