-- ===== src/Web/Api.antt =====
-- The JSON interface (src/web/api.cpp): the reading of a request's fields, the start of a job, and
-- the handlers that attach and detach the process.
pub mod Names
pub mod Attached
pub mod Start
pub mod Routes
use memory_tools.Application.Machine.{Machine}
use memory_tools.Application.Scans
use memory_tools.Application.Scans.{ScanOutcome, AttachOutcome}
use memory_tools.Numerals.{print_nat, print_int}
use memory_tools.Pattern.{BytePattern, parse_pattern, pattern_from_text}
use memory_tools.Prelude.{
  ℕ, ◌⊎◌, inl, inr, ◌^◌, Bool, true, false, not, ◌&&◌, ◌||◌, List, [], ◌∷◌, Option, none, some,
  Bytes, codes, bytes_eq, ◌==◌, leb, ltb, if◌then◌else◌, length, is_nil, head_is, and_then, ℤ, pos,
  negsuc,
}
use memory_tools.Scanner.{Filter}
use memory_tools.Session
use memory_tools.Session.{Session}
use memory_tools.Types.{DataType}
use memory_tools.Types.Text.{strtoll_in}
use memory_tools.Web.Http.{HttpRequest}
use memory_tools.Web.Job.{Job}
use memory_tools.Web.Json
use memory_tools.Web.Json.{
  Doubles, JsonValue, Fields, bool, int, string, object, no_fields, field, as_object,
}
use memory_tools.Web.Json.Parser.{ParseError, parse}
use memory_tools.Web.Json.Runs.{Outcome, ok, failed, out_of_fuel}
use memory_tools.Web.Json.Writer.{write}
use memory_tools.Web.Registry
use memory_tools.Web.Registry.{Registry, create, request_cancel}
use memory_tools.Web.Runner.{JobRunResult, Runner, run}

pub record ApiResponse : Type 0 where
  pub status : ℕ
  pub body : Bytes

-- A process id is a decimal number up to INT_MAX.
abbrev pub as_pid : ℤ → Option ℕ
as_pid (pos v) = if ltb v (2 ^ 31) then some v else none
as_pid (negsuc v) = none

unfoldable pub parse_pid : Bytes → Option ℕ
parse_pid s = if is_nil s then none else and_then (strtoll_in 10 s) as_pid

-- `std::isalnum` in the C locale, `_`, `-` and `.`.
unfoldable pub is_name_char : ℕ → Bool
is_name_char c =
    leb b'0' c && leb c b'9'
    || leb b'A' c && leb c b'Z'
    || leb b'a' c && leb c b'z'
    || c == b'_'
    || c == b'-'
    || c == b'.'

unfoldable pub all_name_chars : Bytes → Bool
all_name_chars [] = true
all_name_chars (c ∷ cs) = if is_name_char c then all_name_chars cs else false

unfoldable pub valid_table_name : Bytes → Bool
valid_table_name n =
    if is_nil n || ltb 64 (length n)
    then false
    else if bytes_eq n (codes ".") || bytes_eq n (codes "..")
    then false
    else if head_is b'.' n
    then false
    else all_name_chars n

unfoldable pub parse_filter : Bytes → Option Filter
parse_filter s =
    if bytes_eq s (codes "exact")
    then some Filter.exact
    else if bytes_eq s (codes "changed")
    then some Filter.changed
    else if bytes_eq s (codes "unchanged")
    then some Filter.unchanged
    else if bytes_eq s (codes "increased")
    then some Filter.increased
    else if bytes_eq s (codes "decreased")
    then some Filter.decreased
    else if bytes_eq s (codes "greater")
    then some Filter.greater
    else if bytes_eq s (codes "less")
    then some Filter.less
    else if bytes_eq s (codes "ge") || bytes_eq s (codes ">=")
    then some Filter.ge
    else if bytes_eq s (codes "le") || bytes_eq s (codes "<=")
    then some Filter.le
    else if bytes_eq s (codes "ne") || bytes_eq s (codes "!=")
    then some Filter.ne
    else none

unfoldable pub from_scan : ScanOutcome → JobRunResult
from_scan o = record { ok = o.ok; cancelled = o.cancelled; count = o.count; error = o.error }

-- The session's mutex is tried; `free` says that no worker holds it.
module _ (c : Doubles) where
  abbrev pub with_ok : JsonValue → JsonValue
  with_ok (object fs) = object (field (codes "ok") (bool true) fs)
  with_ok v = v

  unfoldable pub api_ok : JsonValue → ApiResponse
  api_ok v = record { status = 200; body = write c (with_ok v) }

  unfoldable pub api_err : ℕ → Bytes → Bytes → ApiResponse
  api_err status code msg = record {
    status = status;
    body = write c (
        object (
          field (codes "ok") (bool false)
            (field (codes "error") (string msg) (field (codes "code") (string code) no_fields))));
  }

  unfoldable pub busy_response : ApiResponse
  unfolding api_err
  busy_response = api_err 409 (codes "busy") (codes "Another operation is running")

  abbrev pub bad_request : Bytes → ApiResponse
  bad_request msg = api_err 400 (codes "bad_request") msg

  abbrev pub parsed_body : Outcome ParseError JsonValue → JsonValue ⊎ ApiResponse
  parsed_body (ok v) = inl v
  parsed_body (failed e) = inr (bad_request (codes e.message))
  parsed_body out_of_fuel = inr (bad_request [])

  -- The value, or the answer. `parse` never runs out of fuel.
  unfoldable pub body_json : HttpRequest → JsonValue ⊎ ApiResponse
  body_json req =
      if is_nil req.body
      then inr (bad_request (codes "cuerpo JSON vacio"))
      else parsed_body (parse c req.body)

  abbrev pub launched_job :
      ℕ → ℕ → Registry → Runner × Bool → Registry × Runner × ApiResponse × Bool
  launched_job now id r (rn, true) = (
    r,
    rn,
    api_ok (
        object (
          field (codes "job_id") (string (print_nat id))
            (field (codes "state") (string (codes "queued")) no_fields))),
    true,
  )
  launched_job now id r (rn, false) = ((request_cancel now id r).0, rn, busy_response, false)

  -- No other thread's call comes between the three. The clock is read when the job is cancelled.
  unfoldable pub start_job : ℕ → Bytes → Registry → Runner → Registry × Runner × ApiResponse × Bool
  unfolding create run request_cancel
  start_job now kind r rn =
      let (after, id) = create kind r in
      if id == 0
      then (after, rn, busy_response, false)
      else launched_job now id after (run id (Registry.get id after) rn)

  abbrev pub attach_answer : ℕ → Session × AttachOutcome → Session × ApiResponse
  attach_answer pid (s, o) = (
    s,
    if not o.ok
        then api_err 400 (codes "failed") o.error
        else api_ok (
            object (
              field (codes "attached") (bool true) (
                field (codes "pid") (string (print_nat pid))
                  (field (codes "switched") (bool o.switched) no_fields)))),
  )

  abbrev pub attach_to : Machine → Bool → Session → Option ℕ → Session × ApiResponse
  attach_to m free s none = (s, bad_request (codes "pid invalido o fuera de rango"))
  attach_to m free s (some pid) =
      if not free then (s, busy_response) else attach_answer pid (Scans.attach m pid s)

  abbrev pub attach_field : Machine → Bool → Session → Option JsonValue → Session × ApiResponse
  attach_field m free s none = (s, bad_request (codes "falta el campo pid"))
  attach_field m free s (some (string text)) = attach_to m free s (parse_pid text)
  attach_field m free s (some (int i)) = attach_to m free s (parse_pid (print_int i))
  attach_field m free s (some _) = (s, bad_request (codes "pid invalido"))

  abbrev pub attach_body :
      Machine → Bool → Session → JsonValue ⊎ ApiResponse → Session × ApiResponse
  attach_body m free s (inr answer) = (s, answer)
  attach_body m free s (inl b) = attach_field m free s (Json.get b (codes "pid"))

  unfoldable pub h_attach : Machine → Bool → HttpRequest → Session → Session × ApiResponse
  h_attach m free req s = attach_body m free s (body_json req)

  unfoldable pub h_detach : Bool → Session → Session × ApiResponse
  h_detach free s =
      if not free
      then (s, busy_response)
      else (Session.detach s, api_ok (object (field (codes "attached") (bool false) no_fields)))
