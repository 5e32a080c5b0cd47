-- ===== src/Tests/Api.antt =====
-- Requests to the JSON interface.
use memory_tools.Prelude.{
  ℕ, ◌≡◌, ◌≤◌, ◌<◌, refl, true, false, All, length, head_is, [], some, codes, arith,
}
use memory_tools.Tests.Sessions.{machine}
use memory_tools.Tests.Tables.{session}
use memory_tools.Tests.Texts.{doubles}
use memory_tools.Web.Api.{start_job, h_attach, valid_table_name}
use memory_tools.Web.Api.Attached.{Attached, h_attach-Attached}
use memory_tools.Web.Api.Names.{IsPlain, valid_table_name-IsPlain}
use memory_tools.Web.Api.Routes.{Route, query_uint, handle, not_found, bad_method}
use memory_tools.Web.Api.Routes.JobPath.{handle_job_path}
use memory_tools.Web.Api.Start.{Starts, start_job_lem}
use memory_tools.Web.Http.{HttpRequest, empty_request}
use memory_tools.Web.Job.{new_job}
use memory_tools.Web.Registry.{empty, has_active_job}
use memory_tools.Web.Registry.Policy.{empty-IsValid}
use memory_tools.Web.Runner.{Runner, leaving, busy}

-- The runner is about to free the slot of an ended job.
abbrev ending : Runner
ending = record { active = 1; phase = leaving; job = new_job 1 (codes "scan"); cancellers = [] }

start_job_lem_example :
    Starts doubles empty ending false true (start_job doubles 5 (codes "scan") empty ending)
unfolding empty has_active_job busy
start_job_lem_example = start_job_lem doubles 5 (codes "scan") empty ending empty-IsValid

abbrev attach_request : HttpRequest
attach_request = record empty_request {
  method = codes "POST";
  path = codes "/api/attach";
  body = codes "{\"pid\": 11}";
}

h_attach-Attached_example :
    Attached machine true session (h_attach doubles machine true attach_request session)
h_attach-Attached_example = h_attach-Attached doubles machine true session attach_request

valid_table_name-IsPlain_example :
    (0 < length (codes "gold-1.tbl"))
    × (length (codes "gold-1.tbl") ≤ 64)
    × (head_is b'.' (codes "gold-1.tbl") ≡ false)
    × All IsPlain (codes "gold-1.tbl")
unfolding valid_table_name head_is memory_tools.Prelude.bytes_eq memory_tools.Web.Api.all_name_chars
    memory_tools.Web.Api.is_name_char
valid_table_name-IsPlain_example = valid_table_name-IsPlain (codes "gold-1.tbl") refl

abbrev job_request : HttpRequest
job_request = record empty_request { method = codes "POST"; path = codes "/api/jobs/42/cancel" }

handle_job_path_example :
    (handle (record job_request { path = codes "/api/jobs/42" })
      ≡ Route.refused 405 (codes "method_not_allowed"))
    × (handle job_request ≡ Route.h_job_cancel 42)
unfolding memory_tools.Numerals.print_nat memory_tools.Numerals.decimal
    memory_tools.Prelude.bytes_eq
handle_job_path_example = handle_job_path job_request 42 (omega arith)

-- A known path with another method: only the listed paths are answered with 405.
results_method :
    handle (record empty_request { method = codes "POST"; path = codes "/api/results" })
    ≡ bad_method
unfolding handle memory_tools.Prelude.is_prefix memory_tools.Prelude.bytes_eq
results_method = refl

pattern_results_method :
    handle (record empty_request { method = codes "POST"; path = codes "/api/pattern/results" })
    ≡ not_found
unfolding handle memory_tools.Prelude.is_prefix memory_tools.Prelude.bytes_eq
pattern_results_method = refl

query_run : query_uint (codes "offset=0x10&limit=5") (codes "limit") ≡ some 5
unfolding query_uint memory_tools.Web.Api.Routes.value_of memory_tools.Table.File.strtoull_whole
    head_is memory_tools.Prelude.skip_blanks memory_tools.Prelude.c_string
    memory_tools.Prelude.is_blank memory_tools.Table.File.magnitude
    memory_tools.Numerals.based_value memory_tools.Numerals.digit_value
    memory_tools.Pattern.hex_value
query_run = refl
