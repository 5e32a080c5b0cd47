-- ===== src/Web/Api/Routes.antt =====
-- The dispatch of a request (src/web/api.cpp): `Api::handle`. A route is the handler that is called,
-- with its numbers, or the error that is answered.
pub mod JobPath
use memory_tools.Application.{any_base}
use memory_tools.Prelude.{
  ℕ, zero, suc, ◌-◌, Bool, true, false, ◌&&◌, ◌||◌, not, List, [], ◌∷◌, Option, none, some, Bytes,
  codes, bytes_eq, ltb, ◌==◌, if◌then◌else◌, length, drop, take, is_nil, is_prefix,
}
use memory_tools.Types.Text.{strtoull_in}
use memory_tools.Web.Http.{HttpRequest, only_digits}

pub data Route : Type 0 where
  h_job_get h_job_cancel : ℕ → Route
  h_table h_table_add h_table_add_result h_table_remove h_table_clear h_table_toggle : Route
  h_table_read h_table_set h_table_save h_table_load : Route
  h_pointer_scan h_pointer_add h_pointer_resolve : Route
  h_status h_processes h_attach h_detach h_scan_first h_scan_next h_pattern h_write : Route
  h_pointer_results h_results h_pattern_results h_memory : ℕ → ℕ → Route
  refused : ℕ → Bytes → Route

-- An item `key=value`, split at its first `=`: the value behind the key.
unfoldable pub value_of : Bytes → Bytes → Option Bytes
value_of [] [] = none
value_of [] (c ∷ cs) = if c == b'=' then some cs else none
value_of (k ∷ ks) [] = none
value_of (k ∷ ks) (c ∷ cs) = if c == k && not (c == b'=') then value_of ks cs else none

-- The items between the `&`.
unfoldable pub split_items : Bytes → Bytes × List Bytes
split_items [] = ([], [])
split_items (c ∷ cs) =
    let (item, items) = split_items cs in
    if c == b'&' then ([], item ∷ items) else (c ∷ item, items)

-- `strtoull` with base 0 rejects an empty text too.
unfoldable pub first_value : Bytes → List Bytes → Option ℕ
first_value key [] = none
first_value key (item ∷ items) = elim (value_of key item) [
  | none ↦ first_value key items
  | some v ↦ any_base v
]

unfoldable pub query_uint : Bytes → Bytes → Option ℕ
unfolding split_items first_value
query_uint query key = let (item, items) = split_items query in first_value key (item ∷ items)

abbrev pub value_or : ℕ → Option ℕ → ℕ
value_or def none = def
value_or def (some v) = v

abbrev pub not_found : Route
not_found = refused 404 (codes "not_found")

abbrev pub bad_method : Route
bad_method = refused 405 (codes "method_not_allowed")

abbrev pub on_method : Bytes → Bytes → Route → Route
on_method method wanted route = if not (bytes_eq method wanted) then bad_method else route

abbrev pub on_job : Bytes → Bool → Option ℕ → Route
on_job method want_cancel none = not_found
on_job method true (some id) = on_method method (codes "POST") (h_job_cancel id)
on_job method false (some id) = on_method method (codes "GET") (h_job_get id)

-- The text behind `/api/jobs/`, with or without the `/cancel` at its end.
unfoldable pub job_id_route : Bytes → Bool → Bytes → Route
job_id_route method want_cancel rest =
    if is_nil rest
    then not_found
    else if not (only_digits rest)
    then not_found
    else on_job method want_cancel (strtoull_in 10 rest)

unfoldable pub job_route : Bytes → Bytes → Route
job_route method rest =
    let kept = length rest - 7 in
    if ltb 7 (length rest) && bytes_eq (drop kept rest) (codes "/cancel")
    then job_id_route method true (take kept rest)
    else job_id_route method false rest

-- The comparisons of path and method, in order.
unfoldable pub choose : List (Bytes × Bytes × Route) → Bytes → Bytes → Route → Route
choose [] path method otherwise = otherwise
choose ((p, m, route) ∷ routes) path method otherwise =
    if bytes_eq path p && bytes_eq method m then route else choose routes path method otherwise

abbrev pub table_routes : List (Bytes × Bytes × Route)
table_routes =
    (codes "/api/table", codes "GET", h_table)
    ∷ (codes "/api/table/add", codes "POST", h_table_add)
    ∷ (codes "/api/table/add-result", codes "POST", h_table_add_result)
    ∷ (codes "/api/table/remove", codes "POST", h_table_remove)
    ∷ (codes "/api/table/clear", codes "POST", h_table_clear)
    ∷ (codes "/api/table/toggle", codes "POST", h_table_toggle)
    ∷ (codes "/api/table/read", codes "POST", h_table_read)
    ∷ (codes "/api/table/set", codes "POST", h_table_set)
    ∷ (codes "/api/table/save", codes "POST", h_table_save)
    ∷ (codes "/api/table/load", codes "POST", h_table_load)
    ∷ []

-- Up to two numbers of the query.
abbrev pub paged : (ℕ → ℕ → Route) → Bytes → Bytes → ℕ → Bytes → Route
paged route query first def second =
    route (value_or 0 (query_uint query first)) (value_or def (query_uint query second))

abbrev pub pointer_routes : Bytes → List (Bytes × Bytes × Route)
pointer_routes query =
    (codes "/api/pointer/scan", codes "POST", h_pointer_scan)
    ∷ (codes "/api/pointer/add", codes "POST", h_pointer_add)
    ∷ (codes "/api/pointer/resolve", codes "POST", h_pointer_resolve)
    ∷ (
      codes "/api/pointer/results",
      codes "GET",
      paged h_pointer_results query (codes "offset") 50 (codes "limit"),
    )
    ∷ []

abbrev pub other_routes : Bytes → List (Bytes × Bytes × Route)
other_routes query =
    (codes "/api/status", codes "GET", h_status)
    ∷ (codes "/api/processes", codes "GET", h_processes)
    ∷ (codes "/api/attach", codes "POST", h_attach)
    ∷ (codes "/api/detach", codes "POST", h_detach)
    ∷ (codes "/api/scan/first", codes "POST", h_scan_first)
    ∷ (codes "/api/scan/next", codes "POST", h_scan_next)
    ∷ (codes "/api/pattern", codes "POST", h_pattern)
    ∷ (codes "/api/write", codes "POST", h_write)
    ∷ (
      codes "/api/results",
      codes "GET",
      paged h_results query (codes "offset") 100 (codes "limit"),
    )
    ∷ (
      codes "/api/pattern/results",
      codes "GET",
      paged h_pattern_results query (codes "offset") 100 (codes "limit"),
    )
    ∷ (
      codes "/api/memory",
      codes "GET",
      paged h_memory query (codes "address") 256 (codes "length"),
    )
    ∷ []

-- The paths that are answered with 405 for another method.
abbrev pub known_paths : List Bytes
known_paths =
    codes "/api/status"
    ∷ codes "/api/processes"
    ∷ codes "/api/attach"
    ∷ codes "/api/detach"
    ∷ codes "/api/scan/first"
    ∷ codes "/api/scan/next"
    ∷ codes "/api/pattern"
    ∷ codes "/api/write"
    ∷ codes "/api/results"
    ∷ codes "/api/memory"
    ∷ []

unfoldable pub is_known : List Bytes → Bytes → Bool
is_known [] path = false
is_known (p ∷ ps) path = if bytes_eq path p then true else is_known ps path

unfoldable pub dispatch : Bytes → Bytes → Bytes → Route
unfolding job_route choose is_known query_uint
dispatch query method path =
    if is_prefix (codes "/api/jobs/") path
    then job_route method (drop 10 path)
    else choose table_routes path method (
        if is_prefix (codes "/api/table/") path
        then not_found
        else choose (pointer_routes query) path method (
            if is_prefix (codes "/api/pointer/") path
            then not_found
            else choose (other_routes query) path method
                (if is_known known_paths path then bad_method else not_found)))

unfoldable pub handle : HttpRequest → Route
unfolding dispatch
handle req = dispatch req.query req.method req.path
