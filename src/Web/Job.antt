-- ===== src/Web/Job.antt =====
-- One background job (class `Job` of src/web/jobs.h and jobs.cpp). The atomics and the fields under
-- the mutex are the fields of one record; a method returns the new record and its result. The
-- steady clock is the argument `now`, in nanoseconds; a `time_point{}` is 0.
pub mod Laws
pub mod Race
use memory_tools.Prelude.{
  ℕ, ◌-◌, ◌/◌, [], Bool, true, false, Bytes, codes, ◌==◌, if◌then◌else◌, not,
}

pub data JobState : Type 0 where
  queued running completed failed cancelled : JobState

unfoldable pub job_state_name : JobState → Bytes
job_state_name queued = codes "queued"
job_state_name running = codes "running"
job_state_name completed = codes "completed"
job_state_name failed = codes "failed"
job_state_name cancelled = codes "cancelled"

pub record Job : Type 0 where
  pub id : ℕ
  pub kind : Bytes
  pub state : JobState
  pub cancel_requested : Bool
  pub bytes_scanned : ℕ
  pub count : ℕ
  pub total_bytes : ℕ
  pub started_at : ℕ
  pub elapsed_ms : ℕ
  pub error : Bytes

unfoldable pub new_job : ℕ → Bytes → Job
new_job id kind = record {
  id = id;
  kind = kind;
  state = queued;
  cancel_requested = false;
  bytes_scanned = 0;
  count = 0;
  total_bytes = 0;
  started_at = 0;
  elapsed_ms = 0;
  error = [];
}

-- QUEUED or RUNNING, the test that the methods and the registry share.
abbrev pub is_active : JobState → Bool
is_active queued = true
is_active running = true
is_active _ = false

-- `duration_cast<milliseconds>(now - started_at)`; the clock is steady, so `-` is exact.
abbrev pub since_ms : ℕ → ℕ → ℕ
since_ms now started = (now - started) / 1_000_000

elapsed_in : JobState → ℕ → Job → ℕ
elapsed_in running now j = if j.started_at == 0 then j.elapsed_ms else since_ms now j.started_at
elapsed_in _ now j = j.elapsed_ms

unfoldable pub elapsed : ℕ → Job → ℕ
unfolding elapsed_in
elapsed now j = elapsed_in j.state now j

unfoldable pub set_total_bytes : ℕ → Job → Job
set_total_bytes n j = record j { total_bytes = n }

unfoldable pub set_bytes_scanned : ℕ → Job → Job
set_bytes_scanned n j = record j { bytes_scanned = n }

unfoldable pub set_count : ℕ → Job → Job
set_count n j = record j { count = n }

unfoldable pub request_cancel : Job → Job
request_cancel j = record j { cancel_requested = true }

-- The call of the function that `make_progress_callback` returns.
unfoldable pub report_progress : ℕ → ℕ → Job → Job
unfolding set_total_bytes set_bytes_scanned
report_progress scanned total j = set_bytes_scanned scanned (set_total_bytes total j)

-- `compare_exchange_strong` from one state.
abbrev pub is_state : JobState → JobState → Bool
is_state queued queued = true
is_state running running = true
is_state completed completed = true
is_state failed failed = true
is_state cancelled cancelled = true
is_state _ _ = false

unfoldable pub transition : JobState → JobState → Job → Job × Bool
transition from to j = if is_state j.state from then (record j { state = to }, true) else (j, false)

-- The loop with `compare_exchange_weak`, run without interference: it ends in one round.
unfoldable pub transition_active_to : JobState → Job → Job × Bool
transition_active_to to j =
    if is_active j.state then (record j { state = to }, true) else (j, false)

unfoldable pub mark_terminal : ℕ → Job → Job
mark_terminal now j =
    if j.started_at == 0 then j else record j { elapsed_ms = since_ms now j.started_at }

unfoldable pub start : ℕ → Job → Job × Bool
unfolding transition
start now j =
    let (k, done) = transition queued running j in
    if done then (record k { started_at = now }, true) else (k, false)

unfoldable pub complete : ℕ → ℕ → Job → Job × Bool
unfolding transition mark_terminal
complete now count j =
    let (k, done) = transition running completed j in
    if done then (mark_terminal now (record k { count = count }), true) else (k, false)

unfoldable pub fail : ℕ → Bytes → Job → Job × Bool
unfolding transition_active_to mark_terminal
fail now error j =
    let (k, done) = transition_active_to failed j in
    if done then (mark_terminal now (record k { error = error }), true) else (k, false)

unfoldable pub cancel : ℕ → Job → Job × Bool
unfolding transition_active_to mark_terminal
cancel now j =
    let (k, done) = transition_active_to cancelled j in
    if done then (mark_terminal now (record k { cancel_requested = true }), true) else (k, false)
