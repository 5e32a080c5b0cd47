-- ===== src/Web/Job/Laws.antt =====
-- What a sequence of calls of the `Job` methods does to the state machine.
use memory_tools.Prelude.{
  ℕ, ◌≡◌, ◌≢◌, refl, ◌<◌, ◌⊎◌, Bool, true, false, List, [], ◌∷◌, arith, Bytes,
}
use memory_tools.Web.Job.{
  Job, JobState, queued, running, completed, failed, cancelled, new_job, is_active, report_progress,
  request_cancel, set_count, start, complete, fail, cancel,
}

-- One call of a mutator, with the time at which it is made.
pub data Call : Type 0 where
  start_call : ℕ → Call
  complete_call : ℕ → ℕ → Call
  fail_call : ℕ → Bytes → Call
  cancel_call : ℕ → Call
  request_call : Call
  count_call : ℕ → Call
  progress_call : ℕ → ℕ → Call

unfoldable pub call : Call → Job → Job × Bool
call (start_call now) j = start now j
call (complete_call now n) j = complete now n j
call (fail_call now e) j = fail now e j
call (cancel_call now) j = cancel now j
call request_call j = (request_cancel j, true)
call (count_call n) j = (set_count n j, true)
call (progress_call s t) j = (report_progress s t j, true)

unfoldable pub calls : List Call → Job → Job
calls [] j = j
calls (c ∷ cs) j = calls cs (call c j).0

infix 40 ◌⟶◌
-- The diagram of the states.
pub data ◌⟶◌ : JobState → JobState → Type 0 where
  begins : queued ⟶ running
  ends_well : running ⟶ completed
  fails : {s : JobState} → is_active s ≡ true → s ⟶ failed
  stops : {s : JobState} → is_active s ≡ true → s ⟶ cancelled

-- The calls that attempt a transition.
abbrev pub moves : Call → Bool
moves (start_call _) = true
moves (complete_call _ _) = true
moves (fail_call _ _) = true
moves (cancel_call _) = true
moves _ = false

-- A call follows an edge of the diagram if it attempts a transition and returns true, and leaves
-- the state alone otherwise.
pub call-follows_diagram :
    (c : Call) (j : Job)
    → ((moves c ≡ true) × ((call c j).1 ≡ true) × (j.state ⟶ (call c j).0.state))
      ⊎ (((moves c ≡ false) ⊎ ((call c j).1 ≡ false)) × ((call c j).0.state ≡ j.state))
unfolding call start complete fail cancel request_cancel set_count report_progress
call-follows_diagram c j = grind (arith, begins, ends_well, fails, stops)

-- A refused call changes nothing at all.
pub call-refused : (c : Call) (j : Job) → (call c j).1 ≡ false → (call c j).0 ≡ j
unfolding call start complete fail cancel request_cancel set_count report_progress
call-refused c j h = ground arith

call-terminal :
    (c : Call) (j : Job)
    → is_active j.state ≡ false
    → ((call c j).0.state ≡ j.state)
      × ((call c j).0.error ≡ j.error)
      × ((call c j).0.elapsed_ms ≡ j.elapsed_ms)
unfolding call start complete fail cancel request_cancel set_count report_progress
call-terminal c j h = ground arith

-- A job that has ended keeps its state, its error and its duration under any later calls.
pub calls-terminal :
    (cs : List Call) (j : Job)
    → is_active j.state ≡ false
    → ((calls cs j).state ≡ j.state)
      × ((calls cs j).error ≡ j.error)
      × ((calls cs j).elapsed_ms ≡ j.elapsed_ms)
unfolding calls
calls-terminal [] j h = (refl, refl, refl)
calls-terminal (c ∷ cs) j h = ground (arith, call-terminal c j h, calls-terminal cs (call c j).0)

-- What holds of a job between two calls.
pub record IsConsistent (j : Job) : Type 0 where
  pub cancelled_flag : j.state ≡ cancelled → j.cancel_requested ≡ true
  pub queued_unstarted : j.state ≡ queued → j.started_at ≡ 0
  pub completed_started : j.state ≡ completed → j.error ≡ []
  pub error_failed : j.error ≢ [] → j.state ≡ failed
  pub elapsed_ended : 0 < j.elapsed_ms → is_active j.state ≡ false

pub new_job-IsConsistent : (id : ℕ) (kind : Bytes) → IsConsistent (new_job id kind)
unfolding new_job
new_job-IsConsistent id kind = ground arith

call-IsConsistent : (c : Call) (j : Job) → IsConsistent j → IsConsistent (call c j).0
unfolding call start complete fail cancel request_cancel set_count report_progress
call-IsConsistent c j h = ground arith

calls_keep-IsConsistent : (cs : List Call) (j : Job) → IsConsistent j → IsConsistent (calls cs j)
unfolding calls
calls_keep-IsConsistent [] j h = h
calls_keep-IsConsistent (c ∷ cs) j h =
    calls_keep-IsConsistent cs (call c j).0 (call-IsConsistent c j h)

-- Whatever calls are made on a new job, a cancelled job has its flag set, a queued one was never
-- started, a completed one has no error message, a message is there only after a failure, and a
-- duration only after the end.
pub calls-IsConsistent :
    (cs : List Call) (id : ℕ) (kind : Bytes) → IsConsistent (calls cs (new_job id kind))
calls-IsConsistent cs id kind =
    calls_keep-IsConsistent cs (new_job id kind) (new_job-IsConsistent id kind)
