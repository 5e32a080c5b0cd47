-- ===== src/Web/Runner.antt =====
-- `JobRunner` (src/web/job_runner.h and job_runner.cpp): the slot for one worker thread, and the
-- worker's way through a job, while other threads ask for the job's cancellation. A step is one atomic
-- operation on the job (Web.Job.Race), what a thread does under one mutex, or the task; what the task
-- returns is an argument. The job is the object that the threads' `shared_ptr`s point to, and `found`
-- is what the registry's `get` returned.
pub mod Turns
pub mod Slot
pub mod Ends
use memory_tools.Prelude.{
  ℕ, zero, suc, Bool, true, false, not, Option, none, some, List, [], ◌∷◌, ◌++◌, Bytes, ◌==◌,
  if◌then◌else◌,
}
use memory_tools.Web.Job
use memory_tools.Web.Job.{Job, JobState, queued, running, is_state}
use memory_tools.Web.Job.Race
use memory_tools.Web.Job.Race.{
  Method, start_method, complete_method, fail_method, cancel_method, entering, returned, advance,
}

pub record JobRunResult : Type 0 where
  pub ok : Bool
  pub cancelled : Bool
  pub count : ℕ
  pub error : Bytes

abbrev pub no_result : JobRunResult
no_result = record { ok = false; cancelled = false; count = 0; error = [] }

-- Where the worker stands: there is none to join; it is to look up its job; it is in `start`; it is to
-- lock the session; it runs the task; the task is over; it is in the call that ends the job; the slot
-- is to be freed; it is over and can be joined.
pub data Phase : Type 0 where
  no_thread launched : Phase
  starting : Race.Phase → Phase
  started in_task : Phase
  task_over : JobRunResult → Phase
  settling : Race.Phase → Phase
  leaving over : Phase

-- Where a thread in `JobRegistry::request_cancel` stands, behind its `get`: it is to load the state; it
-- has seen QUEUED and is in `cancel`; it has seen RUNNING and is to set the flag; it has returned.
pub data Canceller : Type 0 where
  asking : ℕ → Canceller
  cancelling : Race.Phase → Canceller
  marking answered : Canceller

-- `cancellers` are the threads that ask for the cancellation of `job`.
pub record Runner : Type 0 where
  pub active : ℕ
  pub phase : Phase
  pub job : Job
  pub cancellers : List Canceller

-- The threads that still have the object of a job before are of no matter to the new one; one that has
-- the new job already is like one that comes later, since the job is still queued.
abbrev pub launch : ℕ → Option Job → Runner → Runner × Bool
launch id none r = (record r { phase = no_thread }, false)
launch id (some j) r =
    if is_state j.state queued
    then (record { active = id; phase = launched; job = j; cancellers = [] }, true)
    else (record r { phase = no_thread }, false)

-- The old thread is joined before the job is looked up.
unfoldable pub run : ℕ → Option Job → Runner → Runner × Bool
run id found r = if not (r.active == 0) then (r, false) else launch id found r

unfoldable pub busy : Runner → Bool
busy r = not (r.active == 0)

-- `registry_.get`; `listed` says that the registry still has the job.
unfoldable pub look_up : ℕ → Bool → Runner → Runner
look_up now listed r =
    if listed
    then record r { phase = starting (entering (start_method now)) }
    else record r { phase = leaving }

-- Where the worker is behind a step in `start`.
abbrev pub start_phase : Race.Phase → Phase
start_phase (returned m true) = started
start_phase (returned m false) = leaving
start_phase p = starting p

-- The session's mutex is locked and the cancel flag read.
unfoldable pub begin_task : Runner → Runner
begin_task r =
    if r.job.cancel_requested
    then record r { phase = task_over (record no_result { cancelled = true }) }
    else record r { phase = in_task }

-- The task returns, or throws: then the result is one that failed.
unfoldable pub end_task : JobRunResult → Runner → Runner
end_task result r = record r { phase = task_over result }

-- The call that ends the job.
abbrev pub ending_method : ℕ → JobRunResult → Method
ending_method now result =
    if result.cancelled
    then cancel_method now
    else if result.ok
    then complete_method now result.count
    else fail_method now result.error

unfoldable pub settle : ℕ → JobRunResult → Runner → Runner
settle now result r = record r { phase = settling (entering (ending_method now result)) }

abbrev pub settle_phase : Race.Phase → Phase
settle_phase (returned m done) = leaving
settle_phase p = settling p

unfoldable pub finish_slot : Runner → Runner
finish_slot r = record r { active = 0; phase = over }

-- The worker's next atomic operation on the job; `place` says where it is then.
abbrev pub on_job : (Race.Phase → Phase) → Runner → Job × Race.Phase → Runner
on_job place r (j, p) = record r { phase = place p; job = j }

-- What one step of the worker depends on: the clock, whether the registry has the job, what the task
-- returns, and whether a weak exchange fails for no reason.
pub record Turn : Type 0 where
  pub now : ℕ
  pub listed : Bool
  pub result : JobRunResult
  pub spurious : Bool

unfoldable pub worker_in : Phase → Turn → Runner → Runner
unfolding advance
worker_in no_thread t r = r
worker_in launched t r = look_up t.now t.listed r
worker_in (starting p) t r = on_job start_phase r (advance t.spurious r.job p)
worker_in started t r = begin_task r
worker_in in_task t r = end_task t.result r
worker_in (task_over given) t r = settle t.now given r
worker_in (settling p) t r = on_job settle_phase r (advance t.spurious r.job p)
worker_in leaving t r = finish_slot r
worker_in over t r = r

unfoldable pub worker : Turn → Runner → Runner
worker t r = worker_in r.phase t r

-- The loaded state decides what is called.
abbrev pub asked : ℕ → JobState → Canceller
asked now queued = cancelling (entering (cancel_method now))
asked now running = marking
asked now _ = answered

abbrev pub cancel_place : Job × Race.Phase → Job × Canceller
cancel_place (j, returned m done) = (j, answered)
cancel_place (j, p) = (j, cancelling p)

-- One atomic operation of a thread in `request_cancel`.
unfoldable pub cancel_on : Bool → Job → Canceller → Job × Canceller
unfolding advance Job.request_cancel
cancel_on spurious j (asking now) = (j, asked now j.state)
cancel_on spurious j (cancelling p) = cancel_place (advance spurious j p)
cancel_on spurious j marking = (Job.request_cancel j, answered)
cancel_on spurious j answered = (j, answered)

-- The canceller with the index `i` makes a step.
unfoldable pub cancel_at : ℕ → Bool → Job → List Canceller → Job × List Canceller
unfolding cancel_on
cancel_at i spurious j [] = (j, [])
cancel_at zero spurious j (c ∷ cs) = let (k, d) = cancel_on spurious j c in (k, d ∷ cs)
cancel_at (suc i) spurious j (c ∷ cs) = let (k, ds) = cancel_at i spurious j cs in (k, c ∷ ds)

abbrev pub after_cancel : Runner → Job × List Canceller → Runner
after_cancel r (j, cs) = record r { job = j; cancellers = cs }

unfoldable pub cancel_job : ℕ → Bool → Runner → Runner
cancel_job i spurious r = after_cancel r (cancel_at i spurious r.job r.cancellers)

-- A thread has got the job in `request_cancel`.
unfoldable pub ask_cancel : ℕ → Runner → Runner
ask_cancel now r = record r { cancellers = asking now ∷ r.cancellers }

-- `shutdown` before it waits for the thread. It holds the runner's mutex until its `request_cancel` has
-- returned; here `run` and `finish_slot` may come in between, which only allows more orders.
unfoldable pub request_shutdown : ℕ → Bool → Runner → Runner
request_shutdown now listed r = if r.active == 0 then r else if listed then ask_cancel now r else r

-- What the threads do, one step at a time.
pub data Step : Type 0 where
  run_step : ℕ → Option Job → Step
  worker_step : Turn → Step
  ask_step : ℕ → Step
  cancel_step : ℕ → Bool → Step
  shutdown_step : ℕ → Bool → Step

unfoldable pub take_step : Step → Runner → Runner
take_step (run_step id found) r = (run id found r).0
take_step (worker_step t) r = worker t r
take_step (ask_step now) r = ask_cancel now r
take_step (cancel_step i spurious) r = cancel_job i spurious r
take_step (shutdown_step now listed) r = request_shutdown now listed r

unfoldable pub take_steps : List Step → Runner → Runner
take_steps [] r = r
take_steps (s ∷ ss) r = take_steps ss (take_step s r)
