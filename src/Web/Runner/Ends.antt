-- ===== src/Web/Runner/Ends.antt =====
-- How the job runner's worker comes to its end.
use memory_tools.Prelude.{
  ℕ, suc, ◌+◌, ◌≤◌, ◌≡◌, refl, ap, Bool, false, List, [], ◌∷◌, arith, All, ◌-◌, inl, inr,
  if◌then◌else◌,
}
use memory_tools.Web.Job.{Job, JobState, running, is_active, is_state, mark_terminal}
use memory_tools.Web.Job.Race
use memory_tools.Web.Job.Race.{
  Method, start_method, complete_method, entering, loaded, exchanged, stored, returned, advance,
}
use memory_tools.Web.Runner.{
  Phase, no_thread, launched, starting, started, in_task, task_over, settling, leaving, over,
  Runner, Turn, look_up, begin_task, end_task, settle, finish_slot, start_phase, settle_phase,
  worker, worker_in, cancel_job, ask_cancel, request_shutdown, Step, run_step, worker_step,
  ask_step, cancel_step, shutdown_step, take_step, take_steps,
}
use memory_tools.Web.Runner.Turns.{
  is_working, StartFits, EndFits, Fits, IsValid, Leaves, cancel_at-Leaves,
}
use memory_tools.Web.Runner.Slot.{IsStep, idle-Fits, take_step-IsValid, take_steps-IsValid}

-- How many operations a call on the job has left, at most.
abbrev pub race_left : Race.Phase → JobState → ℕ
race_left (entering (start_method now)) s = 3
race_left (entering (complete_method now n)) s = 3
race_left (entering m) s = if is_active s then 4 else 1
race_left (loaded m seen) s = if is_active s then 3 else 2
race_left (exchanged m) s = 2
race_left (stored m) s = 1
race_left (returned m done) s = 0

-- How many turns the worker has left, at most.
abbrev pub left : Phase → JobState → ℕ
left no_thread s = 0
left launched s = 12
left (starting p) s = 8 + race_left p s
left started s = 8
left in_task s = 7
left (task_over result) s = 6
left (settling p) s = 1 + race_left p s
left leaving s = 1
left over s = 0

left_le : (p : Phase) (s : JobState) → left p s ≤ 12
left_le p s = ground arith

starting_left :
    (j : Job) (p : Race.Phase)
    → StartFits p j.state
    → left (start_phase (advance false j p).1) (advance false j p).0.state ≤ 7 + race_left p j.state
unfolding advance mark_terminal
starting_left j p w = ground arith

settling_left :
    (j : Job) (p : Race.Phase)
    → EndFits p j.state
    → left (settle_phase (advance false j p).1) (advance false j p).0.state ≤ race_left p j.state
unfolding advance mark_terminal
settling_left j p w = ground arith

worker_left :
    (t : Turn) (r : Runner) (p : Phase)
    → r.phase ≡ p
    → t.spurious ≡ false
    → Fits p r.job.state
    → left (worker_in p t r).phase (worker_in p t r).job.state ≤ left p r.job.state - 1
unfolding worker_in look_up begin_task end_task settle finish_slot
worker_left t r no_thread e calm w = rw e (omega arith)
worker_left t r over e calm w = rw e (omega arith)
worker_left t r launched e calm w = ground arith
worker_left t r (starting p) e calm w = rw calm (omega (arith, starting_left r.job p w))
worker_left t r started e calm w = ground arith
worker_left t r in_task e calm w = omega arith
worker_left t r (task_over given) e calm w = ground arith
worker_left t r (settling p) e calm w = rw calm (omega (arith, settling_left r.job p w))
worker_left t r leaving e calm w = omega arith

left-cancelled : (p : Phase) (s : JobState) → left p JobState.cancelled ≤ left p s
left-cancelled p s = ground arith

left-Leaves : (p : Phase) (s after : JobState) → Leaves s after → left p after ≤ left p s
left-Leaves p s after (inl same) = omega (arith, ap (left p) same)
left-Leaves p s after (inr same) = omega (arith, ap (left p) same, left-cancelled p s)

-- How often the worker makes a step.
unfoldable pub turns : List Step → ℕ
turns [] = 0
turns (worker_step t ∷ ss) = suc (turns ss)
turns (_ ∷ ss) = turns ss

-- No new job is submitted, and no weak exchange of the worker fails for no reason.
abbrev pub IsQuiet : Step → Type 0
IsQuiet (run_step id found) = ⊥
IsQuiet (worker_step t) = t.spurious ≡ false
IsQuiet _ = Unit

quiet_IsStep : (s : Step) → IsQuiet s → IsStep s
quiet_IsStep (run_step id found) h = absurd h
quiet_IsStep (worker_step t) h = tt
quiet_IsStep (ask_step now) h = tt
quiet_IsStep (cancel_step i spurious) h = tt
quiet_IsStep (shutdown_step now listed) h = tt

shutdown_left :
    (now : ℕ) (listed : Bool) (r : Runner)
    → left (request_shutdown now listed r).phase (request_shutdown now listed r).job.state
      ≡ left r.phase r.job.state
unfolding request_shutdown ask_cancel
shutdown_left now listed r = ground arith

-- A step of another thread leaves the worker no more turns, and one of its own one less.
step_left :
    (s : Step) (r : Runner)
    → IsQuiet s
    → IsValid r
    → left (take_step s r).phase (take_step s r).job.state
      ≤ left r.phase r.job.state - turns (s ∷ [])
unfolding take_step turns worker cancel_job ask_cancel
step_left (run_step id found) r h v = absurd h
step_left (worker_step t) r h v = worker_left t r r.phase refl h v.0.2
step_left (ask_step now) r h v = omega arith
step_left (cancel_step i spurious) r h v =
    omega (arith, left-Leaves r.phase _ _ (cancel_at-Leaves i spurious r.job r.cancellers v.1).1)
step_left (shutdown_step now listed) r h v = omega (arith, shutdown_left now listed r)

turns-step : (s : Step) (ss : List Step) → turns (s ∷ ss) ≡ turns (s ∷ []) + turns ss
unfolding turns
turns-step (run_step id found) ss = omega arith
turns-step (worker_step t) ss = omega arith
turns-step (ask_step now) ss = omega arith
turns-step (cancel_step i spurious) ss = omega arith
turns-step (shutdown_step now listed) ss = omega arith

steps_left :
    (ss : List Step) (r : Runner)
    → All IsQuiet ss
    → IsValid r
    → left (take_steps ss r).phase (take_steps ss r).job.state ≤ left r.phase r.job.state - turns ss
unfolding take_steps turns
steps_left [] r h v = omega arith
steps_left (s ∷ ss) r h v = omega (
  arith,
  turns-step s ss,
  step_left s r h.0 v,
  steps_left ss (take_step s r) h.1 (take_step-IsValid s r (quiet_IsStep s h.0) v),
)

quiet_steps : (ss : List Step) → All IsQuiet ss → All IsStep ss
quiet_steps [] h = tt
quiet_steps (s ∷ ss) h = (quiet_IsStep s h.0, quiet_steps ss h.1)

ended : (p : Phase) (s : JobState) → left p s ≡ 0 → is_working p ≡ false
ended p s h = ground arith

-- From every valid state, once the worker has made twelve steps, in whatever order with the atomic
-- operations of any number of threads that ask for the job's cancellation and with requests to shut
-- down, but without a new submission and with no weak exchange of the worker that fails for no reason,
-- the slot is free and the job is not running: the thread that `shutdown` waits for ends, if the task
-- returns.
pub take_steps-free :
    (ss : List Step) (r : Runner)
    → IsValid r
    → All IsQuiet ss
    → 12 ≤ turns ss
    → ((take_steps ss r).active ≡ 0) × (is_state (take_steps ss r).job.state running ≡ false)
take_steps-free ss r v h k =
    let after = take_steps-IsValid ss r (quiet_steps ss h) v in
    let idle : is_working (take_steps ss r).phase ≡ false =
      ended (take_steps ss r).phase (take_steps ss r).job.state
        (omega (arith, steps_left ss r h v, left_le r.phase r.job.state)) in
    (after.0.1 idle, idle-Fits (take_steps ss r).phase (take_steps ss r).job.state idle after.0.2)
