-- ===== src/Web/Runner/Slot.antt =====
-- The slot of the job runner and the states of its job.
use memory_tools.Prelude.{
  ℕ, ◌<◌, ◌≡◌, refl, sym, Bool, true, false, Option, none, some, List, [], ◌∷◌, arith, All, ==→eq,
  Bool-cases, inl, inr, ◌==◌,
}
use mathlib.Core.Path.{subst}
use memory_tools.Web.Job.{Job, JobState, queued, running, is_state}
use memory_tools.Web.Runner.{
  Phase, no_thread, launched, starting, started, in_task, task_over, settling, leaving, over,
  Runner, Turn, launch, run, look_up, begin_task, end_task, settle, finish_slot, worker, worker_in,
  cancel_job, ask_cancel, request_shutdown, Step, run_step, worker_step, ask_step, cancel_step,
  shutdown_step, take_step, take_steps,
}
use memory_tools.Web.Runner.Turns.{
  is_working, Fits, Valid, IsValid, Asks, Leaves, cancel_at-Leaves, Fits-cancelled,
  start_phase-Valid, settle_phase-Valid,
}

worker-Valid :
    (t : Turn) (r : Runner) (p : Phase)
    → r.phase ≡ p
    → Valid r.active p r.job.state
    → Valid (worker_in p t r).active (worker_in p t r).phase (worker_in p t r).job.state
unfolding worker_in look_up begin_task end_task settle finish_slot
worker-Valid t r no_thread e w = rw e w
worker-Valid t r over e w = rw e w
worker-Valid t r launched e w = ground arith
worker-Valid t r (starting p) e w = start_phase-Valid r.active t.spurious r.job p (w.0 refl) w.2
worker-Valid t r started e w = ground arith
worker-Valid t r in_task e w = ground arith
worker-Valid t r (task_over given) e w = ground arith
worker-Valid t r (settling p) e w = settle_phase-Valid r.active t.spurious r.job p (w.0 refl) w.2
worker-Valid t r leaving e w = ((λ z. cc), (λ _. refl), w.2)

worker_cancellers :
    (t : Turn) (r : Runner) (p : Phase) → (worker_in p t r).cancellers ≡ r.cancellers
unfolding worker_in look_up begin_task end_task settle finish_slot
worker_cancellers t r p = ground arith

worker-IsValid : (t : Turn) (r : Runner) → IsValid r → IsValid (worker t r)
unfolding worker
worker-IsValid t r v =
    (worker-Valid t r r.phase refl v.0, subst (All Asks) (sym (worker_cancellers t r r.phase)) v.1)

Leaves-Valid :
    (a : ℕ) (p : Phase) (s after : JobState) → Leaves s after → Valid a p s → Valid a p after
Leaves-Valid a p s after (inl same) v = subst (Valid a p) (sym same) v
Leaves-Valid a p s after (inr same) v =
    subst (Valid a p) (sym same) (v.0, v.1, Fits-cancelled p s v.2)

cancel_job-IsValid :
    (i : ℕ) (spurious : Bool) (r : Runner) → IsValid r → IsValid (cancel_job i spurious r)
unfolding cancel_job
cancel_job-IsValid i spurious r v =
    let (asks, leaves) = cancel_at-Leaves i spurious r.job r.cancellers v.1 in
    (Leaves-Valid r.active r.phase _ _ leaves v.0, asks)

ask_cancel-IsValid : (now : ℕ) (r : Runner) → IsValid r → IsValid (ask_cancel now r)
unfolding ask_cancel
ask_cancel-IsValid now r v = (v.0, (tt, v.1))

-- Where no worker is on its way, the job is not running.
pub idle-Fits :
    (p : Phase) (s : JobState) → is_working p ≡ false → Fits p s → is_state s running ≡ false
idle-Fits p s e h = ground arith

idle : (r : Runner) → r.active == 0 ≡ true → IsValid r → is_working r.phase ≡ false
idle r e v = elim (Bool-cases (is_working r.phase)) [
  | inl w ↦ absurd (omega (arith, ==→eq r.active 0 e, v.0.0 w))
  | inr w ↦ w
]

launch-IsValid :
    (id : ℕ) (found : Option Job) (r : Runner)
    → 0 < id
    → r.active == 0 ≡ true
    → IsValid r
    → IsValid (launch id found r).0
launch-IsValid id none r h e v =
    ((λ z. cc, λ _. ==→eq r.active 0 e, idle-Fits r.phase r.job.state (idle r e v) v.0.2), v.1)
launch-IsValid id (some j) r h e v = elim (Bool-cases (is_state j.state queued)) [
  | inl q ↦ rw q ((λ _. h, λ z. cc, ground arith), tt)
  | inr q ↦
      rw q
        ((λ z. cc, λ _. ==→eq r.active 0 e, idle-Fits r.phase r.job.state (idle r e v) v.0.2), v.1)
]

run-IsValid :
    (id : ℕ) (found : Option Job) (r : Runner) → 0 < id → IsValid r → IsValid (run id found r).0
unfolding run
run-IsValid id found r h v = elim (Bool-cases (r.active == 0)) [
  | inl e ↦ rw e (launch-IsValid id found r h e v)
  | inr e ↦ rw e v
]

shutdown-IsValid :
    (now : ℕ) (listed : Bool) (r : Runner) → IsValid r → IsValid (request_shutdown now listed r)
unfolding request_shutdown
shutdown-IsValid now listed r v = elim (Bool-cases (r.active == 0)) [
  | inl e ↦ rw e v
  | inr e ↦ elim (Bool-cases listed) [
    | inl l ↦ rw (e, l) (ask_cancel-IsValid now r v)
    | inr l ↦ rw (e, l) v
  ]
]

-- The ids that are run are not 0.
abbrev pub IsStep : Step → Type 0
IsStep (run_step id found) = 0 < id
IsStep _ = Unit

pub take_step-IsValid : (s : Step) (r : Runner) → IsStep s → IsValid r → IsValid (take_step s r)
unfolding take_step
take_step-IsValid (run_step id found) r h v = run-IsValid id found r h v
take_step-IsValid (worker_step t) r h v = worker-IsValid t r v
take_step-IsValid (ask_step now) r h v = ask_cancel-IsValid now r v
take_step-IsValid (cancel_step i spurious) r h v = cancel_job-IsValid i spurious r v
take_step-IsValid (shutdown_step now listed) r h v = shutdown-IsValid now listed r v

-- From a state where this holds, and however the atomic operations of the worker and of any number of
-- threads that ask for the job's cancellation are ordered, weak exchanges that fail for no reason
-- included, if the ids of the jobs that are submitted are not 0: the slot is taken exactly while a
-- worker is on its way; the job is running only from the exchange in `start` to the one that ends it,
-- and in between, the task included, it is running or has been cancelled.
pub take_steps-IsValid :
    (ss : List Step) (r : Runner) → All IsStep ss → IsValid r → IsValid (take_steps ss r)
unfolding take_steps
take_steps-IsValid [] r h v = v
take_steps-IsValid (s ∷ ss) r h v =
    take_steps-IsValid ss (take_step s r) h.1 (take_step-IsValid s r h.0 v)
