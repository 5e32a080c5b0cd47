-- ===== src/Web/Runner/Turns.antt =====
-- The steps of the job runner one by one: what they make of the job and of the slot.
use memory_tools.Prelude.{
  ℕ, zero, suc, ◌<◌, ◌≡◌, ◌⊎◌, inl, refl, Bool, true, false, ◌||◌, List, [], ◌∷◌, All, arith,
}
use memory_tools.Web.Job
use memory_tools.Web.Job.{Job, JobState, queued, running, is_active, is_state, mark_terminal}
use memory_tools.Web.Job.Race
use memory_tools.Web.Job.Race.{
  Method, start_method, complete_method, fail_method, cancel_method, entering, loaded, exchanged,
  stored, returned, advance,
}
use memory_tools.Web.Runner.{
  Phase, no_thread, starting, started, in_task, task_over, settling, over, Runner, Canceller,
  asking, cancelling, marking, answered, start_phase, settle_phase, cancel_on, cancel_at,
}

-- A worker is on its way.
abbrev pub is_working : Phase → Bool
is_working no_thread = false
is_working over = false
is_working _ = true

-- The job runs, or a thread that had seen it queued has cancelled it since it was started.
abbrev pub is_begun : JobState → Bool
is_begun s = is_state s running || is_state s JobState.cancelled

-- What the job's state can be while the worker is in `start` or in the call that ends the job.
abbrev pub StartFits : Race.Phase → JobState → Type 0
StartFits (entering (start_method now)) s = is_state s running ≡ false
StartFits (exchanged (start_method now)) s = is_begun s ≡ true
StartFits (stored (start_method now)) s = is_begun s ≡ true
StartFits _ s = ⊥

abbrev pub EndFits : Race.Phase → JobState → Type 0
EndFits (entering (start_method now)) s = ⊥
EndFits (entering m) s = is_begun s ≡ true
EndFits (loaded (fail_method now error) seen) s =
    (is_state seen running ≡ true) × (is_begun s ≡ true)
EndFits (loaded (cancel_method now) seen) s = (is_state seen running ≡ true) × (is_begun s ≡ true)
EndFits (exchanged (start_method now)) s = ⊥
EndFits (exchanged m) s = is_state s running ≡ false
EndFits (stored (start_method now)) s = ⊥
EndFits (stored m) s = is_state s running ≡ false
EndFits _ s = ⊥

-- What it can be where the worker stands.
abbrev pub Fits : Phase → JobState → Type 0
Fits (starting p) s = StartFits p s
Fits started s = is_begun s ≡ true
Fits in_task s = is_begun s ≡ true
Fits (task_over result) s = is_begun s ≡ true
Fits (settling p) s = EndFits p s
Fits _ s = is_state s running ≡ false

-- A thread in `request_cancel` calls no method but `cancel`, and has loaded a live state there.
abbrev pub Asks : Canceller → Type 0
Asks (cancelling (entering (cancel_method now))) = Unit
Asks (cancelling (loaded (cancel_method now) seen)) = is_active seen ≡ true
Asks (cancelling (exchanged (cancel_method now))) = Unit
Asks (cancelling (stored (cancel_method now))) = Unit
Asks (cancelling p) = ⊥
Asks _ = Unit

abbrev pub Valid : ℕ → Phase → JobState → Type 0
Valid active p s =
    (is_working p ≡ true → 0 < active) × (is_working p ≡ false → active ≡ 0) × Fits p s

-- The slot is taken exactly while a worker is on its way; the job is not running before `start` and
-- behind the terminal transition, and in between it is running or cancelled.
abbrev pub IsValid : Runner → Type 0
IsValid r = Valid r.active r.phase r.job.state × All Asks r.cancellers

-- A thread in `request_cancel` leaves the state alone or makes it cancelled.
abbrev pub Leaves : JobState → JobState → Type 0
Leaves s after = (after ≡ s) ⊎ (after ≡ JobState.cancelled)

cancel_on-Leaves :
    (spurious : Bool) (j : Job) (c : Canceller)
    → Asks c
    → Asks (cancel_on spurious j c).1 × Leaves j.state (cancel_on spurious j c).0.state
unfolding cancel_on advance mark_terminal Job.request_cancel
cancel_on-Leaves spurious j (asking now) h = ground arith
cancel_on-Leaves spurious j (cancelling p) h = ground arith
cancel_on-Leaves spurious j marking h = (tt, inl refl)
cancel_on-Leaves spurious j answered h = (tt, inl refl)

pub cancel_at-Leaves :
    (i : ℕ) (spurious : Bool) (j : Job) (cs : List Canceller)
    → All Asks cs
    → All Asks (cancel_at i spurious j cs).1 × Leaves j.state (cancel_at i spurious j cs).0.state
unfolding cancel_at
cancel_at-Leaves i spurious j [] h = (tt, inl refl)
cancel_at-Leaves zero spurious j (c ∷ cs) h =
    let (asks, leaves) = cancel_on-Leaves spurious j c h.0 in ((asks, h.1), leaves)
cancel_at-Leaves (suc i) spurious j (c ∷ cs) h =
    let (asks, leaves) = cancel_at-Leaves i spurious j cs h.1 in ((h.0, asks), leaves)

-- A cancelled job fits wherever the worker stands.
pub Fits-cancelled : (p : Phase) (s : JobState) → Fits p s → Fits p JobState.cancelled
Fits-cancelled p s h = ground arith

pub start_phase-Valid :
    (a : ℕ) (spurious : Bool) (j : Job) (p : Race.Phase)
    → 0 < a
    → StartFits p j.state
    → Valid a (start_phase (advance spurious j p).1) (advance spurious j p).0.state
unfolding advance mark_terminal
start_phase-Valid a spurious j p h w = ground arith

pub settle_phase-Valid :
    (a : ℕ) (spurious : Bool) (j : Job) (p : Race.Phase)
    → 0 < a
    → EndFits p j.state
    → Valid a (settle_phase (advance spurious j p).1) (advance spurious j p).0.state
unfolding advance mark_terminal
settle_phase-Valid a spurious j p h w = ground arith
