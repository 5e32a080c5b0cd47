-- ===== src/Web/Api/Start.antt =====
-- The start of a job by a request (src/web/api.cpp), over the registry and the runner.
use memory_tools.Prelude.{
  ℕ, ◌≡◌, ◌≢◌, ◌∙◌, refl, sym, Bool, true, false, Bytes, some, ◌==◌, arith, eq→==,
}
use memory_tools.Web.Api.{ApiResponse, api_err, api_ok, busy_response, start_job}
use memory_tools.Web.Job
use memory_tools.Web.Job.{
  Job, JobState, queued, new_job, is_active, is_state, transition_active_to, mark_terminal,
}
use memory_tools.Web.Json.{Doubles}
use memory_tools.Web.Registry
use memory_tools.Web.Registry.{Registry, has_active_job, active_job_id, create, request_cancel}
use memory_tools.Web.Registry.Active.{find_active-has_live}
use memory_tools.Web.Registry.Policy.{IsValid}
use memory_tools.Web.Runner.{Runner, launched, run, busy}

-- What a request leaves, by whether a job was live and whether the runner's slot was taken.
abbrev pub Starts :
    Doubles → Registry → Runner → Bool → Bool → Registry × Runner × ApiResponse × Bool → Type 0
Starts c r rn true taken out = out ≡ (r, rn, busy_response c, false)
Starts c r rn false true out =
    (out.1 ≡ rn)
    × (out.2.status ≡ 409)
    × (out.3 ≡ false)
    × (has_active_job out.0 ≡ false)
    × ((id : ℕ) → id ≢ r.next_id → Registry.get id out.0 ≡ Registry.get id r)
Starts c r rn false false out =
    (out.2.status ≡ 200)
    × (out.3 ≡ true)
    × (out.1.active ≡ r.next_id)
    × (out.1.phase ≡ launched)
    × (out.1.job.state ≡ queued)
    × (active_job_id out.0 ≡ r.next_id)
    × (Registry.get r.next_id out.0 ≡ some out.1.job)

cancelled_state :
    (now : ℕ) (j : Job) → is_active j.state ≡ true → (Job.cancel now j).0.state ≡ JobState.cancelled
unfolding Job.cancel transition_active_to mark_terminal
cancelled_state now j h = ground arith

start_job-Starts :
    (c : Doubles) (now : ℕ) (kind : Bytes) (r : Registry) (rn : Runner) (live taken : Bool)
    → IsValid r
    → has_active_job r ≡ live
    → busy rn ≡ taken
    → Starts c r rn live taken (start_job c now kind r rn)
unfolding start_job Registry.create run busy has_active_job active_job_id Registry.get Registry.find
    Registry.find_active new_job api_ok api_err busy_response Registry.request_cancel
    Registry.cancel_in Registry.assign
start_job-Starts c now kind r rn true taken v e f =
    rw (sym (find_active-has_live r.next_id r.jobs v.keyed) ∙ e) refl
start_job-Starts c now kind r rn false true v e f =
    let some_id : (r.next_id == 0) ≡ false = ground (arith, v.positive) in
    let itself = eq→== r.next_id r.next_id refl in
    rw (sym (find_active-has_live r.next_id r.jobs v.keyed) ∙ e, some_id, f, itself, itself)
      (
        refl,
        refl,
        refl,
        rw (cancelled_state now (new_job r.next_id kind) refl) e,
        λ id other. ground (arith, other),
      )
start_job-Starts c now kind r rn false false v e f =
    let some_id : (r.next_id == 0) ≡ false = ground (arith, v.positive) in
    let itself = eq→== r.next_id r.next_id refl in
    rw (sym (find_active-has_live r.next_id r.jobs v.keyed) ∙ e, some_id, f, itself, itself)
      (refl, refl, refl, refl, refl, refl, refl)

-- In a well-formed registry: while a job is live, a request is refused and changes nothing. While none
-- is, but the runner's slot is still taken, it is refused too: the runner stays as it is, no job is
-- live, and every other job is still as it was. Otherwise the answer is 200, and the runner is launched
-- on the one live job, which is queued under its own new id.
pub start_job_lem :
    (c : Doubles) (now : ℕ) (kind : Bytes) (r : Registry) (rn : Runner)
    → IsValid r
    → Starts c r rn (has_active_job r) (busy rn) (start_job c now kind r rn)
start_job_lem c now kind r rn v =
    start_job-Starts c now kind r rn (has_active_job r) (busy rn) v refl refl
