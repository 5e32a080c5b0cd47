-- ===== src/Web/Registry.antt =====
-- `JobRegistry` (src/web/jobs.h and jobs.cpp): the map of the jobs, which is to have one live job
-- at most. The unordered map is an association list, newest first. A method is a function here, run
-- without interference: `start`, `complete`, `fail` and `request_cancel` hold the registry's mutex only
-- in `get`, and what follows is interleaved at its atomic operations in Web.Job.Race and Web.Runner.
mod Laws
pub mod Policy
pub mod Active
use memory_tools.Prelude.{
  ℕ, ◌+◌, Bool, true, false, not, List, [], ◌∷◌, Option, none, some, Bytes, ◌==◌, if◌then◌else◌,
  u64,
}
use memory_tools.Web.Job
use memory_tools.Web.Job.{Job, JobState, queued, running, is_active, new_job}

abbrev pub Jobs : Type 0
Jobs = List (ℕ × Job)

pub record Registry : Type 0 where
  pub next_id : ℕ
  pub jobs : Jobs

unfoldable pub empty : Registry
empty = record { next_id = 1; jobs = [] }

-- The loop of `create` and of `active_job_id`: the key of a live job, or 0.
unfoldable pub find_active : Jobs → ℕ
find_active [] = 0
find_active ((k, j) ∷ rest) = if is_active j.state then k else find_active rest

-- `jobs_.find`.
unfoldable pub find : ℕ → Jobs → Option Job
find id [] = none
find id ((k, j) ∷ rest) = if k == id then some j else find id rest

-- The write through the `shared_ptr` that `find` returns.
unfoldable pub assign : ℕ → Job → Jobs → Jobs
assign id j' [] = []
assign id j' ((k, j) ∷ rest) = if k == id then (k, j') ∷ rest else (k, j) ∷ assign id j' rest

-- `jobs_.erase(id)`.
unfoldable pub erase : ℕ → Jobs → Jobs
erase id [] = []
erase id ((k, j) ∷ rest) = if k == id then rest else (k, j) ∷ erase id rest

pub has_live : Jobs → Bool
has_live [] = false
has_live ((k, j) ∷ rest) = if is_active j.state then true else has_live rest

-- The new registry, and the new job's id or 0.
unfoldable pub create : Bytes → Registry → Registry × ℕ
unfolding has_live
create kind r = if has_live r.jobs then (r, 0) else (
  record { next_id = u64 (r.next_id + 1); jobs = (r.next_id, new_job r.next_id kind) ∷ r.jobs },
  r.next_id,
)

unfoldable pub get : ℕ → Registry → Option Job
unfolding find
get id r = find id r.jobs

-- `j && j->method()`: a call through the pointer that `get` returned.
on_job : (Job → Job × Bool) → ℕ → Registry → Option Job → Registry × Bool
unfolding assign
on_job method id r none = (r, false)
on_job method id r (some j) =
    let (k, done) = method j in (record r { jobs = assign id k r.jobs }, done)

unfoldable pub start : ℕ → ℕ → Registry → Registry × Bool
unfolding on_job get
start now id r = on_job (Job.start now) id r (get id r)

unfoldable pub complete : ℕ → ℕ → ℕ → Registry → Registry × Bool
unfolding on_job get
complete now id count r = on_job (Job.complete now count) id r (get id r)

unfoldable pub fail : ℕ → ℕ → Bytes → Registry → Registry × Bool
unfolding on_job get
fail now id error r = on_job (Job.fail now error) id r (get id r)

-- The state is read once, and decides what is called.
unfoldable pub cancel_in : JobState → ℕ → Job → Job × Bool
cancel_in queued now j = Job.cancel now j
cancel_in running now j = (Job.request_cancel j, true)
cancel_in _ now j = (j, true)

unfoldable pub request_cancel : ℕ → ℕ → Registry → Registry × Bool
unfolding on_job get cancel_in
request_cancel now id r = on_job (λ j. cancel_in j.state now j) id r (get id r)

flag_of : Option Job → Bool
flag_of none = false
flag_of (some j) = j.cancel_requested

unfoldable pub is_cancel_requested : ℕ → Registry → Bool
unfolding flag_of get
is_cancel_requested id r = flag_of (get id r)

abbrev is_found : Option Job → Bool
is_found none = false
is_found (some _) = true

unfoldable pub remove : ℕ → Registry → Registry × Bool
unfolding erase get
remove id r = (record r { jobs = erase id r.jobs }, is_found (get id r))

pub drop_finished : Jobs → Jobs
drop_finished [] = []
drop_finished ((k, j) ∷ rest) =
    if is_active j.state then (k, j) ∷ drop_finished rest else drop_finished rest

unfoldable pub clear_finished : Registry → Registry
unfolding drop_finished
clear_finished r = record r { jobs = drop_finished r.jobs }

unfoldable pub active_job_id : Registry → ℕ
unfolding find_active
active_job_id r = find_active r.jobs

unfoldable pub has_active_job : Registry → Bool
unfolding active_job_id
has_active_job r = not (active_job_id r == 0)
