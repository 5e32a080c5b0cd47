-- ===== src/Web/Registry/Policy.antt =====
-- The registry's policy on live jobs and on ids (src/web/jobs.cpp).
use memory_tools.Prelude.{
  ℕ, ◌+◌, ◌≤◌, ◌<◌, ◌≡◌, ◌≢◌, refl, ◌∙◌, Bool, true, List, [], ◌∷◌, Option, none, some, arith,
  Bytes, word, u64_of_lt, Option-cases, inl, inr,
}
use memory_tools.Web.Job
use memory_tools.Web.Job.{Job, JobState, queued, running, cancelled, is_active, new_job}
use memory_tools.Web.Registry.Laws.{
  live_count, AreKeyed, unused_of_bound, AreKeyed-mono, AreKeyed-assign, AreKeyed-erase,
  AreKeyed-drop_finished, live_count-assign, live_count-erase, live_count-drop_finished,
  has_live-live_count, id_of_find,
}
use memory_tools.Web.Registry.{
  Registry, empty, find, on_job, cancel_in, create, get, start, complete, fail, request_cancel,
  remove, clear_finished,
}

-- The calls of the registry's mutators.
pub data Request : Type 0 where
  create_request : Bytes → Request
  start_request : ℕ → ℕ → Request
  complete_request : ℕ → ℕ → ℕ → Request
  fail_request : ℕ → ℕ → Bytes → Request
  cancel_request : ℕ → ℕ → Request
  remove_request : ℕ → Request
  clear_request : Request

unfoldable pub serve : Request → Registry → Registry
serve (create_request kind) r = (create kind r).0
serve (start_request now id) r = (start now id r).0
serve (complete_request now id n) r = (complete now id n r).0
serve (fail_request now id e) r = (fail now id e r).0
serve (cancel_request now id) r = (request_cancel now id r).0
serve (remove_request id) r = (remove id r).0
serve clear_request r = clear_finished r

unfoldable pub serve_all : List Request → Registry → Registry
serve_all [] r = r
serve_all (q ∷ qs) r = serve_all qs (serve q r)

pub record IsValid (r : Registry) : Type 0 where
  pub positive : 0 < r.next_id
  pub keyed : AreKeyed r.next_id r.jobs
  pub single : live_count r.jobs ≤ 1

pub empty-IsValid : IsValid empty
unfolding empty
empty-IsValid = omega arith

create-IsValid :
    (kind : Bytes) (r : Registry) → r.next_id + 1 < word → IsValid r → IsValid (create kind r).0
unfolding create new_job
create-IsValid kind r room v = ground (
  arith,
  u64_of_lt (r.next_id + 1) room,
  has_live-live_count r.jobs,
  unused_of_bound r.next_id r.next_id r.jobs,
  AreKeyed-mono r.next_id (r.next_id + 1) r.jobs,
)

-- What the registry needs of a method of `Job`: it keeps the id, and makes no ended job live.
abbrev IsTame : (Job → Job × Bool) → Type 0
IsTame method =
    (j : Job)
    → ((method j).0.id ≡ j.id) × (is_active (method j).0.state ≡ true → is_active j.state ≡ true)

on_job-IsValid :
    (method : Job → Job × Bool) (id : ℕ) (r : Registry)
    → IsTame method
    → IsValid r
    → IsValid (on_job method id r (get id r)).0
unfolding on_job get
on_job-IsValid method id r tame v = elim (Option-cases (find id r.jobs)) [
  | inl e ↦ rw (e, on_job) v
  | inr (j, e) ↦
      let same = id_of_find r.next_id id r.jobs j v.keyed e in
      rw (e, on_job)
        (record {
          positive = v.positive;
          keyed = AreKeyed-assign r.next_id id (method j).0 r.jobs ((tame j).0 ∙ same) v.keyed;
          single = omega (arith, live_count-assign id j (method j).0 r.jobs e (tame j).1, v.single);
        })
]

start-IsTame : (now : ℕ) → IsTame (Job.start now)
unfolding Job.start
start-IsTame now j = ground arith

complete-IsTame : (now count : ℕ) → IsTame (Job.complete now count)
unfolding Job.complete
complete-IsTame now count j = ground arith

fail-IsTame : (now : ℕ) (e : Bytes) → IsTame (Job.fail now e)
unfolding Job.fail
fail-IsTame now e j = ground arith

cancel_in-IsTame : (now : ℕ) → IsTame (λ j. cancel_in j.state now j)
unfolding cancel_in Job.cancel Job.request_cancel
cancel_in-IsTame now j = ground arith

erase-IsValid : (id : ℕ) (r : Registry) → IsValid r → IsValid (remove id r).0
unfolding remove
erase-IsValid id r v = record {
  positive = v.positive;
  keyed = AreKeyed-erase r.next_id id r.jobs v.keyed;
  single = omega (arith, live_count-erase id r.jobs, v.single);
}

clear-IsValid : (r : Registry) → IsValid r → IsValid (clear_finished r)
unfolding clear_finished
clear-IsValid r v = record {
  positive = v.positive;
  keyed = AreKeyed-drop_finished r.next_id r.jobs v.keyed;
  single = omega (arith, live_count-drop_finished r.jobs, v.single);
}

-- Every request keeps the registry well formed: distinct keys below the next id, each the id of
-- its job, and one live job at most. Ids are assumed not to have run out of 64 bits.
pub serve-IsValid :
    (q : Request) (r : Registry) → r.next_id + 1 < word → IsValid r → IsValid (serve q r)
unfolding serve start complete fail request_cancel
serve-IsValid (create_request kind) r room v = create-IsValid kind r room v
serve-IsValid (start_request now id) r room v =
    on_job-IsValid (Job.start now) id r (start-IsTame now) v
serve-IsValid (complete_request now id n) r room v =
    on_job-IsValid (Job.complete now n) id r (complete-IsTame now n) v
serve-IsValid (fail_request now id e) r room v =
    on_job-IsValid (Job.fail now e) id r (fail-IsTame now e) v
serve-IsValid (cancel_request now id) r room v =
    on_job-IsValid (λ j. cancel_in j.state now j) id r (cancel_in-IsTame now) v
serve-IsValid (remove_request id) r room v = erase-IsValid id r v
serve-IsValid clear_request r room v = clear-IsValid r v

next_id-on_job :
    (method : Job → Job × Bool) (id : ℕ) (r : Registry) (o : Option Job)
    → (on_job method id r o).0.next_id ≡ r.next_id
unfolding on_job
next_id-on_job method id r none = refl
next_id-on_job method id r (some j) = refl

next_id-serve :
    (q : Request) (r : Registry)
    → r.next_id + 1 < word
    → (r.next_id ≤ (serve q r).next_id) × ((serve q r).next_id ≤ r.next_id + 1)
unfolding serve create start complete fail request_cancel remove clear_finished
next_id-serve (create_request kind) r room = ground (arith, u64_of_lt (r.next_id + 1) room)
next_id-serve (start_request now id) r room =
    ground (arith, next_id-on_job (Job.start now) id r (get id r))
next_id-serve (complete_request now id n) r room =
    ground (arith, next_id-on_job (Job.complete now n) id r (get id r))
next_id-serve (fail_request now id e) r room =
    ground (arith, next_id-on_job (Job.fail now e) id r (get id r))
next_id-serve (cancel_request now id) r room =
    ground (arith, next_id-on_job (λ j. cancel_in j.state now j) id r (get id r))
next_id-serve (remove_request id) r room = omega arith
next_id-serve clear_request r room = omega arith

abbrev pub requests : List Request → ℕ
requests [] = 0
requests (q ∷ qs) = requests qs + 1

serve_all_keeps :
    (qs : List Request) (r : Registry)
    → r.next_id + requests qs < word
    → IsValid r
    → IsValid (serve_all qs r) × (r.next_id ≤ (serve_all qs r).next_id)
unfolding serve_all
serve_all_keeps [] r room v = (v, omega arith)
serve_all_keeps (q ∷ qs) r room v =
    let (grows, few) = next_id-serve q r (omega arith) in
    let (valid, later) =
      serve_all_keeps qs (serve q r) (omega arith) (serve-IsValid q r (omega arith) v) in
    (valid, omega arith)

-- After any requests on an empty registry, fewer than 2 ^ 64 - 1, its map is well formed, with at
-- most one job queued or running.
pub serve_all-IsValid : (qs : List Request) → requests qs + 1 < word → IsValid (serve_all qs empty)
unfolding empty
serve_all-IsValid qs room = (serve_all_keeps qs empty (omega arith) empty-IsValid).0

created_next :
    (kind : Bytes) (r : Registry)
    → r.next_id + 1 < word
    → (create kind r).1 ≢ 0
    → ((create kind r).0.next_id ≡ (create kind r).1 + 1) × ((create kind r).1 ≡ r.next_id)
unfolding create
created_next kind r room given = ground (arith, u64_of_lt (r.next_id + 1) room)

created_ge :
    (kind : Bytes) (r : Registry) (id : ℕ) → id + 1 ≤ r.next_id → id ≢ 0 → (create kind r).1 ≢ id
unfolding create
created_ge kind r id le ne = ground arith

-- An id that `create` has given out is never given out again, whatever is requested in between.
pub create-never_reuses :
    (kind later : Bytes) (qs : List Request) (r : Registry)
    → r.next_id + requests qs + 2 < word
    → IsValid r
    → (create kind r).1 ≢ 0
    → (create later (serve_all qs (create kind r).0)).1 ≢ (create kind r).1
create-never_reuses kind later qs r room v given =
    let s = (create kind r).0 in
    let (grown, first) = created_next kind r (omega arith) given in
    let (valid, ge) = serve_all_keeps qs s (omega arith) (create-IsValid kind r (omega arith) v) in
    created_ge later (serve_all qs s) (create kind r).1 (omega arith) given
