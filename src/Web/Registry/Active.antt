-- ===== src/Web/Registry/Active.antt =====
-- The live job of the registry (src/web/jobs.cpp, JobRegistry::create and active_job_id).
use memory_tools.Prelude.{
  ℕ, ◌≤◌, ◌<◌, ◌≡◌, ◌≢◌, refl, sym, ◌∙◌, true, false, not, [], ◌∷◌, none, some, arith, Bytes, ◌==◌,
  Bool-cases, ◌⊎◌, inl, inr,
}
use memory_tools.Web.Job.{Job, is_active, new_job}
use memory_tools.Web.Registry.Laws.{live_count, AreKeyed, unused_of_bound, find-fresh}
use memory_tools.Web.Registry.{
  Jobs, Registry, find, find_active, has_live, create, get, active_job_id, has_active_job,
}
use memory_tools.Web.Registry.Policy.{IsValid}

eq_self : (n : ℕ) → n == n ≡ true
eq_self n = ground arith

pub find_active-has_live :
    (n : ℕ) (js : Jobs) → AreKeyed n js → not (find_active js == 0) ≡ has_live js
unfolding find_active has_live
find_active-has_live n [] h = refl
find_active-has_live n ((k, j) ∷ js) h = ground (arith, find_active-has_live n js h.4)

-- `create` refuses, with 0 and no change, exactly when a job is live; otherwise it returns an id
-- that is not 0, that no job of the registry has, and under which a new queued job stands.
pub create_lem :
    (kind : Bytes) (r : Registry)
    → IsValid r
    → (has_active_job r ≡ true → create kind r ≡ (r, 0))
      × (has_active_job r ≡ false
          → ((create kind r).1 ≢ 0)
            × (get (create kind r).1 r ≡ none)
            × (get (create kind r).1 (create kind r).0 ≡ some (new_job (create kind r).1 kind)))
unfolding create has_active_job active_job_id get
create_lem kind r v =
    let same = find_active-has_live r.next_id r.jobs v.keyed in
    let fresh = unused_of_bound r.next_id r.next_id r.jobs (omega arith) v.keyed in
    (
      λ live. ground (arith, same),
      λ idle.
          let quiet : has_live r.jobs ≡ false = sym same ∙ idle in
          (
            rw quiet (omega arith),
            rw quiet (find-fresh r.next_id r.jobs fresh),
            rw quiet (unfold find in rw eq_self),
          ),
    )

find_active-live :
    (n : ℕ) (js : Jobs)
    → AreKeyed n js
    → has_live js ≡ true
    → (j : Job) × (find (find_active js) js ≡ some j) × (is_active j.state ≡ true)
unfolding find_active has_live find
find_active-live n [] h live = cc
find_active-live n ((k, j) ∷ js) h live = elim (Bool-cases (is_active j.state)) [
  | inl e ↦ (j, rw (e, eq_self), e)
  | inr e ↦
      let (i, found, lives) = find_active-live n js h.4 (ground arith) in
      (i, ground (arith, found, find-fresh k js h.3), lives)
]

live_in :
    (a : ℕ) (i : Job) (js : Jobs)
    → find a js ≡ some i
    → is_active i.state ≡ true
    → 0 < live_count js
unfolding find
live_in a i [] f l = cc
live_in a i ((k, e) ∷ js) f l = ground (arith, live_in a i js)

live_unique :
    (n a b : ℕ) (js : Jobs) (i j : Job)
    → AreKeyed n js
    → live_count js ≤ 1
    → find a js ≡ some i
    → find b js ≡ some j
    → is_active i.state ≡ true
    → is_active j.state ≡ true
    → a ≡ b
unfolding find
live_unique n a b [] i j h single fa fb la lb = cc
live_unique n a b ((k, e) ∷ js) i j h single fa fb la lb =
    ground (arith, live_unique n a b js i j h.4, live_in a i js, live_in b j js)

none_live :
    (id : ℕ) (j : Job) (js : Jobs)
    → has_live js ≡ false
    → find id js ≡ some j
    → is_active j.state ≡ false
unfolding has_live find
none_live id j [] idle f = cc
none_live id j ((k, e) ∷ js) idle f = ground (arith, none_live id j js)

-- `active_job_id` is 0 when no job is live, and otherwise the id of the only live job, whatever
-- the order of the map.
pub active_job_id_lem :
    (r : Registry)
    → IsValid r
    → ((active_job_id r ≡ 0) × ((id : ℕ) (j : Job) → get id r ≡ some j → is_active j.state ≡ false))
      ⊎ ((j : Job) × (get (active_job_id r) r ≡ some j)
          × (is_active j.state ≡ true)
          × ((id : ℕ) (i : Job)
              → get id r ≡ some i
              → is_active i.state ≡ true
              → id ≡ active_job_id r))
unfolding active_job_id get
active_job_id_lem r v = elim (Bool-cases (has_live r.jobs)) [
  | inl live ↦
      let (j, found, lives) = find_active-live r.next_id r.jobs v.keyed live in
      inr (
        j,
        found,
        lives,
        λ id i f l. live_unique r.next_id id _ r.jobs i j v.keyed v.single f found l lives,
      )
  | inr idle ↦ inl (
    ground (arith, find_active-has_live r.next_id r.jobs v.keyed),
    λ id j f. none_live id j r.jobs idle f,
  )
]
