-- ===== src/Web/Registry/Laws.antt =====
-- Facts about the association list of the jobs.
use memory_tools.Prelude.{
  ℕ, ◌+◌, ◌≤◌, ◌<◌, ◌≡◌, ◌≢◌, refl, true, false, [], ◌∷◌, none, some, arith, if◌then◌else◌, ◌==◌,
}
use memory_tools.Web.Job.{Job, is_active}
use memory_tools.Web.Registry.{Jobs, find, assign, erase, has_live, drop_finished}

abbrev pub live_count : Jobs → ℕ
live_count [] = 0
live_count ((k, j) ∷ rest) = (if is_active j.state then 1 else 0) + live_count rest

-- The key does not occur.
abbrev pub IsFresh : ℕ → Jobs → Type 0
IsFresh id [] = Unit
IsFresh id ((k, j) ∷ rest) = (k ≢ id) × IsFresh id rest

-- Every key is below `n` and not 0, is the id of its job, and occurs once.
abbrev pub AreKeyed : ℕ → Jobs → Type 0
AreKeyed n [] = Unit
AreKeyed n ((k, j) ∷ rest) = (0 < k) × (k < n) × (j.id ≡ k) × IsFresh k rest × AreKeyed n rest

pub unused_of_bound : (n id : ℕ) (js : Jobs) → n ≤ id → AreKeyed n js → IsFresh id js
unused_of_bound n id [] le h = tt
unused_of_bound n id ((k, j) ∷ js) le h = (omega arith, unused_of_bound n id js le h.4)

pub AreKeyed-mono : (n m : ℕ) (js : Jobs) → n ≤ m → AreKeyed n js → AreKeyed m js
AreKeyed-mono n m [] le h = tt
AreKeyed-mono n m ((k, j) ∷ js) le h = (h.0, omega arith, h.2, h.3, AreKeyed-mono n m js le h.4)

pub IsFresh-assign : (id a : ℕ) (j' : Job) (js : Jobs) → IsFresh id js → IsFresh id (assign a j' js)
unfolding assign
IsFresh-assign id a j' [] h = tt
IsFresh-assign id a j' ((k, j) ∷ js) h = ground (arith, IsFresh-assign id a j' js h.1)

pub IsFresh-erase : (id a : ℕ) (js : Jobs) → IsFresh id js → IsFresh id (erase a js)
unfolding erase
IsFresh-erase id a [] h = tt
IsFresh-erase id a ((k, j) ∷ js) h = ground (arith, IsFresh-erase id a js h.1)

pub IsFresh-drop_finished : (id : ℕ) (js : Jobs) → IsFresh id js → IsFresh id (drop_finished js)
unfolding drop_finished
IsFresh-drop_finished id [] h = tt
IsFresh-drop_finished id ((k, j) ∷ js) h = ground (arith, IsFresh-drop_finished id js h.1)

pub AreKeyed-assign :
    (n id : ℕ) (j' : Job) (js : Jobs) → j'.id ≡ id → AreKeyed n js → AreKeyed n (assign id j' js)
unfolding assign
AreKeyed-assign n id j' [] e h = tt
AreKeyed-assign n id j' ((k, j) ∷ js) e h =
    ground (arith, IsFresh-assign k id j' js h.3, AreKeyed-assign n id j' js e h.4)

pub AreKeyed-erase : (n id : ℕ) (js : Jobs) → AreKeyed n js → AreKeyed n (erase id js)
unfolding erase
AreKeyed-erase n id [] h = tt
AreKeyed-erase n id ((k, j) ∷ js) h =
    ground (arith, IsFresh-erase k id js h.3, AreKeyed-erase n id js h.4)

pub AreKeyed-drop_finished : (n : ℕ) (js : Jobs) → AreKeyed n js → AreKeyed n (drop_finished js)
unfolding drop_finished
AreKeyed-drop_finished n [] h = tt
AreKeyed-drop_finished n ((k, j) ∷ js) h =
    ground (arith, IsFresh-drop_finished k js h.3, AreKeyed-drop_finished n js h.4)

-- The job that a call has found is replaced by one that is live only if it was.
pub live_count-assign :
    (id : ℕ) (j j' : Job) (js : Jobs)
    → find id js ≡ some j
    → (is_active j'.state ≡ true → is_active j.state ≡ true)
    → live_count (assign id j' js) ≤ live_count js
unfolding find assign
live_count-assign id j j' [] f h = omega arith
live_count-assign id j j' ((k, i) ∷ js) f h = ground (arith, live_count-assign id j j' js)

pub live_count-erase : (id : ℕ) (js : Jobs) → live_count (erase id js) ≤ live_count js
unfolding erase
live_count-erase id [] = omega arith
live_count-erase id ((k, i) ∷ js) = ground (arith, live_count-erase id js)

pub live_count-drop_finished : (js : Jobs) → live_count (drop_finished js) ≡ live_count js
unfolding drop_finished
live_count-drop_finished [] = refl
live_count-drop_finished ((k, j) ∷ js) = ground (arith, live_count-drop_finished js)

pub has_live-live_count : (js : Jobs) → has_live js ≡ (if live_count js == 0 then false else true)
unfolding has_live
has_live-live_count [] = refl
has_live-live_count ((k, j) ∷ js) = ground (arith, has_live-live_count js)

pub id_of_find : (n id : ℕ) (js : Jobs) (j : Job) → AreKeyed n js → find id js ≡ some j → j.id ≡ id
unfolding find
id_of_find n id [] j h f = cc
id_of_find n id ((k, i) ∷ js) j h f = ground (arith, id_of_find n id js j h.4)

pub find-assign :
    (id q : ℕ) (j' : Job) (js : Jobs) (j : Job)
    → find id js ≡ some j
    → find q (assign id j' js) ≡ (if id == q then some j' else find q js)
unfolding find assign
find-assign id q j' [] j f = cc
find-assign id q j' ((k, i) ∷ js) j f = ground (arith, find-assign id q j' js j)

pub find-fresh : (id : ℕ) (js : Jobs) → IsFresh id js → find id js ≡ none
unfolding find
find-fresh id [] h = refl
find-fresh id ((k, j) ∷ js) h = ground (arith, find-fresh id js h.1)

pub find-erase :
    (n id q : ℕ) (js : Jobs)
    → AreKeyed n js
    → find q (erase id js) ≡ (if id == q then none else find q js)
unfolding find erase
find-erase n id q [] h = ground arith
find-erase n id q ((k, j) ∷ js) h = ground (arith, find-erase n id q js h.4, find-fresh k js h.3)
