-- ===== src/Web/Job/Race.antt =====
-- The `Job` methods of several threads, interleaved at their atomic operations: the loads and
-- exchanges of `state_`, and the stores that follow a successful exchange.
use memory_tools.Prelude.{
  ℕ, zero, suc, ◌+◌, Bool, true, false, ◌&&◌, not, List, [], ◌∷◌, Bytes, if◌then◌else◌, ◌≡◌, refl,
  ◌∙◌, arith,
}
use memory_tools.Web.Job.{
  Job, JobState, queued, running, completed, failed, cancelled, is_active, is_state, mark_terminal,
  start, complete, fail, cancel,
}

-- The methods with a transition; the number is the time at which the clock is read.
pub data Method : Type 0 where
  start_method : ℕ → Method
  complete_method : ℕ → ℕ → Method
  fail_method : ℕ → Bytes → Method
  cancel_method : ℕ → Method

-- Where a thread stands in its call.
pub data Phase : Type 0 where
  entering : Method → Phase
  loaded : Method → JobState → Phase
  exchanged : Method → Phase
  stored : Method → Phase
  returned : Method → Bool → Phase

-- The first store after a successful exchange, atomic or under the mutex.
store : Method → Job → Job
store (start_method now) j = record j { started_at = now }
store (complete_method now n) j = record j { count = n }
store (fail_method now e) j = record j { error = e }
store (cancel_method now) j = record j { cancel_requested = true }

-- The last one, under the mutex: `start` has none.
close_up : Method → Job → Job
unfolding mark_terminal
close_up (start_method now) j = j
close_up (complete_method now n) j = mark_terminal now j
close_up (fail_method now e) j = mark_terminal now j
close_up (cancel_method now) j = mark_terminal now j

-- The state that `transition_active_to` is given.
abbrev pub target : Method → JobState
target (start_method _) = running
target (complete_method _ _) = completed
target (fail_method _ _) = failed
target (cancel_method _) = cancelled

-- `compare_exchange_strong(from, to)`.
strong : JobState → Method → Job → Job × Phase
strong from m j =
    if is_state j.state from
    then (record j { state = target m }, exchanged m)
    else (j, returned m false)

-- The load of the loop in `transition_active_to`.
load : Method → Job → Job × Phase
load m j = if is_active j.state then (j, loaded m j.state) else (j, returned m false)

enter : Method → Job → Job × Phase
enter (start_method now) j = strong queued (start_method now) j
enter (complete_method now n) j = strong running (complete_method now n) j
enter (fail_method now e) j = load (fail_method now e) j
enter (cancel_method now) j = load (cancel_method now) j

-- One atomic operation of a thread. `spurious` says whether a weak exchange fails for no reason.
unfoldable pub advance : Bool → Job → Phase → Job × Phase
unfolding store close_up strong load enter
advance spurious j (entering m) = enter m j
advance spurious j (loaded m seen) =
    if is_state j.state seen && not spurious
    then (record j { state = target m }, exchanged m)
    else (j, entering m)
advance spurious j (exchanged m) = (store m j, stored m)
advance spurious j (stored m) = (close_up m j, returned m true)
advance spurious j (returned m done) = (j, returned m done)

-- One step of the thread with the given index.
unfoldable pub step : ℕ → Bool → Job → List Phase → Job × List Phase
step i spurious j [] = (j, [])
step zero spurious j (p ∷ ps) = let (k, q) = advance spurious j p in (k, q ∷ ps)
step (suc i) spurious j (p ∷ ps) = let (k, qs) = step i spurious j ps in (k, p ∷ qs)

-- A schedule names the thread that makes each step.
unfoldable pub run : List (ℕ × Bool) → Job → List Phase → Job × List Phase
run [] j ps = (j, ps)
run ((i, spurious) ∷ rest) j ps = let (k, qs) = step i spurious j ps in run rest k qs

-- A thread whose exchange to a terminal state has succeeded.
abbrev pub has_won : Phase → ℕ
has_won (exchanged (start_method _)) = 0
has_won (exchanged _) = 1
has_won (stored (start_method _)) = 0
has_won (stored _) = 1
has_won (returned (start_method _) _) = 0
has_won (returned _ true) = 1
has_won _ = 0

abbrev pub winners : List Phase → ℕ
winners [] = 0
winners (p ∷ ps) = has_won p + winners ps

abbrev pub live : JobState → ℕ
live s = if is_active s then 1 else 0

-- A `loaded` thread has seen an active state.
abbrev pub HasSeen : Phase → Type 0
HasSeen (loaded (start_method _) s) = ⊥
HasSeen (loaded (complete_method _ _) s) = ⊥
HasSeen (loaded m s) = is_active s ≡ true
HasSeen _ = Unit

abbrev pub AllSeen : List Phase → Type 0
AllSeen [] = Unit
AllSeen (p ∷ ps) = HasSeen p × AllSeen ps

-- A thread that has not begun, the start of every run.
abbrev pub AllEntering : List Phase → Type 0
AllEntering [] = Unit
AllEntering (entering m ∷ ps) = AllEntering ps
AllEntering (p ∷ ps) = ⊥

advance-winners :
    (spurious : Bool) (j : Job) (p : Phase)
    → HasSeen p
    → (HasSeen (advance spurious j p).1)
      × (has_won (advance spurious j p).1 + live (advance spurious j p).0.state
          ≡ has_won p + live j.state)
unfolding advance mark_terminal
advance-winners spurious j p h = ground arith

step-winners :
    (i : ℕ) (spurious : Bool) (j : Job) (ps : List Phase)
    → AllSeen ps
    → (AllSeen (step i spurious j ps).1)
      × (winners (step i spurious j ps).1 + live (step i spurious j ps).0.state
          ≡ winners ps + live j.state)
unfolding step
step-winners i spurious j [] h = (tt, refl)
step-winners zero spurious j (p ∷ ps) h =
    let (seen, same) = advance-winners spurious j p h.0 in ((seen, h.1), omega arith)
step-winners (suc i) spurious j (p ∷ ps) h =
    let (seen, same) = step-winners i spurious j ps h.1 in ((h.0, seen), omega arith)

run-winners :
    (schedule : List (ℕ × Bool)) (j : Job) (ps : List Phase)
    → AllSeen ps
    → winners (run schedule j ps).1 + live (run schedule j ps).0.state ≡ winners ps + live j.state
unfolding run
run-winners [] j ps h = refl
run-winners ((i, spurious) ∷ rest) j ps h =
    let (seen, same) = step-winners i spurious j ps h in run-winners rest _ _ seen ∙ same

entering-AllSeen : (ps : List Phase) → AllEntering ps → (AllSeen ps) × (winners ps ≡ 0)
entering-AllSeen [] h = (tt, refl)
entering-AllSeen (entering m ∷ ps) h =
    let (seen, none_won) = entering-AllSeen ps h in ((tt, seen), omega arith)
entering-AllSeen (loaded m s ∷ ps) h = absurd h
entering-AllSeen (exchanged m ∷ ps) h = absurd h
entering-AllSeen (stored m ∷ ps) h = absurd h
entering-AllSeen (returned m done ∷ ps) h = absurd h

-- However the threads of a live job interleave, at most one of their `complete`, `fail` and
-- `cancel` calls succeeds: none while the job is live, exactly one once it has ended.
pub run-one_winner :
    (schedule : List (ℕ × Bool)) (j : Job) (ps : List Phase)
    → is_active j.state ≡ true
    → AllEntering ps
    → winners (run schedule j ps).1 ≡ (if is_active (run schedule j ps).0.state then 0 else 1)
run-one_winner schedule j ps live_job fresh =
    let (seen, none_won) = entering-AllSeen ps fresh in
    ground (arith, run-winners schedule j ps seen)

advance-terminal :
    (spurious : Bool) (j : Job) (p : Phase)
    → HasSeen p
    → is_active j.state ≡ false
    → (advance spurious j p).0.state ≡ j.state
unfolding advance mark_terminal
advance-terminal spurious j p seen h = ground arith

step-terminal :
    (i : ℕ) (spurious : Bool) (j : Job) (ps : List Phase)
    → AllSeen ps
    → is_active j.state ≡ false
    → (step i spurious j ps).0.state ≡ j.state
unfolding step
step-terminal i spurious j [] seen h = refl
step-terminal zero spurious j (p ∷ ps) seen h = advance-terminal spurious j p seen.0 h
step-terminal (suc i) spurious j (p ∷ ps) seen h = step-terminal i spurious j ps seen.1 h

-- Once a job has ended, no interleaving of calls changes its state.
pub run-terminal :
    (schedule : List (ℕ × Bool)) (j : Job) (ps : List Phase)
    → AllSeen ps
    → is_active j.state ≡ false
    → (run schedule j ps).0.state ≡ j.state
unfolding run
run-terminal [] j ps seen h = refl
run-terminal ((i, spurious) ∷ rest) j ps seen h =
    let same = step-terminal i spurious j ps seen h in
    run-terminal rest _ _ (step-winners i spurious j ps seen).0 (rw same h) ∙ same

-- The method that a call runs when no other thread interferes.
abbrev pub sequential : Method → Job → Job × Bool
sequential (start_method now) j = start now j
sequential (complete_method now n) j = complete now n j
sequential (fail_method now e) j = fail now e j
sequential (cancel_method now) j = cancel now j

abbrev pub alone : List (ℕ × Bool)
alone = (0, false) ∷ (0, false) ∷ (0, false) ∷ (0, false) ∷ []

-- A thread that runs alone, and whose weak exchanges do not fail, does what the method does.
pub run-alone :
    (m : Method) (j : Job)
    → run alone j (entering m ∷ []) ≡ ((sequential m j).0, returned m (sequential m j).1 ∷ [])
unfolding run step advance start complete fail cancel mark_terminal
run-alone m j = ground arith
