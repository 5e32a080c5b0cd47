-- ===== src/Tests/Jobs.antt =====
-- Jobs, their races, and the registry.
use memory_tools.Prelude.{
  ℕ, ◌≡◌, ◌≢◌, ◌⊎◌, refl, Bool, true, false, List, [], ◌∷◌, none, some, codes, arith,
}
use memory_tools.Web.Job.Laws.{
  start_call, fail_call, cancel_call, call, calls, ◌⟶◌, moves, call-follows_diagram, calls-terminal,
  IsConsistent, calls-IsConsistent,
}
use memory_tools.Web.Job.Race.{
  complete_method, cancel_method, Phase, entering, run, winners, step, advance, run-one_winner,
  returned,
}
use memory_tools.Web.Job.{Job, running, completed, cancelled, is_state, new_job}
use memory_tools.Web.Runner.Ends.{turns, take_steps-free}
use memory_tools.Web.Runner.Slot.{take_steps-IsValid}
use memory_tools.Web.Runner.Turns
use memory_tools.Web.Runner.{
  Runner, Step, run_step, worker_step, ask_step, cancel_step, shutdown_step, no_thread, in_task,
  no_result, take_steps,
}
use memory_tools.Web.Registry.Active.{create_lem}
use memory_tools.Web.Registry.Policy.{
  Request, create_request, start_request, complete_request, serve_all, IsValid, serve_all-IsValid,
  create-never_reuses,
}
use memory_tools.Web.Registry.{Registry, empty, create, get, has_active_job}

abbrev busy : Job
busy = record {
  id = 1;
  kind = codes "scan";
  state = running;
  cancel_requested = false;
  bytes_scanned = 0;
  count = 0;
  total_bytes = 0;
  started_at = 5;
  elapsed_ms = 0;
  error = [];
}

abbrev ended : Job
ended = record busy { state = completed; count = 3; elapsed_ms = 2 }

call-follows_diagram_example :
    ((moves (cancel_call 9) ≡ true)
      × ((call (cancel_call 9) busy).1 ≡ true)
      × (running ⟶ (call (cancel_call 9) busy).0.state))
    ⊎ (((moves (cancel_call 9) ≡ false) ⊎ ((call (cancel_call 9) busy).1 ≡ false))
        × ((call (cancel_call 9) busy).0.state ≡ running))
call-follows_diagram_example = call-follows_diagram (cancel_call 9) busy

calls-terminal_example :
    ((calls (cancel_call 9 ∷ fail_call 10 (codes "x") ∷ []) ended).state ≡ completed)
    × ((calls (cancel_call 9 ∷ fail_call 10 (codes "x") ∷ []) ended).error ≡ [])
    × ((calls (cancel_call 9 ∷ fail_call 10 (codes "x") ∷ []) ended).elapsed_ms ≡ 2)
calls-terminal_example = calls-terminal (cancel_call 9 ∷ fail_call 10 (codes "x") ∷ []) ended refl

calls-IsConsistent_example :
    IsConsistent (calls (start_call 5 ∷ cancel_call 9 ∷ []) (new_job 1 (codes "scan")))
calls-IsConsistent_example = calls-IsConsistent (start_call 5 ∷ cancel_call 9 ∷ []) 1 (codes "scan")

abbrev rivals : List Phase
rivals = entering (complete_method 9 3) ∷ entering (cancel_method 10) ∷ []

-- The second thread loads the state, the first exchanges it, and the second then fails.
abbrev schedule : List (ℕ × Bool)
schedule = (1, false) ∷ (0, false) ∷ (1, false) ∷ (0, false) ∷ (0, false) ∷ (1, false) ∷ []

race_run :
    (run schedule busy rivals).1
    ≡ returned (complete_method 9 3) true ∷ returned (cancel_method 10) false ∷ []
unfolding run step advance
race_run = refl

run-one_winner_example : winners (run schedule busy rivals).1 ≡ 1
unfolding run step advance
run-one_winner_example = run-one_winner schedule busy rivals refl tt

abbrev waiting : Runner
waiting = record { active = 0; phase = no_thread; job = ended; cancellers = [] }

abbrev succeeds : Step
succeeds = worker_step (record {
  now = 9;
  listed = true;
  result = record no_result { ok = true; count = 3 };
  spurious = false;
})

-- A thread asks for the cancellation and sees the job queued; the worker starts the job and is in its
-- task when that thread cancels it.
abbrev steps : List Step
steps =
    run_step 1 (some (new_job 1 (codes "scan")))
    ∷ ask_step 7
    ∷ succeeds
    ∷ cancel_step 0 false
    ∷ succeeds
    ∷ succeeds
    ∷ succeeds
    ∷ succeeds
    ∷ cancel_step 0 false
    ∷ cancel_step 0 true
    ∷ cancel_step 0 false
    ∷ cancel_step 0 false
    ∷ []

-- The worker has begun its task when the other thread sees RUNNING.
abbrev late_steps : List Step
late_steps =
    run_step 1 (some (new_job 1 (codes "scan")))
    ∷ succeeds
    ∷ succeeds
    ∷ succeeds
    ∷ succeeds
    ∷ succeeds
    ∷ ask_step 7
    ∷ cancel_step 0 false
    ∷ cancel_step 0 false
    ∷ []

abbrev rest : List Step
rest =
    cancel_step 0 false
    ∷ succeeds
    ∷ succeeds
    ∷ shutdown_step 9 true
    ∷ succeeds
    ∷ succeeds
    ∷ succeeds
    ∷ succeeds
    ∷ cancel_step 0 false
    ∷ succeeds
    ∷ succeeds
    ∷ succeeds
    ∷ succeeds
    ∷ succeeds
    ∷ succeeds
    ∷ []

waiting-IsValid : Turns.IsValid waiting
waiting-IsValid = (((λ h. cc), (λ e. refl), refl), tt)

cancelled_in_task :
    ((take_steps steps waiting).job.state ≡ cancelled)
    × ((take_steps steps waiting).phase ≡ in_task)
unfolding take_steps new_job memory_tools.Web.Runner.take_step memory_tools.Web.Runner.cancel_job
    memory_tools.Web.Runner.cancel_at memory_tools.Web.Runner.worker
    memory_tools.Web.Runner.worker_in memory_tools.Web.Runner.ask_cancel memory_tools.Web.Runner.run
    memory_tools.Web.Runner.look_up memory_tools.Web.Runner.begin_task
    memory_tools.Web.Runner.end_task memory_tools.Web.Runner.settle
    memory_tools.Web.Runner.finish_slot memory_tools.Web.Runner.request_shutdown
cancelled_in_task = (refl, refl)

-- The flag is set in the task, which still ends as completed.
late_run :
    ((take_steps late_steps waiting).job.cancel_requested ≡ true)
    × ((take_steps rest (take_steps late_steps waiting)).job.state ≡ completed)
unfolding take_steps new_job memory_tools.Web.Runner.take_step memory_tools.Web.Runner.cancel_job
    memory_tools.Web.Runner.cancel_at memory_tools.Web.Runner.worker
    memory_tools.Web.Runner.worker_in memory_tools.Web.Runner.ask_cancel memory_tools.Web.Runner.run
    memory_tools.Web.Runner.look_up memory_tools.Web.Runner.begin_task
    memory_tools.Web.Runner.end_task memory_tools.Web.Runner.settle
    memory_tools.Web.Runner.finish_slot memory_tools.Web.Runner.request_shutdown
late_run = (refl, refl)

take_steps-IsValid_example : Turns.IsValid (take_steps steps waiting)
take_steps-IsValid_example =
    take_steps-IsValid steps waiting
      (omega arith, (tt, (tt, (tt, (tt, (tt, (tt, (tt, (tt, (tt, (tt, (tt, tt))))))))))))
      waiting-IsValid

take_steps-free_example :
    ((take_steps rest (take_steps steps waiting)).active ≡ 0)
    × (is_state (take_steps rest (take_steps steps waiting)).job.state running ≡ false)
unfolding turns
take_steps-free_example =
    take_steps-free rest (take_steps steps waiting) take_steps-IsValid_example
      (
        tt,
        (
          refl,
          (
            refl,
            (
              tt,
              (
                refl,
                (refl, (refl, (refl, (tt, (refl, (refl, (refl, (refl, (refl, (refl, tt)))))))))),
              ),
            ),
          ),
        ),
      )
      (omega arith)

abbrev history : List Request
history =
    create_request (codes "scan")
    ∷ start_request 5 1
    ∷ create_request (codes "next")
    ∷ complete_request 9 1 3
    ∷ []

serve_all-IsValid_example : IsValid (serve_all history empty)
serve_all-IsValid_example = serve_all-IsValid history (omega arith)

abbrev registry : Registry
registry = record { next_id = 2; jobs = (1, busy) ∷ [] }

registry-IsValid : IsValid registry
registry-IsValid = record {
  positive = omega arith;
  keyed = (omega arith, omega arith, refl, tt, tt);
  single = omega arith;
}

create_lem_example :
    (has_active_job registry ≡ true → create (codes "scan") registry ≡ (registry, 0))
    × (has_active_job registry ≡ false
        → ((create (codes "scan") registry).1 ≢ 0)
          × (get (create (codes "scan") registry).1 registry ≡ none)
          × (get (create (codes "scan") registry).1 (create (codes "scan") registry).0
              ≡ some (new_job (create (codes "scan") registry).1 (codes "scan"))))
create_lem_example = create_lem (codes "scan") registry registry-IsValid

abbrev idle : Registry
idle = record { next_id = 2; jobs = (1, ended) ∷ [] }

idle-IsValid : IsValid idle
idle-IsValid = record {
  positive = omega arith;
  keyed = (omega arith, omega arith, refl, tt, tt);
  single = omega arith;
}

create-never_reuses_example :
    (create (codes "next") (
      serve_all (start_request 5 2 ∷ complete_request 9 2 3 ∷ []) (create (codes "scan") idle).0)).1
    ≢ 2
unfolding create
create-never_reuses_example =
    create-never_reuses (codes "scan") (codes "next")
      (start_request 5 2 ∷ complete_request 9 2 3 ∷ []) idle (omega arith) idle-IsValid (λ e. cc)
