-- ===== src/Generations/Steps.antt =====
-- The steps of the manager of src/generation-manager.ts, in any order.
use lopata.Common.{ℕ, none, some, List, [], ◌∷◌, if◌then◌else◌}
use lopata.Generations.{ClassRegistry, WorkerThread, Generation}
use lopata.Generations.Manager.{
  Manager, Settings, update, request_reload, end_reload, run_follow_up, stop_generation, end_drain,
  forget, drain_generation, reload_ready,
}

-- What happens to a manager: calls of its methods, the ends of reloads, its timers, and work in a worker.
pub data Event : Type 0 where
  requests_reload follows_up reload_fails : Event
  reload_succeeds : ClassRegistry → WorkerThread → Event
  ends_drain forgets drains stops : (id : ℕ) → Event
  works : (id : ℕ) (requests : ℕ) → WorkerThread → Event

-- The counts of a worker change; its other fields are the manager's.
abbrev pub count_work : ℕ → WorkerThread → Generation → Generation
count_work requests now g = record g {
  active_requests = requests;
  thread_executor = elim g.thread_executor [
    | none ↦ none
    | some w ↦ some (record now { claims_messages = w.claims_messages; disposed = w.disposed })
  ];
}

unfoldable pub step : Settings → Manager → Event → Manager
unfolding request_reload run_follow_up end_reload reload_ready end_drain forget drain_generation
    stop_generation
step settings m requests_reload = request_reload m
step settings m follows_up = run_follow_up m
step settings m reload_fails = if m.reloading then end_reload m else m
step settings m (reload_succeeds registry thread) =
    if m.reloading then end_reload (reload_ready settings registry thread m) else m
step settings m (ends_drain id) = end_drain id m
step settings m (forgets id) = forget id m
step settings m (drains id) = drain_generation id m
step settings m (stops id) = stop_generation id m
step settings m (works id requests thread) = update id (count_work requests thread) m

unfoldable pub run : Settings → Manager → List Event → Manager
unfolding step
run settings m [] = m
run settings m (e ∷ es) = run settings (step settings m e) es
