-- ===== src/Generations.antt =====
-- src/generation.ts: one generation of a worker, from active over draining to stopped. The worker thread is seen
-- through what it counts as pending, and whether it was disposed. Manager is src/generation-manager.ts.
pub mod Manager
pub mod Triggers
pub mod Routing
pub mod FirstPaths
pub mod Dispatch
pub mod Core
pub mod Steps
pub mod Kept
pub mod HandOvers
pub mod Invariant
pub mod Resumption
pub mod Once
pub mod ResumedOnce
pub mod SameQueue
pub mod Swaps
pub mod Namespaces
pub mod Alarms
pub mod Reloads
mod Tests
use lopata.Common.{
  ℕ, ◌+◌, ◌-◌, Bool, true, false, not, ◌&&◌, ◌||◌, Option, none, some, List, [], ◌∷◌, map, ltb,
  ◌==◌, if◌then◌else◌, any, keep, Text, is_nil,
}

pub data GenerationState : Type 0 where
  active draining stopped : GenerationState

abbrev pub is_stopped : GenerationState → Bool
is_stopped stopped = true
is_stopped _ = false

abbrev pub is_active : GenerationState → Bool
is_active active = true
is_active _ = false

-- A Durable Object namespace is known by a number, the identity of the object.
pub record ClassRegistry : Type 0 where
  pub durable_objects : List (Text × ℕ)
  pub workflows : List Text

-- What the worker thread counts, and what was done to it.
pub record WorkerThread : Type 0 where
  pub pending_wait_until : ℕ
  pub pending_handler_work : ℕ
  pub pending_fetch : ℕ
  pub open_stream_count : ℕ
  pub claims_messages : Bool
  pub disposed : Bool

pub record Generation : Type 0 where
  pub id : ℕ
  pub state : GenerationState
  pub registry : ClassRegistry
  pub thread_executor : Option WorkerThread
  pub active_requests : ℕ
  pub cron_timer : Bool

unfoldable pub new_generation : ℕ → ClassRegistry → Option WorkerThread → Generation
new_generation id registry thread = record {
  id = id;
  state = active;
  registry = registry;
  thread_executor = thread;
  active_requests = 0;
  cron_timer = false;
}

-- The synchronous part of `callFetch`: the request is counted while it is dispatched, and the `finally` takes
-- it off again when the promise is returned.
unfoldable pub call_fetch : (dispatch : Generation → Generation) → Generation → Generation
call_fetch dispatch g =
    let counted = dispatch (record g { active_requests = g.active_requests + 1 }) in
    record counted { active_requests = counted.active_requests - 1 }

unfoldable pub start_consumers : (cron_enabled : Bool) (crons : List Text) → Generation → Generation
start_consumers cron_enabled crons g = elim g.thread_executor [
  | none ↦ g
  | some _ ↦ if cron_enabled && not (is_nil crons) then record g { cron_timer = true } else g
]

unfoldable pub stop_consumers : Generation → Generation
stop_consumers g = record g { cron_timer = false }

abbrev pub stop_queue_consumers : WorkerThread → WorkerThread
stop_queue_consumers w = if w.disposed then w else record w { claims_messages = false }

abbrev pub on_thread : (WorkerThread → WorkerThread) → Option WorkerThread → Option WorkerThread
on_thread f none = none
on_thread f (some w) = some (f w)

unfoldable pub drain : Generation → Generation
unfolding stop_consumers
drain g =
    if is_stopped g.state then g else record (stop_consumers (record g { state = draining })) {
      thread_executor = on_thread stop_queue_consumers g.thread_executor;
    }

unfoldable pub stop : Generation → Generation
unfolding drain
stop g =
    if is_stopped g.state
    then g
    else let drained = drain g in
      record drained {
        state = stopped;
        thread_executor = on_thread (λ w. record w { disposed = true }) drained.thread_executor;
      }

-- The namespaces whose alarms are set, once a generation that drains or stops has cleared its own: those that
-- the manager shares are left alone, and so is everything when the generation had stopped before.
abbrev pub has_namespace : ℕ → List (Text × ℕ) → Bool
has_namespace n entries = any (λ e. e.1 == n) entries

unfoldable pub clear_alarms : (shared : List (Text × ℕ)) → Generation → List ℕ → List ℕ
clear_alarms shared g timers =
    if is_stopped g.state
    then timers
    else keep (λ n. has_namespace n shared || not (has_namespace n g.registry.durable_objects))
        timers

abbrev pub is_zero : ℕ → Bool
is_zero n = n == 0

unfoldable pub is_idle : Generation → Bool
is_idle g = is_zero g.active_requests && elim g.thread_executor [
  | none ↦ true
  | some w ↦
      is_zero w.pending_wait_until
      && (is_zero w.pending_handler_work
          && (is_zero w.pending_fetch && is_zero w.open_stream_count))
]
