-- ===== src/Generations/Tests.antt =====
-- A manager through two reloads, and the theorems about src/generation-manager.ts and src/generation.ts there.
use lopata.Common.{
  ℕ, ◌+◌, ◌≡◌, ◌⊎◌, ◌≤◌, refl, sym, ap, subst, inl, inr, true, false, Option, some, List, [], ◌∷◌,
  arith, Text, codes, text_eq, if◌then◌else◌,
}
use mathlib.Core.List.{Memᴰ}
use lopata.Generations.{
  call_fetch, active, stopped, is_stopped, is_active, ClassRegistry, WorkerThread, Generation,
}
use lopata.Generations.Manager.{
  Manager, Settings, new_manager, reload_ready, end_drain, get_active, has_class,
}
use lopata.Generations.Steps.{
  Event, requests_reload, follows_up, reload_fails, reload_succeeds, ends_drain, run,
}
use lopata.Generations.Invariant.{run-CoreOf, new_manager-CoreOf}
use lopata.Generations.Resumption.{single_active, resumed_alone, end_drain-resumes}
use lopata.Generations.ResumedOnce.{resumed_once}
use lopata.Generations.Once.{Distinct}
use lopata.Generations.Swaps.{Deferred, reload_ready-Deferred}
use lopata.Generations.Reloads.{unserved, requests-served}
use lopata.Generations.Alarms.{AlarmSet, reload_ready-AlarmSet}
use lopata.Generations.Routing.{
  Request, Response, can_serve_assets, unset, Handlers, worker_fetch, assets_fetch, dispatch_fetch,
  has_call, should_run_worker_first,
}
use lopata.Generations.Dispatch.{unservable_request, fallback_order}

abbrev settings : Settings
settings = record { has_script = true; cron_enabled = true; crons = codes "* * * * *" ∷ [] }

abbrev registry : ClassRegistry
registry = record { durable_objects = (codes "Room", 7) ∷ []; workflows = codes "Flow" ∷ [] }

abbrev idle : WorkerThread
idle = record {
  pending_wait_until = 0;
  pending_handler_work = 0;
  pending_fetch = 0;
  open_stream_count = 0;
  claims_messages = true;
  disposed = false;
}

abbrev busy : WorkerThread
busy = record idle { open_stream_count = 1 }

abbrev reloads : WorkerThread → List Event
reloads thread = requests_reload ∷ reload_succeeds registry thread ∷ []

-- A generation with a stream, a second one that takes over, and the end of the first one's grace period.
abbrev first_load : List Event
first_load = reloads busy

abbrev taken_over : List Event
taken_over = requests_reload ∷ reload_succeeds registry busy ∷ reloads idle

abbrev drained : List Event
drained =
    requests_reload
    ∷ reload_succeeds registry busy
    ∷ requests_reload
    ∷ reload_succeeds registry idle
    ∷ ends_drain 1
    ∷ []

calls_once_drained : (run settings new_manager drained).resume_calls ≡ 2 ∷ 1 ∷ []
unfolding run new_manager
calls_once_drained = refl

calls_before : (run settings new_manager taken_over).resume_calls ≡ 1 ∷ []
unfolding run new_manager
calls_before = refl

-- With an idle first generation, nothing is left that would tell the second one to resume.
abbrev idle_reload : List Event
idle_reload =
    requests_reload
    ∷ reload_succeeds registry idle
    ∷ requests_reload
    ∷ reload_succeeds registry idle
    ∷ []

calls_of_idle_reload : (run settings new_manager idle_reload).resume_calls ≡ 1 ∷ []
unfolding run new_manager
calls_of_idle_reload = refl

abbrev first : Generation
first = record {
  id = 1;
  state = stopped;
  registry = registry;
  thread_executor = some (record busy { claims_messages = false; disposed = true });
  active_requests = 0;
  cron_timer = false;
}

abbrev second : Generation
second = record {
  id = 2;
  state = active;
  registry = registry;
  thread_executor = some idle;
  active_requests = 0;
  cron_timer = true;
}

generations_once_drained : (run settings new_manager drained).generations ≡ first ∷ second ∷ []
unfolding run new_manager
generations_once_drained = refl

single_active_example :
    ((run settings new_manager drained).active_gen_id ≡ some 2)
    × (1 ≤ 2)
    × (is_active first.state ≡ true → first ≡ second)
unfolding run new_manager
single_active_example =
    single_active settings drained second first (Memᴰ.tail (Memᴰ.head refl)) (Memᴰ.head refl) refl

resumed_alone_example : is_stopped first.state ≡ true
unfolding run new_manager
resumed_alone_example = resumed_alone settings drained 2 first refl (Memᴰ.head refl) (omega arith)

resumed_once_example : Distinct (run settings new_manager drained).resume_calls
resumed_once_example = resumed_once settings drained

-- A second request during a reload is queued, and served by a follow-up.
abbrev queued : List Event
queued =
    requests_reload
    ∷ requests_reload
    ∷ reload_fails
    ∷ follows_up
    ∷ reload_succeeds registry idle
    ∷ []

requests-served_example : unserved settings new_manager false queued ≡ false
unfolding run new_manager
requests-served_example = requests-served settings queued refl refl

unserved_before :
    unserved settings new_manager false (requests_reload ∷ requests_reload ∷ reload_fails ∷ [])
    ≡ true
unfolding unserved new_manager
unserved_before = refl

abbrev loaded : Manager
loaded = run settings new_manager first_load

abbrev serving : Generation
serving = record second { id = 1; thread_executor = some busy }

reload_ready-Deferred_example : Deferred serving loaded (reload_ready settings registry idle loaded)
unfolding run new_manager get_active
reload_ready-Deferred_example =
    reload_ready-Deferred settings registry idle loaded serving
      (run-CoreOf settings new_manager first_load new_manager-CoreOf) refl refl

abbrev replaced : Manager
replaced = run settings new_manager taken_over

only_first_older : (h : Generation) → Memᴰ h replaced.generations → (h.id ≡ 1) ⊎ (h.id ≡ 2)
unfolding run new_manager
only_first_older h (Memᴰ.head e) = inl (ap (λ x. x.id) e)
only_first_older h (Memᴰ.tail (Memᴰ.head e)) = inr (ap (λ x. x.id) e)
only_first_older h (Memᴰ.tail (Memᴰ.tail m)) = elim m [ ]

end_drain-resumes_example : (end_drain 1 replaced).resume_calls ≡ 2 ∷ replaced.resume_calls
unfolding run new_manager get_active
end_drain-resumes_example =
    end_drain-resumes replaced second 1
      (run-CoreOf settings new_manager taken_over new_manager-CoreOf) refl refl refl refl
      (λ e. absurd (omega (arith, e)))
      (λ h m l other. elim (only_first_older h m) [
        | inl e ↦ absurd (other e)
        | inr e ↦ absurd (omega (arith, e, l))
      ])

reload_ready-AlarmSet_example : AlarmSet 7 (reload_ready settings registry idle loaded)
unfolding run new_manager
reload_ready-AlarmSet_example =
    reload_ready-AlarmSet settings registry idle loaded (codes "Room", 7) refl (refl, tt)
      (Memᴰ.head refl) only_room
  where
    only_room :
        (d : Text × ℕ)
        → Memᴰ d loaded.do_namespaces
        → d.1 ≡ 7
        → has_class registry.durable_objects d ≡ true
    only_room d (Memᴰ.head e) same =
        subst (λ x. has_class registry.durable_objects x ≡ true) (sym e) refl
    only_room d (Memᴰ.tail m) same = elim m [ ]

abbrev get_account : Request
get_account = record {
  method = codes "GET";
  pathname = codes "/account/";
  web_socket_upgrade = false;
}

abbrev post_account : Request
post_account = record get_account { method = codes "POST" }

-- Assets that know one path, and a worker that answers everything.
abbrev assets : Request → Option Response
assets request = some (record {
  status = if text_eq request.pathname (codes "/account/") then 200 else 404;
  web_socket = false;
})

abbrev worker : Request → Option Response
worker request = some (record { status = 201; web_socket = false })

abbrev handlers : Handlers
handlers = record {
  executor = some worker;
  static_assets = some assets;
  run_worker_first = unset;
  upgrade = λ _. true;
}

unservable_request_example :
    (has_call assets_fetch (dispatch_fetch handlers post_account).0 ≡ false)
    × (has_call worker_fetch (dispatch_fetch handlers post_account).0 ≡ true)
unfolding can_serve_assets
unservable_request_example = unservable_request handlers post_account refl

fallback_order_example :
    (has_call assets_fetch (dispatch_fetch handlers get_account).0 ≡ true)
    × (has_call worker_fetch (dispatch_fetch handlers get_account).0 ≡ false)
unfolding can_serve_assets should_run_worker_first
fallback_order_example = fallback_order handlers get_account worker assets refl refl refl

-- A request is not counted once its dispatch has returned a promise.
call_fetch-uncounted :
    (dispatch : Generation → Generation) (g : Generation)
    → ((x : Generation) → (dispatch x).active_requests ≡ x.active_requests)
    → (call_fetch dispatch g).active_requests ≡ g.active_requests
unfolding call_fetch
call_fetch-uncounted dispatch g same =
    let counted = same (record g { active_requests = g.active_requests + 1 }) in
    omega (arith, counted)
