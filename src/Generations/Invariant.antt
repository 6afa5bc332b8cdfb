-- ===== src/Generations/Invariant.antt =====
-- The core of the state of src/generation-manager.ts holds after every sequence of steps.
use lopata.Common.{
  ℕ, zero, suc, ◌≡◌, refl, ◌∙◌, sym, Bool, true, false, not, none, some, List, [], ◌∷◌, ◌==◌,
  if◌then◌else◌, keep, arith, Bool-cases, Option-cases, inl, inr,
}
use lopata.Generations.{ClassRegistry, WorkerThread, new_generation, start_consumers, drain}
use lopata.Generations.Manager.{
  Manager, Settings, new_manager, has_id, is_gen, at_id, get_generation, update, request_reload,
  end_reload, run_follow_up, end_drain, forget, drain_generation, wire_namespaces, prune_namespaces,
  swap, reload_ready,
}
use lopata.Generations.Core.{Tame-at_id, Tame-drain, Core-keep}
use lopata.Generations.Steps.{
  Event, requests_reload, follows_up, reload_fails, reload_succeeds, ends_drain, forgets, drains,
  stops, works, count_work, step, run,
}
use lopata.Generations.Kept.{
  CoreOf, Kept-trans, map-Kept, stop_generation-Kept, resume_workflows-Kept, finish-Kept,
}
use lopata.Generations.HandOvers.{
  swap-CoreOf, swap-first, wire_namespaces-Kept, prune_namespaces-Kept, Tame-start_consumers,
  Tame-count_work, OlderStopped-map,
}

reload_ready-CoreOf :
    (settings : Settings) (registry : ClassRegistry) (thread : WorkerThread) (m : Manager)
    → CoreOf none m
    → CoreOf none (reload_ready settings registry thread m)
unfolding reload_ready new_generation
reload_ready-CoreOf settings registry thread m c =
    let entries = registry.durable_objects in
    let wired = wire_namespaces entries m in
    let ready = prune_namespaces entries wired in
    let k =
      Kept-trans none m wired ready (wire_namespaces-Kept none entries m)
        (prune_namespaces-Kept none entries wired) in
    let cready = k.core c in
    let new = new_generation m.next_gen_id registry (some thread) in
    let f = start_consumers settings.cron_enabled settings.crons in
    let tame = Tame-start_consumers settings.cron_enabled settings.crons in
    let started = update m.next_gen_id f (swap new ready) in
    let cstarted =
      (map-Kept none (swap new ready) m.next_gen_id f tame).core
        (swap-CoreOf new ready (sym k.next) cready) in
    elim (Bool-cases settings.has_script) [
      | inr h ↦
          rw (reload_ready, h) (swap-CoreOf (new_generation m.next_gen_id registry none) m refl c)
      | inl h ↦ elim (Option-cases m.active_gen_id) [
        | inr (a, e) ↦ rw (reload_ready, h, e) cstarted
        | inl e ↦
            rw (reload_ready, h, e)
              ((resume_workflows-Kept none started new (λ _.
                  let (small, older) = swap-first new ready (sym k.next) (k.current ∙ e) cready in
                  (
                    small,
                    λ q. absurd (ground arith),
                    OlderStopped-map m.next_gen_id (swap new ready) (at_id m.next_gen_id f)
                        (Tame-at_id m.next_gen_id f tame) older,
                  ))).core
                cstarted)
      ]
    ]

end_reload-CoreOf : (m : Manager) → CoreOf none m → CoreOf none (end_reload m)
unfolding end_reload
end_reload-CoreOf m c = c

request_reload-CoreOf : (m : Manager) → CoreOf none m → CoreOf none (request_reload m)
unfolding request_reload
request_reload-CoreOf m c = elim (Bool-cases m.reloading) [
  | inl e ↦ rw (request_reload, e) c
  | inr e ↦ rw (request_reload, e) c
]

run_follow_up-CoreOf :
    (m : Manager) (n : ℕ) → m.follow_ups ≡ n → CoreOf none m → CoreOf none (run_follow_up m)
unfolding run_follow_up
run_follow_up-CoreOf m zero e c = rw (run_follow_up, e) c
run_follow_up-CoreOf m (suc n) e c =
    rw (run_follow_up, e) (request_reload-CoreOf (record m { follow_ups = n }) c)

drain_generation-CoreOf :
    (id : ℕ) (m : Manager) → CoreOf none m → CoreOf none (drain_generation id m)
unfolding drain_generation
drain_generation-CoreOf id m c = elim (Option-cases (get_generation id m)) [
  | inl e ↦ rw (drain_generation, e) c
  | inr (g, e) ↦ rw (drain_generation, e) ((map-Kept none m id drain Tame-drain).core c)
]

CoreOf-if :
    (b : Bool) (x y : Manager) → CoreOf none x → CoreOf none y → CoreOf none (if b then x else y)
CoreOf-if true x y c d = c
CoreOf-if false x y c d = d

pub step-CoreOf :
    (settings : Settings) (m : Manager) (e : Event)
    → CoreOf none m
    → CoreOf none (step settings m e)
unfolding step run_follow_up end_drain forget drain_generation
step-CoreOf settings m requests_reload c = request_reload-CoreOf m c
step-CoreOf settings m follows_up c = run_follow_up-CoreOf m m.follow_ups refl c
step-CoreOf settings m reload_fails c =
    CoreOf-if m.reloading (end_reload m) m (end_reload-CoreOf m c) c
step-CoreOf settings m (reload_succeeds registry thread) c =
    let ready = reload_ready settings registry thread m in
    CoreOf-if m.reloading (end_reload ready) m
      (end_reload-CoreOf ready (reload_ready-CoreOf settings registry thread m c)) c
step-CoreOf settings m (ends_drain id) c = elim (Bool-cases (has_id id m.draining_ids)) [
  | inl e ↦
      rw (end_drain, e)
        ((finish-Kept none id
            (record m { draining_ids = keep (λ i. not (i == id)) m.draining_ids })).core
          c)
  | inr e ↦ rw (end_drain, e) c
]
step-CoreOf settings m (forgets id) c = elim (Bool-cases (has_id id m.removal_ids)) [
  | inl e ↦ rw (forget, e) (Core-keep c (λ g. not (is_gen id g)))
  | inr e ↦ rw (forget, e) c
]
step-CoreOf settings m (drains id) c = drain_generation-CoreOf id m c
step-CoreOf settings m (stops id) c = (stop_generation-Kept none m id).core c
step-CoreOf settings m (works id requests thread) c =
    (map-Kept none m id (count_work requests thread) (Tame-count_work requests thread)).core c

pub run-CoreOf :
    (settings : Settings) (m : Manager) (es : List Event)
    → CoreOf none m
    → CoreOf none (run settings m es)
unfolding run
run-CoreOf settings m [] c = c
run-CoreOf settings m (e ∷ es) c =
    run-CoreOf settings (step settings m e) es (step-CoreOf settings m e c)

pub new_manager-CoreOf : CoreOf none new_manager
unfolding new_manager
new_manager-CoreOf = record {
  fresh = λ g m. elim m [ ];
  unique = λ g h m. elim m [ ];
  last = λ g a m. elim m [ ];
  only_active = λ g m. elim m [ ];
  none_yet = λ g m. elim m [ ];
  called = λ i h. absurd (ground arith);
  at_current = λ i h. absurd (ground arith);
  older_stopped = λ i g h. absurd (ground arith);
}
