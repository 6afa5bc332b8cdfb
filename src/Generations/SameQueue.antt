-- ===== src/Generations/SameQueue.antt =====
-- The methods of src/generation-manager.ts that leave its queue of reloads alone.
use lopata.Common.{
  ℕ, suc, ◌≡◌, refl, ◌∙◌, not, ◌||◌, Option, none, some, List, [], ◌∷◌, ◌++◌, ◌==◌, any, keep,
  Bool-cases, Option-cases, inl, inr, Text, is_nil,
}
use lopata.Generations.{
  is_stopped, is_active, ClassRegistry, WorkerThread, Generation, new_generation, start_consumers,
  drain, is_idle, clear_alarms,
}
use lopata.Generations.Manager.{
  Manager, Settings, has_id, get_generation, update, get_active, resume_workflows, stop_generation,
  blocks, resume_if_last, set_namespace, finish, schedule_drain_and_stop, end_drain, forget,
  drain_generation, wire_namespaces, prune_namespaces, hand_over, hand_over_active, swap,
  reload_ready,
}

-- The methods that leave the queue of reloads alone.
pub record SameQueue (m m' : Manager) : Type 0 where
  pub reloading : m'.reloading ≡ m.reloading
  pub pending : m'.pending_reload ≡ m.pending_reload
  pub due : m'.follow_ups ≡ m.follow_ups

pub SameQueue-refl : (m : Manager) → SameQueue m m
SameQueue-refl m = record { reloading = refl; pending = refl; due = refl }

SameQueue-trans : (a b c : Manager) → SameQueue a b → SameQueue b c → SameQueue a c
SameQueue-trans a b c p q = record {
  reloading = q.reloading ∙ p.reloading;
  pending = q.pending ∙ p.pending;
  due = q.due ∙ p.due;
}

-- The methods that also leave alone what waits for its grace period.
pub record Unmoved (m m' : Manager) : Type 0 where
  pub queue : SameQueue m m'
  pub draining : m'.draining_ids ≡ m.draining_ids

Unmoved-refl : (m : Manager) → Unmoved m m
Unmoved-refl m = record { queue = SameQueue-refl m; draining = refl }

pub resume_workflows-Unmoved : (g : Generation) (m : Manager) → Unmoved m (resume_workflows g m)
unfolding resume_workflows
resume_workflows-Unmoved g m =
    elim (Bool-cases (is_nil g.registry.workflows || has_id g.id m.resumed_gen_ids)) [
      | inl h ↦ rw (resume_workflows, h) (Unmoved-refl m)
      | inr h ↦
          rw (resume_workflows, h)
            (record {
              queue = record { reloading = refl; pending = refl; due = refl };
              draining = refl;
            })
    ]

resume_if_last-Unmoved : (m : Manager) → Unmoved m (resume_if_last m)
unfolding resume_if_last
resume_if_last-Unmoved m = elim (Option-cases (get_active m)) [
  | inl e ↦ rw (resume_if_last, e) (Unmoved-refl m)
  | inr (g, e) ↦ elim (Bool-cases (any (blocks g.id) m.generations)) [
    | inl h ↦ rw (resume_if_last, e, h) (Unmoved-refl m)
    | inr h ↦ rw (resume_if_last, e, h) (resume_workflows-Unmoved g m)
  ]
]

pub stop_generation-Unmoved : (id : ℕ) (m : Manager) → Unmoved m (stop_generation id m)
unfolding stop_generation
stop_generation-Unmoved id m = elim (Option-cases (get_generation id m)) [
  | inl e ↦ rw (stop_generation, e) (Unmoved-refl m)
  | inr (g, e) ↦ elim (Bool-cases (is_stopped g.state)) [
    | inl h ↦ rw (stop_generation, e, h) (Unmoved-refl m)
    | inr h ↦
        rw (stop_generation, e, h)
          (record {
            queue = record { reloading = refl; pending = refl; due = refl };
            draining = refl;
          })
  ]
]

pub finish-Unmoved : (id : ℕ) (m : Manager) → Unmoved m (finish id m)
unfolding finish
finish-Unmoved id m =
    let s = stop_generation-Unmoved id m in
    let r = resume_if_last-Unmoved (stop_generation id m) in
    record {
      queue = SameQueue-trans m (stop_generation id m) (finish id m) s.queue r.queue;
      draining = r.draining ∙ s.draining;
    }

schedule_drain_and_stop-SameQueue :
    (g : Generation) (m : Manager) → SameQueue m (schedule_drain_and_stop g m)
unfolding schedule_drain_and_stop
schedule_drain_and_stop-SameQueue g m = elim (Bool-cases (is_idle g)) [
  | inl h ↦ rw (schedule_drain_and_stop, h) ((finish-Unmoved g.id m).queue)
  | inr h ↦
      rw (schedule_drain_and_stop, h) (record { reloading = refl; pending = refl; due = refl })
]

hand_over_active-SameQueue :
    (current : Option ℕ) (m : Manager) → SameQueue m (hand_over_active current m)
unfolding hand_over_active hand_over
hand_over_active-SameQueue none m = SameQueue-refl m
hand_over_active-SameQueue (some id) m = elim (Option-cases (get_generation id m)) [
  | inl e ↦ rw (hand_over, e) (SameQueue-refl m)
  | inr (old, e) ↦ elim (Bool-cases (is_active old.state)) [
    | inl h ↦
        rw (hand_over, e, h)
          (let q =
              schedule_drain_and_stop-SameQueue (drain old) (record (update id drain m) {
                alarms = clear_alarms m.do_namespaces old m.alarms;
              }) in
            record { reloading = q.reloading; pending = q.pending; due = q.due })
    | inr h ↦ rw (hand_over, e, h) (SameQueue-refl m)
  ]
]

swap-SameQueue : (new : Generation) (m : Manager) → SameQueue m (swap new m)
unfolding swap
swap-SameQueue new m =
    let q =
      hand_over_active-SameQueue m.active_gen_id
        (record m { generations = m.generations ++ (new ∷ []); next_gen_id = suc m.next_gen_id }) in
    record { reloading = q.reloading; pending = q.pending; due = q.due }

wire_namespaces-SameQueue :
    (entries : List (Text × ℕ)) (m : Manager) → SameQueue m (wire_namespaces entries m)
unfolding wire_namespaces
wire_namespaces-SameQueue [] m = SameQueue-refl m
wire_namespaces-SameQueue ((class_name, n) ∷ entries) m =
    let q = wire_namespaces-SameQueue entries (record m {
      do_namespaces = set_namespace class_name n m.do_namespaces;
      alarms = n ∷ m.alarms;
    }) in
    record { reloading = q.reloading; pending = q.pending; due = q.due }

pub reload_ready-SameQueue :
    (settings : Settings) (registry : ClassRegistry) (thread : WorkerThread) (m : Manager)
    → SameQueue m (reload_ready settings registry thread m)
unfolding reload_ready prune_namespaces
reload_ready-SameQueue settings registry thread m =
    let entries = registry.durable_objects in
    let ready = prune_namespaces entries (wire_namespaces entries m) in
    let w = wire_namespaces-SameQueue entries m in
    let new = new_generation m.next_gen_id registry (some thread) in
    let s = swap-SameQueue new ready in
    let started =
      update m.next_gen_id (start_consumers settings.cron_enabled settings.crons)
        (swap new ready) in
    let q : SameQueue m started = record {
      reloading = s.reloading ∙ w.reloading;
      pending = s.pending ∙ w.pending;
      due = s.due ∙ w.due;
    } in
    elim (Bool-cases settings.has_script) [
      | inr h ↦ rw (reload_ready, h) (swap-SameQueue (new_generation m.next_gen_id registry none) m)
      | inl h ↦ elim (Option-cases m.active_gen_id) [
        | inr (a, e) ↦
            rw (reload_ready, h, e)
              (record { reloading = q.reloading; pending = q.pending; due = q.due })
        | inl e ↦
            rw (reload_ready, h, e)
              (let r =
                  SameQueue-trans m started (resume_workflows new started) q
                    ((resume_workflows-Unmoved new started).queue) in
                record { reloading = r.reloading; pending = r.pending; due = r.due })
      ]
    ]

pub end_drain-SameQueue : (id : ℕ) (m : Manager) → SameQueue m (end_drain id m)
unfolding end_drain
end_drain-SameQueue id m = elim (Bool-cases (has_id id m.draining_ids)) [
  | inl e ↦
      rw (end_drain, e)
        (let q =
            (finish-Unmoved id
              (record m { draining_ids = keep (λ i. not (i == id)) m.draining_ids })).queue in
          record { reloading = q.reloading; pending = q.pending; due = q.due })
  | inr e ↦ rw (end_drain, e) (SameQueue-refl m)
]

pub forget-SameQueue : (id : ℕ) (m : Manager) → SameQueue m (forget id m)
unfolding forget
forget-SameQueue id m = elim (Bool-cases (has_id id m.removal_ids)) [
  | inl e ↦ rw (forget, e) (record { reloading = refl; pending = refl; due = refl })
  | inr e ↦ rw (forget, e) (SameQueue-refl m)
]

pub drain_generation-SameQueue : (id : ℕ) (m : Manager) → SameQueue m (drain_generation id m)
unfolding drain_generation
drain_generation-SameQueue id m = elim (Option-cases (get_generation id m)) [
  | inl e ↦ rw (drain_generation, e) (SameQueue-refl m)
  | inr (g, e) ↦ rw (drain_generation, e) (record { reloading = refl; pending = refl; due = refl })
]
