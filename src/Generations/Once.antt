-- ===== src/Generations/Once.antt =====
-- What the methods of src/generation-manager.ts note of the workers that were told to resume.
use lopata.Common.{
  mem-map, ℕ, suc, ◌≡◌, refl, ◌∙◌, sym, ap, subst, true, false, ◌||◌, Option, none, some, List, [],
  ◌∷◌, ◌++◌, ◌==◌, any, mem-snoc, arith, Bool-cases, Option-cases, inl, inr, or_iff, Text, is_nil,
}
use mathlib.Core.List.{Memᴰ}
use lopata.Generations.{
  is_stopped, is_active, ClassRegistry, WorkerThread, Generation, new_generation, start_consumers,
  drain, stop, is_idle, clear_alarms,
}
use lopata.Generations.Manager.{
  Manager, Settings, has_id, at_id, get_generation, update, get_active, resume_workflows,
  stop_generation, blocks, resume_if_last, set_namespace, finish, schedule_drain_and_stop,
  wire_namespaces, prune_namespaces, hand_over, hand_over_active, swap, reload_ready,
}
use lopata.Generations.Core.{Tame, Tame-at_id, Tame-drain, Tame-stop}
use lopata.Generations.Kept.{CoreOf, get_active-mem}
use lopata.Generations.HandOvers.{wire_namespaces-Kept, Tame-start_consumers, swap-uncalled}

abbrev pub Distinct : List ℕ → Type 0
Distinct [] = Unit
Distinct (i ∷ is) = (has_id i is ≡ false) × Distinct is

-- A generation that is still known and was told to resume is noted as resumed.
pub record Once (m : Manager) : Type 0 where
  pub noted :
      (g : Generation)
      → Memᴰ g m.generations
      → has_id g.id m.resume_calls ≡ true
      → has_id g.id m.resumed_gen_ids ≡ true
  pub distinct : Distinct m.resume_calls

pub update-Once :
    (id : ℕ) (f : Generation → Generation) (m : Manager) → Tame f → Once m → Once (update id f m)
update-Once id f m t o = record {
  noted = λ g mem h.
      let (g0, n, eq) = mem-map (at_id id f) m.generations g mem in
      let ids = ap (λ x. x.id) eq ∙ (Tame-at_id id f t).same_id g0 in
      subst (λ i. has_id i m.resumed_gen_ids ≡ true) (sym ids)
        (o.noted g0 n (subst (λ i. has_id i m.resume_calls ≡ true) ids h));
  distinct = o.distinct;
}

resume_workflows-Once :
    (g : Generation) (m : Manager)
    → (has_id g.id m.resume_calls ≡ true → has_id g.id m.resumed_gen_ids ≡ true)
    → Once m
    → Once (resume_workflows g m)
unfolding resume_workflows
resume_workflows-Once g m here o =
    elim (Bool-cases (is_nil g.registry.workflows || has_id g.id m.resumed_gen_ids)) [
      | inl h ↦ rw (resume_workflows, h) o
      | inr h ↦
          rw (resume_workflows, h)
            (record {
              noted = λ x mem k. elim ((or_iff (g.id == x.id) (has_id x.id m.resume_calls)).0 k) [
                | inl e ↦ (or_iff (g.id == x.id) (has_id x.id m.resumed_gen_ids)).1 (inl e)
                | inr e ↦
                    (or_iff (g.id == x.id) (has_id x.id m.resumed_gen_ids)).1
                      (inr (o.noted x mem e))
              ];
              distinct = (
                elim (Bool-cases (has_id g.id m.resume_calls)) [
                  | inr e ↦ e
                  | inl e ↦ absurd (
                      let k =
                        (or_iff (is_nil g.registry.workflows) (has_id g.id m.resumed_gen_ids)).1
                          (inr (here e)) in
                      ground arith)
                ],
                o.distinct,
              );
            })
    ]

resume_if_last-Once : (m : Manager) → Once m → Once (resume_if_last m)
unfolding resume_if_last
resume_if_last-Once m o = elim (Option-cases (get_active m)) [
  | inl e ↦ rw (resume_if_last, e) o
  | inr (g, e) ↦ elim (Bool-cases (any (blocks g.id) m.generations)) [
    | inl h ↦ rw (resume_if_last, e, h) o
    | inr h ↦
        rw (resume_if_last, e, h) (resume_workflows-Once g m (o.noted g (get_active-mem m g e).0) o)
  ]
]

pub stop_generation-Once : (id : ℕ) (m : Manager) → Once m → Once (stop_generation id m)
unfolding stop_generation
stop_generation-Once id m o = elim (Option-cases (get_generation id m)) [
  | inl e ↦ rw (stop_generation, e) o
  | inr (g, e) ↦ elim (Bool-cases (is_stopped g.state)) [
    | inl h ↦ rw (stop_generation, e, h) o
    | inr h ↦
        rw (stop_generation, e, h)
          (let k = update-Once id stop m Tame-stop o in
            record { noted = k.noted; distinct = k.distinct })
  ]
]

pub finish-Once : (id : ℕ) (m : Manager) → Once m → Once (finish id m)
unfolding finish
finish-Once id m o = resume_if_last-Once (stop_generation id m) (stop_generation-Once id m o)

hand_over_active-Once :
    (current : Option ℕ) (m : Manager) → Once m → Once (hand_over_active current m)
unfolding hand_over_active hand_over schedule_drain_and_stop
hand_over_active-Once none m o = o
hand_over_active-Once (some id) m o = elim (Option-cases (get_generation id m)) [
  | inl e ↦ rw (hand_over, e) o
  | inr (old, e) ↦ elim (Bool-cases (is_active old.state)) [
    | inr h ↦ rw (hand_over, e, h) o
    | inl h ↦
        let drained : Manager = record (update id drain m) {
          alarms = clear_alarms m.do_namespaces old m.alarms;
        } in
        let k = update-Once id drain m Tame-drain o in
        let ok : Once drained = record { noted = k.noted; distinct = k.distinct } in
        elim (Bool-cases (is_idle (drain old))) [
          | inl i ↦
              rw (hand_over, e, h, schedule_drain_and_stop, i)
                (finish-Once (drain old).id drained ok)
          | inr i ↦
              rw (hand_over, e, h, schedule_drain_and_stop, i)
                (record { noted = k.noted; distinct = k.distinct })
        ]
  ]
]

swap-Once :
    (new : Generation) (m : Manager)
    → new.id ≡ m.next_gen_id
    → CoreOf none m
    → Once m
    → Once (swap new m)
unfolding swap
swap-Once new m q c o =
    let added : Manager = record m {
      generations = m.generations ++ (new ∷ []);
      next_gen_id = suc m.next_gen_id;
    } in
    let k = hand_over_active-Once m.active_gen_id added (record {
      noted = λ g mem h. elim (mem-snoc m.generations new g mem) [
        | inl n ↦ o.noted g n h
        | inr same ↦ absurd (
            let (small, _) = c.called g.id h in
            let ids = ap (λ x. x.id) same in omega (arith, small, ids, q))
      ];
      distinct = o.distinct;
    }) in
    record { noted = k.noted; distinct = k.distinct }

wire_namespaces-Once :
    (entries : List (Text × ℕ)) (m : Manager) → Once m → Once (wire_namespaces entries m)
unfolding wire_namespaces
wire_namespaces-Once [] m o = o
wire_namespaces-Once ((class_name, n) ∷ entries) m o =
    wire_namespaces-Once entries
      (record m {
        do_namespaces = set_namespace class_name n m.do_namespaces;
        alarms = n ∷ m.alarms;
      })
      (record { noted = o.noted; distinct = o.distinct })

pub reload_ready-Once :
    (settings : Settings) (registry : ClassRegistry) (thread : WorkerThread) (m : Manager)
    → CoreOf none m
    → Once m
    → Once (reload_ready settings registry thread m)
unfolding reload_ready new_generation prune_namespaces
reload_ready-Once settings registry thread m c o =
    let entries = registry.durable_objects in
    let ready = prune_namespaces entries (wire_namespaces entries m) in
    let w = wire_namespaces-Kept none entries m in
    let wo = wire_namespaces-Once entries m o in
    let new = new_generation m.next_gen_id registry (some thread) in
    let ok : Once ready = record { noted = wo.noted; distinct = wo.distinct } in
    let f = start_consumers settings.cron_enabled settings.crons in
    let started = update m.next_gen_id f (swap new ready) in
    let so =
      update-Once m.next_gen_id f (swap new ready)
        (Tame-start_consumers settings.cron_enabled settings.crons)
        (swap-Once new ready (sym w.next) (w.core c) ok) in
    let uncalled = swap-uncalled new ready (sym w.next) (w.core c) in
    elim (Bool-cases settings.has_script) [
      | inr h ↦
          rw (reload_ready, h) (swap-Once (new_generation m.next_gen_id registry none) m refl c o)
      | inl h ↦ elim (Option-cases m.active_gen_id) [
        | inr (a, e) ↦ rw (reload_ready, h, e) (record { noted = so.noted; distinct = so.distinct })
        | inl e ↦
            rw (reload_ready, h, e)
              (let r = resume_workflows-Once new started (λ k. absurd (ground arith)) so in
                record { noted = r.noted; distinct = r.distinct })
      ]
    ]
