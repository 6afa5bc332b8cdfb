-- ===== src/Generations/Alarms.antt =====
-- The alarms of the namespaces that the manager of src/generation-manager.ts shares between generations.
use lopata.Common.{
  ℕ, suc, ◌≡◌, refl, sym, ap, subst, Bool, true, false, not, ◌||◌, Option, none, some, List, [],
  ◌∷◌, ◌++◌, ◌==◌, ==_iff, if◌then◌else◌, any, keep, mem-keep, any-mem, any-none, holds_of_keep,
  keep-mem, arith, Bool-cases, Option-cases, inl, inr, or_iff, Text, is_nil,
}
use mathlib.Core.List.{Memᴰ}
use lopata.Generations.{
  is_stopped, is_active, ClassRegistry, WorkerThread, Generation, new_generation, start_consumers,
  drain, stop, is_idle, clear_alarms, has_namespace,
}
use lopata.Generations.Manager.{
  Manager, Settings, has_id, has_class, get_generation, update, get_active, resume_workflows,
  stop_generation, blocks, resume_if_last, finish, schedule_drain_and_stop, wire_namespaces,
  prune_namespaces, hand_over, hand_over_active, swap, reload_ready,
}
use lopata.Generations.Namespaces.{
  DistinctClasses, has_class-mem, wire_namespaces-mem, wire_namespaces-alarms,
  wire_namespaces-has_class,
}

-- A namespace that the manager shares, and whose alarms are set.
pub record AlarmSet (n : ℕ) (m : Manager) : Type 0 where
  pub shared : has_namespace n m.do_namespaces ≡ true
  pub set : has_id n m.alarms ≡ true

has_id-keep_holds :
    (n : ℕ) (p : ℕ → Bool) (ns : List ℕ)
    → p n ≡ true
    → has_id n ns ≡ true
    → has_id n (keep p ns) ≡ true
has_id-keep_holds n p [] holds h = h
has_id-keep_holds n p (k ∷ ns) holds h = elim (Bool-cases (k == n)) [
  | inl e ↦
      let same : k ≡ n = (==_iff k n).0 e in
      let kept = subst (λ i. p i ≡ true) (sym same) holds in rw (kept, e) refl
  | inr e ↦ elim (Bool-cases (p k)) [
    | inl q ↦ rw (q, e) (has_id-keep_holds n p ns holds (rw e at h))
    | inr q ↦ rw q (has_id-keep_holds n p ns holds (rw e at h))
  ]
]

clear_alarms-AlarmSet :
    (n : ℕ) (m : Manager) (g : Generation)
    → AlarmSet n m
    → has_id n (clear_alarms m.do_namespaces g m.alarms) ≡ true
unfolding clear_alarms
clear_alarms-AlarmSet n m g a = elim (Bool-cases (is_stopped g.state)) [
  | inl e ↦ rw (clear_alarms, e) a.set
  | inr e ↦
      rw (clear_alarms, e)
        (has_id-keep_holds n
          (λ k. has_namespace k m.do_namespaces || not (has_namespace k g.registry.durable_objects))
          m.alarms
          ((or_iff (has_namespace n m.do_namespaces)
              (not (has_namespace n g.registry.durable_objects))).1
            (inl a.shared))
          a.set)
]

AlarmSet-if :
    (n : ℕ) (b : Bool) (x y : Manager)
    → AlarmSet n x
    → AlarmSet n y
    → AlarmSet n (if b then x else y)
AlarmSet-if n true x y p q = p
AlarmSet-if n false x y p q = q

stop_generation-AlarmSet :
    (n id : ℕ) (m : Manager) → AlarmSet n m → AlarmSet n (stop_generation id m)
unfolding stop_generation
stop_generation-AlarmSet n id m a = elim (Option-cases (get_generation id m)) [
  | inl e ↦ rw (stop_generation, e) a
  | inr (g, e) ↦
      rw (stop_generation, e)
        (AlarmSet-if n (is_stopped g.state) m
          (record (update id stop m) {
            alarms = clear_alarms m.do_namespaces g m.alarms;
            removal_ids = id ∷ m.removal_ids;
          })
          a (record { shared = a.shared; set = clear_alarms-AlarmSet n m g a }))
]

resume_workflows-AlarmSet :
    (n : ℕ) (g : Generation) (m : Manager) → AlarmSet n m → AlarmSet n (resume_workflows g m)
unfolding resume_workflows
resume_workflows-AlarmSet n g m a =
    elim (Bool-cases (is_nil g.registry.workflows || has_id g.id m.resumed_gen_ids)) [
      | inl h ↦ rw (resume_workflows, h) a
      | inr h ↦ rw (resume_workflows, h) (record { shared = a.shared; set = a.set })
    ]

resume_if_last-AlarmSet : (n : ℕ) (m : Manager) → AlarmSet n m → AlarmSet n (resume_if_last m)
unfolding resume_if_last
resume_if_last-AlarmSet n m a = elim (Option-cases (get_active m)) [
  | inl e ↦ rw (resume_if_last, e) a
  | inr (g, e) ↦ elim (Bool-cases (any (blocks g.id) m.generations)) [
    | inl h ↦ rw (resume_if_last, e, h) a
    | inr h ↦ rw (resume_if_last, e, h) (resume_workflows-AlarmSet n g m a)
  ]
]

finish-AlarmSet : (n id : ℕ) (m : Manager) → AlarmSet n m → AlarmSet n (finish id m)
unfolding finish
finish-AlarmSet n id m a =
    resume_if_last-AlarmSet n (stop_generation id m) (stop_generation-AlarmSet n id m a)

hand_over_active-AlarmSet :
    (n : ℕ) (current : Option ℕ) (m : Manager)
    → AlarmSet n m
    → AlarmSet n (hand_over_active current m)
unfolding hand_over_active hand_over schedule_drain_and_stop
hand_over_active-AlarmSet n none m a = a
hand_over_active-AlarmSet n (some id) m a = elim (Option-cases (get_generation id m)) [
  | inl e ↦ rw (hand_over, e) a
  | inr (old, e) ↦ elim (Bool-cases (is_active old.state)) [
    | inr h ↦ rw (hand_over, e, h) a
    | inl h ↦
        let drained : Manager = record (update id drain m) {
          alarms = clear_alarms m.do_namespaces old m.alarms;
        } in
        let ok : AlarmSet n drained = record {
          shared = a.shared;
          set = clear_alarms-AlarmSet n m old a;
        } in
        elim (Bool-cases (is_idle (drain old))) [
          | inl i ↦
              rw (hand_over, e, h, schedule_drain_and_stop, i)
                (finish-AlarmSet n (drain old).id drained ok)
          | inr i ↦
              rw (hand_over, e, h, schedule_drain_and_stop, i)
                (record { shared = ok.shared; set = ok.set })
        ]
  ]
]

swap-AlarmSet : (n : ℕ) (new : Generation) (m : Manager) → AlarmSet n m → AlarmSet n (swap new m)
unfolding swap
swap-AlarmSet n new m a =
    let k =
      hand_over_active-AlarmSet n m.active_gen_id
        (record m { generations = m.generations ++ (new ∷ []); next_gen_id = suc m.next_gen_id })
        (record { shared = a.shared; set = a.set }) in
    record { shared = k.shared; set = k.set }

-- Once its worker is ready, a reload leaves the alarms of every namespace of its registry set, provided the
-- registry names no class twice and the manager shares none of these namespaces under a class that is gone.
pub reload_ready-AlarmSet :
    (settings : Settings) (registry : ClassRegistry) (thread : WorkerThread) (m : Manager)
    (e : Text × ℕ)
    → settings.has_script ≡ true
    → DistinctClasses registry.durable_objects
    → Memᴰ e registry.durable_objects
    → ((d : Text × ℕ)
        → Memᴰ d m.do_namespaces
        → d.1 ≡ e.1
        → has_class registry.durable_objects d ≡ true)
    → AlarmSet e.1 (reload_ready settings registry thread m)
unfolding reload_ready prune_namespaces
reload_ready-AlarmSet settings registry thread m e script distinct mem same_class =
    let entries = registry.durable_objects in
    let wired = wire_namespaces entries m in
    let ready = prune_namespaces entries wired in
    let new = new_generation m.next_gen_id registry (some thread) in
    let started =
      update m.next_gen_id (start_consumers settings.cron_enabled settings.crons)
        (swap new ready) in
    let kept =
      keep-mem (has_class entries) wired.do_namespaces e
        (wire_namespaces-mem entries m e distinct mem) (has_class-mem entries e mem) in
    let gone = keep (λ d. not (has_class entries d)) wired.do_namespaces in
    let not_gone : has_namespace e.1 gone ≡ false =
      any-none (λ d. d.1 == e.1) gone
        (λ d n. elim (Bool-cases (d.1 == e.1)) [
          | inr off ↦ off
          | inl on ↦ absurd (
              let missing =
                holds_of_keep (λ x. not (has_class entries x)) wired.do_namespaces d n in
              let has =
                wire_namespaces-has_class entries m d (same_class d)
                  (mem-keep (λ x. not (has_class entries x)) wired.do_namespaces d n)
                  ((==_iff d.1 e.1).0 on) in
              ground arith)
        ]) in
    let ok : AlarmSet e.1 ready = record {
      shared =
          any-mem (λ d. d.1 == e.1) (keep (has_class entries) wired.do_namespaces) e kept
            ((==_iff e.1 e.1).1 refl);
      set =
          has_id-keep_holds e.1 (λ n. not (has_namespace n gone)) wired.alarms (ap not not_gone)
            (wire_namespaces-alarms entries m e.1
              (inr (any-mem (λ d. d.1 == e.1) entries e mem ((==_iff e.1 e.1).1 refl))));
    } in
    let a = swap-AlarmSet e.1 new ready ok in
    elim (Option-cases m.active_gen_id) [
      | inr (id, q) ↦ rw (reload_ready, script, q) (record { shared = a.shared; set = a.set })
      | inl q ↦
          rw (reload_ready, script, q)
            (let r =
                resume_workflows-AlarmSet e.1 new started
                  (record { shared = a.shared; set = a.set }) in
              record { shared = r.shared; set = r.set })
    ]
