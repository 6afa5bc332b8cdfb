-- ===== src/Generations/Swaps.antt =====
-- What a reload of src/generation-manager.ts does to the generation that it replaces.
use lopata.Common.{
  ℕ, suc, ◌≡◌, refl, ◌∙◌, sym, ap, subst, Bool, true, false, none, some, List, [], ◌∷◌, ◌++◌,
  if◌then◌else◌, find, arith, Bool-cases, Option-cases, inl, inr, Text,
}
use lopata.Generations.{
  is_active, ClassRegistry, WorkerThread, Generation, new_generation, drain, is_idle, clear_alarms,
}
use lopata.Generations.Manager.{
  Manager, Settings, has_id, is_gen, get_generation, update, get_active, set_namespace,
  schedule_drain_and_stop, wire_namespaces, prune_namespaces, hand_over, hand_over_active, swap,
  reload_ready,
}
use lopata.Generations.Core.{Tame-drain}
use lopata.Generations.Kept.{CoreOf, get_active-mem}
use lopata.Generations.SameQueue.{finish-Unmoved}
use lopata.Generations.HandOvers.{swap-uncalled, wire_namespaces-Kept}

is_idle-drain : (g : Generation) → is_idle (drain g) ≡ is_idle g
unfolding is_idle drain
is_idle-drain g = ground arith

-- What waits for its grace period once a generation was handed over.
abbrev pub waiting_after : Generation → List ℕ → List ℕ
waiting_after old ids = if is_idle old then ids else old.id ∷ ids

hand_over-draining :
    (id : ℕ) (m : Manager) (old : Generation)
    → get_generation id m ≡ some old
    → is_active old.state ≡ true
    → (hand_over id m).draining_ids ≡ waiting_after old m.draining_ids
unfolding hand_over schedule_drain_and_stop
hand_over-draining id m old e a = elim (Bool-cases (is_idle old)) [
  | inl h ↦
      let same = is_idle-drain old ∙ h in
      rw (hand_over, e, a, schedule_drain_and_stop, same, h)
        ((finish-Unmoved (drain old).id (record (update id drain m) {
          alarms = clear_alarms m.do_namespaces old m.alarms;
        })).draining)
  | inr h ↦
      let same = is_idle-drain old ∙ h in
      let ids = Tame-drain.same_id old in
      rw (hand_over, e, a, schedule_drain_and_stop, same, h, ids) refl
]

find-append :
    (p : Generation → Bool) (gens more_gens : List Generation) (g : Generation)
    → find p gens ≡ some g
    → find p (gens ++ more_gens) ≡ some g
find-append p [] more_gens g e = absurd (ground arith)
find-append p (x ∷ gens) more_gens g e = elim (Bool-cases (p x)) [
  | inl h ↦ rw h (rw h at e)
  | inr h ↦ rw h (find-append p gens more_gens g (rw h at e))
]

swap-draining :
    (new old : Generation) (m : Manager)
    → get_active m ≡ some old
    → is_active old.state ≡ true
    → (swap new m).draining_ids ≡ waiting_after old m.draining_ids
unfolding swap hand_over_active get_active
swap-draining new old m e a = elim (Option-cases m.active_gen_id) [
  | inl h ↦ absurd (let bad : none ≡ some old = rw (get_active, h) at e in ground arith)
  | inr (id, h) ↦
      rw (swap, h)
        (hand_over-draining id
          (record m {
            generations = m.generations ++ (new ∷ []);
            next_gen_id = suc m.next_gen_id;
            active_gen_id = some id;
          })
          old (find-append (is_gen id) m.generations (new ∷ []) old (rw (get_active, h) at e)) a)
]

-- Wiring the namespaces changes them and their alarms only.
record WiredFrom (m m' : Manager) : Type 0 where
  generations : m'.generations ≡ m.generations
  next : m'.next_gen_id ≡ m.next_gen_id
  current : m'.active_gen_id ≡ m.active_gen_id
  draining : m'.draining_ids ≡ m.draining_ids

wire_namespaces-WiredFrom :
    (entries : List (Text × ℕ)) (m : Manager) → WiredFrom m (wire_namespaces entries m)
unfolding wire_namespaces
wire_namespaces-WiredFrom [] m = record {
  generations = refl;
  next = refl;
  current = refl;
  draining = refl;
}
wire_namespaces-WiredFrom ((class_name, n) ∷ entries) m =
    let w = wire_namespaces-WiredFrom entries (record m {
      do_namespaces = set_namespace class_name n m.do_namespaces;
      alarms = n ∷ m.alarms;
    }) in
    record {
      generations = w.generations;
      next = w.next;
      current = w.current;
      draining = w.draining;
    }

-- A reload leaves the new generation as the current one, and does not tell it to resume.
pub record Deferred (old : Generation) (m m' : Manager) : Type 0 where
  pub current : m'.active_gen_id ≡ some m.next_gen_id
  pub uncalled : has_id m.next_gen_id m'.resume_calls ≡ false
  pub waiting : m'.draining_ids ≡ waiting_after old m.draining_ids

swap-Deferred :
    (old new : Generation) (m : Manager)
    → new.id ≡ m.next_gen_id
    → CoreOf none m
    → get_active m ≡ some old
    → is_active old.state ≡ true
    → Deferred old m (swap new m)
unfolding swap
swap-Deferred old new m q c e a = record {
  current = ap some q;
  uncalled = subst (λ i. has_id i (swap new m).resume_calls ≡ false) q (swap-uncalled new m q c);
  waiting = swap-draining new old m e a;
}

get_active-same :
    (m m' : Manager)
    → m'.active_gen_id ≡ m.active_gen_id
    → m'.generations ≡ m.generations
    → get_active m' ≡ get_active m
unfolding get_active
get_active-same m m' p q = elim (Option-cases m.active_gen_id) [
  | inl e ↦ let e' = p ∙ e in rw (get_active, e, e') refl
  | inr (id, e) ↦ let e' = p ∙ e in rw (get_active, e, e', q) refl
]

-- Once its worker is ready, a reload that replaces an active generation makes the new generation the
-- current one without telling it to resume its workflows, and the old generation waits for the end of its
-- grace period unless it was idle.
pub reload_ready-Deferred :
    (settings : Settings) (registry : ClassRegistry) (thread : WorkerThread) (m : Manager)
    (old : Generation)
    → CoreOf none m
    → get_active m ≡ some old
    → is_active old.state ≡ true
    → Deferred old m (reload_ready settings registry thread m)
unfolding reload_ready new_generation prune_namespaces
reload_ready-Deferred settings registry thread m old c e a =
    let entries = registry.durable_objects in
    let w = wire_namespaces-WiredFrom entries m in
    let ready = prune_namespaces entries (wire_namespaces entries m) in
    let current = w.current in
    let next = w.next in
    let cready = (wire_namespaces-Kept none entries m).core c in
    let eready = get_active-same m ready current w.generations ∙ e in
    let d =
      swap-Deferred old (new_generation m.next_gen_id registry (some thread)) ready (sym next)
        cready eready a in
    elim (Bool-cases settings.has_script) [
      | inr h ↦
          rw (reload_ready, h)
            (swap-Deferred old (new_generation m.next_gen_id registry none) m refl c e a)
      | inl h ↦
          rw (reload_ready, h, (get_active-mem m old e).1)
            (record {
              current = ap some refl;
              uncalled =
                  subst
                    (λ i.
                      has_id i
                        (swap (new_generation m.next_gen_id registry (some thread))
                          ready).resume_calls
                      ≡ false)
                    next d.uncalled;
              waiting = d.waiting ∙ ap (waiting_after old) w.draining;
            })
    ]
