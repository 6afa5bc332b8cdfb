-- ===== src/Generations/HandOvers.antt =====
-- What a reload of src/generation-manager.ts keeps of the core of its state, up to the new active generation.
use lopata.Common.{
  mem-map, ℕ, suc, ◌<◌, ◌≡◌, refl, ◌∙◌, sym, ap, subst, Bool, true, false, Option, none, some, List,
  [], ◌∷◌, ◌++◌, map, mem-snoc, arith, Bool-cases, inl, inr, Text,
}
use mathlib.Core.List.{Memᴰ}
use lopata.Generations.{is_stopped, is_active, WorkerThread, Generation, start_consumers}
use lopata.Generations.Manager.{
  Manager, has_id, set_namespace, wire_namespaces, prune_namespaces, hand_over_active, swap,
}
use lopata.Generations.Core.{Core, Tame, Core-add, Core-activate}
use lopata.Generations.Steps.{count_work}
use lopata.Generations.Kept.{CoreOf, Inactive, OlderStopped, Kept, Kept-refl, hand_over-HandedOver}

hand_over_active-HandedOver :
    (new : Option ℕ) (current : Option ℕ) (m : Manager)
    → Kept new m (hand_over_active current m)
      × ((id : ℕ) → current ≡ some id → CoreOf new m → Inactive id (hand_over_active current m))
unfolding hand_over_active
hand_over_active-HandedOver new none m = (Kept-refl new m, λ id e. absurd (ground arith))
hand_over_active-HandedOver new (some old) m =
    let (k, h) = hand_over-HandedOver new old m in
    (k, λ id e c g mem q. let same : old ≡ id = ground arith in h c g mem (q ∙ sym same))

pub swap-CoreOf :
    (new : Generation) (m : Manager)
    → new.id ≡ m.next_gen_id
    → CoreOf none m
    → CoreOf none (swap new m)
unfolding swap
swap-CoreOf new m e c =
    let m1 : Manager = record m {
      generations = m.generations ++ (new ∷ []);
      next_gen_id = suc m.next_gen_id;
    } in
    let added = Core-add m.generations m.next_gen_id m.active_gen_id m.resume_calls new c e in
    let (k, gone) = hand_over_active-HandedOver (some m.next_gen_id) m.active_gen_id m1 in
    let m2 = hand_over_active m.active_gen_id m1 in
    let c2 = k.core added in
    let next = k.next in
    let only : (g : Generation)
        → Memᴰ g m2.generations
        → is_active g.state ≡ true
        → g.id ≡ m.next_gen_id =
      λ g mem a. elim (c2.only_active g mem a) [
        | inl at_current ↦
            absurd
              (let off = gone g.id (sym k.current ∙ at_current) added g mem refl in ground arith)
        | inr introduced ↦ (let same : m.next_gen_id ≡ g.id = ground arith in sym same)
      ] in
    subst (λ i. Core m2.generations m2.next_gen_id (some i) none m2.resume_calls) (sym e)
      (subst (λ i. Core m2.generations i (some m.next_gen_id) none m2.resume_calls) (sym next)
        (Core-activate m2.generations m.next_gen_id m2.active_gen_id m2.resume_calls
          (subst (λ i. Core m2.generations i m2.active_gen_id (some m.next_gen_id) m2.resume_calls)
            next c2)
          only))

pub swap-uncalled :
    (new : Generation) (m : Manager)
    → new.id ≡ m.next_gen_id
    → CoreOf none m
    → has_id new.id (swap new m).resume_calls ≡ false
unfolding swap
swap-uncalled new m e c =
    let m1 : Manager = record m {
      generations = m.generations ++ (new ∷ []);
      next_gen_id = suc m.next_gen_id;
    } in
    let added = Core-add m.generations m.next_gen_id m.active_gen_id m.resume_calls new c e in
    let (k, _) = hand_over_active-HandedOver (some m.next_gen_id) m.active_gen_id m1 in
    let c2 = k.core added in
    elim (Bool-cases (has_id new.id (swap new m).resume_calls)) [
      | inr h ↦ h
      | inl h ↦ absurd (let (_, other) = c2.called new.id h in other (ap some (sym e)))
    ]

pub wire_namespaces-Kept :
    (new : Option ℕ) (entries : List (Text × ℕ)) (m : Manager)
    → Kept new m (wire_namespaces entries m)
unfolding wire_namespaces
wire_namespaces-Kept new [] m = Kept-refl new m
wire_namespaces-Kept new ((class_name, n) ∷ entries) m =
    let next : Manager = record m {
      do_namespaces = set_namespace class_name n m.do_namespaces;
      alarms = n ∷ m.alarms;
    } in
    let k = wire_namespaces-Kept new entries next in
    record { core = k.core; current = k.current; next = k.next; inactive = k.inactive }

pub prune_namespaces-Kept :
    (new : Option ℕ) (entries : List (Text × ℕ)) (m : Manager)
    → Kept new m (prune_namespaces entries m)
unfolding prune_namespaces
prune_namespaces-Kept new entries m = record {
  core = λ c. c;
  current = refl;
  next = refl;
  inactive = λ id k. k;
}

pub Tame-start_consumers :
    (cron_enabled : Bool) (crons : List Text) → Tame (start_consumers cron_enabled crons)
unfolding start_consumers
Tame-start_consumers cron_enabled crons = record {
  same_id = λ g. ground arith;
  stays_stopped = λ g h. ground arith;
  was_active = λ g h. ground arith;
}

pub Tame-count_work : (requests : ℕ) (thread : WorkerThread) → Tame (count_work requests thread)
Tame-count_work requests thread = record {
  same_id = λ g. refl;
  stays_stopped = λ g h. h;
  was_active = λ g h. h;
}

-- On the first load there is no older generation.
pub swap-first :
    (new : Generation) (m : Manager)
    → new.id ≡ m.next_gen_id
    → m.active_gen_id ≡ none
    → CoreOf none m
    → (new.id < (swap new m).next_gen_id) × OlderStopped new.id (swap new m)
unfolding swap hand_over_active
swap-first new m q e c =
    rw (swap, e)
      (
        ground arith,
        λ g mem l. elim (mem-snoc m.generations new g mem) [
          | inl n ↦ absurd (let bad = c.none_yet g n e in ground arith)
          | inr same ↦ absurd (let ids = ap (λ x. x.id) same in ground arith)
        ],
      )

pub OlderStopped-map :
    (id : ℕ) (m : Manager) (f : Generation → Generation)
    → Tame f
    → OlderStopped id m
    → OlderStopped id (record m { generations = map f m.generations })
OlderStopped-map id m f t older g mem l =
    let (h, n, eq) = mem-map f m.generations g mem in
    let ids = ap (λ x. x.id) eq ∙ t.same_id h in
    subst (λ x. is_stopped x.state ≡ true) (sym eq)
      (t.stays_stopped h (older h n (subst (λ i. i < id) ids l)))
