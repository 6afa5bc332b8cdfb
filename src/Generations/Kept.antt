-- ===== src/Generations/Kept.antt =====
-- What each method of src/generation-manager.ts keeps of the core of the manager's state.
use lopata.Common.{
  mem-map, ℕ, ◌<◌, ◌≡◌, ◌≢◌, refl, ◌∙◌, sym, ap, subst, Bool, true, false, ◌||◌, Option, none, some,
  List, map, ◌==◌, ==_iff, any, find, find-mem, none-mem, any_of_find-none, arith, Bool-cases,
  Option-cases, inl, inr, is_nil,
}
use mathlib.Core.List.{Memᴰ}
use lopata.Generations.{is_stopped, is_active, Generation, drain, stop, is_idle, clear_alarms}
use lopata.Generations.Manager.{
  Manager, has_id, is_gen, at_id, get_generation, update, get_active, resume_workflows,
  stop_generation, blocks, resume_if_last, finish, schedule_drain_and_stop, hand_over,
}
use lopata.Generations.Core.{Core, Tame, Tame-at_id, Tame-drain, Tame-stop, Core-map, Core-call}

abbrev pub CoreOf : Option ℕ → Manager → Type 0
CoreOf new m = Core m.generations m.next_gen_id m.active_gen_id new m.resume_calls

-- No generation of the number is active.
abbrev pub Inactive : ℕ → Manager → Type 0
Inactive id m = (g : Generation) → Memᴰ g m.generations → g.id ≡ id → is_active g.state ≡ false

Inactive-map :
    (id : ℕ) (m : Manager) (f : Generation → Generation)
    → Tame f
    → Inactive id m
    → Inactive id (record m { generations = map f m.generations })
Inactive-map id m f t h g mem e =
    let (g0, n, eq) = mem-map f m.generations g mem in
    let ids : g0.id ≡ id = sym (ap (λ x. x.id) eq ∙ t.same_id g0) ∙ e in
    elim (Bool-cases (is_active g.state)) [
      | inr never ↦ never
      | inl now ↦ absurd (
          let was = t.was_active g0 (subst (λ x. is_active x.state ≡ true) eq now) in
          let not_so = h g0 n ids in ground arith)
    ]

-- What one generation does to the manager's state and what it leaves alone.
pub record Kept (new : Option ℕ) (m m' : Manager) : Type 0 where
  pub core : CoreOf new m → CoreOf new m'
  pub current : m'.active_gen_id ≡ m.active_gen_id
  pub next : m'.next_gen_id ≡ m.next_gen_id
  pub inactive : (id : ℕ) → Inactive id m → Inactive id m'

pub Kept-refl : (new : Option ℕ) (m : Manager) → Kept new m m
Kept-refl new m = record { core = λ c. c; current = refl; next = refl; inactive = λ id h. h }

pub Kept-trans : (new : Option ℕ) (a b c : Manager) → Kept new a b → Kept new b c → Kept new a c
Kept-trans new a b c k l = record {
  core = λ x. l.core (k.core x);
  current = l.current ∙ k.current;
  next = l.next ∙ k.next;
  inactive = λ id h. l.inactive id (k.inactive id h);
}

pub map-Kept :
    (new : Option ℕ) (m : Manager) (id : ℕ) (f : Generation → Generation)
    → Tame f
    → Kept new m (update id f m)
map-Kept new m id f t = record {
  core = λ c. Core-map c (at_id id f) (Tame-at_id id f t);
  current = refl;
  next = refl;
  inactive = λ i h. Inactive-map i m (at_id id f) (Tame-at_id id f t) h;
}

pub stop_generation-Kept :
    (new : Option ℕ) (m : Manager) (id : ℕ) → Kept new m (stop_generation id m)
unfolding stop_generation
stop_generation-Kept new m id = elim (Option-cases (get_generation id m)) [
  | inl e ↦ rw (stop_generation, e) (Kept-refl new m)
  | inr (g, e) ↦ elim (Bool-cases (is_stopped g.state)) [
    | inl h ↦ rw (stop_generation, e, h) (Kept-refl new m)
    | inr h ↦
        rw (stop_generation, e, h)
          (let k = map-Kept new m id stop Tame-stop in
            record { core = k.core; current = refl; next = refl; inactive = k.inactive })
  ]
]

-- Every generation before a number has stopped.
abbrev pub OlderStopped : ℕ → Manager → Type 0
OlderStopped id m = (g : Generation) → Memᴰ g m.generations → g.id < id → is_stopped g.state ≡ true

pub OlderStopped-any :
    (m : Manager) (id : ℕ) → any (blocks id) m.generations ≡ false → OlderStopped id m
OlderStopped-any m id h g mem l =
    let free = none-mem (blocks id) m.generations g h mem in ground arith

pub resume_workflows-Kept :
    (new : Option ℕ) (m : Manager) (g : Generation)
    → (CoreOf new m → (g.id < m.next_gen_id) × (new ≢ some g.id) × OlderStopped g.id m)
    → Kept new m (resume_workflows g m)
unfolding resume_workflows
resume_workflows-Kept new m g ok =
    elim (Bool-cases (is_nil g.registry.workflows || has_id g.id m.resumed_gen_ids)) [
      | inl h ↦ rw (resume_workflows, h) (Kept-refl new m)
      | inr h ↦
          rw (resume_workflows, h)
            (record {
              core = λ c. let (small, other, older) = ok c in Core-call c g.id small other older;
              current = refl;
              next = refl;
              inactive = λ id k. k;
            })
    ]

pub get_active-mem :
    (m : Manager) (g : Generation)
    → get_active m ≡ some g
    → Memᴰ g m.generations × (m.active_gen_id ≡ some g.id)
unfolding get_active
get_active-mem m g e = elim (Option-cases m.active_gen_id) [
  | inl h ↦ absurd (let bad : none ≡ some g = rw (get_active, h) at e in ground arith)
  | inr (id, h) ↦
      let (mem, q) = find-mem (is_gen id) m.generations g (rw (get_active, h) at e) in
      (mem, h ∙ ap some (sym ((==_iff g.id id).0 q)))
]

pub resume_if_last-Kept : (new : Option ℕ) (m : Manager) → Kept new m (resume_if_last m)
unfolding resume_if_last
resume_if_last-Kept new m = elim (Option-cases (get_active m)) [
  | inl e ↦ rw (resume_if_last, e) (Kept-refl new m)
  | inr (g, e) ↦ elim (Bool-cases (any (blocks g.id) m.generations)) [
    | inl h ↦ rw (resume_if_last, e, h) (Kept-refl new m)
    | inr h ↦
        rw (resume_if_last, e, h)
          (resume_workflows-Kept new m g (λ c.
            let (small, other) = c.at_current g.id (get_active-mem m g e).1 in
            (small, other, OlderStopped-any m g.id h)))
  ]
]

pub finish-Kept : (new : Option ℕ) (id : ℕ) (m : Manager) → Kept new m (finish id m)
unfolding finish
finish-Kept new id m =
    Kept-trans new m (stop_generation id m) (finish id m) (stop_generation-Kept new m id)
      (resume_if_last-Kept new (stop_generation id m))

schedule_drain_and_stop-Kept :
    (new : Option ℕ) (g : Generation) (m : Manager) → Kept new m (schedule_drain_and_stop g m)
unfolding schedule_drain_and_stop
schedule_drain_and_stop-Kept new g m = elim (Bool-cases (is_idle g)) [
  | inl h ↦ rw (schedule_drain_and_stop, h) (finish-Kept new g.id m)
  | inr h ↦
      rw (schedule_drain_and_stop, h)
        (record { core = λ c. c; current = refl; next = refl; inactive = λ id k. k })
]

is_active-drain : (g : Generation) → is_active (drain g).state ≡ false
unfolding drain
is_active-drain g = ground arith

Inactive-drain : (id : ℕ) (m : Manager) → Inactive id (update id drain m)
Inactive-drain id m g mem e =
    let (h, n, eq) = mem-map (at_id id drain) m.generations g mem in
    elim (Bool-cases (h.id == id)) [
      | inl q ↦ subst (λ x. is_active x.state ≡ false) (sym (rw q at eq)) (is_active-drain h)
      | inr q ↦
          absurd (let same : g ≡ h = rw q at eq in let ids = ap (λ x. x.id) same in ground arith)
    ]

-- The hand-over keeps the core, and leaves no active generation of the old number.
abbrev pub HandedOver : Option ℕ → ℕ → Manager → Manager → Type 0
HandedOver new id m m' = Kept new m m' × (CoreOf new m → Inactive id m')

drained-HandedOver :
    (new : Option ℕ) (id : ℕ) (m : Manager) (old : Generation) (alarms : List ℕ)
    → HandedOver new id m
        (schedule_drain_and_stop (drain old) (record (update id drain m) { alarms = alarms }))
drained-HandedOver new id m old alarms =
    let start : Manager = record (update id drain m) { alarms = alarms } in
    let k = schedule_drain_and_stop-Kept new (drain old) start in
    let d = map-Kept new m id drain Tame-drain in
    (
      Kept-trans new m start (schedule_drain_and_stop (drain old) start)
          (record { core = d.core; current = refl; next = refl; inactive = d.inactive }) k,
      λ c. k.inactive id (Inactive-drain id m),
    )

find-none :
    (p : Generation → Bool) (gens : List Generation) (g : Generation)
    → find p gens ≡ none
    → Memᴰ g gens
    → p g ≡ false
find-none p gens g h m = none-mem p gens g (any_of_find-none p gens h) m

pub hand_over-HandedOver :
    (new : Option ℕ) (id : ℕ) (m : Manager) → HandedOver new id m (hand_over id m)
unfolding hand_over
hand_over-HandedOver new id m = elim (Option-cases (get_generation id m)) [
  | inl e ↦
      rw (hand_over, e)
        (
          Kept-refl new m,
          λ c g mem q.
              absurd (let missing = find-none (is_gen id) m.generations g e mem in ground arith),
        )
  | inr (old, e) ↦ elim (Bool-cases (is_active old.state)) [
    | inl h ↦
        rw (hand_over, e, h)
          (drained-HandedOver new id m old (clear_alarms m.do_namespaces old m.alarms))
    | inr h ↦
        rw (hand_over, e, h)
          (
            Kept-refl new m,
            λ c g mem q.
                let (found, is) = find-mem (is_gen id) m.generations old e in
                let same = c.unique g old mem found (q ∙ sym ((==_iff old.id id).0 is)) in
                subst (λ x. is_active x.state ≡ false) (sym same) h,
          )
  ]
]
