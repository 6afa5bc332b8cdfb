-- ===== src/Generations/Resumption.antt =====
-- When src/generation-manager.ts tells a worker to resume its workflows.
use lopata.Common.{
  mem-map, ℕ, ◌≤◌, ◌<◌, ◌≡◌, ◌≢◌, refl, ◌∙◌, sym, ap, subst, true, false, not, none, some, List, [],
  ◌∷◌, map, ltb, ◌==◌, any, keep, find, find-mem, none-mem, any_of_find-none, arith, Bool-cases,
  Option-cases, inl, inr, is_nil,
}
use mathlib.Core.List.{Memᴰ}
use lopata.Generations.{is_stopped, is_active, Generation, stop}
use lopata.Generations.Manager.{
  Manager, Settings, new_manager, has_id, is_gen, at_id, get_generation, get_active,
  resume_workflows, stop_generation, blocks, resume_if_last, finish, end_drain,
}
use lopata.Generations.Core.{Tame-stop}
use lopata.Generations.Steps.{Event, run}
use lopata.Generations.Kept.{CoreOf, OlderStopped, get_active-mem}
use lopata.Generations.Invariant.{run-CoreOf, new_manager-CoreOf}

-- After any sequence of steps of a new manager, two active generations are the same one, it is the one that
-- `active` returns the number of, and no generation is newer.
pub single_active :
    (settings : Settings) (es : List Event) (g h : Generation)
    → Memᴰ g (run settings new_manager es).generations
    → Memᴰ h (run settings new_manager es).generations
    → is_active g.state ≡ true
    → ((run settings new_manager es).active_gen_id ≡ some g.id)
      × (h.id ≤ g.id)
      × (is_active h.state ≡ true → h ≡ g)
single_active settings es g h m n a =
    let c = run-CoreOf settings new_manager es new_manager-CoreOf in
    let at : (x : Generation)
        → Memᴰ x (run settings new_manager es).generations
        → is_active x.state ≡ true
        → (run settings new_manager es).active_gen_id ≡ some x.id =
      λ x k b. elim (c.only_active x k b) [ inl e ↦ e | inr bad ↦ absurd (ground arith) ] in
    let e = at g m a in
    (
      e,
      elim (c.last h g.id n e) [ inl le ↦ le | inr bad ↦ absurd (ground arith) ],
      λ b. c.unique h g n m (let q : some h.id ≡ some g.id = sym (at h n b) ∙ e in ground arith),
    )

-- After any sequence of steps of a new manager, every generation older than one that was told to resume
-- its workflows has stopped.
pub resumed_alone :
    (settings : Settings) (es : List Event) (id : ℕ) (g : Generation)
    → has_id id (run settings new_manager es).resume_calls ≡ true
    → Memᴰ g (run settings new_manager es).generations
    → g.id < id
    → is_stopped g.state ≡ true
resumed_alone settings es id g h m l =
    let c = run-CoreOf settings new_manager es new_manager-CoreOf in c.older_stopped id g h m l

find-map :
    (k id : ℕ) (f : Generation → Generation) (gens : List Generation)
    → ((g : Generation) → (f g).id ≡ g.id)
    → k ≢ id
    → find (is_gen k) (map (at_id id f) gens) ≡ find (is_gen k) gens
find-map k id f [] same other = refl
find-map k id f (g ∷ gens) same other =
    let rest = find-map k id f gens same other in
    elim (Bool-cases (g.id == id)) [
      | inr e ↦ rw (e, rest) refl
      | inl e ↦ let off : (g.id == k) ≡ false = ground arith in rw (e, same g, off, rest) refl
    ]

any_of_older :
    (id : ℕ) (gens : List Generation)
    → ((g : Generation) → Memᴰ g gens → g.id < id → is_stopped g.state ≡ true)
    → any (blocks id) gens ≡ false
any_of_older id [] older = refl
any_of_older id (g ∷ gens) older =
    let rest = any_of_older id gens (λ h m l. older h (Memᴰ.tail m) l) in
    let here = older g (Memᴰ.head refl) in
    elim (Bool-cases (ltb g.id id)) [
      | inr e ↦ rw (e, rest) refl
      | inl e ↦ let off = here (ground arith) in rw (e, off, rest) refl
    ]

resume_if_last-resumes :
    (m : Manager) (g : Generation)
    → get_active m ≡ some g
    → is_nil g.registry.workflows ≡ false
    → has_id g.id m.resumed_gen_ids ≡ false
    → OlderStopped g.id m
    → (resume_if_last m).resume_calls ≡ g.id ∷ m.resume_calls
unfolding resume_if_last resume_workflows
resume_if_last-resumes m g e some_workflow not_yet older =
    let free = any_of_older g.id m.generations older in
    rw (resume_if_last, e, free, resume_workflows, some_workflow, not_yet) refl

is_stopped-stop : (g : Generation) → is_stopped (stop g).state ≡ true
unfolding stop
is_stopped-stop g = ground arith

-- What stopping another generation does to the manager, as far as resuming is concerned.
record StoppedOther (id active_id : ℕ) (m m' : Manager) : Type 0 where
  active : get_active m' ≡ get_active m
  resumed : m'.resumed_gen_ids ≡ m.resumed_gen_ids
  calls : m'.resume_calls ≡ m.resume_calls
  older :
      ((g : Generation)
        → Memᴰ g m.generations
        → g.id < active_id
        → g.id ≢ id
        → is_stopped g.state ≡ true)
      → OlderStopped active_id m'

stop_generation-StoppedOther :
    (id a : ℕ) (m : Manager)
    → CoreOf none m
    → m.active_gen_id ≡ some a
    → a ≢ id
    → StoppedOther id a m (stop_generation id m)
unfolding stop_generation get_active
stop_generation-StoppedOther id a m c e other = elim (Option-cases (get_generation id m)) [
  | inl q ↦
      rw (stop_generation, q)
        (record {
          active = refl;
          resumed = refl;
          calls = refl;
          older = λ rest g mem l. rest g mem l (λ i. absurd (
              let missing =
                none-mem (is_gen id) m.generations g (any_of_find-none (is_gen id) m.generations q)
                  mem in
              ground arith));
        })
  | inr (g0, q) ↦ elim (Bool-cases (is_stopped g0.state)) [
    | inl h ↦
        rw (stop_generation, q, h)
          (record {
            active = refl;
            resumed = refl;
            calls = refl;
            older = λ rest g mem l. elim (Bool-cases (g.id == id)) [
              | inr off ↦ rest g mem l (ground arith)
              | inl on ↦
                  let (found, is) = find-mem (is_gen id) m.generations g0 q in
                  let same = c.unique g g0 mem found (ground arith) in
                  subst (λ x. is_stopped x.state ≡ true) (sym same) h
            ];
          })
    | inr h ↦
        rw (stop_generation, q, h)
          (record {
            active = rw (get_active, e) (find-map a id stop m.generations Tame-stop.same_id other);
            resumed = refl;
            calls = refl;
            older = λ rest g mem l.
                let (g1, n, eq) = mem-map (at_id id stop) m.generations g mem in
                elim (Bool-cases (g1.id == id)) [
                  | inl on ↦
                      subst (λ x. is_stopped x.state ≡ true) (sym (rw on at eq))
                        (is_stopped-stop g1)
                  | inr off ↦
                      let same : g ≡ g1 = rw off at eq in
                      let ids = ap (λ x. x.id) same in
                      subst (λ x. is_stopped x.state ≡ true) (sym same)
                        (rest g1 n (omega (arith, ids, l)) (ground arith))
                ];
          })
  ]
]

get_active-draining :
    (m : Manager) (ids : List ℕ) → get_active (record m { draining_ids = ids }) ≡ get_active m
unfolding get_active
get_active-draining m ids = refl

-- When the drain of a generation ends, the active generation is told to resume its workflows, provided it
-- has some, was not told before, and every other older generation has stopped.
pub end_drain-resumes :
    (m : Manager) (g : Generation) (id : ℕ)
    → CoreOf none m
    → get_active m ≡ some g
    → is_nil g.registry.workflows ≡ false
    → has_id g.id m.resumed_gen_ids ≡ false
    → has_id id m.draining_ids ≡ true
    → g.id ≢ id
    → ((h : Generation)
        → Memᴰ h m.generations
        → h.id < g.id
        → h.id ≢ id
        → is_stopped h.state ≡ true)
    → (end_drain id m).resume_calls ≡ g.id ∷ m.resume_calls
unfolding end_drain finish
end_drain-resumes m g id c e some_workflow not_yet waits other rest =
    let m0 : Manager = record m { draining_ids = keep (λ i. not (i == id)) m.draining_ids } in
    let c0 : CoreOf none m0 = c in
    let s = stop_generation-StoppedOther id g.id m0 c0 (get_active-mem m g e).1 other in
    let calls = s.calls in
    rw (end_drain, waits)
      (resume_if_last-resumes (stop_generation id m0) g
          (s.active ∙ get_active-draining m m0.draining_ids ∙ e) some_workflow
          (ap (has_id g.id) s.resumed ∙ not_yet) (s.older rest)
        ∙ ap (λ l. g.id ∷ l) calls)
