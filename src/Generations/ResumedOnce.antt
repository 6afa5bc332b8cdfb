-- ===== src/Generations/ResumedOnce.antt =====
-- src/generation-manager.ts tells no worker twice to resume its workflows.
use lopata.Common.{
  ℕ, zero, suc, ◌≡◌, ◌≢◌, refl, ◌∙◌, Bool, true, false, not, none, List, [], ◌∷◌, ◌==◌,
  if◌then◌else◌, keep, mem-keep, holds_of_keep, arith, Bool-cases, Option-cases, inl, inr,
}
use lopata.Generations.{drain}
use lopata.Generations.Manager.{
  Manager, Settings, new_manager, has_id, is_gen, get_generation, request_reload, end_reload,
  run_follow_up, end_drain, forget, drain_generation, reload_ready,
}
use lopata.Generations.Core.{Tame-drain}
use lopata.Generations.Steps.{
  Event, requests_reload, follows_up, reload_fails, reload_succeeds, ends_drain, forgets, drains,
  stops, works, count_work, step, run,
}
use lopata.Generations.Kept.{CoreOf}
use lopata.Generations.HandOvers.{Tame-count_work}
use lopata.Generations.Invariant.{step-CoreOf, new_manager-CoreOf}
use lopata.Generations.Once.{
  Distinct, Once, update-Once, stop_generation-Once, finish-Once, reload_ready-Once,
}

has_id-keep :
    (i id : ℕ) (ids : List ℕ) → i ≢ id → has_id i (keep (λ j. not (j == id)) ids) ≡ has_id i ids
has_id-keep i id [] off = refl
has_id-keep i id (j ∷ ids) off =
    let rest = has_id-keep i id ids off in
    elim (Bool-cases (j == id)) [
      | inr e ↦ rw (e, rest) refl
      | inl e ↦ let not_it : (j == i) ≡ false = ground arith in rw (e, not_it, rest) refl
    ]

forget-Once : (id : ℕ) (m : Manager) → Once m → Once (forget id m)
unfolding forget
forget-Once id m o = elim (Bool-cases (has_id id m.removal_ids)) [
  | inr e ↦ rw (forget, e) o
  | inl e ↦
      rw (forget, e)
        (record {
          noted = λ g mem h.
              let held = holds_of_keep (λ x. not (is_gen id x)) m.generations g mem in
              has_id-keep g.id id m.resumed_gen_ids (ground arith)
              ∙ o.noted g (mem-keep (λ x. not (is_gen id x)) m.generations g mem) h;
          distinct = o.distinct;
        })
]

request_reload-Once : (m : Manager) → Once m → Once (request_reload m)
unfolding request_reload
request_reload-Once m o = elim (Bool-cases m.reloading) [
  | inl e ↦ rw (request_reload, e) (record { noted = o.noted; distinct = o.distinct })
  | inr e ↦ rw (request_reload, e) (record { noted = o.noted; distinct = o.distinct })
]

run_follow_up-Once : (m : Manager) (n : ℕ) → m.follow_ups ≡ n → Once m → Once (run_follow_up m)
unfolding run_follow_up
run_follow_up-Once m zero e o =
    rw (run_follow_up, e) (record { noted = o.noted; distinct = o.distinct })
run_follow_up-Once m (suc n) e o =
    rw (run_follow_up, e)
      (request_reload-Once (record m { follow_ups = n })
        (record { noted = o.noted; distinct = o.distinct }))

end_reload-Once : (m : Manager) → Once m → Once (end_reload m)
unfolding end_reload
end_reload-Once m o = record { noted = o.noted; distinct = o.distinct }

end_drain-Once : (id : ℕ) (m : Manager) → Once m → Once (end_drain id m)
unfolding end_drain
end_drain-Once id m o = elim (Bool-cases (has_id id m.draining_ids)) [
  | inr e ↦ rw (end_drain, e) o
  | inl e ↦
      rw (end_drain, e)
        (finish-Once id (record m { draining_ids = keep (λ i. not (i == id)) m.draining_ids })
          (record { noted = o.noted; distinct = o.distinct }))
]

drain_generation-Once : (id : ℕ) (m : Manager) → Once m → Once (drain_generation id m)
unfolding drain_generation
drain_generation-Once id m o = elim (Option-cases (get_generation id m)) [
  | inl e ↦ rw (drain_generation, e) o
  | inr (g, e) ↦
      rw (drain_generation, e)
        (let k = update-Once id drain m Tame-drain o in
          record { noted = k.noted; distinct = k.distinct })
]

Once-if : (b : Bool) (x y : Manager) → Once x → Once y → Once (if b then x else y)
Once-if true x y o p = o
Once-if false x y o p = p

step-Once :
    (settings : Settings) (m : Manager) (e : Event)
    → CoreOf none m
    → Once m
    → Once (step settings m e)
unfolding step
step-Once settings m requests_reload c o = request_reload-Once m o
step-Once settings m follows_up c o = run_follow_up-Once m m.follow_ups refl o
step-Once settings m reload_fails c o = Once-if m.reloading (end_reload m) m (end_reload-Once m o) o
step-Once settings m (reload_succeeds registry thread) c o =
    let ready = reload_ready settings registry thread m in
    Once-if m.reloading (end_reload ready) m
      (end_reload-Once ready (reload_ready-Once settings registry thread m c o)) o
step-Once settings m (ends_drain id) c o = end_drain-Once id m o
step-Once settings m (forgets id) c o = forget-Once id m o
step-Once settings m (drains id) c o = drain_generation-Once id m o
step-Once settings m (stops id) c o = stop_generation-Once id m o
step-Once settings m (works id requests thread) c o =
    update-Once id (count_work requests thread) m (Tame-count_work requests thread) o

run-Once :
    (settings : Settings) (m : Manager) (es : List Event)
    → CoreOf none m
    → Once m
    → Once (run settings m es)
unfolding run
run-Once settings m [] c o = o
run-Once settings m (e ∷ es) c o =
    run-Once settings (step settings m e) es (step-CoreOf settings m e c)
      (step-Once settings m e c o)

-- After any sequence of steps of a new manager, no generation's worker was told twice to resume its
-- workflows.
pub resumed_once :
    (settings : Settings) (es : List Event) → Distinct (run settings new_manager es).resume_calls
unfolding new_manager
resumed_once settings es =
    (run-Once settings new_manager es new_manager-CoreOf
      (record { noted = λ g mem. elim mem [ ]; distinct = tt })).distinct
