-- ===== src/Generations/Reloads.antt =====
-- The queue of reloads in src/generation-manager.ts: one runs, and one follow-up waits behind it.
use lopata.Common.{
  ℕ, zero, suc, ◌<◌, ◌≡◌, refl, ◌∙◌, sym, subst, Bool, true, false, not, ◌&&◌, ◌||◌, List, [], ◌∷◌,
  ◌==◌, if◌then◌else◌, arith, Bool-cases, inl, inr, ◌⊎◌,
}
use lopata.Generations.Manager.{
  Manager, Settings, new_manager, update, request_reload, end_reload, run_follow_up,
  stop_generation, end_drain, forget, drain_generation, reload_ready,
}
use lopata.Generations.Steps.{
  Event, requests_reload, follows_up, reload_fails, reload_succeeds, ends_drain, forgets, drains,
  stops, works, count_work, step, run,
}
use lopata.Generations.SameQueue.{
  SameQueue, stop_generation-Unmoved, reload_ready-SameQueue, end_drain-SameQueue, forget-SameQueue,
  drain_generation-SameQueue,
}

-- A reload begins with a step where none runs.
abbrev pub starts : Manager → Event → Bool
starts m requests_reload = not m.reloading
starts m follows_up = not m.reloading && not (m.follow_ups == 0)
starts m _ = false

abbrev pub asks : Event → Bool
asks requests_reload = true
asks _ = false

-- Whether a reload was asked for after the last one began.
unfoldable pub unserved : Settings → Manager → Bool → List Event → Bool
unfolding step
unserved settings m asked [] = asked
unserved settings m asked (e ∷ es) =
    unserved settings (step settings m e) (if starts m e then false else asked || asks e) es

or_false : (b : Bool) → (b || false) ≡ b
or_false b = ground arith

or_true : (b : Bool) → (b || true) ≡ true
or_true b = ground arith

-- A request that no reload has begun after is queued.
record Queued (m : Manager) (asked : Bool) : Type 0 where
  behind : m.pending_reload ≡ true → m.reloading ≡ true
  queued : asked ≡ true → (m.pending_reload ≡ true) ⊎ (0 < m.follow_ups)

Queued-same : (m m' : Manager) (asked : Bool) → SameQueue m m' → Queued m asked → Queued m' asked
Queued-same m m' asked s q =
    let r = s.reloading in
    let p = s.pending in
    let d = s.due in
    record { behind = λ h. r ∙ q.behind (sym p ∙ h); queued = λ h. rw (p, d) (q.queued h) }

Queued-after :
    (m m' : Manager) (asked : Bool) → SameQueue m m' → Queued m asked → Queued m' (asked || false)
Queued-after m m' asked s q =
    subst (λ b. Queued m' b) (sym (or_false asked)) (Queued-same m m' asked s q)

request_reload-Queued :
    (m : Manager) (asked : Bool)
    → Queued m asked
    → Queued (request_reload m) (if not m.reloading then false else true)
unfolding request_reload
request_reload-Queued m asked q = elim (Bool-cases m.reloading) [
  | inl e ↦ rw (request_reload, e) (record { behind = λ _. refl; queued = λ _. inl refl })
  | inr e ↦
      rw (request_reload, e) (record { behind = λ _. refl; queued = λ h. absurd (ground arith) })
]

run_follow_up-Queued :
    (m : Manager) (asked : Bool) (n : ℕ)
    → m.follow_ups ≡ n
    → Queued m asked
    → Queued (run_follow_up m) (if not m.reloading && not (n == 0) then false else asked || false)
unfolding run_follow_up request_reload
run_follow_up-Queued m asked zero e q =
    let same : (if not m.reloading && not (0 == 0) then false else asked || false) ≡ asked =
      ground arith in
    rw (run_follow_up, e) (subst (λ b. Queued m b) (sym same) q)
run_follow_up-Queued m asked (suc n) e q = elim (Bool-cases m.reloading) [
  | inl h ↦
      rw (run_follow_up, e, request_reload, h)
        (record { behind = λ _. refl; queued = λ _. inl refl })
  | inr h ↦
      rw (run_follow_up, e, request_reload, h)
        (record { behind = λ _. refl; queued = λ k. absurd (ground arith) })
]

end_reload-Queued : (m : Manager) (asked : Bool) → Queued m asked → Queued (end_reload m) asked
unfolding end_reload
end_reload-Queued m asked q = record {
  behind = λ h. absurd (ground arith);
  queued = λ h. inr (elim (q.queued h) [ inl p ↦ rw p (omega arith) | inr d ↦ ground arith ]);
}

Queued-if :
    (b : Bool) (x y : Manager) (asked : Bool)
    → Queued x asked
    → Queued y asked
    → Queued (if b then x else y) (asked || false)
Queued-if true x y asked p q = subst (λ b. Queued x b) (sym (or_false asked)) p
Queued-if false x y asked p q = subst (λ b. Queued y b) (sym (or_false asked)) q

step-Queued :
    (settings : Settings) (m : Manager) (asked : Bool) (e : Event)
    → Queued m asked
    → Queued (step settings m e) (if starts m e then false else asked || asks e)
unfolding step
step-Queued settings m asked requests_reload q =
    subst (λ b. Queued (request_reload m) (if not m.reloading then false else b))
      (sym (or_true asked)) (request_reload-Queued m asked q)
step-Queued settings m asked follows_up q = run_follow_up-Queued m asked m.follow_ups refl q
step-Queued settings m asked reload_fails q =
    Queued-if m.reloading (end_reload m) m asked (end_reload-Queued m asked q) q
step-Queued settings m asked (reload_succeeds registry thread) q =
    let ready = reload_ready settings registry thread m in
    let r = Queued-same m ready asked (reload_ready-SameQueue settings registry thread m) q in
    Queued-if m.reloading (end_reload ready) m asked (end_reload-Queued ready asked r) q
step-Queued settings m asked (ends_drain id) q =
    Queued-after m (end_drain id m) asked (end_drain-SameQueue id m) q
step-Queued settings m asked (forgets id) q =
    Queued-after m (forget id m) asked (forget-SameQueue id m) q
step-Queued settings m asked (drains id) q =
    Queued-after m (drain_generation id m) asked (drain_generation-SameQueue id m) q
step-Queued settings m asked (stops id) q =
    Queued-after m (stop_generation id m) asked (stop_generation-Unmoved id m).queue q
step-Queued settings m asked (works id requests thread) q =
    Queued-after m (update id (count_work requests thread) m) asked
      (record { reloading = refl; pending = refl; due = refl }) q

run-Queued :
    (settings : Settings) (m : Manager) (asked : Bool) (es : List Event)
    → Queued m asked
    → Queued (run settings m es) (unserved settings m asked es)
unfolding run unserved
run-Queued settings m asked [] q = q
run-Queued settings m asked (e ∷ es) q =
    run-Queued settings (step settings m e) (if starts m e then false else asked || asks e) es
      (step-Queued settings m asked e q)

-- After any sequence of steps of a new manager, when no reload runs and no follow-up is due, a reload has
-- begun since the last one was asked for.
pub requests-served :
    (settings : Settings) (es : List Event)
    → (run settings new_manager es).reloading ≡ false
    → (run settings new_manager es).follow_ups ≡ 0
    → unserved settings new_manager false es ≡ false
unfolding new_manager
requests-served settings es idle none_due =
    let q =
      run-Queued settings new_manager false es
        (record { behind = λ h. h; queued = λ h. absurd (ground arith) }) in
    elim (Bool-cases (unserved settings new_manager false es)) [
      | inr h ↦ h
      | inl h ↦ elim (q.queued h) [
        | inl p ↦ absurd (let r = q.behind p in ground arith)
        | inr d ↦ absurd (ground arith)
      ]
    ]
