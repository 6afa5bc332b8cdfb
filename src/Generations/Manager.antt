-- ===== src/Generations/Manager.antt =====
-- src/generation-manager.ts. A reload is a step when it begins and one when its worker is ready or has failed; the
-- registry that buildEnv builds comes with the latter. The timers of the manager are lists of what waits
-- for them, and each of their callbacks is a step.
use lopata.Common.{
  ℕ, zero, suc, Bool, true, false, not, ◌&&◌, ◌||◌, Option, none, some, List, [], ◌∷◌, ◌++◌, map,
  ltb, ◌==◌, if◌then◌else◌, any, keep, find, Text, text_eq, is_nil,
}
use lopata.Generations.{
  is_stopped, is_active, ClassRegistry, WorkerThread, Generation, new_generation, start_consumers,
  drain, stop, has_namespace, clear_alarms, is_idle,
}

pub record Manager : Type 0 where
  pub generations : List Generation
  pub next_gen_id : ℕ
  pub active_gen_id : Option ℕ
  pub do_namespaces : List (Text × ℕ)
  pub resumed_gen_ids : List ℕ
  -- Whether a reload is in flight, whether one is queued behind it, and how many queued ones are due.
  pub reloading : Bool
  pub pending_reload : Bool
  pub follow_ups : ℕ
  -- The generations whose grace period runs, and those that are to be forgotten.
  pub draining_ids : List ℕ
  pub removal_ids : List ℕ
  -- The namespaces whose alarms are set.
  pub alarms : List ℕ
  -- The generations whose worker was told to resume workflows, the last one first.
  pub resume_calls : List ℕ

pub record Settings : Type 0 where
  -- False for a worker that has assets only.
  pub has_script : Bool
  pub cron_enabled : Bool
  pub crons : List Text

unfoldable pub new_manager : Manager
new_manager = record {
  generations = [];
  next_gen_id = 1;
  active_gen_id = none;
  do_namespaces = [];
  resumed_gen_ids = [];
  reloading = false;
  pending_reload = false;
  follow_ups = 0;
  draining_ids = [];
  removal_ids = [];
  alarms = [];
  resume_calls = [];
}

abbrev pub has_id : ℕ → List ℕ → Bool
has_id id ids = any (λ i. i == id) ids

abbrev pub is_gen : ℕ → Generation → Bool
is_gen id g = g.id == id

abbrev pub get_generation : ℕ → Manager → Option Generation
get_generation id m = find (is_gen id) m.generations

-- A method of one generation.
abbrev pub at_id : ℕ → (Generation → Generation) → Generation → Generation
at_id id f g = if g.id == id then f g else g

abbrev pub update : ℕ → (Generation → Generation) → Manager → Manager
update id f m = record m { generations = map (at_id id f) m.generations }

unfoldable pub get_active : Manager → Option Generation
get_active m = elim m.active_gen_id [ none ↦ none | some id ↦ get_generation id m ]

-- `reload()`
unfoldable pub request_reload : Manager → Manager
request_reload m =
    if m.reloading then record m { pending_reload = true } else record m { reloading = true }

-- The end of a reload: the queued one becomes due once the flags are reset.
unfoldable pub end_reload : Manager → Manager
end_reload m = record m {
  reloading = false;
  pending_reload = false;
  follow_ups = (if m.pending_reload then suc m.follow_ups else m.follow_ups);
}

unfoldable pub run_follow_up : Manager → Manager
unfolding request_reload
run_follow_up m = elim m.follow_ups [
  | zero ↦ m
  | suc n ↦ request_reload (record m { follow_ups = n })
]

unfoldable pub resume_workflows : Generation → Manager → Manager
resume_workflows g m =
    if is_nil g.registry.workflows || has_id g.id m.resumed_gen_ids then m else record m {
      resumed_gen_ids = g.id ∷ m.resumed_gen_ids;
      resume_calls = g.id ∷ m.resume_calls;
    }

unfoldable pub stop_generation : ℕ → Manager → Manager
unfolding stop clear_alarms
stop_generation id m = elim (get_generation id m) [
  | none ↦ m
  | some g ↦ if is_stopped g.state then m else record (update id stop m) {
    alarms = clear_alarms m.do_namespaces g m.alarms;
    removal_ids = id ∷ m.removal_ids;
  }
]

-- An older generation that may still run workflows.
abbrev pub blocks : ℕ → Generation → Bool
blocks id g = ltb g.id id && not (is_stopped g.state)

unfoldable pub resume_if_last : Manager → Manager
unfolding get_active resume_workflows
resume_if_last m = elim (get_active m) [
  | none ↦ m
  | some g ↦ if any (blocks g.id) m.generations then m else resume_workflows g m
]

-- `finish` of `_scheduleDrainAndStop`
unfoldable pub finish : ℕ → Manager → Manager
unfolding stop_generation resume_if_last
finish id m = resume_if_last (stop_generation id m)

unfoldable pub schedule_drain_and_stop : Generation → Manager → Manager
unfolding finish is_idle
schedule_drain_and_stop g m =
    if is_idle g then finish g.id m else record m { draining_ids = g.id ∷ m.draining_ids }

-- The race of the grace period and an idle generation ends.
unfoldable pub end_drain : ℕ → Manager → Manager
unfolding finish
end_drain id m =
    if has_id id m.draining_ids
    then finish id (record m { draining_ids = keep (λ i. not (i == id)) m.draining_ids })
    else m

-- A stopped generation is forgotten after a while.
unfoldable pub forget : ℕ → Manager → Manager
forget id m =
    if has_id id m.removal_ids
    then record m {
      generations = keep (λ g. not (is_gen id g)) m.generations;
      resumed_gen_ids = keep (λ i. not (i == id)) m.resumed_gen_ids;
      removal_ids = keep (λ i. not (i == id)) m.removal_ids;
    }
    else m

-- The dashboard's `drain` of a generation.
unfoldable pub drain_generation : ℕ → Manager → Manager
unfolding drain clear_alarms
drain_generation id m = elim (get_generation id m) [
  | none ↦ m
  | some g ↦ record (update id drain m) { alarms = clear_alarms m.do_namespaces g m.alarms }
]

-- `Map.set` on the namespaces, whose order is not observed, and the alarms that `_setExternalClass` restores.
abbrev pub set_namespace : Text → ℕ → List (Text × ℕ) → List (Text × ℕ)
set_namespace class_name n namespaces =
    keep (λ e. not (text_eq e.0 class_name)) namespaces ++ ((class_name, n) ∷ [])

unfoldable pub wire_namespaces : List (Text × ℕ) → Manager → Manager
wire_namespaces [] m = m
wire_namespaces ((class_name, n) ∷ entries) m =
    wire_namespaces entries (record m {
      do_namespaces = set_namespace class_name n m.do_namespaces;
      alarms = n ∷ m.alarms;
    })

abbrev pub has_class : List (Text × ℕ) → (Text × ℕ) → Bool
has_class entries e = any (λ d. text_eq d.0 e.0) entries

-- The namespaces of classes that are gone are destroyed.
unfoldable pub prune_namespaces : List (Text × ℕ) → Manager → Manager
prune_namespaces entries m =
    let gone = keep (λ e. not (has_class entries e)) m.do_namespaces in
    record m {
      do_namespaces = keep (has_class entries) m.do_namespaces;
      alarms = keep (λ n. not (has_namespace n gone)) m.alarms;
    }

-- The old generation is drained where it is active.
unfoldable pub hand_over : ℕ → Manager → Manager
unfolding drain clear_alarms schedule_drain_and_stop
hand_over old_id m = elim (get_generation old_id m) [
  | none ↦ m
  | some old ↦
      if is_active old.state
      then schedule_drain_and_stop (drain old)
          (record (update old_id drain m) { alarms = clear_alarms m.do_namespaces old m.alarms })
      else m
]

unfoldable pub hand_over_active : Option ℕ → Manager → Manager
unfolding hand_over
hand_over_active none m = m
hand_over_active (some old_id) m = hand_over old_id m

-- The new generation takes over from the active one, which stays the active one until it is drained.
unfoldable pub swap : (new : Generation) → Manager → Manager
unfolding hand_over_active
swap new m =
    record (hand_over_active m.active_gen_id
      (record m { generations = m.generations ++ (new ∷ []); next_gen_id = suc m.next_gen_id })) {
        active_gen_id = some new.id;
      }

-- The rest of `_doReload` once the worker is ready, and `_doReloadAssetsOnly`, which has no worker.
unfoldable pub reload_ready : Settings → ClassRegistry → WorkerThread → Manager → Manager
unfolding new_generation wire_namespaces prune_namespaces swap start_consumers resume_workflows
reload_ready settings registry thread m =
    let id = m.next_gen_id in
    if not settings.has_script
    then swap (new_generation id registry none) m
    else let wired =
        prune_namespaces registry.durable_objects (wire_namespaces registry.durable_objects m) in
      let new = new_generation id registry (some thread) in
      let started =
        update id (start_consumers settings.cron_enabled settings.crons) (swap new wired) in
      elim m.active_gen_id [ none ↦ resume_workflows new started | some _ ↦ started ]
