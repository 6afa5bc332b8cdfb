-- ===== src/Queue/Consumer/Passes.antt =====
-- The loop of updates that settles a batch, against a single pass over the table.
use mathlib.Core.Path.{fun_ext}
use mathlib.Core.List.{map-map, map-id}
use lopata.Common.{
  ℕ, suc, ◌≡◌, refl, sym, ◌∙◌, ap, subst, ◌≢◌, false, Option, none, some, List, [], ◌∷◌, ◌==◌, inl,
  inr, Bool-cases, if◌then◌else◌, map, find, All, keep-Pairs, take-Pairs, order_by-Pairs, arith,
}
use lopata.Queue.{MessageRow, Db, update_message, Differ, Differ-symm, DistinctIds}
use lopata.Queue.Consumer.{
  ConsumerConfig, Consumer, Outcome, decision_of, settle, settle_all, deliverable, purge, select,
  poll_begin, poll_end, unreadable,
}

pub find_others :
    (rows : List MessageRow) (id : ℕ)
    → find (λ r. r.id == id) rows ≡ none
    → All (λ r. r.id ≢ id) rows
find_others [] id h = tt
find_others (r ∷ rs) id h = elim (Bool-cases (r.id == id)) [
  | inl e ↦ absurd (ground arith)
  | inr e ↦ (ground arith, find_others rs id (rw e at h))
]

module _ (config : ConsumerConfig) (clock : ℕ → ℕ) (o : Outcome) where
  settling : MessageRow → MessageRow → MessageRow
  settling r = settle config (decision_of o r.id) (suc r.attempts) (clock r.id)

  -- What becomes of one message: what its own row in the batch decides, if it has one.
  settle_found : MessageRow → Option MessageRow → MessageRow
  settle_found m none = m
  settle_found m (some r) = settling r m

  unfoldable pub settled : List MessageRow → MessageRow → MessageRow
  unfolding settle_found settling
  settled rows m = settle_found m (find (λ r. r.id == m.id) rows)

  settle_each : List MessageRow → MessageRow → MessageRow
  settle_each [] m = m
  settle_each (r ∷ rs) m = settle_each rs (if m.id == r.id then settling r m else m)

  settle_all-settle_each :
      (rows ms : List MessageRow) → settle_all config clock o rows ms ≡ map (settle_each rows) ms
  unfolding settle_all settle_each settling update_message
  settle_all-settle_each [] ms = sym (map-id ms)
  settle_all-settle_each (r ∷ rs) ms =
      settle_all-settle_each rs (update_message r.id (settling r) ms)
      ∙ map-map (settle_each rs) _ ms

  id-settling : (r m : MessageRow) → (settling r m).id ≡ m.id
  unfolding settling settle
  id-settling r m = ground arith

  pub id-settled : (rows : List MessageRow) (m : MessageRow) → (settled rows m).id ≡ m.id
  unfolding settled settling settle
  id-settled rows m = ground arith

  settle_each_other :
      (rows : List MessageRow) (m : MessageRow)
      → All (λ s. s.id ≢ m.id) rows
      → settle_each rows m ≡ m
  unfolding settle_each
  settle_each_other [] m h = refl
  settle_each_other (r ∷ rs) m (ne, h) = ground (arith, settle_each_other rs m h)

  settle_each_own :
      (r m : MessageRow) (rs : List MessageRow)
      → m.id ≡ r.id
      → All (λ s. s.id ≢ r.id) rs
      → settle_each rs (settling r m) ≡ settling r m
  settle_each_own r m rs e ne =
      settle_each_other rs (settling r m)
        (subst (λ i. All (λ s. s.id ≢ i) rs) (sym (id-settling r m ∙ e)) ne)

  settle_each-settled :
      (rows : List MessageRow) (m : MessageRow)
      → DistinctIds rows
      → settle_each rows m ≡ settled rows m
  unfolding settle_each settled
  settle_each-settled [] m h = refl
  settle_each-settled (r ∷ rs) m (ne, h) =
      ground (arith, λ (e : m.id ≡ r.id). settle_each_own r m rs e ne, settle_each-settled rs m h)

  pub settle_all-settled :
      (rows ms : List MessageRow)
      → DistinctIds rows
      → settle_all config clock o rows ms ≡ map (settled rows) ms
  settle_all-settled rows ms h =
      settle_all-settle_each rows ms
      ∙ ap (λ f. map f ms) (fun_ext (λ m. settle_each-settled rows m h))

-- The rows of a selection are as distinct as those of the table.
pub select-DistinctIds :
    (config : ConsumerConfig) (now : ℕ) (ms : List MessageRow)
    → DistinctIds ms
    → DistinctIds (select config now ms)
unfolding select
select-DistinctIds config now ms h = take-Pairs Differ config.max_batch_size _ (
    order_by-Pairs Differ Differ-symm (λ m. m.visible_at) _
      (keep-Pairs Differ (deliverable config.queue now) ms h))

pub poll_begin-DistinctIds :
    (config : ConsumerConfig) (now : ℕ) (c : Consumer) (db : Db)
    → DistinctIds db.messages
    → DistinctIds (poll_begin config now c db).2
unfolding poll_begin purge
poll_begin-DistinctIds config now c db h = ground (
  arith,
  select-DistinctIds config now (purge config now db.messages) (keep-Pairs Differ _ db.messages h),
)

pub poll_end_lem :
    {J : Type 0} (parse : List ℕ → Option J) (config : ConsumerConfig) (clock : ℕ → ℕ) (o : Outcome)
    (rows : List MessageRow) (c : Consumer) (db : Db)
    → DistinctIds rows
    → unreadable parse rows ≡ false
    → (poll_end parse config clock o rows c db).1.messages
      ≡ map (settled config clock o rows) db.messages
unfolding poll_end
poll_end_lem parse config clock o [] c db h readable =
    settle_all-settled config clock o [] db.messages tt
poll_end_lem parse config clock o (r ∷ rs) c db h readable =
    rw readable (settle_all-settled config clock o (r ∷ rs) db.messages h)
