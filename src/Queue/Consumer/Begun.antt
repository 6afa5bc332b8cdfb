-- ===== src/Queue/Consumer/Begun.antt =====
-- The tables that a poll of src/bindings/queue.ts starts from, with what it selects.
use mathlib.Core.List.{Memᴰ, map-id}
use lopata.Common.{
  is_nil, ℕ, suc, ◌+◌, ◌≤◌, ◌≡◌, refl, sym, subst, true, List, [], ◌==◌, ◌⊎◌, ==_iff, arith, inl,
  inr, Bool-cases, Option-cases, map, find, find-mem, All, All-at, All-map, All-keep_test, All-keep,
  All-take, All-order_by, keep-Pairs, text_eq_iff,
}
use lopata.Queue.{MessageRow, pending, Db, Differ, DistinctIds}
use lopata.Queue.Consumer.{
  ConsumerConfig, Consumer, poll_begin, select, purge, count_attempts, at_capacity, deliverable,
}
use lopata.Queue.Consumer.Passes.{find_others}
use lopata.Queue.Consumer.Deliveries.{
  Spared, times, times_absent, times_once, none_more, select-mem,
}

-- What the history of one queue, with its log of deliveries, can leave.
pub record Good (config : ConsumerConfig) (log : List ℕ) (db : Db) : Type 0 where
  pub distinct : DistinctIds db.messages
  pub spared : All (Spared config log) db.messages
  pub bounded : (id : ℕ) → (times id log ≤ 1) ⊎ (times id log ≤ config.max_retries)

-- What a poll starts from: the table, cleaned up or not, with its selection counted.
pub record Begun (config : ConsumerConfig) (log : List ℕ) (ms rows : List MessageRow) : Type 0 where
  pub left : List MessageRow
  pub distinct : DistinctIds left
  pub spared : All (Spared config log) left
  pub counts : ms ≡ count_attempts rows left
  pub listed : All (λ r. Memᴰ r left) rows
  pub due : All (λ r. (r.queue ≡ config.queue) × (r.status ≡ pending)) rows

not-Begun :
    {config : ConsumerConfig} {log : List ℕ} (ms : List MessageRow)
    → DistinctIds ms
    → All (Spared config log) ms
    → Begun config log ms []
unfolding count_attempts
not-Begun ms d h = record {
  left = ms;
  distinct = d;
  spared = h;
  counts = sym (map-id ms);
  listed = tt;
  due = tt;
}

select-due :
    (config : ConsumerConfig) (now : ℕ) (ms : List MessageRow)
    → All (λ r. (r.queue ≡ config.queue) × (r.status ≡ pending)) (select config now ms)
unfolding select
select-due config now ms =
    let Due = λ (r : MessageRow). (r.queue ≡ config.queue) × (r.status ≡ pending) in
    All-take Due config.max_batch_size _ (
      All-order_by (λ m. m.visible_at) Due _
        (All-map {P = λ m. deliverable config.queue now m ≡ true}
          (λ m h. ground (arith, text_eq_iff m.queue config.queue)) _
          (All-keep_test (deliverable config.queue now) ms)))

pub poll_begin-Begun :
    (config : ConsumerConfig) (log : List ℕ) (now : ℕ) (c : Consumer) (db : Db)
    → Good config log db
    → Begun config log (poll_begin config now c db).1.messages (poll_begin config now c db).2
unfolding poll_begin purge
poll_begin-Begun config log now c db v = elim (Bool-cases c.polling) [
  | inl e ↦ rw (e, poll_begin) (not-Begun db.messages v.distinct v.spared)
  | inr e ↦ elim (Bool-cases (at_capacity config c)) [
    | inl f ↦ rw (e, poll_begin, f) (not-Begun db.messages v.distinct v.spared)
    | inr f ↦
        let left = purge config now db.messages in
        let d : DistinctIds left = keep-Pairs Differ _ db.messages v.distinct in
        let h : All (Spared config log) left =
          All-keep (Spared config log) _ db.messages v.spared in
        elim (Bool-cases (is_nil (select config now left))) [
          | inl g ↦ rw (e, poll_begin, f, g) (not-Begun left d h)
          | inr g ↦
              rw (e, poll_begin, f, g)
                (record {
                  left = left;
                  distinct = d;
                  spared = h;
                  counts = refl;
                  listed = select-mem config now left;
                  due = select-due config now left;
                })
        ]
  ]
]

-- A delivery of selected messages keeps within the limit.
pub delivered-bounded :
    (config : ConsumerConfig) (log : List ℕ) (ms rows : List MessageRow)
    → DistinctIds rows
    → All (Spared config log) ms
    → All (λ r. Memᴰ r ms) rows
    → All (λ r. (r.queue ≡ config.queue) × (r.status ≡ pending)) rows
    → (id : ℕ) → (times id log ≤ 1) ⊎ (times id log ≤ config.max_retries)
    → let n = times id (map (λ r. r.id) rows) + times id log in (n ≤ 1) ⊎ (n ≤ config.max_retries)
delivered-bounded config log ms rows d spared listed due id h =
    elim (Option-cases (find (λ r. r.id == id) rows)) [
      | inl e ↦ rw (times_absent id rows (find_others rows id e), none_more (times id log)) h
      | inr (r, e) ↦
          let (member, test) = find-mem (λ r. r.id == id) rows r e in
          let same : r.id ≡ id = (==_iff r.id id).0 test in
          let (queue, status) = All-at _ member due in
          let (low, few) = All-at (Spared config log) (All-at _ member listed) spared in
          let left =
            subst (λ i. (times i log ≡ 0) ⊎ (suc (times i log) ≤ config.max_retries)) same
              (few queue status) in
          let once = times_once id rows d in
          elim left [
            | inl first ↦ inl (omega (arith, first, once))
            | inr more_left ↦ inr (omega (arith, more_left, once))
          ]
    ]
