-- ===== src/Queue/Consumer/Retries.antt =====
-- How often a message is handed out.
use mathlib.Core.List.{Memᴰ, map-map}
use lopata.Common.{
  ℕ, ◌≤◌, ◌≡◌, refl, sym, ◌∙◌, ap, subst, ◌≢◌, false, true, Option, some, List, [], ◌∷◌, ◌++◌, ◌⊎◌,
  arith, inl, inr, Bool-cases, if◌then◌else◌, map, All, All-map, All-mem, All-both, All-append,
  All-map_list, snoc-Pairs,
}
use lopata.Queue.{Lease, MessageRow, Db, Differ, DistinctIds, map-DistinctIds, count_attempt}
use lopata.Queue.Consumer.{
  ConsumerConfig, Consumer, Outcome, poll_begin, poll_end, unreadable, is_among, count_attempts,
}
use lopata.Queue.Consumer.Passes.{settled, poll_end_lem, poll_begin-DistinctIds}
use lopata.Queue.Consumer.Begun.{Good, delivered-bounded, poll_begin-Begun}
use lopata.Queue.Consumer.Deliveries.{
  Spared, SparedAfter, counted-Spared, delivered, id-polled, polled-Spared, times, times-append,
}

unfoldable pub poll_round :
    {J : Type 0} → (List ℕ → Option J) → ConsumerConfig → ℕ → (ℕ → ℕ) → Outcome → Consumer → Db → Db
poll_round parse config now clock o c db =
    let (c', db', rows) = poll_begin config now c db in
    (poll_end parse config clock o rows c' db').1

-- The table after a poll whose batch cannot be decoded.
poll_end-unreadable_rows :
    {J : Type 0} (parse : List ℕ → Option J) (config : ConsumerConfig) (clock : ℕ → ℕ) (o : Outcome)
    (rows : List MessageRow) (c : Consumer) (db : Db)
    → unreadable parse rows ≡ true
    → (poll_end parse config clock o rows c db).1.messages ≡ db.messages
unfolding poll_end
poll_end-unreadable_rows parse config clock o [] c db h = refl
poll_end-unreadable_rows parse config clock o (r ∷ rs) c db h = rw h refl

unreadable_round-Good :
    {J : Type 0} (parse : List ℕ → Option J) (config : ConsumerConfig) (log : List ℕ) (now : ℕ)
    (clock : ℕ → ℕ) (o : Outcome) (c : Consumer) (db : Db)
    → unreadable parse (poll_begin config now c db).2 ≡ true
    → Good config log db
    → Good config
        (delivered parse (poll_begin config now c db).2 ++ log)
        (poll_round parse config now clock o c db)
unfolding poll_round count_attempts
unreadable_round-Good parse config log now clock o c db bad v =
    let rows = (poll_begin config now c db).2 in
    let b = poll_begin-Begun config log now c db v in
    let counted = λ (m : MessageRow). if is_among rows m.id then count_attempt m else m in
    let whole =
      poll_end-unreadable_rows parse config clock o rows (poll_begin config now c db).0
        (poll_begin config now c db).1 bad
      ∙ b.counts in
    rw bad (record {
      distinct =
          subst DistinctIds (sym whole)
            (map-DistinctIds counted (λ m. ground arith) b.left b.distinct);
      spared = subst (All (Spared config log)) (sym whole) (
          All-map_list (Spared config log) counted b.left (
            All-map {P = Spared config log} (λ m h. counted-Spared config log rows m h) b.left
              b.spared));
      bounded = v.bounded;
    })

readable_round-Good :
    {J : Type 0} (parse : List ℕ → Option J) (config : ConsumerConfig) (log : List ℕ) (now : ℕ)
    (clock : ℕ → ℕ) (o : Outcome) (c : Consumer) (db : Db)
    → config.dead_letter_queue ≢ some config.queue
    → unreadable parse (poll_begin config now c db).2 ≡ false
    → Good config log db
    → Good config
        (delivered parse (poll_begin config now c db).2 ++ log)
        (poll_round parse config now clock o c db)
unfolding poll_round count_attempts
readable_round-Good parse config log now clock o c db ne readable v =
    let rows = (poll_begin config now c db).2 in
    let b = poll_begin-Begun config log now c db v in
    let ids = map (λ (r : MessageRow). r.id) rows in
    let d = poll_begin-DistinctIds config now c db v.distinct in
    let counted = λ (m : MessageRow). if is_among rows m.id then count_attempt m else m in
    let end =
      poll_end_lem parse config clock o rows (poll_begin config now c db).0
        (poll_begin config now c db).1 d readable in
    let through = λ (m : MessageRow). settled config clock o rows (counted m) in
    let whole = end ∙ ap (map (settled config clock o rows)) b.counts ∙ map-map _ _ b.left in
    rw readable (record {
      distinct =
          subst DistinctIds (sym whole)
            (map-DistinctIds through (id-polled config clock o ne rows) b.left b.distinct);
      spared = subst (All (Spared config (ids ++ log))) (sym whole) (
          All-map_list (Spared config (ids ++ log)) through b.left (
            All-map {P = λ m. Memᴰ m b.left × Spared config log m}
              (λ m (here, h).
                subst (λ n. SparedAfter config n (through m))
                  (sym (times-append m.id ids log)
                    ∙ ap (λ i. times i (ids ++ log)) (sym (id-polled config clock o ne rows m)))
                  (polled-Spared config clock o ne log rows b.left m b.distinct d b.listed here h))
              b.left (All-both _ (Spared config log) b.left (All-mem b.left) b.spared)));
      bounded = λ id.
          subst (λ n. (n ≤ 1) ⊎ (n ≤ config.max_retries)) (sym (times-append id ids log))
            (delivered-bounded config log b.left rows d b.spared b.listed b.due id (v.bounded id));
    })

-- A whole poll keeps the tables and the log good.
poll_round-Good :
    {J : Type 0} (parse : List ℕ → Option J) (config : ConsumerConfig) (log : List ℕ) (now : ℕ)
    (clock : ℕ → ℕ) (o : Outcome) (c : Consumer) (db : Db)
    → config.dead_letter_queue ≢ some config.queue
    → Good config log db
    → Good config
        (delivered parse (poll_begin config now c db).2 ++ log)
        (poll_round parse config now clock o c db)
poll_round-Good parse config log now clock o c db ne v =
    elim (Bool-cases (unreadable parse (poll_begin config now c db).2)) [
      | inl bad ↦ unreadable_round-Good parse config log now clock o c db bad v
      | inr readable ↦ readable_round-Good parse config log now clock o c db ne readable v
    ]

-- The tables that sends and whole polls of a queue lead to, from none, with the log of what the
-- handler has been given. A send inserts a row of no attempts under an identifier that is new.
module _ {J : Type 0} (parse : List ℕ → Option J) (config : ConsumerConfig) where
  pub data Reached : List ℕ → Db → Type 0 where
    start : (leases : List Lease) → Reached [] (record { messages = []; leases = leases })
    sends :
        {log : List ℕ} {db : Db} (row : MessageRow)
        → Reached log db
        → row.attempts ≡ 0
        → All (λ m. Differ m row) db.messages
        → times row.id log ≡ 0
        → Reached log (record db { messages = db.messages ++ (row ∷ []) })
    polls :
        {log : List ℕ} {db : Db} (now : ℕ) (clock : ℕ → ℕ) (o : Outcome) (c : Consumer)
        → Reached log db
        → Reached
            (delivered parse (poll_begin config now c db).2 ++ log)
            (poll_round parse config now clock o c db)

  Reached-Good :
      {log : List ℕ} {db : Db}
      → config.dead_letter_queue ≢ some config.queue
      → Reached log db
      → Good config log db
  Reached-Good ne (start leases) = record {
    distinct = tt;
    spared = tt;
    bounded = λ id. inl (omega arith);
  }
  Reached-Good ne (sends {log} {db} row r zero_attempts fresh unused) =
      let v = Reached-Good ne r in
      record {
        distinct = snoc-Pairs Differ db.messages row fresh v.distinct;
        spared =
            All-append (Spared config log) db.messages (row ∷ []) v.spared
              ((omega (arith, unused), λ q p. inl unused), tt);
        bounded = v.bounded;
      }
  Reached-Good ne (polls {log} {db} now clock o c r) =
      poll_round-Good parse config log now clock o c db ne (Reached-Good ne r)

-- In a history of sends and whole polls of a queue, whatever the handlers do, with nothing else that
-- touches the tables, where the identifiers that are sent are new and the dead letter queue is
-- another queue, no message is handed to the handler more than `maxRetries` times in all, or more
-- than once where the limit is zero.
pub deliveries_bounded :
    {J : Type 0} (parse : List ℕ → Option J) (config : ConsumerConfig) (log : List ℕ) (db : Db)
    → config.dead_letter_queue ≢ some config.queue
    → Reached parse config log db
    → (id : ℕ) → (times id log ≤ 1) ⊎ (times id log ≤ config.max_retries)
deliveries_bounded parse config log db ne r = (Reached-Good parse config ne r).bounded
