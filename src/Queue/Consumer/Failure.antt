-- ===== src/Queue/Consumer/Failure.antt =====
-- A poll whose batch holds a body that cannot be decoded.
use mathlib.Core.Path.{fun_ext}
use mathlib.Core.List.{map-map, map-id}
use lopata.Common.{
  is_nil, ℕ, suc, ◌+◌, ◌-◌, ◌≡◌, refl, sym, ◌∙◌, ap, true, false, List, [], ◌∷◌, Option, arith,
  Bool-cases, inl, inr, map, length,
}
use lopata.Queue.{MessageRow, Db, count_attempt}
use lopata.Queue.Consumer.{
  ConsumerConfig, Consumer, Outcome, poll_begin, poll_end, unreadable, purge, select, is_among,
  at_capacity, count_attempts,
}
use lopata.Queue.Consumer.Deliveries.{delivered}
use lopata.Queue.Consumer.Retries.{poll_round}
use lopata.Queue.Consumer.Recounts.{
  all_among, attempts_more, counted, map-counted, purge-counted, select-counted, unreadable-count,
}

poll_end-unreadable :
    {J : Type 0} (parse : List ℕ → Option J) (config : ConsumerConfig) (clock : ℕ → ℕ) (o : Outcome)
    (rows : List MessageRow) (c : Consumer) (db : Db)
    → unreadable parse rows ≡ true
    → poll_end parse config clock o rows c db
      ≡ (record c { polling = false; active_deliveries = c.active_deliveries - 1 }, db)
unfolding poll_end
poll_end-unreadable parse config clock o [] c db h = absurd (unfold unreadable in ground arith)
poll_end-unreadable parse config clock o (r ∷ rs) c db h = rw h

-- What the start of a poll comes to where it hands out rows.
poll_begin_runs :
    (config : ConsumerConfig) (now : ℕ) (c : Consumer) (db : Db)
    → is_nil (poll_begin config now c db).2 ≡ false
    → let left = purge config now db.messages in
      let rows = select config now left in
      poll_begin config now c db ≡ (
        record c { polling = true; active_deliveries = suc c.active_deliveries },
        record db { messages = count_attempts rows left },
        rows,
      )
unfolding poll_begin
poll_begin_runs config now c db h = elim (Bool-cases c.polling) [
  | inl e ↦ absurd (ground arith)
  | inr e ↦ elim (Bool-cases (at_capacity config c)) [
    | inl f ↦ absurd (ground arith)
    | inr f ↦ elim (Bool-cases (is_nil (select config now (purge config now db.messages)))) [
      | inl g ↦ absurd (ground arith)
      | inr g ↦ rw (poll_begin, e, f, g)
    ]
  ]
]

not_nil_of_unreadable :
    {J : Type 0} (parse : List ℕ → Option J) (rows : List MessageRow)
    → unreadable parse rows ≡ true
    → is_nil rows ≡ false
unfolding unreadable
not_nil_of_unreadable parse [] h = cc
not_nil_of_unreadable parse (r ∷ rs) h = refl

-- What a poll of a consumer that is free to poll selects, whatever the tables.
poll_begin_selects :
    (config : ConsumerConfig) (now : ℕ) (c : Consumer) (db db' : Db)
    → is_nil (poll_begin config now c db).2 ≡ false
    → (c.polling ≡ false)
      × ((poll_begin config now c db').2 ≡ select config now (purge config now db'.messages))
unfolding poll_begin
poll_begin_selects config now c db db' h = elim (Bool-cases c.polling) [
  | inl e ↦ absurd (ground arith)
  | inr e ↦ elim (Bool-cases (at_capacity config c)) [
    | inl f ↦ absurd (ground arith)
    | inr f ↦ (e, ground arith)
  ]
]

module _ {J : Type 0} (parse : List ℕ → Option J) (config : ConsumerConfig) (now : ℕ)
    (clock : ℕ → ℕ) (c : Consumer) where
  -- A poll that ends with the error has counted an attempt for each row of its batch.
  poll_round-counted :
      (o : Outcome) (db : Db)
      → unreadable parse (poll_begin config now c db).2 ≡ true
      → (poll_round parse config now clock o c db).messages
        ≡ map (counted (is_among (poll_begin config now c db).2)) (purge config now db.messages)
  unfolding poll_round count_attempts counted
  poll_round-counted o db h =
      let runs = poll_begin_runs config now c db (not_nil_of_unreadable parse _ h) in
      let ends =
        poll_end-unreadable parse config clock o (poll_begin config now c db).2
          (poll_begin config now c db).0 (poll_begin config now c db).1 h in
      ap (λ (x : Consumer × Db). x.1.messages) ends
      ∙ ap (λ (x : Consumer × Db × List MessageRow). x.1.messages) runs
      ∙ ap (λ rows. map (counted (is_among rows)) (purge config now db.messages))
          (sym (ap (λ (x : Consumer × Db × List MessageRow). x.2) runs))

  -- The same batch comes back, with an attempt more.
  poll_again :
      (o : Outcome) (db : Db)
      → unreadable parse (poll_begin config now c db).2 ≡ true
      → (poll_begin config now c (poll_round parse config now clock o c db)).2
        ≡ map count_attempt (poll_begin config now c db).2
  poll_again o db h =
      let rows = (poll_begin config now c db).2 in
      let full = not_nil_of_unreadable parse rows h in
      let left = purge config now db.messages in
      let (_, first) = poll_begin_selects config now c db db full in
      let (_, again) =
        poll_begin_selects config now c db (poll_round parse config now clock o c db) full in
      again
      ∙ ap (λ ms. select config now (purge config now ms)) (poll_round-counted o db h)
      ∙ ap (select config now) (purge-counted config now (is_among rows) db.messages)
      ∙ select-counted config now (is_among rows) left
      ∙ ap (map (counted (is_among rows))) (sym first)
      ∙ map-counted (is_among rows) rows (all_among rows)

  -- Polls with these outcomes, one after the other.
  abbrev pub polls_with : List Outcome → Db → Db
  polls_with [] db = db
  polls_with (o ∷ os) db = polls_with os (poll_round parse config now clock o c db)

  batch_after :
      (os : List Outcome) (db : Db)
      → unreadable parse (poll_begin config now c db).2 ≡ true
      → ((poll_begin config now c (polls_with os db)).2
          ≡ map (attempts_more (length os)) (poll_begin config now c db).2)
        × (unreadable parse (poll_begin config now c (polls_with os db)).2 ≡ true)
  batch_after [] db h = (
    sym (
        ap (λ f. map f (poll_begin config now c db).2) (fun_ext (λ m. none_more m))
        ∙ map-id (poll_begin config now c db).2),
    h,
  )
    where
      none_more : (m : MessageRow) → attempts_more 0 m ≡ m
      none_more m =
          let same : m.attempts + 0 ≡ m.attempts = omega arith in
          ap (λ n. record m { attempts = n }) same
  batch_after (o ∷ os) db h =
      let again = poll_again o db h in
      let bad = ap (unreadable parse) again ∙ unreadable-count parse _ ∙ h in
      let (e, k) = batch_after os (poll_round parse config now clock o c db) bad in
      (
        e
            ∙ ap (map (attempts_more (length os))) again
            ∙ map-map _ _ (poll_begin config now c db).2
            ∙ ap (λ f. map f (poll_begin config now c db).2) (fun_ext (λ m. one_more m)),
        k,
      )
    where
      one_more :
          (m : MessageRow)
          → attempts_more (length os) (count_attempt m) ≡ attempts_more (suc (length os)) m
      one_more m =
          let same : m.attempts + 1 + length os ≡ m.attempts + suc (length os) = omega arith in
          ap (λ n. record m { attempts = n }) same

  -- The consumer is as it was.
  consumer_after :
      (o : Outcome) (db : Db)
      → unreadable parse (poll_begin config now c db).2 ≡ true
      → (poll_end parse config clock o
          (poll_begin config now c db).2
          (poll_begin config now c db).0
          (poll_begin config now c db).1).0
        ≡ c
  consumer_after o db h =
      let full = not_nil_of_unreadable parse _ h in
      let runs = poll_begin_runs config now c db full in
      let (free, _) = poll_begin_selects config now c db db full in
      let ends =
        poll_end-unreadable parse config clock o (poll_begin config now c db).2
          (poll_begin config now c db).0 (poll_begin config now c db).1 h in
      let same : suc c.active_deliveries - 1 ≡ c.active_deliveries = omega arith in
      ap (λ (x : Consumer × Db). x.0) ends
      ∙ ap
          (λ (x : Consumer × Db × List MessageRow). record x.0 {
            polling = false;
            active_deliveries = x.0.active_deliveries - 1;
          })
          runs
      ∙ ap (λ n. record c { polling = false; active_deliveries = n }) same
      ∙ ap (λ b. record c { polling = b }) (sym free)

-- Where the batch of a poll holds a body that cannot be decoded, the poll delivers nothing and leaves
-- the consumer as it was; and after any number of such polls, at the same time and with nothing else
-- that touches the tables, the batch holds the same rows with one attempt more for each poll and in
-- nothing else changed, and is delivered as little as before: no limit on the attempts ends this.
pub poll_unreadable :
    {J : Type 0} (parse : List ℕ → Option J) (config : ConsumerConfig) (now : ℕ) (clock : ℕ → ℕ)
    (c : Consumer) (db : Db) (os : List Outcome) (o : Outcome)
    → unreadable parse (poll_begin config now c db).2 ≡ true
    → let (c', db', rows) = poll_begin config now c (polls_with parse config now clock c os db) in
      (rows ≡ map (attempts_more (length os)) (poll_begin config now c db).2)
      × (delivered parse rows ≡ [])
      × ((poll_end parse config clock o rows c' db').0 ≡ c)
poll_unreadable parse config now clock c db os o h =
    let (e, k) = batch_after parse config now clock c os db h in
    (
      e,
      rw k refl,
      consumer_after parse config now clock c o (polls_with parse config now clock c os db) k,
    )
