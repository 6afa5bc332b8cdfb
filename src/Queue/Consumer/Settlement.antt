-- ===== src/Queue/Consumer/Settlement.antt =====
-- What the end of a poll makes of each row, told from what the handler did.
use mathlib.Core.List.{Memᴰ}
use lopata.Common.{
  ℕ, suc, ◌+◌, ◌*◌, ◌≤◌, ◌<◌, ◌≡◌, sym, subst, ◌≢◌, false, Option, none, some, List, [], ◌∷◌, ◌==◌,
  ==_iff, ◌⊎◌, inl, inr, leb, or_else, Bool-cases, Option-cases, map, find, find-mem, All, arith,
  Text,
}
use lopata.Queue.{MessageRow, pending, acked, failed, mark_failed, dead_letter, Db, DistinctIds}
use lopata.Queue.Consumer.{
  ConsumerConfig, Consumer, Outcome, Decision, ack, retry, exhaust, settle, poll_begin, poll_end,
  unreadable,
}
use lopata.Queue.Consumer.Decisions.{Decides, decision_of-Decides}
use lopata.Queue.Consumer.Passes.{find_others, poll_begin-DistinctIds, poll_end_lem, settled}

-- What a decision makes of the row `m` that the message `r` of the batch stands for.
pub data Settles (config : ConsumerConfig) (time : ℕ) (r m : MessageRow)
    : Decision → MessageRow → Type 0 where
  acks : Settles config time r m ack (record m { status = acked; completed_at = some time })
  retries :
      (seconds : Option ℕ)
      → suc r.attempts < config.max_retries
      → Settles config time r m
          (retry seconds)
          (record m { visible_at = time + or_else seconds (or_else config.retry_delay 0) * 1000 })
  dead_letters :
      (seconds : Option ℕ) (queue : Text)
      → config.max_retries ≤ suc r.attempts
      → config.dead_letter_queue ≡ some queue
      → queue ≢ []
      → Settles config time r m
          (retry seconds)
          (record m { queue = queue; visible_at = time; status = pending })
  fails :
      (seconds : Option ℕ)
      → config.max_retries ≤ suc r.attempts
      → (config.dead_letter_queue ≡ none) ⊎ (config.dead_letter_queue ≡ some [])
      → Settles config time r m
          (retry seconds)
          (record m { status = failed; completed_at = some time })

-- What becomes of a row: that of another message stays, that of a message of the batch is settled as
-- the handler decided.
pub data Ends (config : ConsumerConfig) (clock : ℕ → ℕ) (o : Outcome) (rows : List MessageRow)
    (m : MessageRow) : MessageRow → Type 0 where
  stays : All (λ r. r.id ≢ m.id) rows → Ends config clock o rows m m
  settles :
      {r m' : MessageRow} {d : Decision}
      → Memᴰ r rows
      → r.id ≡ m.id
      → Decides o m.id d
      → Settles config (clock m.id) r m d m'
      → Ends config clock o rows m m'

module _ (config : ConsumerConfig) (time : ℕ) (r m : MessageRow) where
  exhaust_to-Settles :
      (seconds : Option ℕ) (q : Text)
      → config.max_retries ≤ suc r.attempts
      → config.dead_letter_queue ≡ some q
      → Settles config time r m (retry seconds) (exhaust config time m)
  unfolding exhaust
  exhaust_to-Settles seconds [] used e =
      let made : exhaust config time m ≡ mark_failed time m = simp (exhaust, e) in
      subst (Settles config time r m (retry seconds)) (sym made) (fails seconds used (inr e))
  exhaust_to-Settles seconds (a ∷ q) used e =
      let made : exhaust config time m ≡ dead_letter (a ∷ q) time m = simp (exhaust, e) in
      subst (Settles config time r m (retry seconds)) (sym made)
        (dead_letters seconds (a ∷ q) used e (λ h. ground arith))

  exhaust-Settles :
      (seconds : Option ℕ)
      → config.max_retries ≤ suc r.attempts
      → Settles config time r m (retry seconds) (exhaust config time m)
  unfolding exhaust
  exhaust-Settles seconds used = elim (Option-cases config.dead_letter_queue) [
    | inl e ↦
        let made : exhaust config time m ≡ mark_failed time m = simp (exhaust, e) in
        subst (Settles config time r m (retry seconds)) (sym made) (fails seconds used (inl e))
    | inr (q, e) ↦ exhaust_to-Settles seconds q used e
  ]

  settle-Settles :
      (d : Decision) → Settles config time r m d (settle config (some d) (suc r.attempts) time m)
  unfolding settle
  settle-Settles ack = acks
  settle-Settles (retry seconds) = elim (Bool-cases (leb config.max_retries (suc r.attempts))) [
    | inl used ↦ rw used (exhaust-Settles seconds (ground arith))
    | inr left ↦ rw left (retries seconds (ground arith))
  ]

  default-Settles : Settles config time r m ack (settle config none (suc r.attempts) time m)
  unfolding settle
  default-Settles = acks

settled-Ends :
    (config : ConsumerConfig) (clock : ℕ → ℕ) (o : Outcome) (rows : List MessageRow)
    (m : MessageRow)
    → Ends config clock o rows m (settled config clock o rows m)
unfolding settled
settled-Ends config clock o rows m = elim (Option-cases (find (λ r. r.id == m.id) rows)) [
  | inl e ↦ rw e (stays (find_others rows m.id e))
  | inr (r, e) ↦
      let (member, test) = find-mem (λ r. r.id == m.id) rows r e in
      let same : r.id ≡ m.id = (==_iff r.id m.id).0 test in
      elim (decision_of-Decides o m.id) [
        | inl (d, f, decides) ↦
            rw (e, same, f) (settles member same decides (settle-Settles config (clock m.id) r m d))
        | inr (f, decides) ↦
            rw (e, same, f) (settles member same decides (default-Settles config (clock m.id) r m))
      ]
]

-- Whatever happened to the tables while the handler ran, the end of a poll of a batch that can be
-- decoded changes no row but those of the messages of its batch. A throw of the handler asks for a
-- retry of each of them; else the last call on the message decides, then the last one on the batch,
-- and without any the message is acked. An ack completes the row; a retry hides it for the delay
-- that was asked for, else for that of the configuration, or, where the attempts are used up, moves
-- it to the dead letter queue, or fails it where there is none.
pub poll_end_settles :
    {J : Type 0} (parse : List ℕ → Option J) (config : ConsumerConfig) (now : ℕ) (clock : ℕ → ℕ)
    (o : Outcome) (before after : Consumer) (db db' : Db)
    → DistinctIds db.messages
    → unreadable parse (poll_begin config now before db).2 ≡ false
    → let rows = (poll_begin config now before db).2 in
      (f : MessageRow → MessageRow) × ((poll_end parse config clock o rows after db').1.messages
        ≡ map f db'.messages)
      × ((m : MessageRow) → Ends config clock o rows m (f m))
poll_end_settles parse config now clock o before after db db' h readable =
    let rows = (poll_begin config now before db).2 in
    (
      settled config clock o rows,
      poll_end_lem parse config clock o rows after db'
          (poll_begin-DistinctIds config now before db h) readable,
      settled-Ends config clock o rows,
    )
