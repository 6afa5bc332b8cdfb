-- ===== src/Queue/Consumer/Deliveries.antt =====
-- How often the messages of a queue have been delivered, against their attempts.
use mathlib.Core.List.{Memᴰ}
use lopata.Common.{
  ℕ, suc, ◌+◌, ◌≤◌, ◌≡◌, refl, sym, ◌∙◌, ap, subst, ◌≢◌, Option, none, some, List, [], ◌∷◌, ◌++◌,
  ◌==◌, ◌⊎◌, ==_iff, arith, inl, inr, Bool-cases, Option-cases, if◌then◌else◌, map, find, find-mem,
  any_of_find, any_of_find-none, All, All-at, All-mem, All-keep, All-take, All-order_by,
}
use lopata.Queue.{MessageRow, pending, Differ, DistinctIds, count_attempt}
use lopata.Queue.Consumer.{
  ConsumerConfig, Outcome, Decision, ack, retry, select, exhaust, unreadable, settle, is_among,
  decision_of,
}
use lopata.Queue.Consumer.Passes.{find_others, settled, id-settled}

-- How often an identifier stands in a log of deliveries.
abbrev pub times : ℕ → List ℕ → ℕ
times id [] = 0
times id (i ∷ log) = (if i == id then 1 else 0) + times id log

-- Of a message that has been delivered so often: the attempts count each delivery, and where it is
-- still pending in the queue there have been fewer than the configuration allows; a limit of zero
-- counts as one, since the test comes after the delivery.
abbrev pub SparedAfter : ConsumerConfig → ℕ → MessageRow → Type 0
SparedAfter config n m =
    (n ≤ m.attempts)
    × (m.queue ≡ config.queue → m.status ≡ pending → (n ≡ 0) ⊎ (suc n ≤ config.max_retries))

abbrev pub Spared : ConsumerConfig → List ℕ → MessageRow → Type 0
Spared config log m = SparedAfter config (times m.id log) m

-- What a poll hands to the handler: the messages of its batch, unless one cannot be decoded.
abbrev pub delivered : {J : Type 0} → (List ℕ → Option J) → List MessageRow → List ℕ
delivered parse rows = if unreadable parse rows then [] else map (λ r. r.id) rows

pub none_more : (n : ℕ) → 0 + n ≡ n
none_more n = omega arith

pub times-append :
    (id : ℕ) (log log' : List ℕ) → times id (log ++ log') ≡ times id log + times id log'
times-append id [] log' = sym (none_more (times id log'))
times-append id (i ∷ log) log' = ground (arith, times-append id log log')

pub times_absent :
    (id : ℕ) (rows : List MessageRow)
    → All (λ r. r.id ≢ id) rows
    → times id (map (λ r. r.id) rows) ≡ 0
times_absent id [] h = refl
times_absent id (r ∷ rs) (ne, h) = ground (arith, times_absent id rs h)

pub times_once :
    (id : ℕ) (rows : List MessageRow) → DistinctIds rows → times id (map (λ r. r.id) rows) ≤ 1
times_once id [] h = omega arith
times_once id (r ∷ rs) (first, h) = elim (Bool-cases (r.id == id)) [
  | inl e ↦
      let gone =
        times_absent id rs (subst (λ i. All (λ s. s.id ≢ i) rs) ((==_iff r.id id).0 e) first) in
      rw (e, gone) (omega arith)
  | inr e ↦ let less = times_once id rs h in rw e (omega (arith, less))
]

settle-SparedAfter :
    (config : ConsumerConfig) (d : Option Decision) (now n n' : ℕ) (m : MessageRow)
    → config.dead_letter_queue ≢ some config.queue
    → n' ≤ suc n
    → SparedAfter config n m
    → SparedAfter config n' (settle config d (suc m.attempts) now (count_attempt m))
unfolding settle exhaust
settle-SparedAfter config none now n n' m ne le (h, k) = (ground arith, λ q p. cc)
settle-SparedAfter config (some ack) now n n' m ne le (h, k) = (ground arith, λ q p. cc)
settle-SparedAfter config (some (retry s)) now n n' m ne le (h, k) =
    (ground arith, λ q p. ground arith)

count_attempt-SparedAfter :
    (config : ConsumerConfig) (n : ℕ) (m : MessageRow)
    → SparedAfter config n m
    → SparedAfter config n (count_attempt m)
count_attempt-SparedAfter config n m (h, k) = (omega (arith, h), k)

pub counted-Spared :
    (config : ConsumerConfig) (log : List ℕ) (rows : List MessageRow) (m : MessageRow)
    → Spared config log m
    → Spared config log (if is_among rows m.id then count_attempt m else m)
counted-Spared config log rows m h = elim (Bool-cases (is_among rows m.id)) [
  | inl e ↦ rw e (count_attempt-SparedAfter config (times m.id log) m h)
  | inr e ↦ rw e h
]

-- Two rows of a table with one identifier are one row.
same_row :
    (ms : List MessageRow) (r m : MessageRow)
    → DistinctIds ms
    → Memᴰ r ms
    → Memᴰ m ms
    → r.id ≡ m.id
    → r ≡ m
same_row [] r m h k l same = elim k [ ]
same_row (x ∷ xs) r m (first, h) (Memᴰ.head e) (Memᴰ.head f) same = e ∙ sym f
same_row (x ∷ xs) r m (first, h) (Memᴰ.head e) (Memᴰ.tail k) same =
    absurd (All-at (Differ x) k first (sym same ∙ ap (λ t. t.id) e))
same_row (x ∷ xs) r m (first, h) (Memᴰ.tail k) (Memᴰ.head f) same =
    absurd (All-at (Differ x) k first (same ∙ ap (λ t. t.id) f))
same_row (x ∷ xs) r m (first, h) (Memᴰ.tail k) (Memᴰ.tail l) same = same_row xs r m h k l same

-- A selection holds rows of the table only.
pub select-mem :
    (config : ConsumerConfig) (now : ℕ) (ms : List MessageRow)
    → All (λ r. Memᴰ r ms) (select config now ms)
unfolding select
select-mem config now ms =
    All-take _ config.max_batch_size _
      (All-order_by (λ m. m.visible_at) _ _ (All-keep _ _ ms (All-mem ms)))

module _ (config : ConsumerConfig) (clock : ℕ → ℕ) (o : Outcome)
    (apart : config.dead_letter_queue ≢ some config.queue) where
  -- One message through a whole poll.
  pub polled-Spared :
      (log : List ℕ) (rows ms : List MessageRow) (m : MessageRow)
      → DistinctIds ms
      → DistinctIds rows
      → All (λ r. Memᴰ r ms) rows
      → Memᴰ m ms
      → Spared config log m
      → SparedAfter config
          (times m.id (map (λ r. r.id) rows) + times m.id log)
          (settled config clock o rows (if is_among rows m.id then count_attempt m else m))
  unfolding settled
  polled-Spared log rows ms m distinct apart_rows listed here h =
      elim (Option-cases (find (λ r. r.id == m.id) rows)) [
        | inl e ↦
            rw
              (
                any_of_find-none (λ r. r.id == m.id) rows e,
                e,
                times_absent m.id rows (find_others rows m.id e),
                none_more (times m.id log),
              )
              h
        | inr (r, e) ↦
            let (member, same) = find-mem (λ r. r.id == m.id) rows r e in
            let once = times_once m.id rows apart_rows in
            let one : r ≡ m =
              same_row ms r m distinct (All-at _ member listed) here ((==_iff r.id m.id).0 same) in
            rw (any_of_find (λ r. r.id == m.id) rows r e, e, one)
              (settle-SparedAfter config (decision_of o m.id) (clock m.id) (times m.id log)
                (times m.id (map (λ r. r.id) rows) + times m.id log) m apart (omega (arith, once))
                h)
      ]

  pub id-polled :
      (rows : List MessageRow) (m : MessageRow)
      → (settled config clock o rows (if is_among rows m.id then count_attempt m else m)).id ≡ m.id
  id-polled rows m = id-settled config clock o rows _ ∙ ground arith
