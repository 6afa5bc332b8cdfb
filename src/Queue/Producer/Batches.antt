-- ===== src/Queue/Producer/Batches.antt =====
-- When a batch is accepted, and what it writes.
use mathlib.Core.List.{append_assoc}
use lopata.Common.{
  ok, inv-bind, ℕ, suc, ◌+◌, ◌*◌, ◌≤◌, ◌≡◌, sym, ◌∙◌, ap, subst, ◌↔◌, none, List, [], ◌∷◌, ◌++◌,
  append-nil, arith, inl, inr, Bool-cases, ltb, length, Text,
}
use lopata.Queue.{pending, MessageRow, Db}
use lopata.Queue.Bodies.{Body}
use lopata.Queue.Producer.{
  SendOptions, BatchMessage, Producer, Encoded, new_row, insert_message, insert_rows, prepare_one,
  prepare_all, send_batch,
}
use lopata.Queue.Producer.Preparation.{Fits, prepare_one_complete, prepare_one_sound}

abbrev pub total_size : List Encoded → ℕ
total_size [] = 0
total_size (e ∷ es) = length e.content + total_size es

-- The row of a message that has just been sent.
abbrev pending_row : Text → ℕ → ℕ → Encoded → MessageRow
pending_row queue id now e = record {
  id = id;
  queue = queue;
  body = e.content;
  content_type = e.content_type;
  attempts = 0;
  status = pending;
  visible_at = now + e.delay_seconds * 1000;
  created_at = now;
  completed_at = none;
}

-- The rows of a batch, by their positions in it.
abbrev pub batch_rows : Text → (ℕ → ℕ) → ℕ → List Encoded → List MessageRow
batch_rows queue uuid now [] = []
batch_rows queue uuid now (e ∷ es) =
    pending_row queue (uuid 0) now e ∷ batch_rows queue (λ i. uuid (suc i)) now es

insert_rows-batch_rows :
    (queue : Text) (uuid : ℕ → ℕ) (now : ℕ) (es : List Encoded) (db : Db)
    → insert_rows queue uuid now es db
      ≡ record db { messages = db.messages ++ batch_rows queue uuid now es }
unfolding insert_rows insert_message new_row
insert_rows-batch_rows queue uuid now [] db =
    ap (λ (ms : List MessageRow). record db { messages = ms }) (sym (append-nil db.messages))
insert_rows-batch_rows queue uuid now (e ∷ es) db =
    insert_rows-batch_rows queue (λ i. uuid (suc i)) now es
      (insert_message (pending_row queue (uuid 0) now e) db)
    ∙ ap (λ (ms : List MessageRow). record db { messages = ms })
        (append_assoc db.messages (pending_row queue (uuid 0) now e ∷ []) _)

module _ {J : Type 0} (to_text stringify : Body J → List ℕ) (p : Producer)
    (options : SendOptions) where
  -- Each message of a batch fits.
  abbrev pub Prepared : List (BatchMessage J) → List Encoded → Type 0
  Prepared [] [] = Unit
  Prepared (m ∷ ms) (e ∷ es) = Fits to_text stringify p options m e × Prepared ms es
  Prepared _ _ = ⊥

  prepare_all_sound :
      (ms : List (BatchMessage J)) (total t : ℕ) (es : List Encoded)
      → prepare_all to_text stringify p options ms total ≡ ok (es, t)
      → Prepared ms es × (t ≡ total + total_size es)
  unfolding prepare_all
  prepare_all_sound [] total t [] h = ground arith
  prepare_all_sound [] total t (e ∷ es) h = ground arith
  prepare_all_sound (m ∷ ms) total t es h =
      let (e, one, h1) = inv-bind (prepare_one to_text stringify p options m) _ h in
      let (rest, more, h2) =
        inv-bind (prepare_all to_text stringify p options ms (total + length e.content)) _ h1 in
      let (k, q) = prepare_all_sound ms (total + length e.content) rest.1 rest.0 more in
      let shape : e ∷ rest.0 ≡ es = cc in
      let last : rest.1 ≡ t = cc in
      let size : t ≡ total + total_size (e ∷ rest.0) = omega (arith, q, last) in
      (
        subst (Prepared (m ∷ ms)) shape (prepare_one_sound to_text stringify p options m e one, k),
        size ∙ ap (λ es. total + total_size es) shape,
      )

  prepare_all_complete :
      (ms : List (BatchMessage J)) (total : ℕ) (es : List Encoded)
      → Prepared ms es
      → prepare_all to_text stringify p options ms total ≡ ok (es, total + total_size es)
  unfolding prepare_all
  prepare_all_complete [] total [] h = ground arith
  prepare_all_complete [] total (e ∷ es) h = absurd h
  prepare_all_complete (m ∷ ms) total [] h = absurd h
  prepare_all_complete (m ∷ ms) total (e ∷ es) (k, h) = ground (
    arith,
    prepare_one_complete to_text stringify p options m e k,
    prepare_all_complete ms (total + length e.content) es h,
  )

  -- What a batch that is accepted has and does.
  pub record Accepted (uuid : ℕ → ℕ) (now : ℕ) (ms : List (BatchMessage J)) (db db' : Db)
      : Type 0 where
    pub encoded : List Encoded
    pub few : length ms ≤ p.limits.max_batch_messages
    pub prepared : Prepared ms encoded
    pub small : total_size encoded ≤ p.limits.max_batch_size
    pub written :
        db' ≡ record db { messages = db.messages ++ batch_rows p.queue_name uuid now encoded }

  send_batch_sound :
      (uuid : ℕ → ℕ) (now : ℕ) (ms : List (BatchMessage J)) (db db' : Db)
      → send_batch to_text stringify p ms options uuid now db ≡ ok db'
      → Accepted uuid now ms db db'
  unfolding send_batch
  send_batch_sound uuid now ms db db' h =
      elim (Bool-cases (ltb p.limits.max_batch_messages (length ms))) [
        | inl e ↦ absurd (ground arith)
        | inr e ↦
            let accepted = rw (e, send_batch) at h in
            let (es, prepared, h1) =
              inv-bind (prepare_all to_text stringify p options ms 0) _ accepted in
            let (k, q) = prepare_all_sound ms 0 es.1 es.0 prepared in
            elim (Bool-cases (ltb p.limits.max_batch_size es.1)) [
              | inl f ↦ absurd (ground arith)
              | inr f ↦
                  let wrote : insert_rows p.queue_name uuid now es.0 db ≡ db' = ground arith in
                  record {
                    encoded = es.0;
                    few = ground arith;
                    prepared = k;
                    small = ground arith;
                    written = sym wrote ∙ insert_rows-batch_rows p.queue_name uuid now es.0 db;
                  }
            ]
      ]

  send_batch_complete :
      (uuid : ℕ → ℕ) (now : ℕ) (ms : List (BatchMessage J)) (db db' : Db)
      → Accepted uuid now ms db db'
      → send_batch to_text stringify p ms options uuid now db ≡ ok db'
  unfolding send_batch
  send_batch_complete uuid now ms db db' a = ground (
    arith,
    prepare_all_complete ms 0 a.encoded a.prepared,
    insert_rows-batch_rows p.queue_name uuid now a.encoded db,
    a.few,
    a.small,
    a.written,
  )

-- `sendBatch` succeeds exactly where the batch is short enough, every message has bytes under its
-- content type, a size within the limit and a delay from 0 to the limit, and the sizes add up to no
-- more than the limit of a batch; it has then appended for each message, in order, one pending row
-- with these bytes, no attempt, and visible once the delay has passed, and changed nothing else.
pub send_batch_iff :
    {J : Type 0} (to_text stringify : Body J → List ℕ) (p : Producer) (options : SendOptions)
    (uuid : ℕ → ℕ) (now : ℕ) (ms : List (BatchMessage J)) (db db' : Db)
    → (send_batch to_text stringify p ms options uuid now db ≡ ok db')
      ↔ Accepted to_text stringify p options uuid now ms db db'
send_batch_iff to_text stringify p options uuid now ms db db' = (
  send_batch_sound to_text stringify p options uuid now ms db db',
  send_batch_complete to_text stringify p options uuid now ms db db',
)
