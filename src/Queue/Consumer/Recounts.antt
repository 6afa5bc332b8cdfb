-- ===== src/Queue/Consumer/Recounts.antt =====
-- Queries over rows whose attempts have been counted.
use lopata.Common.{
  ℕ, zero, suc, ◌+◌, ◌*◌, ◌≡◌, not, ◌&&◌, ltb, or_else, text_eq, refl, ◌∙◌, ap, Bool, true, List,
  [], ◌∷◌, Option, arith, map, keep, take, insert_by, order_by, ==_iff, All, All-map, if◌then◌else◌,
}
use lopata.Queue.{MessageRow, count_attempt}
use lopata.Queue.Consumer.{ConsumerConfig, unreadable, purge, select, is_among, deliverable}

-- Lists of rows changed in a way that a query does not read.
module _ (f : MessageRow → MessageRow) where
  keep-map :
      (p : MessageRow → Bool)
      → ((m : MessageRow) → p (f m) ≡ p m)
      → (ms : List MessageRow) → keep p (map f ms) ≡ map f (keep p ms)
  keep-map p same [] = refl
  keep-map p same (m ∷ ms) = ground (arith, same m, keep-map p same ms)

  insert_by-map :
      (by : MessageRow → ℕ)
      → ((m : MessageRow) → by (f m) ≡ by m)
      → (x : MessageRow) (ms : List MessageRow)
      → insert_by by (f x) (map f ms) ≡ map f (insert_by by x ms)
  unfolding insert_by
  insert_by-map by same x [] = refl
  insert_by-map by same x (m ∷ ms) = ground (arith, same x, same m, insert_by-map by same x ms)

  order_by-map :
      (by : MessageRow → ℕ)
      → ((m : MessageRow) → by (f m) ≡ by m)
      → (ms : List MessageRow) → order_by by (map f ms) ≡ map f (order_by by ms)
  unfolding order_by
  order_by-map by same [] = refl
  order_by-map by same (m ∷ ms) =
      ap (insert_by by (f m)) (order_by-map by same ms) ∙ insert_by-map by same m (order_by by ms)

  take-map : (n : ℕ) (ms : List MessageRow) → take n (map f ms) ≡ map f (take n ms)
  take-map zero ms = refl
  take-map (suc n) [] = refl
  take-map (suc n) (m ∷ ms) = ap (λ rest. f m ∷ rest) (take-map n ms)

abbrev pub attempts_more : ℕ → MessageRow → MessageRow
attempts_more n m = record m { attempts = m.attempts + n }

-- An attempt more, where a test on the identifier says so.
unfoldable pub counted : (ℕ → Bool) → MessageRow → MessageRow
counted test m = if test m.id then count_attempt m else m

pub select-counted :
    (config : ConsumerConfig) (now : ℕ) (test : ℕ → Bool) (ms : List MessageRow)
    → select config now (map (counted test) ms) ≡ map (counted test) (select config now ms)
unfolding select counted
select-counted config now test ms =
    let p = deliverable config.queue now in
    ap (λ rows. take config.max_batch_size (order_by (λ m. m.visible_at) rows))
      (keep-map (counted test) p (λ m. ground arith) ms)
    ∙ ap (take config.max_batch_size)
        (order_by-map (counted test) (λ m. m.visible_at) (λ m. ground arith) (keep p ms))
    ∙ take-map (counted test) config.max_batch_size _

keep_twice : (p : MessageRow → Bool) (ms : List MessageRow) → keep p (keep p ms) ≡ keep p ms
keep_twice p [] = refl
keep_twice p (m ∷ ms) = ground (arith, keep_twice p ms)

pub purge-counted :
    (config : ConsumerConfig) (now : ℕ) (test : ℕ → Bool) (ms : List MessageRow)
    → purge config now (map (counted test) (purge config now ms))
      ≡ map (counted test) (purge config now ms)
unfolding purge counted
purge-counted config now test ms =
    let kept = λ (m : MessageRow). not (
      text_eq m.queue config.queue
      && ltb (m.created_at + or_else config.retention_period_seconds 345600 * 1000) now) in
    keep-map (counted test) kept (λ m. ground arith) (keep kept ms)
    ∙ ap (map (counted test)) (keep_twice kept ms)

-- All rows of a batch are counted.
pub map-counted :
    (test : ℕ → Bool) (rows : List MessageRow)
    → All (λ r. test r.id ≡ true) rows
    → map (counted test) rows ≡ map count_attempt rows
unfolding counted
map-counted test [] h = refl
map-counted test (r ∷ rs) (e, h) = ground (arith, map-counted test rs h)

pub all_among : (rows : List MessageRow) → All (λ r. is_among rows r.id ≡ true) rows
all_among [] = tt
all_among (r ∷ rs) = (
  rw ((==_iff r.id r.id).1 refl) refl,
  All-map {P = λ s. is_among rs s.id ≡ true} (λ s h. ground arith) rs (all_among rs),
)

pub unreadable-count :
    {J : Type 0} (parse : List ℕ → Option J) (rows : List MessageRow)
    → unreadable parse (map count_attempt rows) ≡ unreadable parse rows
unfolding unreadable
unreadable-count parse [] = refl
unreadable-count parse (r ∷ rs) = ground (arith, unreadable-count parse rs)
