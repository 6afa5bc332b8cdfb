-- ===== src/Queue.antt =====
-- src/bindings/queue.ts and its two tables in src/db.ts. Message and lease identifiers are UUIDs;
-- here they are numbers that the caller draws. Times are milliseconds.
pub mod Bodies
pub mod Producer
pub mod Consumer
pub mod PullConsumer
use lopata.Common.{
  ℕ, ◌+◌, Bool, true, false, Option, none, some, List, [], ◌∷◌, ◌==◌, if◌then◌else◌, map, Text,
  Pairs, All-map, All-map_list, ◌≡◌, ◌≢◌, ◌∙◌, sym, arith,
}

pub data ContentType : Type 0 where
  json text bytes v8 : ContentType

pub data Status : Type 0 where
  pending acked failed : Status

abbrev pub is_pending : Status → Bool
is_pending pending = true
is_pending _ = false

abbrev pub is_v8 : ContentType → Bool
is_v8 v8 = true
is_v8 _ = false

-- A row of `queue_messages`.
pub record MessageRow : Type 0 where
  pub id : ℕ
  pub queue : Text
  pub body : List ℕ
  pub content_type : ContentType
  pub attempts : ℕ
  pub status : Status
  pub visible_at : ℕ
  pub created_at : ℕ
  pub completed_at : Option ℕ

-- A row of `queue_leases`.
pub record Lease : Type 0 where
  pub lease_id : ℕ
  pub message_id : ℕ
  pub queue : Text
  pub expires_at : ℕ

-- The tables, rows in the order of insertion.
pub record Db : Type 0 where
  pub messages : List MessageRow
  pub leases : List Lease

-- `UPDATE queue_messages SET … WHERE id = ?`
unfoldable pub update_message : ℕ → (MessageRow → MessageRow) → List MessageRow → List MessageRow
update_message id f = map (λ m. if m.id == id then f m else m)

abbrev pub count_attempt : MessageRow → MessageRow
count_attempt m = record m { attempts = m.attempts + 1 }

abbrev pub mark_acked : ℕ → MessageRow → MessageRow
mark_acked now m = record m { status = acked; completed_at = some now }

abbrev pub mark_failed : ℕ → MessageRow → MessageRow
mark_failed now m = record m { status = failed; completed_at = some now }

abbrev pub delay_until : ℕ → MessageRow → MessageRow
delay_until time m = record m { visible_at = time }

abbrev pub dead_letter : Text → ℕ → MessageRow → MessageRow
dead_letter queue now m = record m { queue = queue; visible_at = now; status = pending }

abbrev pub Differ : MessageRow → MessageRow → Type 0
Differ r s = s.id ≢ r.id

pub Differ-symm : (r s : MessageRow) → Differ r s → Differ s r
Differ-symm r s h e = h (sym e)

-- No two rows have the same identifier, as the primary key of the table demands.
abbrev pub DistinctIds : List MessageRow → Type 0
DistinctIds = Pairs Differ

-- A change of rows that keeps their identifiers keeps them distinct.
pub map-DistinctIds :
    (f : MessageRow → MessageRow)
    → ((m : MessageRow) → (f m).id ≡ m.id)
    → (ms : List MessageRow) → DistinctIds ms
    → DistinctIds (map f ms)
map-DistinctIds f same [] h = tt
map-DistinctIds f same (m ∷ ms) (first, h) = (
  All-map_list (Differ (f m)) f ms (All-map (λ s ne e. ne (sym (same s) ∙ e ∙ same m)) ms first),
  map-DistinctIds f same ms h,
)

pub update_message-DistinctIds :
    (id : ℕ) (f : MessageRow → MessageRow)
    → ((m : MessageRow) → (f m).id ≡ m.id)
    → (ms : List MessageRow) → DistinctIds ms
    → DistinctIds (update_message id f ms)
unfolding update_message
update_message-DistinctIds id f same ms h =
    map-DistinctIds (λ m. if m.id == id then f m else m) (λ m. ground (arith, same m)) ms h
