-- ===== src/Generations/Triggers.antt =====
-- The other calls of a generation in src/generation.ts: scheduled and email handlers, and what the dashboard shows.
-- The worker's answer is a parameter: none where it throws, else whether it has the handler.
use lopata.Common.{
  ℕ, ◌+◌, Bool, ◌||◌, Option, none, some, List, [], ◌∷◌, map, if◌then◌else◌, length, Text, codes,
  starts_with,
}
use lopata.Kv.Keys.{Bytes}
use lopata.Generations.{Generation, GenerationState}

-- Spans are not started for these paths.
unfoldable pub is_infrastructure_path : Text → Bool
is_infrastructure_path pathname =
    starts_with pathname (codes "/_bun/") || starts_with pathname (codes "/.well-known/")

pub data Triggered : Type 0 where
  no_handler handled rethrown : Triggered

abbrev pub answer_of : Option (Option Bool) → Triggered
answer_of none = no_handler
answer_of (some none) = rethrown
answer_of (some (some has_handler)) = if has_handler then handled else no_handler

-- `thread_executor` is none for a worker without a script.
unfoldable pub call_scheduled :
    (thread_executor : Option (Text → ℕ → Option Bool)) (cron : Text) (now : ℕ) → Triggered
call_scheduled thread_executor cron now =
    answer_of (elim thread_executor [ none ↦ none | some execute ↦ some (execute cron now) ])

-- A row of the table email_messages, with the status `received`.
pub record EmailMessage : Type 0 where
  pub id : Text
  pub from_addr : Text
  pub to_addr : Text
  pub raw : Bytes
  pub raw_size : ℕ
  pub created_at : ℕ

unfoldable pub call_email :
    (thread_executor : Option (Text → Text → Text → Bytes → Option Bool)) (id : Text) (now : ℕ)
    (raw_bytes : Bytes) (from to : Text)
    → List EmailMessage
    → Triggered × List EmailMessage
call_email thread_executor id now raw_bytes from to messages =
    let message : EmailMessage = record {
      id = id;
      from_addr = from;
      to_addr = to;
      raw = raw_bytes;
      raw_size = length raw_bytes;
      created_at = now;
    } in
    (
      answer_of (elim thread_executor [
        | none ↦ none
        | some execute ↦ some (execute id from to raw_bytes)
      ]),
      message ∷ messages,
    )

-- A namespace is shown with the number of WebSockets of each of its live executors.
pub record NamespaceInfo : Type 0 where
  pub namespace : Text
  pub active_instances : ℕ
  pub total_web_sockets : ℕ

pub record GenerationInfo : Type 0 where
  pub id : ℕ
  pub state : GenerationState
  pub active_requests : ℕ
  pub durable_objects : List NamespaceInfo

abbrev pub sum : List ℕ → ℕ
sum [] = 0
sum (n ∷ ns) = n + sum ns

unfoldable pub get_info : (executors : ℕ → List ℕ) → Generation → GenerationInfo
get_info executors g = record {
  id = g.id;
  state = g.state;
  active_requests = g.active_requests;
  durable_objects =
      map
        (λ e. record {
          namespace = e.0;
          active_instances = length (executors e.1);
          total_web_sockets = sum (executors e.1);
        })
        g.registry.durable_objects;
}
