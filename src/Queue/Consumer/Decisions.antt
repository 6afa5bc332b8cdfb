-- ===== src/Queue/Consumer/Decisions.antt =====
-- What the calls of a handler decide for a message, told from the list of the calls.
use lopata.Common.{
  ℕ, ◌≡◌, ◌≢◌, refl, ◌∙◌, ap, true, false, Option, none, some, List, [], ◌∷◌, ◌++◌, ◌==◌, ==_iff,
  ◌⊎◌, inl, inr, Bool-cases, All, arith,
}
use lopata.Queue.Consumer.{
  Decision, ack, retry, Call, on_message, on_batch, Outcome, message_decision, batch_decision,
  decision_of,
}

-- No call of the kind; a kind is the calls on one message, or those on the batch.
abbrev pub Absent : (Decision → Call) → List Call → Type 0
Absent kind = All (λ c. (d : Decision) → c ≢ kind d)

-- The last call of the kind decided this.
abbrev pub IsLast : (Decision → Call) → List Call → Decision → Type 0
IsLast kind calls d =
    (earlier later : List Call) × (calls ≡ earlier ++ (kind d ∷ later)) × Absent kind later

-- A throw asks for a retry of every message; else the last call on the message decides, then the last
-- call on the batch, and a message without any is acked.
pub data Decides (o : Outcome) (id : ℕ) : Decision → Type 0 where
  by_throw : o.threw ≡ true → Decides o id (retry none)
  by_message : {d : Decision} → o.threw ≡ false → IsLast (on_message id) o.calls d → Decides o id d
  by_batch :
      {d : Decision}
      → o.threw ≡ false
      → Absent (on_message id) o.calls
      → IsLast on_batch o.calls d
      → Decides o id d
  by_default :
      o.threw ≡ false → Absent (on_message id) o.calls → Absent on_batch o.calls → Decides o id ack

later-IsLast :
    {kind : Decision → Call} {calls : List Call} {d : Decision} (c : Call)
    → IsLast kind calls d
    → IsLast kind (c ∷ calls) d
later-IsLast c (earlier, later, e, absent) = (c ∷ earlier, later, ap (λ cs. c ∷ cs) e, absent)

-- The loop over the calls finds the last one on the message, or leaves what was found before.
message_decision-cases :
    (id : ℕ) (calls : List Call)
    → ((d : Decision) × IsLast (on_message id) calls d
        × ((found : Option Decision) → message_decision id calls found ≡ some d))
      ⊎ (Absent (on_message id) calls
          × ((found : Option Decision) → message_decision id calls found ≡ found))
unfolding message_decision
message_decision-cases id [] = inr (tt, λ found. refl)
message_decision-cases id (on_message i d ∷ calls) = elim (message_decision-cases id calls) [
  | inl (e, last, q) ↦ inl (e, later-IsLast (on_message i d) last, λ found. q _)
  | inr (absent, q) ↦ elim (Bool-cases (i == id)) [
    | inl same ↦
        let own : on_message i d ≡ on_message id d =
          ap (λ k. on_message k d) ((==_iff i id).0 same) in
        inl (d, ([], calls, ap (λ c. c ∷ calls) own, absent), λ found. q _ ∙ rw same refl)
    | inr other ↦ inr ((λ e h. ground arith, absent), λ found. q _ ∙ rw other refl)
  ]
]
message_decision-cases id (on_batch d ∷ calls) = elim (message_decision-cases id calls) [
  | inl (e, last, q) ↦ inl (e, later-IsLast (on_batch d) last, q)
  | inr (absent, q) ↦ inr ((λ e h. ground arith, absent), q)
]

batch_decision-cases :
    (calls : List Call)
    → ((d : Decision) × IsLast on_batch calls d
        × ((found : Option Decision) → batch_decision calls found ≡ some d))
      ⊎ (Absent on_batch calls × ((found : Option Decision) → batch_decision calls found ≡ found))
unfolding batch_decision
batch_decision-cases [] = inr (tt, λ found. refl)
batch_decision-cases (on_message i d ∷ calls) = elim (batch_decision-cases calls) [
  | inl (e, last, q) ↦ inl (e, later-IsLast (on_message i d) last, q)
  | inr (absent, q) ↦ inr ((λ e h. ground arith, absent), q)
]
batch_decision-cases (on_batch d ∷ calls) = elim (batch_decision-cases calls) [
  | inl (e, last, q) ↦ inl (e, later-IsLast (on_batch d) last, λ found. q _)
  | inr (absent, q) ↦ inl (d, ([], calls, refl, absent), λ found. q _)
]

-- A message without a decision is acked.
pub decision_of-Decides :
    (o : Outcome) (id : ℕ)
    → ((d : Decision) × (decision_of o id ≡ some d) × Decides o id d)
      ⊎ ((decision_of o id ≡ none) × Decides o id ack)
unfolding decision_of
decision_of-Decides o id = elim (Bool-cases o.threw) [
  | inl threw ↦ inl (retry none, rw threw refl, by_throw threw)
  | inr returned ↦ elim (message_decision-cases id o.calls) [
    | inl (d, last, q) ↦ inl (d, rw (returned, q none) refl, by_message returned last)
    | inr (absent, q) ↦ elim (batch_decision-cases o.calls) [
      | inl (d, last, p) ↦
          inl (d, rw (returned, q none, p none) refl, by_batch returned absent last)
      | inr (no_batch, p) ↦
          inr (rw (returned, q none, p none) refl, by_default returned absent no_batch)
    ]
  ]
]
