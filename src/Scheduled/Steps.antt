-- ===== src/Scheduled/Steps.antt =====
-- The loops of src/bindings/scheduled.ts that collect the values of a range and of a step.
use lopata.Common.{
  ℕ, zero, suc, ◌+◌, ◌≤◌, ◌≡◌, refl, subst, true, none, some, List, [], ◌∷◌, leb, ◌==◌, ==_iff, any,
  arith, Bool-cases, inl, inr, ok, or_iff,
}
use lopata.Scheduled.Fields.{values_from, values}

-- The numbers from i on in steps.
pub data Reaches (step : ℕ) : ℕ → ℕ → Type 0 where
  here : {i : ℕ} → Reaches step i i
  next : {i v : ℕ} → Reaches step (i + step) v → Reaches step i v

Reaches-le : (step i v : ℕ) → Reaches step i v → i ≤ v
Reaches-le step i v here = omega arith
Reaches-le step i v (next r) = omega (arith, Reaches-le step (i + step) v r)

-- Exactly the numbers in steps up to the last.
pub record Collects (step i last : ℕ) (vs : List ℕ) : Type 0 where
  pub sound : (v : ℕ) → any (λ x. x == v) vs ≡ true → Reaches step i v × (v ≤ last)
  pub complete : (v : ℕ) → Reaches step i v → v ≤ last → any (λ x. x == v) vs ≡ true

any_of_Reaches :
    (step i v : ℕ) (vs : List ℕ)
    → (Reaches step (i + step) v → any (λ x. x == v) vs ≡ true)
    → Reaches step i v
    → any (λ x. x == v) (i ∷ vs) ≡ true
any_of_Reaches step i v vs h here =
    (or_iff (i == i) (any (λ x. x == i) vs)).1 (inl ((==_iff i i).1 refl))
any_of_Reaches step i v vs h (next r) = (or_iff (i == v) (any (λ x. x == v) vs)).1 (inr (h r))

values_from-Collects :
    (fuel i last step : ℕ)
    → 1 ≤ step
    → last + 2 ≤ i + fuel
    → 1 ≤ fuel
    → (vs : List ℕ) × (values_from fuel i last step ≡ some vs) × Collects step i last vs
unfolding values_from
values_from-Collects zero i last step s enough f = absurd (omega (arith, f))
values_from-Collects (suc fuel) i last step s enough f = elim (Bool-cases (leb i last)) [
  | inr over ↦ (
    [],
    rw over refl,
    record {
      sound = λ v h. absurd (ground arith);
      complete = λ v r le. absurd (let far = Reaches-le step i v r in ground arith);
    },
  )
  | inl inside ↦
      let (vs, e, c) =
        values_from-Collects fuel (i + step) last step s (omega (arith, enough, s))
          (ground arith) in
      (
        i ∷ vs,
        rw (inside, e) refl,
        record {
          sound = λ v h. elim ((or_iff (i == v) (any (λ x. x == v) vs)).0 h) [
            | inl same ↦
                let eq : i ≡ v = ground arith in (subst (Reaches step i) eq here, ground arith)
            | inr later ↦ let (r, le) = c.sound v later in (next r, le)
          ];
          complete = λ v r le. any_of_Reaches step i v vs (λ q. c.complete v q le) r;
        },
      )
]

-- With a step of at least 1 the loop ends, and has collected exactly the numbers that the steps from the
-- start reach up to the last.
pub values-Collects :
    (i last step : ℕ)
    → 1 ≤ step
    → (vs : List ℕ) × (values (some i) (some last) step ≡ ok vs) × Collects step i last vs
unfolding values
values-Collects i last step s =
    let (vs, e, c) = values_from-Collects (last + 2) i last step s (omega arith) (omega arith) in
    (vs, rw (values, e) refl, c)

-- With the step 0, as in `*/0`, no number of rounds is enough where the start is not after the last.
pub values_from-none : (fuel i last : ℕ) → i ≤ last → values_from fuel i last 0 ≡ none
unfolding values_from
values_from-none zero i last h = refl
values_from-none (suc fuel) i last h =
    let same : i + 0 ≡ i = omega arith in
    let again : values_from fuel (i + 0) last 0 ≡ none = rw same (values_from-none fuel i last h) in
    let inside : leb i last ≡ true = ground arith in rw (inside, again) refl
