-- ===== src/Scheduled/Once.antt =====
-- The timer of src/bindings/scheduled.ts fires an expression at most once in a minute.
use lopata.Common.{
  ℕ, ◌≤◌, ◌<◌, ◌≡◌, refl, sym, ap, subst, true, false, ◌&&◌, some, List, [], ◌∷◌, ◌++◌, ◌==◌, arith,
  All, All-map, All-append, All-intro, Pairs, Text, text_eq, text_eq_iff, Bool-cases, inl, inr,
}
use mathlib.Core.List.{Memᴰ}
use mathlib.Core.Logic.{◌⊎◌}
use lopata.Scheduled.Crons.{ParsedCron, cron_matches_date, is_value}
use lopata.Scheduled.Timer.{Tick, minute_key, FiredMinutes, last_fired, Fired, fire, tick, run}

-- Two invocations that are not of the same expression in the same minute.
abbrev pub Apart : Fired → Fired → Type 0
Apart f g = (text_eq f.0 g.0 && (f.1 == g.1)) ≡ false

-- An invocation in a later minute than any of its expression in the Map.
abbrev Fresh : FiredMinutes → Fired → Type 0
Fresh fired f = (m : ℕ) → last_fired f.0 fired ≡ some m → m < f.1

abbrev Bounded : ℕ → FiredMinutes → Type 0
Bounded m fired = All (λ e. e.1 ≤ m) fired

record Step (fired fired' : FiredMinutes) (out : List Fired) : Type 0 where
  older : (g : Fired) → Fresh fired' g → Fresh fired g
  fresh : All (Fresh fired) out
  apart : Pairs Apart out
  done : All (λ f. (g : Fired) → Fresh fired' g → Apart f g) out

append-Pairs :
    (xs ys : List Fired)
    → All (λ f. All (Apart f) ys) xs
    → Pairs Apart xs
    → Pairs Apart ys
    → Pairs Apart (xs ++ ys)
append-Pairs [] ys h p q = q
append-Pairs (x ∷ xs) ys (e, h) (first, p) q =
    (All-append (Apart x) xs ys first e, append-Pairs xs ys h p q)

Step-trans : (a b c : FiredMinutes) (x y : List Fired) → Step a b x → Step b c y → Step a c (x ++ y)
Step-trans a b c x y s t = record {
  older = λ g h. s.older g (t.older g h);
  fresh = All-append (Fresh a) x y s.fresh (All-map s.older y t.fresh);
  apart = append-Pairs x y (All-map (λ f h. All-map h y t.fresh) x s.done) s.apart t.apart;
  done =
      All-append (λ f. (g : Fired) → Fresh c g → Apart f g) x y
        (All-map (λ f h g k. h g (t.older g k)) x s.done) t.done;
}

Step-refl : (a : FiredMinutes) → Step a a []
Step-refl a = record { older = λ g h. h; fresh = tt; apart = tt; done = tt }

last_fired-Bounded :
    (m : ℕ) (e : Text) (fired : FiredMinutes) (n : ℕ)
    → Bounded m fired
    → last_fired e fired ≡ some n
    → n ≤ m
unfolding last_fired
last_fired-Bounded m e [] n b h = absurd (ground arith)
last_fired-Bounded m e ((x, k) ∷ fired) n (le, b) h =
    ground (arith, last_fired-Bounded m e fired n b)

-- An expression that has not fired in the minute fires.
fires-Step :
    (e : Text) (m : ℕ) (fired : FiredMinutes)
    → Bounded m fired
    → is_value (last_fired e fired) m ≡ false
    → Step fired ((e, m) ∷ fired) ((e, m) ∷ [])
unfolding last_fired
fires-Step e m fired b h =
    let new : Fresh fired (e, m) = λ n k.
      let other : (n == m) ≡ false = rw k at h in
      let most = last_fired-Bounded m e fired n b k in ground arith in
    record {
      older = λ g k n l. elim (Bool-cases (text_eq e g.0)) [
        | inl s ↦
            let later : m < g.1 = k m (rw s refl) in
            let most = last_fired-Bounded m g.0 fired n b l in omega (arith, later, most)
        | inr s ↦ k n (rw s l)
      ];
      fresh = (new, tt);
      apart = (tt, tt);
      done = (
        λ g k. elim (Bool-cases (text_eq e g.0)) [
          | inl s ↦ let later : m < g.1 = k m (rw s refl) in ground arith
          | inr s ↦ rw s refl
        ],
        tt,
      );
    }

fire-Step :
    (t : Tick) (cron : ParsedCron) (fired : FiredMinutes)
    → Bounded (minute_key t) fired
    → Step fired (fire t cron fired).0 (fire t cron fired).1
unfolding fire
fire-Step t cron fired b = elim (Bool-cases (cron_matches_date cron t.date)) [
  | inr n ↦ rw n (Step-refl fired)
  | inl y ↦ elim (Bool-cases (is_value (last_fired cron.expression fired) (minute_key t))) [
    | inl old ↦ rw (y, old) (Step-refl fired)
    | inr new ↦ rw (y, new) (fires-Step cron.expression (minute_key t) fired b new)
  ]
]

fire-Bounded :
    (t : Tick) (cron : ParsedCron) (fired : FiredMinutes)
    → Bounded (minute_key t) fired
    → Bounded (minute_key t) (fire t cron fired).0
unfolding fire
fire-Bounded t cron fired b = elim (Bool-cases (cron_matches_date cron t.date)) [
  | inr n ↦ rw n b
  | inl y ↦ elim (Bool-cases (is_value (last_fired cron.expression fired) (minute_key t))) [
    | inl old ↦ rw (y, old) b
    | inr new ↦ rw (y, new) (omega arith, b)
  ]
]

tick-Step :
    (t : Tick) (crons : List ParsedCron) (fired : FiredMinutes)
    → Bounded (minute_key t) fired
    → Step fired (tick t crons fired).0 (tick t crons fired).1
      × Bounded (minute_key t) (tick t crons fired).0
unfolding tick
tick-Step t [] fired b = (Step-refl fired, b)
tick-Step t (cron ∷ crons) fired b =
    let (s, b') = tick-Step t crons (fire t cron fired).0 (fire-Bounded t cron fired b) in
    (
      Step-trans fired (fire t cron fired).0 (tick t crons (fire t cron fired).0).0
          (fire t cron fired).1 (tick t crons (fire t cron fired).0).1 (fire-Step t cron fired b) s,
      b',
    )

-- Ticks whose minutes do not go back.
abbrev NoEarlier : Tick × List ParsedCron → Tick × List ParsedCron → Type 0
NoEarlier a b = minute_key a.0 ≤ minute_key b.0

run-Step :
    (ticks : List (Tick × List ParsedCron)) (fired : FiredMinutes)
    → Pairs NoEarlier ticks
    → All (λ a. Bounded (minute_key a.0) fired) ticks
    → (last : FiredMinutes) × Step fired last (run ticks fired)
unfolding run
run-Step [] fired p b = (fired, Step-refl fired)
run-Step ((t, crons) ∷ ticks) fired (first, p) (b, _) =
    let (s, b') = tick-Step t crons fired b in
    let (last, r) = run-Step ticks (tick t crons fired).0 p (
      All-map (λ a le. All-map (λ e h. omega (arith, h, le)) (tick t crons fired).0 b') ticks
        first) in
    (
      last,
      Step-trans fired (tick t crons fired).0 last (tick t crons fired).1
          (run ticks (tick t crons fired).0) s r,
    )

-- At ticks whose minutes do not go back, whatever the crons are at each of them, as after reloads, no expression
-- is invoked twice in the same minute.
pub run-Apart :
    (ticks : List (Tick × List ParsedCron)) → Pairs NoEarlier ticks → Pairs Apart (run ticks [])
run-Apart ticks p = let (_, s) = run-Step ticks [] p (All-intro _ ticks (λ a m. tt)) in s.apart

Mem-append_left : (f : Fired) (xs ys : List Fired) → Memᴰ f xs → Memᴰ f (xs ++ ys)
Mem-append_left f [] ys m = elim m [ ]
Mem-append_left f (x ∷ xs) ys (Memᴰ.head e) = Memᴰ.head e
Mem-append_left f (x ∷ xs) ys (Memᴰ.tail m) = Memᴰ.tail (Mem-append_left f xs ys m)

Mem-append_right : (f : Fired) (xs ys : List Fired) → Memᴰ f ys → Memᴰ f (xs ++ ys)
Mem-append_right f [] ys m = m
Mem-append_right f (x ∷ xs) ys m = Memᴰ.tail (Mem-append_right f xs ys m)

fire-matching :
    (t : Tick) (cron : ParsedCron) (fired : FiredMinutes)
    → cron_matches_date cron t.date ≡ true
    → is_value (last_fired cron.expression fired) (minute_key t) ≡ false
    → Memᴰ (cron.expression, minute_key t) (fire t cron fired).1
unfolding fire
fire-matching t cron fired y new = rw (y, new) (Memᴰ.head refl)

-- A cron fires an expression, or leaves it as it was in the Map.
fire-or_keeps :
    (t : Tick) (cron : ParsedCron) (fired : FiredMinutes) (e : Text)
    → is_value (last_fired e fired) (minute_key t) ≡ false
    → Memᴰ (e, minute_key t) (fire t cron fired).1
      ⊎ (is_value (last_fired e (fire t cron fired).0) (minute_key t) ≡ false)
unfolding fire last_fired
fire-or_keeps t cron fired e free = elim (Bool-cases (cron_matches_date cron t.date)) [
  | inr n ↦ rw n (inr free)
  | inl y ↦ elim (Bool-cases (is_value (last_fired cron.expression fired) (minute_key t))) [
    | inl old ↦ rw (y, old) (inr free)
    | inr new ↦ elim (Bool-cases (text_eq cron.expression e)) [
      | inl s ↦
          rw (y, new)
            (inl
              (Memᴰ.head (ap (λ x. (x, minute_key t)) (sym ((text_eq_iff cron.expression e).0 s)))))
      | inr s ↦ rw (y, new, s) (inr free)
    ]
  ]
]

-- At a tick, a cron of the timer that matches the date is invoked, unless its expression is already recorded for this
-- minute.
pub tick_fires :
    (t : Tick) (crons : List ParsedCron) (fired : FiredMinutes) (cron : ParsedCron)
    → Memᴰ cron crons
    → cron_matches_date cron t.date ≡ true
    → is_value (last_fired cron.expression fired) (minute_key t) ≡ false
    → Memᴰ (cron.expression, minute_key t) (tick t crons fired).1
unfolding tick
tick_fires t [] fired cron m y free = elim m [ ]
tick_fires t (c ∷ crons) fired cron (Memᴰ.head e) y free =
    Mem-append_left (cron.expression, minute_key t) (fire t c fired).1
      (tick t crons (fire t c fired).0).1
      (subst (λ x. Memᴰ (cron.expression, minute_key t) (fire t x fired).1) e
        (fire-matching t cron fired y free))
tick_fires t (c ∷ crons) fired cron (Memᴰ.tail m) y free =
    elim (fire-or_keeps t c fired cron.expression free) [
      | inl here ↦
          Mem-append_left (cron.expression, minute_key t) (fire t c fired).1
            (tick t crons (fire t c fired).0).1 here
      | inr still ↦
          Mem-append_right (cron.expression, minute_key t) (fire t c fired).1
            (tick t crons (fire t c fired).0).1
            (tick_fires t crons (fire t c fired).0 cron m y still)
    ]
