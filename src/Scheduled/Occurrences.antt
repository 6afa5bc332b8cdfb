-- ===== src/Scheduled/Occurrences.antt =====
-- src/bindings/scheduled.ts: the n-th weekday of a month.
use lopata.Common.{
  ℕ, zero, suc, ◌+◌, ◌-◌, ◌/◌, ◌%◌, ◌≤◌, ◌<◌, ◌≡◌, ap, subst, true, false, some, ◌==◌, arith,
  Bool-cases, inl, inr, ◌↔◌,
}
use lopata.Scheduled.Calendar.{last_day_of_month, day_of_week_for, nth_from, nth_weekday_of_month}
use lopata.Scheduled.Weekdays.{day_of_week_for-add, day_of_week_for-suc, day_of_week_for-bound}

-- The n-th day of a weekday in a month: it is the weekday, and lies in the n-th run of seven days.
pub record IsNth (y m w n r : ℕ) : Type 0 where
  pub inside : (1 ≤ r) × (r ≤ last_day_of_month y m)
  pub right : day_of_week_for y m r ≡ w
  pub occurrence : (r - 1) / 7 + 1 ≡ n

module _ (y m w n : ℕ) where
  -- What the loop finds from the day d on.
  record From (d left r : ℕ) : Type 0 where
    inside : (d ≤ r) × (r < d + left)
    right : day_of_week_for y m r ≡ w
    occurrence : (r - 1) / 7 + 1 ≡ n

  From-later : (d left r : ℕ) → From (suc d) left r → From d (suc left) r
  From-later d left r h = record {
    inside = omega (arith, h.inside.0, h.inside.1);
    right = h.right;
    occurrence = h.occurrence;
  }

  From-next : (d left r : ℕ) → From d (suc left) r → (d == r) ≡ false → From (suc d) left r
  From-next d left r h other = record {
    inside = (ground (arith, h.inside.0), omega (arith, h.inside.1));
    right = h.right;
    occurrence = h.occurrence;
  }

  -- The count is that of the runs before the next day of the weekday, which is j days off.
  record Counts (count d j : ℕ) : Type 0 where
    positive : 1 ≤ d
    week : w < 7
    small : j < 7
    next : (day_of_week_for y m d + j) % 7 ≡ w
    count_is : (d + j - 1) / 7 ≡ count

  Counts-found :
      (count d j : ℕ) → Counts count d j → day_of_week_for y m d ≡ w → Counts (suc count) (suc d) 6
  Counts-found count d j c e = record {
    positive = omega arith;
    week = c.week;
    small = omega arith;
    next = omega (arith, e, day_of_week_for-suc y m d, c.week);
    count_is = omega (arith, c.count_is, c.next, e, c.small, c.week, c.positive);
  }

  Counts-other :
      (count d j : ℕ)
      → Counts count d j
      → (day_of_week_for y m d == w) ≡ false
      → Counts count (suc d) (j - 1)
  Counts-other count d j c e =
      let some_days : 1 ≤ j = ground (arith, c.next, day_of_week_for-bound y m d) in
      record {
        positive = omega arith;
        week = c.week;
        small = omega (arith, c.small);
        next = omega (
          arith,
          c.next,
          day_of_week_for-suc y m d,
          some_days,
          c.small,
          day_of_week_for-bound y m d,
        );
        count_is = omega (arith, c.count_is, some_days);
      }

  nth_from_sound :
      (count d j left r : ℕ)
      → Counts count d j
      → nth_from y m w n count d left ≡ some r
      → From d left r
  unfolding nth_from
  nth_from_sound count d j zero r c h = absurd (ground arith)
  nth_from_sound count d j (suc left) r c h = elim (Bool-cases (day_of_week_for y m d == w)) [
    | inr e ↦
        From-later d left r
          (nth_from_sound count (suc d) (j - 1) left r (Counts-other count d j c e) (rw e at h))
    | inl e ↦
        let day : day_of_week_for y m d ≡ w = ground arith in
        let c' = Counts-found count d j c day in
        elim (Bool-cases (suc count == n)) [
          | inr f ↦
              From-later d left r (nth_from_sound (suc count) (suc d) 6 left r c' (rw (e, f) at h))
          | inl f ↦
              let g = rw (e, f) at h in
              let same : d ≡ r = ground arith in
              let number : suc count ≡ n = ground arith in
              let run : (d - 1) / 7 + 1 ≡ n =
                omega (arith, c.count_is, c.next, day, c.small, c.week, c.positive, number) in
              subst (From d (suc left)) same
                (record { inside = (omega arith, omega arith); right = day; occurrence = run })
        ]
  ]

  nth_from_complete :
      (count d j left r : ℕ)
      → Counts count d j
      → From d left r
      → nth_from y m w n count d left ≡ some r
  unfolding nth_from
  nth_from_complete count d j zero r c h = absurd (omega (arith, h.inside.0, h.inside.1))
  nth_from_complete count d j (suc left) r c h =
      let same_day : (d == r) ≡ true → day_of_week_for y m d ≡ w =
        λ s. let eq : r ≡ d = ground arith in subst (λ x. day_of_week_for y m x ≡ w) eq h.right in
      elim (Bool-cases (day_of_week_for y m d == w)) [
        | inr e ↦ elim (Bool-cases (d == r)) [
          | inl s ↦ absurd (let day = same_day s in ground arith)
          | inr s ↦ rw e (
              nth_from_complete count (suc d) (j - 1) left r (Counts-other count d j c e)
                (From-next d left r h s))
        ]
        | inl e ↦
            let day : day_of_week_for y m d ≡ w = ground arith in
            let run : (d - 1) / 7 ≡ count =
              omega (arith, c.count_is, c.next, day, c.small, c.week, c.positive) in
            elim (Bool-cases (suc count == n)) [
              | inl f ↦
                  let number : suc count ≡ n = ground arith in
                  let gap = day_of_week_for-add y m d (r - d) in
                  let back : d + (r - d) ≡ r = omega (arith, h.inside.0) in
                  let eq : d ≡ r = omega (
                    arith,
                    gap,
                    ap (day_of_week_for y m) back,
                    h.right,
                    day,
                    c.week,
                    run,
                    number,
                    h.occurrence,
                    h.inside.0,
                    c.positive,
                  ) in
                  rw (e, f) (ap some eq)
              | inr f ↦
                  let other : (d == r) ≡ false = ground (arith, run, h.occurrence) in
                  rw (e, f)
                    (nth_from_complete (suc count) (suc d) 6 left r (Counts-found count d j c day)
                      (From-next d left r h other))
            ]
      ]

  -- nthWeekdayOfMonth gives a day exactly where it is the n-th day of the month that is that weekday,
  -- for each of the seven weekdays, and gives null where the month has no such day.
  pub nth_weekday_of_month_iff :
      w < 7 → (r : ℕ) → (nth_weekday_of_month y m w n ≡ some r) ↔ IsNth y m w n r
  unfolding nth_weekday_of_month
  nth_weekday_of_month_iff week r =
      let b = day_of_week_for-bound y m 1 in
      let start : Counts 0 1 ((w + 7 - day_of_week_for y m 1) % 7) = record {
        positive = omega arith;
        week = week;
        small = omega arith;
        next = omega (arith, b, week);
        count_is = omega arith;
      } in
      (
        λ h.
            let f =
              nth_from_sound 0 1 ((w + 7 - day_of_week_for y m 1) % 7) (last_day_of_month y m) r
                start h in
            record {
              inside = (f.inside.0, omega (arith, f.inside.1));
              right = f.right;
              occurrence = f.occurrence;
            },
        λ h.
            nth_from_complete 0 1 ((w + 7 - day_of_week_for y m 1) % 7) (last_day_of_month y m) r
              start
              (record {
                inside = (h.inside.0, omega (arith, h.inside.1));
                right = h.right;
                occurrence = h.occurrence;
              }),
      )
