-- ===== src/Scheduled/Nearest.antt =====
-- src/bindings/scheduled.ts: the weekday nearest to a day.
use lopata.Common.{
  ℕ, ◌+◌, ◌-◌, ◌%◌, ◌≤◌, ◌≡◌, ◌≢◌, ◌∙◌, sym, ap, subst, false, ◌&&◌, leb, ltb, ◌==◌, arith, min,
  Bool-cases, inl, inr,
}
use lopata.Scheduled.Calendar.{last_day_of_month, day_of_week_for, nearest_weekday}
use lopata.Scheduled.Weekdays.{day_of_week_for-add, day_of_week_for-bound, last_day_of_month-bounds}

abbrev IsWeekday : ℕ → ℕ → ℕ → Type 0
IsWeekday y m d = (1 ≤ day_of_week_for y m d) × (day_of_week_for y m d ≤ 5)

abbrev pub distance : ℕ → ℕ → ℕ
distance a b = (a - b) + (b - a)

-- A day of the month from Monday to Friday such that no other such day of the month is nearer.
pub record IsNearest (y m d r : ℕ) : Type 0 where
  pub inside : (1 ≤ r) × (r ≤ last_day_of_month y m)
  pub weekday : IsWeekday y m r
  pub nearest :
      (other : ℕ)
      → 1 ≤ other
      → other ≤ last_day_of_month y m
      → IsWeekday y m other
      → distance d r ≤ distance d other

back_one : (y m d : ℕ) → 1 ≤ d → day_of_week_for y m d ≡ (day_of_week_for y m (d - 1) + 1) % 7
back_one y m d h =
    let e : d - 1 + 1 ≡ d = omega (arith, h) in
    sym (ap (day_of_week_for y m) e) ∙ day_of_week_for-add y m (d - 1) 1

back_two : (y m d : ℕ) → 2 ≤ d → day_of_week_for y m d ≡ (day_of_week_for y m (d - 2) + 2) % 7
back_two y m d h =
    let e : d - 2 + 2 ≡ d = omega (arith, h) in
    sym (ap (day_of_week_for y m) e) ∙ day_of_week_for-add y m (d - 2) 2

-- A day of another weekday is another day.
other_day :
    (y m d other : ℕ)
    → IsWeekday y m other
    → leb 1 (day_of_week_for y m d) && leb (day_of_week_for y m d) 5 ≡ false
    → other ≢ d
other_day y m d other week h e =
    let (low, high) : IsWeekday y m d = subst (IsWeekday y m) e week in
    absurd (ground (arith, low, high))

two_after :
    (d other : ℕ) → other ≢ d → other ≢ d + 1 → d ≤ other → distance d (d + 2) ≤ distance d other
two_after d other h k le = omega (arith, h, k, le)

two_before :
    (d other : ℕ)
    → other ≢ d
    → other ≢ d - 1
    → 2 ≤ d
    → other ≤ d
    → distance d (d - 2) ≤ distance d other
two_before d other h k two le = omega (arith, h, k, two, le)

-- nearestWeekday gives, for each day of the month, a day of the same month from Monday to Friday, and no
-- day of that month from Monday to Friday is nearer to the given day.
pub nearest_weekday-IsNearest :
    (y m d : ℕ) → 1 ≤ d → d ≤ last_day_of_month y m → IsNearest y m d (nearest_weekday y m d)
unfolding nearest_weekday
nearest_weekday-IsNearest y m d low high =
    let last = last_day_of_month y m in
    let dow = day_of_week_for y m in
    let here : min d last ≡ d = omega (arith, high) in
    let bound = day_of_week_for-bound y m d in
    let month = (last_day_of_month-bounds y m).0 in
    elim (Bool-cases (leb 1 (dow d) && leb (dow d) 5)) [
      | inl week ↦
          rw (here, week)
            (record {
              inside = (low, high);
              weekday = (ground arith, ground arith);
              nearest = λ other lo hi w. omega arith;
            })
      | inr week ↦ elim (Bool-cases (dow d == 6)) [
        | inl saturday ↦ elim (Bool-cases (ltb 1 d)) [
          | inl later ↦
              let friday = back_one y m d low in
              rw (here, week, saturday, later)
                (record {
                  inside = (ground arith, omega (arith, high));
                  weekday = (ground (arith, friday), ground (arith, friday));
                  nearest =
                      λ other lo hi w. let ne = other_day y m d other w week in omega (arith, ne);
                })
          | inr first ↦
              let monday = day_of_week_for-add y m d 2 in
              let next = day_of_week_for-add y m d 1 in
              let sunday_after : leb 1 (dow (d + 1)) && leb (dow (d + 1)) 5 ≡ false =
                ground (arith, next, saturday) in
              rw (here, week, saturday, first)
                (record {
                  inside = (omega (arith, low), ground (arith, month));
                  weekday = (ground (arith, monday), ground (arith, monday));
                  nearest = λ other lo hi w.
                      let ne = other_day y m d other w week in
                      let ne1 = other_day y m (d + 1) other w sunday_after in
                      two_after d other ne ne1 (ground (arith, lo, first, low));
                })
        ]
        | inr sunday ↦ elim (Bool-cases (ltb d last)) [
          | inl before ↦
              let monday = day_of_week_for-add y m d 1 in
              rw (here, week, sunday, before)
                (record {
                  inside = (omega (arith, low), ground arith);
                  weekday = (ground (arith, monday, bound), ground (arith, monday, bound));
                  nearest =
                      λ other lo hi w. let ne = other_day y m d other w week in omega (arith, ne);
                })
          | inr end ↦
              let friday = back_two y m d (ground (arith, month, high)) in
              let at_most : (x : ℕ) → x ≤ last → x ≤ d = λ x h. ground arith in
              let previous = back_one y m d low in
              let before_bound = day_of_week_for-bound y m (d - 1) in
              let saturday_before : leb 1 (dow (d - 1)) && leb (dow (d - 1)) 5 ≡ false =
                ground (arith, previous, before_bound, week, sunday, bound) in
              rw (here, week, sunday, end)
                (record {
                  inside = (ground (arith, month, high), omega (arith, high));
                  weekday = (ground (arith, friday, bound), ground (arith, friday, bound));
                  nearest = λ other lo hi w.
                      let ne = other_day y m d other w week in
                      let ne1 = other_day y m (d - 1) other w saturday_before in
                      two_before d other ne ne1 (ground (arith, month, high)) (at_most other hi);
                })
        ]
      ]
    ]
