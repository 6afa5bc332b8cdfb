-- ===== src/Scheduled/Weekdays.antt =====
-- The calendar helpers of src/bindings/scheduled.ts find the days that they are for.
use lopata.Common.{
  ℕ, zero, suc, ◌+◌, ◌-◌, ◌%◌, ◌≤◌, ◌<◌, ◌≡◌, ◌∙◌, ap, false, ◌||◌, ◌==◌, arith, Bool-cases, inl,
  inr,
}
use lopata.Scheduled.Calendar.{
  last_day_of_month, day_of_week_for, last_from, last_weekday_of_month, is_leap,
}

pub last_day_of_month-bounds :
    (y m : ℕ) → (28 ≤ last_day_of_month y m) × (last_day_of_month y m ≤ 31)
unfolding last_day_of_month
last_day_of_month-bounds y m = elim (Bool-cases (m == 2)) [
  | inl e ↦ rw e (elim (Bool-cases (is_leap y)) [
    | inl l ↦ rw l (omega arith, omega arith)
    | inr l ↦ rw l (omega arith, omega arith)
  ])
  | inr e ↦ rw e (elim (Bool-cases ((m == 4) || ((m == 6) || ((m == 9) || (m == 11))))) [
    | inl l ↦ rw l (omega arith, omega arith)
    | inr l ↦ rw l (omega arith, omega arith)
  ])
]

-- The week goes on from day to day.
pub day_of_week_for-suc :
    (y m d : ℕ) → day_of_week_for y m (suc d) ≡ (day_of_week_for y m d + 1) % 7
unfolding day_of_week_for
day_of_week_for-suc y m d = omega arith

day_of_week_for-week : (y m d : ℕ) → day_of_week_for y m (7 + d) ≡ day_of_week_for y m d
unfolding day_of_week_for
day_of_week_for-week y m d = omega arith

pub day_of_week_for-bound : (y m d : ℕ) → day_of_week_for y m d < 7
unfolding day_of_week_for
day_of_week_for-bound y m d = omega arith

pub day_of_week_for-add :
    (y m d k : ℕ) → day_of_week_for y m (d + k) ≡ (day_of_week_for y m d + k) % 7
unfolding day_of_week_for
day_of_week_for-add y m d k = omega arith

-- The last day of a weekday in a month.
pub record IsLast (y m w r : ℕ) : Type 0 where
  pub inside : (1 ≤ r) × (r ≤ last_day_of_month y m)
  pub right : day_of_week_for y m r ≡ w
  pub none_later : last_day_of_month y m < r + 7

module _ (y m w : ℕ) where
  -- k days after the last day of the weekday.
  last_from-back :
      (last k d : ℕ)
      → k < 7
      → w < 7
      → k < d
      → day_of_week_for y m d ≡ (w + k) % 7
      → last_from y m w last d ≡ d - k
  unfolding last_from
  last_from-back last k zero small week le h = absurd (omega (arith, le))
  last_from-back last zero (suc d) small week le h = ground arith
  last_from-back last (suc k) (suc d) small week le h =
      let before : day_of_week_for y m d ≡ (w + k) % 7 =
        omega (arith, h, day_of_week_for-suc y m d, day_of_week_for-bound y m d, small, week) in
      let other : (day_of_week_for y m (suc d) == w) ≡ false = ground arith in
      rw other (
        last_from-back last k d (omega (arith, small)) week (omega (arith, le)) before
        ∙ omega arith)

  -- For each of the seven weekdays, lastWeekdayOfMonth gives the last day of the month that is that weekday.
  pub last_weekday_of_month-IsLast : w < 7 → IsLast y m w (last_weekday_of_month y m w)
  unfolding last_weekday_of_month
  last_weekday_of_month-IsLast week =
      let last = last_day_of_month y m in
      let k = (day_of_week_for y m last + 7 - w) % 7 in
      let (low, high) = last_day_of_month-bounds y m in
      let b = day_of_week_for-bound y m last in
      let e : last_from y m w last last ≡ last - k =
        last_from-back last k last (omega arith) week (omega (arith, low))
          (omega (arith, b, week)) in
      let back = day_of_week_for-add y m (last - k) k in
      let same : last - k + k ≡ last = omega (arith, low) in
      let right : day_of_week_for y m (last - k) ≡ w = omega (
        arith,
        back,
        ap (day_of_week_for y m) same,
        b,
        week,
        day_of_week_for-bound y m (last - k),
      ) in
      rw e (record {
        inside = (omega (arith, low), omega arith);
        right = right;
        none_later = omega (arith, low);
      })
