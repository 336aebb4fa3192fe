-- ===== src/Plans/Periods.antt =====
-- backend/app/plans/periods.py. `ordinal` is `date.toordinal`. A label is kept as what it prints: the
-- day, the year with the month, the quarter or the half, or the year.
use campo_sig.Common.{
  ℕ, ◌+◌, ◌-◌, ◌*◌, ◌/◌, ◌%◌, Bool, true, false, ◌&&◌, ◌||◌, Option, none, some, min, ◌==◌, ltb,
  leb, if◌then◌else◌,
}

pub data Cadence : Type 0 where
  monthly quarterly semiannual annual custom_days : Cadence

pub record Date : Type 0 where
  pub year : ℕ
  pub month : ℕ
  pub day : ℕ

abbrev pub max_day_of_month : ℕ
max_day_of_month = 28

-- `MONTHS.get(cadence, 1)`
unfoldable pub months : Cadence → ℕ
months monthly = 1
months quarterly = 3
months semiannual = 6
months annual = 12
months custom_days = 1

pub data Period : Type 0 where
  from_day : ℕ → Period
  month_of quarter_of half_of : (year part : ℕ) → Period
  year_of : ℕ → Period

-- `cadence_days or 1`
abbrev pub days_or_one : Option ℕ → ℕ
days_or_one none = 1
days_or_one (some n) = if n == 0 then 1 else n

abbrev pub is_before : Date → Date → Bool
is_before a b =
    ltb a.year b.year
    || (a.year == b.year && (ltb a.month b.month || (a.month == b.month && ltb a.day b.day)))

module _ (ordinal : Date → ℕ) where
  -- Before the anchor no days have passed, here and in the code.
  unfoldable pub start_of : ℕ → Date → Date → ℕ
  start_of days on anchor = ordinal anchor + (ordinal on - ordinal anchor) / days * days

  unfoldable pub period_of : Cadence → Option ℕ → Date → Date → Period
  unfolding start_of
  period_of custom_days cadence_days on anchor =
      from_day (start_of (days_or_one cadence_days) on anchor)
  period_of monthly cadence_days on anchor = month_of on.year on.month
  period_of quarterly cadence_days on anchor = quarter_of on.year ((on.month - 1) / 3 + 1)
  period_of semiannual cadence_days on anchor = half_of on.year ((on.month - 1) / 6 + 1)
  period_of annual cadence_days on anchor = year_of on.year

-- `_period_start_month`
unfoldable pub period_start_month : ℕ → ℕ → ℕ
period_start_month span anchor_month = (anchor_month - 1) % span + 1

-- The start month is at most `span`, so that adding it keeps the difference of the code, whose
-- remainder is not negative.
unfoldable pub is_start_month : ℕ → Date → Date → Bool
unfolding period_start_month
is_start_month span on anchor = (on.month + span - period_start_month span anchor.month) % span == 0

unfoldable pub is_due_in : Cadence → ℕ → Date → Date → Bool
unfolding is_start_month months
is_due_in custom_days day_of_month on anchor = true
is_due_in cadence day_of_month on anchor =
    is_start_month (months cadence) on anchor && leb (min day_of_month max_day_of_month) on.day

unfoldable pub is_due : Cadence → ℕ → Date → Date → Bool
unfolding is_due_in
is_due cadence day_of_month on anchor =
    if is_before on anchor then false else is_due_in cadence day_of_month on anchor
