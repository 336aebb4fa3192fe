-- ===== src/Plans/Months.antt =====
-- In which month a calendar plan is due, by backend/app/plans/periods.py.
use campo_sig.Common.{
  ℕ, ◌+◌, ◌-◌, ◌*◌, ◌/◌, ◌%◌, ◌≤◌, ◌≡◌, ◌≢◌, refl, ap, arith, true, false, Option, ==_iff,
}
use campo_sig.Plans.Periods.{
  Cadence, monthly, quarterly, semiannual, annual, custom_days, Date, months, month_of, quarter_of,
  half_of, is_before, period_of, period_start_month, is_start_month, is_due,
}

abbrev pub IsMonth : ℕ → Type 0
IsMonth m = (1 ≤ m) × (m ≤ 12)

-- The month in which the period of a date starts for a plan with this anchor.
abbrev pub due_month : ℕ → ℕ → ℕ → ℕ
due_month span anchor_month m = (m - 1) / span * span + (anchor_month - 1) % span + 1

quarter_month :
    (on anchor : Date)
    → IsMonth on.month
    → IsMonth anchor.month
    → is_start_month 3 on anchor ≡ true
    → on.month ≡ due_month 3 anchor.month on.month
unfolding is_start_month period_start_month
quarter_month on anchor m a h =
    omega (
      arith,
      m.0,
      m.1,
      a.0,
      a.1,
      (==_iff ((on.month + 3 - ((anchor.month - 1) % 3 + 1)) % 3) 0).0 h,
    )

half_month :
    (on anchor : Date)
    → IsMonth on.month
    → IsMonth anchor.month
    → is_start_month 6 on anchor ≡ true
    → on.month ≡ due_month 6 anchor.month on.month
unfolding is_start_month period_start_month
half_month on anchor m a h =
    omega (
      arith,
      m.0,
      m.1,
      a.0,
      a.1,
      (==_iff ((on.month + 6 - ((anchor.month - 1) % 6 + 1)) % 6) 0).0 h,
    )

year_month :
    (on anchor : Date)
    → IsMonth on.month
    → IsMonth anchor.month
    → is_start_month 12 on anchor ≡ true
    → on.month ≡ due_month 12 anchor.month on.month
unfolding is_start_month period_start_month
year_month on anchor m a h = omega (
  arith,
  m.0,
  m.1,
  a.0,
  a.1,
  (==_iff ((on.month + 12 - ((anchor.month - 1) % 12 + 1)) % 12) 0).0 h,
)

is_due-start :
    (cadence : Cadence) (day_of_month : ℕ) (on anchor : Date)
    → cadence ≢ custom_days
    → is_due cadence day_of_month on anchor ≡ true
    → is_start_month (months cadence) on anchor ≡ true
unfolding is_due
is_due-start monthly day_of_month on anchor other h = ground arith
is_due-start quarterly day_of_month on anchor other h = ground arith
is_due-start semiannual day_of_month on anchor other h = ground arith
is_due-start annual day_of_month on anchor other h = ground arith
is_due-start custom_days day_of_month on anchor other h = absurd (other refl)

month_label :
    (ordinal : Date → ℕ) (cadence : Cadence) (days : Option ℕ) (on at anchor : Date)
    → cadence ≢ custom_days
    → IsMonth on.month
    → IsMonth at.month
    → IsMonth anchor.month
    → is_start_month (months cadence) at anchor ≡ true
    → period_of ordinal cadence days at anchor ≡ period_of ordinal cadence days on anchor
    → (at.year ≡ on.year) × (at.month ≡ due_month (months cadence) anchor.month on.month)
unfolding period_of months
month_label ordinal monthly days on at anchor other m n a h e =
    let year : at.year ≡ on.year = cc in
    let month : at.month ≡ on.month = cc in (year, omega (arith, month, m.0, m.1))
month_label ordinal quarterly days on at anchor other m n a h e =
    let year : at.year ≡ on.year = cc in
    let part : (at.month - 1) / 3 + 1 ≡ (on.month - 1) / 3 + 1 = cc in
    (year, omega (arith, part, quarter_month at anchor n a h))
month_label ordinal semiannual days on at anchor other m n a h e =
    let year : at.year ≡ on.year = cc in
    let part : (at.month - 1) / 6 + 1 ≡ (on.month - 1) / 6 + 1 = cc in
    (year, omega (arith, part, half_month at anchor n a h))
month_label ordinal annual days on at anchor other m n a h e =
    let year : at.year ≡ on.year = cc in
    (year, omega (arith, m.0, m.1, n.0, n.1, year_month at anchor n a h))
month_label ordinal custom_days days on at anchor other m n a h e = absurd (other refl)

-- The date of that month with a day.
abbrev pub due_date : Cadence → Date → Date → ℕ → Date
due_date cadence on anchor day = record {
  year = on.year;
  month = due_month (months cadence) anchor.month on.month;
  day = day;
}

due_label :
    (ordinal : Date → ℕ) (cadence : Cadence) (days : Option ℕ) (on anchor : Date) (day : ℕ)
    → cadence ≢ custom_days
    → IsMonth on.month
    → IsMonth anchor.month
    → period_of ordinal cadence days (due_date cadence on anchor day) anchor
      ≡ period_of ordinal cadence days on anchor
unfolding period_of months
due_label ordinal monthly days on anchor day other m a =
    ap (λ n. month_of on.year n) (omega (arith, m.0))
due_label ordinal quarterly days on anchor day other m a =
    ap (λ n. quarter_of on.year n) (omega (arith, m.0, m.1, a.0, a.1))
due_label ordinal semiannual days on anchor day other m a =
    ap (λ n. half_of on.year n) (omega (arith, m.0, m.1, a.0, a.1))
due_label ordinal annual days on anchor day other m a = refl
due_label ordinal custom_days days on anchor day other m a = absurd (other refl)

due_date-start :
    (cadence : Cadence) (on anchor : Date) (day : ℕ)
    → IsMonth on.month
    → IsMonth anchor.month
    → is_start_month (months cadence) (due_date cadence on anchor day) anchor ≡ true
unfolding is_start_month period_start_month months
due_date-start monthly on anchor day m a = ground (arith, m, a)
due_date-start quarterly on anchor day m a = ground (arith, m, a)
due_date-start semiannual on anchor day m a = ground (arith, m, a)
due_date-start annual on anchor day m a = ground (arith, m, a)
due_date-start custom_days on anchor day m a = ground (arith, m, a)

is_due-late :
    (cadence : Cadence) (day_of_month : ℕ) (at anchor : Date)
    → is_before at anchor ≡ false
    → 28 ≤ at.day
    → is_start_month (months cadence) at anchor ≡ true
    → is_due cadence day_of_month at anchor ≡ true
unfolding is_due
is_due-late monthly day_of_month at anchor after late h = ground arith
is_due-late quarterly day_of_month at anchor after late h = ground arith
is_due-late semiannual day_of_month at anchor after late h = ground arith
is_due-late annual day_of_month at anchor after late h = ground arith
is_due-late custom_days day_of_month at anchor after late h = ground arith

-- The month of a period in which the plan issues its orders.
pub record OneMonth (ordinal : Date → ℕ) (cadence : Cadence) (days : Option ℕ) (day_of_month : ℕ)
    (on anchor : Date) : Type 0 where
  pub comes :
      (day : ℕ)
      → 28 ≤ day
      → is_before (due_date cadence on anchor day) anchor ≡ false
      → (is_due cadence day_of_month (due_date cadence on anchor day) anchor ≡ true)
        × (period_of ordinal cadence days (due_date cadence on anchor day) anchor
            ≡ period_of ordinal cadence days on anchor)
  pub only :
      (at : Date)
      → IsMonth at.month
      → is_due cadence day_of_month at anchor ≡ true
      → period_of ordinal cadence days at anchor ≡ period_of ordinal cadence days on anchor
      → (at.year ≡ on.year) × (at.month ≡ (due_date cadence on anchor at.day).month)

-- For a calendar cadence and months from 1 to 12: each period has one month in which the plan is due.
-- From the 28th of that month on, and unless the plan starts later, it is due; and on every date of
-- the same label on which it is due, the month is that one.
pub is_due-OneMonth :
    (ordinal : Date → ℕ) (cadence : Cadence) (days : Option ℕ) (day_of_month : ℕ) (on anchor : Date)
    → cadence ≢ custom_days
    → IsMonth on.month
    → IsMonth anchor.month
    → OneMonth ordinal cadence days day_of_month on anchor
is_due-OneMonth ordinal cadence days day_of_month on anchor calendar m a = record {
  comes = λ day late after. (
    is_due-late cadence day_of_month (due_date cadence on anchor day) anchor after late
        (due_date-start cadence on anchor day m a),
    due_label ordinal cadence days on anchor day calendar m a,
  );
  only = λ at n due same.
      month_label ordinal cadence days on at anchor calendar m n a
        (is_due-start cadence day_of_month at anchor calendar due) same;
}
