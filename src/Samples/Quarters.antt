-- ===== src/Samples/Quarters.antt =====
-- A quarterly plan that starts in February.
use campo_sig.Common.{ℕ, ◌+◌, ◌*◌, none, arith, true, false, ◌≡◌, refl}
use campo_sig.Plans.Periods.{quarterly, Date, is_due}
use campo_sig.Plans.Months.{OneMonth, is_due-OneMonth}

abbrev start : Date
start = record { year = 2026; month = 2; day = 5 }

abbrev in_june : Date
in_june = record { year = 2026; month = 6; day = 17 }

-- Any count of days that orders the dates serves here.
abbrev ordinal : Date → ℕ
ordinal d = d.year * 372 + d.month * 31 + d.day

is_due-OneMonth_example : OneMonth ordinal quarterly none 5 in_june start
is_due-OneMonth_example =
    is_due-OneMonth ordinal quarterly none 5 in_june start (λ h. cc) (omega arith, omega arith)
      (omega arith, omega arith)

due_in_may : is_due quarterly 5 (record { year = 2026; month = 5; day = 6 }) start ≡ true
unfolding is_due
due_in_may = refl

not_due_in_june : is_due quarterly 5 in_june start ≡ false
unfolding is_due
not_due_in_june = refl
