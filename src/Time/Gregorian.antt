-- ===== src/Time/Gregorian.antt =====
-- The Gregorian calendar, by which `Localtime` of util/time.cc is judged.
use libserverkit.Base.{
  ℕ, zero, suc, ◌+◌, ◌-◌, ◌*◌, ◌/◌, ◌%◌, ◌≤◌, ◌≡◌, ap, ◌∙◌, Bool, ◌==◌, ◌&&◌, ◌||◌, not,
  if◌then◌else◌, arith,
}

abbrev pub is_leap : ℕ → Bool
is_leap y = (y % 4 == 0) && (not (y % 100 == 0) || (y % 400 == 0))

abbrev pub leap_day : Bool → ℕ
leap_day leap = if leap then 1 else 0

-- The days of a month, from January, which is 0.
abbrev pub month_length : Bool → ℕ → ℕ
month_length leap m =
    if m == 1
    then 28 + leap_day leap
    else if (m == 3) || ((m == 5) || ((m == 8) || (m == 10)))
    then 30
    else 31

-- The days of a year before a month, and those before a year from the year 0 on.
abbrev pub days_to_month : Bool → ℕ → ℕ
days_to_month leap zero = 0
days_to_month leap (suc m) = days_to_month leap m + month_length leap m

abbrev pub days_to_year : ℕ → ℕ
days_to_year zero = 0
days_to_year (suc y) = days_to_year y + (365 + leap_day (is_leap y))

days_to_year_lem :
    (y : ℕ) → days_to_year y + (y + 99) / 100 ≡ 365 * y + (y + 3) / 4 + (y + 399) / 400
days_to_year_lem zero = omega arith
days_to_year_lem (suc y) = ground (arith, days_to_year_lem y)

-- From March on the months are as `Localtime` counts them.
pub march_length :
    (leap : Bool) (m : ℕ)
    → m ≤ 9
    → month_length leap (m + 2) + (153 * m + 2) / 5 ≡ (153 * (m + 1) + 2) / 5
march_length leap m h = ground arith

pub days_to_march :
    (leap : Bool) (m : ℕ)
    → m ≤ 9
    → days_to_month leap (m + 2) ≡ 59 + leap_day leap + (153 * m + 2) / 5
days_to_march leap zero h = ground arith
days_to_march leap (suc m) h =
    let next : suc m + 2 ≡ suc (m + 2) = omega arith in
    ap (days_to_month leap) next
    ∙ omega (arith, days_to_march leap m (omega arith), march_length leap m (omega arith))

march_of_year :
    (n : ℕ) → days_to_year n + leap_day (is_leap n) + n / 100 ≡ 365 * n + n / 4 + n / 400 + 1
march_of_year n = ground (arith, days_to_year_lem n)

-- The first of March of a year that has the number `d` in its century.
pub first_of_march :
    (b d : ℕ)
    → 48 ≤ b
    → d ≤ 99
    → let n = b * 100 + d - 4800 in
      days_to_year n + leap_day (is_leap n) + 1753163 ≡ 36524 * b + b / 4 + 365 * d + d / 4
first_of_march b d h k = omega (arith, march_of_year (b * 100 + d - 4800))
