-- ===== src/Time/Calendar.antt =====
-- `Localtime` against the calendar.
use libserverkit.Base.{
  ℕ, suc, refl, ◌+◌, ◌-◌, ◌*◌, ◌/◌, ◌%◌, ◌^◌, ◌≤◌, ◌<◌, ◌≡◌, inl, inr, subst, sym, eq_of_==, ap,
  ◌∙◌, Bool, true, false, ◌==◌, ltb, Bool-cases, arith,
}
use libserverkit.Time.{
  localtime, century, day_of_century, year_of_century, day_of_year, month, days_from_unix_time,
}
use libserverkit.Time.Gregorian.{
  is_leap, leap_day, month_length, days_to_month, days_to_year, march_length, days_to_march,
  first_of_march,
}

-- The century of a day, and the day in it.
century_lem :
    (a : ℕ)
    → (a ≡ (century a * 146097) / 4 + day_of_century a)
      × (day_of_century a ≤ 36523 + century a % 4 / 3)
century_lem a = (omega arith, omega arith)

-- The year of a day of a century, and the day in it.
year_lem :
    (c q : ℕ)
    → c ≤ 36523 + q % 4 / 3
    → (c ≡ (year_of_century c * 1461) / 4 + day_of_year c)
      × (year_of_century c ≤ 99)
      × (day_of_year c ≤ 364 + year_of_century c % 4 / 3)
      × (year_of_century c ≡ 99 → day_of_year c ≤ 364 + q % 4 / 3)
year_lem c q h = (omega arith, omega arith, omega arith, λ e. omega arith)

-- A date, the month from 0 on, is valid, and is the day `x`, where the first of January of the year 0
-- is the day 1.
abbrev pub IsDate : ℕ → ℕ → ℕ → ℕ → Type 0
IsDate year mon mday x =
    (mon < 12)
    × (1 ≤ mday)
    × (mday ≤ month_length (is_leap year) mon)
    × (days_to_year year + days_to_month (is_leap year) mon + mday ≡ x)

-- The date of a day from March to December, and in the January and February that follow.
in_spring :
    (leap : Bool) (e m : ℕ)
    → m ≡ month e
    → m ≤ 9
    → let day = e + 1 - (153 * m + 2) / 5 in
      (1 ≤ day)
      × (day ≤ month_length leap (m + 2))
      × (days_to_month leap (m + 2) + day ≡ 60 + leap_day leap + e)
in_spring leap e m h k =
    (omega arith, omega (arith, march_length leap m k), omega (arith, days_to_march leap m k))

abbrev IsWinterDay : Bool → ℕ → ℕ → Type 0
IsWinterDay leap e m =
    let day = e + 1 - (153 * m + 2) / 5 in
    (1 ≤ day)
    × (day ≤ month_length leap (m - 10))
    × (m ≤ 11)
    × (days_to_month leap (m - 10) + day + 305 ≡ e)

january : (leap : Bool) (e : ℕ) → 10 ≡ month e → IsWinterDay leap e 10
january leap e h = (omega arith, omega arith, omega arith, omega arith)

february : (leap : Bool) (e : ℕ) → 11 ≡ month e → e ≤ 364 + leap_day leap → IsWinterDay leap e 11
february leap e h small = (omega arith, omega arith, omega arith, omega arith)

leap_day-small : (leap : Bool) → leap_day leap ≤ 1
leap_day-small true = omega arith
leap_day-small false = omega arith

in_winter :
    (leap : Bool) (e m : ℕ) → m ≡ month e → 10 ≤ m → e ≤ 364 + leap_day leap → IsWinterDay leap e m
in_winter leap e m h k small = elim (Bool-cases (m == 10)) [
  | inl first ↦
      let ten = eq_of_== m 10 first in
      subst (IsWinterDay leap e) (sym ten) (january leap e (sym ten ∙ h))
  | inr second ↦
      let eleven : m ≡ 11 = ground (arith, leap_day-small leap) in
      subst (IsWinterDay leap e) (sym eleven) (february leap e (sym eleven ∙ h) small)
]

-- The next year is a leap year where the year from March on has a last day more.
next_leap :
    (b d e : ℕ)
    → 48 ≤ b
    → d ≤ 99
    → e ≤ 364 + d % 4 / 3
    → (d ≡ 99 → e ≤ 364 + b % 4 / 3)
    → e ≤ 364 + leap_day (is_leap (b * 100 + d + 1 - 4800))
next_leap b d e h k p q = ground arith

-- The date that comes of a century, a year in it, and a day and a month in that year.
module _ (b d e m x : ℕ) (late : 48 ≤ b) (short : d ≤ 99) (year : 6700 ≤ b * 100 + d)
    (days : e ≤ 364 + d % 4 / 3) (last : d ≡ 99 → e ≤ 364 + b % 4 / 3) (h : m ≡ month e)
    (sum : 36524 * b + b / 4 + 365 * d + d / 4 + e ≡ x + 1753103) where
  spring-IsDate : m ≤ 9 → IsDate (b * 100 + d - 4800) (m + 2) (e + 1 - (153 * m + 2) / 5) x
  spring-IsDate k =
      let n = b * 100 + d - 4800 in
      let (low, high, day) = in_spring (is_leap n) e m h k in
      (omega arith, low, high, omega (arith, day, first_of_march b d late short))

  winter-IsDate : 10 ≤ m → IsDate (b * 100 + d + 1 - 4800) (m - 10) (e + 1 - (153 * m + 2) / 5) x
  winter-IsDate k =
      let n = b * 100 + d + 1 - 4800 in
      let small = next_leap b d e late short days last in
      let (low, high, months, day) = in_winter (is_leap n) e m h k small in
      let following : n ≡ suc (b * 100 + d - 4800) = omega arith in
      let turn : days_to_year n
          ≡ days_to_year (b * 100 + d - 4800) + (365 + leap_day (is_leap (b * 100 + d - 4800))) =
        ap days_to_year following in
      (omega arith, low, high, omega (arith, day, turn, first_of_march b d late short))

  month-IsDate :
      IsDate
        (b * 100 + d + m / 10 - 6700 + 1900)
        (m + 2 - (m / 10) * 12)
        (e + 1 - (153 * m + 2) / 5)
        x
  month-IsDate = elim (Bool-cases (ltb m 10)) [
    | inl early ↦
        moved (b * 100 + d - 4800) (m + 2) (ground arith) (ground arith)
          (spring-IsDate (ground arith))
    | inr after ↦
        moved (b * 100 + d + 1 - 4800) (m - 10) (ground arith) (ground arith)
          (winter-IsDate (ground arith))
  ]
    where
      moved :
          (y mon : ℕ)
          → y ≡ b * 100 + d + m / 10 - 6700 + 1900
          → mon ≡ m + 2 - (m / 10) * 12
          → IsDate y mon (e + 1 - (153 * m + 2) / 5) x
          → IsDate
              (b * 100 + d + m / 10 - 6700 + 1900)
              (m + 2 - (m / 10) * 12)
              (e + 1 - (153 * m + 2) / 5)
              x
      moved y mon p q date =
          subst (λ z. IsDate z (m + 2 - (m / 10) * 12) (e + 1 - (153 * m + 2) / 5) x) p
            (subst (λ z. IsDate y z (e + 1 - (153 * m + 2) / 5) x) q date)

-- A day by its parts.
parts_sum :
    (a b c d e : ℕ)
    → a ≡ (b * 146097) / 4 + c
    → c ≡ (d * 1461) / 4 + e
    → 36524 * b + b / 4 + 365 * d + d / 4 + e ≡ a
parts_sum a b c d e p q = omega arith

parts_late :
    (a b d e : ℕ)
    → 36524 * b + b / 4 + 365 * d + d / 4 + e ≡ a
    → d ≤ 99
    → e ≤ 364 + d % 4 / 3
    → 2472632 ≤ a
    → (48 ≤ b) × (6700 ≤ b * 100 + d)
parts_late a b d e p short small late = (omega arith, omega arith)

-- The hours of a time, eight hours to the east.
clock_lem :
    (t : ℕ)
    → t < 60 * 2 ^ 31
    → let i = (t / 60) % 2 ^ 32 in
      ((i / 60 + 8) / 24 ≡ (t + 28800) / 86400)
      × (((i / 60 + 8) % 24) * 3600 + (i % 60) * 60 + t % 60 ≡ (t + 28800) % 86400)
clock_lem t h = (omega arith, omega arith)

-- For a time that is not negative and below 60 * 2^31 seconds: `Localtime` gives a date that exists
-- in the Gregorian calendar, and it is the date of that time eight hours to the east, with the time of
-- the day.
pub localtime_lem :
    (t : ℕ)
    → t < 60 * 2 ^ 31
    → let r = localtime t in
      IsDate (r.tm_year + 1900) r.tm_mon r.tm_mday (days_to_year 1970 + 1 + (t + 28800) / 86400)
      × (r.tm_hour < 24)
      × (r.tm_min < 60)
      × (r.tm_sec < 60)
      × (r.tm_hour * 3600 + r.tm_min * 60 + r.tm_sec ≡ (t + 28800) % 86400)
unfolding localtime
localtime_lem t h =
    let hours = ((t / 60) % 2 ^ 32) / 60 in
    let a = (hours + 8) / 24 + days_from_unix_time in
    let b = century a in
    let c = day_of_century a in
    let d = year_of_century c in
    let e = day_of_year c in
    let (whole, small) = century_lem a in
    let (rest, short, days, last) = year_lem c b small in
    let sum = parts_sum a b c d e whole rest in
    let (late, year) = parts_late a b d e sum short days (omega arith) in
    let (day, clock) = clock_lem t h in
    (
      month-IsDate b d e (month e) (719529 + (t + 28800) / 86400) late short year days last refl
          (omega (arith, sum, day)),
      omega arith,
      omega arith,
      omega arith,
      clock,
    )
