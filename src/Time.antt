-- ===== src/Time.antt =====
-- util/time.cc: `MakeTimespec` and `Localtime`. The clock's reading is an argument.
pub mod Gregorian
pub mod Calendar
pub mod Clock
use libserverkit.Base.{
  ℕ, suc, ◌+◌, ◌-◌, ◌*◌, ◌/◌, ◌%◌, ◌^◌, Bool, true, false, ltb, leb, if◌then◌else◌,
}

pub record Timespec : Type 0 where
  pub tv_sec : ℕ
  pub tv_nsec : ℕ

-- An `int64_t` is its 64 bits; a negative one has the highest bit set.
abbrev pub not_negative : ℕ → ℕ
not_negative ms = if leb (2 ^ 63) ms then 0 else ms

-- `MakeTimespec`, where `gettimeofday` gives `sec` and `usec`.
unfoldable pub make_timespec : ℕ → ℕ → ℕ → Timespec
make_timespec sec usec ms₀ =
    let ms = not_negative ms₀ in
    let nsec = usec * 1000 + (ms % 1000) * 1000000 in
    let whole = sec + ms / 1000 in
    if leb 1000000000 nsec
    then record { tv_sec = whole + 1; tv_nsec = nsec - 1000000000 }
    else record { tv_sec = whole; tv_nsec = nsec }

-- The fields of `struct tm` that are set.
pub record Tm : Type 0 where
  pub tm_sec : ℕ
  pub tm_min : ℕ
  pub tm_hour : ℕ
  pub tm_mday : ℕ
  pub tm_mon : ℕ
  pub tm_year : ℕ

-- The variables of `Localtime` between its days and its result: the century, the days in it, the year
-- in it, the days in the year, and the month, from March on.
abbrev pub days_from_unix_time : ℕ
days_from_unix_time = 2472632

abbrev pub century : ℕ → ℕ
century a = (a * 4 + 3) / 146097

abbrev pub day_of_century : ℕ → ℕ
day_of_century a = a - (century a * 146097) / 4

abbrev pub year_of_century : ℕ → ℕ
year_of_century c = (c * 4 + 3) / 1461

abbrev pub day_of_year : ℕ → ℕ
day_of_year c = c - (year_of_century c * 1461) / 4

abbrev pub month : ℕ → ℕ
month e = (5 * e + 2) / 153

-- `Localtime`, of a time that is not negative and whose minutes fit into an `int`. The division of C
-- rounds towards 0, so that `(-x) / 4` is `-(x / 4)`; where the source adds such a number the model
-- subtracts.
unfoldable pub localtime : ℕ → Tm
localtime unix_sec =
    let i = (unix_sec / 60) % 2 ^ 32 in
    let hours = i / 60 in
    let a = (hours + 8) / 24 + days_from_unix_time in
    let b = century a in
    let c = day_of_century a in
    let d = year_of_century c in
    let e = day_of_year c in
    let m = month e in
    record {
      tm_sec = unix_sec % 60;
      tm_min = i % 60;
      tm_hour = (hours + 8) % 24;
      tm_mday = e + 1 - (153 * m + 2) / 5;
      tm_mon = m + 2 - (m / 10) * 12;
      tm_year = b * 100 + d + m / 10 - 6700;
    }
