-- ===== src/Tests/Time.antt =====
-- A time in November 2023, and a reading of the clock.
use libserverkit.Base.{ℕ, ◌+◌, ◌*◌, ◌/◌, ◌%◌, ◌^◌, ◌<◌, ◌≡◌, refl, List, [], ◌∷◌, arith}
use libserverkit.Time.{Tm, localtime}
use libserverkit.Time.Calendar.{IsDate, localtime_lem}
use libserverkit.Time.Gregorian.{days_to_year}
use libserverkit.TimerThread.{
  TimerThread, new_timer_thread, update_time, run_timer, get_now_ms, get_now_logtime_string,
  time_slots,
}
use libserverkit.TimerThread.Stable.{update_time-stays}

-- The 15th of November 2023, 6:13:20, eight hours to the east
localtime_run :
    localtime 1700000000
    ≡ record { tm_sec = 20; tm_min = 13; tm_hour = 6; tm_mday = 15; tm_mon = 10; tm_year = 123 }
unfolding localtime
localtime_run = refl

localtime_lem_example :
    let r = localtime 1700000000 in
    IsDate
      (r.tm_year + 1900)
      r.tm_mon
      r.tm_mday
      (days_to_year 1970 + 1 + (1700000000 + 28800) / 86400)
    × (r.tm_hour < 24)
    × (r.tm_min < 60)
    × (r.tm_sec < 60)
    × (r.tm_hour * 3600 + r.tm_min * 60 + r.tm_sec ≡ (1700000000 + 28800) % 86400)
localtime_lem_example = localtime_lem 1700000000 (omega arith)

-- The text is the hour, the minute, the second and the milliseconds.
abbrev clock_text : Tm → ℕ → List ℕ
clock_text tm msec = tm.tm_hour ∷ tm.tm_min ∷ tm.tm_sec ∷ msec ∷ []

abbrev started : TimerThread
started =
    new_timer_thread clock_text
      (λ a. record { sec = 0; msec = 0; cached_msec = 0; log_time_str = [] }) (1700000000, 5000)

started_index : started.index < time_slots
unfolding new_timer_thread
started_index = omega arith

update_time-stays_example :
    let u = update_time clock_text (1700000001, 250000) started in
    let slot = (run_timer clock_text ((1700000002, 0) ∷ (1700000003, 0) ∷ []) u).slots u.cached in
    (slot.cached_msec ≡ (1700000001 * 1000 + 250000 / 1000) % 2 ^ 64)
    × (slot.log_time_str ≡ clock_text (localtime 1700000001) (250000 / 1000))
    × (get_now_ms u ≡ slot.cached_msec)
    × (get_now_logtime_string u ≡ slot.log_time_str)
update_time-stays_example =
    update_time-stays clock_text 1700000001 250000 ((1700000002, 0) ∷ (1700000003, 0) ∷ []) started
      started_index (omega arith)
