-- ===== src/TimerThread.antt =====
-- core/timer_thread.h and core/timer_thread.cc: the slots in which the time is kept for the other
-- threads. They read it through pointers that lead to the slot of the last update; a pointer is the
-- slot's index. `snprintf` is a parameter, a function from the date and the milliseconds to the text.
-- What the slots hold at first is an argument.
pub mod Stable
use libserverkit.Base.{ℕ, ◌+◌, ◌*◌, ◌/◌, ◌%◌, ◌^◌, List, [], ◌∷◌, update}
use libserverkit.Time.{Tm, localtime}

abbrev pub time_slots : ℕ
time_slots = 64

-- `cached_times_`, without the member that is never set, `cached_msecs_` and the texts
pub record Slot : Type 0 where
  pub sec : ℕ
  pub msec : ℕ
  pub cached_msec : ℕ
  pub log_time_str : List ℕ

-- `cached` stands for the three pointers, which lead to the same slot.
pub record TimerThread : Type 0 where
  pub slots : ℕ → Slot
  pub cached : ℕ
  pub index : ℕ

module _ (print : Tm → ℕ → List ℕ) where
  -- `updateTime`, where `gettimeofday` gives `sec` and `usec`
  unfoldable pub update_time : ℕ × ℕ → TimerThread → TimerThread
  update_time (sec, usec) t =
      let index = (t.index + 1) % time_slots in
      let slot : Slot = record {
        sec = sec;
        msec = usec / 1000;
        cached_msec = (sec * 1000 + usec / 1000) % 2 ^ 64;
        log_time_str = print (localtime sec) (usec / 1000);
      } in
      record { slots = update t.slots index slot; cached = index; index = index }

  -- `TimerThread()`
  unfoldable pub new_timer_thread : (ℕ → Slot) → ℕ × ℕ → TimerThread
  unfolding update_time
  new_timer_thread slots now = update_time now (record { slots = slots; cached = 0; index = 0 })

  -- The first rounds of `Run`, with the clock's readings
  unfoldable pub run_timer : List (ℕ × ℕ) → TimerThread → TimerThread
  unfolding update_time
  run_timer [] t = t
  run_timer (now ∷ more) t = run_timer more (update_time now t)

-- `GetNowMs` and `GetNowLogtimeString`
unfoldable pub get_now_ms : TimerThread → ℕ
get_now_ms t = (t.slots t.cached).cached_msec

unfoldable pub get_now_logtime_string : TimerThread → List ℕ
get_now_logtime_string t = (t.slots t.cached).log_time_str
