-- ===== src/TimerThread/Stable.antt =====
-- A thread that has read the pointer goes on reading the same time while the slots are updated.
use libserverkit.Base.{
  ℕ, ◌+◌, ◌-◌, ◌%◌, ◌≤◌, ◌<◌, ◌≡◌, refl, ap, sym, ◌∙◌, ◌*◌, ◌/◌, ◌^◌, List, [], ◌∷◌, length,
  update_ne, update_self, arith,
}
use libserverkit.Time.{Tm, localtime}
use libserverkit.TimerThread.{
  TimerThread, Slot, update_time, run_timer, get_now_ms, get_now_logtime_string, time_slots,
}

module _ (print : Tm → ℕ → List ℕ) where
  -- The slot `a` is `k` updates behind the next one to be written.
  run_timer-slots :
      (nows : List (ℕ × ℕ)) (t : TimerThread) (a k : ℕ)
      → a < time_slots
      → t.index < time_slots
      → (t.index + k) % time_slots ≡ a
      → length nows < k
      → k ≤ time_slots
      → (run_timer print nows t).slots a ≡ t.slots a
  unfolding run_timer update_time
  run_timer-slots [] t a k small at gap few most = refl
  run_timer-slots (now ∷ nows) t a k small at gap few most =
      let next = update_time print now t in
      run_timer-slots nows next a (k - 1) small (omega arith) (omega arith) (omega arith)
        (omega arith)
      ∙ update_ne t.slots ((t.index + 1) % time_slots) _ a (omega arith)

  -- An update with the clock's reading, and then fewer than 64 more: what the pointers of the first
  -- lead to is still that reading's milliseconds since 1970, modulo 2^64, and the text of its date and
  -- time, whatever the later updates wrote; and before them it is what the two getters give.
  pub update_time-stays :
      (sec usec : ℕ) (nows : List (ℕ × ℕ)) (t : TimerThread)
      → t.index < time_slots
      → length nows < time_slots
      → let u = update_time print (sec, usec) t in
        let slot = (run_timer print nows u).slots u.cached in
        (slot.cached_msec ≡ (sec * 1000 + usec / 1000) % 2 ^ 64)
        × (slot.log_time_str ≡ print (localtime sec) (usec / 1000))
        × (get_now_ms u ≡ slot.cached_msec)
        × (get_now_logtime_string u ≡ slot.log_time_str)
  unfolding get_now_ms get_now_logtime_string update_time
  update_time-stays sec usec nows t at few =
      let u = update_time print (sec, usec) t in
      let same =
        run_timer-slots nows u u.cached time_slots (omega arith) (omega arith) (omega arith) few
          (omega arith) in
      let slot : Slot = record {
        sec = sec;
        msec = usec / 1000;
        cached_msec = (sec * 1000 + usec / 1000) % 2 ^ 64;
        log_time_str = print (localtime sec) (usec / 1000);
      } in
      let written = update_self t.slots ((t.index + 1) % time_slots) slot in
      (
        ap (λ (s : Slot). s.cached_msec) same ∙ ap (λ (s : Slot). s.cached_msec) written,
        ap (λ (s : Slot). s.log_time_str) same ∙ ap (λ (s : Slot). s.log_time_str) written,
        ap (λ (s : Slot). s.cached_msec) (sym same),
        ap (λ (s : Slot). s.log_time_str) (sym same),
      )
