-- ===== src/Time/Clock.antt =====
-- `MakeTimespec` adds milliseconds to the clock's reading.
use libserverkit.Base.{ℕ, ◌+◌, ◌*◌, ◌%◌, ◌<◌, ◌≡◌, inl, inr, leb, Bool-cases, arith}
use libserverkit.Time.{make_timespec, not_negative}

-- For a clock whose microseconds are below one million: the nanoseconds of the result are below 10^9,
-- and the result is the clock's reading and the milliseconds, a negative number of them taken for 0.
pub make_timespec_lem :
    (sec usec ms : ℕ)
    → usec < 1000000
    → let t = make_timespec sec usec ms in
      (t.tv_nsec < 1000000000)
      × (t.tv_sec * 1000000000 + t.tv_nsec
          ≡ sec * 1000000000 + usec * 1000 + not_negative ms * 1000000)
unfolding make_timespec
make_timespec_lem sec usec ms h =
    elim (Bool-cases (leb 1000000000 (usec * 1000 + (not_negative ms % 1000) * 1000000))) [
      | inl carry ↦ rw carry (ground arith, ground arith)
      | inr small ↦ rw small (ground arith, ground arith)
    ]
