-- ===== src/SpinLock.antt =====
-- base/spin_lock.h and base/spin_lock.cc: a lock of one word, by the steps of a thread that takes it.
-- A step makes at most one access to the word, and the threads take their steps in any order. That
-- the word's accesses are atomic is what `std::atomic_int` promises.
pub mod Owner
pub mod Progress
use libserverkit.Base.{ℕ, ◌+◌, Bool, true, false, List, [], ◌∷◌, update, ltb, if◌then◌else◌}

abbrev pub yield_processor_tries : ℕ
yield_processor_tries = 1000

abbrev pub yield_thread_tries : ℕ
yield_thread_tries = 10

-- Where a thread stands inside `lockSlow`, with the local variables that are live there.
pub data Slow : Type 0 where
  -- the head of the `for` loop
  pausing : (count yields : ℕ) → Slow
  -- between the load that saw the lock free and the exchange
  trying : (count yields : ℕ) → Slow
  -- behind the `for` loop
  resting : (yields : ℕ) → Slow
  -- the test of the inner `while`
  reloading : (yields : ℕ) → Slow
  -- the test of the outer `while`
  retrying : (yields : ℕ) → Slow

pub data Pc : Type 0 where
  outside : Pc
  -- the exchange in `Lock`
  fast : Pc
  slow : Slow → Pc
  -- between the return of `Lock` and the store of `UnLock`
  holding : Pc

-- A step: the word afterwards and where the thread stands. `exchange(true)` leaves true in any case.
abbrev pub exchanged : Bool → Pc → Bool × Pc
exchanged word busy = (true, if word then busy else holding)

-- `lockSlow`
unfoldable pub lock_slow : Bool → Slow → Bool × Pc
lock_slow word (pausing count yields) =
    if ltb count yield_processor_tries
    then (word, slow (if word then pausing (count + 1) yields else trying count yields))
    else (word, slow (resting yields))
lock_slow word (trying count yields) = exchanged word (slow (pausing (count + 1) yields))
lock_slow word (resting yields) =
    (word, slow (reloading (if ltb yields yield_thread_tries then yields + 1 else yields)))
lock_slow word (reloading yields) =
    (word, slow (if word then pausing 0 yields else retrying yields))
lock_slow word (retrying yields) = exchanged word (slow (pausing 0 yields))

-- `Lock`
unfoldable pub lock_fast : Bool → Bool × Pc
lock_fast word = exchanged word (slow (pausing 0 0))

-- `UnLock`
unfoldable pub un_lock : Bool × Pc
un_lock = (false, outside)

-- A thread locks, and unlocks what it has locked.
unfoldable pub step : Bool → Pc → Bool × Pc
unfolding lock_slow lock_fast un_lock
step word outside = (word, fast)
step word fast = lock_fast word
step word (slow p) = lock_slow word p
step word holding = un_lock

-- The word, and where each thread stands.
pub record Threads : Type 0 where
  pub word : Bool
  pub pc : ℕ → Pc

unfoldable pub new_lock : Threads
new_lock = record { word = false; pc = λ i. outside }

unfoldable pub turn : ℕ → Threads → Threads
unfolding step
turn i s = let (word, p) = step s.word (s.pc i) in record { word = word; pc = update s.pc i p }

-- The threads' turns, in the order of the list.
unfoldable pub run : List ℕ → Threads → Threads
unfolding turn
run [] s = s
run (i ∷ is) s = run is (turn i s)
