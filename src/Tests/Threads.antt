-- ===== src/Tests/Threads.antt =====
-- Two threads at one lock, and a thread that is started and joined.
use libserverkit.Base.{ℕ, true, false, Option, none, some, List, [], ◌∷◌, ◌++◌, ◌≡◌, refl, arith}
use libserverkit.SpinLock.{new_lock, run, step, lock_fast, un_lock}
use libserverkit.SpinLock.Owner.{History, Rep, run-refines}
use libserverkit.Thread
use libserverkit.Thread.{
  Thread, new_thread, call_start, is_running, started, joined, ended, thread_stopped, Actor,
  the_starter, the_child, Starting,
}
use libserverkit.Thread.Places.{is_in_start}
use libserverkit.Thread.Join.{frame_safe, started_running, joined_ended, failed_start}
use libserverkit.Thread.Returns.{start_returns, eleven_turns}

-- Thread 0 takes the lock while thread 1 waits.
abbrev contended : List ℕ
contended = 0 ∷ 1 ∷ 0 ∷ 1 ∷ 1 ∷ 1 ∷ []

run-refines_example : (o : Option ℕ) × History contended none o × Rep (run contended new_lock) o
run-refines_example = run-refines contended

abbrev worker_1 : Thread
worker_1 = new_thread (119 ∷ 49 ∷ []) (some 7)

-- `Start` up to its return; and `Join` behind it, which waits for the new thread.
abbrev start_order : List Actor
start_order =
    the_starter ∷ the_starter ∷ the_child ∷ the_child ∷ the_child ∷ the_child ∷ the_starter
    ∷ the_starter ∷ []

abbrev join_order : List Actor
join_order = start_order ++ the_starter ∷ the_starter ∷ the_child ∷ the_starter ∷ []

abbrev after : List Actor → Starting
after order = Thread.run 0 33 order (call_start worker_1)

frame_safe_example : (after join_order).is_lost ≡ false
frame_safe_example = frame_safe 0 33 join_order worker_1

is_started : (after start_order).starter ≡ started
unfolding Thread.run Thread.turn Thread.starter_step Thread.start Thread.create Thread.main
    call_start new_thread step lock_fast un_lock
is_started = refl

started_running_example :
    (◌≡◌ {A = ℕ} 0 0)
    × (is_running (after start_order).thread ≡ true)
    × ((after start_order).thread.tid ≡ 33)
    × ((after start_order).info.name ≡ (after start_order).thread.name)
started_running_example = started_running 0 33 start_order worker_1 is_started

is_joined : (after join_order).starter ≡ joined
unfolding Thread.run Thread.turn Thread.starter_step Thread.start Thread.create Thread.main
    Thread.join Thread.pthread_joined call_start new_thread step lock_fast un_lock
is_joined = refl

joined_ended_example :
    ((after join_order).child ≡ ended)
    × ((after join_order).thread.state ≡ thread_stopped)
    × ((after join_order).thread.tid ≡ 0)
    × ((after join_order).called ≡ (after join_order).thread.callback ∷ [])
joined_ended_example = joined_ended 0 33 join_order worker_1 (omega arith) is_joined

-- `EAGAIN`
failed_start_example :
    is_in_start (Thread.run 11 0 (join_order ++ join_order) (call_start worker_1)).starter ≡ true
failed_start_example = failed_start 11 0 (join_order ++ join_order) worker_1 (omega arith)

start_returns_example :
    is_in_start (Thread.run 0 33 (start_order ++ eleven_turns) (call_start worker_1)).starter
    ≡ false
start_returns_example = start_returns 0 33 start_order worker_1 refl
