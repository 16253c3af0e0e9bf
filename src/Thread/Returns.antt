-- ===== src/Thread/Returns.antt =====
-- `Start` returns, whatever the order of steps was so far.
use libserverkit.Base.{ℕ, false, List, [], ◌∷◌, ◌++◌, ◌≡◌, refl, arith}
use libserverkit.Thread.{
  Thread, Starting, call_start, Actor, the_starter, the_child, turn, run, main,
}
use libserverkit.Thread.Places.{phase, is_in_start}
use libserverkit.Thread.Start.{IsSound, call_start-IsSound}
use libserverkit.Thread.Sound.{run-IsSound, turn-IsSound}
use libserverkit.Thread.Stages.{
  IsBorn, IsBorn-on, phase-main_mono, starter-main, stage-few, phase-created, left-few,
  is_in_start-left, again,
}
use libserverkit.Thread.Leaving.{stage-starter_step, run_created, run_released, run_left}

-- Two turns of the starter, four of the new thread and five of the starter.
abbrev pub eleven_turns : List Actor
eleven_turns = again 2 the_starter ++ (again 4 the_child ++ again 5 the_starter)

module _ (ret tid : ℕ) where
  turn-IsBorn :
      (a : Actor) (s : Starting)
      → ret ≡ 0
      → IsSound ret tid s
      → IsBorn s.starter (phase s.child)
      → let after = turn ret tid a s in IsBorn after.starter (phase after.child)
  unfolding turn
  turn-IsBorn the_starter s z r b = (stage-starter_step ret tid s.starter s z r.lock b).1
  turn-IsBorn the_child s z r b = rw (starter-main s.child s) (
      IsBorn-on s.starter (phase s.child) (phase (main s.child s).child) (phase-main_mono s.child s)
        b)

  run-IsBorn :
      (order : List Actor) (s : Starting)
      → ret ≡ 0
      → IsSound ret tid s
      → IsBorn s.starter (phase s.child)
      → let after = run ret tid order s in IsBorn after.starter (phase after.child)
  unfolding run
  run-IsBorn [] s z r b = b
  run-IsBorn (a ∷ order) s z r b =
      run-IsBorn order (turn ret tid a s) z (turn-IsSound ret tid a s r) (turn-IsBorn a s z r b)

  run-append :
      (xs ys : List Actor) (s : Starting)
      → run ret tid (xs ++ ys) s ≡ run ret tid ys (run ret tid xs s)
  unfolding run
  run-append [] ys s = refl
  run-append (a ∷ xs) ys s = run-append xs ys (turn ret tid a s)

  settle :
      (s : Starting)
      → ret ≡ 0
      → IsSound ret tid s
      → IsBorn s.starter (phase s.child)
      → is_in_start (run ret tid eleven_turns s).starter ≡ false
  unfolding run
  settle s z r b =
      let s1 = run ret tid (again 2 the_starter) s in
      let (r1, st1, b1) = run_created ret tid 2 s z r b (stage-few s.starter) in
      let s2 = run ret tid (again 4 the_child) s1 in
      let (r2, h2) =
        run_released ret tid 4 1 s1 r1 (omega arith) (omega arith)
          (phase-created s1.starter (phase s1.child) s1.word st1 b1 r1.lock) in
      is_in_start-left (run ret tid (again 5 the_starter) s2).starter
        (run_left ret tid 5 s2 r2 h2 (left-few s2.starter (phase s2.child) s2.word h2 r2.lock))

  -- Where `pthread_create` returns 0, `Start` returns: whatever the order of steps was so far, eleven
  -- more turns, of the starter, of the new thread, and of the starter again, bring the starter out of
  -- it.
  pub start_returns :
      (order : List Actor) (t : Thread)
      → ret ≡ 0
      → is_in_start (run ret tid (order ++ eleven_turns) (call_start t)).starter ≡ false
  unfolding call_start
  start_returns order t z = rw (run-append order eleven_turns (call_start t)) (
      settle (run ret tid order (call_start t)) z
        (run-IsSound ret tid order (call_start t) (call_start-IsSound ret tid t))
        (run-IsBorn order (call_start t) z (call_start-IsSound ret tid t) tt))
