-- ===== src/Thread/Leaving.antt =====
-- What the turns of the starter and of the new thread do to how far they are.
use libserverkit.Base.{
  ℕ, zero, suc, ◌+◌, ◌-◌, ◌≤◌, true, ◌≡◌, inl, inr, refl, arith, Bool-cases, ◌==◌,
}
use libserverkit.SpinLock
use libserverkit.SpinLock.{Pc, outside, fast, slow, holding}
use libserverkit.Thread.{
  Starter, first, second, started, joining, joined, Starting, the_starter, the_child, turn, run,
  start, create, starter_step, join,
}
use libserverkit.Thread.Places.{phase, Agrees}
use libserverkit.Thread.Start.{IsSound}
use libserverkit.Thread.Sound.{turn-IsSound}
use libserverkit.Thread.Stages.{
  left, is_free, left-second, left-joining, left-if, child-joined, IsBorn, stage, stage-exchanged,
  stage-joined, phase-main, again,
}

module _ (ret tid : ℕ) where
  -- A turn of the starter behind the release.
  pub left-starter_step :
      (st : Starter) (s : Starting)
      → 5 ≤ phase s.child
      → Agrees st (phase s.child) s.word
      → left (starter_step ret tid st (record s { starter = st })).starter ≤ left st - 1
  unfolding starter_step start SpinLock.step join
  left-starter_step (first fast) s h a = ground arith
  left-starter_step (first holding) s h a = ground arith
  left-starter_step (first (slow p)) s h a = absurd a
  left-starter_step (first outside) s h a = absurd a
  left-starter_step (second outside) s h a = absurd a
  left-starter_step (second fast) s h a =
      left-second fast s.word (is_free fast (phase s.child) s.word refl h a) refl
  left-starter_step (second (slow p)) s h a =
      left-second (slow p) s.word (is_free (slow p) (phase s.child) s.word refl h a) refl
  left-starter_step (second holding) s h a = omega arith
  left-starter_step started s h a = omega (arith, left-if (s.thread.tid == 0))
  left-starter_step joining s h a = omega (arith, left-joining s.child s)
  left-starter_step joined s h a = omega arith

  -- Once there is a new thread, the starter's turns leave it alone.
  pub child-start : (p : Pc) (s : Starting) → (start ret tid p true s).child ≡ s.child
  unfolding start
  child-start outside s = refl
  child-start fast s = refl
  child-start (slow p) s = refl
  child-start holding s = refl

  pub child-starter_step :
      (st : Starter) (s : Starting)
      → 1 ≤ phase s.child
      → Agrees st (phase s.child) s.word
      → (starter_step ret tid st (record s { starter = st })).child ≡ s.child
  unfolding starter_step join
  child-starter_step (first fast) s h a = ground arith
  child-starter_step (first holding) s h a = ground arith
  child-starter_step (first (slow p)) s h a = absurd a
  child-starter_step (first outside) s h a = absurd a
  child-starter_step (second p) s h a = child-start p (record s { starter = second p })
  child-starter_step started s h a = refl
  child-starter_step joining s h a = child-joined s.child s
  child-starter_step joined s h a = refl

  pub stage-starter_step :
      (st : Starter) (s : Starting)
      → ret ≡ 0
      → Agrees st (phase s.child) s.word
      → IsBorn st (phase s.child)
      → let after = starter_step ret tid st (record s { starter = st }) in
        (stage after.starter ≤ stage st - 1) × IsBorn after.starter (phase after.child)
  unfolding starter_step start create join SpinLock.step SpinLock.lock_fast
  stage-starter_step (first fast) s z a b = (stage-exchanged s.word, tt)
  stage-starter_step (first holding) s z a b = rw (z, create) (omega arith, omega arith)
  stage-starter_step (first (slow p)) s z a b = absurd a
  stage-starter_step (first outside) s z a b = absurd a
  stage-starter_step (second outside) s z a b = absurd a
  stage-starter_step (second fast) s z a b = (omega arith, b)
  stage-starter_step (second (slow p)) s z a b = (omega arith, b)
  stage-starter_step (second holding) s z a b = (omega arith, tt)
  stage-starter_step started s z a b = elim (Bool-cases (s.thread.tid == 0)) [
    | inl e ↦ rw e (omega arith, tt)
    | inr e ↦ rw e (omega arith, tt)
  ]
  stage-starter_step joining s z a b = stage-joined s.child s
  stage-starter_step joined s z a b = (omega arith, tt)

  -- The starter's turns up to `pthread_create`.
  pub run_created :
      (n : ℕ) (s : Starting)
      → ret ≡ 0
      → IsSound ret tid s
      → IsBorn s.starter (phase s.child)
      → stage s.starter ≤ n
      → let after = run ret tid (again n the_starter) s in
        IsSound ret tid after × (stage after.starter ≡ 0) × IsBorn after.starter (phase after.child)
  unfolding run turn
  run_created zero s z r b h = (r, omega (arith, h), b)
  run_created (suc n) s z r b h =
      let next = stage-starter_step s.starter s z r.lock b in
      run_created n (turn ret tid the_starter s) z (turn-IsSound ret tid the_starter s r) next.1
        (omega (arith, next.0, h))

  -- The new thread's turns up to its release of the lock.
  pub run_released :
      (n k : ℕ) (s : Starting)
      → IsSound ret tid s
      → 1 ≤ k
      → n + k ≡ 5
      → k ≤ phase s.child
      → let after = run ret tid (again n the_child) s in
        IsSound ret tid after × (5 ≤ phase after.child)
  unfolding run turn
  run_released zero k s r l e h = (r, omega (arith, h))
  run_released (suc n) k s r l e h =
      run_released n (k + 1) (turn ret tid the_child s) (turn-IsSound ret tid the_child s r)
        (omega arith) (omega arith)
        (phase-main (k + 1) s.child s (omega arith) (omega (arith, h)) (omega (arith, h)))

  -- The starter's turns up to its return.
  pub run_left :
      (n : ℕ) (s : Starting)
      → IsSound ret tid s
      → 5 ≤ phase s.child
      → left s.starter ≤ n
      → left (run ret tid (again n the_starter) s).starter ≡ 0
  unfolding run turn
  run_left zero s r h l = omega (arith, l)
  run_left (suc n) s r h l =
      run_left n (turn ret tid the_starter s) (turn-IsSound ret tid the_starter s r)
        (rw (child-starter_step s.starter s (omega (arith, h)) r.lock) h)
        (omega (arith, l, left-starter_step s.starter s h r.lock))
