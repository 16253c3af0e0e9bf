-- ===== src/Thread/Sound.antt =====
-- The steps of `Start`, of `Join` and of whole schedules keep what `Thread/Start` states.
use libserverkit.Base.{
  ℕ, Bool, true, false, List, [], ◌∷◌, inl, inr, refl, ◌∙◌, ◌==◌, arith, Bool-cases, eq_of_==,
}
use libserverkit.SpinLock
use libserverkit.SpinLock.{Pc, outside, fast, slow, holding}
use libserverkit.Thread.{
  Starter, first, second, started, joining, joined, Child, unborn, born, loaded, informed, marked,
  working, ended, Starting, create, start, join, pthread_joined, starter_step, Actor, the_starter,
  the_child, turn, run,
}
use libserverkit.Thread.Places.{phase, Agrees-slow, Agrees-fast, ran-unborn}
use libserverkit.Thread.Start.{IsSound, main-IsSound}

module _ (ret tid : ℕ) where
  start_first-IsSound :
      (p : Pc) (w : Bool) (s : Starting)
      → IsSound ret tid (record s { starter = first p; word = w })
      → IsSound ret tid (start ret tid p false (record s { starter = first p; word = w }))
  unfolding start create SpinLock.step SpinLock.lock_fast
  start_first-IsSound outside w s r = absurd r.lock
  start_first-IsSound (slow p) w s r = absurd r.lock
  start_first-IsSound fast true s r = ground (arith, r.lock)
  start_first-IsSound fast false s r = record {
    lock = (r.lock.0, refl);
    frame = r.frame;
    kept = r.kept;
    created = r.created;
    named = r.named;
    state = r.state;
    id = r.id;
    called = r.called;
  }
  start_first-IsSound holding w s r = elim (Bool-cases (ret == 0)) [
    | inl e ↦ rw e (record {
      lock = inl (omega arith, r.lock.1);
      frame = r.frame;
      kept = r.kept;
      created = λ h. eq_of_== ret 0 e;
      named = λ h. absurd (omega (arith, h));
      state = λ h. absurd (omega (arith, h));
      id = λ h. refl;
      called = r.called ∙ ran-unborn s.child s.thread.callback r.lock.0;
    })
    | inr e ↦ rw e (record {
      lock = inl (ground (arith, r.lock), r.lock.1);
      frame = r.frame;
      kept = r.kept;
      created = r.created;
      named = r.named;
      state = r.state;
      id = r.id;
      called = r.called;
    })
  ]

  start_second-IsSound :
      (p : Pc) (w : Bool) (s : Starting)
      → IsSound ret tid (record s { starter = second p; word = w })
      → IsSound ret tid (start ret tid p true (record s { starter = second p; word = w }))
  unfolding start SpinLock.step
  start_second-IsSound outside w s r = absurd r.lock
  start_second-IsSound fast w s r = record {
    lock = Agrees-fast (phase s.child) w r.lock;
    frame = r.frame;
    kept = r.kept;
    created = r.created;
    named = r.named;
    state = r.state;
    id = r.id;
    called = r.called;
  }
  start_second-IsSound (slow p) w s r = record {
    lock = Agrees-slow p (phase s.child) w r.lock;
    frame = r.frame;
    kept = r.kept;
    created = r.created;
    named = r.named;
    state = r.state;
    id = r.id;
    called = r.called;
  }
  start_second-IsSound holding w s r = record {
    lock = r.lock.0;
    frame = refl;
    kept = r.kept;
    created = r.created;
    named = r.named;
    state = r.state;
    id = r.id;
    called = r.called;
  }

  join-IsSound :
      (s : Starting)
      → IsSound ret tid (record s { starter = started })
      → IsSound ret tid (join (record s { starter = started }))
  unfolding join
  join-IsSound s r = elim (Bool-cases (s.thread.tid == 0)) [
    | inl e ↦ rw e (record {
      lock = r.lock;
      frame = r.frame;
      kept = r.kept;
      created = r.created;
      named = r.named;
      state = refl;
      id = ground (arith, r.id, r.lock);
      called = r.called;
    })
    | inr e ↦ rw e (record {
      lock = r.lock;
      frame = r.frame;
      kept = r.kept;
      created = r.created;
      named = r.named;
      state = refl;
      id = r.id;
      called = r.called;
    })
  ]

  pthread_joined-IsSound :
      (c : Child) (s : Starting)
      → IsSound ret tid (record s { starter = joining; child = c })
      → IsSound ret tid (pthread_joined (record s { starter = joining; child = c }))
  unfolding pthread_joined
  pthread_joined-IsSound ended s r = record {
    lock = r.lock;
    frame = r.frame;
    kept = r.kept;
    created = r.created;
    named = r.named;
    state = r.state;
    id = (refl, inl refl);
    called = r.called;
  }
  pthread_joined-IsSound unborn s r = r
  pthread_joined-IsSound born s r = r
  pthread_joined-IsSound loaded s r = r
  pthread_joined-IsSound informed s r = r
  pthread_joined-IsSound marked s r = r
  pthread_joined-IsSound working s r = r

  starter_step-IsSound :
      (st : Starter) (s : Starting)
      → IsSound ret tid (record s { starter = st })
      → IsSound ret tid (starter_step ret tid st (record s { starter = st }))
  unfolding starter_step join pthread_joined
  starter_step-IsSound (first p) s r = start_first-IsSound p s.word s r
  starter_step-IsSound (second p) s r = start_second-IsSound p s.word s r
  starter_step-IsSound started s r = join-IsSound s r
  starter_step-IsSound joining s r = pthread_joined-IsSound s.child s r
  starter_step-IsSound joined s r = r

  pub turn-IsSound :
      (a : Actor) (s : Starting) → IsSound ret tid s → IsSound ret tid (turn ret tid a s)
  unfolding turn
  turn-IsSound the_starter s r = starter_step-IsSound s.starter s r
  turn-IsSound the_child s r = main-IsSound ret tid s.child s r

  pub run-IsSound :
      (order : List Actor) (s : Starting)
      → IsSound ret tid s
      → IsSound ret tid (run ret tid order s)
  unfolding run
  run-IsSound [] s r = r
  run-IsSound (a ∷ order) s r = run-IsSound order (turn ret tid a s) (turn-IsSound a s r)
