-- ===== src/Thread/Start.antt =====
-- What holds at each step of `Start` and of the thread it starts.
use libserverkit.Base.{ℕ, ◌≤◌, false, [], ◌∷◌, ◌++◌, ◌≡◌, refl, ap, arith}
use libserverkit.Thread.{
  Thread, Child, unborn, born, loaded, informed, marked, working, ended, Starting, call_start, main,
}
use libserverkit.Thread.Places.{
  phase, Agrees, is_in_start, StateFits, IdFits, ran, Agrees-on, Agrees-un_lock, StateFits-on,
  StateFits-marked, Agrees-in_start, IdFits-on,
}

pub record IsSound (ret tid : ℕ) (s : Starting) : Type 0 where
  pub lock : Agrees s.starter (phase s.child) s.word
  pub frame : s.frame ≡ is_in_start s.starter
  pub kept : s.is_lost ≡ false
  pub created : 1 ≤ phase s.child → ret ≡ 0
  pub named : 3 ≤ phase s.child → s.info.name ≡ s.thread.name
  pub state : StateFits s.starter (phase s.child) s.thread.state
  pub id : IdFits tid s.starter (phase s.child) s.thread.tid
  pub called : s.called ≡ ran s.child s.thread.callback

module _ (ret tid : ℕ) where
  pub call_start-IsSound : (t : Thread) → IsSound ret tid (call_start t)
  unfolding call_start
  call_start-IsSound t = record {
    lock = (refl, refl);
    frame = refl;
    kept = refl;
    created = λ h. absurd (omega (arith, h));
    named = λ h. absurd (omega (arith, h));
    state = λ h. absurd (omega (arith, h));
    id = λ h. absurd (omega (arith, h));
    called = refl;
  }

  pub main-IsSound :
      (c : Child) (s : Starting)
      → IsSound ret tid (record s { child = c })
      → IsSound ret tid (main c (record s { child = c }))
  unfolding main
  main-IsSound unborn s r = r
  main-IsSound born s r = record {
    lock = Agrees-on s.starter 1 s.word (omega arith) (omega arith) r.lock;
    frame = r.frame;
    kept = ground (arith, r.kept, r.frame, Agrees-in_start s.starter 1 s.word (omega arith) r.lock);
    created = λ h. r.created (omega arith);
    named = λ h. absurd (omega (arith, h));
    state = StateFits-on s.starter 1 s.thread.state (omega arith) r.state;
    id = IdFits-on tid s.starter 1 s.thread.tid (omega arith) (omega arith) r.id;
    called = r.called;
  }
  main-IsSound loaded s r = record {
    lock = Agrees-on s.starter 2 s.word (omega arith) (omega arith) r.lock;
    frame = r.frame;
    kept = r.kept;
    created = λ h. r.created (omega arith);
    named = λ h. refl;
    state = StateFits-on s.starter 2 s.thread.state (omega arith) r.state;
    id = IdFits-on tid s.starter 2 s.thread.tid (omega arith) (omega arith) r.id;
    called = r.called;
  }
  main-IsSound informed s r = record {
    lock = Agrees-on s.starter 3 s.word (omega arith) (omega arith) r.lock;
    frame = r.frame;
    kept = r.kept;
    created = λ h. r.created (omega arith);
    named = λ h. r.named (omega arith);
    state = StateFits-marked s.starter s.word r.lock;
    id = IdFits-on tid s.starter 3 s.thread.tid (omega arith) (omega arith) r.id;
    called = r.called;
  }
  main-IsSound marked s r = record {
    lock = (Agrees-un_lock s.starter s.word r.lock).1;
    frame = r.frame;
    kept = ground (arith, r.kept, r.frame, Agrees-in_start s.starter 4 s.word (omega arith) r.lock);
    created = λ h. r.created (omega arith);
    named = λ h. r.named (omega arith);
    state = StateFits-on s.starter 4 s.thread.state (omega arith) r.state;
    id = IdFits-on tid s.starter 4 s.thread.tid (omega arith) (omega arith) r.id;
    called = r.called;
  }
  main-IsSound working s r = record {
    lock = Agrees-on s.starter 5 s.word (omega arith) (omega arith) r.lock;
    frame = r.frame;
    kept = r.kept;
    created = λ h. r.created (omega arith);
    named = λ h. r.named (omega arith);
    state = StateFits-on s.starter 5 s.thread.state (omega arith) r.state;
    id = IdFits-on tid s.starter 5 s.thread.tid (omega arith) (omega arith) r.id;
    called = ap (λ xs. xs ++ s.thread.callback ∷ []) r.called;
  }
  main-IsSound ended s r = r
