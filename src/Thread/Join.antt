-- ===== src/Thread/Join.antt =====
-- What the callers of `Start` and `Join` may rely on.
use libserverkit.Base.{ℕ, Bool, true, false, List, [], ◌∷◌, ◌≡◌, ◌≢◌, refl, ap, subst, ◌∙◌, arith}
use libserverkit.Thread.{
  Thread, thread_running, thread_stopped, is_running, Starter, first, second, started, joining,
  joined, Child, unborn, born, loaded, informed, marked, working, ended, ThreadState, Starting,
  call_start, Actor, run,
}
use libserverkit.Thread.Places.{phase, is_in_start, Agrees, StateFits, IdFits, ran}
use libserverkit.Thread.Start.{IsSound, call_start-IsSound}
use libserverkit.Thread.Sound.{run-IsSound}

abbrev state_is_running : ThreadState → Bool
state_is_running st = elim st [ thread_running ↦ true | _ ↦ false ]

phase_last : (c : Child) → phase c ≡ 6 → c ≡ ended
phase_last unborn h = ground arith
phase_last born h = ground arith
phase_last loaded h = ground arith
phase_last informed h = ground arith
phase_last marked h = ground arith
phase_last working h = ground arith
phase_last ended h = refl

unborn_in_start : (st : Starter) (n : ℕ) (w : Bool) → n ≡ 0 → Agrees st n w → is_in_start st ≡ true
unborn_in_start (first p) n w h a = refl
unborn_in_start (second p) n w h a = refl
unborn_in_start started n w h a = ground arith
unborn_in_start joining n w h a = ground arith
unborn_in_start joined n w h a = ground arith

module _ (ret tid : ℕ) (order : List Actor) (t : Thread) where
  abbrev at_end : Starting
  at_end = run ret tid order (call_start t)

  sound : IsSound ret tid at_end
  sound = run-IsSound ret tid order (call_start t) (call_start-IsSound ret tid t)

  -- In whatever order the caller of `Start` and the new thread take their steps, the new thread uses
  -- the lock and the entry in the frame of `Start` only while that frame is there.
  pub frame_safe : at_end.is_lost ≡ false
  frame_safe = sound.kept

  -- In whatever order the steps are taken: when `Start` has returned and `Join` was not called,
  -- `pthread_create` has returned 0, the thread object is in the running state with the new
  -- thread's id, and what `CurrentThreadName` returns in the new thread is the object's name.
  pub started_running :
      at_end.starter ≡ started
      → (ret ≡ 0)
        × (is_running at_end.thread ≡ true)
        × (at_end.thread.tid ≡ tid)
        × (at_end.info.name ≡ at_end.thread.name)
  started_running e =
      let far = subst (λ st. Agrees st (phase at_end.child) at_end.word) e sound.lock in
      let runs =
        subst (λ st. StateFits st (phase at_end.child) at_end.thread.state) e sound.state in
      let same = subst (λ st. IdFits tid st (phase at_end.child) at_end.thread.tid) e sound.id in
      (
        sound.created (omega (arith, far)),
        ap state_is_running (runs (omega (arith, far))),
        same (omega (arith, far)),
        sound.named (omega (arith, far)),
      )

  -- In whatever order the steps are taken: when `Join` has returned, and the new thread's id is not
  -- 0, the new thread has ended, having run its callback, or `Run`, once, and the object is in the
  -- stopped state with no id.
  pub joined_ended :
      tid ≢ 0
      → at_end.starter ≡ joined
      → (at_end.child ≡ ended)
        × (at_end.thread.state ≡ thread_stopped)
        × (at_end.thread.tid ≡ 0)
        × (at_end.called ≡ at_end.thread.callback ∷ [])
  joined_ended n e =
      let gone = subst (λ st. IdFits tid st (phase at_end.child) at_end.thread.tid) e sound.id in
      let last = phase_last at_end.child (ground arith) in
      (
        last,
        subst (λ st. StateFits st (phase at_end.child) at_end.thread.state) e sound.state,
        gone.0,
        sound.called ∙ ap (λ c. ran c at_end.thread.callback) last,
      )

  -- Where `pthread_create` fails, `Start` never returns: no order of steps leads out of it.
  pub failed_start : ret ≢ 0 → is_in_start at_end.starter ≡ true
  failed_start n =
      unborn_in_start at_end.starter (phase at_end.child) at_end.word
        (ground (arith, sound.created, n)) sound.lock
