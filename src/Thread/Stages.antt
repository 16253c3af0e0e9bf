-- ===== src/Thread/Stages.antt =====
-- How far the starter and the new thread are from the return of `Start`, and what a turn does to that.
use libserverkit.Base.{
  ℕ, zero, suc, ◌+◌, ◌-◌, ◌≤◌, Bool, true, false, List, [], ◌∷◌, ◌≡◌, refl, sym, subst, arith,
  if◌then◌else◌,
}
use libserverkit.SpinLock
use libserverkit.SpinLock.{Pc, outside, fast, slow, holding}
use libserverkit.SpinLock.Progress.{turns_left, is_waiting, turns_few, turns_left-step}
use libserverkit.Thread.{
  Starter, first, second, started, joining, joined, Child, unborn, born, loaded, informed, marked,
  working, ended, Starting, Actor, main, pthread_joined,
}
use libserverkit.Thread.Places.{phase, is_in_start, Agrees}

-- The turns of the starter that are left in `Start` once the new thread has released the lock.
abbrev pub left : Starter → ℕ
left (second p) = turns_left p + 1
left (first p) = 6
left _ = 0

pub is_free :
    (p : Pc) (n : ℕ) (w : Bool) → is_waiting p ≡ true → 5 ≤ n → Agrees (second p) n w → w ≡ false
is_free outside n w h k a = cc
is_free fast n w h k a = ground arith
is_free (slow p) n w h k a = ground arith
is_free holding n w h k a = cc

pub left-second :
    (p : Pc) (w : Bool)
    → w ≡ false
    → is_waiting p ≡ true
    → left (second (SpinLock.step w p).1) ≤ left (second p) - 1
left-second p w free h =
    subst (λ b. left (second (SpinLock.step b p).1) ≤ left (second p) - 1) (sym free)
      (omega (arith, turns_left-step p h))

pub left-joining :
    (c : Child) (s : Starting)
    → left (pthread_joined (record s { starter = joining; child = c })).starter ≡ 0
unfolding pthread_joined
left-joining unborn s = refl
left-joining born s = refl
left-joining loaded s = refl
left-joining informed s = refl
left-joining marked s = refl
left-joining working s = refl
left-joining ended s = refl

pub left-if : (b : Bool) → left (if b then joined else joining) ≡ 0
left-if true = refl
left-if false = refl

pub child-joined :
    (c : Child) (s : Starting)
    → (pthread_joined (record s { starter = joining; child = c })).child ≡ c
unfolding pthread_joined
child-joined unborn s = refl
child-joined born s = refl
child-joined loaded s = refl
child-joined informed s = refl
child-joined marked s = refl
child-joined working s = refl
child-joined ended s = refl

-- Where `pthread_create` has returned 0 there is a new thread.
abbrev pub IsBorn : Starter → ℕ → Type 0
IsBorn (second p) n = 1 ≤ n
IsBorn _ n = Unit

-- The turns that are left up to `pthread_create`.
abbrev pub stage : Starter → ℕ
stage (first fast) = 2
stage (first _) = 1
stage _ = 0

pub stage-exchanged : (w : Bool) → stage (first (SpinLock.lock_fast w).1) ≤ 1
unfolding SpinLock.lock_fast
stage-exchanged true = omega arith
stage-exchanged false = omega arith

pub stage-joined :
    (c : Child) (s : Starting)
    → let after = pthread_joined (record s { starter = joining; child = c }) in
      (stage after.starter ≤ 0) × IsBorn after.starter (phase after.child)
unfolding pthread_joined
stage-joined unborn s = (omega arith, tt)
stage-joined born s = (omega arith, tt)
stage-joined loaded s = (omega arith, tt)
stage-joined informed s = (omega arith, tt)
stage-joined marked s = (omega arith, tt)
stage-joined working s = (omega arith, tt)
stage-joined ended s = (omega arith, tt)

pub IsBorn-on : (st : Starter) (m n : ℕ) → m ≤ n → IsBorn st m → IsBorn st n
IsBorn-on (first p) m n h b = tt
IsBorn-on (second p) m n h b = omega (arith, b)
IsBorn-on started m n h b = tt
IsBorn-on joining m n h b = tt
IsBorn-on joined m n h b = tt

-- A turn of the new thread brings it on.
pub phase-main :
    (k : ℕ) (c : Child) (s : Starting)
    → k ≤ 5
    → 1 ≤ phase c
    → k ≤ phase c + 1
    → k ≤ phase (main c (record s { child = c })).child
unfolding main
phase-main k unborn s h l m = ground arith
phase-main k born s h l m = m
phase-main k loaded s h l m = m
phase-main k informed s h l m = m
phase-main k marked s h l m = m
phase-main k working s h l m = m
phase-main k ended s h l m = omega arith

pub phase-main_mono :
    (c : Child) (s : Starting) → phase c ≤ phase (main c (record s { child = c })).child
unfolding main
phase-main_mono unborn s = omega arith
phase-main_mono born s = omega arith
phase-main_mono loaded s = omega arith
phase-main_mono informed s = omega arith
phase-main_mono marked s = omega arith
phase-main_mono working s = omega arith
phase-main_mono ended s = omega arith

pub starter-main : (c : Child) (s : Starting) → (main c s).starter ≡ s.starter
unfolding main
starter-main unborn s = refl
starter-main born s = refl
starter-main loaded s = refl
starter-main informed s = refl
starter-main marked s = refl
starter-main working s = refl
starter-main ended s = refl

pub stage-few : (st : Starter) → stage st ≤ 2
stage-few (first fast) = omega arith
stage-few (first holding) = omega arith
stage-few (first outside) = omega arith
stage-few (first (slow p)) = omega arith
stage-few (second p) = omega arith
stage-few started = omega arith
stage-few joining = omega arith
stage-few joined = omega arith

pub phase-created :
    (st : Starter) (n : ℕ) (w : Bool) → stage st ≡ 0 → IsBorn st n → Agrees st n w → 1 ≤ n
phase-created (first fast) n w h b a = ground arith
phase-created (first holding) n w h b a = ground arith
phase-created (first outside) n w h b a = absurd a
phase-created (first (slow p)) n w h b a = absurd a
phase-created (second p) n w h b a = b
phase-created started n w h b a = omega (arith, a)
phase-created joining n w h b a = omega (arith, a)
phase-created joined n w h b a = omega (arith, a)

pub left-few : (st : Starter) (n : ℕ) (w : Bool) → 5 ≤ n → Agrees st n w → left st ≤ 5
left-few (first fast) n w h a = ground arith
left-few (first holding) n w h a = ground arith
left-few (first outside) n w h a = absurd a
left-few (first (slow p)) n w h a = absurd a
left-few (second p) n w h a = omega (arith, turns_few p)
left-few started n w h a = omega arith
left-few joining n w h a = omega arith
left-few joined n w h a = omega arith

pub is_in_start-left : (st : Starter) → left st ≡ 0 → is_in_start st ≡ false
is_in_start-left (first p) h = ground arith
is_in_start-left (second p) h = absurd (omega (arith, h))
is_in_start-left started h = refl
is_in_start-left joining h = refl
is_in_start-left joined h = refl

abbrev pub again : ℕ → Actor → List Actor
again zero a = []
again (suc n) a = a ∷ again n a
