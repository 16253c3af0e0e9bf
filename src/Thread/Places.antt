-- ===== src/Thread/Places.antt =====
-- How the places of the starter and of the new thread fit what they share.
use libserverkit.Base.{
  ℕ, ◌+◌, ◌≤◌, ◌<◌, Bool, true, false, Option, List, [], ◌∷◌, ◌≡◌, ◌≢◌, ltb, ◌⊎◌, inl, inr, refl,
  arith, Bool-cases,
}
use libserverkit.SpinLock
use libserverkit.SpinLock.{Pc, outside, fast, slow, holding}
use libserverkit.Thread.{
  ThreadState, thread_running, thread_stopped, Starter, first, second, started, joining, joined,
  Child, unborn, born, loaded, informed, marked, working, ended,
}

-- How far the new thread is.
abbrev pub phase : Child → ℕ
phase unborn = 0
phase born = 1
phase loaded = 2
phase informed = 3
phase marked = 4
phase working = 5
phase ended = 6

-- What the two threads' places say of the lock.
abbrev pub Agrees : Starter → ℕ → Bool → Type 0
Agrees (first fast) n word = (n ≡ 0) × (word ≡ false)
Agrees (first holding) n word = (n ≡ 0) × (word ≡ true)
Agrees (first _) n word = ⊥
Agrees (second fast) n word = ((n < 5) × (word ≡ true)) ⊎ ((5 ≤ n) × (word ≡ false))
Agrees (second (slow _)) n word = ((n < 5) × (word ≡ true)) ⊎ ((5 ≤ n) × (word ≡ false))
Agrees (second holding) n word = (5 ≤ n) × (word ≡ true)
Agrees (second outside) n word = ⊥
Agrees _ n word = 5 ≤ n

abbrev pub is_in_start : Starter → Bool
is_in_start (first _) = true
is_in_start (second _) = true
is_in_start _ = false

-- The state of the thread object.
abbrev pub StateFits : Starter → ℕ → ThreadState → Type 0
StateFits joining n st = st ≡ thread_stopped
StateFits joined n st = st ≡ thread_stopped
StateFits _ n st = 4 ≤ n → st ≡ thread_running

-- Its id, where `pthread_create` stores `tid`.
abbrev pub IdFits : ℕ → Starter → ℕ → ℕ → Type 0
IdFits tid joined n t = (t ≡ 0) × ((n ≡ 6) ⊎ (tid ≡ 0))
IdFits tid _ n t = 1 ≤ n → t ≡ tid

-- What a new thread with the callback `c` has run.
abbrev pub ran : Child → Option ℕ → List (Option ℕ)
ran ended c = c ∷ []
ran _ c = []

-- The lock's part is kept while the new thread goes on without an access to the word.
pub Agrees-on :
    (st : Starter) (n : ℕ) (w : Bool) → 1 ≤ n → (n ≢ 4) → Agrees st n w → Agrees st (n + 1) w
Agrees-on (first fast) n w h k a = ground arith
Agrees-on (first holding) n w h k a = ground arith
Agrees-on (first outside) n w h k a = a
Agrees-on (first (slow p)) n w h k a = a
Agrees-on (second fast) n w h k a = ground arith
Agrees-on (second (slow p)) n w h k a = ground arith
Agrees-on (second holding) n w h k a = ground arith
Agrees-on (second outside) n w h k a = a
Agrees-on started n w h k a = omega arith
Agrees-on joining n w h k a = omega arith
Agrees-on joined n w h k a = omega arith

-- `UnLock` by the new thread finds the starter in its second `Lock`.
pub Agrees-un_lock :
    (st : Starter) (w : Bool)
    → Agrees st 4 w
    → (is_in_start st ≡ true) × Agrees st 5 (SpinLock.un_lock.0)
unfolding SpinLock.un_lock
Agrees-un_lock (first fast) w a = ground arith
Agrees-un_lock (first holding) w a = ground arith
Agrees-un_lock (first outside) w a = absurd a
Agrees-un_lock (first (slow p)) w a = absurd a
Agrees-un_lock (second fast) w a = (refl, inr (omega arith, refl))
Agrees-un_lock (second (slow p)) w a = (refl, inr (omega arith, refl))
Agrees-un_lock (second holding) w a = ground arith
Agrees-un_lock (second outside) w a = absurd a
Agrees-un_lock started w a = ground arith
Agrees-un_lock joining w a = ground arith
Agrees-un_lock joined w a = ground arith

pub StateFits-on :
    (st : Starter) (n : ℕ) (t : ThreadState) → n ≢ 3 → StateFits st n t → StateFits st (n + 1) t
StateFits-on (first p) n t k a = λ h. a (omega arith)
StateFits-on (second p) n t k a = λ h. a (omega arith)
StateFits-on started n t k a = λ h. a (omega arith)
StateFits-on joining n t k a = a
StateFits-on joined n t k a = a

pub StateFits-marked : (st : Starter) (w : Bool) → Agrees st 3 w → StateFits st 4 thread_running
StateFits-marked (first p) w a = λ h. refl
StateFits-marked (second p) w a = λ h. refl
StateFits-marked started w a = λ h. refl
StateFits-marked joining w a = ground arith
StateFits-marked joined w a = ground arith

pub Agrees-in_start :
    (st : Starter) (n : ℕ) (w : Bool) → n < 5 → Agrees st n w → is_in_start st ≡ true
Agrees-in_start (first p) n w h a = refl
Agrees-in_start (second p) n w h a = refl
Agrees-in_start started n w h a = ground arith
Agrees-in_start joining n w h a = ground arith
Agrees-in_start joined n w h a = ground arith

-- A step of the second `Lock`.
pub Agrees-slow :
    (p : SpinLock.Slow) (n : ℕ) (w : Bool)
    → Agrees (second (slow p)) n w
    → Agrees (second (SpinLock.lock_slow w p).1) n (SpinLock.lock_slow w p).0
unfolding SpinLock.lock_slow
Agrees-slow (SpinLock.pausing c y) n true a =
    elim (Bool-cases (ltb c SpinLock.yield_processor_tries)) [ inl e ↦ rw e a | inr e ↦ rw e a ]
Agrees-slow (SpinLock.pausing c y) n false a =
    elim (Bool-cases (ltb c SpinLock.yield_processor_tries)) [ inl e ↦ rw e a | inr e ↦ rw e a ]
Agrees-slow (SpinLock.trying c y) n true a = a
Agrees-slow (SpinLock.trying c y) n false a = ground arith
Agrees-slow (SpinLock.resting y) n w a = a
Agrees-slow (SpinLock.reloading y) n true a = a
Agrees-slow (SpinLock.reloading y) n false a = a
Agrees-slow (SpinLock.retrying y) n true a = a
Agrees-slow (SpinLock.retrying y) n false a = ground arith

pub Agrees-fast :
    (n : ℕ) (w : Bool)
    → Agrees (second fast) n w
    → Agrees (second (SpinLock.lock_fast w).1) n (SpinLock.lock_fast w).0
unfolding SpinLock.lock_fast
Agrees-fast n true a = a
Agrees-fast n false a = ground arith

pub IdFits-on :
    (tid : ℕ) (st : Starter) (n t : ℕ) → 1 ≤ n → n ≢ 6 → IdFits tid st n t → IdFits tid st (n + 1) t
IdFits-on tid (first p) n t h k a = λ l. a h
IdFits-on tid (second p) n t h k a = λ l. a h
IdFits-on tid started n t h k a = λ l. a h
IdFits-on tid joining n t h k a = λ l. a h
IdFits-on tid joined n t h k a = ground arith

pub ran-unborn : (c : Child) (f : Option ℕ) → phase c ≡ 0 → ran c f ≡ []
ran-unborn unborn f h = refl
ran-unborn born f h = refl
ran-unborn loaded f h = refl
ran-unborn informed f h = refl
ran-unborn marked f h = refl
ran-unborn working f h = refl
ran-unborn ended f h = ground arith
