-- ===== src/SpinLock/Progress.antt =====
-- What a thread does that waits for the lock: how its two counters stay bounded, and how soon it
-- takes a lock that is free.
use libserverkit.Base.{
  ℕ, zero, suc, ◌+◌, ◌≤◌, Bool, true, false, List, [], ◌∷◌, ◌≡◌, refl, ap, ◌∙◌, inl, inr, ◌==◌,
  update_self, Bool-cases, ltb, if◌then◌else◌, arith,
}
use libserverkit.SpinLock.{
  Pc, outside, fast, slow, holding, pausing, trying, resting, reloading, retrying, step,
  yield_processor_tries, yield_thread_tries, lock_slow, lock_fast, un_lock, Threads, new_lock, turn,
  run,
}

abbrev pub is_waiting : Pc → Bool
is_waiting outside = false
is_waiting holding = false
is_waiting _ = true

-- The turns a waiting thread needs on a lock that is free.
abbrev pub turns_left : Pc → ℕ
turns_left outside = 0
turns_left fast = 1
turns_left (slow (pausing count yields)) = if ltb count yield_processor_tries then 2 else 4
turns_left (slow (trying count yields)) = 1
turns_left (slow (resting yields)) = 3
turns_left (slow (reloading yields)) = 2
turns_left (slow (retrying yields)) = 1
turns_left holding = 0

abbrev pub alone : ℕ → ℕ → List ℕ
alone zero i = []
alone (suc n) i = i ∷ alone n i

turn_self : (i : ℕ) (s : Threads) → (turn i s).pc i ≡ (step s.word (s.pc i)).1
unfolding turn
turn_self i s = update_self s.pc i (step s.word (s.pc i)).1

-- A thread's steps while no other thread takes one.
solo : ℕ → Bool × Pc → Bool × Pc
solo zero at = at
solo (suc n) (word, p) = solo n (step word p)

run-alone : (n i : ℕ) (s : Threads) → (run (alone n i) s).pc i ≡ (solo n (s.word, s.pc i)).1
unfolding run solo
run-alone zero i s = refl
run-alone (suc n) i s =
    run-alone n i (turn i s) ∙ ap (λ p. (solo n ((step s.word (s.pc i)).0, p)).1) (turn_self i s)

solo_taken : (p : Pc) → is_waiting p ≡ true → (solo (turns_left p) (false, p)).1 ≡ holding
unfolding solo step lock_slow lock_fast
solo_taken outside w = cc
solo_taken fast w = refl
solo_taken (slow (pausing count yields)) w = elim (Bool-cases (ltb count yield_processor_tries)) [
  | inl e ↦ rw (e, e) refl
  | inr e ↦ rw (e, e) refl
]
solo_taken (slow (trying count yields)) w = refl
solo_taken (slow (resting yields)) w = refl
solo_taken (slow (reloading yields)) w = refl
solo_taken (slow (retrying yields)) w = refl
solo_taken holding w = cc

-- On a lock that is free, a waiting thread's step is one of those it needs.
pub turns_left-step :
    (p : Pc) → is_waiting p ≡ true → turns_left (step false p).1 + 1 ≡ turns_left p
unfolding step lock_slow lock_fast
turns_left-step outside w = cc
turns_left-step fast w = refl
turns_left-step (slow (pausing count yields)) w =
    elim (Bool-cases (ltb count yield_processor_tries)) [ inl e ↦ rw e refl | inr e ↦ rw e refl ]
turns_left-step (slow (trying count yields)) w = refl
turns_left-step (slow (resting yields)) w = refl
turns_left-step (slow (reloading yields)) w = refl
turns_left-step (slow (retrying yields)) w = refl
turns_left-step holding w = cc

pub turns_few : (p : Pc) → turns_left p ≤ 4
turns_few outside = omega arith
turns_few fast = omega arith
turns_few (slow (pausing count yields)) = ground arith
turns_few (slow (trying count yields)) = omega arith
turns_few (slow (resting yields)) = omega arith
turns_few (slow (reloading yields)) = omega arith
turns_few (slow (retrying yields)) = omega arith
turns_few holding = omega arith

-- A thread that waits for a lock that is free has it after at most four turns of its own, unless
-- another thread takes a turn in between.
pub free_lock_taken :
    (i : ℕ) (s : Threads)
    → s.word ≡ false
    → is_waiting (s.pc i) ≡ true
    → (turns_left (s.pc i) ≤ 4) × ((run (alone (turns_left (s.pc i)) i) s).pc i ≡ holding)
free_lock_taken i s free waits = (
  turns_few (s.pc i),
  run-alone (turns_left (s.pc i)) i s
      ∙ (ap (λ w. (solo (turns_left (s.pc i)) (w, s.pc i)).1) free ∙ solo_taken (s.pc i) waits),
)

-- The locals of `lockSlow` in their bounds.
abbrev pub IsBounded : Pc → Type 0
IsBounded (slow (pausing count yields)) =
    (count ≤ yield_processor_tries) × (yields ≤ yield_thread_tries)
IsBounded (slow (trying count yields)) =
    (count + 1 ≤ yield_processor_tries) × (yields ≤ yield_thread_tries)
IsBounded (slow (resting yields)) = yields ≤ yield_thread_tries
IsBounded (slow (reloading yields)) = yields ≤ yield_thread_tries
IsBounded (slow (retrying yields)) = yields ≤ yield_thread_tries
IsBounded _ = Unit

step-IsBounded : (w : Bool) (p : Pc) → IsBounded p → IsBounded (step w p).1
unfolding step lock_slow lock_fast un_lock
step-IsBounded w outside b = tt
step-IsBounded true fast b = (omega arith, omega arith)
step-IsBounded false fast b = tt
step-IsBounded true (slow (pausing count yields)) b =
    elim (Bool-cases (ltb count yield_processor_tries)) [
      | inl e ↦ rw e (ground arith, b.1)
      | inr e ↦ rw e b.1
    ]
step-IsBounded false (slow (pausing count yields)) b =
    elim (Bool-cases (ltb count yield_processor_tries)) [
      | inl e ↦ rw e (ground arith, b.1)
      | inr e ↦ rw e b.1
    ]
step-IsBounded true (slow (trying count yields)) b = (b.0, b.1)
step-IsBounded false (slow (trying count yields)) b = tt
step-IsBounded w (slow (resting yields)) b = ground arith
step-IsBounded true (slow (reloading yields)) b = (omega arith, b)
step-IsBounded false (slow (reloading yields)) b = b
step-IsBounded true (slow (retrying yields)) b = (omega arith, b)
step-IsBounded false (slow (retrying yields)) b = tt
step-IsBounded w holding b = tt

run-IsBounded :
    (is : List ℕ) (s : Threads) (i : ℕ)
    → ((j : ℕ) → IsBounded (s.pc j))
    → IsBounded ((run is s).pc i)
unfolding run turn
run-IsBounded [] s i b = b i
run-IsBounded (j ∷ is) s i b = run-IsBounded is (turn j s) i (λ k. elim (Bool-cases (k == j)) [
  | inl e ↦ rw e (step-IsBounded s.word (s.pc j) (b j))
  | inr e ↦ rw e (b k)
])

-- In whatever order the threads take their steps on a new lock, each that is inside `lockSlow` has
-- made at most 1000 pauses in a row, and counts at most ten yields, behind which it sleeps instead.
pub spins-IsBounded : (is : List ℕ) (i : ℕ) → IsBounded ((run is new_lock).pc i)
unfolding new_lock
spins-IsBounded is i = run-IsBounded is new_lock i (λ j. tt)
