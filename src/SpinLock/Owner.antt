-- ===== src/SpinLock/Owner.antt =====
-- The lock as a client sees it: free, or owned by one thread.
use libserverkit.Base.{
  ℕ, Bool, true, false, Option, none, some, List, [], ◌∷◌, ◌≡◌, ◌⊎◌, inl, inr, refl, sym, ltb, ◌∙◌,
  ◌==◌, Bool-cases, arith,
}
use libserverkit.SpinLock.{
  Pc, outside, fast, slow, holding, Slow, pausing, trying, resting, reloading, retrying, step,
  yield_processor_tries, lock_slow, lock_fast, un_lock, Threads, new_lock, turn, run,
}

abbrev pub is_holding : Pc → Bool
is_holding holding = true
is_holding _ = false

-- The abstract lock: its state is its owner.
abbrev pub is_held : Option ℕ → Bool
is_held none = false
is_held (some i) = true

abbrev pub is_owner : Option ℕ → ℕ → Bool
is_owner none i = false
is_owner (some j) i = j == i

-- What one turn of thread `i` may do to it: take it when it is free, give it back, or leave it.
pub data Grant (i : ℕ) : Option ℕ → Option ℕ → Type 0 where
  take : Grant i none (some i)
  give : Grant i (some i) none
  leave : {o : Option ℕ} → Grant i o o

pub record Rep (s : Threads) (o : Option ℕ) : Type 0 where
  pub word : s.word ≡ is_held o
  pub holders : (i : ℕ) → is_holding (s.pc i) ≡ is_owner o i

-- A step of a thread on the word `w`: it takes the lock, changes nothing the others see, or frees it.
abbrev Taken : Bool → Pc → Bool × Pc → Type 0
Taken w p after =
    (w ≡ false) × (is_holding p ≡ false) × (after.0 ≡ true) × (is_holding after.1 ≡ true)

abbrev Kept : Bool → Pc → Bool × Pc → Type 0
Kept w p after = (after.0 ≡ w) × (is_holding after.1 ≡ is_holding p)

abbrev Freed : Pc → Bool × Pc → Type 0
Freed p after = (is_holding p ≡ true) × (after.0 ≡ false) × (is_holding after.1 ≡ false)

abbrev Change : Bool → Pc → Bool × Pc → Type 0
Change w p after = Taken w p after ⊎ (Kept w p after ⊎ Freed p after)

Change-lock_slow : (w : Bool) (p : Slow) → Change w (slow p) (lock_slow w p)
unfolding lock_slow
Change-lock_slow true (pausing count yields) = elim (Bool-cases (ltb count yield_processor_tries)) [
  | inl e ↦ rw e (inr (inl (refl, refl)))
  | inr e ↦ rw e (inr (inl (refl, refl)))
]
Change-lock_slow false (pausing count yields) =
    elim (Bool-cases (ltb count yield_processor_tries)) [
      | inl e ↦ rw e (inr (inl (refl, refl)))
      | inr e ↦ rw e (inr (inl (refl, refl)))
    ]
Change-lock_slow true (trying count yields) = inr (inl (refl, refl))
Change-lock_slow false (trying count yields) = inl (refl, refl, refl, refl)
Change-lock_slow w (resting yields) = inr (inl (refl, refl))
Change-lock_slow true (reloading yields) = inr (inl (refl, refl))
Change-lock_slow false (reloading yields) = inr (inl (refl, refl))
Change-lock_slow true (retrying yields) = inr (inl (refl, refl))
Change-lock_slow false (retrying yields) = inl (refl, refl, refl, refl)

Change-step : (w : Bool) (p : Pc) → Change w p (step w p)
unfolding step lock_fast un_lock
Change-step w outside = inr (inl (refl, refl))
Change-step true fast = inr (inl (refl, refl))
Change-step false fast = inl (refl, refl, refl, refl)
Change-step w (slow p) = Change-lock_slow w p
Change-step w holding = inr (inr (refl, refl, refl))

pub Rep-new_lock : Rep new_lock none
unfolding new_lock
Rep-new_lock = record { word = refl; holders = λ i. refl }

-- A turn of a thread does to the abstract lock what a client may do.
pub turn-Rep :
    (i : ℕ) (s : Threads) (o : Option ℕ)
    → Rep s o
    → (o' : Option ℕ) × Grant i o o' × Rep (turn i s) o'
unfolding turn
turn-Rep i s none r = elim (Change-step s.word (s.pc i)) [
  | inl t ↦ (some i, take, record { word = t.2; holders = λ j. ground (arith, r.holders j) })
  | inr (inl k) ↦ (
    none,
    leave,
    record { word = k.0 ∙ r.word; holders = λ j. ground (arith, r.holders j, r.holders i) },
  )
  | inr (inr f) ↦ absurd (ground (arith, r.holders i))
]
turn-Rep i s (some a) r = elim (Change-step s.word (s.pc i)) [
  | inl t ↦ absurd (ground (arith, r.word))
  | inr (inl k) ↦ (
    some a,
    leave,
    record { word = k.0 ∙ r.word; holders = λ j. ground (arith, r.holders j, r.holders i) },
  )
  | inr (inr f) ↦
      let e : a ≡ i = ground (arith, r.holders i) in
      (none, rw e give, record { word = f.1; holders = λ j. ground (arith, r.holders j) })
]

-- The abstract lock's course under the turns of a list.
pub data History : List ℕ → Option ℕ → Option ℕ → Type 0 where
  ended : {o : Option ℕ} → History [] o o
  next :
      {i : ℕ} {is : List ℕ} {o p q : Option ℕ} → Grant i o p → History is p q → History (i ∷ is) o q

run-Rep :
    (is : List ℕ) (s : Threads) (o : Option ℕ)
    → Rep s o
    → (o' : Option ℕ) × History is o o' × Rep (run is s) o'
unfolding run
run-Rep [] s o r = (o, ended, r)
run-Rep (i ∷ is) s o r =
    let (p, g, rp) = turn-Rep i s o r in
    let (q, h, rq) = run-Rep is (turn i s) p rp in (q, next g h, rq)

-- In whatever order any number of threads take their steps on a new lock, the lock is an abstract
-- lock that is free or has one owner: each step takes it for its thread while it is free, gives it
-- back from its owner, or leaves it; and at the end the word is set just when there is an owner, and
-- the threads between `Lock` and `UnLock` are that owner alone.
pub run-refines : (is : List ℕ) → (o : Option ℕ) × History is none o × Rep (run is new_lock) o
run-refines is = run-Rep is new_lock none Rep-new_lock

same_owner : (o : Option ℕ) (i j : ℕ) → is_owner o i ≡ true → is_owner o j ≡ true → i ≡ j
same_owner none i j a b = cc
same_owner (some k) i j a b = ground arith

-- In whatever order any number of threads take their steps on a new lock, two that are both between
-- the return of `Lock` and `UnLock` are the same.
pub mutual_exclusion :
    (is : List ℕ) (i j : ℕ)
    → is_holding ((run is new_lock).pc i) ≡ true
    → is_holding ((run is new_lock).pc j) ≡ true
    → i ≡ j
mutual_exclusion is i j h k =
    let r = (run-refines is).2 in
    same_owner (run-refines is).0 i j (sym (r.holders i) ∙ h) (sym (r.holders j) ∙ k)
