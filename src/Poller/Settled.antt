-- ===== src/Poller/Settled.antt =====
-- What the two loops of `executeTimers` do to the order of the timers.
use libserverkit.Base.{
  ℕ, ◌+◌, ◌%◌, ◌^◌, ◌≤◌, ◌<◌, ◌≡◌, refl, sym, ap, true, false, inl, inr, List, [], ◌∷◌, ◌++◌, arith,
  leb, if◌then◌else◌, ltb, ltb→lt, ltb-eq-false, ==_self, Bool-cases, All, All-mono,
}
use libserverkit.Poller.{
  TimerType, once, permanent, TimerEntry, TimerMap, Poller, insert, remove, due, later, events,
  renew, renew_all, execute_timers,
}

abbrev pub keys : TimerMap → List ℕ
keys [] = []
keys ((j, f) ∷ m) = j ∷ keys m

abbrev pub IsSorted : TimerMap → Type 0
IsSorted [] = Unit
IsSorted ((j, f) ∷ m) = All (λ k. j ≤ k) (keys m) × IsSorted m

abbrev pub Pending : ℕ → TimerMap → Type 0
Pending now m = All (λ k. now < k) (keys m)

-- A permanent timer's next expiry lies ahead and does not wrap.
abbrev pub Repeats : ℕ → TimerMap → Type 0
Repeats now [] = Unit
Repeats now ((j, f) ∷ m) =
    (f.t ≡ permanent → (1 ≤ f.timeout) × (now + f.timeout < 2 ^ 64)) × Repeats now m

leb-eq-false : (a b : ℕ) → b < a → leb a b ≡ false
leb-eq-false a b h = ground arith

le→leb : (a b : ℕ) → a ≤ b → leb a b ≡ true
le→leb a b h = ground arith

pub All-insert :
    (P : ℕ → Type 0) (k : ℕ) (e : TimerEntry) (m : TimerMap)
    → P k
    → All P (keys m)
    → All P (keys (insert k e m))
unfolding insert
All-insert P k e [] h a = (h, tt)
All-insert P k e ((j, f) ∷ m) h a = elim (Bool-cases (ltb k j)) [
  | inl b ↦ rw b (h, a)
  | inr b ↦ rw b (a.0, All-insert P k e m h a.1)
]

pub insert-IsSorted : (k : ℕ) (e : TimerEntry) (m : TimerMap) → IsSorted m → IsSorted (insert k e m)
unfolding insert
insert-IsSorted k e [] s = (tt, tt)
insert-IsSorted k e ((j, f) ∷ m) s = elim (Bool-cases (ltb k j)) [
  | inl b ↦ rw b (
    (
      ltb_le k j b,
      All-mono (λ i. j ≤ i) (λ i. k ≤ i) (keys m) (λ i h. omega (arith, ltb→lt k j b)) s.0,
    ),
    s,
  )
  | inr b ↦ rw b (All-insert (λ i. j ≤ i) k e m (ground arith) s.0, insert-IsSorted k e m s.1)
]
  where
    ltb_le : (a b : ℕ) → ltb a b ≡ true → a ≤ b
    ltb_le a b h = omega (arith, ltb→lt a b h)

pub due-later : (now : ℕ) (m : TimerMap) → m ≡ due now m ++ later now m
unfolding due later
due-later now [] = refl
due-later now ((j, f) ∷ m) = ground (arith, due-later now m)

pub later-Pending : (now : ℕ) (m : TimerMap) → IsSorted m → Pending now (later now m)
unfolding later
later-Pending now [] s = tt
later-Pending now ((j, f) ∷ m) s = elim (Bool-cases (ltb now j)) [
  | inl b ↦ rw b (
    ltb→lt now j b,
    All-mono (λ i. j ≤ i) (λ i. now < i) (keys m) (λ i h. omega (arith, ltb→lt now j b)) s.0,
  )
  | inr b ↦ rw b (later-Pending now m s.1)
]

pub later-IsSorted : (now : ℕ) (m : TimerMap) → IsSorted m → IsSorted (later now m)
unfolding later
later-IsSorted now [] s = tt
later-IsSorted now ((j, f) ∷ m) s = ground (arith, later-IsSorted now m s.1)

pub due_past : (now : ℕ) (m : TimerMap) → All (λ k. k ≤ now) (keys (due now m))
unfolding due
due_past now [] = tt
due_past now ((j, f) ∷ m) = ground (arith, due_past now m)

pub due-Repeats : (now : ℕ) (m : TimerMap) → Repeats now m → Repeats now (due now m)
unfolding due
due-Repeats now [] r = tt
due-Repeats now ((j, f) ∷ m) r = elim (Bool-cases (ltb now j)) [
  | inl b ↦ rw b tt
  | inr b ↦ rw b (r.0, due-Repeats now m r.1)
]

-- A timer that lies ahead goes behind all that are due.
pub insert-append :
    (k now : ℕ) (e : TimerEntry) (ds m : TimerMap)
    → now < k
    → All (λ j. j ≤ now) (keys ds)
    → insert k e (ds ++ m) ≡ ds ++ insert k e m
unfolding insert
insert-append k now e [] m h a = refl
insert-append k now e ((j, f) ∷ ds) m h a =
    rw (ltb-eq-false k j (omega (arith, a.0))) (ap (◌∷◌ (j, f)) (insert-append k now e ds m h a.1))

-- The timers after the second loop, where those that lie ahead are `m`.
abbrev renewed_one : ℕ → TimerEntry → TimerType → TimerMap → TimerMap
renewed_one now e once m = m
renewed_one now e permanent m = insert ((now + e.timeout) % 2 ^ 64) e m

unfoldable pub renewed : ℕ → TimerMap → TimerMap → TimerMap
renewed now [] m = m
renewed now ((j, e) ∷ ds) m = renewed now ds (renewed_one now e e.t m)

renew_lem :
    (now j : ℕ) (e : TimerEntry) (ds m : TimerMap) (p : Poller) (t : TimerType)
    → p.timers ≡ (j, e) ∷ (ds ++ m)
    → All (λ k. k ≤ now) (keys ds)
    → (t ≡ permanent → (1 ≤ e.timeout) × (now + e.timeout < 2 ^ 64))
    → (renew now e t p).timers ≡ ds ++ renewed_one now e t m
unfolding remove
renew_lem now j e ds m p once q a r = rw (q, ==_self)
renew_lem now j e ds m p permanent q a r =
    rw (q, ==_self) (insert-append _ now e ds m (omega (arith, (r refl).0, (r refl).1)) a)

pub renew_all_lem :
    (now : ℕ) (ds m : TimerMap) (p : Poller)
    → p.timers ≡ ds ++ m
    → All (λ k. k ≤ now) (keys ds)
    → Repeats now ds
    → (renew_all now ds p).timers ≡ renewed now ds m
unfolding renew_all renewed
renew_all_lem now [] m p q a r = q
renew_all_lem now ((j, e) ∷ ds) m p q a r =
    renew_all_lem now ds (renewed_one now e e.t m) (renew now e e.t p)
      (renew_lem now j e ds m p e.t q a.1 r.0) a.1 r.1

one-Pending :
    (now : ℕ) (e : TimerEntry) (m : TimerMap) (t : TimerType)
    → (t ≡ permanent → (1 ≤ e.timeout) × (now + e.timeout < 2 ^ 64))
    → Pending now m
    → Pending now (renewed_one now e t m)
one-Pending now e m once r h = h
one-Pending now e m permanent r h =
    All-insert (λ k. now < k) _ e m (omega (arith, (r refl).0, (r refl).1)) h

one-IsSorted :
    (now : ℕ) (e : TimerEntry) (m : TimerMap) (t : TimerType)
    → IsSorted m
    → IsSorted (renewed_one now e t m)
one-IsSorted now e m once h = h
one-IsSorted now e m permanent h = insert-IsSorted _ e m h

pub renewed-settled :
    (now : ℕ) (ds m : TimerMap)
    → Repeats now ds
    → Pending now m
    → IsSorted m
    → Pending now (renewed now ds m) × IsSorted (renewed now ds m)
unfolding renewed
renewed-settled now [] m r h s = (h, s)
renewed-settled now ((j, e) ∷ ds) m r h s =
    renewed-settled now ds (renewed_one now e e.t m) r.1 (one-Pending now e m e.t r.0 h)
      (one-IsSorted now e m e.t s)

-- The entries that are due, without regard to the order.
unfoldable pub expired : ℕ → TimerMap → TimerMap
expired now [] = []
expired now ((j, f) ∷ m) = if leb j now then (j, f) ∷ expired now m else expired now m

expired_none : (now : ℕ) (m : TimerMap) → Pending now m → expired now m ≡ []
unfolding expired
expired_none now [] h = refl
expired_none now ((j, f) ∷ m) h = ground (arith, h.0, expired_none now m h.1)

due-expired : (now : ℕ) (m : TimerMap) → IsSorted m → due now m ≡ expired now m
unfolding expired due
due-expired now [] s = refl
due-expired now ((j, f) ∷ m) s = elim (Bool-cases (ltb now j)) [
  | inl b ↦ rw (b, leb-eq-false j now (ltb→lt now j b)) (sym (expired_none now m (ahead b)))
  | inr b ↦ rw (b, le→leb j now (ground arith)) (ap (◌∷◌ (j, f)) (due-expired now m s.1))
]
  where
    ahead : ltb now j ≡ true → Pending now m
    ahead b =
        All-mono (λ i. j ≤ i) (λ i. now < i) (keys m) (λ i h. omega (arith, ltb→lt now j b)) s.0

-- With the timers in order, `executeTimers` calls back exactly the timers that have expired, in the
-- order of the timers.
pub execute_timers-expired :
    (now : ℕ) (p : Poller)
    → IsSorted p.timers
    → (execute_timers now p).1 ≡ events (expired now p.timers)
unfolding execute_timers
execute_timers-expired now p s = ap events (due-expired now p.timers s)
