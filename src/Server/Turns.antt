-- ===== src/Server/Turns.antt =====
-- The workers take turns: what `selectWorker` gives, call after call.
use native.Mathlib.Nat.{mod-eq_of_lt, mod_self}
use libserverkit.Base.{
  ℕ, zero, suc, ◌+◌, ◌%◌, ◌≤◌, ◌<◌, ◌≡◌, ◌≢◌, ◌⊎◌, inl, inr, refl, ap, ◌∙◌, false, List, [], ◌∷◌,
  ◌==◌, arith, has, IsNodup, ==_ne, Bool-cases, eq_of_==, true, if◌then◌else◌,
}
use libserverkit.Server.{Application, select_worker}

-- The workers that the next `n` calls select.
abbrev pub selections : ℕ → Application → List ℕ
selections zero a = []
selections (suc n) a = (select_worker a).1 ∷ selections n (select_worker a).0

-- From the last worker the turn goes to the first one, from any other to the next.
next_index :
    (a : Application)
    → a.index < a.workers
    → (((a.index + 1) % a.workers ≡ a.index + 1) × (a.index + 1 < a.workers))
      ⊎ (((a.index + 1) % a.workers ≡ 0) × (a.index + 1 ≡ a.workers))
next_index a h = elim (Bool-cases (a.index + 1 == a.workers)) [
  | inl e ↦ inr (ap (λ k. k % a.workers) (eq_of_== _ _ e) ∙ mod_self a.workers, eq_of_== _ _ e)
  | inr e ↦ inl (mod-eq_of_lt (ground arith), ground arith)
]

-- One worker after the other, and from the last of `workers` back to the first: the `n` that come
-- behind the worker `i`.
abbrev pub in_turn : (n workers i : ℕ) → List ℕ
in_turn zero workers i = []
in_turn (suc n) workers i =
    if i + 1 == workers then 0 ∷ in_turn n workers 0 else (i + 1) ∷ in_turn n workers (i + 1)

pub selections_lem :
    (n : ℕ) (a : Application) → a.index < a.workers → selections n a ≡ in_turn n a.workers a.index
unfolding select_worker
selections_lem zero a h = refl
selections_lem (suc n) a h = elim (next_index a h) [
  | inl (e, lt) ↦
      rw (e, ==_ne (a.index + 1) a.workers (omega arith))
        (ap (◌∷◌ (a.index + 1)) (selections_lem n (record a { index = a.index + 1 }) lt))
  | inr (e, last) ↦
      let ends : (a.index + 1 == a.workers) ≡ true = ground arith in
      rw (e, ends) (ap (◌∷◌ 0) (selections_lem n (record a { index = 0 }) (omega arith)))
]

-- A worker that is not among the `n` that follow is not selected in `n` calls.
has-selections :
    (n : ℕ) (a : Application) (x : ℕ)
    → a.index < a.workers
    → ((i : ℕ) → 1 ≤ i → i ≤ n → (x ≢ a.index + i) × (x + a.workers ≢ a.index + i))
    → x < a.workers
    → n ≤ a.workers
    → has x (selections n a) ≡ false
unfolding select_worker
has-selections zero a x h apart small few = refl
has-selections (suc n) a x h apart small few = elim (next_index a h) [
  | inl (e, lt) ↦
      rw (e, ==_ne x (a.index + 1) (apart 1 (omega arith) (omega arith)).0)
        (has-selections n (record a { index = a.index + 1 }) x lt
          (λ i low high.
            let (p, q) = apart (suc i) (omega arith) (omega arith) in
            (λ d. p (omega arith), λ d. q (omega arith)))
          small (omega arith))
  | inr (e, lt) ↦
      rw (e, ==_ne x 0 (λ d. (apart 1 (omega arith) (omega arith)).1 (omega arith)))
        (has-selections n (record a { index = 0 }) x (omega arith)
          (λ i low high.
            let (p, q) = apart (suc i) (omega arith) (omega arith) in
            (λ d. q (omega arith), λ d. absurd (omega arith)))
          small (omega arith))
]

-- While there are workers, and the last one selected is one of them: in as many calls as there are
-- workers, or fewer, `selectWorker` selects no worker twice.
pub selections-IsNodup :
    (n : ℕ) (a : Application) → a.index < a.workers → n ≤ a.workers → IsNodup (selections n a)
unfolding select_worker
selections-IsNodup zero a h few = tt
selections-IsNodup (suc n) a h few = elim (next_index a h) [
  | inl (e, lt) ↦
      let a' = record a { index = a.index + 1 } in
      rw e (
        has-selections n a' (a.index + 1) lt (λ i low high. (λ d. omega arith, λ d. omega arith)) lt
            (omega arith),
        selections-IsNodup n a' lt (omega arith),
      )
  | inr (e, lt) ↦
      let a' = record a { index = 0 } in
      rw e (
        has-selections n a' 0 (omega arith) (λ i low high. (λ d. omega arith, λ d. omega arith))
            (omega arith) (omega arith),
        selections-IsNodup n a' (omega arith) (omega arith),
      )
]
