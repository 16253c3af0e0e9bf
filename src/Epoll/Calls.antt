-- ===== src/Epoll/Calls.antt =====
-- What the poller's calls leave as it was.
use libserverkit.Base.{
  ℕ, suc, ◌<◌, ◌≡◌, refl, Bool, true, false, inl, inr, ◌==◌, arith, Bool-cases, ==_ne, ==_self, ltb,
}
use libserverkit.Epoll.{Epoll, add, del, mark_writeable, is_valid}

-- `Add` takes the next address, and leaves the entries that were made.
pub add-brk : (fd event : ℕ) (added : Bool) (s : Epoll) → (add fd event added s).1.brk ≡ suc s.brk
unfolding add
add-brk fd event false s = refl
add-brk fd event true s = elim (Bool-cases (ltb s.size fd)) [
  | inl grows ↦ rw grows refl
  | inr fits ↦ rw fits refl
]

pub add-entry :
    (fd event : ℕ) (added : Bool) (s : Epoll) (a : ℕ)
    → a < s.brk
    → (add fd event added s).1.entry a ≡ s.entry a
unfolding add
add-entry fd event false s a h = refl
add-entry fd event true s a h = elim (Bool-cases (ltb s.size fd)) [
  | inl grows ↦ rw (grows, ==_ne a s.brk (omega arith)) refl
  | inr fits ↦ rw (fits, ==_ne a s.brk (omega arith)) refl
]

-- `Del` makes no entry, and no descriptor valid.
pub del-brk : (h rc : ℕ) (s : Epoll) → (del h rc s).1.brk ≡ s.brk
unfolding del
del-brk h rc s = elim (Bool-cases (h == 0)) [
  | inl nothing ↦ rw nothing refl
  | inr some_entry ↦ rw some_entry refl
]

pub del-invalid :
    (h rc a : ℕ) (s : Epoll)
    → is_valid (s.entry a).fd ≡ false
    → is_valid ((del h rc s).1.entry a).fd ≡ false
unfolding del
del-invalid h rc a s gone = elim (Bool-cases (h == 0)) [
  | inl nothing ↦ rw nothing gone
  | inr some_entry ↦ elim (Bool-cases (a == h)) [
    | inl same ↦ rw (some_entry, same) refl
    | inr other ↦ rw (some_entry, other) gone
  ]
]

pub del_self :
    (h rc : ℕ) (s : Epoll) → (h == 0) ≡ false → is_valid ((del h rc s).1.entry h).fd ≡ false
unfolding del
del_self h rc s e = rw (e, ==_self h) refl

pub mark_writeable-same :
    (h a : ℕ) (s : Epoll)
    → ((mark_writeable h s).brk ≡ s.brk) × ((mark_writeable h s).entry a ≡ s.entry a)
unfolding mark_writeable
mark_writeable-same h a s = elim (Bool-cases (h == 0)) [
  | inl nothing ↦ rw nothing (refl, refl)
  | inr some_entry ↦ rw some_entry (refl, refl)
]
