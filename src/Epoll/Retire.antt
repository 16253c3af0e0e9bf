-- ===== src/Epoll/Retire.antt =====
-- Entries are deleted when the loop over the events is done; an entry for which `Del` is called twice
-- is deleted twice.
use libserverkit.Base.{
  ℕ, suc, ◌+◌, ◌≤◌, ◌<◌, ◌≡◌, ◌≢◌, refl, sym, subst, Bool, true, false, inl, inr, none, some, List,
  [], ◌∷◌, ◌++◌, ◌==◌, arith, has, IsNodup, IsNodup-move, IsNodup-insert, has_above, All,
  All-append, All-left, All-right, All-mono, Bool-cases, ltb, ==_ne, append_assoc, append-nil,
}
use libserverkit.Epoll.{
  Epoll, EpollEntry, PollerCall, adds_event, dels_handle, marks_handle, call_poller, call_all, add,
  del, mark_writeable, is_valid, set_entry, process_retired, new_epoll, incr_poll_size,
}
use libserverkit.Epoll.Calls.{del-invalid, del_self}

-- The entries that are deleted or wait for it differ, and are made and invalid; so is what was never
-- made.
pub record IsSound (s : Epoll) : Type 0 where
  pub positive : 0 < s.brk
  pub distinct : IsNodup (s.deleted ++ s.retired_list)
  pub made : All (λ a. a < s.brk) (s.deleted ++ s.retired_list)
  pub unmade : (a : ℕ) → s.brk ≤ a → is_valid (s.entry a).fd ≡ false
  pub invalid : All (λ a. is_valid (s.entry a).fd ≡ false) (s.deleted ++ s.retired_list)

-- What is deleted, at once or later.
abbrev doomed : Epoll → List ℕ
doomed s = s.deleted ++ s.retired_list

valid_ne :
    (s : Epoll) (a x : ℕ) → is_valid (s.entry a).fd ≡ true → is_valid (s.entry x).fd ≡ false → a ≢ x
valid_ne s a x v g e =
    let g' = subst (λ b. is_valid (s.entry b).fd ≡ false) (sym e) g in
    absurd (ground (arith, v, g'))

not_doomed :
    (s : Epoll) (a : ℕ) (xs : List ℕ)
    → All (λ b. is_valid (s.entry b).fd ≡ false) xs
    → is_valid (s.entry a).fd ≡ true
    → has a xs ≡ false
not_doomed s a [] h v = refl
not_doomed s a (x ∷ xs) h v = rw (==_ne a x (valid_ne s a x v h.0), not_doomed s a xs h.1 v) refl

All-put :
    (P : ℕ → Type 0) (us : List ℕ) (x : ℕ) (vs : List ℕ)
    → P x
    → All P (us ++ vs)
    → All P ((us ++ x ∷ []) ++ vs)
All-put P [] x vs p h = (p, h)
All-put P (u ∷ us) x vs p h = (h.0, All-put P us x vs p h.1)

All-last :
    (P : ℕ → Type 0) (us vs : List ℕ) (x : ℕ)
    → P x
    → All P (us ++ vs)
    → All P (us ++ (vs ++ x ∷ []))
All-last P us vs x p h =
    All-append P us (vs ++ x ∷ []) (All-left P us vs h)
      (All-append P vs (x ∷ []) (All-right P us vs h) (p, tt))

IsNodup-put :
    (us : List ℕ) (x : ℕ) (vs : List ℕ)
    → has x (us ++ vs) ≡ false
    → IsNodup (us ++ vs)
    → IsNodup ((us ++ x ∷ []) ++ vs)
IsNodup-put us x vs e h =
    subst IsNodup (sym (append_assoc us (x ∷ []) vs)) (IsNodup-insert x us vs e h)

-- `Del` of `NULL`, or of an entry whose descriptor is valid.
del-IsSound :
    (h rc : ℕ) (s : Epoll)
    → ((h == 0) ≡ false → is_valid (s.entry h).fd ≡ true)
    → IsSound s
    → IsSound (del h rc s).1
unfolding del
del-IsSound h rc s live sound = elim (Bool-cases (h == 0)) [
  | inl nothing ↦ rw nothing sound
  | inr some_entry ↦
      let valid = live some_entry in
      let absent = not_doomed s h (doomed s) sound.invalid valid in
      let small : h < s.brk = ground (arith, sound.unmade h) in
      let gone = λ (a : ℕ). del-invalid h rc a s in
      rw some_entry (record {
        positive = sound.positive;
        distinct =
            IsNodup-move s.deleted h s.retired_list
              (IsNodup-insert h s.deleted s.retired_list absent sound.distinct);
        made = All-last (λ a. a < s.brk) s.deleted s.retired_list h small sound.made;
        unmade = λ a big. rw some_entry at (gone a (sound.unmade a big));
        invalid =
            All-last
              (λ a. is_valid (set_entry s.entry h (record (s.entry h) { fd = none }) a).fd ≡ false)
              s.deleted s.retired_list h (rw some_entry at (del_self h rc s some_entry))
              (All-mono (λ a. is_valid (s.entry a).fd ≡ false)
                (λ a.
                  is_valid (set_entry s.entry h (record (s.entry h) { fd = none }) a).fd ≡ false)
                (doomed s) (λ a g. rw some_entry at (gone a g)) sound.invalid);
      })
]

-- A new entry changes none that was made.
old_invalid :
    (s : Epoll) (e : EpollEntry) (xs : List ℕ)
    → All (λ a. a < s.brk) xs
    → All (λ a. is_valid (s.entry a).fd ≡ false) xs
    → All (λ a. is_valid (set_entry s.entry s.brk e a).fd ≡ false) xs
old_invalid s e [] h g = tt
old_invalid s e (x ∷ xs) h g =
    (rw (==_ne x s.brk (omega (arith, h.0))) g.0, old_invalid s e xs h.1 g.1)

made-IsSound :
    (size : ℕ) (e : EpollEntry) (s : Epoll)
    → IsSound s
    → IsSound (record s { size = size; entry = set_entry s.entry s.brk e; brk = suc s.brk })
made-IsSound size e s sound = record {
  positive = omega arith;
  distinct = sound.distinct;
  made = All-mono (λ a. a < s.brk) (λ a. a < suc s.brk) (doomed s) (λ a h. omega arith) sound.made;
  unmade = λ a big. rw (==_ne a s.brk (omega arith)) (sound.unmade a (omega arith));
  invalid = old_invalid s e (doomed s) sound.made sound.invalid;
}

add-IsSound :
    (fd event : ℕ) (added : Bool) (s : Epoll) → IsSound s → IsSound (add fd event added s).1
unfolding add
add-IsSound fd event false s sound = record {
  positive = omega arith;
  distinct =
      IsNodup-put s.deleted s.brk s.retired_list (has_above (doomed s) s.brk sound.made)
        sound.distinct;
  made =
      All-put (λ a. a < suc s.brk) s.deleted s.brk s.retired_list (omega arith)
        (All-mono (λ a. a < s.brk) (λ a. a < suc s.brk) (doomed s) (λ a h. omega arith) sound.made);
  unmade = λ a big. sound.unmade a (omega arith);
  invalid =
      All-put (λ a. is_valid (s.entry a).fd ≡ false) s.deleted s.brk s.retired_list
        (sound.unmade s.brk (omega arith)) sound.invalid;
}
add-IsSound fd event true s sound = elim (Bool-cases (ltb s.size fd)) [
  | inl grows ↦
      rw grows (made-IsSound (fd + incr_poll_size) (record { fd = some fd; event = event }) s sound)
  | inr fits ↦ rw fits (made-IsSound s.size (record { fd = some fd; event = event }) s sound)
]

mark-IsSound : (h : ℕ) (s : Epoll) → IsSound s → IsSound (mark_writeable h s)
unfolding mark_writeable
mark-IsSound h s sound = elim (Bool-cases (h == 0)) [
  | inl nothing ↦ rw nothing sound
  | inr some_entry ↦ rw some_entry (record {
    positive = sound.positive;
    distinct = sound.distinct;
    made = sound.made;
    unmade = sound.unmade;
    invalid = sound.invalid;
  })
]

-- `Del` is called with no handle but `NULL` and those of entries that are still valid.
abbrev pub IsProper : List PollerCall → Epoll → Type 0
IsProper [] s = Unit
IsProper (adds_event fd event added ∷ cs) s = IsProper cs (add fd event added s).1
IsProper (dels_handle h rc ∷ cs) s =
    ((h == 0) ≡ false → is_valid (s.entry h).fd ≡ true) × IsProper cs (del h rc s).1
IsProper (marks_handle h ∷ cs) s = IsProper cs (mark_writeable h s)

call_all-IsSound :
    (cs : List PollerCall) (s : Epoll) → IsProper cs s → IsSound s → IsSound (call_all cs s)
unfolding call_all call_poller
call_all-IsSound [] s p sound = sound
call_all-IsSound (adds_event fd event added ∷ cs) s p sound =
    call_all-IsSound cs (add fd event added s).1 p (add-IsSound fd event added s sound)
call_all-IsSound (dels_handle h rc ∷ cs) s p sound =
    call_all-IsSound cs (del h rc s).1 p.1 (del-IsSound h rc s p.0 sound)
call_all-IsSound (marks_handle h ∷ cs) s p sound =
    call_all-IsSound cs (mark_writeable h s) p (mark-IsSound h s sound)

process_retired-IsSound : (s : Epoll) → IsSound s → IsSound (process_retired s)
unfolding process_retired
process_retired-IsSound s sound =
    let e = append-nil (doomed s) in
    record {
      positive = sound.positive;
      distinct = subst IsNodup (sym e) sound.distinct;
      made = subst (All (λ a. a < s.brk)) (sym e) sound.made;
      unmade = sound.unmade;
      invalid = subst (All (λ a. is_valid (s.entry a).fd ≡ false)) (sym e) sound.invalid;
    }

-- Rounds of the poller: what the handlers ask for, and then `processRetired`.
abbrev pub rounds : List (List PollerCall) → Epoll → Epoll
rounds [] s = s
rounds (cs ∷ css) s = rounds css (process_retired (call_all cs s))

abbrev pub AllProper : List (List PollerCall) → Epoll → Type 0
AllProper [] s = Unit
AllProper (cs ∷ css) s = IsProper cs s × AllProper css (process_retired (call_all cs s))

rounds-IsSound :
    (css : List (List PollerCall)) (s : Epoll)
    → AllProper css s
    → IsSound s
    → IsSound (rounds css s)
rounds-IsSound [] s p sound = sound
rounds-IsSound (cs ∷ css) s p sound =
    rounds-IsSound css (process_retired (call_all cs s)) p.1
      (process_retired-IsSound (call_all cs s) (call_all-IsSound cs s p.0 sound))

new_epoll-IsSound : (size : ℕ) → IsSound (new_epoll size)
unfolding new_epoll
new_epoll-IsSound size = record {
  positive = omega arith;
  distinct = tt;
  made = tt;
  unmade = λ a big. refl;
  invalid = tt;
}

-- Over any rounds of a new poller in which `Del` is called with no handle but `NULL` and those of
-- entries that are still valid: no entry is deleted twice, and none that is deleted, or waits for it,
-- is valid.
pub deleted-IsNodup :
    (size : ℕ) (css : List (List PollerCall))
    → AllProper css (new_epoll size)
    → let s = rounds css (new_epoll size) in
      IsNodup (s.deleted ++ s.retired_list)
      × ((a : ℕ) → is_valid (s.entry a).fd ≡ true → has a (s.deleted ++ s.retired_list) ≡ false)
deleted-IsNodup size css p =
    let s = rounds css (new_epoll size) in
    let sound = rounds-IsSound css (new_epoll size) p (new_epoll-IsSound size) in
    (sound.distinct, λ a v. not_doomed s a (doomed s) sound.invalid v)
