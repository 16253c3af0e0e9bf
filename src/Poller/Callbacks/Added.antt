-- ===== src/Poller/Callbacks/Added.antt =====
-- Callbacks that add timers for later.
use libserverkit.Base.{
  ℕ, zero, suc, ◌+◌, ◌%◌, ◌^◌, ◌≤◌, ◌<◌, ◌≡◌, refl, sym, ap, subst, ◌∙◌, true, false, inl, inr,
  some, List, [], ◌∷◌, ◌++◌, has, has_apart, ap₂, All, IsNodup, ltb, if◌then◌else◌, >>=_some, arith,
  append_assoc, append-nil, Bool-cases, ltb-eq-false, lt→ltb, ==_self, ==_ne, length,
}
use libserverkit.Poller.{
  Poller, TimerEntry, TimerMap, add_timer, insert, due, later, renew_all, wait_of, events,
}
use libserverkit.Poller.Callbacks.{
  TimerRequest, adds, cancels, ids, from_id, ask_all, fire, execute_calling,
}

-- A request that adds a timer which expires behind `now`.
abbrev pub IsLater : ℕ → TimerRequest → Type 0
IsLater now (adds at timeout event t) = now < (at + timeout) % 2 ^ 64
IsLater now (cancels id) = ⊥

abbrev IsDue : ℕ → ℕ × TimerEntry → Type 0
IsDue now x = x.0 ≤ now

module _ (now : ℕ) where
  insert_past :
      (k : ℕ) (e : TimerEntry) (pre m : TimerMap)
      → All (IsDue now) pre
      → now < k
      → insert k e (pre ++ m) ≡ pre ++ insert k e m
  unfolding insert
  insert_past k e [] m d h = refl
  insert_past k e ((j, f) ∷ pre) m d h =
      rw (ltb-eq-false k j (omega (arith, d.0, h))) (ap (◌∷◌ (j, f)) (insert_past k e pre m d.1 h))

  due-insert :
      (k : ℕ) (e : TimerEntry) (m : TimerMap) → now < k → due now (insert k e m) ≡ due now m
  unfolding insert due
  due-insert k e [] h = rw (lt→ltb now k h) refl
  due-insert k e ((j, f) ∷ m) h = elim (Bool-cases (ltb k j)) [
    | inl a ↦ let past : ltb now j ≡ true = ground arith in rw a (rw (lt→ltb now k h, past) refl)
    | inr a ↦ rw a (ap (λ r. if ltb now j then [] else (j, f) ∷ r) (due-insert k e m h))
  ]

  from_id_past :
      (j : ℕ) (e : TimerEntry) (pre m : TimerMap)
      → has e.id (ids pre) ≡ false
      → from_id e.id (pre ++ (j, e) ∷ m) ≡ some ((j, e) ∷ m)
  unfolding from_id
  from_id_past j e [] m h = rw (==_self e.id) refl
  from_id_past j e ((i, f) ∷ pre) m h =
      rw (==_ne f.id e.id (ground arith)) (from_id_past j e pre m (ground arith))

-- The poller behind requests that only add.
abbrev pub add_all : List TimerRequest → Poller → Poller
add_all [] p = p
add_all (adds at timeout event t ∷ rs) p = add_all rs (add_timer at timeout event t p).0
add_all (cancels id ∷ rs) p = add_all rs p

module _ (now : ℕ) (fired : List ℕ) where
  ask_all-add :
      (rs : List TimerRequest) (p : Poller)
      → All (IsLater now) rs
      → ask_all fired rs p ≡ some (add_all rs p)
  unfolding ask_all
  ask_all-add [] p h = refl
  ask_all-add (adds at timeout event t ∷ rs) p h =
      ask_all-add rs (add_timer at timeout event t p).0 h.1
  ask_all-add (cancels id ∷ rs) p h = absurd h.0

  -- They leave what is due in its place.
  timers-add_all :
      (rs : List TimerRequest) (p : Poller) (pre m : TimerMap)
      → All (IsLater now) rs
      → All (IsDue now) pre
      → p.timers ≡ pre ++ m
      → (m' : TimerMap) × ((add_all rs p).timers ≡ pre ++ m') × (due now m' ≡ due now m)
  unfolding add_timer
  timers-add_all [] p pre m h d e = (m, e, refl)
  timers-add_all (adds at timeout event t ∷ rs) p pre m h d e =
      let k = (at + timeout) % 2 ^ 64 in
      let f : TimerEntry = record {
        timeout = timeout;
        expire = k;
        event = event;
        id = (p.max_timer_id + 1) % 2 ^ 64;
        t = t;
      } in
      let (m', g, same) =
        timers-add_all rs (add_timer at timeout event t p).0 pre (insert k f m) h.1 d
          (ap (insert k f) e ∙ insert_past now k f pre m d h.0) in
      (m', g, same ∙ due-insert now k f m h.0)
  timers-add_all (cancels id ∷ rs) p pre m h d e = absurd h.0

ids-append : (xs ys : TimerMap) → ids (xs ++ ys) ≡ ids xs ++ ids ys
ids-append [] ys = refl
ids-append ((j, e) ∷ xs) ys = ap (◌∷◌ e.id) (ids-append xs ys)

All-snoc :
    (now : ℕ) (xs : TimerMap) (x : ℕ × TimerEntry)
    → All (IsDue now) xs
    → x.0 ≤ now
    → All (IsDue now) (xs ++ x ∷ [])
All-snoc now [] x h l = (l, tt)
All-snoc now (y ∷ xs) x h l = (h.0, All-snoc now xs x h.1 l)

not_before :
    (pre ds : TimerMap) (j : ℕ) (e : TimerEntry)
    → IsNodup (ids (pre ++ (j, e) ∷ ds))
    → has e.id (ids pre) ≡ false
not_before pre ds j e h = elim (Bool-cases (has e.id (ids pre))) [
  | inl a ↦ absurd (
      ground (
        arith,
        ==_self e.id,
        has_apart e.id (ids pre) (ids ((j, e) ∷ ds))
            (subst IsNodup (ids-append pre ((j, e) ∷ ds)) h) a,
      ))
  | inr a ↦ a
]

later_past : (now : ℕ) (pre m : TimerMap) → All (IsDue now) pre → later now (pre ++ m) ≡ later now m
unfolding later
later_past now [] m d = refl
later_past now ((j, f) ∷ pre) m d = rw (ltb-eq-false now j d.0) (later_past now pre m d.1)

later_stop :
    (now j : ℕ) (f : TimerEntry) (m : TimerMap)
    → ltb now j ≡ true
    → later now ((j, f) ∷ m) ≡ (j, f) ∷ m
unfolding later
later_stop now j f m a = rw a refl

due_go :
    (now j : ℕ) (f : TimerEntry) (m : TimerMap)
    → ltb now j ≡ false
    → due now ((j, f) ∷ m) ≡ (j, f) ∷ due now m
unfolding due
due_go now j f m a = rw a refl

due_stop :
    (now j : ℕ) (f : TimerEntry) (m : TimerMap) → ltb now j ≡ true → due now ((j, f) ∷ m) ≡ []
unfolding due
due_stop now j f m a = rw a refl

module _ (callback : ℕ → List TimerRequest) where
  -- The callbacks of some events, one after another.
  abbrev pub asked : List ℕ → Poller → Poller
  asked [] p = p
  asked (event ∷ more) p = asked more (add_all (callback event) p)

  module _ (now : ℕ) (adding : (event : ℕ) → All (IsLater now) (callback event)) where
    -- What the loop gives, where `ds` are called back.
    abbrev Fires : ℕ → TimerMap → TimerMap → Poller → TimerMap → Type 0
    Fires fuel pre m p ds =
        let p' = asked (events ds) p in
        fire callback fuel now pre m p ≡ some (p', pre ++ ds, wait_of now (later now p'.timers))

    stopped :
        (fuel : ℕ) (pre : TimerMap) (j : ℕ) (f : TimerEntry) (m : TimerMap) (p : Poller)
        → p.timers ≡ pre ++ (j, f) ∷ m
        → All (IsDue now) pre
        → ltb now j ≡ true
        → Fires (suc fuel) pre ((j, f) ∷ m) p (due now ((j, f) ∷ m))
    unfolding fire
    stopped fuel pre j f m p e d a =
        subst (Fires (suc fuel) pre ((j, f) ∷ m) p) (sym (due_stop now j f m a)) (
          rw a (
            ap₂ (λ x w. some (p, x, wait_of now w)) (sym (append-nil pre))
              (sym
                (ap (later now) e ∙ (later_past now pre ((j, f) ∷ m) d ∙ later_stop now j f m a)))))

    called :
        (fuel : ℕ) (pre : TimerMap) (j : ℕ) (f : TimerEntry) (m m' : TimerMap) (p : Poller)
        → ltb now j ≡ false
        → (add_all (callback f.event) p).timers ≡ (pre ++ (j, f) ∷ []) ++ m'
        → has f.id (ids pre) ≡ false
        → Fires fuel (pre ++ (j, f) ∷ []) m' (add_all (callback f.event) p) (due now m)
        → Fires (suc fuel) pre ((j, f) ∷ m) p ((j, f) ∷ due now m)
    unfolding fire
    called fuel pre j f m m' p a g free rec =
        let p' = add_all (callback f.event) p in
        let p'' = asked (events (due now m)) p' in
        let found : from_id f.id p'.timers ≡ some ((j, f) ∷ m') =
          ap (from_id f.id) (g ∙ append_assoc pre ((j, f) ∷ []) m')
          ∙ from_id_past now j f pre m' free in
        rw a (
          >>=_some _ _
            (ask_all-add now (ids (pre ++ (j, f) ∷ [])) (callback f.event) p (adding f.event))
            (>>=_some _ _ found (
              rec
              ∙ ap (λ x. some (p'', x, wait_of now (later now p''.timers)))
                  (append_assoc pre ((j, f) ∷ []) (due now m)))))

    fire_lem :
        (fuel : ℕ) (pre m : TimerMap) (p : Poller)
        → length (due now m) < fuel
        → p.timers ≡ pre ++ m
        → All (IsDue now) pre
        → IsNodup (ids (pre ++ due now m))
        → Fires fuel pre m p (due now m)
    unfolding fire due later
    fire_lem zero pre m p l e d n = absurd (omega (arith, l))
    fire_lem (suc fuel) pre [] p l e d n =
        ap₂ (λ x w. some (p, x, wait_of now w)) (sym (append-nil pre))
          (sym (ap (later now) e ∙ later_past now pre [] d))
    fire_lem (suc fuel) pre ((j, f) ∷ m) p l e d n = elim (Bool-cases (ltb now j)) [
      | inl a ↦ stopped fuel pre j f m p e d a
      | inr a ↦ subst (Fires (suc fuel) pre ((j, f) ∷ m) p) (sym (due_go now j f m a)) (
          let pre' = pre ++ (j, f) ∷ [] in
          let d' = All-snoc now pre (j, f) d (ground arith) in
          let n' = subst (λ ds. IsNodup (ids (pre ++ ds))) (due_go now j f m a) n in
          let p' = add_all (callback f.event) p in
          let (m', g, same) =
            timers-add_all now (ids pre') (callback f.event) p pre' m (adding f.event) d'
              (e ∙ sym (append_assoc pre ((j, f) ∷ []) m)) in
          let l' = subst (λ ds. length ds < suc fuel) (due_go now j f m a) l in
          let rec = fire_lem fuel pre' m' p' (omega (arith, l', ap length same)) g d' (
            subst (λ ds. IsNodup (ids ds))
              (sym (append_assoc pre ((j, f) ∷ []) (due now m)) ∙ ap (λ ds. pre' ++ ds) (sym same))
              n') in
          called fuel pre j f m m' p a g (not_before pre (due now m) j f n')
            (subst (Fires fuel pre' m' p') same rec))
    ]

    -- Where the callbacks do nothing but add timers that expire later than the poller's time, and the
    -- due timers have different identifiers: `executeTimers` ends, it has called back exactly the
    -- timers that were due when it began, in their order, each once; it has put them back or dropped
    -- them behind all the callbacks; and it returns the wait until the first timer that is then not
    -- due, the new ones included.
    pub execute_calling_lem :
        (fuel : ℕ) (p : Poller)
        → length (due now p.timers) < fuel
        → IsNodup (ids (due now p.timers))
        → let ds = due now p.timers in
          let p' = asked (events ds) p in
          execute_calling callback fuel now p
          ≡ some (renew_all now ds p', events ds, wait_of now (later now p'.timers))
    unfolding execute_calling
    execute_calling_lem fuel p l n = >>=_some _ _ (fire_lem fuel [] p.timers p l refl tt n) refl
