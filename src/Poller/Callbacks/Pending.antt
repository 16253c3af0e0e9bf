-- ===== src/Poller/Callbacks/Pending.antt =====
-- core/poller.cc, `executeTimers`: the timers that are in the map behind it, where the callbacks add some.
use libserverkit.Base.{
  ℕ, ◌+◌, ◌%◌, ◌^◌, ◌≤◌, ◌<◌, ◌≡◌, refl, sym, ap, subst, ◌∙◌, some, List, [], ◌∷◌, ◌++◌, length,
  All, IsNodup,
}
use libserverkit.Poller.{
  Poller, TimerEntry, TimerMap, add_timer, insert, due, later, renew_all, execute_timers, wait_of,
  events,
}
use libserverkit.Poller.Settled.{
  keys, IsSorted, Pending, Repeats, All-insert, insert-IsSorted, due-later, later-Pending,
  later-IsSorted, due_past, due-Repeats, insert-append, renewed-settled, renew_all_lem,
}
use libserverkit.Poller.Callbacks.{TimerRequest, adds, cancels, ids, execute_calling}
use libserverkit.Poller.Callbacks.Added.{IsLater, add_all, asked, execute_calling_lem}

-- The timers `ds` that are due, and behind them others in order that lie ahead
record Splits (now : ℕ) (p : Poller) (ds : TimerMap) : Type 0 where
  rest : TimerMap
  split : p.timers ≡ ds ++ rest
  ahead : Pending now rest
  sorted : IsSorted rest

module _ (now : ℕ) (ds : TimerMap) (past : All (λ k. k ≤ now) (keys ds)) where
  add_all-Splits :
      (rs : List TimerRequest) (p : Poller)
      → All (IsLater now) rs
      → Splits now p ds
      → Splits now (add_all rs p) ds
  unfolding add_timer
  add_all-Splits [] p h c = c
  add_all-Splits (adds at timeout event t ∷ rs) p h c =
      let k = (at + timeout) % 2 ^ 64 in
      let e : TimerEntry = record {
        timeout = timeout;
        expire = k;
        event = event;
        id = (p.max_timer_id + 1) % 2 ^ 64;
        t = t;
      } in
      add_all-Splits rs (add_timer at timeout event t p).0 h.1 (record {
        rest = insert k e c.rest;
        split = ap (insert k e) c.split ∙ insert-append k now e ds c.rest h.0 past;
        ahead = All-insert (λ j. now < j) k e c.rest h.0 c.ahead;
        sorted = insert-IsSorted k e c.rest c.sorted;
      })
  add_all-Splits (cancels id ∷ rs) p h c = absurd h.0

  asked-Splits :
      (callback : ℕ → List TimerRequest) (es : List ℕ) (p : Poller)
      → ((event : ℕ) → All (IsLater now) (callback event))
      → Splits now p ds
      → Splits now (asked callback es p) ds
  asked-Splits callback [] p h c = c
  asked-Splits callback (event ∷ es) p h c =
      asked-Splits callback es (add_all (callback event) p) h
        (add_all-Splits (callback event) p (h event) c)

-- The timers are in order, the due ones have different identifiers, every permanent timer's next expiry
-- lies ahead and below 2^64, and the callbacks do nothing but add timers that expire later than the
-- poller's time: then `executeTimers` ends, and it leaves the timers, the new ones included, in order
-- with none of them due.
pub execute_calling-Pending :
    (callback : ℕ → List TimerRequest) (fuel now : ℕ) (p : Poller)
    → ((event : ℕ) → All (IsLater now) (callback event))
    → length (due now p.timers) < fuel
    → IsNodup (ids (due now p.timers))
    → IsSorted p.timers
    → Repeats now p.timers
    → (p' : Poller) × (called : List ℕ) × (wait : ℕ) × (execute_calling callback fuel now p
        ≡ some (p', called, wait))
      × Pending now p'.timers
      × IsSorted p'.timers
execute_calling-Pending callback fuel now p adding enough apart s r =
    let ds = due now p.timers in
    let q = asked callback (events ds) p in
    let c = asked-Splits now ds (due_past now p.timers) callback (events ds) p adding (record {
      rest = later now p.timers;
      split = due-later now p.timers;
      ahead = later-Pending now p.timers s;
      sorted = later-IsSorted now p.timers s;
    }) in
    let repeats = due-Repeats now p.timers r in
    let same = renew_all_lem now ds c.rest q c.split (due_past now p.timers) repeats in
    let (ahead, sorted) = renewed-settled now ds c.rest repeats c.ahead c.sorted in
    (
      renew_all now ds q,
      events ds,
      wait_of now (later now q.timers),
      execute_calling_lem callback now adding fuel p enough apart,
      subst (Pending now) (sym same) ahead,
      subst IsSorted (sym same) sorted,
    )

asked_silent : (es : List ℕ) (p : Poller) → asked (λ event. []) es p ≡ p
asked_silent [] p = refl
asked_silent (event ∷ es) p = asked_silent es p

-- Where the callbacks ask nothing of the poller, the loop does what `execute_timers` says.
execute_calling_silent :
    (fuel now : ℕ) (p : Poller)
    → length (due now p.timers) < fuel
    → IsNodup (ids (due now p.timers))
    → execute_calling (λ event. []) fuel now p ≡ some (execute_timers now p)
unfolding execute_timers
execute_calling_silent fuel now p enough apart =
    execute_calling_lem (λ event. []) now (λ event. tt) fuel p enough apart
    ∙ ap
        (λ (q : Poller). some (
          renew_all now (due now p.timers) q,
          events (due now p.timers),
          wait_of now (later now q.timers),
        ))
        (asked_silent (events (due now p.timers)) p)
