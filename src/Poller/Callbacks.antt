-- ===== src/Poller/Callbacks.antt =====
-- core/poller.cc, `executeTimers`, where the timers' callbacks themselves use the poller.
pub mod Added
pub mod Pending
use libserverkit.Base.{
  ℕ, zero, suc, ◌+◌, ◌%◌, ◌^◌, Bool, true, false, Option, none, some, List, [], ◌∷◌, ◌++◌, ◌==◌,
  has, ltb, if◌then◌else◌, ◌>>=◌,
}
use libserverkit.Poller.{
  Poller, TimerEntry, TimerType, TimerMap, add_timer, cancel_timer, find_id, renew_all, wait_of,
  events,
}

-- What a callback asks of the poller; `at` is the clock's reading in `AddTimer`.
pub data TimerRequest : Type 0 where
  adds : (at timeout event : ℕ) → TimerType → TimerRequest
  cancels : (id : ℕ) → TimerRequest

abbrev pub ids : TimerMap → List ℕ
ids [] = []
ids ((j, e) ∷ m) = e.id ∷ ids m

-- The rest of the map from the entry with an identifier on.
unfoldable pub from_id : ℕ → TimerMap → Option TimerMap
from_id id [] = none
from_id id ((j, e) ∷ m) = if e.id == id then some ((j, e) ∷ m) else from_id id m

-- Whether `CancelTimer` of one of the timers `fired` is a real one. The loop still has an iterator
-- to its entry, which it erases later.
abbrev pub spoils : Bool → Option TimerEntry → Bool
spoils fired none = false
spoils fired (some e) = fired

-- The requests of one callback; `none` is what has no defined meaning.
unfoldable pub ask_all : List ℕ → List TimerRequest → Poller → Option Poller
ask_all fired [] p = some p
ask_all fired (adds at timeout event t ∷ rs) p = ask_all fired rs (add_timer at timeout event t p).0
ask_all fired (cancels id ∷ rs) p =
    if spoils (has id fired) (find_id id p.timer_ids)
    then none
    else (do p' ← cancel_timer id p; ask_all fired rs p')

abbrev pub tail_of : TimerMap → TimerMap
tail_of [] = []
tail_of (x ∷ m) = m

module _ (callback : ℕ → List TimerRequest) where
  -- The first loop, from the iterator on, with the entries that were called back before. The
  -- iterator goes on in the map as the callback leaves it. `none` is also a loop that does not end
  -- within the fuel.
  unfoldable pub fire : ℕ → ℕ → TimerMap → TimerMap → Poller → Option (Poller × TimerMap × ℕ)
  unfolding ask_all from_id
  fire zero now fired here p = none
  fire (suc fuel) now fired [] p = some (p, fired, wait_of now [])
  fire (suc fuel) now fired ((j, e) ∷ m) p =
      let called = fired ++ (j, e) ∷ [] in
      let next = (do
        p' ← ask_all (ids called) (callback e.event) p
        here ← from_id e.id p'.timers
        fire fuel now called (tail_of here) p') in
      if ltb now j then some (p, fired, wait_of now ((j, e) ∷ m)) else next

  -- `executeTimers`, with its result and the events called back
  unfoldable pub execute_calling : ℕ → ℕ → Poller → Option (Poller × List ℕ × ℕ)
  unfolding fire
  execute_calling fuel now p = do
    (p', fired, wait) ← fire fuel now [] p.timers p
    some (renew_all now fired p', events fired, wait)

  -- `Dispatch`, where `CurrentMs` reads `now`: `poll` is the `Poll` of a kind of poller, by its timeout.
  unfoldable pub dispatch_timers :
      {A : Type 0} → (ℕ → A) → ℕ → ℕ → Poller → Option (Poller × List ℕ × A)
  unfolding execute_calling
  dispatch_timers poll fuel now p = do
    (p', called, wait) ← execute_calling fuel now p
    some (p', called, poll wait)
