-- ===== src/Poller.antt =====
-- The timers of core/poller.h and core/poller.cc. `timers_` is a list in the order of its keys, those
-- of one key in the order of their insertion. An entry does not change after it is made, so it stands
-- in both maps as a value, and what would be used after `delete` shows as an entry that only
-- `timers_` has. A timer's callback is an effect, and does not itself use the poller.
pub mod Settled
pub mod Cancel
pub mod Callbacks
use libserverkit.Base.{
  ℕ, ◌+◌, ◌-◌, ◌%◌, ◌^◌, Bool, true, false, Option, none, some, List, [], ◌∷◌, ◌==◌, ltb, leb,
  if◌then◌else◌, not, ◌&&◌, ◌>>=◌,
}

abbrev pub default_timeout : ℕ
default_timeout = 100

pub data TimerType : Type 0 where
  once permanent : TimerType

pub record TimerEntry : Type 0 where
  pub timeout : ℕ
  pub expire : ℕ
  pub event : ℕ
  pub id : ℕ
  pub t : TimerType

abbrev pub TimerMap : Type 0
TimerMap = List (ℕ × TimerEntry)

pub record Poller : Type 0 where
  pub timers : TimerMap
  pub timer_ids : TimerMap
  pub max_timer_id : ℕ

abbrev pub new_poller : Poller
new_poller = record { timers = []; timer_ids = []; max_timer_id = 0 }

-- `multimap::insert`: behind the entries of the same key.
unfoldable pub insert : ℕ → TimerEntry → TimerMap → TimerMap
insert k e [] = (k, e) ∷ []
insert k e ((j, f) ∷ m) = if ltb k j then (k, e) ∷ (j, f) ∷ m else (j, f) ∷ insert k e m

-- `multimap::erase` of the iterator to an entry, which its identifier names.
unfoldable pub remove : ℕ → TimerMap → TimerMap
remove id [] = []
remove id ((j, f) ∷ m) = if id == f.id then m else (j, f) ∷ remove id m

-- `timer_ids_`: `find`, `erase` and `operator[] =` of an identifier that is new.
unfoldable pub find_id : ℕ → TimerMap → Option TimerEntry
find_id id [] = none
find_id id ((j, f) ∷ m) = if id == j then some f else find_id id m

unfoldable pub erase_id : ℕ → TimerMap → TimerMap
erase_id id [] = []
erase_id id ((j, f) ∷ m) = if id == j then m else (j, f) ∷ erase_id id m

-- `AddTimer` at the reading `now` of `CurrentMs`, with the timer's identifier.
unfoldable pub add_timer : ℕ → ℕ → ℕ → TimerType → Poller → Poller × ℕ
unfolding insert
add_timer now timeout event t p =
    let id = (p.max_timer_id + 1) % 2 ^ 64 in
    let e : TimerEntry = record {
      timeout = timeout;
      expire = (now + timeout) % 2 ^ 64;
      event = event;
      id = id;
      t = t;
    } in
    (
      record p {
        timers = insert e.expire e p.timers;
        timer_ids = (id, e) ∷ p.timer_ids;
        max_timer_id = id;
      },
      id,
    )

abbrev keep : ℕ × TimerEntry → Option TimerMap → Option TimerMap
keep x none = none
keep x (some m) = some (x ∷ m)

-- The loop of `CancelTimer` and the `erase` after it: from `lower_bound(expire)` to the entry, or to
-- `upper_bound(expire)`, and what is there is erased. `none` is `erase(end())`, which is undefined.
unfoldable pub erase_at : ℕ → ℕ → TimerMap → Option TimerMap
erase_at expire id [] = none
erase_at expire id ((j, f) ∷ m) =
    let rest = keep (j, f) (erase_at expire id m) in
    if ltb j expire then rest else if (j == expire) && not (f.id == id) then rest else some m

-- `CancelTimer`, from the entry that was looked up on.
unfoldable pub cancel_entry : Option TimerEntry → ℕ → Poller → Option Poller
unfolding erase_at erase_id
cancel_entry none id p = some p
cancel_entry (some e) id p = do
  ts ← erase_at e.expire id p.timers
  some (record p { timers = ts; timer_ids = erase_id id p.timer_ids })

-- `CancelTimer`
unfoldable pub cancel_timer : ℕ → Poller → Option Poller
unfolding cancel_entry find_id
cancel_timer id p = cancel_entry (find_id id p.timer_ids) id p

-- The first loop of `executeTimers`: the entries that are due, in order, and the first that is not.
unfoldable pub due : ℕ → TimerMap → TimerMap
due now [] = []
due now ((j, f) ∷ m) = if ltb now j then [] else (j, f) ∷ due now m

unfoldable pub later : ℕ → TimerMap → TimerMap
later now [] = []
later now ((j, f) ∷ m) = if ltb now j then (j, f) ∷ m else later now m

abbrev pub events : TimerMap → List ℕ
events [] = []
events ((j, f) ∷ m) = f.event ∷ events m

-- One round of the second loop.
abbrev pub renew : ℕ → TimerEntry → TimerType → Poller → Poller
renew now e once p = record p {
  timers = remove e.id p.timers;
  timer_ids = erase_id e.id p.timer_ids;
}
renew now e permanent p = record p {
  timers = insert ((now + e.timeout) % 2 ^ 64) e (remove e.id p.timers);
}

unfoldable pub renew_all : ℕ → TimerMap → Poller → Poller
renew_all now [] p = p
renew_all now ((j, e) ∷ ds) p = renew_all now ds (renew now e e.t p)

-- The result, an `int`, as its 32 bits.
abbrev pub wait_of : ℕ → TimerMap → ℕ
wait_of now [] = default_timeout
wait_of now ((j, f) ∷ m) = (j - now) % 2 ^ 32

-- `executeTimers`, where the callbacks leave the poller alone: the poller, the events whose `Timeout`
-- is called, the result.
unfoldable pub execute_timers : ℕ → Poller → Poller × List ℕ × ℕ
unfolding due later renew_all
execute_timers now p = (
  renew_all now (due now p.timers) p,
  events (due now p.timers),
  wait_of now (later now p.timers),
)
