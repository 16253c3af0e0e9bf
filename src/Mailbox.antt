-- ===== src/Mailbox.antt =====
-- core/mailbox.h, core/mailbox.cc and core/signaler.cc: many senders and one receiver over a pipe.
-- The signaler is an event counter of the kernel, which does not block: a write adds the number written
-- or fails, a read takes all or fails at 0.
pub mod Invariant
mod Shapes
mod Steps
pub mod Delivery
pub mod Drain
pub mod Flush
use libserverkit.Base.{
  not, ℕ, zero, suc, ◌+◌, ◌-◌, ◌≡◌, ◌<◌, Bool, true, false, Option, none, some, List, [], ◌∷◌, ◌++◌,
  Bytes, ◌^◌, ltb, if◌then◌else◌,
}
use libserverkit.YPipe.{YPipe, new_pipe, write, flush_cas, flush_set, check_read, read}

-- `held` is what is written and not yet stored by a sender whose compare-and-swap failed, `owed`
-- the senders that have to call `Signaler::Send`, `sent` and `received` the messages so far.
pub record Mailbox : Type 0 where
  pub pipe : YPipe
  pub active : Bool
  pub counter : ℕ
  pub held : Bool
  pub owed : ℕ
  pub sent : List ℕ
  pub received : List ℕ

-- `Mailbox()`: `CheckRead` of the empty pipe puts the reader to sleep.
unfoldable pub new_mailbox : Bytes → Mailbox
new_mailbox values = record {
  pipe = (check_read (new_pipe values)).0;
  active = false;
  counter = 0;
  held = false;
  owed = 0;
  sent = [];
  received = [];
}

-- `Send` up to the compare-and-swap of `Flush`, under the lock. The pipe is never flushed up to
-- `f_` there, since a message was just written.
unfoldable pub send : ℕ → Mailbox → Mailbox
send msg m =
    let (p, awake) = flush_cas (write msg false m.pipe) in
    record m { pipe = p; held = not awake; sent = m.sent ++ msg ∷ [] }

-- The store of `Flush` where the reader sleeps; then the lock is given back.
unfoldable pub store : Mailbox → Mailbox
store m = record m { pipe = flush_set m.pipe; held = false; owed = m.owed + 1 }

-- The counter goes up to 2^64 - 2. The write that would lead beyond fails, as does that of 2^64 - 1, and
-- leaves the counter as it was.
abbrev pub counter_limit : ℕ
counter_limit = 2 ^ 64 - 1

abbrev pub event_write : ℕ → ℕ → ℕ
event_write counter number =
    if ltb (counter + number) counter_limit then counter + number else counter

-- `Signaler::Send`, which writes the value `dummy`, and once more only after an interrupt.
unfoldable pub signal : ℕ → Mailbox → Mailbox
signal dummy m = record m { counter = event_write m.counter dummy; owed = m.owed - 1 }

-- The message that `Read` gave, if any, is the receiver's.
abbrev pub deliver : Option ℕ → List ℕ → List ℕ
deliver none xs = xs
deliver (some v) xs = xs ++ v ∷ []

abbrev pub is_some : Option ℕ → Bool
is_some none = false
is_some (some v) = true

-- `Recv` while `active_`: it reads, or becomes passive.
unfoldable pub recv_active : Mailbox → Mailbox × Option ℕ
recv_active m =
    let (p, got) = read m.pipe in
    (record m { pipe = p; active = is_some got; received = deliver got m.received }, got)

-- `Recv` after a signal: it takes the signal, becomes active and reads, without a look at the
-- result.
unfoldable pub recv_woken : Mailbox → Mailbox × Option ℕ
recv_woken m =
    let (p, got) = read m.pipe in
    (record m { pipe = p; active = true; counter = 0; received = deliver got m.received }, got)

-- The threads' steps. One sender at a time holds the lock; `dummy` is what the senders write to the
-- counter.
pub data Step (dummy : ℕ) : Mailbox → Mailbox → Type 0 where
  sends : (m : Mailbox) (msg : ℕ) → m.held ≡ false → Step dummy m (send msg m)
  stores : (m : Mailbox) → m.held ≡ true → Step dummy m (store m)
  signals : (m : Mailbox) → 0 < m.owed → Step dummy m (signal dummy m)
  polls : (m : Mailbox) → m.active ≡ true → Step dummy m (recv_active m).0
  wakes : (m : Mailbox) → m.active ≡ false → 0 < m.counter → Step dummy m (recv_woken m).0

pub data Reach (dummy : ℕ) (s : Mailbox) : Mailbox → Type 0 where
  here : Reach dummy s s
  next : {t u : Mailbox} → Reach dummy s t → Step dummy t u → Reach dummy s u
