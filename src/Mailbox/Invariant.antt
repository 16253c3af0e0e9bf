-- ===== src/Mailbox/Invariant.antt =====
-- The shapes a mailbox takes while the threads run, and that each step leads from one to another.
use libserverkit.Base.{
  ℕ, ◌-◌, ◌≤◌, ◌<◌, ◌≡◌, Bool, true, false, none, some, List, ◌++◌, Bytes, slice,
}
use libserverkit.YPipe.{YPipe}
use libserverkit.Mailbox.{Mailbox, event_write}

-- The messages written and not yet read.
abbrev pub waiting : YPipe → List ℕ
waiting p = slice p.values p.front (p.back - p.front)

-- The reader is active; it has prefetched up to `k`.
abbrev pub awake_box : Bytes → ℕ → ℕ → ℕ → List ℕ → List ℕ → Mailbox
awake_box values front k w received sent = record {
  pipe = record { values = values; front = front; back = w; w = w; r = some k; f = w; c = some w };
  active = true;
  counter = 0;
  held = false;
  owed = 0;
  sent = sent;
  received = received;
}

-- The reader sleeps, and no more than `b` is written; with `held`, a sender is to store.
abbrev pub asleep_box : Bytes → ℕ → ℕ → Bool → List ℕ → List ℕ → Mailbox
asleep_box values n b held received sent = record {
  pipe = record { values = values; front = n; back = b; w = n; r = some n; f = b; c = none };
  active = false;
  counter = 0;
  held = held;
  owed = 0;
  sent = sent;
  received = received;
}

-- The reader sleeps, there are messages, and it is signalled or will be.
abbrev pub ready_box : Bytes → ℕ → ℕ → ℕ → ℕ → List ℕ → List ℕ → Mailbox
ready_box values front w owed counter received sent = record {
  pipe = record {
    values = values;
    front = front;
    back = w;
    w = w;
    r = some front;
    f = w;
    c = some w;
  };
  active = false;
  counter = counter;
  held = false;
  owed = owed;
  sent = sent;
  received = received;
}

-- `received ++ waiting ≡ sent`
abbrev pub InOrder : Mailbox → Type 0
InOrder m = m.received ++ waiting m.pipe ≡ m.sent

pub data Shape (dummy : ℕ) : Mailbox → Type 0 where
  awake :
      (values : Bytes) (front k w : ℕ) (received sent : List ℕ)
      → front ≤ k
      → k ≤ w
      → InOrder (awake_box values front k w received sent)
      → Shape dummy (awake_box values front k w received sent)
  asleep :
      (values : Bytes) (n : ℕ) (received sent : List ℕ)
      → InOrder (asleep_box values n n false received sent)
      → Shape dummy (asleep_box values n n false received sent)
  storing :
      (values : Bytes) (n b : ℕ) (received sent : List ℕ)
      → n < b
      → InOrder (asleep_box values n b true received sent)
      → Shape dummy (asleep_box values n b true received sent)
  owing :
      (values : Bytes) (front w : ℕ) (received sent : List ℕ)
      → front < w
      → InOrder (ready_box values front w 1 0 received sent)
      → Shape dummy (ready_box values front w 1 0 received sent)
  signalled :
      (values : Bytes) (front w : ℕ) (received sent : List ℕ)
      → front < w
      → InOrder (ready_box values front w 0 (event_write 0 dummy) received sent)
      → Shape dummy (ready_box values front w 0 (event_write 0 dummy) received sent)
