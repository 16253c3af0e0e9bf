-- ===== src/Mailbox/Delivery.antt =====
-- What senders and the receiver of a mailbox can rely on.
use libserverkit.Base.{
  ℕ, ◌-◌, ◌≤◌, ◌<◌, ◌≡◌, refl, sym, ap, ◌∙◌, true, false, List, [], ◌++◌, Bytes, slice, arith,
  append-nil,
}
use libserverkit.YPipe.{flush_cas}
use libserverkit.Mailbox.{
  Mailbox, counter_limit, event_write, new_mailbox, recv_woken, send, store, signal, is_some, Step,
  sends, stores, signals, polls, wakes, Reach, here, next,
}
use libserverkit.Mailbox.Invariant.{
  InOrder, Shape, awake, asleep, storing, owing, signalled, waiting,
}
use libserverkit.Mailbox.Shapes.{wake-is_some}
use libserverkit.Mailbox.Steps.{Reach-Shape}

Shape-InOrder : (dummy : ℕ) {m : Mailbox} → Shape dummy m → InOrder m
Shape-InOrder dummy (awake values front k w received sent h i e) = e
Shape-InOrder dummy (asleep values n received sent e) = e
Shape-InOrder dummy (storing values n b received sent h e) = e
Shape-InOrder dummy (owing values front w received sent h e) = e
Shape-InOrder dummy (signalled values front w received sent h e) = e

-- In every state that the threads reach, the messages received, followed by those that wait in the
-- pipe, are the messages sent: none is lost, doubled or out of order.
pub received_then_waiting :
    (dummy : ℕ) (values : Bytes) (m : Mailbox)
    → Reach dummy (new_mailbox values) m
    → m.received ++ waiting m.pipe ≡ m.sent
received_then_waiting dummy values m r = Shape-InOrder dummy (Reach-Shape dummy values r)

woken_reads :
    {dummy : ℕ} {m : Mailbox}
    → Shape dummy m
    → m.active ≡ false
    → 0 < m.counter
    → is_some (recv_woken m).1 ≡ true
woken_reads (awake values front k w received sent h i e) b c = cc
woken_reads (asleep values n received sent e) b c = absurd (omega arith)
woken_reads (storing values n k received sent h e) b c = absurd (omega arith)
woken_reads (owing values front w received sent h e) b c = absurd (omega arith)
woken_reads (signalled values front w received sent h e) b c =
    wake-is_some values front w received sent 0 _ (omega arith)

-- In every state that the threads reach, a `Recv` that was woken by the signal finds a message, so
-- that its unchecked `Read` does not fail.
pub recv_woken-is_some :
    (dummy : ℕ) (values : Bytes) (m : Mailbox)
    → Reach dummy (new_mailbox values) m
    → m.active ≡ false
    → 0 < m.counter
    → is_some (recv_woken m).1 ≡ true
recv_woken-is_some dummy values m r b c = woken_reads (Reach-Shape dummy values r) b c

abbrev pub IsQuiet : Mailbox → Type 0
IsQuiet m = (m.active ≡ false) × (m.held ≡ false) × (m.owed ≡ 0) × (m.counter ≡ 0)

pub all_read :
    (values : Bytes) (n : ℕ) (received sent : List ℕ)
    → received ++ slice values n (n - n) ≡ sent
    → received ≡ sent
unfolding slice
all_read values n received sent e =
    sym (append-nil received) ∙ ap (λ k. received ++ slice values n k) none_left ∙ e
  where
    none_left : 0 ≡ n - n
    none_left = omega arith

settled_read :
    {dummy : ℕ} {m : Mailbox}
    → 1 ≤ dummy
    → dummy < counter_limit
    → Shape dummy m
    → IsQuiet m
    → m.received ≡ m.sent
settled_read d l (awake values front k w received sent h i e) s = cc
settled_read d l (asleep values n received sent e) s = all_read values n received sent e
settled_read d l (storing values n k received sent h e) s = cc
settled_read d l (owing values front w received sent h e) s = absurd (omega arith)
settled_read d l (signalled values front w received sent h e) s = absurd (ground arith)

-- Where the senders write a number from 1 to 2^64 - 2 to the counter, every state that the threads reach
-- in which the receiver sleeps with no signal, stored or still to come, is one in which every
-- message sent was received: no wakeup is lost.
pub settled_received :
    (dummy : ℕ) (values : Bytes) (m : Mailbox)
    → 1 ≤ dummy
    → dummy < counter_limit
    → Reach dummy (new_mailbox values) m
    → IsQuiet m
    → m.received ≡ m.sent
settled_received dummy values m d l r s = settled_read d l (Reach-Shape dummy values r) s

abbrev Unwoken : Mailbox → Type 0
Unwoken m = (m.active ≡ false) × (m.counter ≡ 0) × (m.received ≡ [])

Step-Unwoken : {m t : Mailbox} → Unwoken m → Step 0 m t → Unwoken t
unfolding send store signal flush_cas
Step-Unwoken u (sends _ msg _) = u
Step-Unwoken u (stores _ b) = u
Step-Unwoken u (signals m b) = (u.0, ap (λ k. event_write k 0) u.1, u.2)
Step-Unwoken u (polls m b) = cc
Step-Unwoken u (wakes m b c) = absurd (omega (arith, u.1))

Reach-Unwoken : (values : Bytes) {m : Mailbox} → Reach 0 (new_mailbox values) m → Unwoken m
unfolding new_mailbox
Reach-Unwoken values here = (refl, refl, refl)
Reach-Unwoken values (next r s) = Step-Unwoken (Reach-Unwoken values r) s

-- Where the number that the senders write to the counter is 0, which the source leaves
-- uninitialised, the receiver never receives a message in any state that the threads reach.
pub zero_never_received :
    (values : Bytes) (m : Mailbox) → Reach 0 (new_mailbox values) m → m.received ≡ []
zero_never_received values m r = (Reach-Unwoken values r).2
