-- ===== src/Tests/Mailbox.antt =====
-- A mailbox with one message on its way.
use libserverkit.Base.{ℕ, ◌<◌, ◌≤◌, ◌≡◌, refl, true, false, ◌++◌, arith, Bytes}
use libserverkit.YPipe.{new_pipe, check_read, write, flush_cas, flush_set, read}
use libserverkit.Mailbox.{
  Mailbox, new_mailbox, send, store, signal, recv_woken, recv_active, is_some, Reach, here, next,
  sends, stores, signals, polls, wakes,
}
use libserverkit.Mailbox.Invariant.{waiting}
use libserverkit.Mailbox.Delivery.{IsQuiet, received_then_waiting, recv_woken-is_some}
use libserverkit.Mailbox.Drain.{OnAllRuns, Delivered, eventually_received}

abbrev slots : Bytes
slots i = 0

abbrev first : Mailbox
first = new_mailbox slots

-- The message 7 was sent, stored and signalled with the number `d`.
abbrev signalled : ℕ → Mailbox
signalled d = signal d (store (send 7 first))

Reach-signalled : (d : ℕ) → Reach d first (signalled d)
unfolding new_mailbox send store signal write flush_cas check_read new_pipe
Reach-signalled d =
    next (next (next here (sends first 7 refl)) (stores (send 7 first) refl))
      (signals (store (send 7 first)) (omega arith))

received_then_waiting_example :
    (signalled 1).received ++ waiting (signalled 1).pipe ≡ (signalled 1).sent
received_then_waiting_example = received_then_waiting 1 slots (signalled 1) (Reach-signalled 1)

passive : (signalled 1).active ≡ false
unfolding new_mailbox send store signal
passive = refl

counted : 0 < (signalled 1).counter
unfolding new_mailbox send store signal
counted = omega arith

recv_woken-is_some_example : is_some (recv_woken (signalled 1)).1 ≡ true
recv_woken-is_some_example =
    recv_woken-is_some 1 slots (signalled 1) (Reach-signalled 1) passive counted

-- The reader wakes, reads the message, and finds no other.
abbrev drained : Mailbox
drained = (recv_active (recv_woken (signalled 1)).0).0

Reach-drained : Reach 1 first drained
unfolding recv_woken
Reach-drained = next (next (Reach-signalled 1) (wakes (signalled 1) passive counted)) (polls _ refl)

drained-IsQuiet : IsQuiet drained
unfolding recv_woken recv_active read check_read new_mailbox send store signal flush_cas new_pipe
    flush_set write
drained-IsQuiet = (refl, refl, refl, refl)

eventually_received_example : OnAllRuns 1 (Delivered (signalled 1).sent) (signalled 1)
eventually_received_example =
    eventually_received 1 slots (signalled 1) (omega arith) (omega arith) (Reach-signalled 1)

first_back : first.pipe.w ≤ first.pipe.back
unfolding new_mailbox new_pipe check_read
first_back = omega arith

new_back : (new_pipe slots).f ≤ (new_pipe slots).back
unfolding new_pipe
new_back = omega arith
