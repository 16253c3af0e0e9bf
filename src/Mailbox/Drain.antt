-- ===== src/Mailbox/Drain.antt =====
-- From any state that the threads reach, every message sent is received in the end.
use libserverkit.Base.{
  ℕ, zero, suc, ◌+◌, ◌-◌, ◌≤◌, ◌<◌, ◌≡◌, ◌≢◌, ◌⊎◌, inl, inr, refl, sym, subst, true, List, [], ◌∷◌,
  ◌++◌, Bytes, slice, arith,
}
use libserverkit.YPipe.{flush_set}
use libserverkit.Mailbox.{
  Mailbox, counter_limit, event_write, new_mailbox, store, signal, recv_active, Step, sends, stores,
  signals, polls, wakes, Reach,
}
use libserverkit.Mailbox.Invariant.{
  InOrder, awake_box, asleep_box, ready_box, Shape, awake, asleep, storing, owing, signalled,
}
use libserverkit.Mailbox.Shapes.{order_read, poll_prefetched, poll_fetches, wake_reads}
use libserverkit.Mailbox.Delivery.{all_read}
use libserverkit.Mailbox.Steps.{Reach-Shape}

-- A step other than that of a new message
abbrev pub IsWork : {dummy : ℕ} {m t : Mailbox} → Step dummy m t → Type 0
IsWork (sends m msg h) = ⊥
IsWork (stores m h) = Unit {0}
IsWork (signals m h) = Unit {0}
IsWork (polls m h) = Unit {0}
IsWork (wakes m h i) = Unit {0}

-- Whatever steps the threads take, in any order, but for new messages, they come to a state with `Q`
-- after finitely many of them; and before that some thread can take a step.
pub data OnAllRuns (dummy : ℕ) (Q : Mailbox → Type 0) : Mailbox → Type 0 where
  now : {m : Mailbox} → Q m → OnAllRuns dummy Q m
  works :
      {m u : Mailbox} (s : Step dummy m u)
      → IsWork s
      → ((t : Mailbox) (r : Step dummy m t) → IsWork r → OnAllRuns dummy Q t)
      → OnAllRuns dummy Q m

-- The messages `msgs`, and no other, were sent, and they were received.
abbrev pub Delivered : List ℕ → Mailbox → Type 0
Delivered msgs m = (m.sent ≡ msgs) × (m.received ≡ msgs)

module _ (dummy : ℕ) (values : Bytes) (sent : List ℕ) where
  abbrev Arrives : Mailbox → Type 0
  Arrives = OnAllRuns dummy (Delivered sent)

  module _ (w : ℕ) where
    all_read_at :
        (front : ℕ) (received : List ℕ)
        → 0 ≡ w - front
        → received ++ slice values front (w - front) ≡ sent
        → received ≡ sent
    all_read_at front received c e = all_read values front received sent (subst order same e)
      where
        order : ℕ → Type 0
        order j = received ++ slice values front j ≡ sent

        same : w - front ≡ front - front
        same = omega arith

    -- An active receiver can do nothing but poll, and nobody else can do anything.
    only_polls :
        (front k : ℕ) (received : List ℕ) (u : Mailbox)
        → (recv_active (awake_box values front k w received sent)).0 ≡ u
        → Arrives u
        → (t : Mailbox) (r : Step dummy (awake_box values front k w received sent) t) → IsWork r
        → Arrives t
    only_polls front k received u e a _ (sends _ msg h) i = absurd i
    only_polls front k received u e a _ (stores _ h) i = cc
    only_polls front k received u e a _ (signals _ h) i = absurd (omega arith)
    only_polls front k received u e a _ (polls _ h) i = subst Arrives (sym e) a
    only_polls front k received u e a _ (wakes _ h l) i = cc

    -- The active receiver reads all that waits.
    awake_Arrives :
        (n front k : ℕ) (received : List ℕ)
        → n ≡ w - front
        → front ≤ k
        → k ≤ w
        → InOrder (awake_box values front k w received sent)
        → (front ≡ k) ⊎ (front ≢ k)
        → Arrives (awake_box values front k w received sent)
    awake_Arrives zero front k received c h i e _ = now (refl, all_read_at front received c e)
    awake_Arrives (suc n) front k received c h i e (inl p) =
        subst (λ j. Arrives (awake_box values front j w received sent)) p
          (works (polls _ refl) tt (
            only_polls front front received _
              (poll_fetches values front w received sent (omega arith))
              (awake_Arrives n (front + 1) w (received ++ values front ∷ []) (omega arith)
                (omega arith) (omega arith)
                (order_read values front w received sent (omega arith) e) (ground arith))))
    awake_Arrives (suc n) front k received c h i e (inr p) = works (polls _ refl) tt (
        only_polls front k received _ (poll_prefetched values front w received sent k p) (
          awake_Arrives n (front + 1) k (received ++ values front ∷ []) (omega arith) (omega arith)
            (omega arith) (order_read values front w received sent (omega arith) e) (ground arith)))

    only_wakes :
        (front counter : ℕ) (received : List ℕ)
        → front ≢ w
        → Arrives (awake_box values (front + 1) w w (received ++ values front ∷ []) sent)
        → (t : Mailbox) (r : Step dummy (ready_box values front w 0 counter received sent) t)
        → IsWork r
        → Arrives t
    only_wakes front counter received ne a _ (sends _ msg h) i = absurd i
    only_wakes front counter received ne a _ (stores _ h) i = cc
    only_wakes front counter received ne a _ (signals _ h) i = absurd (omega arith)
    only_wakes front counter received ne a _ (polls _ h) i = cc
    only_wakes front counter received ne a _ (wakes _ h l) i =
        subst Arrives (sym (wake_reads values front w received sent 0 counter ne refl)) a

    signalled_Arrives :
        (front counter : ℕ) (received : List ℕ)
        → 0 < counter
        → front < w
        → InOrder (ready_box values front w 0 counter received sent)
        → Arrives (ready_box values front w 0 counter received sent)
    signalled_Arrives front counter received d h e = works (wakes _ refl d) tt (
        only_wakes front counter received (omega arith) (
          awake_Arrives (w - (front + 1)) (front + 1) w (received ++ values front ∷ []) refl
            (omega arith) (omega arith) (order_read values front w received sent h e)
            (ground arith)))

    only_signals :
        (front : ℕ) (received : List ℕ)
        → Arrives (ready_box values front w 0 (event_write 0 dummy) received sent)
        → (t : Mailbox) (r : Step dummy (ready_box values front w 1 0 received sent) t) → IsWork r
        → Arrives t
    unfolding signal
    only_signals front received a _ (sends _ msg h) i = absurd i
    only_signals front received a _ (stores _ h) i = cc
    only_signals front received a _ (signals _ h) i = a
    only_signals front received a _ (polls _ h) i = cc
    only_signals front received a _ (wakes _ h l) i = absurd (omega arith)

    owing_Arrives :
        (front : ℕ) (received : List ℕ)
        → 0 < event_write 0 dummy
        → front < w
        → InOrder (ready_box values front w 1 0 received sent)
        → Arrives (ready_box values front w 1 0 received sent)
    owing_Arrives front received d h e =
        works (signals _ (omega arith)) tt
          (only_signals front received (signalled_Arrives front _ received d h e))

  only_stores :
      (n b : ℕ) (received : List ℕ)
      → Arrives (ready_box values n b 1 0 received sent)
      → (t : Mailbox) (r : Step dummy (asleep_box values n b true received sent) t) → IsWork r
      → Arrives t
  unfolding store flush_set
  only_stores n b received a _ (sends _ msg h) i = absurd i
  only_stores n b received a _ (stores _ h) i = a
  only_stores n b received a _ (signals _ h) i = absurd (omega arith)
  only_stores n b received a _ (polls _ h) i = cc
  only_stores n b received a _ (wakes _ h l) i = absurd (omega arith)

arrives :
    {dummy : ℕ} {m : Mailbox}
    → 0 < event_write 0 dummy
    → Shape dummy m
    → OnAllRuns dummy (Delivered m.sent) m
arrives {dummy} d (awake values front k w received sent h i e) =
    awake_Arrives dummy values sent w (w - front) front k received refl h i e (ground arith)
arrives {dummy} d (asleep values n received sent e) = now (refl, all_read values n received sent e)
arrives {dummy} d (storing values n b received sent h e) = works (stores _ refl) tt (
    only_stores dummy values sent n b received (owing_Arrives dummy values sent b n received d h e))
arrives {dummy} d (owing values front w received sent h e) =
    owing_Arrives dummy values sent w front received d h e
arrives {dummy} d (signalled values front w received sent h e) =
    signalled_Arrives dummy values sent w front _ received d h e

-- Where the senders write a number from 1 to 2^64 - 2 to the counter, in every state that the threads
-- reach: if no further message is sent, then whatever steps the threads take, in any order, they come
-- after finitely many of them to a state in which every message sent was received, and before that
-- some thread can always take a step.
pub eventually_received :
    (dummy : ℕ) (values : Bytes) (m : Mailbox)
    → 1 ≤ dummy
    → dummy < counter_limit
    → Reach dummy (new_mailbox values) m
    → OnAllRuns dummy (Delivered m.sent) m
eventually_received dummy values m d l r = arrives (written d l) (Reach-Shape dummy values r)
  where
    written : 1 ≤ dummy → dummy < counter_limit → 0 < event_write 0 dummy
    written a b = ground arith
